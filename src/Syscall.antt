-- ===== src/Syscall.antt =====
-- kernel/syscall.c: the dispatch table, and the system call that ends a program.
pub mod Dispatch
pub mod Exit
pub mod Live
pub mod Calls
mod Tests
use capstone_myos.Prelude.{
  ℕ, zero, suc, Bool, true, false, ◌&&◌, Option, none, some, List, [], ◌∷◌, ◌==◌, ltb,
  if◌then◌else◌, update,
}
use capstone_myos.Process.{TaskState, running, zombie, Task, Registers, Kernel, is_waiting}
use capstone_myos.Timer.{timer_handler}

pub data Handler : Type 0 where
  sys_test_print sys_getchar sys_exit_call sys_play_sound sys_sleep : Handler

-- The table that syscall_install fills; it starts zeroed.
unfoldable pub syscall_install : ℕ → Option Handler
syscall_install =
    update
      (update
        (update (update (update (λ i. none) 1 (some sys_test_print)) 2 (some sys_getchar)) 3
          (some sys_exit_call))
        4 (some sys_play_sound))
      5 (some sys_sleep)

-- What syscall_handler calls for the number in EAX; `none` is the message of an invalid number.
unfoldable pub syscall_handler : (ℕ → Option Handler) → ℕ → Option Handler
syscall_handler table syscall_num =
    if ltb 0 syscall_num && ltb syscall_num 32 then table syscall_num else none

-- The part of sys_exit that writes the process table; `none` where it would write through NULL.
unfoldable pub mark_exit : Kernel → Option Kernel
mark_exit k = elim k.current_task [
  | none ↦ none
  | some c ↦
      let woken =
        if is_waiting (k.process_table 1).state
        then update k.process_table 1 (record (k.process_table 1) { state = running })
        else k.process_table in
      some (record k { process_table = update woken c (record (woken c) { state = zombie }) })
]

-- sys_exit: the table, then interrupt 0x20, whose frame is `frame`.
unfoldable pub sys_exit : Registers → Kernel → Option (Registers × Kernel)
sys_exit frame k = elim (mark_exit k) [ none ↦ none | some k' ↦ timer_handler frame k' ]
