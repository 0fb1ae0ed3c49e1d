-- ===== src/Shell/Lifecycle.antt =====
-- The end of a program: its exit, the interrupt that this raises, and the kill that reaps it.
use mathlib.Core.Bool.{false≢true}
use capstone_myos.Prelude.{
  ℕ, ◌+◌, ◌%◌, ◌^◌, ◌<◌, ◌≡◌, ◌≢◌, sym, ◌∙◌, arith, true, Option, none, some, update, inl, inr,
}
use capstone_myos.Vga.{Vga}
use capstone_myos.Process.{Registers, Kernel, zero_task, zombie}
use capstone_myos.Process.Fairness.{HasPids}
use capstone_myos.Timer.{timer_handler}
use capstone_myos.Timer.Wake.{timer_handler-Ticked}
use capstone_myos.Syscall.{sys_exit, mark_exit}
use capstone_myos.Syscall.Exit.{
  exited, mark_exit-exited, exited-pids, exited-state, wake_entry-zombie,
}
use capstone_myos.Exec.Program.{System}
use capstone_myos.Shell.Commands.{kill}
use capstone_myos.Shell.Reap.{is_prey, IsKill, kill_lem}

-- What the kill leaves: the entry is zeroed and no other has changed; `none` is a page fault in freeing
-- the program's memory.
abbrev pub IsCleared : ℕ → System → Option (System × Vga) → Type 0
IsCleared c s none = Unit
IsCleared c s (some (s', v)) =
    s'.kernel ≡ record s.kernel { process_table = update s.kernel.process_table c zero_task }

IsKill-IsCleared :
    (c : ℕ) (s : System) (r : Option (System × Vga))
    → is_prey c s ≡ true
    → IsKill c s r
    → IsCleared c s r
IsKill-IsCleared c s none prey k = tt
IsKill-IsCleared c s (some (s', v)) prey (inl (_, h)) = h.0
IsKill-IsCleared c s (some (s', v)) prey (inr (other, _)) = absurd (false≢true (sym other ∙ prey))

prey_zombie :
    (c : ℕ) (s : System)
    → c ≢ 0
    → c < 16
    → (s.kernel.process_table c).state ≡ zombie
    → is_prey c s ≡ true
prey_zombie c s nz lt z = rw z (ground arith)

sys_exit_made :
    (frame frame' : Registers) (k k1 k2 : Kernel)
    → mark_exit k ≡ some k1
    → timer_handler frame k1 ≡ some (frame', k2)
    → sys_exit frame k ≡ some (frame', k2)
unfolding sys_exit
sys_exit_made frame frame' k k1 k2 e t = rw (sys_exit, e) t

-- With multitasking on and pids equal to indices, sys_exit by a task of the table other than the idle
-- task returns, from its interrupt, with the task a zombie; and kill, called with its index whatever the
-- memory, then clears its entry and no other, unless freeing its memory faults.
pub exit_then_kill :
    (frame : Registers) (s : System) (k : Kernel) (v : Vga) (c : ℕ)
    → k.multitasking_enabled ≡ true
    → k.current_task ≡ some c
    → HasPids k
    → c ≢ 0
    → c < 16
    → (frame' : Registers) × (k' : Kernel) × (sys_exit frame k ≡ some (frame', k'))
      × ((k'.process_table c).state ≡ zombie)
      × IsCleared c (record s { kernel = k' }) (kill (some c) (record s { kernel = k' }) v)
exit_then_kill frame s k v c on cur pids nz small =
    let (frame', k', n, e, t) =
      timer_handler-Ticked frame (exited c k) c cur small (exited-pids c k pids) in
    let z : (k'.process_table c).state ≡ zombie =
      t.states c small
      ∙ wake_entry-zombie ((k.tick + 1) % 2 ^ 32) ((exited c k).process_table c)
          (exited-state c k) in
    let s' = record s { kernel = k' } in
    (
      frame',
      k',
      sys_exit_made frame frame' k (exited c k) k' (mark_exit-exited c k cur) e,
      z,
      IsKill-IsCleared c s' (kill (some c) s' v) (prey_zombie c s' nz small z) (kill_lem c s' v),
    )
