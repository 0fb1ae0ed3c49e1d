-- ===== src/Syscall/Exit.antt =====
-- sys_exit: after its exit a process never runs again.
use native.Mathlib.Decide.{ℕ_discrete}
use mathlib.Core.Bool.{false≢true}
use capstone_myos.Prelude.{
  ℕ, ◌+◌, ◌%◌, ◌^◌, ◌<◌, ◌≡◌, ◌≢◌, ap, arith, true, false, ◌&&◌, some, List, [], ◌∷◌, ◌==◌,
  if◌then◌else◌, update, ==_refl, ==_of_ne, sym, ◌∙◌, inl, inr,
}
use capstone_myos.Process.{Task, running, zombie, is_waiting, is_running, Registers, Kernel}
use capstone_myos.Process.Next.{runs}
use capstone_myos.Process.Schedule.{IsChosen}
use capstone_myos.Process.Fairness.{HasPids}
use capstone_myos.Timer.{wake_entry, advance}
use capstone_myos.Timer.Wake.{timer_handler-Ticked, advance-entry}
use capstone_myos.Timer.Sleep.{tick_all, tick_all-step}
use capstone_myos.Syscall.{mark_exit}

-- A task that can neither run nor be woken is not picked, unless it is the idle task.
picked-other :
    (table : ℕ → Task) (p c n : ℕ) → c ≢ 0 → runs table c ≡ false → IsChosen table p n → n ≢ c
picked-other table p c n nz off (inl (_, e)) = λ e'. nz (sym e' ∙ e)
picked-other table p c n nz off (inr (j, a, b, e, run, before)) =
    λ e'. false≢true (sym off ∙ ap (runs table) (sym e') ∙ run)

pub wake_entry-zombie : (now : ℕ) (t : Task) → t.state ≡ zombie → (wake_entry now t).state ≡ zombie
unfolding wake_entry
wake_entry-zombie now t h = ground arith

advance-zombie :
    (k : Kernel) (c : ℕ)
    → c < 16
    → (k.process_table c).state ≡ zombie
    → ((advance k).process_table c).state ≡ zombie
advance-zombie k c lt z =
    ap (λ (t : Task). t.state) (advance-entry k c lt)
    ∙ wake_entry-zombie ((k.tick + 1) % 2 ^ 32) (k.process_table c) z

-- Interrupts, from any current task, in a table where `c` is a zombie.
zombie_stays :
    (r : Registers) (rs : List Registers) (k : Kernel) (o c : ℕ)
    → k.multitasking_enabled ≡ true
    → k.current_task ≡ some o
    → o < 16
    → HasPids k
    → c ≢ 0
    → c < 16
    → (k.process_table c).state ≡ zombie
    → (k' : Kernel) × (n : ℕ) × (tick_all (r ∷ rs) k ≡ some k')
      × ((k'.process_table c).state ≡ zombie)
      × (k'.current_task ≡ some n)
      × (n ≢ c)
unfolding tick_all
zombie_stays r [] k o c on cur lt pids nz small z =
    let (r', k1, n, e, t) = timer_handler-Ticked r k o cur lt pids in
    let z1 : (k1.process_table c).state ≡ zombie =
      t.states c small ∙ wake_entry-zombie ((k.tick + 1) % 2 ^ 32) (k.process_table c) z in
    let off : runs (advance k).process_table c ≡ false =
      ap is_running (advance-zombie k c small z) in
    (
      k1,
      n,
      tick_all-step r r' [] k k1 e,
      z1,
      t.current,
      picked-other (advance k).process_table o c n nz off (t.picked on),
    )
zombie_stays r (r1 ∷ rs) k o c on cur lt pids nz small z =
    let ih = zombie_stays r1 rs in
    let (r', k1, n, e, t) = timer_handler-Ticked r k o cur lt pids in
    let z1 : (k1.process_table c).state ≡ zombie =
      t.states c small ∙ wake_entry-zombie ((k.tick + 1) % 2 ^ 32) (k.process_table c) z in
    let (k2, m, e2, z2, cur2, ne) =
      ih k1 n c (t.mode ∙ on) t.current t.in_table t.pids nz small z1 in
    (k2, m, tick_all-step r r' (r1 ∷ rs) k k1 e ∙ e2, z2, cur2, ne)

-- The table after an exit.
abbrev woken : Kernel → ℕ → Task
woken k =
    if is_waiting (k.process_table 1).state
    then update k.process_table 1 (record (k.process_table 1) { state = running })
    else k.process_table

abbrev pub exited : ℕ → Kernel → Kernel
exited c k = record k { process_table = update (woken k) c (record (woken k c) { state = zombie }) }

pub mark_exit-exited :
    (c : ℕ) (k : Kernel) → k.current_task ≡ some c → mark_exit k ≡ some (exited c k)
unfolding mark_exit
mark_exit-exited c k cur = ground arith

woken-pids : (k : Kernel) (i : ℕ) → (woken k i).pid ≡ (k.process_table i).pid
woken-pids k i = ground arith

pub exited-pids : (c : ℕ) (k : Kernel) → HasPids k → HasPids (exited c k)
exited-pids c k pids i lt = elim (ℕ_discrete i c) [
  | yes e ↦ rw (e, ==_refl c) (woken-pids k c ∙ rw e at (pids i lt))
  | no ne ↦ rw (==_of_ne i c ne) (woken-pids k i ∙ pids i lt)
]

pub exited-state : (c : ℕ) (k : Kernel) → ((exited c k).process_table c).state ≡ zombie
exited-state c k = rw (==_refl c)

pub exited-others :
    (c : ℕ) (k : Kernel) (i : ℕ)
    → i ≢ c
    → ((exited c k).process_table i).state ≡ (
        if (i == 1) && is_waiting (k.process_table i).state
        then running
        else (k.process_table i).state)
exited-others c k i ne = ground arith

-- With multitasking on and pids equal to indices, sys_exit by a task of the table other than the idle
-- task makes it a zombie, lets the shell run if it waits, and changes no other task's state. Through any number of interrupts from then on, the first being
-- the one that sys_exit raises, the task stays a zombie and is never current again.
pub exit_is_final :
    (frame : Registers) (rs : List Registers) (k : Kernel) (c : ℕ)
    → k.multitasking_enabled ≡ true
    → k.current_task ≡ some c
    → HasPids k
    → c ≢ 0
    → c < 16
    → (k1 : Kernel) × (k2 : Kernel) × (n : ℕ) × (mark_exit k ≡ some k1)
      × ((i : ℕ)
          → i ≢ c
          → (k1.process_table i).state ≡ (
              if (i == 1) && is_waiting (k.process_table i).state
              then running
              else (k.process_table i).state))
      × (tick_all (frame ∷ rs) k1 ≡ some k2)
      × ((k2.process_table c).state ≡ zombie)
      × (k2.current_task ≡ some n)
      × (n ≢ c)
exit_is_final frame rs k c on cur pids nz small =
    let (k2, n, e, z, cur2, ne) =
      zombie_stays frame rs (exited c k) c c on cur small (exited-pids c k pids) nz small
        (exited-state c k) in
    (exited c k, k2, n, mark_exit-exited c k cur, exited-others c k, e, z, cur2, ne)
