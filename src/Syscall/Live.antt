-- ===== src/Syscall/Live.antt =====
-- Whatever the processes do, the clock interrupt finds a task that can run.
use mathlib.Core.Bool.{false≢true}
use capstone_myos.Prelude.{
  ℕ, ◌+◌, ◌%◌, ◌^◌, ◌<◌, ◌≡◌, ◌≢◌, refl, ap, arith, true, Option, some, sym, ◌∙◌, inl, inr,
}
use capstone_myos.Process.{
  Task, TaskState, unused, running, sleeping, waiting, zombie, is_running, Registers, Kernel,
}
use capstone_myos.Process.Schedule.{IsChosen}
use capstone_myos.Process.Fairness.{HasPids}
use capstone_myos.Timer.{advance, timer_handler, sleep}
use capstone_myos.Timer.Wake.{Ticked, timer_handler-Ticked, advance-entry}
use capstone_myos.Timer.Sleep.{wake_entry-running, asleep, asleep-pids, sleep-asleep}
use capstone_myos.Syscall.{mark_exit}
use capstone_myos.Syscall.Exit.{exited, mark_exit-exited, exited-pids, exited-others}

-- What the processes and the clock do to the table: the idle task neither sleeps nor exits.
pub data Step (k : Kernel) : Kernel → Type 0 where
  interrupt : (k' : Kernel) (r r' : Registers) → timer_handler r k ≡ some (r', k') → Step k k'
  falls_asleep :
      (k' : Kernel) (milliseconds : ℕ)
      → k.current_task ≢ some 0
      → sleep milliseconds k ≡ some k'
      → Step k k'
  exits : (k' : Kernel) → k.current_task ≢ some 0 → mark_exit k ≡ some k' → Step k k'

pub data Reaches (k : Kernel) : Kernel → Type 0 where
  start : Reaches k k
  step : (k1 k2 : Kernel) → Reaches k k1 → Step k1 k2 → Reaches k k2

pub record IsLive (k : Kernel) (c : ℕ) : Type 0 where
  pub on : k.multitasking_enabled ≡ true
  pub current : k.current_task ≡ some c
  pub in_table : c < 16
  pub pids : HasPids k
  pub idle : (k.process_table 0).state ≡ running

running_of : (s : TaskState) → is_running s ≡ true → s ≡ running
running_of running e = refl
running_of unused e = absurd (false≢true e)
running_of sleeping e = absurd (false≢true e)
running_of waiting e = absurd (false≢true e)
running_of zombie e = absurd (false≢true e)

advance-idle :
    (k : Kernel)
    → (k.process_table 0).state ≡ running
    → ((advance k).process_table 0).state ≡ running
advance-idle k idle =
    ap (λ (t : Task). t.state) (advance-entry k 0 (omega arith))
    ∙ wake_entry-running ((k.tick + 1) % 2 ^ 32) (k.process_table 0) idle

chosen_running :
    (table : ℕ → Task) (c n : ℕ)
    → (table 0).state ≡ running
    → IsChosen table c n
    → (table n).state ≡ running
chosen_running table c n idle (inl (_, e)) = rw (e) idle
chosen_running table c n idle (inr (j, a, b, e, run, before)) = running_of (table n).state run

Ticked-IsLive : (k k' : Kernel) (c n : ℕ) → IsLive k c → Ticked k k' c n → IsLive k' n
Ticked-IsLive k k' c n live t = record {
  on = t.mode ∙ live.on;
  current = t.current;
  in_table = t.in_table;
  pids = t.pids;
  idle =
      t.states 0 (omega arith)
      ∙ wake_entry-running ((k.tick + 1) % 2 ^ 32) (k.process_table 0) live.idle;
}

-- One interrupt in a live state: the task that it leaves current can run.
interrupt-IsLive :
    (r : Registers) (k : Kernel) (c : ℕ)
    → IsLive k c
    → (r' : Registers) × (k' : Kernel) × (n : ℕ) × (timer_handler r k ≡ some (r', k'))
      × IsLive k' n
      × ((k'.process_table n).state ≡ running)
interrupt-IsLive r k c live =
    let (r', k', n, e, t) = timer_handler-Ticked r k c live.current live.in_table live.pids in
    let run : ((advance k).process_table n).state ≡ running =
      chosen_running (advance k).process_table c n (advance-idle k live.idle) (t.picked live.on) in
    (
      r',
      k',
      n,
      e,
      Ticked-IsLive k k' c n live t,
      t.states n t.in_table ∙ sym (ap (λ (x : Task). x.state) (advance-entry k n t.in_table)) ∙ run,
    )

not_idle : (k : Kernel) (c : ℕ) → k.current_task ≡ some c → k.current_task ≢ some 0 → c ≢ 0
not_idle k c cur ne e = ne (cur ∙ ap some e)

asleep-IsLive :
    (milliseconds : ℕ) (k : Kernel) (c : ℕ)
    → IsLive k c
    → c ≢ 0
    → IsLive (asleep milliseconds c k) c
asleep-IsLive milliseconds k c live nz = record {
  on = live.on;
  current = live.current;
  in_table = live.in_table;
  pids = asleep-pids milliseconds c k live.pids;
  idle = ground (arith, live.idle);
}

exited-IsLive : (k : Kernel) (c : ℕ) → IsLive k c → c ≢ 0 → IsLive (exited c k) c
exited-IsLive k c live nz = record {
  on = live.on;
  current = live.current;
  in_table = live.in_table;
  pids = exited-pids c k live.pids;
  idle = exited-others c k 0 (λ e. nz (sym e)) ∙ live.idle;
}

same_state :
    (r r' : Registers) (k k' : Kernel)
    → ◌≡◌ {A = Option (Registers × Kernel)} (some (r, k)) (some (r', k'))
    → k ≡ k'
same_state r r' k k' e = cc

sleep_state : (k k' : Kernel) → ◌≡◌ {A = Option Kernel} (some k) (some k') → k ≡ k'
sleep_state k k' e = cc

Step-IsLive : (k k' : Kernel) (c : ℕ) → IsLive k c → Step k k' → (n : ℕ) × IsLive k' n
Step-IsLive k _ c live (interrupt k' r r' e) =
    let (r1, k1, n, e1, l, run) = interrupt-IsLive r k c live in
    (n, rw (same_state r1 r' k1 k' (sym e1 ∙ e)) at l)
Step-IsLive k _ c live (falls_asleep k' milliseconds ne e) = (
  c,
  rw
      (sleep_state (asleep milliseconds c k) k'
        (sym (sleep-asleep milliseconds c k live.current) ∙ e))
      at (asleep-IsLive milliseconds k c live (not_idle k c live.current ne)),
)
Step-IsLive k _ c live (exits k' ne e) = (
  c,
  rw (sleep_state (exited c k) k' (sym (mark_exit-exited c k live.current) ∙ e)) at
      (exited-IsLive k c live (not_idle k c live.current ne)),
)

Reaches-IsLive : (k k' : Kernel) (c : ℕ) → IsLive k c → Reaches k k' → (n : ℕ) × IsLive k' n
Reaches-IsLive k _ c live start = (c, live)
Reaches-IsLive k _ c live (step k1 k2 r s) =
    let (n, l) = Reaches-IsLive k k1 c live r in Step-IsLive k1 k2 n l s

-- From a state with multitasking on, a current task in the table, pids equal to indices and the idle
-- task runnable: however the processes sleep, exit and are interrupted, as long as the idle task
-- neither sleeps nor exits, every further clock interrupt returns, and the task that it makes
-- current can run.
pub interrupts_live :
    (r : Registers) (k0 k : Kernel) (c : ℕ)
    → IsLive k0 c
    → Reaches k0 k
    → (r' : Registers) × (k' : Kernel) × (n : ℕ) × (timer_handler r k ≡ some (r', k'))
      × (k'.current_task ≡ some n)
      × (n < 16)
      × ((k'.process_table n).state ≡ running)
interrupts_live r k0 k c live reach =
    let (m, l) = Reaches-IsLive k0 k c live reach in
    let (r', k', n, e, after, run) = interrupt-IsLive r k m l in
    (r', k', n, e, after.current, after.in_table, run)
