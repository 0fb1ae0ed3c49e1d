-- ===== src/Timer/Sleep.antt =====
-- How long a task sleeps, in clock interrupts.
use capstone_myos.Prelude.{
  ℕ, ◌+◌, ◌-◌, ◌%◌, ◌^◌, ◌<◌, ◌≤◌, ◌≡◌, refl, ap, arith, Option, none, some, List, [], ◌∷◌, length,
  ltb, if◌then◌else◌, update, ==_refl, ◌∙◌, Bool-cases, inl, inr,
}
use capstone_myos.Process.{Task, TaskState, running, sleeping, Registers, Kernel}
use capstone_myos.Process.Fairness.{HasPids}
use capstone_myos.Timer.{wake_entry, timer_handler, ticks_to_wait, sleep}
use capstone_myos.Timer.Wake.{timer_handler-Ticked}

-- Successive clock interrupts, one for each frame.
unfoldable pub tick_all : List Registers → Kernel → Option Kernel
tick_all [] k = some k
tick_all (r ∷ rs) k = elim (timer_handler r k) [ none ↦ none | some (_, k') ↦ tick_all rs k' ]

pub wake_entry-running :
    (now : ℕ) (t : Task) → t.state ≡ running → (wake_entry now t).state ≡ running
unfolding wake_entry
wake_entry-running now t h = ground arith

wake_entry-early :
    (now : ℕ) (t : Task)
    → t.state ≡ sleeping
    → now < t.wakeup_time
    → (wake_entry now t).state ≡ sleeping
unfolding wake_entry
wake_entry-early now t h lt = ground arith

wake_entry-due :
    (now : ℕ) (t : Task)
    → t.state ≡ sleeping
    → t.wakeup_time ≤ now
    → (wake_entry now t).state ≡ running
unfolding wake_entry
wake_entry-due now t h le = ground arith

pub tick_all-step :
    (r r' : Registers) (rs : List Registers) (k k' : Kernel)
    → timer_handler r k ≡ some (r', k')
    → tick_all (r ∷ rs) k ≡ tick_all rs k'
unfolding tick_all
tick_all-step r r' rs k k' e = rw (e, tick_all)

-- The result of the interrupts, with the state of entry `i` in it.
abbrev Leaves : List Registers → Kernel → ℕ → TaskState → Type 0
Leaves rs k i s = (k' : Kernel) × (tick_all rs k ≡ some k') × ((k'.process_table i).state ≡ s)

stays_running :
    (rs : List Registers) (k : Kernel) (c i : ℕ)
    → k.current_task ≡ some c
    → c < 16
    → HasPids k
    → i < 16
    → (k.process_table i).state ≡ running
    → Leaves rs k i running
unfolding tick_all
stays_running [] k c i cur lt pids small run = (k, refl, run)
stays_running (r ∷ rs) k c i cur lt pids small run =
    let ih = stays_running rs in
    let (r', k', n, e, t) = timer_handler-Ticked r k c cur lt pids in
    let (k2, e2, s) =
      ih k' n i t.current t.in_table t.pids small
        (t.states i small ∙ wake_entry-running ((k.tick + 1) % 2 ^ 32) (k.process_table i) run) in
    (k2, tick_all-step r r' rs k k' e ∙ e2, s)

sleeps :
    (rs : List Registers) (k : Kernel) (c i w : ℕ)
    → k.current_task ≡ some c
    → c < 16
    → HasPids k
    → i < 16
    → k.tick + length rs < 2 ^ 32
    → (k.process_table i).state ≡ sleeping
    → (k.process_table i).wakeup_time ≡ k.tick + w
    → 0 < w
    → Leaves rs k i (if ltb (length rs) w then sleeping else running)
unfolding tick_all
sleeps [] k c i w cur lt pids small bound st at pos = (k, refl, ground arith)
sleeps (r ∷ rs) k c i w cur lt pids small bound st at pos =
    let ih = sleeps rs in
    let (r', k', n, e, t) = timer_handler-Ticked r k c cur lt pids in
    let same : (k.tick + 1) % 2 ^ 32 ≡ k.tick + 1 = omega arith in
    let now : k'.tick ≡ k.tick + 1 = t.clock ∙ same in
    let state : (k'.process_table i).state ≡ (wake_entry (k.tick + 1) (k.process_table i)).state =
      t.states i small ∙ ap (λ (x : ℕ). (wake_entry x (k.process_table i)).state) same in
    elim (Bool-cases (ltb 1 w)) [
      | inl more ↦
          let (k2, e2, s) =
            ih k' n i (w - 1) t.current t.in_table t.pids small (omega (arith, now))
              (state ∙ wake_entry-early (k.tick + 1) (k.process_table i) st (ground arith))
              (t.wakeups i ∙ at ∙ ground (arith, now)) (ground arith) in
          (k2, tick_all-step r r' rs k k' e ∙ e2, s ∙ ground arith)
      | inr due ↦
          let (k2, e2, s) =
            stays_running rs k' n i t.current t.in_table t.pids small
              (state ∙ wake_entry-due (k.tick + 1) (k.process_table i) st (ground arith)) in
          (k2, tick_all-step r r' rs k k' e ∙ e2, s ∙ ground arith)
    ]

ticks_to_wait_pos : (milliseconds : ℕ) → 0 < ticks_to_wait milliseconds
unfolding ticks_to_wait
ticks_to_wait_pos milliseconds = ground arith

-- The state that sleep leaves.
abbrev pub asleep : ℕ → ℕ → Kernel → Kernel
asleep milliseconds c k = record k {
  process_table = update k.process_table c (record (k.process_table c) {
    state = sleeping;
    wakeup_time = (k.tick + ticks_to_wait milliseconds) % 2 ^ 32;
  });
}

pub sleep-asleep :
    (milliseconds c : ℕ) (k : Kernel)
    → k.current_task ≡ some c
    → sleep milliseconds k ≡ some (asleep milliseconds c k)
unfolding sleep
sleep-asleep milliseconds c k cur = ground arith

pub asleep-pids : (milliseconds c : ℕ) (k : Kernel) → HasPids k → HasPids (asleep milliseconds c k)
asleep-pids milliseconds c k pids i lt = ground (arith, pids i lt)

asleep-state :
    (milliseconds c : ℕ) (k : Kernel) → ((asleep milliseconds c k).process_table c).state ≡ sleeping
asleep-state milliseconds c k = rw (==_refl c)

asleep-wakeup :
    (milliseconds c : ℕ) (k : Kernel)
    → k.tick + ticks_to_wait milliseconds < 2 ^ 32
    → ((asleep milliseconds c k).process_table c).wakeup_time ≡ k.tick + ticks_to_wait milliseconds
asleep-wakeup milliseconds c k fits = rw (==_refl c) (omega arith)

-- A task that calls sleep, in a table whose pids are its indices, is asleep through fewer clock
-- interrupts than its milliseconds make ticks of 10 ms (one tick at least), and runnable from that
-- interrupt on, whatever other tasks run meanwhile, if the 32-bit clock does not wrap before. All
-- interrupts return.
pub sleep_lasts :
    (rs : List Registers) (milliseconds c : ℕ) (k : Kernel)
    → k.current_task ≡ some c
    → c < 16
    → HasPids k
    → k.tick + length rs < 2 ^ 32
    → k.tick + ticks_to_wait milliseconds < 2 ^ 32
    → (k1 : Kernel) × (k2 : Kernel) × (sleep milliseconds k ≡ some k1)
      × (tick_all rs k1 ≡ some k2)
      × ((k2.process_table c).state
          ≡ (if ltb (length rs) (ticks_to_wait milliseconds) then sleeping else running))
sleep_lasts rs milliseconds c k cur lt pids bound fits =
    let (k2, e, s) =
      sleeps rs (asleep milliseconds c k) c c (ticks_to_wait milliseconds) cur lt
        (asleep-pids milliseconds c k pids) lt bound (asleep-state milliseconds c k)
        (asleep-wakeup milliseconds c k fits) (ticks_to_wait_pos milliseconds) in
    (asleep milliseconds c k, k2, sleep-asleep milliseconds c k cur, e, s)
