-- ===== src/Timer/Wake.antt =====
-- The wake-up loop, in closed form, and one clock interrupt.
use native.Mathlib.Decide.{ℕ_discrete}
use mathlib.Core.Bool.{false≢true}
use capstone_myos.Prelude.{
  ℕ, zero, suc, ◌+◌, ◌%◌, ◌^◌, ◌<◌, ◌≡◌, refl, ap, arith, true, false, ◌&&◌, some, Bool-cases, inl,
  inr, update, leb, ltb, if◌then◌else◌, update_ne, sym, ◌∙◌,
}
use capstone_myos.Process.{Task, Registers, Kernel, switch_to, restore}
use capstone_myos.Process.Schedule.{
  IsValid, chosen, after, IsChosen, schedule_lem, chosen-IsChosen, state-table_saved,
  wakeup-table_saved,
}
use capstone_myos.Process.Fairness.{HasPids, pids-after, current-after}
use capstone_myos.Timer.{wake_entry, wake, advance, timer_handler}

wake-below : (n i tick : ℕ) (table : ℕ → Task) (j : ℕ) → j < i → wake n i tick table j ≡ table j
unfolding wake
wake-below zero i tick table j lt = refl
wake-below (suc n) i tick table j lt =
    wake-below n (suc i) tick (update table i (wake_entry tick (table i))) j (omega arith)
    ∙ update_ne table i j (wake_entry tick (table i)) (λ e. omega arith)

-- The loop of timer_handler, over `n` entries from `i` on, does its body to each of them once, in the
-- state in which it found it, and changes no entry outside.
pub wake_lem :
    (n i tick : ℕ) (table : ℕ → Task) (j : ℕ)
    → wake n i tick table j
      ≡ (if leb i j && ltb j (i + n) then wake_entry tick (table j) else table j)
unfolding wake
wake_lem zero i tick table j = ground arith
wake_lem (suc n) i tick table j = elim (ℕ_discrete j i) [
  | yes e ↦
      wake-below n (suc i) tick (update table i (wake_entry tick (table i))) j (omega arith)
      ∙ ground arith
  | no ne ↦
      wake_lem n (suc i) tick (update table i (wake_entry tick (table i))) j
      ∙ ground (arith, update_ne table i j (wake_entry tick (table i)) ne)
]

-- What one clock interrupt makes of the kernel.
pub record Ticked (k k' : Kernel) (c n : ℕ) : Type 0 where
  pub clock : k'.tick ≡ (k.tick + 1) % 2 ^ 32
  pub mode : k'.multitasking_enabled ≡ k.multitasking_enabled
  pub states :
      (i : ℕ)
      → i < 16
      → (k'.process_table i).state ≡ (wake_entry ((k.tick + 1) % 2 ^ 32) (k.process_table i)).state
  pub wakeups : (i : ℕ) → (k'.process_table i).wakeup_time ≡ (k.process_table i).wakeup_time
  pub pids : HasPids k'
  pub current : k'.current_task ≡ some n
  pub in_table : n < 16
  pub picked : k.multitasking_enabled ≡ true → IsChosen (advance k).process_table c n

wakeup-wake_entry : (now : ℕ) (t : Task) → (wake_entry now t).wakeup_time ≡ t.wakeup_time
unfolding wake_entry
wakeup-wake_entry now t = ground arith

pid-wake_entry : (now : ℕ) (t : Task) → (wake_entry now t).pid ≡ t.pid
unfolding wake_entry
pid-wake_entry now t = ground arith

pub advance-entry :
    (k : Kernel) (i : ℕ)
    → i < 16
    → (advance k).process_table i ≡ wake_entry ((k.tick + 1) % 2 ^ 32) (k.process_table i)
unfolding advance
advance-entry k i lt = ground (arith, wake_lem 16 0 ((k.tick + 1) % 2 ^ 32) k.process_table i)

advance-wakeup :
    (k : Kernel) (i : ℕ)
    → ((advance k).process_table i).wakeup_time ≡ (k.process_table i).wakeup_time
unfolding advance
advance-wakeup k i = ground (
  arith,
  wake_lem 16 0 ((k.tick + 1) % 2 ^ 32) k.process_table i,
  wakeup-wake_entry ((k.tick + 1) % 2 ^ 32) (k.process_table i),
)

advance-IsValid :
    (k : Kernel) (c : ℕ) → k.current_task ≡ some c → c < 16 → HasPids k → IsValid (advance k) c
unfolding advance
advance-IsValid k c cur lt pids = record {
  current = cur;
  in_table = lt;
  pids =
      ap (λ (t : Task). t.pid) (advance-entry k c lt)
      ∙ pid-wake_entry ((k.tick + 1) % 2 ^ 32) (k.process_table c)
      ∙ pids c lt;
}

advance-pids : (k : Kernel) → HasPids k → HasPids (advance k)
advance-pids k pids i lt =
    ap (λ (t : Task). t.pid) (advance-entry k i lt)
    ∙ pid-wake_entry ((k.tick + 1) % 2 ^ 32) (k.process_table i)
    ∙ pids i lt

handler-off :
    (r : Registers) (k : Kernel)
    → k.multitasking_enabled ≡ false
    → timer_handler r k ≡ some (r, advance k)
unfolding timer_handler
handler-off r k off = ground arith

handler-on :
    (r : Registers) (k : Kernel) (c : ℕ)
    → IsValid (advance k) c
    → k.multitasking_enabled ≡ true
    → timer_handler r k
      ≡ some (
        restore ((after r (advance k) c).process_table (chosen r (advance k) c)).cpu_state r,
        after r (advance k) c,
      )
unfolding timer_handler
handler-on r k c v on = ground (arith, schedule_lem r (advance k) c v)

chosen-bound : (table : ℕ → Task) (c n : ℕ) → IsChosen table c n → n < 16
chosen-bound table c n (inl (_, e)) = omega arith
chosen-bound table c n (inr (j, a, b, e, run, before)) = omega arith

Ticked-off :
    (k : Kernel) (c : ℕ)
    → k.current_task ≡ some c
    → c < 16
    → HasPids k
    → k.multitasking_enabled ≡ false
    → Ticked k (advance k) c c
unfolding advance
Ticked-off k c cur lt pids off = record {
  clock = refl;
  mode = refl;
  states = λ i less. ap (λ (t : Task). t.state) (advance-entry k i less);
  wakeups = advance-wakeup k;
  pids = advance-pids k pids;
  current = cur;
  in_table = lt;
  picked = λ on. absurd (false≢true (sym off ∙ on));
}

Ticked-on :
    (r : Registers) (k : Kernel) (c : ℕ)
    → k.current_task ≡ some c
    → c < 16
    → HasPids k
    → Ticked k (after r (advance k) c) c (chosen r (advance k) c)
unfolding advance switch_to
Ticked-on r k c cur lt pids = record {
  clock = refl;
  mode = refl;
  states = λ i less.
      state-table_saved r (advance k) c i ∙ ap (λ (t : Task). t.state) (advance-entry k i less);
  wakeups = λ i. wakeup-table_saved r (advance k) c i ∙ advance-wakeup k i;
  pids = pids-after r (advance k) c (advance-pids k pids);
  current = current-after r (advance k) c;
  in_table =
      chosen-bound (advance k).process_table c (chosen r (advance k) c)
        (chosen-IsChosen r (advance k) c lt);
  picked = λ on. chosen-IsChosen r (advance k) c lt;
}

-- A clock interrupt always returns when there is a current task.
pub timer_handler-Ticked :
    (r : Registers) (k : Kernel) (c : ℕ)
    → k.current_task ≡ some c
    → c < 16
    → HasPids k
    → (r' : Registers) × (k' : Kernel) × (n : ℕ) × (timer_handler r k ≡ some (r', k'))
      × Ticked k k' c n
timer_handler-Ticked r k c cur lt pids = elim (Bool-cases k.multitasking_enabled) [
  | inl on ↦ (
    restore ((after r (advance k) c).process_table (chosen r (advance k) c)).cpu_state r,
    after r (advance k) c,
    chosen r (advance k) c,
    handler-on r k c (advance-IsValid k c cur lt pids) on,
    Ticked-on r k c cur lt pids,
  )
  | inr off ↦ (r, advance k, c, handler-off r k off, Ticked-off k c cur lt pids off)
]
