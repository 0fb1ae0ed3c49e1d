-- ===== src/Process/Fairness.antt =====
-- The round robin is fair: a task that stays runnable gets its turn within 16 calls of schedule.
use mathlib.Core.Bool.{false≢true}
use capstone_myos.Prelude.{
  ℕ, ◌+◌, ◌-◌, ◌%◌, ◌<◌, ◌≤◌, ◌≡◌, refl, ◌∙◌, sym, ap, ◌⊎◌, arith, true, none, some, List, [], ◌∷◌,
  length, ltb, ltb→lt, if◌then◌else◌, Bool-cases, inl, inr,
}
use capstone_myos.Process.{Registers, Kernel, schedule, switch_to}
use capstone_myos.Process.Next.{runs}
use capstone_myos.Process.Schedule.{
  IsValid, chosen, after, IsChosen, schedule_lem, chosen-IsChosen, runs-table_saved,
  pid-table_saved_any,
}

-- The entries that successive calls pick, one for each interrupt frame.
unfoldable pub turns : List Registers → Kernel → List ℕ
turns [] k = []
turns (r ∷ rs) k = elim (schedule r k) [ none ↦ [] | some (n, k') ↦ n ∷ turns rs k' ]

abbrev pub Visits : ℕ → List ℕ → Type 0
Visits t [] = ⊥
Visits t (n ∷ ns) = (n ≡ t) ⊎ Visits t ns

abbrev pub HasPids : Kernel → Type 0
HasPids k = (i : ℕ) → i < 16 → (k.process_table i).pid ≡ i

pub current-after :
    (r : Registers) (k : Kernel) (c : ℕ) → (after r k c).current_task ≡ some (chosen r k c)
unfolding switch_to
current-after r k c = refl

pub pids-after : (r : Registers) (k : Kernel) (c : ℕ) → HasPids k → HasPids (after r k c)
unfolding switch_to
pids-after r k c pids i lt = pid-table_saved_any r k c i ∙ pids i lt

runs-after :
    (r : Registers) (k : Kernel) (c t : ℕ)
    → runs (after r k c).process_table t ≡ runs k.process_table t
unfolding switch_to
runs-after r k c t = runs-table_saved r k c t

order_cases : (a b : ℕ) → (a < b) ⊎ ((a ≡ b) ⊎ (b < a))
order_cases a b = elim (Bool-cases (ltb a b)) [
  | inl less ↦ inl (ltb→lt a b less)
  | inr ge ↦ elim (Bool-cases (ltb b a)) [
    | inl more ↦ inr (inr (ltb→lt b a more))
    | inr le ↦ inr (inl (ground arith))
  ]
]

-- Where a runnable task stands after one call: it is the current one, or nearer by at least one.
nearer :
    (k : Kernel) (c d t n : ℕ)
    → c < 16
    → 0 < d
    → d ≤ 16
    → t ≡ (c + d) % 16
    → runs k.process_table t ≡ true
    → IsChosen k.process_table c n
    → (n ≡ t) ⊎ ((n < 16) × ((j : ℕ) × (0 < j) × (j < d) × (t ≡ (n + (d - j)) % 16)))
nearer k c d t n lt pos le at run (inl (none_runs, _)) =
    absurd (false≢true (sym (none_runs t (omega arith)) ∙ run))
nearer k c d t n lt pos le at run (inr (j, a, b, e, found, before)) = elim (order_cases j d) [
  | inl less ↦ inr (omega arith, (j, a, less, omega arith))
  | inr (inl same) ↦ inl (omega arith)
  | inr (inr more) ↦
      absurd (false≢true (sym (before d pos more) ∙ ap (runs k.process_table) (sym at) ∙ run))
]

turns-step :
    (r : Registers) (rs : List Registers) (k : Kernel) (c : ℕ)
    → IsValid k c
    → turns (r ∷ rs) k ≡ chosen r k c ∷ turns rs (after r k c)
unfolding turns
turns-step r rs k c v = rw (schedule_lem r k c v, turns)

-- The turn comes within `d` calls if the task stands `d` places behind the current one.
Visits-within :
    (rs : List Registers) (k : Kernel) (c d t : ℕ)
    → k.current_task ≡ some c
    → c < 16
    → HasPids k
    → 0 < d
    → d ≤ 16
    → d ≤ length rs
    → t ≡ (c + d) % 16
    → runs k.process_table t ≡ true
    → Visits t (turns rs k)
Visits-within [] k c d t cur lt pids pos le len at run = absurd (omega arith)
Visits-within (r ∷ rs) k c d t cur lt pids pos le len at run =
    let n : ℕ = chosen r k c in
    let k1 : Kernel = after r k c in
    let v : IsValid k c = record { current = cur; in_table = lt; pids = pids c lt } in
    let ih = Visits-within rs k1 n in
    rw (turns-step r rs k c v)
      (elim (nearer k c d t n lt pos le at run (chosen-IsChosen r k c lt)) [
        | inl e ↦ inl e
        | inr (small, (j, a, b, e)) ↦ inr (
            ih (d - j) t (current-after r k c) small (pids-after r k c pids) (omega arith)
              (omega arith) (omega arith) e (runs-after r k c t ∙ run))
      ])

-- In a table whose pids are its indices and that holds the current task, a task that is runnable is
-- picked by one of any 16 successive calls of schedule.
pub schedule_fair :
    (rs : List Registers) (k : Kernel) (c t : ℕ)
    → k.current_task ≡ some c
    → c < 16
    → HasPids k
    → t < 16
    → runs k.process_table t ≡ true
    → 16 ≤ length rs
    → Visits t (turns rs k)
schedule_fair rs k c t cur lt pids small run len =
    let d : ℕ = if ltb c t then t - c else t + 16 - c in
    Visits-within rs k c d t cur lt pids (ground arith) (ground arith) (ground arith) (ground arith)
      run
