-- ===== src/Process/Next.antt =====
-- The round-robin search: it finds the nearest runnable entry after the one it starts from.
use capstone_myos.Prelude.{
  ℕ, zero, suc, ◌+◌, ◌-◌, ◌%◌, ◌<◌, ◌≤◌, ◌≡◌, refl, ◌∙◌, arith, Bool, true, false, Option, none,
  some, Bool-cases, inl, inr,
}
use capstone_myos.Process.{Task, is_running, find_next}

abbrev pub runs : (ℕ → Task) → ℕ → Bool
runs table i = is_running (table i).state

-- Among the `n` entries behind `p`, going round at 16: none runs, or the nearest that runs is `q`.
abbrev pub IsNearest : (ℕ → Task) → ℕ → ℕ → Option ℕ → Type 0
IsNearest table p n none = (j : ℕ) → 0 < j → j ≤ n → runs table ((p + j) % 16) ≡ false
IsNearest table p n (some q) =
    (j : ℕ) × (0 < j)
    × (j ≤ n)
    × (q ≡ (p + j) % 16)
    × (runs table q ≡ true)
    × ((i : ℕ) → 0 < i → i < j → runs table ((p + i) % 16) ≡ false)

step_round : (p i : ℕ) → ((p + 1) % 16 + i) % 16 ≡ (p + suc i) % 16
step_round p i = omega arith

not_running :
    (table : ℕ → Task) (p n : ℕ)
    → runs table ((p + 1) % 16) ≡ false
    → ((j : ℕ) → 0 < j → j ≤ n → runs table (((p + 1) % 16 + j) % 16) ≡ false)
    → (j : ℕ) → 0 < j
    → j ≤ suc n
    → runs table ((p + j) % 16) ≡ false
not_running table p n first h zero a b = absurd (omega arith)
not_running table p n first h (suc zero) a b = first
not_running table p n first h (suc (suc j)) a b =
    rw (step_round p (suc j)) at (h (suc j) (omega arith) (omega arith))

farther :
    (table : ℕ → Task) (p n : ℕ) (r : Option ℕ)
    → runs table ((p + 1) % 16) ≡ false
    → IsNearest table ((p + 1) % 16) n r
    → IsNearest table p (suc n) r
farther table p n none first h = not_running table p n first h
farther table p n (some q) first (j, a, b, e, r, h) = (
  suc j,
  omega arith,
  omega arith,
  e ∙ step_round p j,
  r,
  λ i c d. not_running table p (j - 1) first (λ m x y. h m x (omega arith)) i c (omega arith),
)

find_next-found :
    (n : ℕ) (table : ℕ → Task) (p : ℕ)
    → runs table ((p + 1) % 16) ≡ true
    → find_next (suc n) table p ≡ some ((p + 1) % 16)
unfolding find_next
find_next-found n table p h = ground arith

find_next-other :
    (n : ℕ) (table : ℕ → Task) (p : ℕ)
    → runs table ((p + 1) % 16) ≡ false
    → find_next (suc n) table p ≡ find_next n table ((p + 1) % 16)
unfolding find_next
find_next-other n table p h = ground arith

pub find_next-IsNearest :
    (n : ℕ) (table : ℕ → Task) (p : ℕ) → IsNearest table p n (find_next n table p)
unfolding find_next
find_next-IsNearest zero table p = λ j a b. absurd (omega arith)
find_next-IsNearest (suc n) table p = elim (Bool-cases (runs table ((p + 1) % 16))) [
  | inl found ↦
      rw (find_next-found n table p found)
        (1, omega arith, omega arith, refl, found, λ i a b. absurd (omega arith))
  | inr other ↦ rw (find_next-other n table p other) (
      farther table p n (find_next n table ((p + 1) % 16)) other
        (find_next-IsNearest n table ((p + 1) % 16)))
]
