-- ===== src/Prelude/Bits/Step.antt =====
-- One equation for the lowest binary digit of `&` and `|`.
use Prim.Native.Nat.{ℕ, zero, suc, ◌+◌, ◌*◌, ◌/◌, ◌%◌, ◌≤◌, min, max, bit_and, bit_or}
use Prim.Native.Nat.{digits, bit_and-bitwise, bit_or-bitwise}
use mathlib.Core.Path.{◌≡◌, refl}
use native.Mathlib.Omega.{arith}

-- Rounds beyond the size of the first operand add no digit.
least_rounds :
    (rest : ℕ → ℕ) (digit : ℕ → ℕ → ℕ) (bound x y rounds : ℕ)
    → rounds ≤ bound
    → x ≤ rounds
    → digits rest digit rounds x y ≡ digits rest digit x x y
least_rounds rest digit bound zero y zero within small = refl
least_rounds rest digit bound zero y (suc rounds) within small = refl
least_rounds rest digit bound (suc x) y zero within small = absurd (omega arith)
least_rounds rest digit zero (suc x) y (suc rounds) within small = absurd (omega arith)
least_rounds rest digit (suc bound) (suc x) y (suc rounds) within small =
    let shorter = least_rounds rest digit bound (suc x / 2) (y / 2) in
    rw (shorter rounds (omega arith) (omega arith), shorter x (omega arith) (omega arith))

half_rounds :
    (rest : ℕ → ℕ) (digit : ℕ → ℕ → ℕ) (x y : ℕ)
    → digits rest digit x (suc x / 2) y ≡ digits rest digit (suc x / 2) (suc x / 2) y
half_rounds rest digit x y = least_rounds rest digit x (suc x / 2) y x (omega arith) (omega arith)

pub bit_and_step : (x y : ℕ) → bit_and x y ≡ bit_and (x / 2) (y / 2) * 2 + min (x % 2) (y % 2)
bit_and_step zero y = simp bit_and-bitwise (omega arith)
bit_and_step (suc x) y =
    let halves = half_rounds (λ z. 0) min x (y / 2) in simp bit_and-bitwise (omega (arith, halves))

pub bit_or_step : (x y : ℕ) → bit_or x y ≡ bit_or (x / 2) (y / 2) * 2 + max (x % 2) (y % 2)
bit_or_step zero y = simp bit_or-bitwise (omega arith)
bit_or_step (suc x) y =
    let halves = half_rounds (λ z. z) max x (y / 2) in simp bit_or-bitwise (omega (arith, halves))
