-- ===== src/Strings/Number.antt =====
-- atoi on decimal digits.
use capstone_myos.Prelude.{
  ℕ, zero, suc, ◌+◌, ◌-◌, ◌*◌, ◌%◌, ◌^◌, ◌<◌, ◌≤◌, ◌≡◌, refl, arith, List, [], ◌∷◌, ◌++◌, some,
  length, All,
}
use capstone_myos.Strings.{Mem, atoi_from, atoi}
use capstone_myos.Strings.Scan.{IsCStr}

abbrev pub IsDigit : ℕ → Type 0
IsDigit c = (b'0' ≤ c) × (c ≤ b'9')

-- The number that digits continue, from `acc` on.
abbrev pub from_digits : ℕ → List ℕ → ℕ
from_digits acc [] = acc
from_digits acc (c ∷ s) = from_digits (acc * 10 + (c - b'0')) s

pub from_digits-append :
    (acc : ℕ) (xs ys : List ℕ) → from_digits acc (xs ++ ys) ≡ from_digits (from_digits acc xs) ys
from_digits-append acc [] ys = refl
from_digits-append acc (x ∷ xs) ys = from_digits-append (acc * 10 + (x - b'0')) xs ys

atoi_from_lem :
    (fuel : ℕ) (m : Mem) (p acc : ℕ) (s : List ℕ)
    → IsCStr m p s
    → All IsDigit s
    → length s < fuel
    → atoi_from fuel m p (acc % 2 ^ 32) ≡ some (from_digits acc s % 2 ^ 32)
unfolding atoi_from
atoi_from_lem zero m p acc s h d f = absurd (omega arith)
atoi_from_lem (suc fuel) m p acc [] h d f = ground arith
atoi_from_lem (suc fuel) m p acc (c ∷ s) h d f =
    let step : (acc % 2 ^ 32 * 10 + c + (2 ^ 32 - 48)) % 2 ^ 32 ≡ (acc * 10 + (c - b'0')) % 2 ^ 32 =
      omega arith in
    let ih = atoi_from_lem fuel m (p + 1) (acc * 10 + (c - b'0')) s h.2 d.1 (omega arith) in
    ground (arith, rw (← step) at ih)

-- atoi of a string of decimal digits is the number they write, taken as 32 bits; fuel beyond the
-- string's length is enough.
pub atoi_lem :
    (fuel : ℕ) (m : Mem) (p : ℕ) (s : List ℕ)
    → IsCStr m p s
    → All IsDigit s
    → length s < fuel
    → atoi fuel m p ≡ some (from_digits 0 s % 2 ^ 32)
unfolding atoi
atoi_lem fuel m p s h d f = atoi_from_lem fuel m p 0 s h d f
