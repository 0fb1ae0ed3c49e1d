-- ===== src/Pmm/Frames.antt =====
-- The bitmap as a set of frames: what setting and clearing one bit does to every frame.
use native.Mathlib.Decide.{ℕ_discrete}
use native.Mathlib.Nat.{pow-le-pow_right, pow-suc, one-le-pow}
use capstone_myos.Prelude.{
  ℕ, ◌-◌, ◌*◌, ◌/◌, ◌%◌, ◌^◌, ◌<◌, ◌≡◌, bit_and, bit_or, arith, ◌==◌, if◌then◌else◌, update,
  test_bit, test_bit-lt, test_bit-bit_or, test_bit-bit_and, test_bit-pow_self, test_bit-pow_ne,
  test_bit-complement, bit_or-lt, bit_and-lt,
}
use capstone_myos.Pmm.{Pmm, set_bit, clear_bit}

-- 1 for a frame that is marked used, 0 for a free one.
abbrev pub used_in : (ℕ → ℕ) → ℕ → ℕ
used_in m f = test_bit (m (f / 32)) (f % 32)

abbrev pub used : Pmm → ℕ → ℕ
used p f = used_in p.bitmap f

-- How many frames the bitmap's words stand for.
abbrev pub capacity : Pmm → ℕ
capacity p = p.bitmap_size / 4 * 32

abbrev pub Words : (ℕ → ℕ) → Type 0
Words m = (i : ℕ) → m i < 2 ^ 32

pub pow-lt_word : (k : ℕ) → k < 32 → 2 ^ k < 2 ^ 32
pow-lt_word k h =
    omega
      (arith, pow-suc 2 k, one-le-pow k 2 (omega arith), pow-le-pow_right {n = 2} (omega arith) h)

-- A frame's bit after one word of the bitmap changed.
used_in-update :
    (m : ℕ → ℕ) (f g w : ℕ)
    → used_in (update m (f / 32) w) g
      ≡ (if g / 32 == f / 32 then test_bit w (g % 32) else used_in m g)
used_in-update m f g w = ground arith

pub test_bit-set :
    (w b i : ℕ) → test_bit (bit_or w (2 ^ b)) i ≡ (if i == b then 1 else test_bit w i)
test_bit-set w b i = elim (ℕ_discrete b i) [
  | yes e ↦ ground (arith, test_bit-bit_or i w (2 ^ b), test_bit-pow_self b, test_bit-lt w i)
  | no n ↦ ground (arith, test_bit-bit_or i w (2 ^ b), test_bit-pow_ne b i n)
]

pub test_bit-clear :
    (w b i : ℕ)
    → b < 32
    → i < 32
    → test_bit (bit_and w (2 ^ 32 - 1 - 2 ^ b)) i ≡ (if i == b then 0 else test_bit w i)
test_bit-clear w b i hb hi =
    let c = test_bit-complement 32 (2 ^ b) i (pow-lt_word b hb) hi in
    let a = test_bit-bit_and i w (2 ^ 32 - 1 - 2 ^ b) in
    elim (ℕ_discrete b i) [
      | yes e ↦ ground (arith, a, c, test_bit-pow_self b)
      | no n ↦ ground (arith, a, c, test_bit-pow_ne b i n, test_bit-lt w i)
    ]

pub used-set_bit : (p : Pmm) (f g : ℕ) → used (set_bit p f) g ≡ (if g == f then 1 else used p g)
unfolding set_bit
used-set_bit p f g = ground (arith, test_bit-set (p.bitmap (f / 32)) (f % 32) (g % 32))

pub used-clear_bit : (p : Pmm) (f g : ℕ) → used (clear_bit p f) g ≡ (if g == f then 0 else used p g)
unfolding clear_bit
used-clear_bit p f g = ground (arith, test_bit-clear (p.bitmap (f / 32)) (f % 32) (g % 32))

-- Both keep every word below 2 ^ 32.
pub set_bit-Words : (p : Pmm) (f : ℕ) → Words p.bitmap → Words (set_bit p f).bitmap
unfolding set_bit
set_bit-Words p f h i = ground (
  arith,
  h i,
  h (f / 32),
  bit_or-lt 32 (p.bitmap (f / 32)) (2 ^ (f % 32)) (h (f / 32)) (pow-lt_word (f % 32) (omega arith)),
)

pub clear_bit-Words : (p : Pmm) (f : ℕ) → Words p.bitmap → Words (clear_bit p f).bitmap
unfolding clear_bit
clear_bit-Words p f h i =
    ground (arith, h i, bit_and-lt 32 (p.bitmap (f / 32)) (2 ^ 32 - 1 - 2 ^ (f % 32)) (h (f / 32)))
