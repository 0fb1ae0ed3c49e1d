-- ===== src/Prelude/Bits/Masks.antt =====
-- The laws of `test_bit` at variable operands, and masks as arithmetic.
use Prim.Native.Nat.{
  ℕ, zero, suc, ◌+◌, ◌-◌, ◌*◌, ◌/◌, ◌%◌, ◌^◌, ◌≤◌, ◌<◌, min, max, bit_and, bit_or,
}
use Prim.Native.Nat.{bit_and-bitwise}
use mathlib.Core.Path.{◌≡◌, refl, ap}
use native.Mathlib.Nat.{
  pow-suc, pow-succ', one-le-pow, div-div-eq-div-mul, div-add-mod', div-one, mul-one,
}
use native.Mathlib.Omega.{arith}
use capstone_myos.Prelude.Bits.Step.{bit_or_step, bit_and_step}

-- `(x >> i) & 1`.
abbrev pub test_bit : ℕ → ℕ → ℕ
test_bit x zero = x % 2
test_bit x (suc i) = test_bit (x / 2) i

pub test_bit-lt : (x i : ℕ) → test_bit x i < 2
test_bit-lt x zero = omega arith
test_bit-lt x (suc i) = test_bit-lt (x / 2) i

pub test_bit-zero : (i : ℕ) → test_bit 0 i ≡ 0
test_bit-zero zero = refl
test_bit-zero (suc i) = test_bit-zero i

pub test_bit-bit_or : (i a b : ℕ) → test_bit (bit_or a b) i ≡ max (test_bit a i) (test_bit b i)
test_bit-bit_or zero a b = omega (arith, bit_or_step a b)
test_bit-bit_or (suc i) a b =
    let half : bit_or a b / 2 ≡ bit_or (a / 2) (b / 2) = omega (arith, bit_or_step a b) in
    rw half (test_bit-bit_or i (a / 2) (b / 2))

pub test_bit-bit_and : (i a b : ℕ) → test_bit (bit_and a b) i ≡ min (test_bit a i) (test_bit b i)
test_bit-bit_and zero a b = omega (arith, bit_and_step a b)
test_bit-bit_and (suc i) a b =
    let half : bit_and a b / 2 ≡ bit_and (a / 2) (b / 2) = omega (arith, bit_and_step a b) in
    rw half (test_bit-bit_and i (a / 2) (b / 2))

pub test_bit-pow_self : (k : ℕ) → test_bit (2 ^ k) k ≡ 1
test_bit-pow_self zero = refl
test_bit-pow_self (suc k) =
    let half : 2 ^ suc k / 2 ≡ 2 ^ k = omega (arith, pow-suc 2 k) in rw half (test_bit-pow_self k)

pub test_bit-pow_ne : (k i : ℕ) → (k ≡ i → ⊥) → test_bit (2 ^ k) i ≡ 0
test_bit-pow_ne zero zero h = absurd (h refl)
test_bit-pow_ne zero (suc i) h = test_bit-zero i
test_bit-pow_ne (suc k) zero h = omega (arith, pow-suc 2 k)
test_bit-pow_ne (suc k) (suc i) h =
    let half : 2 ^ suc k / 2 ≡ 2 ^ k = omega (arith, pow-suc 2 k) in
    rw half (test_bit-pow_ne k i (λ e. h (ap suc e)))

-- `~x` in `n` bits is `2 ^ n - 1 - x`.
pub test_bit-complement :
    (n x i : ℕ) → x < 2 ^ n → i < n → test_bit (2 ^ n - 1 - x) i ≡ 1 - test_bit x i
test_bit-complement zero x i hx hi = absurd (omega arith)
test_bit-complement (suc n) x zero hx hi = omega (arith, pow-suc 2 n)
test_bit-complement (suc n) x (suc i) hx hi =
    let half : (2 ^ suc n - 1 - x) / 2 ≡ 2 ^ n - 1 - x / 2 = omega (arith, pow-suc 2 n) in
    rw half (test_bit-complement n (x / 2) i (omega (arith, pow-suc 2 n)) (omega arith))

-- Of the words of `n` bits, only the one of all ones has every bit set.
pub ones_of_bits : (n x : ℕ) → x < 2 ^ n → ((i : ℕ) → i < n → test_bit x i ≡ 1) → x ≡ 2 ^ n - 1
ones_of_bits zero x hx h = omega arith
ones_of_bits (suc n) x hx h = omega (
  arith,
  pow-suc 2 n,
  h 0 (omega arith),
  ones_of_bits n (x / 2) (omega (arith, pow-suc 2 n)) (λ i p. h (suc i) (omega arith)),
  one-le-pow n 2 (omega arith),
)

pub bit_or-lt : (n a b : ℕ) → a < 2 ^ n → b < 2 ^ n → bit_or a b < 2 ^ n
bit_or-lt zero a b ha hb =
    let ea : a ≡ 0 = omega arith in let eb : b ≡ 0 = omega arith in rw (ea, eb) (omega arith)
bit_or-lt (suc n) a b ha hb = omega (
  arith,
  pow-suc 2 n,
  bit_or_step a b,
  bit_or-lt n (a / 2) (b / 2) (omega (arith, pow-suc 2 n)) (omega (arith, pow-suc 2 n)),
)

bit_and_zero_left : (b : ℕ) → bit_and 0 b ≡ 0
bit_and_zero_left b = bit_and-bitwise 0 b

pub bit_and-lt : (n a b : ℕ) → a < 2 ^ n → bit_and a b < 2 ^ n
bit_and-lt zero zero b ha = omega (arith, bit_and_step 0 b, bit_and_zero_left b)
bit_and-lt zero (suc a) b ha = absurd (omega arith)
bit_and-lt (suc n) a b ha = omega (
  arith,
  pow-suc 2 n,
  bit_and_step a b,
  bit_and-lt n (a / 2) (b / 2) (omega (arith, pow-suc 2 n)),
)

bit_and-zero_upto : (n a : ℕ) → a ≤ n → bit_and a 0 ≡ 0
bit_and-zero_upto n zero h = refl
bit_and-zero_upto zero (suc a) h = absurd (omega arith)
bit_and-zero_upto (suc n) (suc a) h =
    omega (arith, bit_and_step (suc a) 0, bit_and-zero_upto n (suc a / 2) (omega arith))

pub bit_and-zero : (a : ℕ) → bit_and a 0 ≡ 0
bit_and-zero a = bit_and-zero_upto a a (omega arith)

bit_or-zero_upto : (n a : ℕ) → a ≤ n → bit_or a 0 ≡ a
bit_or-zero_upto n zero h = refl
bit_or-zero_upto zero (suc a) h = absurd (omega arith)
bit_or-zero_upto (suc n) (suc a) h =
    omega (arith, bit_or_step (suc a) 0, bit_or-zero_upto n (suc a / 2) (omega arith))

pub bit_or-zero : (a : ℕ) → bit_or a 0 ≡ a
bit_or-zero a = bit_or-zero_upto a a (omega arith)

-- `x & (1 << k)` is the k-th bit in its place.
pub bit_and-pow : (k x : ℕ) → bit_and x (2 ^ k) ≡ test_bit x k * 2 ^ k
bit_and-pow zero x = omega (arith, bit_and_step x 1, bit_and-zero (x / 2))
bit_and-pow (suc k) x =
    let half : 2 ^ suc k / 2 ≡ 2 ^ k = omega (arith, pow-suc 2 k) in
    let even : 2 ^ suc k % 2 ≡ 0 = omega (arith, pow-suc 2 k) in
    let step : bit_and x (2 ^ suc k) ≡ bit_and (x / 2) (2 ^ k) * 2 =
      rw (bit_and_step x (2 ^ suc k), half, even) (omega arith) in
    omega (arith, step, bit_and-pow k (x / 2), ap (λ (t : ℕ). test_bit (x / 2) k * t) (pow-suc 2 k))

div-pow-suc : (k x : ℕ) → x / 2 ^ suc k ≡ x / 2 / 2 ^ k
div-pow-suc k x = rw (div-div-eq-div-mul x 2 (2 ^ k)) (ap (λ (t : ℕ). x / t) (pow-succ' 2 k))

mod-pow-suc : (k x : ℕ) → x % 2 ^ suc k ≡ (x / 2) % 2 ^ k * 2 + x % 2
mod-pow-suc k x =
    let q : x / 2 ^ suc k ≡ x / 2 / 2 ^ k = div-pow-suc k x in
    omega (
      arith,
      q,
      div-add-mod' (x / 2) (2 ^ k),
      div-add-mod' x (2 ^ suc k),
      ap (λ (t : ℕ). t * 2 ^ suc k) q,
      ap (λ (t : ℕ). x / 2 / 2 ^ k * t) (pow-suc 2 k),
    )

-- `x & 0xF…F`: the low `k` bits.
pub bit_and-low : (k x : ℕ) → bit_and x (2 ^ k - 1) ≡ x % 2 ^ k
bit_and-low zero x = omega (arith, bit_and-zero x)
bit_and-low (suc k) x =
    let half : (2 ^ suc k - 1) / 2 ≡ 2 ^ k - 1 = omega (arith, pow-suc 2 k) in
    let odd : (2 ^ suc k - 1) % 2 ≡ 1 = omega (arith, pow-suc 2 k, one-le-pow k 2 (omega arith)) in
    let step : bit_and x (2 ^ suc k - 1) ≡ bit_and (x / 2) (2 ^ k - 1) * 2 + x % 2 =
      rw (bit_and_step x (2 ^ suc k - 1), half, odd) (omega arith) in
    omega (arith, step, bit_and-low k (x / 2), mod-pow-suc k x)

-- `x | y` is a sum where `y` fits the bits that are clear in `x`.
pub bit_or-fields : (k q r : ℕ) → r < 2 ^ k → bit_or (q * 2 ^ k) r ≡ q * 2 ^ k + r
bit_or-fields zero q r h = let e : r ≡ 0 = omega arith in rw (e, bit_or-zero) (omega arith)
bit_or-fields (suc k) q r h =
    let half : q * 2 ^ suc k / 2 ≡ q * 2 ^ k = omega (arith, ap (λ (t : ℕ). q * t) (pow-suc 2 k)) in
    let even : q * 2 ^ suc k % 2 ≡ 0 = omega (arith, ap (λ (t : ℕ). q * t) (pow-suc 2 k)) in
    let step : bit_or (q * 2 ^ suc k) r ≡ bit_or (q * 2 ^ k) (r / 2) * 2 + r % 2 =
      rw (bit_or_step (q * 2 ^ suc k) r, half, even) (omega arith) in
    omega (
      arith,
      step,
      bit_or-fields k q (r / 2) (omega (arith, pow-suc 2 k)),
      ap (λ (t : ℕ). q * t) (pow-suc 2 k),
    )

-- `x & ~0xF…F`: all but the low `k` of `k + n` bits.
pub bit_and-high : (k n x : ℕ) → bit_and x ((2 ^ n - 1) * 2 ^ k) ≡ (x / 2 ^ k) % 2 ^ n * 2 ^ k
bit_and-high zero n x = rw (mul-one (2 ^ n - 1), bit_and-low n x, div-one x, mul-one (x % 2 ^ n))
bit_and-high (suc k) n x =
    let m = 2 ^ n - 1 in
    let half : m * 2 ^ suc k / 2 ≡ m * 2 ^ k = omega (arith, ap (λ (t : ℕ). m * t) (pow-suc 2 k)) in
    let even : m * 2 ^ suc k % 2 ≡ 0 = omega (arith, ap (λ (t : ℕ). m * t) (pow-suc 2 k)) in
    let step : bit_and x (m * 2 ^ suc k) ≡ bit_and (x / 2) (m * 2 ^ k) * 2 =
      rw (bit_and_step x (m * 2 ^ suc k), half, even) (omega arith) in
    rw (div-pow-suc k x) (
      omega (
        arith,
        step,
        bit_and-high k n (x / 2),
        ap (λ (t : ℕ). (x / 2 / 2 ^ k) % 2 ^ n * t) (pow-suc 2 k),
      ))

-- `(x | 1) | 2`, for a multiple of four.
pub bit_or-one_two : (x : ℕ) → x % 4 ≡ 0 → bit_or (bit_or x 1) 2 ≡ x + 3
bit_or-one_two x h =
    let e : x ≡ x / 4 * 4 = omega arith in
    let half : (x + 1) / 2 ≡ x / 4 * 2 = omega arith in
    let one : bit_or x 1 ≡ x + 1 = omega (arith, bit_or_step x 1, bit_or-zero (x / 2)) in
    let two : bit_or ((x + 1) / 2) 1 ≡ (x + 1) / 2 + 1 =
      omega (arith, bit_or_step ((x + 1) / 2) 1, bit_or-zero ((x + 1) / 2 / 2)) in
    rw one (omega (arith, bit_or_step (x + 1) 2, two))
