-- ===== src/Vga/Digits.antt =====
-- print_dec and print_hex print the digits of their number.
use native.Mathlib.Nat.{pow-suc, div-div-eq-div-mul, div-add-mod'}
use capstone_myos.Prelude.{
  ℕ, zero, suc, ◌+◌, ◌-◌, ◌*◌, ◌/◌, ◌%◌, ◌^◌, ◌<◌, ◌≤◌, ◌≡◌, refl, arith, List, [], ◌∷◌, ◌++◌, some,
  ◌==◌, leb, if◌then◌else◌, length, All, ap, ◌∙◌, sym, ◌⊎◌, true, false, ==_iff, bit_and,
  bit_and-low, Bool-cases, inl, inr, length-append,
}
use capstone_myos.Strings.{Mem, atoi}
use capstone_myos.Strings.Scan.{IsCStr}
use capstone_myos.Strings.Number.{IsDigit, from_digits, from_digits-append, atoi_lem}
use capstone_myos.Vga.{
  Vga, print_char, print_string, hex_char, print_nibbles, print_hex, print_dec_on, print_dec,
}
use capstone_myos.Vga.Text.{print_string-append}

-- The decimal digits of a number below 10 ^ fuel.
abbrev pub decimal : ℕ → ℕ → List ℕ
decimal zero n = []
decimal (suc fuel) n =
    let higher = decimal fuel (n / 10) in
    (if leb 10 n then higher else []) ++ ((n % 10 + b'0') ∷ [])

print_dec_on_lem : (fuel n : ℕ) (s : Vga) → print_dec_on fuel n s ≡ print_string (decimal fuel n) s
unfolding print_dec_on
print_dec_on_lem zero n s = unfold print_string in refl
print_dec_on_lem (suc fuel) n s = elim (Bool-cases (leb 10 n)) [
  | inl more ↦ rw more (
      rw
        (
          print_string-append (decimal fuel (n / 10)) ((n % 10 + b'0') ∷ []) s,
          ← print_dec_on_lem fuel (n / 10) s,
        )
        (unfold print_string in ground arith))
  | inr last ↦ rw last (unfold print_string in digit (Bool-cases (n == 0)))
]
  where
    digit :
        ((n == 0) ≡ true) ⊎ ((n == 0) ≡ false)
        → (if n == 0 then print_char b'0' s else print_char (n % 10 + b'0') s)
          ≡ print_char (n % 10 + b'0') s
    digit (inl z) = rw ((==_iff n 0).0 z)
    digit (inr nz) = rw nz

from_digits-decimal : (fuel n : ℕ) → n < 10 ^ fuel → from_digits 0 (decimal fuel n) ≡ n
from_digits-decimal zero n h = omega arith
from_digits-decimal (suc fuel) n h = elim (Bool-cases (leb 10 n)) [
  | inl more ↦ rw more (
      rw (from_digits-append 0 (decimal fuel (n / 10)) ((n % 10 + b'0') ∷ []))
        (omega (arith, from_digits-decimal fuel (n / 10) (omega (arith, pow-suc 10 fuel)))))
  | inr last ↦ rw last (ground arith)
]

All-append : (xs ys : List ℕ) → All IsDigit xs → All IsDigit ys → All IsDigit (xs ++ ys)
All-append [] ys hx hy = hy
All-append (x ∷ xs) ys hx hy = (hx.0, All-append xs ys hx.1 hy)

decimal-digits : (fuel n : ℕ) → All IsDigit (decimal fuel n)
decimal-digits zero n = tt
decimal-digits (suc fuel) n = elim (Bool-cases (leb 10 n)) [
  | inl more ↦
      rw more (All-append (decimal fuel (n / 10)) _ (decimal-digits fuel (n / 10)) (omega arith))
  | inr last ↦ rw last (omega arith)
]

length-decimal : (fuel n : ℕ) → length (decimal fuel n) ≤ fuel
length-decimal zero n = omega arith
length-decimal (suc fuel) n = elim (Bool-cases (leb 10 n)) [
  | inl more ↦ rw more (
      omega (
        arith,
        length-append (decimal fuel (n / 10)) ((n % 10 + b'0') ∷ []),
        length-decimal fuel (n / 10),
      ))
  | inr last ↦ rw last (omega arith)
]

-- print_dec of a 32-bit number prints at most ten decimal digits, which write that number.
pub print_dec_lem :
    (n : ℕ) (s : Vga)
    → n < 2 ^ 32
    → (str : List ℕ) × (print_dec n s ≡ print_string str s)
      × All IsDigit str
      × (length str ≤ 10)
      × (from_digits 0 str ≡ n)
unfolding print_dec
print_dec_lem n s h = (
  decimal 10 n,
  print_dec_on_lem 10 n s,
  decimal-digits 10 n,
  length-decimal 10 n,
  from_digits-decimal 10 n (omega arith),
)

-- What print_dec prints of a number that an int can hold, below 2 ^ 31, atoi reads back as that number.
pub atoi-print_dec :
    (n : ℕ) (s : Vga)
    → n < 2 ^ 31
    → (str : List ℕ) × (print_dec n s ≡ print_string str s)
      × ((m : Mem) (p : ℕ) → IsCStr m p str → atoi 11 m p ≡ some n)
atoi-print_dec n s h =
    let (str, e, digits, short, value) = print_dec_lem n s (omega arith) in
    (
      str,
      e,
      λ m p c.
          let r = atoi_lem 11 m p str c digits (omega (arith, short)) in
          rw value at r ∙ ap some (omega arith),
    )

-- The number that hexadecimal digits continue, from `acc` on; letters are upper case.
abbrev pub from_hex : ℕ → List ℕ → ℕ
from_hex acc [] = acc
from_hex acc (c ∷ s) = from_hex (acc * 16 + (if leb b'A' c then c - b'A' + 10 else c - b'0')) s

abbrev nibbles : ℕ → ℕ → List ℕ
nibbles zero n = []
nibbles (suc k) n = hex_char (bit_and (n / 2 ^ (4 * k)) 0xF) ∷ nibbles k n

print_nibbles_lem : (k n : ℕ) (s : Vga) → print_nibbles k n s ≡ print_string (nibbles k n) s
unfolding print_nibbles print_string
print_nibbles_lem zero n s = refl
print_nibbles_lem (suc k) n s = print_nibbles_lem k n (print_char _ s)

hex_char_value :
    (d : ℕ)
    → d < 16
    → (if leb b'A' (hex_char d) then hex_char d - b'A' + 10 else hex_char d - b'0') ≡ d
unfolding hex_char
hex_char_value d h = ground arith

pow-nibble : (k : ℕ) → 2 ^ (4 * suc k) ≡ 2 ^ (4 * k) * 16
pow-nibble k =
    let e : 4 * suc k ≡ suc (suc (suc (suc (4 * k)))) = omega arith in
    let j = 4 * k in
    rw e (
      omega (
        arith,
        pow-suc 2 (suc (suc (suc j))),
        pow-suc 2 (suc (suc j)),
        pow-suc 2 (suc j),
        pow-suc 2 j,
      ))

mod-nibble :
    (k n : ℕ) → n % 2 ^ (4 * suc k) ≡ (n / 2 ^ (4 * k) % 16) * 2 ^ (4 * k) + n % 2 ^ (4 * k)
mod-nibble k n =
    let p = 2 ^ (4 * k) in
    let q : n / (p * 16) ≡ n / p / 16 = sym (div-div-eq-div-mul n p 16) in
    rw (pow-nibble k) (
      omega (
        arith,
        q,
        div-add-mod' n p,
        div-add-mod' n (p * 16),
        ap (λ (t : ℕ). t * (p * 16)) q,
        ap (λ (t : ℕ). t * p) (div-add-mod' (n / p) 16),
      ))

from_hex-nibbles : (k n acc : ℕ) → from_hex acc (nibbles k n) ≡ acc * 2 ^ (4 * k) + n % 2 ^ (4 * k)
from_hex-nibbles zero n acc = omega arith
from_hex-nibbles (suc k) n acc =
    let d = n / 2 ^ (4 * k) % 16 in
    rw (bit_and-low 4 (n / 2 ^ (4 * k)), hex_char_value d (omega arith))
      (omega (
        arith,
        from_hex-nibbles k n (acc * 16 + d),
        mod-nibble k n,
        ap (λ (t : ℕ). acc * t) (pow-nibble k),
      ))

-- print_hex prints 0x and eight hexadecimal digits, which write the 32-bit number.
pub print_hex_lem :
    (n : ℕ) (s : Vga)
    → n < 2 ^ 32
    → (str : List ℕ) × (print_hex n s ≡ print_string (b'0' ∷ b'x' ∷ str) s)
      × (length str ≡ 8)
      × (from_hex 0 str ≡ n)
unfolding print_hex
print_hex_lem n s h = (
  nibbles 8 n,
  unfold print_string in print_nibbles_lem 8 n _,
  refl,
  from_hex-nibbles 8 n 0 ∙ omega arith,
)
