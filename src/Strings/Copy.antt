-- ===== src/Strings/Copy.antt =====
-- strncpy: what the destination holds afterwards.
use capstone_myos.Prelude.{
  ℕ, zero, suc, ◌+◌, ◌-◌, ◌<◌, ◌≤◌, ◌≡◌, refl, ◌⊎◌, List, [], ◌∷◌, arith, ◌==◌, leb, ltb, ◌&&◌,
  if◌then◌else◌, update, length, get_or,
}
use capstone_myos.Strings.{Mem, copy_chars, pad_chars, strncpy}
use capstone_myos.Strings.Scan.{IsCStr}

pad_chars_lem :
    (n : ℕ) (m : Mem) (d i a : ℕ)
    → pad_chars n m d i a ≡ (if leb (d + i) a && ltb a (d + i + n) then 0 else m a)
unfolding pad_chars
pad_chars_lem zero m d i a = ground arith
pad_chars_lem (suc n) m d i a = ground (arith, pad_chars_lem n (update m (d + i) 0) d (i + 1) a)

IsCStr-update :
    (m : Mem) (p a v : ℕ) (s : List ℕ)
    → (a < p) ⊎ (p + length s < a)
    → IsCStr m p s
    → IsCStr (update m a v) p s
IsCStr-update m p a v [] far h = ground arith
IsCStr-update m p a v (c ∷ s) far h =
    (ground arith, h.1, IsCStr-update m (p + 1) a v s (ground arith) h.2)

-- The destination of `n` cells at `d` and the string at `s` do not overlap.
abbrev pub IsApart : ℕ → ℕ → ℕ → ℕ → Type 0
IsApart d n p len = (d + n ≤ p) ⊎ (p + len < d)

abbrev copied : ℕ → ℕ → ℕ
copied n len = if ltb len n then len else n

get_or-cons :
    (c : ℕ) (s : List ℕ) (k : ℕ) → get_or (c ∷ s) k 0 ≡ (if k == 0 then c else get_or s (k - 1) 0)
get_or-cons c s zero = refl
get_or-cons c s (suc k) = let e : suc k - 1 ≡ k = omega arith in rw e (ground arith)

copy_chars_lem :
    (n : ℕ) (m : Mem) (d p i : ℕ) (s : List ℕ)
    → IsApart (d + i) n (p + i) (length s)
    → IsCStr m (p + i) s
    → ((copy_chars n m d p i).1 ≡ i + copied n (length s))
      × ((a : ℕ)
          → (copy_chars n m d p i).0 a ≡ (
              if leb (d + i) a && ltb a (d + i + copied n (length s))
              then get_or s (a - (d + i)) 0
              else m a))
unfolding copy_chars
copy_chars_lem zero m d p i s apart h = (ground arith, λ a. ground arith)
copy_chars_lem (suc n) m d p i [] apart h = (ground arith, λ a. ground arith)
copy_chars_lem (suc n) m d p i (c ∷ s) apart h =
    let m' : Mem = update m (d + i) (m (p + i)) in
    let e : p + (i + 1) ≡ p + i + 1 = omega arith in
    let next : IsCStr m' (p + (i + 1)) s =
      rw e (IsCStr-update m (p + i + 1) (d + i) (m (p + i)) s (omega arith) h.2) in
    let ih = copy_chars_lem n m' d p (i + 1) s (omega arith) next in
    (
      ground (arith, ih.0),
      λ a.
          let shift : a - (d + i) - 1 ≡ a - (d + (i + 1)) = omega arith in
          ground (arith, ih.1 a, rw shift at (get_or-cons c s (a - (d + i)))),
    )

get_or-beyond : (s : List ℕ) (k : ℕ) → length s ≤ k → get_or s k 0 ≡ 0
get_or-beyond [] k h = refl
get_or-beyond (c ∷ s) zero h = absurd (omega arith)
get_or-beyond (c ∷ s) (suc k) h = get_or-beyond s k (omega arith)

-- strncpy fills exactly the `n` cells at the destination: with the string's bytes, and with zeros
-- once the string has ended; so the copy ends in a NUL only if the string is shorter than `n`. The
-- two areas must not overlap.
pub strncpy_lem :
    (n : ℕ) (m : Mem) (d p a : ℕ) (s : List ℕ)
    → IsApart d n p (length s)
    → IsCStr m p s
    → strncpy m d p n a ≡ (if leb d a && ltb a (d + n) then get_or s (a - d) 0 else m a)
unfolding strncpy
strncpy_lem n m d p a s apart h =
    let z : p + 0 ≡ p = omega arith in
    let c = copy_chars_lem n m d p 0 s (omega arith) (rw z h) in
    let q : d + 0 ≡ d = omega arith in
    let copied_cell = rw q at (c.1 a) in
    let i = (copy_chars n m d p 0).1 in
    ground (
      arith,
      c.0,
      copied_cell,
      pad_chars_lem (n - i) (copy_chars n m d p 0).0 d i a,
      get_or-beyond s (a - d),
    )
