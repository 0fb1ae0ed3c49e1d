-- ===== src/Strings/Scan.antt =====
-- strlen and strcmp on NUL-terminated strings.
use capstone_myos.Prelude.{
  ◌∙◌, ℕ, zero, suc, ◌+◌, ◌<◌, ◌≡◌, refl, ◌≢◌, ◌↔◌, List, [], ◌∷◌, some, arith, length, ◌==◌,
  if◌then◌else◌, ℤ, pos, sub_ℕ, ap,
}
use capstone_myos.Strings.{Mem, strcmp, strlen_from, strlen}

-- At `p` stands the string of the bytes `s`, and its NUL.
abbrev pub IsCStr : Mem → ℕ → List ℕ → Type 0
IsCStr m p [] = m p ≡ 0
IsCStr m p (c ∷ s) = (m p ≡ c) × (c ≢ 0) × IsCStr m (p + 1) s

strlen_from_lem :
    (fuel : ℕ) (m : Mem) (p len : ℕ) (s : List ℕ)
    → IsCStr m (p + len) s
    → length s < fuel
    → strlen_from fuel m p len ≡ some (len + length s)
unfolding strlen_from
strlen_from_lem zero m p len s h f = absurd (omega arith)
strlen_from_lem (suc fuel) m p len [] h f = ground arith
strlen_from_lem (suc fuel) m p len (c ∷ s) h f =
    let next : IsCStr m (p + (len + 1)) s =
      let e : p + (len + 1) ≡ p + len + 1 = omega arith in rw e h.2 in
    ground (arith, strlen_from_lem fuel m p (len + 1) s next)

-- strlen returns the number of bytes before the NUL, given fuel beyond that number.
pub strlen_lem :
    (fuel : ℕ) (m : Mem) (p : ℕ) (s : List ℕ)
    → IsCStr m p s
    → length s < fuel
    → strlen fuel m p ≡ some (length s)
unfolding strlen
strlen_lem fuel m p s h f =
    let e : p + 0 ≡ p = omega arith in
    let z : 0 + length s ≡ length s = omega arith in
    rw z at (strlen_from_lem fuel m p 0 s (rw e h) f)

-- The difference at the first place where two strings differ, NULs included.
abbrev pub first_difference : List ℕ → List ℕ → ℤ
first_difference [] [] = pos 0
first_difference [] (d ∷ t) = sub_ℕ 0 d
first_difference (c ∷ s) [] = sub_ℕ c 0
first_difference (c ∷ s) (d ∷ t) = if c == d then first_difference s t else sub_ℕ c d

first_difference-zero :
    (m : Mem) (p q : ℕ) (s t : List ℕ)
    → IsCStr m p s
    → IsCStr m q t
    → (first_difference s t ≡ pos 0) ↔ (s ≡ t)
first_difference-zero m p q [] [] h k = ((λ _. refl), (λ _. refl))
first_difference-zero m p q [] (d ∷ t) h k = ((λ e. ground arith), λ e. ground arith)
first_difference-zero m p q (c ∷ s) [] h k = ((λ e. ground arith), λ e. ground arith)
first_difference-zero m p q (c ∷ s) (d ∷ t) h k =
    let ih = first_difference-zero m (p + 1) (q + 1) s t h.2 k.2 in
    ((λ e. ground (arith, ih)), λ e. ground (arith, ih))

strcmp-first_difference :
    (fuel : ℕ) (m : Mem) (p q : ℕ) (s t : List ℕ)
    → IsCStr m p s
    → IsCStr m q t
    → length s < fuel
    → strcmp fuel m p q ≡ some (first_difference s t)
unfolding strcmp
strcmp-first_difference zero m p q s t h k f = absurd (omega arith)
strcmp-first_difference (suc fuel) m p q [] [] h k f = ground arith
strcmp-first_difference (suc fuel) m p q [] (d ∷ t) h k f = ground arith
strcmp-first_difference (suc fuel) m p q (c ∷ s) [] h k f = ground arith
strcmp-first_difference (suc fuel) m p q (c ∷ s) (d ∷ t) h k f =
    ground (arith, strcmp-first_difference fuel m (p + 1) (q + 1) s t h.2 k.2)

-- With fuel beyond the first string's length, strcmp returns the difference of the two bytes at the
-- first place where the strings differ, and that is 0 exactly when they are the same string.
pub strcmp_lem :
    (fuel : ℕ) (m : Mem) (p q : ℕ) (s t : List ℕ)
    → IsCStr m p s
    → IsCStr m q t
    → length s < fuel
    → (strcmp fuel m p q ≡ some (first_difference s t))
      × ((strcmp fuel m p q ≡ some (pos 0)) ↔ (s ≡ t))
strcmp_lem fuel m p q s t h k f =
    let e = strcmp-first_difference fuel m p q s t h k f in
    let z = first_difference-zero m p q s t h k in
    (e, ((λ r. ground (arith, e, z, r)), λ r. e ∙ ap some (z.1 r)))
