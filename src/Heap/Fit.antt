-- ===== src/Heap/Fit.antt =====
-- The search of the free list: the block that malloc takes out, and the list that is left.
use capstone_myos.Prelude.{
  ℕ, ◌≤◌, ◌≡◌, Bool, true, false, not, ◌&&◌, ◌||◌, Option, none, some, List, [], ◌∷◌, ◌==◌, leb,
  Bool-cases, inl, inr, arith,
}
use capstone_myos.Heap.{first_fit, keep}

abbrev pub elem : ℕ → List ℕ → Bool
elem x [] = false
elem x (y ∷ ys) = (x == y) || elem x ys

-- No address stands in the list twice.
abbrev pub IsDistinct : List ℕ → Type 0
IsDistinct [] = Unit
IsDistinct (x ∷ xs) = (elem x xs ≡ false) × IsDistinct xs

-- What a search for `size` bytes has found.
abbrev pub IsFit : (ℕ → ℕ) → ℕ → List ℕ → Option (ℕ × List ℕ) → Type 0
IsFit sizes size bs none = Unit
IsFit sizes size bs (some (c, rest)) =
    (elem c bs ≡ true)
    × (size ≤ sizes c)
    × IsDistinct rest
    × ((x : ℕ) → elem x rest ≡ (elem x bs && not (x == c)))

IsFit-keep :
    (sizes : ℕ → ℕ) (size b : ℕ) (bs : List ℕ) (r : Option (ℕ × List ℕ))
    → IsDistinct (b ∷ bs)
    → IsFit sizes size bs r
    → IsFit sizes size (b ∷ bs) (keep b r)
IsFit-keep sizes size b bs none s h = tt
IsFit-keep sizes size b bs (some (c, rest)) s (i, le, r, same) =
    (ground arith, le, (ground (arith, same b), r), λ x. ground (arith, same x))

pub first_fit-IsFit :
    (sizes : ℕ → ℕ) (size : ℕ) (bs : List ℕ)
    → IsDistinct bs
    → IsFit sizes size bs (first_fit sizes size bs)
unfolding first_fit
first_fit-IsFit sizes size [] s = tt
first_fit-IsFit sizes size (b ∷ bs) s = elim (Bool-cases (leb size (sizes b))) [
  | inl fits ↦ rw fits (ground arith, ground (arith, fits), s.1, λ x. ground (arith, s.0))
  | inr over ↦
      rw over
        (IsFit-keep sizes size b bs (first_fit sizes size bs) s (first_fit-IsFit sizes size bs s.1))
]
