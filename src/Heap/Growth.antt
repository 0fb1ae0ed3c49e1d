-- ===== src/Heap/Growth.antt =====
-- The growth of the heap ends: every round takes a frame.
use capstone_myos.Prelude.{
  ℕ, zero, suc, ◌+◌, ◌%◌, ◌^◌, ◌<◌, ◌≡◌, ◌≢◌, refl, Bool, true, false, inl, inr, Option, none, some,
  List, ◌∷◌, ◌==◌, leb, arith,
}
use capstone_myos.Pmm.{alloc_frame, frame_size, free_frame_count}
use capstone_myos.Pmm.Alloc.{IsValid, alloc_free-IsValid}
use capstone_myos.Pmm.Count.{count-alloc_frame}
use capstone_myos.Heap.{Heap, first_fit, align, grow, take_top, malloc}

abbrev pub Returns : {A : Type 0} → Option (A × Heap) → Type 0
Returns none = ⊥
Returns (some r) = Unit

Returns-if :
    {A : Type 0} (b c : Bool) (x y : A × Heap) (r : Option (A × Heap))
    → (c ≡ false → Returns r)
    → Returns (
        let o : Option (A × Heap) = elim b [
          | true ↦ some x
          | false ↦ elim c [ true ↦ some y | false ↦ r ]
        ] in
        o)
Returns-if true c x y r h = tt
Returns-if false true x y r h = tt
Returns-if false false x y r h = h refl

-- Given more fuel than there are free frames, the growth ends.
grow-Returns :
    (fuel size : ℕ) (h : Heap)
    → IsValid h.pmm
    → free_frame_count h.pmm < fuel
    → Returns (grow fuel size h)
unfolding grow
grow-Returns zero size h v lt = absurd (omega arith)
grow-Returns (suc fuel) size h v lt =
    let p' = (alloc_frame h.pmm).1 in
    let frame = (alloc_frame h.pmm).0 in
    let grown = record h {
      pmm = p';
      mapped = (h.heap_end, frame) ∷ h.mapped;
      heap_end = (h.heap_end + frame_size) % 2 ^ 32;
    } in
    let fewer : frame ≢ 0 → free_frame_count p' < fuel = λ ne. elim (count-alloc_frame h.pmm v) [
      | inl (_, e) ↦ omega arith
      | inr (z, _, _) ↦ absurd (ne z)
    ] in
    Returns-if (leb ((h.heap_top + 8 + size) % 2 ^ 32) h.heap_end) (frame == 0) (true, h)
      (false, record h { pmm = p' }) (grow fuel size grown)
      (λ e.
        let ne : frame ≢ 0 = λ z. ground (arith, e, z) in
        grow-Returns fuel size grown (alloc_free-IsValid h.pmm frame_size v (omega arith)).0
          (fewer ne))

room_end :
    (size : ℕ) (r : Option (Bool × Heap))
    → Returns r
    → Returns (
        let o : Option (ℕ × Heap) = elim r [
          | none ↦ none
          | some (room, h') ↦ elim room [ true ↦ some (take_top size h') | false ↦ some (0, h') ]
        ] in
        o)
room_end size none h = h
room_end size (some (true, h')) h = tt
room_end size (some (false, h')) h = tt

fit_end :
    (h : Heap) (fit : Option (ℕ × List ℕ)) (r : Option (ℕ × Heap))
    → Returns r
    → Returns (
        let o : Option (ℕ × Heap) = elim fit [
          | some (b, rest) ↦ some ((b + 8) % 2 ^ 32, record h { free_list = rest })
          | none ↦ r
        ] in
        o)
fit_end h none r k = k
fit_end h (some (b, rest)) r k = tt

size_end :
    (b : Bool) (x : ℕ × Heap) (r : Option (ℕ × Heap))
    → Returns r
    → Returns (let o : Option (ℕ × Heap) = elim b [ true ↦ some x | false ↦ r ] in o)
size_end true x r k = tt
size_end false x r k = k

returned : {A : Type 0} (r : Option (A × Heap)) → Returns r → (x : A × Heap) × (r ≡ some x)
returned none k = absurd k
returned (some x) k = (x, refl)

-- On a free list that ends, malloc returns, given more rounds for its loop than there are free frames,
-- whatever the size.
pub malloc_returns :
    (fuel size : ℕ) (h : Heap)
    → IsValid h.pmm
    → free_frame_count h.pmm < fuel
    → (r : ℕ × Heap) × (malloc fuel size h ≡ some r)
unfolding malloc
malloc_returns fuel size h v lt =
    let aligned = record h { heap_top = align h.heap_top } in
    let grown = room_end size (grow fuel size aligned) (grow-Returns fuel size aligned v lt) in
    returned _
      (size_end (size == 0) (0, h) _ (fit_end h (first_fit h.sizes size h.free_list) _ grown))
