-- ===== src/Heap/Kept.antt =====
-- What malloc leaves of the frames and of the heap's end.
use capstone_myos.Prelude.{
  ℕ, zero, suc, ◌+◌, ◌*◌, ◌%◌, ◌^◌, ◌≤◌, arith, inl, inr, Bool, true, false, Option, none, some,
  ◌==◌, leb, ◌∷◌, List, List,
}
use capstone_myos.Pmm.{Pmm, alloc_frame, frame_size, free_frame_count}
use capstone_myos.Pmm.Alloc.{IsValid, alloc_free-IsValid}
use capstone_myos.Pmm.Count.{count-alloc_frame}
use capstone_myos.Heap.{Heap, malloc, grow, take_top, first_fit, align}

-- What a call leaves: the allocator is valid, no frame has been freed, and the heap ends at `e` at most.
abbrev pub IsKept : {A : Type 0} → Pmm → ℕ → Option (A × Heap) → Type 0
IsKept p e none = Unit
IsKept p e (some (a, h)) =
    IsValid h.pmm × (free_frame_count h.pmm ≤ free_frame_count p) × (h.heap_end ≤ e)

IsKept-if :
    {A : Type 0} (p : Pmm) (e : ℕ) (b c : Bool) (x y : A × Heap) (r : Option (A × Heap))
    → IsKept p e (some x)
    → IsKept p e (some y)
    → IsKept p e r
    → IsKept p e (
        let o : Option (A × Heap) = elim b [
          | true ↦ some x
          | false ↦ elim c [ true ↦ some y | false ↦ r ]
        ] in
        o)
IsKept-if p e true c x y r first second third = first
IsKept-if p e false true x y r first second third = second
IsKept-if p e false false x y r first second third = third

IsKept-fewer :
    {A : Type 0} (p q : Pmm) (e e' : ℕ) (r : Option (A × Heap))
    → free_frame_count q ≤ free_frame_count p
    → e' ≤ e
    → IsKept q e' r
    → IsKept p e r
IsKept-fewer p q e e' none le up k = tt
IsKept-fewer p q e e' (some (a, h)) le up (v, less, end) = (v, omega arith, omega arith)

alloc_frame-fewer : (p : Pmm) → IsValid p → free_frame_count (alloc_frame p).1 ≤ free_frame_count p
alloc_frame-fewer p v = elim (count-alloc_frame p v) [
  | inl (_, e) ↦ omega arith
  | inr (_, a, b) ↦ omega arith
]

grow-IsKept :
    (fuel size : ℕ) (h : Heap)
    → IsValid h.pmm
    → IsKept h.pmm (h.heap_end + fuel * 4096) (grow fuel size h)
unfolding grow
grow-IsKept zero size h v = tt
grow-IsKept (suc fuel) size h v =
    let p' = (alloc_frame h.pmm).1 in
    let frame = (alloc_frame h.pmm).0 in
    let v' = (alloc_free-IsValid h.pmm frame_size v (omega arith)).0 in
    let grown = record h {
      pmm = p';
      mapped = (h.heap_end, frame) ∷ h.mapped;
      heap_end = (h.heap_end + frame_size) % 2 ^ 32;
    } in
    IsKept-if h.pmm (h.heap_end + suc fuel * 4096)
      (leb ((h.heap_top + 8 + size) % 2 ^ 32) h.heap_end) (frame == 0) (true, h)
      (false, record h { pmm = p' }) (grow fuel size grown) (v, omega arith, omega arith)
      (v', alloc_frame-fewer h.pmm v, omega arith)
      (IsKept-fewer h.pmm p' (h.heap_end + suc fuel * 4096) (grown.heap_end + fuel * 4096)
        (grow fuel size grown) (alloc_frame-fewer h.pmm v) (omega arith)
        (grow-IsKept fuel size grown v'))

IsKept-room :
    (size : ℕ) (p : Pmm) (e : ℕ) (r : Option (Bool × Heap))
    → IsKept p e r
    → IsKept p e (
        let o : Option (ℕ × Heap) = elim r [
          | none ↦ none
          | some (room, h') ↦ elim room [ true ↦ some (take_top size h') | false ↦ some (0, h') ]
        ] in
        o)
unfolding take_top
IsKept-room size p e none k = tt
IsKept-room size p e (some (true, h)) k = k
IsKept-room size p e (some (false, h)) k = k

IsKept-fit :
    (fit : Option (ℕ × List ℕ)) (b : Bool) (h : Heap) (e : ℕ) (r : Option (ℕ × Heap))
    → IsValid h.pmm
    → h.heap_end ≤ e
    → IsKept h.pmm e r
    → IsKept h.pmm e (
        let o : Option (ℕ × Heap) = elim b [
          | true ↦ some (0, h)
          | false ↦ elim fit [
            | some (b, rest) ↦ some ((b + 8) % 2 ^ 32, record h { free_list = rest })
            | none ↦ r
          ]
        ] in
        o)
IsKept-fit fit true h e r v le k = (v, omega arith, le)
IsKept-fit (some (c, rest)) false h e r v le k = (v, omega arith, le)
IsKept-fit none false h e r v le k = k

pub malloc-IsKept :
    (fuel size : ℕ) (h : Heap)
    → IsValid h.pmm
    → IsKept h.pmm (h.heap_end + fuel * 4096) (malloc fuel size h)
unfolding malloc
malloc-IsKept fuel size h v =
    IsKept-fit (first_fit h.sizes size h.free_list) (size == 0) h (h.heap_end + fuel * 4096) _ v
      (omega arith)
      (IsKept-room size h.pmm _ _
        (grow-IsKept fuel size (record h { heap_top = align h.heap_top }) v))
