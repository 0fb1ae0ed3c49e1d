-- ===== src/Heap/Blocks.antt =====
-- What malloc and free do to the blocks.
use capstone_myos.Prelude.{ℕ, ◌+◌, ◌-◌, ◌%◌, ◌^◌, ◌<◌, ◌≤◌, ◌≡◌, arith, some, List, ◌∷◌, ◌∙◌, ap}
use capstone_myos.Heap.{Heap, first_fit, malloc, free}

first_fit-head :
    (sizes : ℕ → ℕ) (size b : ℕ) (bs : List ℕ)
    → size ≤ sizes b
    → first_fit sizes size (b ∷ bs) ≡ some (b, bs)
unfolding first_fit
first_fit-head sizes size b bs le = ground arith

malloc-fit :
    (fuel size b : ℕ) (rest : List ℕ) (h : Heap)
    → 0 < size
    → first_fit h.sizes size h.free_list ≡ some (b, rest)
    → malloc fuel size h ≡ some ((b + 8) % 2 ^ 32, record h { free_list = rest })
unfolding malloc
malloc-fit fuel size b rest h pos fit = ground arith

-- The header that free puts in front.
abbrev header : ℕ → ℕ
header ptr = (ptr + (2 ^ 32 - 8)) % 2 ^ 32

abbrev freed : ℕ → Heap → Heap
freed ptr h = record h { free_list = header ptr ∷ h.free_list }

free-freed : (ptr : ℕ) (h : Heap) → 0 < ptr → free ptr h ≡ freed ptr h
unfolding free
free-freed ptr h pos = ground arith

header-next : (ptr : ℕ) → ptr < 2 ^ 32 → (header ptr + 8) % 2 ^ 32 ≡ ptr
header-next ptr lt = omega arith

-- A block that was freed is the next that malloc returns for any size that it can hold, and the heap
-- is then as it was before it was freed.
pub malloc-free :
    (fuel size ptr : ℕ) (h : Heap)
    → 0 < ptr
    → ptr < 2 ^ 32
    → 0 < size
    → size ≤ h.sizes ((ptr + (2 ^ 32 - 8)) % 2 ^ 32)
    → malloc fuel size (free ptr h) ≡ some (ptr, h)
malloc-free fuel size ptr h pos lt some_bytes fits =
    let fit = first_fit-head h.sizes size (header ptr) h.free_list fits in
    let step = malloc-fit fuel size (header ptr) h.free_list (freed ptr h) some_bytes fit in
    rw (free-freed ptr h pos) (step ∙ ap (λ (p : ℕ). some (p, h)) (header-next ptr lt))
