-- ===== src/Heap.antt =====
-- kernel/mm/memory.c: the kernel's heap, in which no block is freed twice: the code links such a block to
-- itself, and the list no longer ends. `free_list` holds the addresses of the free headers in the list's
-- order, `sizes` the size field of every header, `mapped` the requests to paging_map_page, the latest
-- first. Boot carries out those of init_memory; the frame and the faults of a page table that a later
-- request lacks are not part of the heap.
pub mod Blocks
pub mod Growth
pub mod Fit
pub mod Apart
pub mod Kept
mod Tests
use capstone_myos.Prelude.{
  ℕ, zero, suc, ◌+◌, ◌-◌, ◌*◌, ◌/◌, ◌%◌, ◌^◌, Bool, true, false, Option, none, some, List, [], ◌∷◌,
  ◌==◌, leb, if◌then◌else◌, update, bit_and,
}
use capstone_myos.Pmm.{Pmm, alloc_frame, frame_size}

pub record Heap : Type 0 where
  pub heap_top : ℕ
  pub heap_end : ℕ
  pub free_list : List ℕ
  pub sizes : ℕ → ℕ
  pub pmm : Pmm
  pub mapped : List (ℕ × ℕ)

-- init_memory, for the address of kernel_end.
unfoldable pub init_memory : ℕ → Pmm → Heap
init_memory kernel_end p =
    let start = (kernel_end + p.bitmap_size) % 2 ^ 32 in
    let top =
      if start % frame_size == 0 then start else (start / frame_size + 1) * frame_size % 2 ^ 32 in
    let (frame, p') = alloc_frame p in
    record {
      heap_top = top;
      heap_end = (top + frame_size) % 2 ^ 32;
      free_list = [];
      sizes = λ i. 0;
      pmm = p';
      mapped = (top, frame) ∷ [];
    }

abbrev keep : ℕ → Option (ℕ × List ℕ) → Option (ℕ × List ℕ)
keep b none = none
keep b (some (c, cs)) = some (c, b ∷ cs)

-- The search of malloc: the first block that is large enough, and the list without it.
unfoldable pub first_fit : (ℕ → ℕ) → ℕ → List ℕ → Option (ℕ × List ℕ)
first_fit sizes size [] = none
first_fit sizes size (b ∷ bs) =
    let rest = first_fit sizes size bs in if leb size (sizes b) then some (b, bs) else keep b rest

unfoldable pub align : ℕ → ℕ
align top = if top % 4 == 0 then top else bit_and ((top + 3) % 2 ^ 32) 0xFFFFFFFC

-- The growth of the heap, a page a round: whether there is room, or no frame was left; `none` if
-- `fuel` rounds were not enough.
unfoldable pub grow : ℕ → ℕ → Heap → Option (Bool × Heap)
grow zero size h = none
grow (suc fuel) size h = elim (leb ((h.heap_top + 8 + size) % 2 ^ 32) h.heap_end) [
  | true ↦ some (true, h)
  | false ↦
      let (frame, p') = alloc_frame h.pmm in
      elim (frame == 0) [
        | true ↦ some (false, record h { pmm = p' })
        | false ↦ grow fuel size (record h {
          pmm = p';
          mapped = (h.heap_end, frame) ∷ h.mapped;
          heap_end = (h.heap_end + frame_size) % 2 ^ 32;
        })
      ]
]

-- The block at the top of the heap.
unfoldable pub take_top : ℕ → Heap → ℕ × Heap
take_top size h = (
  (h.heap_top + 8) % 2 ^ 32,
  record h {
    heap_top = (h.heap_top + (8 + size)) % 2 ^ 32;
    sizes = update h.sizes h.heap_top size;
  },
)

unfoldable pub malloc : ℕ → ℕ → Heap → Option (ℕ × Heap)
malloc fuel size h = elim (size == 0) [
  | true ↦ some (0, h)
  | false ↦ elim (first_fit h.sizes size h.free_list) [
    | some (b, rest) ↦ some ((b + 8) % 2 ^ 32, record h { free_list = rest })
    | none ↦ elim (grow fuel size (record h { heap_top = align h.heap_top })) [
      | none ↦ none
      | some (room, h') ↦ elim room [ true ↦ some (take_top size h') | false ↦ some (0, h') ]
    ]
  ]
]

unfoldable pub free : ℕ → Heap → Heap
free ptr h =
    if ptr == 0 then h else record h { free_list = (ptr + (2 ^ 32 - 8)) % 2 ^ 32 ∷ h.free_list }
