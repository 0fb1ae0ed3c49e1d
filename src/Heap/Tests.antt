-- ===== src/Heap/Tests.antt =====
-- Allocation and reuse, as the shell's memtest command does it.
use capstone_myos.Prelude.{
  true, ℕ, ◌≡◌, refl, arith, Option, none, some, [], ◌==◌, Bool, false, update,
}
use capstone_myos.Pmm.{Pmm}
use capstone_myos.Heap.{Heap, malloc, free, first_fit, align, grow, take_top}
use capstone_myos.Heap.Fit.{elem}
use capstone_myos.Heap.Apart.{IsHeap, IsAnswer, malloc_lem, free_lem}

abbrev no_frames : Pmm
no_frames = record { bitmap = λ i. 0xFFFFFFFF; base = 0; total_frames = 0; bitmap_size = 0 }

-- A block of 16 bytes stands at 0x200000.
abbrev heap : Heap
heap = record {
  heap_top = 0x200018;
  heap_end = 0x201000;
  free_list = [];
  sizes = λ i. 16;
  pmm = no_frames;
  mapped = [];
}

-- The sum of top and size wraps: a block of nearly four gigabytes is handed out.
wrapped : Option (ℕ × Heap) → ℕ
wrapped none = 0
wrapped (some (p, h)) = p

too_large : wrapped (malloc 1 0xFFFFFFF0 heap) ≡ 0x200020
unfolding wrapped malloc first_fit align grow take_top
too_large = refl

-- The block at 0x200000 is handed out.
abbrev one_block : ℕ → Bool
one_block b = b == 0x200000

heap-IsHeap : IsHeap heap one_block
heap-IsHeap = record {
  apart = λ b c ub uc ne. absurd (ne (ground (arith, ub, uc)));
  below = λ b ub. ground (arith, ub);
  once = λ b l. refl;
  distinct = tt;
  room = omega arith;
  pages = refl;
}

malloc_lem_example : IsAnswer 8 heap one_block (malloc 1 8 heap)
malloc_lem_example = malloc_lem 1 8 heap one_block heap-IsHeap (omega arith)

free_lem_example :
    IsHeap (free 0x200008 heap) (update one_block 0x200000 false)
    × (elem 0x200000 (free 0x200008 heap).free_list ≡ true)
    × (malloc 1 16 (free 0x200008 heap) ≡ some (0x200008, heap))
free_lem_example =
    free_lem 0x200000 1 16 heap one_block heap-IsHeap refl (omega arith) (omega arith) (omega arith)
