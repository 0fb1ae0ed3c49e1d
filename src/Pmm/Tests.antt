-- ===== src/Pmm/Tests.antt =====
-- The frame allocator on a small bitmap: two words, frames 0 to 2 used.
use capstone_myos.Prelude.{
  ◌/◌, ◌≤◌, ℕ, ◌+◌, ◌*◌, ◌≡◌, refl, ◌↔◌, ◌⊎◌, ◌<◌, arith, ◌==◌, if◌then◌else◌, ◌%◌,
}
use capstone_myos.Pmm.{
  Pmm, frame_size, set_bit, size_of, reserved_frames, reserve, cleared, init, find_bit, scan,
  alloc_frame, free_frame, count_bits, count_words, free_frame_count,
}
use capstone_myos.Pmm.Frames.{used, capacity}
use capstone_myos.Pmm.Alloc.{IsValid, alloc_frame_lem, free_frame_lem, alloc_free-IsValid}
use capstone_myos.Pmm.Init.{frames_of, capacity_exact}

abbrev small : Pmm
small = record {
  bitmap = λ i. if i == 0 then 7 else 0;
  base = 0x20000;
  total_frames = 64;
  bitmap_size = 8;
}

small-IsValid : IsValid small
small-IsValid = record { words = λ i. ground arith; zero_used = refl; fits = omega arith }

alloc_small : (alloc_frame small).0 ≡ 3 * 4096
unfolding alloc_frame scan find_bit
alloc_small = refl

count_small : free_frame_count small ≡ 61
unfolding free_frame_count count_words count_bits
count_small = refl

-- 16 MB with the kernel's end at 128 KB: 4096 frames, the first 33 reserved.
boot_count : free_frame_count (init 0x20000 (λ i. 0) 16777216) ≡ 4063
unfolding free_frame_count count_words count_bits init cleared reserve reserved_frames set_bit
    size_of
boot_count = refl

alloc_frame_lem_example :
    let (addr, q) = alloc_frame small in
    ((addr ≡ 0) × (q ≡ small) × ((g : ℕ) → g < capacity small → used small g ≡ 1))
    ⊎ ((f : ℕ) × (addr ≡ f * frame_size)
        × (0 < f)
        × (f < capacity small)
        × (used small f ≡ 0)
        × ((g : ℕ) → g < f → used small g ≡ 1)
        × ((g : ℕ) → used q g ≡ (if g == f then 1 else used small g)))
alloc_frame_lem_example = alloc_frame_lem small small-IsValid

free_frame_lem_example : used (free_frame small (2 * frame_size + 5)) 2 ≡ 0
free_frame_lem_example = free_frame_lem small 2 5 2 (omega arith)

alloc_free-IsValid_example : IsValid (alloc_frame small).1 × IsValid (free_frame small 8192)
alloc_free-IsValid_example = alloc_free-IsValid small 8192 small-IsValid (omega arith)

capacity_exact_example :
    let p = init 0x20000 (λ i. 0) 0xC000 in
    (frames_of 0xC000 / 8 * 8 ≤ capacity p)
    × (capacity p < frames_of 0xC000 / 8 * 8 + 32)
    × ((capacity p ≡ p.total_frames) ↔ (frames_of 0xC000 % 32 ≡ 0))
capacity_exact_example = capacity_exact 0x20000 (λ i. 0) 0xC000
