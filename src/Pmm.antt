-- ===== src/Pmm.antt =====
-- kernel/mm/pmm.c: the bitmap allocator of 4 KB physical frames.
-- `pmm_bitmap` points at &kernel_end, so the bitmap is the memory from there on, read as
-- 32-bit words: a frame index beyond the bitmap reaches the words behind it, as in C.
pub mod Frames
pub mod Alloc
pub mod Count
pub mod Init
mod Tests
use capstone_myos.Prelude.{
  ℕ, zero, suc, ◌+◌, ◌-◌, ◌*◌, ◌/◌, ◌%◌, ◌^◌, bit_and, bit_or, Option, none, some, ltb, ◌==◌,
  if◌then◌else◌, update,
}

abbrev pub frame_size : ℕ
frame_size = 4096

abbrev pub u32 : ℕ
u32 = 2 ^ 32

pub record Pmm : Type 0 where
  pub bitmap : ℕ → ℕ
  pub base : ℕ
  pub total_frames : ℕ
  pub bitmap_size : ℕ

unfoldable pub set_bit : Pmm → ℕ → Pmm
set_bit p frame_idx = record p {
  bitmap =
      update p.bitmap (frame_idx / 32) (bit_or (p.bitmap (frame_idx / 32)) (2 ^ (frame_idx % 32)));
}

-- `~(1 << bit_idx)` in 32 bits.
unfoldable pub clear_bit : Pmm → ℕ → Pmm
clear_bit p frame_idx = record p {
  bitmap =
      update p.bitmap (frame_idx / 32)
        (bit_and (p.bitmap (frame_idx / 32)) (2 ^ 32 - 1 - 2 ^ (frame_idx % 32)));
}

-- `pmm_bitmap_size`: a byte for eight frames, rounded up to whole words.
unfoldable pub size_of : ℕ → ℕ
size_of total_frames =
    let size = total_frames / 8 in if size % 4 == 0 then size else (size / 4 + 1) * 4

unfoldable pub reserved_frames : ℕ → ℕ → ℕ
reserved_frames kernel_end size = ((kernel_end + size) % u32 + frame_size - 1) % u32 / frame_size

unfoldable pub reserve : ℕ → ℕ → Pmm → Pmm
reserve zero i p = p
reserve (suc n) i p = reserve n (i + 1) (set_bit p i)

-- `memory` is what stands from &kernel_end on before the call; `memset` clears the bitmap's words.
unfoldable pub cleared : ℕ → (ℕ → ℕ) → ℕ → Pmm
cleared kernel_end memory mem_size_bytes =
    let frames = mem_size_bytes / frame_size in
    let size = size_of frames in
    record {
      bitmap = λ i. if ltb i (size / 4) then 0 else memory i;
      base = kernel_end;
      total_frames = frames;
      bitmap_size = size;
    }

unfoldable pub init : ℕ → (ℕ → ℕ) → ℕ → Pmm
init kernel_end memory mem_size_bytes =
    let p = cleared kernel_end memory mem_size_bytes in
    reserve (reserved_frames kernel_end p.bitmap_size) 0 p

-- The inner loop: the first clear bit of a word, among `n` from `bit` on.
unfoldable pub find_bit : ℕ → ℕ → ℕ → Option ℕ
find_bit zero bit w = none
find_bit (suc n) bit w = if bit_and w (2 ^ bit) == 0 then some bit else find_bit n (bit + 1) w

abbrev in_word : ℕ → Option ℕ → Option ℕ → Option ℕ
in_word dword none rest = rest
in_word dword (some bit) rest = some (dword * 32 + bit)

-- The outer loop: the first free frame of `n` words from `dword` on; full words are skipped.
unfoldable pub scan : ℕ → ℕ → (ℕ → ℕ) → Option ℕ
scan zero dword m = none
scan (suc n) dword m =
    let rest = scan n (dword + 1) m in
    if m dword == 0xFFFFFFFF then rest else in_word dword (find_bit 32 0 (m dword)) rest

-- The address of the frame, or 0 (NULL).
unfoldable pub alloc_frame : Pmm → ℕ × Pmm
alloc_frame p = elim (scan (p.bitmap_size / 4) 0 p.bitmap) [
  | none ↦ (0, p)
  | some frame_idx ↦ (frame_idx * frame_size % u32, set_bit p frame_idx)
]

unfoldable pub free_frame : Pmm → ℕ → Pmm
free_frame p addr = clear_bit p (addr / frame_size)

unfoldable pub get_free_addr : Pmm → ℕ
get_free_addr p = (p.base + p.bitmap_size) % u32

unfoldable pub count_bits : ℕ → ℕ → ℕ → ℕ
count_bits zero bit w = 0
count_bits (suc n) bit w = (if bit_and w (2 ^ bit) == 0 then 1 else 0) + count_bits n (bit + 1) w

unfoldable pub count_words : ℕ → ℕ → (ℕ → ℕ) → ℕ
count_words zero dword m = 0
count_words (suc n) dword m =
    (if m dword == 0xFFFFFFFF then 0 else count_bits 32 0 (m dword)) + count_words n (dword + 1) m

unfoldable pub free_frame_count : Pmm → ℕ
free_frame_count p = count_words (p.bitmap_size / 4) 0 p.bitmap
