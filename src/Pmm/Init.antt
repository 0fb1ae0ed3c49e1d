-- ===== src/Pmm/Init.antt =====
-- pmm_init: which frames are reserved, and how many frames the bitmap stands for.
use capstone_myos.Prelude.{
  ℕ, zero, suc, ◌+◌, ◌*◌, ◌/◌, ◌%◌, ◌<◌, ◌≤◌, ◌≡◌, refl, ◌↔◌, ◌∙◌, arith, ltb, ◌&&◌, leb,
  if◌then◌else◌, test_bit-zero, lt→ltb,
}
use capstone_myos.Pmm.{
  Pmm, frame_size, u32, set_bit, size_of, reserved_frames, reserve, cleared, init,
}
use capstone_myos.Pmm.Frames.{used, capacity, Words, used-set_bit, set_bit-Words}
use capstone_myos.Pmm.Alloc.{IsValid, capacity-set_bit}

-- The loop marks the `n` frames from `i` on.
used-reserve :
    (n i : ℕ) (p : Pmm) (g : ℕ)
    → used (reserve n i p) g ≡ (if leb i g && ltb g (i + n) then 1 else used p g)
unfolding reserve
used-reserve zero i p g = ground arith
used-reserve (suc n) i p g =
    ground (arith, used-reserve n (i + 1) (set_bit p i) g, used-set_bit p i g)

reserve-Words : (n i : ℕ) (p : Pmm) → Words p.bitmap → Words (reserve n i p).bitmap
unfolding reserve
reserve-Words zero i p h = h
reserve-Words (suc n) i p h = reserve-Words n (i + 1) (set_bit p i) (set_bit-Words p i h)

capacity-reserve : (n i : ℕ) (p : Pmm) → capacity (reserve n i p) ≡ capacity p
unfolding reserve
capacity-reserve zero i p = refl
capacity-reserve (suc n) i p = rw (capacity-reserve n (i + 1) (set_bit p i)) (capacity-set_bit p i)

abbrev pub frames_of : ℕ → ℕ
frames_of mem_size_bytes = mem_size_bytes / frame_size

-- The reserved area is the kernel and the bitmap, in whole frames.
abbrev pub reserved : ℕ → ℕ → ℕ
reserved kernel_end mem_size_bytes =
    (kernel_end + size_of (frames_of mem_size_bytes) + 4095) / frame_size

capacity-init :
    (kernel_end : ℕ) (memory : ℕ → ℕ) (mem : ℕ)
    → capacity (init kernel_end memory mem) ≡ size_of (frames_of mem) / 4 * 32
unfolding init cleared
capacity-init kernel_end memory mem = capacity-reserve _ 0 _

bitmap_size-reserve : (n i : ℕ) (p : Pmm) → (reserve n i p).bitmap_size ≡ p.bitmap_size
unfolding reserve set_bit
bitmap_size-reserve zero i p = refl
bitmap_size-reserve (suc n) i p = bitmap_size-reserve n (i + 1) (set_bit p i)

pub bitmap_size-init :
    (kernel_end : ℕ) (memory : ℕ → ℕ) (mem : ℕ)
    → (init kernel_end memory mem).bitmap_size ≡ size_of (frames_of mem)
unfolding init cleared
bitmap_size-init kernel_end memory mem = bitmap_size-reserve _ 0 _

cleared-unused :
    (kernel_end : ℕ) (memory : ℕ → ℕ) (mem f : ℕ)
    → f < size_of (frames_of mem) / 4 * 32
    → used (cleared kernel_end memory mem) f ≡ 0
unfolding cleared
cleared-unused kernel_end memory mem f lt =
    rw (lt→ltb (f / 32) (size_of (frames_of mem) / 4) (omega arith)) (test_bit-zero (f % 32))

cleared-Words :
    (kernel_end : ℕ) (memory : ℕ → ℕ) (mem : ℕ)
    → Words memory
    → Words (cleared kernel_end memory mem).bitmap
unfolding cleared
cleared-Words kernel_end memory mem w i = ground (arith, w i)

size_of_fits : (mem : ℕ) → mem < u32 → size_of (frames_of mem) / 4 * 32 * frame_size ≤ u32
unfolding size_of
size_of_fits mem h = ground arith

reserved_frames_lem :
    (kernel_end : ℕ) (memory : ℕ → ℕ) (mem : ℕ)
    → kernel_end + size_of (frames_of mem) + 4095 < u32
    → reserved_frames kernel_end (cleared kernel_end memory mem).bitmap_size
      ≡ reserved kernel_end mem
unfolding reserved_frames cleared
reserved_frames_lem kernel_end memory mem h = omega arith

used-init :
    (kernel_end : ℕ) (memory : ℕ → ℕ) (mem f : ℕ)
    → kernel_end + size_of (frames_of mem) + 4095 < u32
    → used (init kernel_end memory mem) f
      ≡ (if ltb f (reserved kernel_end mem) then 1 else used (cleared kernel_end memory mem) f)
unfolding init
used-init kernel_end memory mem f h =
    let p = cleared kernel_end memory mem in
    let n = reserved kernel_end mem in
    let z : 0 + n ≡ n = omega arith in
    rw (reserved_frames_lem kernel_end memory mem h) (rw z at (used-reserve n 0 p f) ∙ ground arith)

-- After pmm_init, of the frames that the bitmap stands for exactly those below the end of the kernel
-- and its bitmap are used, if that end is not within the last 4 KB of the 32-bit addresses.
pub init_lem :
    (kernel_end : ℕ) (memory : ℕ → ℕ) (mem f : ℕ)
    → kernel_end + size_of (frames_of mem) + 4095 < u32
    → f < capacity (init kernel_end memory mem)
    → used (init kernel_end memory mem) f ≡ (if ltb f (reserved kernel_end mem) then 1 else 0)
init_lem kernel_end memory mem f h lt = rw (
  used-init kernel_end memory mem f h,
  cleared-unused kernel_end memory mem f (rw capacity-init at lt),
)

-- pmm_init establishes the invariant, for a kernel that does not end at address 0 and memory below
-- 4 GB.
pub init-IsValid :
    (kernel_end : ℕ) (memory : ℕ → ℕ) (mem : ℕ)
    → 0 < kernel_end
    → mem < u32
    → kernel_end + size_of (frames_of mem) + 4095 < u32
    → Words memory
    → IsValid (init kernel_end memory mem)
init-IsValid kernel_end memory mem pos small h w = record {
  words = unfold init in reserve-Words _ 0 _ (cleared-Words kernel_end memory mem w);
  zero_used = ground (arith, used-init kernel_end memory mem 0 h);
  fits = rw (capacity-init kernel_end memory mem) (size_of_fits mem small);
}

total_frames-reserve : (n i : ℕ) (p : Pmm) → (reserve n i p).total_frames ≡ p.total_frames
unfolding reserve set_bit
total_frames-reserve zero i p = refl
total_frames-reserve (suc n) i p = total_frames-reserve n (i + 1) (set_bit p i)

total_frames-init :
    (kernel_end : ℕ) (memory : ℕ → ℕ) (mem : ℕ)
    → (init kernel_end memory mem).total_frames ≡ frames_of mem
unfolding init cleared
total_frames-init kernel_end memory mem = total_frames-reserve _ 0 _

size_of_exact : (frames : ℕ) → (size_of frames / 4 * 32 ≡ frames) ↔ (frames % 32 ≡ 0)
unfolding size_of
size_of_exact frames = ground arith

size_of_rounded :
    (frames : ℕ)
    → (frames / 8 * 8 ≤ size_of frames / 4 * 32)
      × (size_of frames / 4 * 32 < frames / 8 * 8 + 32)
      × ((size_of frames / 4 * 32 ≡ frames) ↔ (frames % 32 ≡ 0))
unfolding size_of
size_of_rounded frames = (ground arith, ground arith, size_of_exact frames)

-- The bitmap's size is rounded up to whole 32-bit words: it stands for every frame of a whole byte, eight
-- frames, and for fewer than 32 more. It stands for exactly the frames of memory when their number is a
-- multiple of 32, and only then; otherwise frames are missing from it or it has frames that do not
-- exist.
pub capacity_exact :
    (kernel_end : ℕ) (memory : ℕ → ℕ) (mem : ℕ)
    → let p = init kernel_end memory mem in
      (frames_of mem / 8 * 8 ≤ capacity p)
      × (capacity p < frames_of mem / 8 * 8 + 32)
      × ((capacity p ≡ p.total_frames) ↔ (frames_of mem % 32 ≡ 0))
capacity_exact kernel_end memory mem =
    rw (capacity-init kernel_end memory mem, total_frames-init kernel_end memory mem)
      (size_of_rounded (frames_of mem))
