-- ===== src/Pmm/Alloc.antt =====
-- pmm_alloc_frame and pmm_free_frame against the set of used frames.
use native.Mathlib.Nat.{one-le-pow}
use native.Mathlib.Decide.{ℕ_discrete, dec_lt}
use capstone_myos.Prelude.{
  ℕ, zero, suc, ◌+◌, ◌-◌, ◌*◌, ◌/◌, ◌%◌, ◌^◌, ◌<◌, ◌≤◌, ◌≡◌, refl, ◌≢◌, ◌⊎◌, inl, inr, bit_and,
  arith, Option, none, some, ◌==◌, if◌then◌else◌, test_bit, test_bit-lt, bit_and-pow, test_bit-zero,
  test_bit-complement, ==_iff, Bool-cases,
}
use capstone_myos.Pmm.{
  Pmm, frame_size, u32, set_bit, clear_bit, find_bit, in_word, scan, alloc_frame, free_frame,
}
use capstone_myos.Pmm.Frames.{
  used_in, used, capacity, Words, used-set_bit, used-clear_bit, set_bit-Words, clear_bit-Words,
}

-- The invariant of the allocator: frame 0 is reserved, so that address 0 means failure, the words are
-- 32 bits, and the last frame's end is an address.
pub record IsValid (p : Pmm) : Type 0 where
  pub words : Words p.bitmap
  pub zero_used : used p 0 ≡ 1
  pub fits : capacity p * frame_size ≤ u32

-- The first index from `lo` below `hi` at which `u` is 0, if there is one.
abbrev pub IsFirst : (ℕ → ℕ) → ℕ → ℕ → Option ℕ → Type 0
IsFirst u lo hi none = (i : ℕ) → lo ≤ i → i < hi → u i ≡ 1
IsFirst u lo hi (some f) = (lo ≤ f) × (f < hi) × (u f ≡ 0) × ((i : ℕ) → lo ≤ i → i < f → u i ≡ 1)

-- The C test of a bit.
pub bit_test : (w k : ℕ) → (bit_and w (2 ^ k) == 0) ≡ (test_bit w k == 0)
bit_test w k = ground (arith, bit_and-pow k w, test_bit-lt w k, one-le-pow k 2 (omega arith))

IsFirst-skip :
    (u : ℕ → ℕ) (lo hi : ℕ) (r : Option ℕ) → u lo ≡ 1 → IsFirst u (lo + 1) hi r → IsFirst u lo hi r
IsFirst-skip u lo hi none e h =
    λ i p q. elim (ℕ_discrete lo i) [ yes same ↦ rw (← same) e | no other ↦ h i (omega arith) q ]
IsFirst-skip u lo hi (some f) e h = (
  omega arith,
  h.1,
  h.2,
  λ i p q. elim (ℕ_discrete lo i) [ yes same ↦ rw (← same) e | no other ↦ h.3 i (omega arith) q ],
)

find_bit-IsFirst : (n b w hi : ℕ) → b + n ≡ hi → IsFirst (test_bit w) b hi (find_bit n b w)
unfolding find_bit
find_bit-IsFirst zero b w hi e = λ i p q. absurd (omega arith)
find_bit-IsFirst (suc n) b w hi e = rw (bit_test w b) (elim (Bool-cases (test_bit w b == 0)) [
  | inl clear ↦ rw clear (omega arith, omega arith, ground arith, λ i p q. absurd (omega arith))
  | inr set ↦ rw set (
      IsFirst-skip (test_bit w) b hi (find_bit n (b + 1) w) (ground (arith, test_bit-lt w b))
        (find_bit-IsFirst n (b + 1) w hi (omega arith)))
])

-- Bit `b` of word `d` is frame `d * 32 + b`.
pub used_in-word : (m : ℕ → ℕ) (d b : ℕ) → b < 32 → used_in m (d * 32 + b) ≡ test_bit (m d) b
used_in-word m d b h =
    let q : (d * 32 + b) / 32 ≡ d = omega arith in
    let r : (d * 32 + b) % 32 ≡ b = omega arith in rw (q, r)

used_in-below :
    (m : ℕ → ℕ) (d b i : ℕ)
    → b ≤ 32
    → ((j : ℕ) → 0 ≤ j → j < b → test_bit (m d) j ≡ 1)
    → d * 32 ≤ i
    → i < d * 32 + b
    → used_in m i ≡ 1
used_in-below m d b i le h p q =
    let e : i ≡ d * 32 + (i - d * 32) = omega arith in
    rw e (
      rw (used_in-word m d (i - d * 32) (omega arith)) (h (i - d * 32) (omega arith) (omega arith)))

in_word-IsFirst :
    (m : ℕ → ℕ) (d hi : ℕ) (r rest : Option ℕ)
    → d < hi
    → IsFirst (test_bit (m d)) 0 32 r
    → IsFirst (used_in m) ((d + 1) * 32) (hi * 32) rest
    → IsFirst (used_in m) (d * 32) (hi * 32) (in_word d r rest)
in_word-IsFirst m d hi none none lt h k = λ i p q. elim (dec_lt i (d * 32 + 32)) [
  | yes here ↦ used_in-below m d 32 i (omega arith) h p here
  | no later ↦ k i (omega arith) q
]
in_word-IsFirst m d hi none (some f) lt h k = (
  omega arith,
  k.1,
  k.2,
  λ i p q. elim (dec_lt i (d * 32 + 32)) [
    | yes here ↦ used_in-below m d 32 i (omega arith) h p here
    | no later ↦ k.3 i (omega arith) q
  ],
)
in_word-IsFirst m d hi (some b) rest lt h k = (
  omega arith,
  omega arith,
  rw (used_in-word m d b h.1) h.2,
  λ i p q. used_in-below m d b i (omega arith) h.3 p q,
)

full_word-IsFirst : (m : ℕ → ℕ) (d : ℕ) → m d ≡ 0xFFFFFFFF → IsFirst (test_bit (m d)) 0 32 none
full_word-IsFirst m d e i p q =
    rw e (omega (arith, test_bit-complement 32 0 i (omega arith) q, test_bit-zero i))

scan-IsFirst :
    (n d : ℕ) (m : ℕ → ℕ) (hi : ℕ)
    → d + n ≡ hi
    → IsFirst (used_in m) (d * 32) (hi * 32) (scan n d m)
unfolding scan
scan-IsFirst zero d m hi e = λ i p q. absurd (omega arith)
scan-IsFirst (suc n) d m hi e =
    let ih = scan-IsFirst n (d + 1) m hi (omega arith) in
    let rest = scan n (d + 1) m in
    elim (Bool-cases (m d == 0xFFFFFFFF)) [
      | inl full ↦ rw full (
          in_word-IsFirst m d hi none rest (omega arith)
            (full_word-IsFirst m d ((==_iff (m d) 0xFFFFFFFF).0 full)) ih)
      | inr open_word ↦ rw open_word (
          in_word-IsFirst m d hi (find_bit 32 0 (m d)) rest (omega arith)
            (find_bit-IsFirst 32 0 (m d) 32 refl) ih)
    ]

-- What an allocation did: there was no free frame, or it took the first one.
abbrev pub Allocated : Pmm → ℕ × Pmm → Type 0
Allocated p (addr, q) =
    ((addr ≡ 0) × (q ≡ p) × ((g : ℕ) → g < capacity p → used p g ≡ 1))
    ⊎ ((f : ℕ) × (addr ≡ f * frame_size)
        × (0 < f)
        × (f < capacity p)
        × (used p f ≡ 0)
        × ((g : ℕ) → g < f → used p g ≡ 1)
        × (q ≡ set_bit p f))

scanned : (p : Pmm) → IsFirst (used p) 0 (capacity p) (scan (p.bitmap_size / 4) 0 p.bitmap)
scanned p = scan-IsFirst (p.bitmap_size / 4) 0 p.bitmap (p.bitmap_size / 4) (omega arith)

pub alloc_frame-Allocated : (p : Pmm) → IsValid p → Allocated p (alloc_frame p)
unfolding alloc_frame
alloc_frame-Allocated p v = go (scan (p.bitmap_size / 4) 0 p.bitmap) (scanned p)
  where
    go :
        (r : Option ℕ)
        → IsFirst (used p) 0 (capacity p) r
        → Allocated p (elim r [ none ↦ (0, p) | some f ↦ (f * frame_size % u32, set_bit p f) ])
    go none h = inl (refl, refl, λ g lt. h g (omega arith) lt)
    go (some f) h = inr (
      f,
      omega (arith, v.fits, h.1),
      ground (arith, v.zero_used),
      h.1,
      h.2,
      (λ g lt. h.3 g (omega arith) lt),
      refl,
    )

-- On a valid bitmap pmm_alloc_frame either reports 0, changes nothing, and every frame of the bitmap
-- is used; or it returns the address of a frame that was free, is not frame 0 and lies in the
-- bitmap, all frames below it being used, and afterwards that frame and no other has become used.
pub alloc_frame_lem :
    (p : Pmm)
    → IsValid p
    → let (addr, q) = alloc_frame p in
      ((addr ≡ 0) × (q ≡ p) × ((g : ℕ) → g < capacity p → used p g ≡ 1))
      ⊎ ((f : ℕ) × (addr ≡ f * frame_size)
          × (0 < f)
          × (f < capacity p)
          × (used p f ≡ 0)
          × ((g : ℕ) → g < f → used p g ≡ 1)
          × ((g : ℕ) → used q g ≡ (if g == f then 1 else used p g)))
alloc_frame_lem p v = elim (alloc_frame-Allocated p v) [
  | inl full ↦ inl full
  | inr (f, e, pos, lt, free, below, q) ↦
      inr (f, e, pos, lt, free, below, λ g. rw q (used-set_bit p f g))
]

-- pmm_free_frame, given any address within frame f, makes frame f free and leaves every other frame
-- as it was.
pub free_frame_lem :
    (p : Pmm) (f offset g : ℕ)
    → offset < frame_size
    → used (free_frame p (f * frame_size + offset)) g ≡ (if g == f then 0 else used p g)
unfolding free_frame
free_frame_lem p f offset g h =
    let e : (f * frame_size + offset) / frame_size ≡ f = omega arith in rw e (used-clear_bit p f g)

pub capacity-set_bit : (p : Pmm) (f : ℕ) → capacity (set_bit p f) ≡ capacity p
unfolding set_bit
capacity-set_bit p f = refl

pub capacity-clear_bit : (p : Pmm) (f : ℕ) → capacity (clear_bit p f) ≡ capacity p
unfolding clear_bit
capacity-clear_bit p f = refl

pub bitmap_size-free_frame : (p : Pmm) (addr : ℕ) → (free_frame p addr).bitmap_size ≡ p.bitmap_size
unfolding free_frame clear_bit
bitmap_size-free_frame p addr = refl

bitmap_size-set_bit : (p : Pmm) (f : ℕ) → (set_bit p f).bitmap_size ≡ p.bitmap_size
unfolding set_bit
bitmap_size-set_bit p f = refl

pub bitmap_size-alloc_frame : (p : Pmm) → IsValid p → (alloc_frame p).1.bitmap_size ≡ p.bitmap_size
bitmap_size-alloc_frame p v = elim (alloc_frame-Allocated p v) [
  | inl full ↦ rw full.1 refl
  | inr taken ↦ rw taken.6 (bitmap_size-set_bit p taken.0)
]

set_bit-IsValid : (p : Pmm) (f : ℕ) → IsValid p → IsValid (set_bit p f)
set_bit-IsValid p f v = record {
  words = set_bit-Words p f v.words;
  zero_used = rw (used-set_bit p f 0) (ground (arith, v.zero_used));
  fits = rw (capacity-set_bit p f) v.fits;
}

-- The invariant holds after every allocation, and after freeing any address outside frame 0.
pub alloc_free-IsValid :
    (p : Pmm) (addr : ℕ)
    → IsValid p
    → frame_size ≤ addr
    → IsValid (alloc_frame p).1 × IsValid (free_frame p addr)
unfolding free_frame
alloc_free-IsValid p addr v h = (allocated, freed)
  where
    allocated : IsValid (alloc_frame p).1
    allocated = elim (alloc_frame-Allocated p v) [
      | inl full ↦ rw full.1 v
      | inr taken ↦ rw taken.6 (set_bit-IsValid p taken.0 v)
    ]

    freed : IsValid (clear_bit p (addr / frame_size))
    freed = record {
      words = clear_bit-Words p (addr / frame_size) v.words;
      zero_used = rw (used-clear_bit p (addr / frame_size) 0) (ground (arith, v.zero_used));
      fits = rw (capacity-clear_bit p (addr / frame_size)) v.fits;
    }

-- Two allocated sets that agree have the same first free frame.
IsFirst-unique :
    (u : ℕ → ℕ) (hi f : ℕ) (r : Option ℕ)
    → IsFirst u 0 hi r
    → f < hi
    → u f ≡ 0
    → ((g : ℕ) → g < f → u g ≡ 1)
    → r ≡ some f
IsFirst-unique u hi f none h lt free below = ground (arith, h f)
IsFirst-unique u hi f (some g) h lt free below = ground (arith, h.3 f, below g, dec_lt f g)

-- A frame below which all are used is the next one that pmm_alloc_frame returns.
alloc_frame-first :
    (p : Pmm) (f : ℕ)
    → IsValid p
    → f < capacity p
    → used p f ≡ 0
    → ((g : ℕ) → g < f → used p g ≡ 1)
    → (alloc_frame p).0 ≡ f * frame_size
unfolding alloc_frame
alloc_frame-first p f v lt free below =
    rw (IsFirst-unique (used p) (capacity p) f _ (scanned p) lt free below, alloc_frame)
      (omega (arith, v.fits))

pub capacity-alloc_frame : (p : Pmm) → IsValid p → capacity (alloc_frame p).1 ≡ capacity p
capacity-alloc_frame p v = elim (alloc_frame-Allocated p v) [
  | inl full ↦ rw full.1
  | inr taken ↦ rw taken.6 (capacity-set_bit p taken.0)
]

-- An allocation frees nothing.
pub stays_used : (p : Pmm) (g : ℕ) → IsValid p → used p g ≡ 1 → used (alloc_frame p).1 g ≡ 1
stays_used p g v h = elim (alloc_frame-Allocated p v) [
  | inl full ↦ rw full.1 h
  | inr taken ↦ rw taken.6 (ground (arith, used-set_bit p taken.0 g))
]

free-alloc :
    (q : Pmm) (f : ℕ)
    → IsValid q
    → 0 < f
    → f < capacity q
    → ((g : ℕ) → g < f → used q g ≡ 1)
    → (alloc_frame (free_frame q (f * frame_size))).0 ≡ f * frame_size
unfolding free_frame
free-alloc q f v pos lt below =
    let e : f * frame_size / frame_size ≡ f = omega arith in
    rw e (
      alloc_frame-first (clear_bit q f) f
        (rw e at (alloc_free-IsValid q (f * frame_size) v (omega arith)).1)
        (rw (capacity-clear_bit q f) lt) (ground (arith, used-clear_bit q f f))
        λ g less. ground (arith, used-clear_bit q f g, below g less))

-- The start-up self-test of kmain: if the first of two allocations in a row succeeds and its frame is
-- then freed, the next allocation returns that frame again.
pub alloc-free-alloc :
    (p : Pmm)
    → IsValid p
    → let (frame1, p1) = alloc_frame p in
      let (frame2, p2) = alloc_frame p1 in
      frame1 ≢ 0 → (alloc_frame (free_frame p2 frame1)).0 ≡ frame1
alloc-free-alloc p v ne = elim (alloc_frame-Allocated p v) [
  | inl full ↦ absurd (ne full.0)
  | inr (f, e, pos, lt, free, below, q) ↦
      let p1 = (alloc_frame p).1 in
      let v1 = (alloc_free-IsValid p frame_size v (omega arith)).0 in
      let v2 = (alloc_free-IsValid p1 frame_size v1 (omega arith)).0 in
      rw e (
        free-alloc (alloc_frame p1).1 f v2 pos
          (rw (capacity-alloc_frame p1 v1, capacity-alloc_frame p v) lt)
          λ g less. stays_used p1 g v1 (stays_used p g v (below g less)))
]
