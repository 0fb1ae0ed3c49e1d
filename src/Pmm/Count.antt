-- ===== src/Pmm/Count.antt =====
-- pmm_get_free_frame_count, and how allocating and freeing change it.
use native.Mathlib.Decide.{ℕ_discrete}
use capstone_myos.Prelude.{
  ◌⊎◌, ℕ, zero, suc, ◌+◌, ◌-◌, ◌*◌, ◌/◌, ◌%◌, ◌<◌, ◌≤◌, ◌≡◌, refl, ◌≢◌, inl, inr, arith, true,
  false, ◌==◌, if◌then◌else◌, test_bit, test_bit-lt, test_bit-zero, test_bit-complement, Bool-cases,
  ==_iff,
}
use capstone_myos.Pmm.{
  Pmm, frame_size, set_bit, clear_bit, count_bits, count_words, alloc_frame, free_frame,
  free_frame_count,
}
use capstone_myos.Pmm.Frames.{used_in, used, capacity, used-set_bit, used-clear_bit}
use capstone_myos.Pmm.Alloc.{
  IsValid, bit_test, used_in-word, alloc_frame-Allocated, capacity-set_bit, capacity-clear_bit,
}

-- How many of the `n` indices from `lo` on have `u` at 0.
abbrev pub free_from : (ℕ → ℕ) → ℕ → ℕ → ℕ
free_from u lo zero = 0
free_from u lo (suc n) = (1 - u lo) + free_from u (lo + 1) n

free_from-add :
    (u : ℕ → ℕ) (a lo b : ℕ) → free_from u lo (a + b) ≡ free_from u lo a + free_from u (lo + a) b
free_from-add u zero lo b =
    let e : 0 + b ≡ b = omega arith in let z : lo + 0 ≡ lo = omega arith in rw (e, z) (omega arith)
free_from-add u (suc a) lo b =
    let e : suc a + b ≡ suc (a + b) = omega arith in
    let z : lo + suc a ≡ lo + 1 + a = omega arith in
    rw (e, z) (omega (arith, free_from-add u a (lo + 1) b))

free_from-cong :
    (u v : ℕ → ℕ) (n lo lo' : ℕ)
    → ((i : ℕ) → i < n → u (lo + i) ≡ v (lo' + i))
    → free_from u lo n ≡ free_from v lo' n
free_from-cong u v zero lo lo' h = refl
free_from-cong u v (suc n) lo lo' h =
    let z : lo + 0 ≡ lo = omega arith in
    let z' : lo' + 0 ≡ lo' = omega arith in
    let head : u lo ≡ v lo' = rw (z, z') at (h 0 (omega arith)) in
    rw head (omega (arith, free_from-cong u v n (lo + 1) (lo' + 1) tail))
  where
    tail : (i : ℕ) → i < n → u (lo + 1 + i) ≡ v (lo' + 1 + i)
    tail i p =
        let e : lo + suc i ≡ lo + 1 + i = omega arith in
        let e' : lo' + suc i ≡ lo' + 1 + i = omega arith in rw (e, e') at (h (suc i) (omega arith))

free_from-same :
    (u v : ℕ → ℕ) (n lo : ℕ) → ((i : ℕ) → lo ≤ i → u i ≡ v i) → free_from u lo n ≡ free_from v lo n
free_from-same u v n lo h = free_from-cong u v n lo lo (λ i p. h (lo + i) (omega arith))

-- Where `u` and `v` differ at `f` only, the counts differ by what stands there.
free_from-change :
    (u v : ℕ → ℕ) (f n lo : ℕ)
    → ((i : ℕ) → i ≢ f → u i ≡ v i)
    → lo ≤ f
    → f < lo + n
    → free_from u lo n + (1 - v f) ≡ free_from v lo n + (1 - u f)
free_from-change u v f zero lo h p q = absurd (omega arith)
free_from-change u v f (suc n) lo h p q = elim (ℕ_discrete lo f) [
  | yes here ↦ rw here (omega (arith, free_from-same u v n (f + 1) (λ i le. h i (omega arith))))
  | no later ↦
      rw (h lo later)
        (omega (arith, free_from-change u v f n (lo + 1) h (omega arith) (omega arith)))
]

count_bits_lem : (n b w : ℕ) → count_bits n b w ≡ free_from (test_bit w) b n
unfolding count_bits
count_bits_lem zero b w = refl
count_bits_lem (suc n) b w =
    rw (bit_test w b) (ground (arith, count_bits_lem n (b + 1) w, test_bit-lt w b))

full_word : (w n b : ℕ) → w ≡ 0xFFFFFFFF → b + n ≤ 32 → free_from (test_bit w) b n ≡ 0
full_word w zero b e h = refl
full_word w (suc n) b e h =
    let bit : test_bit w b ≡ 1 =
      rw e
        (omega (arith, test_bit-complement 32 0 b (omega arith) (omega arith), test_bit-zero b)) in
    omega (arith, bit, full_word w n (b + 1) e (omega arith))

word_frames :
    (m : ℕ → ℕ) (d : ℕ) → free_from (used_in m) (d * 32) 32 ≡ free_from (test_bit (m d)) 0 32
word_frames m d =
    free_from-cong (used_in m) (test_bit (m d)) 32 (d * 32) 0
      λ i p. let e : 0 + i ≡ i = omega arith in rw e (used_in-word m d i p)

count_words_lem :
    (n d : ℕ) (m : ℕ → ℕ) → count_words n d m ≡ free_from (used_in m) (d * 32) (n * 32)
unfolding count_words
count_words_lem zero d m = refl
count_words_lem (suc n) d m =
    let e : suc n * 32 ≡ 32 + n * 32 = omega arith in
    let z : d * 32 + 32 ≡ (d + 1) * 32 = omega arith in
    rw
      (
        e,
        free_from-add (used_in m) 32 (d * 32) (n * 32),
        word_frames m d,
        z,
        count_words_lem n (d + 1) m,
      )
      (word (Bool-cases (m d == 0xFFFFFFFF)))
  where
    word :
        ((m d == 0xFFFFFFFF) ≡ true) ⊎ ((m d == 0xFFFFFFFF) ≡ false)
        → (if m d == 0xFFFFFFFF then 0 else count_bits 32 0 (m d))
            + free_from (used_in m) ((d + 1) * 32) (n * 32)
          ≡ free_from (test_bit (m d)) 0 32 + free_from (used_in m) ((d + 1) * 32) (n * 32)
    word (inl full) =
        rw full
          (omega (arith, full_word (m d) 32 0 ((==_iff (m d) 0xFFFFFFFF).0 full) (omega arith)))
    word (inr other) = rw (other, count_bits_lem 32 0 (m d))

-- pmm_get_free_frame_count is the number of free frames among those the bitmap stands for; skipping
-- full words loses none.
pub free_frame_count_lem : (p : Pmm) → free_frame_count p ≡ free_from (used p) 0 (capacity p)
unfolding free_frame_count
free_frame_count_lem p = count_words_lem (p.bitmap_size / 4) 0 p.bitmap

count-set_bit :
    (p : Pmm) (f : ℕ)
    → f < capacity p
    → used p f ≡ 0
    → free_frame_count (set_bit p f) + 1 ≡ free_frame_count p
count-set_bit p f lt free =
    let here : used (set_bit p f) f ≡ 1 = ground (arith, used-set_bit p f f) in
    let change =
      free_from-change (used (set_bit p f)) (used p) f (capacity p) 0
        (λ i ne. ground (arith, used-set_bit p f i)) (omega arith) (omega arith) in
    rw (free_frame_count_lem p, free_frame_count_lem (set_bit p f), capacity-set_bit p f)
      (omega (arith, here, free, change))

none_free : (u : ℕ → ℕ) (n lo : ℕ) → ((i : ℕ) → i < lo + n → u i ≡ 1) → free_from u lo n ≡ 0
none_free u zero lo h = refl
none_free u (suc n) lo h =
    omega (arith, h lo (omega arith), none_free u n (lo + 1) λ i p. h i (omega arith))

-- On a valid bitmap an allocation that succeeds lowers the count of free frames by one, and one
-- that fails is made at a count of zero.
pub count-alloc_frame :
    (p : Pmm)
    → IsValid p
    → let (addr, q) = alloc_frame p in
      ((addr ≢ 0) × (free_frame_count q + 1 ≡ free_frame_count p))
      ⊎ ((addr ≡ 0) × (free_frame_count p ≡ 0) × (free_frame_count q ≡ 0))
count-alloc_frame p v = elim (alloc_frame-Allocated p v) [
  | inl (e, q, full) ↦
      let none_left : free_frame_count p ≡ 0 =
        rw (free_frame_count_lem p)
          (none_free (used p) (capacity p) 0 λ i lt. full i (omega arith)) in
      inr (e, none_left, rw q none_left)
  | inr (f, e, pos, lt, free, below, q) ↦
      inl (omega (arith, e, pos), rw q (count-set_bit p f lt free))
]

-- Freeing an address in a used frame of the bitmap raises the count by one, and freeing one in a
-- frame that is free already leaves it.
pub count-free_frame :
    (p : Pmm) (addr : ℕ)
    → addr / frame_size < capacity p
    → free_frame_count (free_frame p addr) ≡ free_frame_count p + used p (addr / frame_size)
unfolding free_frame
count-free_frame p addr lt =
    let f = addr / frame_size in
    let here : used (clear_bit p f) f ≡ 0 = ground (arith, used-clear_bit p f f) in
    let change =
      free_from-change (used (clear_bit p f)) (used p) f (capacity p) 0
        (λ i ne. ground (arith, used-clear_bit p f i)) (omega arith) (omega arith) in
    rw (free_frame_count_lem p, free_frame_count_lem (clear_bit p f), capacity-clear_bit p f)
      (omega (arith, here, change, test_bit-lt (p.bitmap (f / 32)) (f % 32)))
