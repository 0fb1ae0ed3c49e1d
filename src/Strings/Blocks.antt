-- ===== src/Strings/Blocks.antt =====
-- memset, memcpy and memcmp: every cell after the call.
use capstone_myos.Prelude.{
  ℕ, zero, suc, ◌+◌, ◌-◌, ◌%◌, ◌≤◌, ◌≡◌, refl, ◌↔◌, ◌⊎◌, arith, leb, ltb, ◌&&◌, if◌then◌else◌,
  update, window, pos, sub_ℕ-eq-zero,
}
use capstone_myos.Strings.{Mem, memset, memcpy, memcmp}

-- memset puts the low byte of `c` into the `n` cells from `p` on, and leaves every other cell.
pub memset_lem :
    (n : ℕ) (m : Mem) (p c i : ℕ)
    → memset m p c n i ≡ (if leb p i && ltb i (p + n) then c % 256 else m i)
unfolding memset
memset_lem zero m p c i = ground arith
memset_lem (suc n) m p c i = ground (arith, memset_lem n (update m p (c % 256)) (p + 1) c i)

-- memcpy copies the `n` source cells, as they were, to the destination and leaves every other cell,
-- if the destination does not begin inside the source (it may overlap from below).
pub memcpy_lem :
    (n : ℕ) (m : Mem) (d s i : ℕ)
    → (d ≤ s) ⊎ (s + n ≤ d)
    → memcpy m d s n i ≡ (if leb d i && ltb i (d + n) then m (s + (i - d)) else m i)
unfolding memcpy
memcpy_lem zero m d s i h = ground arith
memcpy_lem (suc n) m d s i h =
    ground (arith, memcpy_lem n (update m d (m s)) (d + 1) (s + 1) i (ground arith))

-- memcmp is 0 exactly when the two windows of `n` cells hold the same bytes.
pub memcmp_lem :
    (n : ℕ) (m : Mem) (p q : ℕ) → (memcmp m p q n ≡ pos 0) ↔ (window m p n ≡ window m q n)
unfolding memcmp
memcmp_lem zero m p q = ((λ _. refl), (λ _. refl))
memcmp_lem (suc n) m p q =
    let ih = memcmp_lem n m (p + 1) (q + 1) in
    let z = sub_ℕ-eq-zero (m p) (m q) in ((λ e. ground (arith, ih, z)), λ e. ground (arith, ih, z))
