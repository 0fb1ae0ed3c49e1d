-- ===== src/Prelude/Memory.antt =====
-- Memory and arrays as total functions from indices: C checks no bound, so a write past the
-- end of an array is a write to a cell that the array's owner does not expect.
use Prim.Native.Nat.{ℕ, zero, suc, ◌+◌}
use mathlib.Core.Path.{◌≡◌}
use mathlib.Core.Logic.{◌≢◌}
use mathlib.Core.List.{List, [], ◌∷◌}
use capstone_myos.Prelude.Tests.{◌==◌, if◌then◌else◌, ==_refl, ==_of_ne}

abbrev pub update {ℓ} : {A : Type ℓ} → (ℕ → A) → ℕ → A → ℕ → A
update m i v j = if j == i then v else m j

pub update_self {ℓ} : {A : Type ℓ} (m : ℕ → A) (i : ℕ) (v : A) → update m i v i ≡ v
update_self m i v = rw (==_refl i)

pub update_ne {ℓ} : {A : Type ℓ} (m : ℕ → A) (i j : ℕ) (v : A) → j ≢ i → update m i v j ≡ m j
update_ne m i j v h = rw (==_of_ne j i h)

-- The `n` cells of a memory from `p` on.
abbrev pub window {ℓ} : {A : Type ℓ} → (ℕ → A) → ℕ → ℕ → List A
window m p zero = []
window m p (suc n) = m p ∷ window m (p + 1) n
