-- ===== src/Paging/Create.antt =====
-- The making of a table in a fresh frame.
use native.Mathlib.Decide.{ℕ_discrete}
use capstone_myos.Prelude.{
  ℕ, zero, suc, ◌+◌, ◌*◌, ◌/◌, ◌%◌, ◌^◌, ◌<◌, ◌≤◌, ◌≡◌, ◌≢◌, refl, ◌∙◌, arith, true, some, update,
  update_ne, update_self,
}
use capstone_myos.Paging.{Machine, page_of, is_present, translate, store, zero_words, ◌>>=◌}
use capstone_myos.Paging.Translate.{translate-local}
use capstone_myos.Paging.Map.{IsSpace, page_of-aligned, other_page}

-- A frame in which a table can be made: no table of the directory, and mapped to itself, as the code
-- assumes when it clears the frame through its physical address.
pub record IsFresh (mem : ℕ → ℕ) (dir frame : ℕ) : Type 0 where
  pub aligned : frame % 4096 ≡ 0
  pub fits : frame + 4096 ≤ 2 ^ 32
  pub identity : (k : ℕ) → k < 1024 → translate mem dir (frame + 4 * k) ≡ some (frame + 4 * k)
  pub unused :
      (i : ℕ)
      → i < 1024
      → is_present (mem (dir + 4 * i)) ≡ true
      → page_of (mem (dir + 4 * i)) ≢ frame

pub frame-ne-dir :
    (mem : ℕ → ℕ) (dir frame : ℕ) → IsSpace mem dir → IsFresh mem dir frame → dir ≢ frame
frame-ne-dir mem dir frame space fresh e =
    fresh.unused 1023 (omega arith) space.recursive.present (space.recursive.page ∙ e)

-- The memory outside of the frame is as it was.
abbrev pub Outside : ℕ → (ℕ → ℕ) → (ℕ → ℕ) → Type 0
Outside frame mem mem' =
    (t k : ℕ) → t % 4096 ≡ 0 → t ≢ frame → k < 1024 → mem' (t + 4 * k) ≡ mem (t + 4 * k)

-- Such a change moves no address.
pub translate-Outside :
    (mem mem' : ℕ → ℕ) (dir frame va : ℕ)
    → IsSpace mem dir
    → IsFresh mem dir frame
    → Outside frame mem mem'
    → va < 2 ^ 32
    → translate mem' dir va ≡ translate mem dir va
translate-Outside mem mem' dir frame va space fresh out lt =
    translate-local mem mem' dir va
      (out dir (va / 2 ^ 22) space.recursive.aligned (frame-ne-dir mem dir frame space fresh)
        (omega arith))
      (λ p.
        out (page_of (mem (dir + 4 * (va / 2 ^ 22)))) (va / 2 ^ 12 % 1024)
          (page_of-aligned (mem (dir + 4 * (va / 2 ^ 22))) (space.words (dir + 4 * (va / 2 ^ 22))))
          (fresh.unused (va / 2 ^ 22) (omega arith) p) (omega arith))

pub store-some :
    (m : Machine) (va a w : ℕ)
    → translate m.mem m.cr3 va ≡ some a
    → store va w m ≡ some (tt, record m { mem = update m.mem a w })
unfolding store
store-some m va a w e = ground arith

zero-step :
    (n va a : ℕ) (m : Machine)
    → translate m.mem m.cr3 va ≡ some a
    → zero_words (suc n) va m ≡ zero_words n (va + 4) (record m { mem = update m.mem a 0 })
unfolding zero_words
zero-step n va a m e = rw (store-some m va a 0 e, ◌>>=◌) (refl)

-- What memset has done to the frame, `k` words being cleared.
pub record Cleared (mem mem' : ℕ → ℕ) (frame k : ℕ) : Type 0 where
  pub outside : Outside frame mem mem'
  pub zeros : (j : ℕ) → j < k → mem' (frame + 4 * j) ≡ 0
  pub words : (a : ℕ) → mem' a < 2 ^ 32

Cleared-step :
    (mem mem' : ℕ → ℕ) (frame k : ℕ)
    → frame % 4096 ≡ 0
    → k < 1024
    → Cleared mem mem' frame k
    → Cleared mem (update mem' (frame + 4 * k) 0) frame (suc k)
Cleared-step mem mem' frame k aligned lt c = record {
  outside = λ t j ht ne hj.
      update_ne mem' (frame + 4 * k) (t + 4 * j) 0 (other_page t frame j k ht aligned ne hj lt)
      ∙ c.outside t j ht ne hj;
  zeros = λ j less. elim (ℕ_discrete j k) [
    | yes e ↦ rw e (update_self mem' (frame + 4 * k) 0)
    | no ne ↦
        update_ne mem' (frame + 4 * k) (frame + 4 * j) 0 (λ e. ne (omega arith))
        ∙ c.zeros j (omega arith)
  ];
  words = λ a. ground (arith, c.words a);
}

pub zero-Cleared :
    (n k : ℕ) (m : Machine) (mem0 : ℕ → ℕ) (frame : ℕ)
    → IsSpace mem0 m.cr3
    → IsFresh mem0 m.cr3 frame
    → Cleared mem0 m.mem frame k
    → k + n ≡ 1024
    → (mem' : ℕ → ℕ) × (zero_words n (frame + 4 * k) m ≡ some (tt, record m { mem = mem' }))
      × Cleared mem0 mem' frame 1024
unfolding zero_words
zero-Cleared zero k m mem0 frame space fresh c e =
    let full : k ≡ 1024 = omega arith in (m.mem, refl, rw full at c)
zero-Cleared (suc n) k m mem0 frame space fresh c e =
    let m1 : Machine = record m { mem = update m.mem (frame + 4 * k) 0 } in
    let fits = fresh.fits in
    let there : translate m.mem m.cr3 (frame + 4 * k) ≡ some (frame + 4 * k) =
      translate-Outside mem0 m.mem m.cr3 frame (frame + 4 * k) space fresh c.outside (omega arith)
      ∙ fresh.identity k (omega arith) in
    let (mem', run, c') =
      zero-Cleared n (suc k) m1 mem0 frame space fresh
        (Cleared-step mem0 m.mem frame k fresh.aligned (omega arith) c) (omega arith) in
    let next : frame + 4 * suc k ≡ frame + 4 * k + 4 = omega arith in
    (mem', zero-step n (frame + 4 * k) (frame + 4 * k) m there ∙ (rw next at run), c')
