-- ===== src/Paging/Attach.antt =====
-- A cleared table becomes part of the directory.
use native.Mathlib.Decide.{ℕ_discrete}
use capstone_myos.Prelude.{
  ℕ, ◌+◌, ◌*◌, ◌/◌, ◌%◌, ◌^◌, ◌<◌, ◌≡◌, ◌≢◌, refl, ap, ◌∙◌, sym, arith, true, false, none, update,
  update_ne, update_self,
}
use capstone_myos.Paging.{page_of, is_present, translate}
use capstone_myos.Paging.Translate.{
  is_present-eq, translate-local, translate-leaf, translate-absent, leaf,
}
use capstone_myos.Paging.Map.{
  IsSpace, page_of-aligned, other_page, slot, table-ne-dir, update-words,
}
use capstone_myos.Paging.Create.{IsFresh, Cleared, frame-ne-dir}

-- A cleared table at `frame`, put into the absent entry `i` by the value `d`.
pub record Attached (mem mem' : ℕ → ℕ) (dir frame i d : ℕ) : Type 0 where
  pub space : IsSpace mem dir
  pub fresh : IsFresh mem dir frame
  pub cleared : Cleared mem mem' frame 1024
  pub below : i < 1023
  pub was_absent : is_present (mem (dir + 4 * i)) ≡ false
  pub word : d < 2 ^ 32
  pub page : page_of d ≡ frame
  pub present : is_present d ≡ true

unfoldable pub attached : (ℕ → ℕ) → ℕ → ℕ → ℕ → ℕ → ℕ
attached mem' dir i d = update mem' (dir + 4 * i) d

module _ (mem mem' : ℕ → ℕ) (dir frame i d : ℕ) (at : Attached mem mem' dir frame i d) where
  pub entry_new : attached mem' dir i d (dir + 4 * i) ≡ d
  unfolding attached
  entry_new = update_self mem' (dir + 4 * i) d

  entry_old : (j : ℕ) → j < 1024 → j ≢ i → attached mem' dir i d (dir + 4 * j) ≡ mem (dir + 4 * j)
  unfolding attached
  entry_old j hj ne =
      update_ne mem' (dir + 4 * i) (dir + 4 * j) d (λ e. ne (omega arith))
      ∙ at.cleared.outside dir j at.space.recursive.aligned
          (frame-ne-dir mem dir frame at.space at.fresh) hj

  entry_table :
      (t k : ℕ)
      → t % 4096 ≡ 0
      → t ≢ dir
      → t ≢ frame
      → k < 1024
      → attached mem' dir i d (t + 4 * k) ≡ mem (t + 4 * k)
  unfolding attached
  entry_table t k ht nd nf hk =
      let small = at.below in
      update_ne mem' (dir + 4 * i) (t + 4 * k) d
        (other_page t dir k i ht at.space.recursive.aligned nd hk (omega arith))
      ∙ at.cleared.outside t k ht nf hk

  entry_zero : (k : ℕ) → k < 1024 → attached mem' dir i d (frame + 4 * k) ≡ 0
  unfolding attached
  entry_zero k hk =
      let small = at.below in
      update_ne mem' (dir + 4 * i) (frame + 4 * k) d (
        other_page frame dir k i at.fresh.aligned at.space.recursive.aligned
          (λ e. frame-ne-dir mem dir frame at.space at.fresh (sym e)) hk (omega arith))
      ∙ at.cleared.zeros k hk

  entry_page :
      (j : ℕ)
      → j < 1024
      → j ≢ i
      → is_present (attached mem' dir i d (dir + 4 * j)) ≡ true
      → page_of (attached mem' dir i d (dir + 4 * j)) ≢ frame
  entry_page j hj ne p e =
      at.fresh.unused j hj (ap is_present (sym (entry_old j hj ne)) ∙ p)
        (ap page_of (sym (entry_old j hj ne)) ∙ e)

  attached-separate :
      (j k : ℕ)
      → j < 1024
      → k < 1024
      → j ≢ k
      → is_present (attached mem' dir i d (dir + 4 * j)) ≡ true
      → is_present (attached mem' dir i d (dir + 4 * k)) ≡ true
      → page_of (attached mem' dir i d (dir + 4 * j))
        ≢ page_of (attached mem' dir i d (dir + 4 * k))
  attached-separate j k hj hk ne p q e = elim (ℕ_discrete j i) [
    | yes first ↦
        let other : k ≢ i = λ second. ne (first ∙ sym second) in
        let here : page_of (attached mem' dir i d (dir + 4 * j)) ≡ frame =
          ap (λ (x : ℕ). page_of (attached mem' dir i d (dir + 4 * x))) first
          ∙ ap page_of entry_new
          ∙ at.page in
        entry_page k hk other q (sym e ∙ here)
    | no first ↦ elim (ℕ_discrete k i) [
      | yes second ↦
          let here : page_of (attached mem' dir i d (dir + 4 * k)) ≡ frame =
            ap (λ (x : ℕ). page_of (attached mem' dir i d (dir + 4 * x))) second
            ∙ ap page_of entry_new
            ∙ at.page in
          entry_page j hj first p (e ∙ here)
      | no second ↦
          at.space.separate j k hj hk ne (ap is_present (sym (entry_old j hj first)) ∙ p)
            (ap is_present (sym (entry_old k hk second)) ∙ q)
            (ap page_of (sym (entry_old j hj first)) ∙ e ∙ ap page_of (entry_old k hk second))
    ]
  ]

  pub attached-IsSpace : IsSpace (attached mem' dir i d) dir
  unfolding attached
  attached-IsSpace =
      let small = at.below in
      let last : attached mem' dir i d (dir + 4 * 1023) ≡ mem (dir + 4 * 1023) =
        entry_old 1023 (omega arith) (λ e. omega arith) in
      record {
        recursive = record {
          aligned = at.space.recursive.aligned;
          page = ap page_of last ∙ at.space.recursive.page;
          present = ap is_present last ∙ at.space.recursive.present;
        };
        words = update-words mem' (dir + 4 * i) d at.cleared.words at.word;
        separate = attached-separate;
      }

  -- No address means anything else than before.
  pub translate-attached :
      (va : ℕ)
      → va / 2 ^ 22 < 1023
      → translate (attached mem' dir i d) dir va ≡ translate mem dir va
  translate-attached va small = elim (ℕ_discrete (va / 2 ^ 22) i) [
    | yes same ↦
        let pde : attached mem' dir i d (dir + 4 * (va / 2 ^ 22)) ≡ d =
          ap (λ (x : ℕ). attached mem' dir i d (dir + 4 * x)) same ∙ entry_new in
        let pte : attached mem' dir i d (slot (attached mem' dir i d) dir va) ≡ 0 =
          ap (λ (x : ℕ). attached mem' dir i d (page_of x + 4 * (va / 2 ^ 12 % 1024))) pde
          ∙ ap (λ (x : ℕ). attached mem' dir i d (x + 4 * (va / 2 ^ 12 % 1024))) at.page
          ∙ entry_zero (va / 2 ^ 12 % 1024) (omega arith) in
        translate-leaf (attached mem' dir i d) dir va (ap is_present pde ∙ at.present)
        ∙ ap (λ (x : ℕ). leaf x va) pte
        ∙ leaf_zero va
        ∙ sym (
            translate-absent mem dir va
              (ap (λ (x : ℕ). is_present (mem (dir + 4 * x))) same ∙ at.was_absent))
    | no ne ↦
        translate-local mem (attached mem' dir i d) dir va
          (entry_old (va / 2 ^ 22) (omega arith) ne)
          (λ p.
            entry_table (page_of (mem (dir + 4 * (va / 2 ^ 22)))) (va / 2 ^ 12 % 1024)
              (page_of-aligned (mem (dir + 4 * (va / 2 ^ 22)))
                (at.space.words (dir + 4 * (va / 2 ^ 22))))
              (table-ne-dir mem dir (va / 2 ^ 22) at.space small p)
              (at.fresh.unused (va / 2 ^ 22) (omega arith) p) (omega arith))
  ]
    where
      leaf_zero : (va : ℕ) → leaf 0 va ≡ none
      leaf_zero va = rw (is_present-eq 0) refl
