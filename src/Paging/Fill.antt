-- ===== src/Paging/Fill.antt =====
-- kernel/mm/paging.c, paging_clone_directory: the filling of the new directory.
use native.Mathlib.Decide.{ℕ_discrete}
use capstone_myos.Prelude.{
  ℕ, zero, suc, ◌+◌, ◌*◌, ◌/◌, ◌%◌, ◌^◌, ◌≤◌, ◌<◌, ◌≡◌, ◌≢◌, refl, ap, sym, ◌∙◌, arith, true, ◌&&◌,
  some, leb, ltb, if◌then◌else◌, update, update_self, update_ne, ==_of_ne,
}
use capstone_myos.Paging.{
  Machine, M, ◌>>=◌, load, store, zero_words, page_of, is_present, translate, pde_addr,
  temp_pagedir,
}
use capstone_myos.Paging.Translate.{translate-local}
use capstone_myos.Paging.Window.{translate-pde_addr}
use capstone_myos.Paging.Map.{IsSpace, other_page, page_of-aligned}
use capstone_myos.Paging.Create.{Outside, store-some}
use capstone_myos.Paging.Calls.{load-some}

pub bind-some :
    {A B : Type 0} (first : M A) (next : A → M B) (m m' : Machine) (a : A)
    → first m ≡ some (a, m')
    → (first >>= next) m ≡ next a m'
bind-some first next m m' a e = rw (e, ◌>>=◌) refl

-- A frame that no entry of the directory uses, opened at the temporary address.
pub record IsOpen (mem : ℕ → ℕ) (dir frame : ℕ) : Type 0 where
  pub aligned : frame % 4096 ≡ 0
  pub fits : frame + 4096 ≤ 2 ^ 32
  pub unused :
      (i : ℕ)
      → i < 1024
      → is_present (mem (dir + 4 * i)) ≡ true
      → page_of (mem (dir + 4 * i)) ≢ frame
  pub opened : (k : ℕ) → k < 1024 → translate mem dir (temp_pagedir + 4 * k) ≡ some (frame + 4 * k)

-- The memory while the frame is filled: its entries are `g`, and all else is as in `mem`.
pub record IsFilled (mem mem' : ℕ → ℕ) (frame : ℕ) (g : ℕ → ℕ) : Type 0 where
  pub outside : Outside frame mem mem'
  pub entries : (j : ℕ) → j < 1024 → mem' (frame + 4 * j) ≡ g j
  pub words : (a : ℕ) → mem' a < 2 ^ 32

-- The machine with another memory.
abbrev pub with_mem : Machine → (ℕ → ℕ) → Machine
with_mem m mem' = record m { mem = mem' }

module _ (mem : ℕ → ℕ) (dir frame : ℕ) (space : IsSpace mem dir) (o : IsOpen mem dir frame) where
  dir-ne-frame : dir ≢ frame
  dir-ne-frame e = o.unused 1023 (omega arith) space.recursive.present (space.recursive.page ∙ e)

  -- Filling the frame moves no address.
  translate-filled :
      (mem' : ℕ → ℕ) (g : ℕ → ℕ) (va : ℕ)
      → IsFilled mem mem' frame g
      → va < 2 ^ 32
      → translate mem' dir va ≡ translate mem dir va
  translate-filled mem' g va f lt =
      translate-local mem mem' dir va
        (f.outside dir (va / 2 ^ 22) space.recursive.aligned dir-ne-frame (omega arith))
        (λ p.
          f.outside (page_of (mem (dir + 4 * (va / 2 ^ 22)))) (va / 2 ^ 12 % 1024)
            (page_of-aligned (mem (dir + 4 * (va / 2 ^ 22)))
              (space.words (dir + 4 * (va / 2 ^ 22))))
            (o.unused (va / 2 ^ 22) (omega arith) p) (omega arith))

  pub update-IsFilled :
      (mem' g : ℕ → ℕ) (i w : ℕ)
      → IsFilled mem mem' frame g
      → i < 1024
      → w < 2 ^ 32
      → IsFilled mem (update mem' (frame + 4 * i) w) frame (update g i w)
  update-IsFilled mem' g i w f hi lt = record {
    words = λ a. ground (arith, f.words a);
    outside = λ t j ht ne hj.
        update_ne mem' (frame + 4 * i) (t + 4 * j) w (other_page t frame j i ht o.aligned ne hj hi)
        ∙ f.outside t j ht ne hj;
    entries = λ j hj. elim (ℕ_discrete j i) [
      | yes e ↦ rw e (update_self mem' (frame + 4 * i) w ∙ sym (update_self g i w))
      | no ne ↦
          update_ne mem' (frame + 4 * i) (frame + 4 * j) w (λ e. ne (omega arith))
          ∙ f.entries j hj
          ∙ sym (update_ne g i j w ne)
    ];
  }

  module _ (m : Machine) (at_dir : m.cr3 ≡ dir) where
    pub store-IsFilled :
        (mem' g : ℕ → ℕ) (i w : ℕ)
        → IsFilled mem mem' frame g
        → i < 1024
        → store (temp_pagedir + 4 * i) w (with_mem m mem')
          ≡ some (tt, with_mem m (update mem' (frame + 4 * i) w))
    store-IsFilled mem' g i w f hi =
        store-some (with_mem m mem') (temp_pagedir + 4 * i) (frame + 4 * i) w (
          ap (λ (d : ℕ). translate mem' d (temp_pagedir + 4 * i)) at_dir
          ∙ translate-filled mem' g (temp_pagedir + 4 * i) f (omega arith)
          ∙ o.opened i hi)

    pub load-IsFilled :
        (mem' g : ℕ → ℕ) (i : ℕ)
        → IsFilled mem mem' frame g
        → i < 1024
        → load (pde_addr i) (with_mem m mem') ≡ some (mem (dir + 4 * i), with_mem m mem')
    load-IsFilled mem' g i f hi =
        load-some (with_mem m mem') (pde_addr i) (dir + 4 * i) (
          ap (λ (d : ℕ). translate mem' d (pde_addr i)) at_dir
          ∙ translate-filled mem' g (pde_addr i) f (omega arith)
          ∙ translate-pde_addr mem dir i space.recursive hi)
        ∙ ap (λ (x : ℕ). some (x, with_mem m mem'))
            (f.outside dir i space.recursive.aligned dir-ne-frame hi)

    -- memset on the frame, from entry `k` on.
    pub zero-IsFilled :
        (n k : ℕ) (mem' g : ℕ → ℕ)
        → k + n ≡ 1024
        → IsFilled mem mem' frame g
        → (mem2 g2 : ℕ → ℕ) × (zero_words n (temp_pagedir + 4 * k) (with_mem m mem')
            ≡ some (tt, with_mem m mem2))
          × IsFilled mem mem2 frame g2
          × ((j : ℕ) → g2 j ≡ (if leb k j && ltb j 1024 then 0 else g j))
    unfolding zero_words
    zero-IsFilled zero k mem' g e f = (mem', g, refl, f, λ j. ground (arith, e))
    zero-IsFilled (suc n) k mem' g e f =
        let mem1 : ℕ → ℕ = update mem' (frame + 4 * k) 0 in
        let f1 = update-IsFilled mem' g k 0 f (omega arith) (omega arith) in
        let (mem2, g2, run, f2, values) =
          zero-IsFilled n (suc k) mem1 (update g k 0) (omega arith) f1 in
        let next : temp_pagedir + 4 * suc k ≡ temp_pagedir + 4 * k + 4 = omega arith in
        (
          mem2,
          g2,
          bind-some (store (temp_pagedir + 4 * k) 0) (λ _. zero_words n (temp_pagedir + 4 * k + 4))
                (with_mem m mem') (with_mem m mem1) tt (store-IsFilled mem' g k 0 f (omega arith))
              ∙ (rw next at run),
          f2,
          λ j. values j ∙ elim (ℕ_discrete j k) [
            | yes same ↦ rw same (ground (arith, e))
            | no ne ↦ let other = ==_of_ne j k ne in rw other (ground (arith, ne))
          ],
        )
