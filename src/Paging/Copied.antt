-- ===== src/Paging/Copied.antt =====
-- kernel/mm/paging.c, paging_clone_directory: the entries copied to the new directory.
use native.Mathlib.Decide.{ℕ_discrete}
use capstone_myos.Prelude.{
  ℕ, zero, suc, ◌+◌, ◌*◌, ◌≤◌, ◌<◌, ◌≡◌, refl, ◌∙◌, arith, true, false, ◌&&◌, ◌||◌, some, ◌==◌, leb,
  ltb, if◌then◌else◌, update, update_self, update_ne, bit_or, Bool-cases, inl, inr, ==_of_ne,
  bit_or-one_two,
}
use capstone_myos.Paging.{
  Machine, M, pure, ◌>>=◌, ◌>>◌, load, store, zero_words, is_present, pde_addr, temp_pagedir,
  flag_present, flag_rw,
}
use capstone_myos.Paging.Directory.{copy_entries}
use capstone_myos.Paging.Map.{IsSpace}
use capstone_myos.Paging.Fill.{
  bind-some, IsOpen, IsFilled, with_mem, update-IsFilled, store-IsFilled, load-IsFilled,
  zero-IsFilled,
}

-- What the new directory holds in entry `j`.
unfoldable pub cloned : (ℕ → ℕ) → ℕ → ℕ → ℕ → ℕ
cloned mem dir frame j =
    if j == 1023
    then frame + 3
    else if (j == 0) || ((leb 768 j && ltb j 1023) && is_present (mem (dir + 4 * j)))
    then mem (dir + 4 * j)
    else 0

-- What paging_clone_directory does with the opened frame, before `rest`.
unfoldable pub fill_then : ℕ → M ℕ → M ℕ
fill_then frame rest = do
  zero_words 1024 temp_pagedir
  first ← load (pde_addr 0)
  store (temp_pagedir + 4 * 0) first
  copy_entries 255 768
  store (temp_pagedir + 4 * 1023) (bit_or (bit_or frame flag_present) flag_rw)
  rest

module _ (mem : ℕ → ℕ) (dir frame : ℕ) (space : IsSpace mem dir) (o : IsOpen mem dir frame)
    (m : Machine) (at_dir : m.cr3 ≡ dir) where
  -- What the loop does with an entry.
  copied : ℕ → ℕ → M (Unit {0})
  copied i e = elim (is_present e) [ true ↦ store (temp_pagedir + 4 * i) e | false ↦ pure tt ]

  copy-step :
      (n i : ℕ) (mem' g : ℕ → ℕ) (m2 : Machine)
      → IsFilled mem mem' frame g
      → i < 1024
      → copied i (mem (dir + 4 * i)) (with_mem m mem') ≡ some (tt, m2)
      → copy_entries (suc n) i (with_mem m mem') ≡ copy_entries n (i + 1) m2
  unfolding copy_entries copied
  copy-step n i mem' g m2 f hi e =
      bind-some (load (pde_addr i)) (λ x. copied i x >> copy_entries n (i + 1)) (with_mem m mem')
        (with_mem m mem') (mem (dir + 4 * i))
        (load-IsFilled mem dir frame space o m at_dir mem' g i f hi)
      ∙ bind-some (copied i (mem (dir + 4 * i))) (λ _. copy_entries n (i + 1)) (with_mem m mem') m2
          tt e

  copied-present :
      (mem' g : ℕ → ℕ) (i : ℕ)
      → IsFilled mem mem' frame g
      → i < 1024
      → is_present (mem (dir + 4 * i)) ≡ true
      → copied i (mem (dir + 4 * i)) (with_mem m mem')
        ≡ some (tt, with_mem m (update mem' (frame + 4 * i) (mem (dir + 4 * i))))
  unfolding copied
  copied-present mem' g i f hi there =
      rw (copied, there)
        (store-IsFilled mem dir frame space o m at_dir mem' g i (mem (dir + 4 * i)) f hi)

  copied-absent :
      (mem' : ℕ → ℕ) (i : ℕ)
      → is_present (mem (dir + 4 * i)) ≡ false
      → copied i (mem (dir + 4 * i)) (with_mem m mem') ≡ some (tt, with_mem m mem')
  unfolding copied
  copied-absent mem' i absent = rw (copied, absent) refl

  copied_value :
      (n i j : ℕ) (g : ℕ → ℕ)
      → is_present (mem (dir + 4 * i)) ≡ true
      → (if (leb (i + 1) j && ltb j (i + 1 + n)) && is_present (mem (dir + 4 * j))
          then mem (dir + 4 * j)
          else update g i (mem (dir + 4 * i)) j)
        ≡ (if (leb i j && ltb j (i + suc n)) && is_present (mem (dir + 4 * j))
            then mem (dir + 4 * j)
            else g j)
  copied_value n i j g there = elim (ℕ_discrete j i) [
    | yes same ↦ rw same (ground (arith, there))
    | no ne ↦ let other = ==_of_ne j i ne in rw other (ground (arith, ne))
  ]

  skipped_value :
      (n i j : ℕ) (g : ℕ → ℕ)
      → is_present (mem (dir + 4 * i)) ≡ false
      → (if (leb (i + 1) j && ltb j (i + 1 + n)) && is_present (mem (dir + 4 * j))
          then mem (dir + 4 * j)
          else g j)
        ≡ (if (leb i j && ltb j (i + suc n)) && is_present (mem (dir + 4 * j))
            then mem (dir + 4 * j)
            else g j)
  skipped_value n i j g absent = elim (ℕ_discrete j i) [
    | yes same ↦ rw same (ground (arith, absent))
    | no ne ↦ ground (arith, ne)
  ]

  -- The copying of the present entries, from entry `i` on.
  copy-IsFilled :
      (n i : ℕ) (mem' g : ℕ → ℕ)
      → i + n ≤ 1024
      → IsFilled mem mem' frame g
      → (mem2 g2 : ℕ → ℕ) × (copy_entries n i (with_mem m mem') ≡ some (tt, with_mem m mem2))
        × IsFilled mem mem2 frame g2
        × ((j : ℕ)
            → g2 j ≡ (
                if (leb i j && ltb j (i + n)) && is_present (mem (dir + 4 * j))
                then mem (dir + 4 * j)
                else g j))
  unfolding copy_entries
  copy-IsFilled zero i mem' g e f = (mem', g, refl, f, λ j. ground arith)
  copy-IsFilled (suc n) i mem' g e f =
      let entry = mem (dir + 4 * i) in
      elim (Bool-cases (is_present entry)) [
        | inl there ↦
            let mem1 : ℕ → ℕ = update mem' (frame + 4 * i) entry in
            let f1 =
              update-IsFilled mem dir frame space o mem' g i entry f (omega arith)
                (space.words (dir + 4 * i)) in
            let (mem2, g2, run, f2, values) =
              copy-IsFilled n (i + 1) mem1 (update g i entry) (omega arith) f1 in
            (
              mem2,
              g2,
              copy-step n i mem' g (with_mem m mem1) f (omega arith)
                    (copied-present mem' g i f (omega arith) there)
                  ∙ run,
              f2,
              λ j. values j ∙ copied_value n i j g there,
            )
        | inr absent ↦
            let (mem2, g2, run, f2, values) = copy-IsFilled n (i + 1) mem' g (omega arith) f in
            (
              mem2,
              g2,
              copy-step n i mem' g (with_mem m mem') f (omega arith) (copied-absent mem' i absent)
                  ∙ run,
              f2,
              λ j. values j ∙ skipped_value n i j g absent,
            )
      ]

  cloned_value :
      (g1 g3 : ℕ → ℕ) (w j : ℕ)
      → w ≡ frame + 3
      → g1 j ≡ 0
      → g3 j ≡ (
          if (leb 768 j && ltb j (768 + 255)) && is_present (mem (dir + 4 * j))
          then mem (dir + 4 * j)
          else update g1 0 (mem (dir + 4 * 0)) j)
      → update g3 1023 w j ≡ cloned mem dir frame j
  unfolding cloned
  cloned_value g1 g3 w j self zeroed copied_j = elim (ℕ_discrete j 1023) [
    | yes last ↦ rw last (update_self g3 1023 w ∙ self)
    | no ne ↦
        update_ne g3 1023 j w ne
        ∙ copied_j
        ∙ (let other = ==_of_ne j 1023 ne in
            rw other (elim (ℕ_discrete j 0) [
              | yes at0 ↦ rw at0 refl
              | no pos ↦ let other0 = ==_of_ne j 0 pos in rw (other0, zeroed) refl
            ]))
  ]

  pub fill_then-IsFilled :
      (rest : M ℕ)
      → (mem2 : ℕ → ℕ) × (fill_then frame rest (with_mem m mem) ≡ rest (with_mem m mem2))
        × IsFilled mem mem2 frame (cloned mem dir frame)
  unfolding fill_then
  fill_then-IsFilled rest =
      let start : IsFilled mem mem frame (λ j. mem (frame + 4 * j)) = record {
        outside = λ t k ht ne hk. refl;
        entries = λ j hj. refl;
        words = space.words;
      } in
      let (mem1, g1, run1, f1, v1) =
        zero-IsFilled mem dir frame space o m at_dir 1024 0 mem _ (omega arith) start in
      let e0 = mem (dir + 4 * 0) in
      let mem2 : ℕ → ℕ = update mem1 (frame + 4 * 0) e0 in
      let f2 =
        update-IsFilled mem dir frame space o mem1 g1 0 e0 f1 (omega arith)
          (space.words (dir + 4 * 0)) in
      let (mem3, g3, run3, f3, v3) = copy-IsFilled 255 768 mem2 (update g1 0 e0) (omega arith) f2 in
      let self = bit_or-one_two frame (let al = o.aligned in omega (arith, al)) in
      let w : ℕ = bit_or (bit_or frame flag_present) flag_rw in
      let fits = o.fits in
      let f4 =
        update-IsFilled mem dir frame space o mem3 g3 1023 w f3 (omega arith)
          (omega (arith, self)) in
      let zeroed : zero_words 1024 temp_pagedir (with_mem m mem) ≡ some (tt, with_mem m mem1) =
        run1 in
      let last : M ℕ = store (temp_pagedir + 4 * 1023) w >> rest in
      let after_first : M ℕ = copy_entries 255 768 >> last in
      (
        update mem3 (frame + 4 * 1023) w,
        bind-some (zero_words 1024 temp_pagedir)
              (λ _.
                load (pde_addr 0) >>= (λ first. store (temp_pagedir + 4 * 0) first >> after_first))
              (with_mem m mem) (with_mem m mem1) tt zeroed
            ∙ bind-some (load (pde_addr 0))
                (λ first. store (temp_pagedir + 4 * 0) first >> after_first) (with_mem m mem1)
                (with_mem m mem1) e0
                (load-IsFilled mem dir frame space o m at_dir mem1 g1 0 f1 (omega arith))
            ∙ bind-some (store (temp_pagedir + 4 * 0) e0) (λ _. after_first) (with_mem m mem1)
                (with_mem m mem2) tt
                (store-IsFilled mem dir frame space o m at_dir mem1 g1 0 e0 f1 (omega arith))
            ∙ bind-some (copy_entries 255 768) (λ _. last) (with_mem m mem2) (with_mem m mem3) tt
                run3
            ∙ bind-some (store (temp_pagedir + 4 * 1023) w) (λ _. rest) (with_mem m mem3)
                (with_mem m (update mem3 (frame + 4 * 1023) w)) tt
                (store-IsFilled mem dir frame space o m at_dir mem3 g3 1023 w f3 (omega arith)),
        record {
          outside = f4.outside;
          words = f4.words;
          entries = λ j hj.
              f4.entries j hj ∙ cloned_value g1 g3 w j self (v1 j ∙ ground (arith, hj)) (v3 j);
        },
      )
