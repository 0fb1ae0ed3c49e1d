-- ===== src/Paging/Clone.antt =====
-- kernel/mm/paging.c, paging_clone_directory: what the new directory holds.
use native.Mathlib.Decide.{ℕ_discrete}
use capstone_myos.Prelude.{
  ℕ, ◌+◌, ◌*◌, ◌/◌, ◌%◌, ◌^◌, ◌≤◌, ◌<◌, ◌≡◌, ◌≢◌, refl, ap, sym, ◌∙◌, arith, true, some, ==_iff,
  ==_of_ne, update, update_ne, bit_or, inl, inr, ◌⊎◌,
}
use capstone_myos.Pmm.Frames.{used}
use capstone_myos.Pmm.Alloc.{IsValid, alloc_frame_lem}
use capstone_myos.Paging.{
  Machine, M, pure, ◌>>=◌, ◌>>◌, new_frame, map_page, page_of, is_present, temp_pagedir,
}
use capstone_myos.Paging.Directory.{clone_directory}
use capstone_myos.Paging.Translate.{leaf}
use capstone_myos.Paging.Space.{zero_one, leaf-entry, entry-lt}
use capstone_myos.Paging.Map.{
  IsSpace, other_page, page_of-aligned, slot, slot-pde, update-IsSpace, same_tables,
  translate-update,
}
use capstone_myos.Paging.Calls.{map_page-found, taken, taken_frame}
use capstone_myos.Paging.Fill.{bind-some, IsOpen, IsFilled}
use capstone_myos.Paging.Copied.{cloned, fill_then, fill_then-IsFilled}

-- The space whose tables stand in used frames, and that has the table of the temporary address.
pub record IsReady (m : Machine) : Type 0 where
  pub space : IsSpace m.mem m.cr3
  pub valid : IsValid m.pmm
  pub tables :
      (i : ℕ)
      → i < 1024
      → is_present (m.mem (m.cr3 + 4 * i)) ≡ true
      → used m.pmm (page_of (m.mem (m.cr3 + 4 * i)) / 4096) ≡ 1
  pub window : is_present (m.mem (m.cr3 + 4 * 1022)) ≡ true

-- The table entry of the temporary address.
abbrev pub window_slot : Machine → ℕ
window_slot m = slot m.mem m.cr3 temp_pagedir

-- A frame that the allocator gives.
record IsGiven (m : Machine) (frame : ℕ) : Type 0 where
  aligned : frame % 4096 ≡ 0
  fits : frame + 4096 ≤ 2 ^ 32
  unused :
      (i : ℕ)
      → i < 1024
      → is_present (m.mem (m.cr3 + 4 * i)) ≡ true
      → page_of (m.mem (m.cr3 + 4 * i)) ≢ frame

taken_frame-IsGiven : (m : Machine) → IsReady m → taken_frame m ≢ 0 → IsGiven m (taken_frame m)
taken_frame-IsGiven m r ne = elim (alloc_frame_lem m.pmm r.valid) [
  | inl full ↦ absurd (ne full.0)
  | inr (f, e, pos, lt, free, below, after) ↦
      let aligned : taken_frame m % 4096 ≡ 0 = omega (arith, e) in
      let index : taken_frame m / 4096 ≡ f = omega (arith, e) in
      let fits = r.valid.fits in
      record {
        aligned = aligned;
        fits = omega (arith, e, fits, lt);
        unused = λ i hi p same. zero_one (
            sym free
            ∙ ap (used m.pmm) (sym index)
            ∙ ap (λ (x : ℕ). used m.pmm (x / 4096)) (sym same)
            ∙ r.tables i hi p);
      }
]

-- The memory once the frame stands at the temporary address.
abbrev opened_mem : Machine → ℕ → ℕ → ℕ
opened_mem m w = update m.mem (window_slot m) w

module _ (m : Machine) (frame w : ℕ) (r : IsReady m) (g : IsGiven m frame)
    (e : w ≡ bit_or frame 3) where
  opened-IsSpace : IsSpace (opened_mem m w) m.cr3
  opened-IsSpace =
      let fits = g.fits in
      let lt : frame < 2 ^ 32 = omega (arith, fits) in
      let few = entry-lt frame 3 g.aligned lt (omega arith) in
      update-IsSpace m.mem m.cr3 temp_pagedir w r.space (omega arith) r.window
        (omega (arith, e, few))

  opened-pde : (i : ℕ) → i < 1024 → opened_mem m w (m.cr3 + 4 * i) ≡ m.mem (m.cr3 + 4 * i)
  opened-pde i hi = slot-pde m.mem m.cr3 temp_pagedir w i r.space (omega arith) r.window hi

  opened-IsOpen : IsOpen (opened_mem m w) m.cr3 frame
  opened-IsOpen =
      let fits = g.fits in
      record {
        aligned = g.aligned;
        fits = g.fits;
        unused = λ i hi p same.
            g.unused i hi (ap is_present (sym (opened-pde i hi)) ∙ p)
              (ap page_of (sym (opened-pde i hi)) ∙ same);
        opened = λ k hk.
            let page =
              (==_iff ((temp_pagedir + 4 * k) / 4096) (temp_pagedir / 4096)).1 (omega arith) in
            let low : (temp_pagedir + 4 * k) % 4096 ≡ 4 * k = omega arith in
            translate-update m.mem m.cr3 temp_pagedir (temp_pagedir + 4 * k) w r.space (omega arith)
              (omega arith) r.window
            ∙ (rw page (
                ap (λ (x : ℕ). leaf x (temp_pagedir + 4 * k)) e
                ∙ leaf-entry frame 3 (temp_pagedir + 4 * k) g.aligned (omega (arith, fits))
                    (omega arith) refl
                ∙ ap (λ (x : ℕ). some (frame + x)) low));
      }

-- A directory made in `frame`: its entries, and the memory but for the frame and the temporary entry.
pub record Clones (m m' : Machine) (frame : ℕ) : Type 0 where
  pub rest : m' ≡ record (taken m) { mem = m'.mem }
  pub entries : (j : ℕ) → j < 1024 → m'.mem (frame + 4 * j) ≡ cloned m.mem m.cr3 frame j
  pub others :
      (t j : ℕ)
      → t % 4096 ≡ 0
      → t ≢ frame
      → j < 1024
      → t + 4 * j ≢ window_slot m
      → m'.mem (t + 4 * j) ≡ m.mem (t + 4 * j)

cloned-same :
    (mem mem' : ℕ → ℕ) (dir frame j : ℕ)
    → mem' (dir + 4 * j) ≡ mem (dir + 4 * j)
    → cloned mem' dir frame j ≡ cloned mem dir frame j
unfolding cloned
cloned-same mem mem' dir frame j e = rw e refl

-- The memory once the temporary address leads nowhere again.
abbrev closed_mem : Machine → (ℕ → ℕ) → ℕ → ℕ
closed_mem m mem2 = update mem2 (slot mem2 m.cr3 temp_pagedir) (bit_or 0 0)

module _ (m : Machine) (frame w : ℕ) (mem2 : ℕ → ℕ) (r : IsReady m) (g : IsGiven m frame)
    (e : w ≡ bit_or frame 3)
    (f : IsFilled (opened_mem m w) mem2 frame (cloned (opened_mem m w) m.cr3 frame)) where
  dir-ne-frame : m.cr3 ≢ frame
  dir-ne-frame same =
      g.unused 1023 (omega arith) r.space.recursive.present (r.space.recursive.page ∙ same)

  filled-pde : (i : ℕ) → i < 1024 → mem2 (m.cr3 + 4 * i) ≡ m.mem (m.cr3 + 4 * i)
  filled-pde i hi =
      f.outside m.cr3 i r.space.recursive.aligned dir-ne-frame hi ∙ opened-pde m frame w r g e i hi

  filled-IsSpace : IsSpace mem2 m.cr3
  filled-IsSpace = same_tables m.mem mem2 m.cr3 r.space f.words filled-pde

  filled-slot : slot mem2 m.cr3 temp_pagedir ≡ window_slot m
  filled-slot = ap (λ (x : ℕ). page_of x + 4 * 1022) (filled-pde 1022 (omega arith))

  slot-ne-frame : (j : ℕ) → j < 1024 → frame + 4 * j ≢ slot mem2 m.cr3 temp_pagedir
  slot-ne-frame j hj same =
      other_page frame (page_of (m.mem (m.cr3 + 4 * 1022))) j 1022 g.aligned
        (page_of-aligned (m.mem (m.cr3 + 4 * 1022)) (r.space.words (m.cr3 + 4 * 1022)))
        (λ x. g.unused 1022 (omega arith) r.window (sym x)) hj (omega arith) (same ∙ filled-slot)

  closed-Clones : Clones m (record (taken m) { mem = closed_mem m mem2 }) frame
  closed-Clones = record {
    rest = refl;
    entries = λ j hj.
        update_ne mem2 (slot mem2 m.cr3 temp_pagedir) (frame + 4 * j) (bit_or 0 0)
          (slot-ne-frame j hj)
        ∙ f.entries j hj
        ∙ cloned-same m.mem (opened_mem m w) m.cr3 frame j (opened-pde m frame w r g e j hj);
    others = λ t j aligned ne hj away.
        update_ne mem2 (slot mem2 m.cr3 temp_pagedir) (t + 4 * j) (bit_or 0 0)
          (λ same. away (same ∙ filled-slot))
        ∙ f.outside t j aligned ne hj
        ∙ update_ne m.mem (window_slot m) (t + 4 * j) w away;
  }

-- What follows the filling.
closing : ℕ → M ℕ
closing frame = map_page temp_pagedir 0 0 >> pure frame

module _ (m : Machine) (r : IsReady m) where
  clone_directory-full : taken_frame m ≡ 0 → clone_directory m ≡ some (0, taken m)
  unfolding clone_directory new_frame
  clone_directory-full full = rw (full, ◌>>=◌) refl

  clone_directory-opened :
      taken_frame m ≢ 0
      → clone_directory m
        ≡ fill_then
            (taken_frame m)
            (closing (taken_frame m))
            (record (taken m) { mem = opened_mem m (bit_or (taken_frame m) 3) })
  unfolding clone_directory new_frame closing fill_then
  clone_directory-opened ne =
      let other = ==_of_ne (taken_frame m) 0 ne in
      let frame = taken_frame m in
      rw (other, ◌>>=◌)
        (bind-some (map_page temp_pagedir frame 3) (λ _. fill_then frame (closing frame)) (taken m)
          (record (taken m) { mem = opened_mem m (bit_or frame 3) }) tt
          (map_page-found temp_pagedir frame 3 (taken m) r.space (omega arith) r.window))

  clone_directory-made :
      taken_frame m ≢ 0
      → (m' : Machine) × (clone_directory m ≡ some (taken_frame m, m'))
        × Clones m m' (taken_frame m)
  unfolding closing
  clone_directory-made ne =
      let frame = taken_frame m in
      let w : ℕ = bit_or frame 3 in
      let g = taken_frame-IsGiven m r ne in
      let (mem2, run, f) =
        fill_then-IsFilled (opened_mem m w) m.cr3 frame (opened-IsSpace m frame w r g refl)
          (opened-IsOpen m frame w r g refl) (taken m) refl (closing frame) in
      let after : Machine = record (taken m) { mem = mem2 } in
      (
        record (taken m) { mem = closed_mem m mem2 },
        clone_directory-opened ne
            ∙ run
            ∙ bind-some (map_page temp_pagedir 0 0) (λ _. pure frame) after
                (record (taken m) { mem = closed_mem m mem2 }) tt
                (map_page-found temp_pagedir 0 0 after (filled-IsSpace m frame w mem2 r g refl f)
                  (omega arith)
                  (ap is_present (filled-pde m frame w mem2 r g refl f 1022 (omega arith))
                    ∙ r.window)),
        closed-Clones m frame w mem2 r g refl f,
      )

-- In a space whose directory maps itself, whose tables are distinct used frames, and that has the table
-- of the temporary address, paging_clone_directory never faults. With no frame left it returns 0 and
-- changes no memory. Otherwise it returns the frame that the allocator gives, and that frame then holds
-- a directory: entry 1023 leads to the frame itself, present and writable; entry 0 is the current
-- directory's; an entry from 768 to 1022 is the current one if that is present and 0 if not; every other
-- entry is 0. But for the frame and the table entry of the temporary address the memory is as it was,
-- and the current directory stays loaded.
pub clone_directory_lem :
    (m : Machine)
    → IsReady m
    → ((taken_frame m ≡ 0) × (clone_directory m ≡ some (0, taken m)))
      ⊎ ((m' : Machine) × (clone_directory m ≡ some (taken_frame m, m'))
          × (taken_frame m ≢ 0)
          × Clones m m' (taken_frame m))
clone_directory_lem m r = elim (ℕ_discrete (taken_frame m) 0) [
  | yes full ↦ inl (full, clone_directory-full m r full)
  | no ne ↦ let (m', run, made) = clone_directory-made m r ne in inr (m', run, ne, made)
]
