-- ===== src/Exec/Space.antt =====
-- Which calls leave CR3.
use capstone_myos.Prelude.{
  ℕ, zero, suc, ◌+◌, ◌*◌, ◌/◌, ◌%◌, ◌^◌, Bool, true, false, Option, none, some, List, [], ◌∷◌, ◌==◌,
  ◌≡◌, refl, update, bit_or,
}
use mathlib.Core.Path.{subst}
use capstone_myos.Paging.{
  Machine, M, pure, ◌>>=◌, translate, load, store, new_frame, release, zero_words, new_table,
  get_page, map_page, is_present,
}
use capstone_myos.Paging.Directory.{
  copy_entries, clone_directory, free_pages, free_table, free_tables, free_directory,
}
use capstone_myos.Exec.{
  ProgramHeader, set_byte, store_byte, store_bytes, map_segment, load_segment, load_segments,
  map_stack, program_header,
}
use capstone_myos.Strings.{Mem}

-- Wherever a call returns, CR3 is what it was.
abbrev pub Keeps : {A : Type 0} → Option (A × Machine) → ℕ → Type 0
Keeps none cr3 = Unit
Keeps (some (a, m)) cr3 = m.cr3 ≡ cr3

abbrev pub KeepsSpace : {A : Type 0} → M A → Type 0
KeepsSpace f = (m : Machine) → Keeps (f m) m.cr3

keeps_pure : {A : Type 0} (a : A) → KeepsSpace (pure a)
keeps_pure a m = refl

Keeps-then :
    {A B : Type 0} (r : Option (A × Machine)) (cr3 : ℕ) (g : A → M B)
    → Keeps r cr3
    → ((a : A) → KeepsSpace (g a))
    → Keeps (elim r [ none ↦ none | some (a, m') ↦ g a m' ]) cr3
Keeps-then none cr3 g kr kg = tt
Keeps-then (some (a, m')) cr3 g kr kg = subst (λ c. Keeps (g a m') c) kr (kg a m')

keeps_bind :
    {A B : Type 0} (f : M A) (g : A → M B)
    → KeepsSpace f
    → ((a : A) → KeepsSpace (g a))
    → KeepsSpace (f >>= g)
keeps_bind f g kf kg m = Keeps-then (f m) m.cr3 g (kf m) kg

pub keeps_if :
    {A : Type 0} (b : Bool) (f g : M A)
    → KeepsSpace f
    → KeepsSpace g
    → KeepsSpace (elim b [ true ↦ f | false ↦ g ])
keeps_if true f g kf kg = kf
keeps_if false f g kf kg = kg

Keeps-access :
    {A : Type 0} (o : Option ℕ) (m : Machine) (result : ℕ → A) (memory : ℕ → ℕ → ℕ)
    → Keeps (elim o [ none ↦ none | some a ↦ some (result a, record m { mem = memory a }) ]) m.cr3
Keeps-access none m result memory = tt
Keeps-access (some a) m result memory = refl

keeps_load : (va : ℕ) → KeepsSpace (load va)
unfolding load
keeps_load va m = Keeps-access (translate m.mem m.cr3 va) m (λ a. m.mem a) (λ a. m.mem)

keeps_store : (va value : ℕ) → KeepsSpace (store va value)
unfolding store
keeps_store va value m =
    Keeps-access (translate m.mem m.cr3 va) m (λ a. tt) (λ a. update m.mem a value)

keeps-new_frame : KeepsSpace new_frame
unfolding new_frame
keeps-new_frame m = refl

keeps_release : (frame : ℕ) → KeepsSpace (release frame)
unfolding release
keeps_release frame m = refl

keeps-zero_words : (n va : ℕ) → KeepsSpace (zero_words n va)
unfolding zero_words
keeps-zero_words zero va = keeps_pure tt
keeps-zero_words (suc n) va =
    keeps_bind (store va 0) (λ _. zero_words n (va + 4)) (keeps_store va 0)
      (λ _. keeps-zero_words n (va + 4))

keeps-new_table : (i flags : ℕ) → KeepsSpace (new_table i flags)
unfolding new_table
keeps-new_table i flags = keeps_bind _ _ keeps-new_frame (λ frame.
    keeps_if (frame == 0) _ _ (keeps_pure false) (
      keeps_bind _ _ (keeps-zero_words 1024 frame)
        (λ _. keeps_bind _ _ (keeps_store _ _) (λ _. keeps_pure true))))

keeps-get_page : (va : ℕ) (create : Bool) (flags : ℕ) → KeepsSpace (get_page va create flags)
unfolding get_page
keeps-get_page va create flags = keeps_bind _ _ (keeps_load _) (λ pde.
    keeps_if (is_present pde) _ _ (λ m. refl)
      (keeps_if create _ _
        (keeps_bind _ _ (keeps-new_table (va / 2 ^ 22) flags) (λ made. λ m. refl)) (λ m. refl)))

keeps-map_page : (va phys flags : ℕ) → KeepsSpace (map_page va phys flags)
unfolding map_page
keeps-map_page va phys flags = keeps_bind _ _ (keeps-get_page va true flags) (λ o. at_entry o)
  where
    at_entry :
        (o : Option ℕ)
        → KeepsSpace (elim o [ none ↦ pure tt | some p ↦ store p (bit_or phys flags) ])
    at_entry none = keeps_pure tt
    at_entry (some p) = keeps_store p (bit_or phys flags)

keeps-free_pages : (n j : ℕ) → KeepsSpace (free_pages n j)
unfolding free_pages
keeps-free_pages zero j = keeps_pure tt
keeps-free_pages (suc n) j = keeps_bind _ _ (keeps_load _) (λ pte.
    keeps_bind _ _ (keeps_if (is_present pte) _ _ (keeps_release _) (keeps_pure tt))
      (λ _. keeps-free_pages n (j + 1)))

keeps-free_table : (pde : ℕ) → KeepsSpace (free_table pde)
unfolding free_table
keeps-free_table pde = keeps_bind _ _ (keeps-map_page _ _ _) (λ _.
    keeps_bind _ _ (keeps-free_pages 1024 0)
      (λ _. keeps_bind _ _ (keeps-map_page _ _ _) (λ _. keeps_release _)))

keeps-free_tables : (n i : ℕ) → KeepsSpace (free_tables n i)
unfolding free_tables
keeps-free_tables zero i = keeps_pure tt
keeps-free_tables (suc n) i = keeps_bind _ _ (keeps_load _) (λ pde.
    keeps_bind _ _ (keeps_if (is_present pde) _ _ (keeps-free_table pde) (keeps_pure tt))
      (λ _. keeps-free_tables n (i + 1)))

pub keeps-free_directory : (dir : ℕ) → KeepsSpace (free_directory dir)
unfolding free_directory
keeps-free_directory dir = keeps_if (dir == 0) _ _ (keeps_pure tt) (
    keeps_bind _ _ (keeps-map_page _ _ _) (λ _.
      keeps_bind _ _ (keeps-free_tables 767 1)
        (λ _. keeps_bind _ _ (keeps-map_page _ _ _) (λ _. keeps_release _))))

keeps-copy_entries : (n i : ℕ) → KeepsSpace (copy_entries n i)
unfolding copy_entries
keeps-copy_entries zero i = keeps_pure tt
keeps-copy_entries (suc n) i = keeps_bind _ _ (keeps_load _) (λ e.
    keeps_bind _ _ (keeps_if (is_present e) _ _ (keeps_store _ _) (keeps_pure tt))
      (λ _. keeps-copy_entries n (i + 1)))

pub keeps-clone_directory : KeepsSpace clone_directory
unfolding clone_directory
keeps-clone_directory = keeps_bind _ _ keeps-new_frame (λ new_dir.
    keeps_if (new_dir == 0) _ _ (λ m. refl)
      (keeps_bind _ _ (keeps-map_page _ _ _) (λ _. keeps_bind _ _ (keeps-zero_words 1024 _) (λ _.
        keeps_bind _ _ (keeps_load _) (λ first. keeps_bind _ _ (keeps_store _ _) (λ _.
          keeps_bind _ _ (keeps-copy_entries 255 768) (λ _.
            keeps_bind _ _ (keeps_store _ _)
              (λ _. keeps_bind _ _ (keeps-map_page _ _ _) (λ _. keeps_pure new_dir)))))))))

keeps-store_byte : (va byte : ℕ) → KeepsSpace (store_byte va byte)
unfolding store_byte
keeps-store_byte va byte m =
    Keeps-access (translate m.mem m.cr3 va) m (λ a. tt)
      (λ a. update m.mem (a / 4 * 4) (set_byte (m.mem (a / 4 * 4)) (a % 4) byte))

pub keeps-store_bytes : (ws : List (ℕ × ℕ)) → KeepsSpace (store_bytes ws)
unfolding store_bytes
keeps-store_bytes [] = keeps_pure tt
keeps-store_bytes ((va, byte) ∷ ws) =
    keeps_bind _ _ (keeps-store_byte va byte) (λ _. keeps-store_bytes ws)

keeps-map_segment : (n vaddr p : ℕ) → KeepsSpace (map_segment n vaddr p)
unfolding map_segment
keeps-map_segment zero vaddr p = keeps_pure true
keeps-map_segment (suc n) vaddr p = keeps_bind _ _ keeps-new_frame (λ frame.
    keeps_if (frame == 0) _ _ (keeps_pure false)
      (keeps_bind _ _ (keeps-map_page _ _ _) (λ _. keeps-map_segment n vaddr (p + 4096))))

pub keeps-map_stack : (n i : ℕ) → KeepsSpace (map_stack n i)
unfolding map_stack
keeps-map_stack zero i = keeps_pure true
keeps-map_stack (suc n) i = keeps_bind _ _ keeps-new_frame (λ frame.
    keeps_if (frame == 0) _ _ (keeps_pure false)
      (keeps_bind _ _ (keeps-map_page _ _ _) (λ _. keeps-map_stack n (i + 1))))

keeps-load_segment : (file : Mem) (h : ProgramHeader) → KeepsSpace (load_segment file h)
unfolding load_segment
keeps-load_segment file h = keeps_bind _ _ (keeps-map_segment _ _ 0) (λ mapped.
    keeps_if mapped _ _
      (keeps_bind _ _ (keeps-store_bytes _)
        (λ _. keeps_bind _ _ (keeps-store_bytes _) (λ _. keeps_pure true)))
      (keeps_pure false))

pub keeps-load_segments : (n : ℕ) (file : Mem) (p : ℕ) → KeepsSpace (load_segments n file p)
unfolding load_segments
keeps-load_segments zero file p = keeps_pure true
keeps-load_segments (suc n) file p =
    keeps_if ((program_header file p).type == 1) _ _
      (keeps_bind _ _ (keeps-load_segment file (program_header file p))
        (λ loaded. keeps_if loaded _ _ (keeps-load_segments n file (p + 32)) (keeps_pure false)))
      (keeps-load_segments n file (p + 32))
