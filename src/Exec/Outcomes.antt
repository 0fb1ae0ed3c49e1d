-- ===== src/Exec/Outcomes.antt =====
-- What exec_program leaves on each of its ways out.
use capstone_myos.Prelude.{
  ℕ, zero, suc, ◌+◌, ◌<◌, ◌≤◌, Bool, true, false, Bool-cases, Option, none, some, List, [], ◌∷◌,
  ◌==◌, ◌≡◌, refl, ◌⊎◌, inl, inr, update, arith,
}
use mathlib.Core.Path.{subst}
use capstone_myos.Strings.{Mem}
use capstone_myos.Fs.{dir_entry, find_file, read_file}
use capstone_myos.Process.{Task, running, max_processes}
use capstone_myos.Pmm.{alloc_frame}
use capstone_myos.Paging.{Machine, M}
use capstone_myos.Paging.Directory.{clone_directory, free_directory, switch_directory}
use capstone_myos.Exec.{
  elf_magic, elf_header, load_segments, map_stack, store_bytes, user_stack_top, user_stack_pages,
}
use capstone_myos.Exec.Args.{push_args}
use capstone_myos.Exec.Space.{
  Keeps, keeps-clone_directory, keeps-free_directory, keeps-load_segments, keeps-map_stack,
  keeps-store_bytes,
}
use capstone_myos.Exec.Program.{
  ExecError, missing_filename, file_not_found, no_file_memory, not_elf, no_segment_memory,
  no_process, Outcome, failed, started, System, Files, Loaded, refused, loaded, with_stack,
  with_segments, load_program, current_directory, is_unused, find_slot, new_task, fail, no_slot,
  start_process, with_program, with_file, exec_program,
}

-- The address space is the old one again, except behind one of the errors.
abbrev pub Returned : ℕ → List (List ℕ) → Loaded → Machine → Type 0
Returned old_dir args (refused e) m = (m.cr3 ≡ old_dir) ⊎ (e ≡ no_segment_memory)
Returned old_dir args (loaded dir esp) m =
    (m.cr3 ≡ old_dir) × (esp ≡ (push_args args user_stack_top).user_stack_ptr)

module _ (old_dir : ℕ) (args : List (List ℕ)) where
  abbrev Ends : Option (Loaded × Machine) → Type 0
  Ends none = Unit
  Ends (some (l, m)) = Returned old_dir args l m

  Ends-then :
      {A : Type 0} (r : Option (A × Machine)) (cr3 : ℕ) (g : A → M Loaded)
      → Keeps r cr3
      → ((a : A) (m : Machine) → m.cr3 ≡ cr3 → Ends (g a m))
      → Ends (elim r [ none ↦ none | some (a, m) ↦ g a m ])
  Ends-then none cr3 g k h = tt
  Ends-then (some (a, m)) cr3 g k h = h a m k

  Ends-if :
      (b : Bool) (f g : M Loaded) (m : Machine)
      → Ends (f m)
      → Ends (g m)
      → Ends ((let h : M Loaded = elim b [ true ↦ f | false ↦ g ] in h) m)
  Ends-if true f g m ef eg = ef
  Ends-if false f g m ef eg = eg

  Ends-with_stack : (new_dir : ℕ) (m : Machine) → Ends (with_stack args old_dir new_dir m)
  unfolding with_stack switch_directory
  Ends-with_stack new_dir m =
      Ends-then (map_stack user_stack_pages 0 m) m.cr3 _ (keeps-map_stack user_stack_pages 0 m)
        (λ stacked m' k.
          Ends-if stacked _ _ m'
            (Ends-then (store_bytes (push_args args user_stack_top).writes m') m'.cr3 _
              (keeps-store_bytes (push_args args user_stack_top).writes m')
              (λ _ m'' j. (refl, refl)))
            (let back = record m' { cr3 = old_dir } in
              Ends-then (free_directory new_dir back) old_dir _ (keeps-free_directory new_dir back)
                (λ _ m'' j. inl j)))

  Ends-with_segments :
      (file : Mem) (new_dir : ℕ) (m : Machine) → Ends (with_segments file args old_dir new_dir m)
  unfolding with_segments
  Ends-with_segments file new_dir m =
      let h = elf_header file in
      Ends-then (load_segments h.phnum file h.phoff m) m.cr3 _
        (keeps-load_segments h.phnum file h.phoff m)
        (λ done m' k. Ends-if done _ _ m' (Ends-with_stack new_dir m') (
          Ends-then (free_directory new_dir m') m'.cr3 _ (keeps-free_directory new_dir m')
            (λ _ m'' j. inr refl)))

Ends-load_program :
    (file : Mem) (args : List (List ℕ)) (m : Machine) → Ends m.cr3 args (load_program file args m)
unfolding load_program switch_directory current_directory
Ends-load_program file args m =
    Ends-then m.cr3 args (clone_directory m) m.cr3 _ (keeps-clone_directory m) (λ new_dir m' k.
      Ends-if m.cr3 args (new_dir == 0) _ _ m' (inl k) (
        let m'' = record m' { cr3 = new_dir } in
        subst (λ c. Ends c args (with_segments file args m'.cr3 new_dir m'')) k
          (Ends-with_segments m'.cr3 args file new_dir m'')))

abbrev pub free_at : (ℕ → Task) → ℕ → Bool
free_at table i = is_unused (table i).state

-- Among the `n` entries from `i` on, all are in use, or the first that is not is `k`.
abbrev pub IsFirst : (ℕ → Task) → ℕ → ℕ → Option ℕ → Type 0
IsFirst table i n none = (j : ℕ) → i ≤ j → j < i + n → free_at table j ≡ false
IsFirst table i n (some k) =
    (i ≤ k)
    × (k < i + n)
    × (free_at table k ≡ true)
    × ((j : ℕ) → i ≤ j → j < k → free_at table j ≡ false)

used_from :
    (table : ℕ → Task) (i m : ℕ)
    → free_at table i ≡ false
    → ((j : ℕ) → i + 1 ≤ j → j < m → free_at table j ≡ false)
    → (j : ℕ) → i ≤ j
    → j < m
    → free_at table j ≡ false
used_from table i m used h j a b = elim (Bool-cases (j == i)) [
  | inl e ↦ let e' : j ≡ i = ground (arith, e) in rw e' used
  | inr e ↦ h j (ground (arith, e)) b
]

not-IsFirst :
    (table : ℕ → Task) (i n : ℕ) (r : Option ℕ)
    → free_at table i ≡ false
    → IsFirst table (i + 1) n r
    → IsFirst table i (suc n) r
not-IsFirst table i n none used h =
    used_from table i (i + suc n) used (λ j a b. h j a (omega arith))
not-IsFirst table i n (some k) used (a, b, u, h) =
    (omega arith, omega arith, u, used_from table i k used h)

find_slot_lem : (n i : ℕ) (table : ℕ → Task) → IsFirst table i n (find_slot n i table)
unfolding find_slot
find_slot_lem zero i table = λ j a b. absurd (omega arith)
find_slot_lem (suc n) i table = at_slot (free_at table i) refl (find_slot_lem n (i + 1) table)
  where
    at_slot :
        (b : Bool)
        → free_at table i ≡ b
        → IsFirst table (i + 1) n (find_slot n (i + 1) table)
        → IsFirst table i (suc n) (elim b [ true ↦ some i | false ↦ find_slot n (i + 1) table ])
    at_slot true e h = (omega arith, omega arith, e, λ j a b. absurd (omega arith))
    at_slot false e h = not-IsFirst table i n (find_slot n (i + 1) table) e h

-- The new entry.
abbrev pub IsNewTask : List (List ℕ) → ℕ → Task → Type 0
IsNewTask args pid t =
    (t.pid ≡ pid)
    × (t.state ≡ running)
    × (t.cpu_state.esp ≡ (push_args args user_stack_top).user_stack_ptr)
    × (t.cpu_state.cr3 ≡ t.page_directory)
    × (t.cpu_state.cs ≡ 0x1B)
    × (t.cpu_state.ss ≡ 0x23)
    × (t.cpu_state.eflags ≡ 0x202)

-- What a way out leaves.
abbrev pub IsOutcome : System → List (List ℕ) → Outcome → System → Type 0
IsOutcome s args (failed e) s' =
    (s'.interrupts ≡ true)
    × (s'.kernel ≡ s.kernel)
    × ((s'.machine.cr3 ≡ s.machine.cr3) ⊎ (e ≡ no_segment_memory))
IsOutcome s args (started pid) s' =
    (s'.interrupts ≡ false)
    × (s'.machine.cr3 ≡ s.machine.cr3)
    × IsFirst s.kernel.process_table 0 max_processes (some pid)
    × (t : Task) × (s'.kernel
        ≡ record s.kernel { process_table = update s.kernel.process_table pid t })
    × IsNewTask args pid t

module _ (s : System) (args : List (List ℕ)) where
  abbrev pub Leaves : Option (Outcome × System) → Type 0
  Leaves none = Unit
  Leaves (some (r, s')) = IsOutcome s args r s'

  Leaves-fail :
      (m : Machine) (e : ExecError)
      → (m.cr3 ≡ s.machine.cr3) ⊎ (e ≡ no_segment_memory)
      → Leaves (fail s m e)
  unfolding fail
  Leaves-fail m e h = (refl, refl, h)

  Leaves-no_slot : (r : Option (Unit {0} × Machine)) → Keeps r s.machine.cr3 → Leaves (no_slot s r)
  unfolding no_slot
  Leaves-no_slot none k = tt
  Leaves-no_slot (some (_, m)) k = Leaves-fail m no_process (inl k)

  Leaves-start_process :
      (filename : List ℕ) (file : Mem) (new_dir esp : ℕ) (m : Machine) (o : Option ℕ)
      → m.cr3 ≡ s.machine.cr3
      → esp ≡ (push_args args user_stack_top).user_stack_ptr
      → IsFirst s.kernel.process_table 0 max_processes o
      → Leaves (start_process filename file new_dir esp s m o)
  unfolding start_process new_task
  Leaves-start_process filename file new_dir esp m none k j first =
      Leaves-no_slot (free_directory new_dir m)
        (subst (λ c. Keeps (free_directory new_dir m) c) k (keeps-free_directory new_dir m))
  Leaves-start_process filename file new_dir esp m (some pid) k j first =
      let t =
        new_task pid filename (elf_header file).entry (alloc_frame m.pmm).0 new_dir esp
          (s.kernel.process_table pid) in
      (refl, k, first, t, refl, (refl, refl, j, refl, refl, refl, refl))

  Leaves-with_program :
      (filename : List ℕ) (file : Mem) (r : Option (Loaded × Machine))
      → Ends s.machine.cr3 args r
      → Leaves (with_program filename file s r)
  unfolding with_program
  Leaves-with_program filename file none h = tt
  Leaves-with_program filename file (some (refused e, m)) h = Leaves-fail m e h
  Leaves-with_program filename file (some (loaded new_dir esp, m)) h =
      Leaves-start_process filename file new_dir esp m
        (find_slot max_processes 0 s.kernel.process_table) h.0 h.1
        (find_slot_lem max_processes 0 s.kernel.process_table)

  Leaves-with_file :
      (filename : List ℕ) (r : Option (Option Mem)) → Leaves (with_file filename args s r)
  unfolding with_file
  Leaves-with_file filename none = tt
  Leaves-with_file filename (some none) = Leaves-fail s.machine no_file_memory (inl refl)
  Leaves-with_file filename (some (some file)) =
      let good =
        Leaves-with_program filename file (load_program file args s.machine)
          (Ends-load_program file args s.machine) in
      elim ((elf_header file).magic == elf_magic)
        as (λ b. Leaves (elim b [
          | false ↦ fail s s.machine not_elf
          | true ↦ with_program filename file s (load_program file args s.machine)
        ])) [ false ↦ Leaves-fail s.machine not_elf (inl refl) | true ↦ good ]

pub Leaves-exec_program :
    (fuel : ℕ) (fs : Files) (args : List (List ℕ)) (s : System)
    → Leaves s args (exec_program fuel fs args s)
unfolding exec_program
Leaves-exec_program fuel fs [] s = Leaves-fail s [] s.machine missing_filename (inl refl)
Leaves-exec_program fuel fs (filename ∷ rest) s =
    at_entry (find_file fs.root_dir_entries fs.root_directory filename)
  where
    at_entry :
        (o : Option ℕ)
        → Leaves s (filename ∷ rest) (elim o [
          | none ↦ fail s s.machine file_not_found
          | some offset ↦ with_file filename (filename ∷ rest) s (
              read_file fuel fs.malloc fs.volume
                (dir_entry fs.root_directory offset)
                fs.dma_buffer
                fs.fresh)
        ])
    at_entry none = Leaves-fail s (filename ∷ rest) s.machine file_not_found (inl refl)
    at_entry (some offset) = Leaves-with_file s (filename ∷ rest) filename _

-- A file that was read for longer than the fuel, or that is a program to load.
abbrev pub IsLoadable : Option (Option Mem) → Type 0
IsLoadable none = Unit
IsLoadable (some none) = ⊥
IsLoadable (some (some file)) = ((elf_header file).magic == elf_magic) ≡ true

-- The only case in which no result is reached: the file is there and is to be loaded.
abbrev pub MayFault : ℕ → Files → List (List ℕ) → Type 0
MayFault fuel fs [] = ⊥
MayFault fuel fs (filename ∷ rest) =
    (offset : ℕ) × (find_file fs.root_dir_entries fs.root_directory filename ≡ some offset)
    × IsLoadable (
        read_file fuel fs.malloc fs.volume (dir_entry fs.root_directory offset) fs.dma_buffer
          fs.fresh)

abbrev pub IsResult : ℕ → Files → List (List ℕ) → System → Option (Outcome × System) → Type 0
IsResult fuel fs args s none = MayFault fuel fs args
IsResult fuel fs args s (some (r, s')) = IsOutcome s args r s'

not_none {ℓ} : {A : Type ℓ} (x : A) → ◌≡◌ {A = Option A} (some x) none → ⊥
not_none x e = ground (arith, e)

if_none {ℓ} :
    {A : Type ℓ} (b : Bool) (x : A) (r : Option A)
    → ◌≡◌ {A = Option A} (elim b [ false ↦ some x | true ↦ r ]) none
    → b ≡ true
if_none true x r e = refl
if_none false x r e = absurd (not_none x e)

found_none {ℓ} :
    {A : Type ℓ} (o : Option ℕ) (x : A) (g : ℕ → Option A)
    → ◌≡◌ {A = Option A} (elim o [ none ↦ some x | some k ↦ g k ]) none
    → (k : ℕ) × (o ≡ some k) × (g k ≡ none)
found_none none x g e = absurd (not_none x e)
found_none (some k) x g e = (k, refl, e)

with_file-none :
    (filename : List ℕ) (args : List (List ℕ)) (s : System) (r : Option (Option Mem))
    → with_file filename args s r ≡ none
    → IsLoadable r
unfolding with_file fail
with_file-none filename args s none e = tt
with_file-none filename args s (some none) e = not_none _ e
with_file-none filename args s (some (some file)) e =
    if_none ((elf_header file).magic == elf_magic) _ _ e

exec_program-none :
    (fuel : ℕ) (fs : Files) (args : List (List ℕ)) (s : System)
    → exec_program fuel fs args s ≡ none
    → MayFault fuel fs args
unfolding exec_program fail
exec_program-none fuel fs [] s e = not_none _ e
exec_program-none fuel fs (filename ∷ rest) s e =
    let (offset, found, unread) =
      found_none (find_file fs.root_dir_entries fs.root_directory filename) _ _ e in
    (offset, found, with_file-none filename (filename ∷ rest) s _ unread)

-- exec_program returns, unless the file is found and its chain is longer than the fuel or it is an
-- ELF program. Where it returns -1, the interrupts are enabled, the processes are as they were, and
-- unless the frames ran out within a segment the address space is the caller's. Where it returns an
-- index, the interrupts are disabled, the address space is the caller's, the index is that of the
-- first entry that was not in use, and the only change of the processes is that entry: a running
-- task in user mode with interrupts enabled, whose stack pointer is below the arguments.
pub exec_program_lem :
    (fuel : ℕ) (fs : Files) (args : List (List ℕ)) (s : System)
    → IsResult fuel fs args s (exec_program fuel fs args s)
exec_program_lem fuel fs args s =
    result (exec_program fuel fs args s) (Leaves-exec_program fuel fs args s)
      (exec_program-none fuel fs args s)
  where
    result :
        (o : Option (Outcome × System))
        → Leaves s args o
        → (o ≡ none → MayFault fuel fs args)
        → IsResult fuel fs args s o
    result none h n = n refl
    result (some (r, s')) h n = h
