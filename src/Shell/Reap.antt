-- ===== src/Shell/Reap.antt =====
-- kernel/shell.c (process_command): the reaping of a zombie, and the start of a program.
use mathlib.Core.Path.{subst}
use capstone_myos.Prelude.{
  ◌∙◌, ℕ, Bool, true, false, ◌&&◌, Option, none, some, List, ◌<◌, ◌≡◌, ◌≢◌, refl, sym, ap, ◌⊎◌, inl,
  inr, Bool-cases, ltb, update, update_ne, arith,
}
use capstone_myos.Vga.{Vga}
use capstone_myos.Pmm.{free_frame}
use capstone_myos.Process.{Task, Kernel, zero_task, is_zombie, running, waiting, max_processes}
use capstone_myos.Paging.{Machine}
use capstone_myos.Paging.Directory.{free_directory}
use capstone_myos.Keyboard.{Keyboard}
use capstone_myos.Exec.Space.{Keeps, keeps-free_directory}
use capstone_myos.Exec.Program.{System, Files, Outcome, failed, started, is_unused, exec_program}
use capstone_myos.Exec.Outcomes.{IsFirst, IsNewTask, Leaves, Leaves-exec_program}
use capstone_myos.Shell.Commands.{reap, reaped, kill, set_waiting, with_shell, launched, run}

-- Whether kill may reap the entry.
abbrev pub is_prey : ℕ → System → Bool
is_prey pid s = (ltb 0 pid && ltb pid max_processes) && is_zombie (s.kernel.process_table pid).state

-- The system with a cleared entry: only its machine can differ in more, and the interrupts are enabled.
abbrev pub IsReaped : ℕ → System → System → Type 0
IsReaped pid s s' =
    (s'.kernel ≡ record s.kernel { process_table = update s.kernel.process_table pid zero_task })
    × (s'.machine.cr3 ≡ s.machine.cr3)
    × (s'.interrupts ≡ true)

-- What kill leaves; `none` is a page fault, in the freeing of the zombie's directory.
abbrev pub IsKill : ℕ → System → Option (System × Vga) → Type 0
IsKill pid s none =
    (is_prey pid s ≡ true)
    × (free_directory (s.kernel.process_table pid).page_directory s.machine ≡ none)
IsKill pid s (some (s', v)) =
    ((is_prey pid s ≡ true) × IsReaped pid s s')
    ⊎ ((is_prey pid s ≡ false) × (s' ≡ record s { interrupts = true }))

-- What the reaping leaves, before the message enables the interrupts.
abbrev IsReap : ℕ → System → Option System → Type 0
IsReap pid s none = free_directory (s.kernel.process_table pid).page_directory s.machine ≡ none
IsReap pid s (some s') =
    (s'.kernel ≡ record s.kernel { process_table = update s.kernel.process_table pid zero_task })
    × (s'.machine.cr3 ≡ s.machine.cr3)

reap-IsReap : (pid : ℕ) (s : System) → IsReap pid s (reap pid s)
unfolding reap
reap-IsReap pid s =
    let task = s.kernel.process_table pid in
    freed (free_directory task.page_directory s.machine) refl
      (keeps-free_directory task.page_directory s.machine)
  where
    freed :
        (r : Option (Unit {0} × Machine))
        → free_directory (s.kernel.process_table pid).page_directory s.machine ≡ r
        → Keeps r s.machine.cr3
        → IsReap pid s (elim r [
          | none ↦ none
          | some (_, m) ↦ some (record s {
            machine = record m { pmm = free_frame m.pmm (s.kernel.process_table pid).kernel_stack };
            kernel = record s.kernel {
              process_table = update s.kernel.process_table pid zero_task;
            };
          })
        ])
    freed none e k = e
    freed (some (_, m)) e k = (refl, k)

IsKill-reaped :
    (pid : ℕ) (s : System) (v : Vga) (r : Option System)
    → is_prey pid s ≡ true
    → IsReap pid s r
    → IsKill pid s (reaped pid v r)
unfolding reaped
IsKill-reaped pid s v none prey h = (prey, h)
IsKill-reaped pid s v (some s') prey h = inl (prey, (h.0, h.1, refl))

kill_prey :
    (pid : ℕ) (s : System) (v : Vga)
    → is_prey pid s ≡ true
    → kill (some pid) s v ≡ reaped pid v (reap pid s)
unfolding kill
kill_prey pid s v prey =
    chosen (ltb 0 pid && ltb pid max_processes) (is_zombie (s.kernel.process_table pid).state) _ _ _
      prey
  where
    chosen :
        (a b : Bool) (x y z : Option (System × Vga))
        → a && b ≡ true
        → (elim a [ false ↦ x | true ↦ elim b [ false ↦ y | true ↦ z ] ]) ≡ z
    chosen true true x y z e = refl
    chosen true false x y z e = absurd (ground arith)
    chosen false b x y z e = absurd (ground arith)

kill_other :
    (pid : ℕ) (s : System) (v : Vga)
    → is_prey pid s ≡ false
    → (v' : Vga) × ◌≡◌ {A = Option (System × Vga)}
        (some (record s { interrupts = true }, v'))
        (kill (some pid) s v)
unfolding kill
kill_other pid s v other =
    chosen (ltb 0 pid && ltb pid max_processes) (is_zombie (s.kernel.process_table pid).state) _ _ _
      other
  where
    chosen :
        (a b : Bool) (x y : Vga) (z : Option (System × Vga))
        → a && b ≡ false
        → (v' : Vga) × ◌≡◌ {A = Option (System × Vga)}
            (some (record s { interrupts = true }, v'))
            (elim a [
              | false ↦ some (record s { interrupts = true }, x)
              | true ↦ elim b [ false ↦ some (record s { interrupts = true }, y) | true ↦ z ]
            ])
    chosen true true x y z e = absurd (ground arith)
    chosen true false x y z e = (y, refl)
    chosen false b x y z e = (x, refl)

-- kill, called for a zombie with an index from 1 to 15, returns unless the freeing of the zombie's
-- directory faults; it then clears the zombie's entry and changes no other process, nor the loaded
-- address space. In every other case it returns and leaves the processes, the memory and the address
-- space as they were. Where it returns, its message has enabled the interrupts.
pub kill_lem : (pid : ℕ) (s : System) (v : Vga) → IsKill pid s (kill (some pid) s v)
kill_lem pid s v = elim (Bool-cases (is_prey pid s)) [
  | inl prey ↦
      let e = kill_prey pid s v prey in
      subst (λ r. IsKill pid s r) (sym e)
        (IsKill-reaped pid s v (reap pid s) prey (reap-IsReap pid s))
  | inr other ↦
      let (v', e) = kill_other pid s v other in subst (λ r. IsKill pid s r) e (inr (other, refl))
]

-- What run leaves: after a failure the processes are as they were. Otherwise the shell's task waits,
-- and the task of the program takes an entry that was unused; no other entry differs.
abbrev pub IsRun : ℕ → List (List ℕ) → System → Outcome → System → Type 0
IsRun shell args s (failed e) s' = (s'.interrupts ≡ true) × (s'.kernel ≡ s.kernel)
IsRun shell args s (started pid) s' =
    let table = s.kernel.process_table in
    (s'.interrupts ≡ false)
    × (s'.machine.cr3 ≡ s.machine.cr3)
    × (pid ≢ shell)
    × (pid < max_processes)
    × (is_unused (table pid).state ≡ true)
    × (t : Task) × IsNewTask args pid t
    × (s'.kernel ≡ record s.kernel {
      process_table = update (update table pid t) shell (record (table shell) { state = waiting });
    })

abbrev Post : ℕ → List (List ℕ) → System → Option (Outcome × System) → Type 0
Post shell args s none = Unit
Post shell args s (some (r, s')) = IsRun shell args s r s'

abbrev with_waiting : ℕ → Kernel → Kernel
with_waiting c k = record k {
  process_table = update k.process_table c (record (k.process_table c) { state = waiting });
}

set_waiting_lem :
    (k : Kernel) (c : ℕ) → k.current_task ≡ some c → set_waiting k ≡ some (with_waiting c k)
unfolding set_waiting
set_waiting_lem k c e = rw e refl

launched-started :
    (s : System) (pid : ℕ) (k : Kernel)
    → set_waiting s.kernel ≡ some k
    → launched (some (started pid, s)) ≡ some (started pid, record s { kernel = k })
unfolding launched with_shell
launched-started s pid k e = ap (with_shell pid s) e

IsFirst-other :
    (table : ℕ → Task) (pid shell : ℕ)
    → IsFirst table 0 max_processes (some pid)
    → (table shell).state ≡ running
    → pid ≢ shell
IsFirst-other table pid shell (a, b, free, c) runs e =
    let used : is_unused (table shell).state ≡ false = rw runs refl in
    let f : is_unused (table shell).state ≡ true =
      subst (λ i. is_unused (table i).state ≡ true) e free in
    absurd (ground (arith, used, f))

launched_lem :
    (args : List (List ℕ)) (s : System) (shell : ℕ) (o : Option (Outcome × System))
    → s.kernel.current_task ≡ some shell
    → (s.kernel.process_table shell).state ≡ running
    → Leaves s args o
    → Post shell args s (launched o)
unfolding launched
launched_lem args s shell none cur runs h = tt
launched_lem args s shell (some (failed e, s')) cur runs (i, k, c) = (refl, k)
launched_lem args s shell (some (started pid, s')) cur runs (i, c, first, t, k, new) =
    let ne = IsFirst-other s.kernel.process_table pid shell first runs in
    let table = update s.kernel.process_table pid t in
    let kernel = record s.kernel { process_table = table } in
    let same : table shell ≡ s.kernel.process_table shell =
      update_ne s.kernel.process_table pid shell t (λ e. ne (sym e)) in
    let waits : set_waiting s'.kernel ≡ some (with_waiting shell kernel) =
      ap set_waiting k ∙ set_waiting_lem kernel shell cur in
    let all = launched-started s' pid (with_waiting shell kernel) waits in
    let table' =
      ap (λ x. record kernel { process_table = update table shell (record x { state = waiting }) })
        same in
    subst (λ x. Post shell args s x) (sym all) (i, c, ne, first.1, first.2, t, new, table')

-- run starts a program from a shell whose task is a running one: where it fails, the processes are
-- as they were and interrupts are enabled; otherwise the shell's own task waits, the program's task
-- stands in another entry, that was not in use, and no other entry differs.
pub run_lem :
    (fuel : ℕ) (fs : Files) (args : List (List ℕ)) (kb : Keyboard) (s s' : System) (r : Outcome)
    (shell : ℕ)
    → s.kernel.current_task ≡ some shell
    → (s.kernel.process_table shell).state ≡ running
    → (run fuel fs args kb s).0 ≡ some (r, s')
    → IsRun shell args s r s'
unfolding run
run_lem fuel fs args kb s s' r shell cur runs e =
    let o = exec_program fuel fs args s in
    subst (λ x. Post shell args s x) e
      (launched_lem args s shell o cur runs (Leaves-exec_program fuel fs args s))
