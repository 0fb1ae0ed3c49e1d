-- ===== src/Process/Schedule.antt =====
-- One call of schedule: whom it picks, and what it leaves alone.
use native.Mathlib.Decide.{ℕ_discrete}
use capstone_myos.Prelude.{
  ℕ, ◌+◌, ◌-◌, ◌%◌, ◌<◌, ◌≤◌, ◌≡◌, refl, ◌≢◌, ap, ◌⊎◌, arith, true, false, Option, none, some, inl,
  inr, update, if◌then◌else◌, ==_refl, ==_of_ne, update_ne, sym, ◌∙◌, ltb, ◌^◌,
}
use capstone_myos.Process.{
  Task, zombie, is_running, is_zombie, Registers, Kernel, saved, save, find_next, switch_to,
  schedule, or_idle,
}
use capstone_myos.Process.Next.{runs, IsNearest, find_next-IsNearest}

-- The current task is the entry `c` of the table, and has its index for a pid.
pub record IsValid (k : Kernel) (c : ℕ) : Type 0 where
  pub current : k.current_task ≡ some c
  pub in_table : c < 16
  pub pids : (k.process_table c).pid ≡ c

abbrev pub table_saved : Registers → Kernel → ℕ → ℕ → Task
table_saved r k c = update k.process_table c (save r (k.process_table c))

state-save : (r : Registers) (t : Task) → (save r t).state ≡ t.state
unfolding save
state-save r t = ground arith

pid-save : (r : Registers) (t : Task) → (save r t).pid ≡ t.pid
unfolding save
pid-save r t = ground arith

-- Saving changes nobody's state.
pub state-table_saved :
    (r : Registers) (k : Kernel) (c i : ℕ) → (table_saved r k c i).state ≡ (k.process_table i).state
state-table_saved r k c i = elim (ℕ_discrete i c) [
  | yes e ↦ rw (e, ==_refl c) (state-save r (k.process_table c))
  | no ne ↦ rw (==_of_ne i c ne)
]

pub runs-table_saved :
    (r : Registers) (k : Kernel) (c i : ℕ) → runs (table_saved r k c) i ≡ runs k.process_table i
runs-table_saved r k c i = ap is_running (state-table_saved r k c i)

cpu_state-save :
    (r : Registers) (t : Task)
    → (save r t).cpu_state ≡ (if is_zombie t.state then t.cpu_state else saved r t)
unfolding save
cpu_state-save r t = ground arith

pub save_other : (r : Registers) (t : Task) → t.state ≢ zombie → (save r t).cpu_state ≡ saved r t
unfolding save
save_other r t h = ground arith

kernel_stack-table_saved :
    (r : Registers) (k : Kernel) (c i : ℕ)
    → ((table_saved r k c i).kernel_stack + 4096) % 2 ^ 32
      ≡ ((k.process_table i).kernel_stack + 4096) % 2 ^ 32
unfolding save
kernel_stack-table_saved r k c i = ground arith

abbrev pub chosen : Registers → Kernel → ℕ → ℕ
chosen r k c = or_idle (find_next 16 (table_saved r k c) c)

pid-table_saved :
    (r : Registers) (k : Kernel) (c : ℕ)
    → (k.process_table c).pid ≡ c
    → (table_saved r k c c).pid ≡ c
pid-table_saved r k c h = rw (==_refl c) (pid-save r (k.process_table c) ∙ h)

-- The state after a call.
abbrev pub after : Registers → Kernel → ℕ → Kernel
after r k c = switch_to (chosen r k c) (record k { process_table = table_saved r k c })

wakeup-save : (r : Registers) (t : Task) → (save r t).wakeup_time ≡ t.wakeup_time
unfolding save
wakeup-save r t = ground arith

pub wakeup-table_saved :
    (r : Registers) (k : Kernel) (c i : ℕ)
    → (table_saved r k c i).wakeup_time ≡ (k.process_table i).wakeup_time
wakeup-table_saved r k c i = elim (ℕ_discrete i c) [
  | yes e ↦ rw (e, ==_refl c) (wakeup-save r (k.process_table c))
  | no ne ↦ rw (==_of_ne i c ne)
]

-- The pid of any entry is kept.
pub pid-table_saved_any :
    (r : Registers) (k : Kernel) (c i : ℕ) → (table_saved r k c i).pid ≡ (k.process_table i).pid
pid-table_saved_any r k c i = elim (ℕ_discrete i c) [
  | yes e ↦ rw (e, ==_refl c) (pid-save r (k.process_table c))
  | no ne ↦ rw (==_of_ne i c ne)
]

pub schedule_lem :
    (r : Registers) (k : Kernel) (c : ℕ)
    → IsValid k c
    → schedule r k ≡ some (chosen r k c, after r k c)
unfolding schedule switch_to
schedule_lem r k c v = rw (v.current, schedule) (rw (pid-table_saved r k c v.pids))

-- The entry that the round robin is to pick after `c`: the nearest runnable one, or 0.
abbrev pub IsChosen : (ℕ → Task) → ℕ → ℕ → Type 0
IsChosen table c n =
    (((i : ℕ) → i < 16 → runs table i ≡ false) × (n ≡ 0))
    ⊎ ((j : ℕ) × (0 < j)
        × (j ≤ 16)
        × (n ≡ (c + j) % 16)
        × (runs table n ≡ true)
        × ((i : ℕ) → 0 < i → i < j → runs table ((c + i) % 16) ≡ false))

nearest-IsChosen :
    (r : Registers) (k : Kernel) (c : ℕ) (q : Option ℕ)
    → c < 16
    → IsNearest (table_saved r k c) c 16 q
    → IsChosen k.process_table c (or_idle q)
nearest-IsChosen r k c none lt h = inl (
  (λ i less.
      let j : ℕ = if ltb c i then i - c else i + 16 - c in
      let e : (c + j) % 16 ≡ i = ground arith in
      rw e at (sym (runs-table_saved r k c ((c + j) % 16)) ∙ h j (ground arith) (ground arith))),
  refl,
)
nearest-IsChosen r k c (some q) lt (j, a, b, e, found, none_before) = inr (
  j,
  a,
  b,
  e,
  sym (runs-table_saved r k c q) ∙ found,
  λ i x y. sym (runs-table_saved r k c ((c + i) % 16)) ∙ none_before i x y,
)

pub chosen-IsChosen :
    (r : Registers) (k : Kernel) (c : ℕ) → c < 16 → IsChosen k.process_table c (chosen r k c)
chosen-IsChosen r k c lt =
    nearest-IsChosen r k c (find_next 16 (table_saved r k c) c) lt
      (find_next-IsNearest 16 (table_saved r k c) c)

-- schedule picks the nearest runnable entry after the current one, going round the table, the
-- current one last of all, and entry 0 if none is runnable. It makes that entry current, puts the
-- top of its kernel stack into the TSS, changes no task's state, and saves the registers of the
-- interrupted task and of no other, and not of a zombie.
pub schedule_picks :
    (r : Registers) (k : Kernel) (c : ℕ)
    → IsValid k c
    → (n : ℕ) × (k' : Kernel) × (schedule r k ≡ some (n, k'))
      × IsChosen k.process_table c n
      × (k'.current_task ≡ some n)
      × (k'.esp0 ≡ ((k.process_table n).kernel_stack + 4096) % 2 ^ 32)
      × ((i : ℕ) → (k'.process_table i).state ≡ (k.process_table i).state)
      × ((i : ℕ) → i ≢ c → k'.process_table i ≡ k.process_table i)
      × ((k'.process_table c).cpu_state ≡ (
          if is_zombie (k.process_table c).state
          then (k.process_table c).cpu_state
          else saved r (k.process_table c)))
unfolding switch_to
schedule_picks r k c v = (
  chosen r k c,
  switch_to (chosen r k c) (record k { process_table = table_saved r k c }),
  schedule_lem r k c v,
  chosen-IsChosen r k c v.in_table,
  refl,
  kernel_stack-table_saved r k c (chosen r k c),
  state-table_saved r k c,
  (λ i ne. update_ne k.process_table c i (save r (k.process_table c)) ne),
  rw (==_refl c) (cpu_state-save r (k.process_table c)),
)
