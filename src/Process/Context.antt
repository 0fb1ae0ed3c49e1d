-- ===== src/Process/Context.antt =====
-- A task that is switched out finds its registers again when it is switched in.
use capstone_myos.Prelude.{
  ℕ, ◌≡◌, refl, ◌≢◌, ◌∙◌, ap, some, ◌==◌, if◌then◌else◌, update_ne, ==_refl,
}
use capstone_myos.Process.{
  Task, zombie, Registers, Kernel, CpuState, saved, save, schedule, switch_to, restore, kernel_data,
  user_code,
}
use capstone_myos.Process.Schedule.{IsValid, schedule_lem, after, save_other}

-- The frame over which a task's entry is written: what task_switch copies is what the task had in `r`, the
-- rest stays. For a task of the kernel the IRET that follows pops neither `useresp` nor `ss`.
abbrev pub resumed : Registers → Registers → Registers
resumed r frame = record r {
  gs = frame.gs;
  fs = frame.fs;
  es = frame.es;
  ds = frame.ds;
  esp = frame.esp;
  int_no = frame.int_no;
  err_code = frame.err_code;
  useresp = if r.cs == user_code then r.useresp else r.esp;
  ss = if r.cs == user_code then r.ss else kernel_data;
}

-- Calls of schedule that are made while other entries than `c` are current.
pub data Away (c : ℕ) (k : Kernel) : Kernel → Type 0 where
  here : Away c k k
  later :
      {k1 : Kernel} (k2 : Kernel) (r : Registers) (o n : ℕ)
      → Away c k k1
      → IsValid k1 o
      → c ≢ o
      → schedule r k1 ≡ some (n, k2)
      → Away c k k2

-- The state that schedule returns.
schedule-state :
    (r : Registers) (k k' : Kernel) (c n : ℕ)
    → IsValid k c
    → schedule r k ≡ some (n, k')
    → k' ≡ after r k c
schedule-state r k k' c n v e = let lem = schedule_lem r k c v in cc

entry_other :
    (r : Registers) (k : Kernel) (c o : ℕ)
    → c ≢ o
    → (after r k o).process_table c ≡ k.process_table c
unfolding switch_to
entry_other r k c o ne = update_ne k.process_table o c (save r (k.process_table o)) ne

entry_self :
    (r : Registers) (k : Kernel) (c : ℕ)
    → (k.process_table c).state ≢ zombie
    → ((after r k c).process_table c).cpu_state ≡ saved r (k.process_table c)
unfolding switch_to
entry_self r k c nz = rw (==_refl c) (save_other r (k.process_table c) nz)

-- Others' turns do not touch a task's entry.
Away-entry : (c : ℕ) (k k' : Kernel) → Away c k k' → k'.process_table c ≡ k.process_table c
Away-entry c k _ here = refl
Away-entry c k _ (later {k1 = k1} k2 r o n a v ne e) =
    ap (λ (x : Kernel). x.process_table c) (schedule-state r k1 k2 o n v e)
    ∙ entry_other r k1 c o ne
    ∙ Away-entry c k k1 a

saved-restored : (r frame : Registers) (t : Task) → restore (saved r t) frame ≡ resumed r frame
unfolding restore saved
saved-restored r frame t = refl

saved-cr3 : (r : Registers) (t : Task) → (saved r t).cr3 ≡ t.page_directory
unfolding saved
saved-cr3 r t = refl

-- A task that is no zombie is interrupted with the frame `r`. When task_switch writes its entry over any
-- later frame, whatever other tasks were scheduled meanwhile, the frame holds the task's edi, esi, ebp,
-- ebx, edx, ecx, eax, eip, cs and eflags as in `r`. The fields of the user's stack hold the useresp and
-- ss of `r` for a task in user mode, and the esp that PUSHA saved with the kernel's data segment for a
-- task of the kernel. The data segments, the esp of PUSHA, the vector and the error code stay those of
-- the later frame. The directory to load is the task's own.
pub context_kept :
    (r frame : Registers) (k k1 k2 : Kernel) (c n : ℕ)
    → IsValid k c
    → (k.process_table c).state ≢ zombie
    → schedule r k ≡ some (n, k1)
    → Away c k1 k2
    → (restore (k2.process_table c).cpu_state frame ≡ resumed r frame)
      × ((k2.process_table c).cpu_state.cr3 ≡ (k.process_table c).page_directory)
context_kept r frame k k1 k2 c n v nz e a =
    let kept : (k2.process_table c).cpu_state ≡ saved r (k.process_table c) =
      ap (λ (t : Task). t.cpu_state)
        (Away-entry c k1 k2 a
          ∙ ap (λ (x : Kernel). x.process_table c) (schedule-state r k k1 c n v e))
      ∙ entry_self r k c nz in
    (
      ap (λ (s : CpuState). restore s frame) kept ∙ saved-restored r frame (k.process_table c),
      ap (λ (s : CpuState). s.cr3) kept ∙ saved-cr3 r (k.process_table c),
    )
