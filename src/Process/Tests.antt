-- ===== src/Process/Tests.antt =====
-- The scheduler on the table that process_init makes.
use capstone_myos.Prelude.{
  ℕ, zero, suc, ◌≡◌, ◌≢◌, refl, ◌+◌, ◌%◌, ◌^◌, ◌<◌, arith, true, none, some, List, [], ◌∷◌,
  if◌then◌else◌, update, get_or,
}
use capstone_myos.Process.{
  running, sleeping, zombie, Registers, Kernel, zero_task, process_init, is_zombie, kernel_task,
  saved, save, schedule, restore, find_next, switch_to,
}
use capstone_myos.Process.Schedule.{IsValid, IsChosen, schedule_picks}
use capstone_myos.Process.Context.{here, resumed, context_kept}
use capstone_myos.Process.Fairness.{turns, Visits, schedule_fair}

abbrev blank : Kernel
blank = record {
  process_table = λ i. zero_task;
  current_task = none;
  esp0 = 0;
  tick = 0;
  multitasking_enabled = true;
}

abbrev booted : Kernel
booted = process_init 0x200000 0x201000 0x100100 0x100200 0x9C000 blank

-- A kernel task interrupted at 0x100140.
abbrev frame : Registers
frame = record {
  gs = 16;
  fs = 16;
  es = 16;
  ds = 16;
  edi = 1;
  esi = 2;
  ebp = 3;
  esp = 0x200F00;
  ebx = 5;
  edx = 6;
  ecx = 7;
  eax = 8;
  int_no = 32;
  err_code = 0;
  eip = 0x100140;
  cs = 8;
  eflags = 0x202;
  useresp = 0;
  ss = 0;
}

booted-IsValid : IsValid booted 0
unfolding process_init kernel_task
booted-IsValid = record { current = refl; in_table = omega arith; pids = refl }

schedule_picks_example :
    (n : ℕ) × (k' : Kernel) × (schedule frame booted ≡ some (n, k'))
    × IsChosen booted.process_table 0 n
    × (k'.current_task ≡ some n)
    × (k'.esp0 ≡ ((booted.process_table n).kernel_stack + 4096) % 2 ^ 32)
    × ((i : ℕ) → (k'.process_table i).state ≡ (booted.process_table i).state)
    × ((i : ℕ) → i ≢ 0 → k'.process_table i ≡ booted.process_table i)
    × ((k'.process_table 0).cpu_state ≡ (
        if is_zombie (booted.process_table 0).state
        then (booted.process_table 0).cpu_state
        else saved frame (booted.process_table 0)))
schedule_picks_example = schedule_picks frame booted 0 booted-IsValid

-- The idle task is interrupted, then the shell, which is current by then.
abbrev second : Kernel
second = switch_to 1 (record booted {
  process_table = update booted.process_table 0 (save frame (booted.process_table 0));
})

first_turn : schedule frame booted ≡ some (1, second)
unfolding schedule process_init kernel_task find_next switch_to save saved
first_turn = refl

booted-state : (booted.process_table 0).state ≢ zombie
unfolding process_init kernel_task
booted-state e = cc

context_kept_example :
    (restore (second.process_table 0).cpu_state frame ≡ resumed frame frame)
    × ((second.process_table 0).cpu_state.cr3 ≡ (booted.process_table 0).page_directory)
context_kept_example =
    context_kept frame frame booted second second 0 1 booted-IsValid booted-state first_turn here

abbrev ticks : ℕ → List Registers
ticks zero = []
ticks (suc n) = frame ∷ ticks n

-- The idle task and the shell can run, one more is a zombie, the others sleep.
abbrev three : Kernel
three = record booted {
  process_table = λ i. record (kernel_task i [] 0x200000 0x100100 0x9C000) {
    state = get_or (running ∷ running ∷ sleeping ∷ zombie ∷ []) i sleeping;
  };
}

turns-three : turns (ticks 3) three ≡ 1 ∷ 0 ∷ 1 ∷ []
unfolding turns schedule process_init kernel_task find_next switch_to save saved
turns-three = refl

three-pids : (i : ℕ) → i < 16 → (three.process_table i).pid ≡ i
unfolding kernel_task
three-pids i lt = refl

schedule_fair_example : Visits 1 (turns (ticks 16) three)
unfolding process_init
schedule_fair_example =
    schedule_fair (ticks 16) three 0 1 refl (omega arith) three-pids (omega arith) refl
      (omega arith)
