-- ===== src/Timer/Tests.antt =====
-- The clock on the table that process_init makes.
use capstone_myos.Prelude.{
  ℕ, ◌≡◌, refl, ◌+◌, ◌-◌, ◌%◌, ◌^◌, arith, true, some, [], ◌∷◌, length, ltb, if◌then◌else◌, get_or,
}
use capstone_myos.Process.{Task, TaskState, running, sleeping, zombie, Registers, Kernel, zero_cpu}
use capstone_myos.Timer.{wake_entry, ticks_to_wait, sleep, timer_install, program_pit}
use capstone_myos.Timer.Sleep.{tick_all, sleep_lasts}

abbrev task : ℕ → TaskState → ℕ → Task
task i s w = record {
  pid = i;
  state = s;
  name = [];
  user_stack = 0;
  kernel_stack = 0;
  page_directory = 0;
  cpu_state = zero_cpu;
  wakeup_time = w;
}

-- The idle task, the shell asleep until tick 8, and zombies.
abbrev table : ℕ → Task
table i = task i (get_or (running ∷ sleeping ∷ []) i zombie) 8

abbrev kernel : Kernel
kernel = record {
  process_table = table;
  current_task = some 0;
  esp0 = 0;
  tick = 6;
  multitasking_enabled = true;
}

-- A kernel task interrupted at 0x100140.
abbrev frame : Registers
frame = record {
  gs = 16;
  fs = 16;
  es = 16;
  ds = 16;
  edi = 1;
  esi = 2;
  ebp = 3;
  esp = 0x200F00;
  ebx = 5;
  edx = 6;
  ecx = 7;
  eax = 8;
  int_no = 32;
  err_code = 0;
  eip = 0x100140;
  cs = 8;
  eflags = 0x202;
  useresp = 0;
  ss = 0;
}

woken : (wake_entry 8 (table 1)).state ≡ running
unfolding wake_entry
woken = refl

sleep_lasts_example :
    (k1 : Kernel) × (k2 : Kernel) × (sleep 35 kernel ≡ some k1)
    × (tick_all (frame ∷ frame ∷ []) k1 ≡ some k2)
    × ((k2.process_table 0).state
        ≡ (if ltb (length (frame ∷ frame ∷ [])) (ticks_to_wait 35) then sleeping else running))
unfolding ticks_to_wait
sleep_lasts_example =
    sleep_lasts (frame ∷ frame ∷ []) 35 0 kernel refl (omega arith) (λ i lt. refl) (omega arith)
      (omega arith)

installed : timer_install ≡ (0x43, 0x36) ∷ (0x40, 0x9B) ∷ (0x40, 0x2E) ∷ []
unfolding timer_install program_pit
installed = refl

-- A wakeup time that wraps: a sleep of 100 ms just before the clock's end is over at the next tick.
late : (wake_entry (2 ^ 32 - 1) (task 1 sleeping ((2 ^ 32 - 2 + 10) % 2 ^ 32))).state ≡ running
unfolding wake_entry
late = refl
