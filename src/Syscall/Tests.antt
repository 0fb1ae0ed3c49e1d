-- ===== src/Syscall/Tests.antt =====
-- The system calls on a table with the idle task, a waiting shell and a program.
use capstone_myos.Prelude.{
  ℕ, ◌≡◌, ◌≢◌, refl, false, ◌<◌, arith, true, ◌&&◌, some, [], ◌∷◌, ◌==◌, if◌then◌else◌, get_or,
}
use capstone_myos.Process.{
  Task, TaskState, running, waiting, zombie, Registers, Kernel, is_waiting, zero_cpu, unused,
}
use capstone_myos.Timer.{timer_handler}
use capstone_myos.Timer.Sleep.{tick_all}
use capstone_myos.Syscall.{mark_exit}
use capstone_myos.Syscall.Exit.{exited, exit_is_final}
use capstone_myos.Syscall.Calls.{Caller, IsGetchar, system_call, getchar_lem}
use capstone_myos.Syscall.Live.{start, step, exits, IsLive, interrupts_live}

abbrev task : ℕ → TaskState → Task
task i s = record {
  pid = i;
  state = s;
  name = [];
  user_stack = 0;
  kernel_stack = 0;
  page_directory = 0;
  cpu_state = zero_cpu;
  wakeup_time = 0;
}

-- The shell waits for program 2, which runs.
abbrev kernel : Kernel
kernel = record {
  process_table = λ i. task i (get_or (running ∷ waiting ∷ running ∷ []) i unused);
  current_task = some 2;
  esp0 = 0;
  tick = 6;
  multitasking_enabled = true;
}

abbrev frame : Registers
frame = record {
  gs = 16;
  fs = 16;
  es = 16;
  ds = 16;
  edi = 1;
  esi = 2;
  ebp = 3;
  esp = 0x200F00;
  ebx = 5;
  edx = 6;
  ecx = 7;
  eax = 8;
  int_no = 32;
  err_code = 0;
  eip = 0x100140;
  cs = 8;
  eflags = 0x202;
  useresp = 0;
  ss = 0;
}

exit_is_final_example :
    (k1 : Kernel) × (k2 : Kernel) × (n : ℕ) × (mark_exit kernel ≡ some k1)
    × ((i : ℕ)
        → i ≢ 2
        → (k1.process_table i).state ≡ (
            if (i == 1) && is_waiting (kernel.process_table i).state
            then running
            else (kernel.process_table i).state))
    × (tick_all (frame ∷ frame ∷ []) k1 ≡ some k2)
    × ((k2.process_table 2).state ≡ zombie)
    × (k2.current_task ≡ some n)
    × (n ≢ 2)
exit_is_final_example =
    exit_is_final frame (frame ∷ []) kernel 2 refl refl (λ i lt. refl) (λ e. omega arith)
      (omega arith)

kernel-IsLive : IsLive kernel 2
kernel-IsLive = record {
  on = refl;
  current = refl;
  in_table = omega arith;
  pids = λ i lt. refl;
  idle = refl;
}

not_the_idle_task : kernel.current_task ≢ some 0
not_the_idle_task e = cc

exits_now : mark_exit kernel ≡ some (exited 2 kernel)
unfolding mark_exit
exits_now = refl

interrupts_live_example :
    (r' : Registers) × (k' : Kernel) × (n : ℕ) × (timer_handler frame (exited 2 kernel)
      ≡ some (r', k'))
    × (k'.current_task ≡ some n)
    × (n < 16)
    × ((k'.process_table n).state ≡ running)
interrupts_live_example =
    interrupts_live frame kernel (exited 2 kernel) 2 kernel-IsLive
      (step kernel (exited 2 kernel) start (exits (exited 2 kernel) not_the_idle_task exits_now))

-- The program asks for a character; the key `a` waits.
abbrev caller : Caller
caller = record {
  registers = record frame { eax = 2 };
  kernel = kernel;
  keyboard = record { buffer = λ i. b'a'; read_idx = 255; write_idx = 0; shift_pressed = false };
  vga = record { cursor_row = 0; cursor_col = 0; buffer = λ i. 0; ports = [] };
  current_frequency = 0;
  writes = [];
}

getchar_lem_example : IsGetchar caller (system_call 8 (λ a. 0) 0 frame caller)
getchar_lem_example =
    getchar_lem 8 (λ a. 0) 0 frame caller (record { read_in = omega arith; write_in = omega arith })
      refl
