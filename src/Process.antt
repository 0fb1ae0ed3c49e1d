-- ===== src/Process.antt =====
-- kernel/cpu/process.c (the process table and the scheduler), include/kernel/cpu/process.h,
-- include/kernel/exceptions.h and kernel/cpu/switch.asm (the switch itself).
-- `process_table` is a function from its indices; `current_task` is the index that the pointer has in
-- the table, `none` for NULL. All words are 32 bits.
pub mod Next
pub mod Schedule
pub mod Context
pub mod Fairness
mod Tests
use capstone_myos.Prelude.{
  ℕ, zero, suc, ◌+◌, ◌%◌, ◌^◌, Bool, true, false, not, Option, none, some, List, [], ◌∷◌, ◌==◌,
  if◌then◌else◌, update,
}

abbrev pub max_processes : ℕ
max_processes = 16

pub data TaskState : Type 0 where
  unused running sleeping waiting zombie : TaskState

pub record CpuState : Type 0 where
  pub edi : ℕ
  pub esi : ℕ
  pub ebp : ℕ
  pub ebx : ℕ
  pub edx : ℕ
  pub ecx : ℕ
  pub eax : ℕ
  pub eip : ℕ
  pub cs : ℕ
  pub eflags : ℕ
  pub esp : ℕ
  pub ss : ℕ
  pub cr3 : ℕ

pub record Task : Type 0 where
  pub pid : ℕ
  pub state : TaskState
  pub name : List ℕ
  pub user_stack : ℕ
  pub kernel_stack : ℕ
  pub page_directory : ℕ
  pub cpu_state : CpuState
  pub wakeup_time : ℕ

-- `registers_t`: the frame that an interrupt leaves on the stack.
pub record Registers : Type 0 where
  pub gs : ℕ
  pub fs : ℕ
  pub es : ℕ
  pub ds : ℕ
  pub edi : ℕ
  pub esi : ℕ
  pub ebp : ℕ
  pub esp : ℕ
  pub ebx : ℕ
  pub edx : ℕ
  pub ecx : ℕ
  pub eax : ℕ
  pub int_no : ℕ
  pub err_code : ℕ
  pub eip : ℕ
  pub cs : ℕ
  pub eflags : ℕ
  pub useresp : ℕ
  pub ss : ℕ

pub record Kernel : Type 0 where
  pub process_table : ℕ → Task
  pub current_task : Option ℕ
  pub esp0 : ℕ
  pub tick : ℕ
  pub multitasking_enabled : Bool

abbrev pub is_running : TaskState → Bool
is_running running = true
is_running _ = false

abbrev pub is_sleeping : TaskState → Bool
is_sleeping sleeping = true
is_sleeping _ = false

abbrev pub is_waiting : TaskState → Bool
is_waiting waiting = true
is_waiting _ = false

abbrev pub is_zombie : TaskState → Bool
is_zombie zombie = true
is_zombie _ = false

abbrev pub zero_cpu : CpuState
zero_cpu = record {
  edi = 0;
  esi = 0;
  ebp = 0;
  ebx = 0;
  edx = 0;
  ecx = 0;
  eax = 0;
  eip = 0;
  cs = 0;
  eflags = 0;
  esp = 0;
  ss = 0;
  cr3 = 0;
}

-- A zeroed entry: the state 0 is TASK_STATE_UNUSED.
abbrev pub zero_task : Task
zero_task = record {
  pid = 0;
  state = unused;
  name = [];
  user_stack = 0;
  kernel_stack = 0;
  page_directory = 0;
  cpu_state = zero_cpu;
  wakeup_time = 0;
}

abbrev pub kernel_code : ℕ
kernel_code = 0x08

abbrev pub kernel_data : ℕ
kernel_data = 0x10

abbrev pub user_code : ℕ
user_code = 0x1B

-- The entry that process_init makes for a kernel task. `stack` is what malloc returned and `entry`
-- the address of the task's function; `kernel_stack` stays NULL.
unfoldable pub kernel_task : ℕ → List ℕ → ℕ → ℕ → ℕ → Task
kernel_task pid name stack entry kernel_directory = record {
  pid = pid;
  state = running;
  name = name;
  user_stack = 0;
  kernel_stack = 0;
  page_directory = kernel_directory;
  cpu_state = record zero_cpu {
    eip = entry;
    cs = kernel_code;
    eflags = 0x202;
    esp = (stack + 4096) % 2 ^ 32;
    ss = kernel_data;
    cr3 = kernel_directory;
  };
  wakeup_time = 0;
}

-- process_init, with the two stacks, the two entry points and the kernel's directory.
unfoldable pub process_init : ℕ → ℕ → ℕ → ℕ → ℕ → Kernel → Kernel
process_init stack_a stack_b idle_task shell_task kernel_directory k = record k {
  process_table =
      update
        (update (λ i. zero_task) 0
          (kernel_task 0 (b'i' ∷ b'd' ∷ b'l' ∷ b'e' ∷ []) stack_a idle_task kernel_directory))
        1
        (kernel_task 1 (b's' ∷ b'h' ∷ b'e' ∷ b'l' ∷ b'l' ∷ []) stack_b shell_task kernel_directory);
  current_task = some 0;
}

-- The state that schedule saves for the task that was interrupted with the frame `r`.
unfoldable pub saved : Registers → Task → CpuState
saved r t = record {
  edi = r.edi;
  esi = r.esi;
  ebp = r.ebp;
  ebx = r.ebx;
  edx = r.edx;
  ecx = r.ecx;
  eax = r.eax;
  eip = r.eip;
  cs = r.cs;
  eflags = r.eflags;
  esp = if r.cs == user_code then r.useresp else r.esp;
  ss = if r.cs == user_code then r.ss else kernel_data;
  cr3 = t.page_directory;
}

unfoldable pub save : Registers → Task → Task
save r t = if not (is_zombie t.state) then record t { cpu_state = saved r t } else t

-- The search of the round robin, with `n` rounds left, after `next_pid`.
unfoldable pub find_next : ℕ → (ℕ → Task) → ℕ → Option ℕ
find_next zero table next_pid = none
find_next (suc n) table next_pid =
    let q = (next_pid + 1) % max_processes in
    elim (is_running (table q).state) [ true ↦ some q | false ↦ find_next n table q ]

-- Make entry `i` current, with its kernel stack in the TSS.
unfoldable pub switch_to : ℕ → Kernel → Kernel
switch_to i k = record k {
  current_task = some i;
  esp0 = ((k.process_table i).kernel_stack + 4096) % 2 ^ 32;
}

abbrev pub or_idle : Option ℕ → ℕ
or_idle none = 0
or_idle (some i) = i

-- schedule: the index of the task whose `cpu_state` is returned, and the new state; `none` if it
-- halts for ever because there is no current task.
unfoldable pub schedule : Registers → Kernel → Option (ℕ × Kernel)
schedule r k = elim k.current_task [
  | none ↦ none
  | some c ↦
      let table = update k.process_table c (save r (k.process_table c)) in
      let next = or_idle (find_next max_processes table (table c).pid) in
      some (next, switch_to next (record k { process_table = table }))
]

-- What task_switch in switch.asm writes over the interrupt frame; it leaves the other fields, `esp`
-- among them, and loads CR3 with the new task's directory. An IRET within the kernel pops neither `useresp`
-- nor `ss`: a task of the kernel goes on with the stack that is in use.
unfoldable pub restore : CpuState → Registers → Registers
restore c r = record r {
  edi = c.edi;
  esi = c.esi;
  ebp = c.ebp;
  ebx = c.ebx;
  edx = c.edx;
  ecx = c.ecx;
  eax = c.eax;
  eip = c.eip;
  cs = c.cs;
  eflags = c.eflags;
  useresp = c.esp;
  ss = c.ss;
}
