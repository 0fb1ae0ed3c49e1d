-- ===== src/Exec/Program.antt =====
-- kernel/cpu/process.c: exec_program.
use capstone_myos.Prelude.{
  ℕ, zero, suc, ◌+◌, Bool, true, false, Option, none, some, List, [], ◌∷◌, ◌==◌, ℤ, pos, negsuc,
  update,
}
use capstone_myos.Strings.{Mem}
use capstone_myos.Fs.{Volume, dir_entry, find_file, read_file}
use capstone_myos.Process.{Task, TaskState, unused, running, zero_cpu, Kernel, max_processes}
use capstone_myos.Pmm.{alloc_frame}
use capstone_myos.Paging.{Machine, M, pure, ◌>>=◌, ◌>>◌}
use capstone_myos.Paging.Directory.{clone_directory, free_directory, switch_directory}
use capstone_myos.Exec.{
  elf_magic, user_stack_top, user_stack_pages, elf_header, load_segments, map_stack, store_bytes,
}
use capstone_myos.Exec.Args.{push_args}

-- The places where exec_program returns -1.
pub data ExecError : Type 0 where
  missing_filename file_not_found no_file_memory not_elf no_address_space no_segment_memory
        no_stack_memory no_process :
      ExecError

pub data Outcome : Type 0 where
  failed : ExecError → Outcome
  started : ℕ → Outcome

-- What is returned.
unfoldable pub exec_result : Outcome → ℤ
exec_result (failed e) = negsuc 0
exec_result (started pid) = pos pid

-- Whether the interrupts are enabled stands beside the processes and the memory.
pub record System : Type 0 where
  pub machine : Machine
  pub kernel : Kernel
  pub interrupts : Bool

-- The file system: the root directory and its number of entries, the volume, and what the heap has
-- room for.
pub record Files : Type 0 where
  pub root_dir_entries : ℕ
  pub root_directory : Mem
  pub volume : Volume
  pub malloc : ℕ → Bool
  pub dma_buffer : Mem
  pub fresh : Mem

unfoldable pub current_directory : M ℕ
current_directory m = some (m.cr3, m)

-- The new address space is current while it is filled: its directory and its stack pointer.
pub data Loaded : Type 0 where
  refused : ExecError → Loaded
  loaded : ℕ → ℕ → Loaded

unfoldable pub with_stack : List (List ℕ) → ℕ → ℕ → M Loaded
with_stack args old_dir new_dir = do
  stacked ← map_stack user_stack_pages 0
  elim stacked [
    | false ↦ do switch_directory old_dir; free_directory new_dir; pure (refused no_stack_memory)
    | true ↦ do
      store_bytes (push_args args user_stack_top).writes
      switch_directory old_dir
      pure (loaded new_dir (push_args args user_stack_top).user_stack_ptr)
  ]

unfoldable pub with_segments : Mem → List (List ℕ) → ℕ → ℕ → M Loaded
with_segments file args old_dir new_dir = do
  done ← load_segments (elf_header file).phnum file (elf_header file).phoff
  elim done [
    | false ↦ do free_directory new_dir; pure (refused no_segment_memory)
    | true ↦ with_stack args old_dir new_dir
  ]

unfoldable pub load_program : Mem → List (List ℕ) → M Loaded
load_program file args = do
  new_dir ← clone_directory
  elim (new_dir == 0) [
    | true ↦ pure (refused no_address_space)
    | false ↦ do
      old_dir ← current_directory
      switch_directory new_dir
      with_segments file args old_dir new_dir
  ]

abbrev pub is_unused : TaskState → Bool
is_unused unused = true
is_unused _ = false

-- The search of the process table, `n` entries being left from `i` on.
unfoldable pub find_slot : ℕ → ℕ → (ℕ → Task) → Option ℕ
find_slot zero i table = none
find_slot (suc n) i table = elim (is_unused (table i).state) [
  | true ↦ some i
  | false ↦ find_slot n (i + 1) table
]

-- strncpy into a field of `n` bytes.
unfoldable pub name_field : ℕ → List ℕ → List ℕ
name_field zero name = []
name_field (suc n) [] = 0 ∷ name_field n []
name_field (suc n) (c ∷ name) = c ∷ name_field n name

-- The entry of the new process, in an entry that keeps its wake-up time.
unfoldable pub new_task : ℕ → List ℕ → ℕ → ℕ → ℕ → ℕ → Task → Task
new_task pid filename entry kernel_stack new_dir esp t = record t {
  pid = pid;
  state = running;
  name = name_field 32 filename;
  user_stack = user_stack_top;
  kernel_stack = kernel_stack;
  page_directory = new_dir;
  cpu_state = record zero_cpu {
    eip = entry;
    esp = esp;
    cs = 0x1B;
    ss = 0x23;
    eflags = 0x202;
    cr3 = new_dir;
  };
}

-- Interrupts are enabled before an error returns, and are left disabled for the caller otherwise.
unfoldable pub fail : System → Machine → ExecError → Option (Outcome × System)
fail s m e = some (failed e, record s { machine = m; interrupts = true })

unfoldable pub no_slot : System → Option (Unit {0} × Machine) → Option (Outcome × System)
no_slot s none = none
no_slot s (some (_, m)) = fail s m no_process

unfoldable pub start_process :
    List ℕ → Mem → ℕ → ℕ → System → Machine → Option ℕ → Option (Outcome × System)
start_process filename file new_dir esp s m none = no_slot s (free_directory new_dir m)
start_process filename file new_dir esp s m (some pid) =
    let (kernel_stack, pmm) = alloc_frame m.pmm in
    some (
      started pid,
      record {
        machine = record m { pmm = pmm };
        kernel = record s.kernel {
          process_table = update s.kernel.process_table pid (
              new_task pid filename (elf_header file).entry kernel_stack new_dir esp
                (s.kernel.process_table pid));
        };
        interrupts = false;
      },
    )

unfoldable pub with_program :
    List ℕ → Mem → System → Option (Loaded × Machine) → Option (Outcome × System)
with_program filename file s none = none
with_program filename file s (some (refused e, m)) = fail s m e
with_program filename file s (some (loaded new_dir esp, m)) =
    start_process filename file new_dir esp s m (find_slot max_processes 0 s.kernel.process_table)

-- From the file's buffer on, which is `none` within the argument if the heap had no room for it.
unfoldable pub with_file :
    List ℕ → List (List ℕ) → System → Option (Option Mem) → Option (Outcome × System)
with_file filename args s none = none
with_file filename args s (some none) = fail s s.machine no_file_memory
with_file filename args s (some (some file)) = elim ((elf_header file).magic == elf_magic) [
  | false ↦ fail s s.machine not_elf
  | true ↦ with_program filename file s (load_program file args s.machine)
]

-- exec_program; `none` is a fault, or a file whose chain of clusters is longer than `fuel`.
unfoldable pub exec_program : ℕ → Files → List (List ℕ) → System → Option (Outcome × System)
exec_program fuel fs [] s = fail s s.machine missing_filename
exec_program fuel fs (filename ∷ rest) s =
    elim (find_file fs.root_dir_entries fs.root_directory filename) [
      | none ↦ fail s s.machine file_not_found
      | some offset ↦ with_file filename (filename ∷ rest) s (
          read_file fuel fs.malloc fs.volume (dir_entry fs.root_directory offset) fs.dma_buffer
            fs.fresh)
    ]
