-- ===== src/Shell/CommandTests.antt =====
-- The line "ps" at a prompt, and the line "run  a b".
use capstone_myos.Prelude.{
  ◌+◌, ◌≡◌, ◌≢◌, refl, arith, true, false, ◌⊎◌, none, some, [], ◌∷◌, get_or, update, All,
}
use capstone_myos.Strings.{Mem}
use capstone_myos.Process.{zero_task, running}
use capstone_myos.Exec.Program.{System}
use capstone_myos.Sound.{Queue}
use capstone_myos.Shell.Words.{split_words, max_args}
use capstone_myos.Shell.Split.{IsLine}
use capstone_myos.Shell.Effects.{Console, World, unknown_command}
use capstone_myos.Shell.Dispatch.{command_line, command_name, commands, words_of}
use capstone_myos.Process.{Registers, Kernel, zombie}
use capstone_myos.Syscall.{sys_exit}
use capstone_myos.Shell.Commands.{kill}
use capstone_myos.Shell.Lifecycle.{IsCleared, exit_then_kill}
use capstone_myos.Shell.Naming.{command_line_lem}

-- "run a".
abbrev command : Mem
command i = get_or (b'r' ∷ b'u' ∷ b'n' ∷ b' ' ∷ b'a' ∷ []) i 0

argument : IsLine command 0 ((b'r' ∷ b'u' ∷ b'n' ∷ [], 1) ∷ (b'a' ∷ [], 0) ∷ [])
argument = (
  omega arith,
  omega arith,
  omega arith,
  (
    refl,
    (λ e. omega arith),
    (λ e. omega arith),
    (
      refl,
      (λ e. omega arith),
      (λ e. omega arith),
      (refl, (λ e. omega arith), (λ e. omega arith), tt),
    ),
  ),
  (refl, tt),
  (omega arith, omega arith, (refl, (λ e. omega arith), (λ e. omega arith), tt), refl),
)

command_line_lem_example :
    let (line, argv) = split_words max_args command 0 in
    let (found, args) = command_line (words_of line argv) in
    (args ≡ (b'a' ∷ []) ∷ [])
    × (((found ≡ unknown_command) × All (λ d. b'r' ∷ b'u' ∷ b'n' ∷ [] ≢ command_name d) commands)
        ⊎ (b'r' ∷ b'u' ∷ b'n' ∷ [] ≡ command_name found))
command_line_lem_example =
    command_line_lem command 0 1 (b'r' ∷ b'u' ∷ b'n' ∷ []) ((b'a' ∷ [], 0) ∷ []) (omega arith)
      argument

-- The shell is the task 1.
abbrev system : System
system = record {
  machine = record {
    mem = λ a. 0;
    pmm = record { bitmap = λ i. 0; base = 0; total_frames = 64; bitmap_size = 8 };
    cr3 = 0x10000;
    kernel_directory = 0x10000;
  };
  kernel = record {
    process_table = update (λ i. zero_task) 1 (record zero_task { pid = 1; state = running });
    current_task = some 1;
    esp0 = 0;
    tick = 0;
    multitasking_enabled = true;
  };
  interrupts = true;
}

abbrev queue : Queue
queue = record {
  desc_table = λ i. record { addr = 0; len = 0; flags = 0; next = 0 };
  avail_idx = 0;
  avail_ring = λ i. 0;
  size = 64;
  last_used_idx = 0;
  next_avail_idx = 0;
}

abbrev console : Console
console = record {
  system = system;
  heap = record {
    heap_top = 0x31000;
    heap_end = 0x32000;
    free_list = [];
    sizes = λ i. 0;
    pmm = system.machine.pmm;
    mapped = [];
  };
  vga = record { cursor_row = 3; cursor_col = 8; buffer = λ i. 7; ports = [] };
  keyboard = record { buffer = λ i. 0; read_idx = 0; write_idx = 3; shift_pressed = false };
  sound = record { control = queue; playback = queue; dma_buffer = λ i. 0; events = [] };
  writes = [];
  feature_select = 0;
}

abbrev world : World
world = record {
  fuel = 64;
  files = record {
    root_dir_entries = 224;
    root_directory = λ i. 0;
    volume = record {
      bpb = record {
        jump_code = [];
        oem_name = [];
        bytes_per_sector = 512;
        sectors_per_cluster = 1;
        reserved_sectors = 1;
        num_fats = 2;
        root_dir_entries = 224;
        total_sectors = 2880;
        media_type = 0xF0;
        sectors_per_fat = 9;
        sectors_per_track = 18;
        num_heads = 2;
        hidden_sectors = 0;
        total_sectors_large = 0;
      };
      fat = λ i. 0;
      data_area_start_sector = 33;
      sector = λ lba i. 0;
    };
    malloc = λ n. true;
    dma_buffer = λ i. 0;
    fresh = λ i. 0;
  };
  used = λ c n. c + 1;
  device = λ c m. m;
  dma = 0x9000;
  padding = 0;
  probe = none;
}

-- The program in entry 2 exits.
abbrev exiting : Kernel
exiting = record system.kernel {
  process_table = λ i. record zero_task { pid = i; state = running };
  current_task = some 2;
}

abbrev frame : Registers
frame = record {
  gs = 16;
  fs = 16;
  es = 16;
  ds = 16;
  edi = 1;
  esi = 2;
  ebp = 3;
  esp = 0x200F00;
  ebx = 5;
  edx = 6;
  ecx = 7;
  eax = 3;
  int_no = 32;
  err_code = 0;
  eip = 0x100140;
  cs = 8;
  eflags = 0x202;
  useresp = 0;
  ss = 0;
}

exit_then_kill_example :
    (frame' : Registers) × (k' : Kernel) × (sys_exit frame exiting ≡ some (frame', k'))
    × ((k'.process_table 2).state ≡ zombie)
    × IsCleared 2
        (record system { kernel = k' })
        (kill (some 2) (record system { kernel = k' }) console.vga)
exit_then_kill_example =
    exit_then_kill frame system exiting console.vga 2 refl refl (λ i lt. refl) (omega arith)
      (omega arith)
