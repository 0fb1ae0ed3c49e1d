-- ===== src/Exec/Tests.antt =====
-- A program on a small volume, started when no frame is left; and the stack of two arguments.
use capstone_myos.Prelude.{
  ℕ, ◌+◌, ◌*◌, ◌-◌, ◌%◌, ◌≡◌, ◌≤◌, refl, arith, true, some, none, List, [], ◌∷◌, length, get_or,
  ◌==◌, ltb, if◌then◌else◌,
}
use capstone_myos.Strings.{Mem, toupper}
use capstone_myos.Fs.{
  Volume, get_fat_entry, matches, dir_entry, same, fat_name, padded, with_base, with_extension,
  take_name, take_extension, skip_dot, search, find_file, read_file, read_clusters, chunk,
  copy_from, load_sector, lba_of,
}
use capstone_myos.Pmm.{alloc_frame, scan, find_bit}
use capstone_myos.Process.{zero_task}
use capstone_myos.Paging.{new_frame}
use capstone_myos.Paging.Directory.{clone_directory}
use capstone_myos.Exec.{elf_header, word, user_stack_top}
use capstone_myos.Exec.Args.{push_args, push_strings, write}
use capstone_myos.Exec.Layout.{size, IsArgv, push_args_lem}
use capstone_myos.Exec.Program.{
  Files, System, failed, no_address_space, fail, with_file, with_program, load_program,
  exec_program,
}
use capstone_myos.Exec.Outcomes.{IsResult, exec_program_lem}

abbrev arguments : List (List ℕ)
arguments = (b'a' ∷ b'b' ∷ []) ∷ (b'c' ∷ []) ∷ []

stack : (push_args arguments user_stack_top).user_stack_ptr ≡ user_stack_top - 28
unfolding push_args push_strings
stack = refl

push_args_lem_example :
    let s = push_args arguments user_stack_top in
    let m = write s.writes (λ i. 0xFF) in
    let esp = s.user_stack_ptr in
    (esp % 4 ≡ 0)
    × (esp + size arguments + 4 * length arguments + 12 ≤ user_stack_top)
    × (word m esp ≡ length arguments)
    × (word m (esp + 4) ≡ esp + 8)
    × IsArgv m (esp + 8) (esp + 8) arguments
push_args_lem_example =
    push_args_lem arguments user_stack_top (λ i. 0xFF)
      (((λ e. omega arith), ((λ e. omega arith), tt)), (((λ e. omega arith), tt), tt)) (omega arith)
      (omega arith)

-- The file A, of 4 bytes in cluster 2, which are the magic number.
abbrev directory : Mem
directory i =
    if i == 0
    then b'A'
    else if i == 11
    then 0
    else if i == 26
    then 2
    else if i == 28
    then 4
    else if ltb i 11
    then b' '
    else 0

abbrev volume : Volume
volume = record {
  bpb = record {
    jump_code = [];
    oem_name = [];
    bytes_per_sector = 512;
    sectors_per_cluster = 1;
    reserved_sectors = 1;
    num_fats = 2;
    root_dir_entries = 224;
    total_sectors = 2880;
    media_type = 0xF0;
    sectors_per_fat = 9;
    sectors_per_track = 18;
    num_heads = 2;
    hidden_sectors = 0;
    total_sectors_large = 0;
  };
  fat = λ i. 0xFF;
  data_area_start_sector = 33;
  sector = λ lba i. get_or (0x7F ∷ 0x45 ∷ 0x4C ∷ 0x46 ∷ []) i 0;
}

abbrev files : Files
files = record {
  root_dir_entries = 224;
  root_directory = directory;
  volume = volume;
  malloc = λ n. true;
  dma_buffer = λ i. 0;
  fresh = λ i. 0;
}

abbrev full : System
full = record {
  machine = record {
    mem = λ a. 0;
    pmm = record { bitmap = λ i. 0xFFFFFFFF; base = 0; total_frames = 64; bitmap_size = 8 };
    cr3 = 0x10000;
    kernel_directory = 0x10000;
  };
  kernel = record {
    process_table = λ i. zero_task;
    current_task = none;
    esp0 = 0;
    tick = 0;
    multitasking_enabled = true;
  };
  interrupts = true;
}

abbrev command : List (List ℕ)
command = (b'a' ∷ []) ∷ []

out_of_frames : exec_program 3 files command full ≡ some (failed no_address_space, full)
unfolding exec_program with_file with_program load_program fail clone_directory new_frame
    alloc_frame scan find_bit elf_header find_file fat_name with_base with_extension take_name
    take_extension skip_dot padded search matches same dir_entry toupper read_file read_clusters
    chunk copy_from load_sector lba_of get_fat_entry
out_of_frames = refl

exec_program_lem_example : IsResult 3 files command full (exec_program 3 files command full)
exec_program_lem_example = exec_program_lem 3 files command full
