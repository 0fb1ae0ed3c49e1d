-- ===== src/Shell/Tests.antt =====
-- Typing at the shell, and commands.
use capstone_myos.Prelude.{
  ◌-◌, ◌+◌, ◌*◌, if◌then◌else◌, ◌&&◌, ltb, leb, ℕ, ◌≡◌, refl, arith, true, false, some, List, [],
  ◌∷◌, window, get_or, update,
}
use capstone_myos.Shell.{Shell, inputs, process_command, skip_blanks, insert, move_right}
use capstone_myos.Vga.{Vga}
use capstone_myos.Process.{zero_task, running, zombie}
use capstone_myos.Strings.{Mem, toupper}
use capstone_myos.Keyboard.{Keyboard, arrow_left}
use capstone_myos.Fs.{
  find_file, fat_name, with_base, with_extension, take_name, take_extension, skip_dot, padded,
  search,
}
use capstone_myos.Exec.Program.{System, Files, failed, file_not_found, fail, exec_program}
use capstone_myos.Shell.Split.{IsLine}
use capstone_myos.Shell.Redraw.{redraw_line, row_cell, redraw_line_lem}
use capstone_myos.Shell.Commands.{kill, run, launched}
use capstone_myos.Shell.Reap.{IsKill, IsRun, kill_lem, run_lem}
use capstone_myos.Shell.Editor.{Holds, edit, move_back, delete, type_char, inputs_lem}
use capstone_myos.Shell.Editor

-- The line reads "ct", with the cursor on the t.
abbrev typed : Shell
typed = record {
  history_buffer = λ row i. 0;
  history_count = 0;
  history_index = 0;
  current_line = λ i. get_or (b'c' ∷ b't' ∷ []) i 0;
  cursor_pos = 1;
  line_len = 2;
}

inserted : window (insert b'a' typed).current_line 0 4 ≡ b'c' ∷ b'a' ∷ b't' ∷ 0 ∷ []
unfolding insert move_right
inserted = refl

-- Two blanks and the newline: the blanks stay in the line.
abbrev blanks : Shell
blanks = record typed { current_line = λ i. get_or (b' ' ∷ b' ' ∷ []) i 0; cursor_pos = 2 }

blanks_stay : (process_command blanks).line_len ≡ 2
unfolding process_command skip_blanks
blanks_stay = refl

-- The line "run  a b".
abbrev command : Mem
command i = get_or (b'r' ∷ b'u' ∷ b'n' ∷ b' ' ∷ b' ' ∷ b'a' ∷ b' ' ∷ b'b' ∷ []) i 0

abbrev words : List (List ℕ × ℕ)
words = ((b'r' ∷ b'u' ∷ b'n' ∷ [], 2) ∷ (b'a' ∷ [], 1) ∷ (b'b' ∷ [], 0) ∷ [])

three_words : IsLine command 0 words
three_words = (
  omega arith,
  omega arith,
  omega arith,
  (
    refl,
    (λ e. omega arith),
    (λ e. omega arith),
    (
      refl,
      (λ e. omega arith),
      (λ e. omega arith),
      (refl, (λ e. omega arith), (λ e. omega arith), tt),
    ),
  ),
  (refl, (refl, tt)),
  (
    omega arith,
    omega arith,
    omega arith,
    (refl, (λ e. omega arith), (λ e. omega arith), tt),
    (refl, tt),
    (omega arith, omega arith, (refl, (λ e. omega arith), (λ e. omega arith), tt), refl),
  ),
)

abbrev screen : Vga
screen = record { cursor_row = 3; cursor_col = 8; buffer = λ i. 7; ports = [] }

redraw_line_lem_example :
    let v = redraw_line typed screen in
    (v.buffer 246
      ≡ (if leb (3 * 80) 246 && ltb 246 (3 * 80 + 80) then row_cell typed (246 - 3 * 80) else 7))
    × (v.cursor_row ≡ 3)
    × (v.cursor_col ≡ 6 + 1)
redraw_line_lem_example = redraw_line_lem typed screen 246 (omega arith)

-- The shell is the task 1; no file is on the volume.
abbrev system : System
system = record {
  machine = record {
    mem = λ a. 0;
    pmm = record { bitmap = λ i. 0; base = 0; total_frames = 64; bitmap_size = 8 };
    cr3 = 0x10000;
    kernel_directory = 0x10000;
  };
  kernel = record {
    process_table = update (λ i. zero_task) 1 (record zero_task { pid = 1; state = running });
    current_task = some 1;
    esp0 = 0;
    tick = 0;
    multitasking_enabled = true;
  };
  interrupts = true;
}

abbrev files : Files
files = record {
  root_dir_entries = 224;
  root_directory = λ i. 0;
  volume = record {
    bpb = record {
      jump_code = [];
      oem_name = [];
      bytes_per_sector = 512;
      sectors_per_cluster = 1;
      reserved_sectors = 1;
      num_fats = 2;
      root_dir_entries = 224;
      total_sectors = 2880;
      media_type = 0xF0;
      sectors_per_fat = 9;
      sectors_per_track = 18;
      num_heads = 2;
      hidden_sectors = 0;
      total_sectors_large = 0;
    };
    fat = λ i. 0;
    data_area_start_sector = 33;
    sector = λ lba i. 0;
  };
  malloc = λ n. true;
  dma_buffer = λ i. 0;
  fresh = λ i. 0;
}

abbrev keys : Keyboard
keys = record { buffer = λ i. 0; read_idx = 0; write_idx = 3; shift_pressed = false }

not_there : (run 1 files ((b'a' ∷ []) ∷ []) keys system).0 ≡ some (failed file_not_found, system)
unfolding run launched exec_program fail find_file fat_name with_base with_extension take_name
    take_extension skip_dot padded search toupper
not_there = refl

run_lem_example : IsRun 1 ((b'a' ∷ []) ∷ []) system (failed file_not_found) system
run_lem_example =
    run_lem 1 files ((b'a' ∷ []) ∷ []) keys system system (failed file_not_found) 1 refl refl
      not_there

-- Entry 4 is a zombie without an address space.
abbrev mourning : System
mourning = record system {
  kernel = record system.kernel {
    process_table =
        update system.kernel.process_table 4
          (record zero_task { pid = 4; state = zombie; kernel_stack = 0x5000 });
  };
}

kill_lem_example : IsKill 4 mourning (kill (some 4) mourning screen)
kill_lem_example = kill_lem 4 mourning screen

-- A key, the left arrow, a backspace and another key on the line "ct".
abbrev pressed : List ℕ
pressed = b'a' ∷ arrow_left ∷ 8 ∷ b'b' ∷ []

text_after : Editor.typed pressed (b'c' ∷ [], b't' ∷ []) ≡ (b'b' ∷ [], b'a' ∷ b't' ∷ [])
unfolding Editor.typed edit move_back delete type_char
text_after = refl

inputs_lem_example : Holds (inputs pressed typed) (Editor.typed pressed (b'c' ∷ [], b't' ∷ []))
inputs_lem_example =
    inputs_lem pressed typed (b'c' ∷ [], b't' ∷ [])
      (
        (omega arith, omega arith, omega arith),
        (
          (omega arith, omega arith, omega arith),
          ((omega arith, omega arith, omega arith), ((omega arith, omega arith, omega arith), tt)),
        ),
      )
      ((omega arith, refl, refl), (omega arith, refl, refl), omega arith)
