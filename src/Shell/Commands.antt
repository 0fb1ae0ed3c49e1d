-- ===== src/Shell/Commands.antt =====
-- kernel/shell.c (process_command): the commands that print, and those on processes. Text goes to the
-- screen of Vga.
use capstone_myos.Prelude.{
  ℕ, zero, suc, ◌+◌, ◌/◌, Bool, true, false, not, ◌&&◌, ◌||◌, Option, none, some, List, [], ◌∷◌,
  ◌==◌, ltb, if◌then◌else◌, update, bit_and,
}
use capstone_myos.Strings.{Mem}
use capstone_myos.Fs.{DirEntry, dir_entry, find_file, read_file}
use capstone_myos.Heap.{Heap, malloc, free}
use capstone_myos.Keyboard.{Keyboard, flush}
use capstone_myos.Pmm.{free_frame}
use capstone_myos.Process.{
  Task, TaskState, unused, running, sleeping, waiting, zombie, Kernel, zero_task, max_processes,
  is_zombie,
}
use capstone_myos.Paging.Directory.{free_directory}
use capstone_myos.Vga.{Vga, print_char, print_string, print_hex, print_dec}
use capstone_myos.Exec.Program.{System, Files, Outcome, failed, started, is_unused, exec_program}

unfoldable pub help_lines : List (List ℕ)
help_lines =
    (b'A' ∷ b'v' ∷ b'a' ∷ b'i' ∷ b'l' ∷ b'a' ∷ b'b' ∷ b'l' ∷ b'e' ∷ b' ' ∷ b'c' ∷ b'o' ∷ b'm' ∷ b'm'
      ∷ b'a' ∷ b'n' ∷ b'd' ∷ b's' ∷ b':' ∷ 10 ∷ [])
    ∷ (b' ' ∷ b' ' ∷ b'h' ∷ b'e' ∷ b'l' ∷ b'p' ∷ b' ' ∷ b'-' ∷ b' ' ∷ b'D' ∷ b'i' ∷ b's' ∷ b'p'
        ∷ b'l' ∷ b'a' ∷ b'y' ∷ b' ' ∷ b't' ∷ b'h' ∷ b'i' ∷ b's' ∷ b' ' ∷ b'm' ∷ b'e' ∷ b's' ∷ b's'
        ∷ b'a' ∷ b'g' ∷ b'e' ∷ 10 ∷ [])
    ∷ (b' ' ∷ b' ' ∷ b'c' ∷ b'l' ∷ b's' ∷ b' ' ∷ b' ' ∷ b'-' ∷ b' ' ∷ b'C' ∷ b'l' ∷ b'e' ∷ b'a'
        ∷ b'r' ∷ b' ' ∷ b't' ∷ b'h' ∷ b'e' ∷ b' ' ∷ b's' ∷ b'c' ∷ b'r' ∷ b'e' ∷ b'e' ∷ b'n' ∷ 10
        ∷ [])
    ∷ (b' ' ∷ b' ' ∷ b'u' ∷ b'p' ∷ b't' ∷ b'i' ∷ b'm' ∷ b'e' ∷ b' ' ∷ b' ' ∷ b'-' ∷ b' ' ∷ b'S'
        ∷ b'h' ∷ b'o' ∷ b'w' ∷ b's' ∷ b' ' ∷ b'O' ∷ b'S' ∷ b' ' ∷ b'r' ∷ b'u' ∷ b'n' ∷ b'n' ∷ b'i'
        ∷ b'n' ∷ b'g' ∷ b' ' ∷ b't' ∷ b'i' ∷ b'm' ∷ b'e' ∷ 10 ∷ [])
    ∷ (b' ' ∷ b' ' ∷ b'r' ∷ b'e' ∷ b'b' ∷ b'o' ∷ b'o' ∷ b't' ∷ b' ' ∷ b' ' ∷ b'-' ∷ b' ' ∷ b'R'
        ∷ b'e' ∷ b's' ∷ b'e' ∷ b't' ∷ b' ' ∷ b't' ∷ b'h' ∷ b'e' ∷ b' ' ∷ b'O' ∷ b'S' ∷ 10 ∷ [])
    ∷ (b' ' ∷ b' ' ∷ b'm' ∷ b'e' ∷ b'm' ∷ b't' ∷ b'e' ∷ b's' ∷ b't' ∷ b' ' ∷ b' ' ∷ b'-' ∷ b' '
        ∷ b'A' ∷ b'l' ∷ b'l' ∷ b'o' ∷ b'c' ∷ b'a' ∷ b't' ∷ b'e' ∷ b',' ∷ b' ' ∷ b'f' ∷ b'r' ∷ b'e'
        ∷ b'e' ∷ b' ' ∷ b't' ∷ b'h' ∷ b'e' ∷ b'n' ∷ b' ' ∷ b'r' ∷ b'e' ∷ b'c' ∷ b'y' ∷ b'c' ∷ b'l'
        ∷ b'e' ∷ b' ' ∷ b'm' ∷ b'e' ∷ b'm' ∷ b'o' ∷ b'r' ∷ b'y' ∷ 10 ∷ [])
    ∷ (b' ' ∷ b' ' ∷ b'c' ∷ b'a' ∷ b't' ∷ b' ' ∷ b' ' ∷ b'-' ∷ b' ' ∷ b'R' ∷ b'e' ∷ b'a' ∷ b'd'
        ∷ b's' ∷ b' ' ∷ b'.' ∷ b't' ∷ b'x' ∷ b't' ∷ b' ' ∷ b'f' ∷ b'i' ∷ b'l' ∷ b'e' ∷ b' ' ∷ b'c'
        ∷ b'o' ∷ b'n' ∷ b't' ∷ b'e' ∷ b'n' ∷ b't' ∷ b's' ∷ b' ' ∷ b'(' ∷ b'n' ∷ b'e' ∷ b'e' ∷ b'd'
        ∷ b's' ∷ b' ' ∷ b'a' ∷ b'r' ∷ b'g' ∷ b')' ∷ 10 ∷ [])
    ∷ (b' ' ∷ b' ' ∷ b'd' ∷ b'i' ∷ b's' ∷ b'k' ∷ b't' ∷ b'e' ∷ b's' ∷ b't' ∷ b' ' ∷ b' ' ∷ b'-'
        ∷ b' ' ∷ b'R' ∷ b'e' ∷ b'a' ∷ b'd' ∷ b' ' ∷ b'L' ∷ b'B' ∷ b'A' ∷ b'1' ∷ b'9' ∷ b' ' ∷ b'('
        ∷ b'r' ∷ b'o' ∷ b'o' ∷ b't' ∷ b' ' ∷ b'd' ∷ b'i' ∷ b'r' ∷ b')' ∷ 10 ∷ [])
    ∷ (b' ' ∷ b' ' ∷ b's' ∷ b'l' ∷ b'e' ∷ b'e' ∷ b'p' ∷ b' ' ∷ b' ' ∷ b'-' ∷ b' ' ∷ b'S' ∷ b't'
        ∷ b'o' ∷ b'p' ∷ b's' ∷ b' ' ∷ b'O' ∷ b'S' ∷ b' ' ∷ b'f' ∷ b'o' ∷ b'r' ∷ b' ' ∷ b'X' ∷ b' '
        ∷ b't' ∷ b'i' ∷ b'c' ∷ b'k' ∷ b's' ∷ 10 ∷ [])
    ∷ (b' ' ∷ b' ' ∷ b'l' ∷ b's' ∷ b' ' ∷ b' ' ∷ b'-' ∷ b' ' ∷ b'L' ∷ b'i' ∷ b's' ∷ b't' ∷ b' '
        ∷ b'f' ∷ b'i' ∷ b'l' ∷ b'e' ∷ b's' ∷ b' ' ∷ b'i' ∷ b'n' ∷ b' ' ∷ b'r' ∷ b'o' ∷ b'o' ∷ b't'
        ∷ b' ' ∷ b'd' ∷ b'i' ∷ b'r' ∷ 10 ∷ [])
    ∷ (b' ' ∷ b' ' ∷ b'l' ∷ b's' ∷ b' ' ∷ b' ' ∷ b'-' ∷ b' ' ∷ b'L' ∷ b'i' ∷ b's' ∷ b't' ∷ b' '
        ∷ b'f' ∷ b'i' ∷ b'l' ∷ b'e' ∷ b's' ∷ b' ' ∷ b'i' ∷ b'n' ∷ b' ' ∷ b'r' ∷ b'o' ∷ b'o' ∷ b't'
        ∷ b' ' ∷ b'd' ∷ b'i' ∷ b'r' ∷ 10 ∷ [])
    ∷ (b' ' ∷ b' ' ∷ b'd' ∷ b'u' ∷ b'm' ∷ b'p' ∷ b' ' ∷ b' ' ∷ b'-' ∷ b' ' ∷ b'D' ∷ b'u' ∷ b'm'
        ∷ b'p' ∷ b' ' ∷ b't' ∷ b'h' ∷ b'e' ∷ b' ' ∷ b'f' ∷ b'i' ∷ b'r' ∷ b's' ∷ b't' ∷ b' ' ∷ b'1'
        ∷ b'2' ∷ b'8' ∷ b'b' ∷ b' ' ∷ b'o' ∷ b'f' ∷ b' ' ∷ b'r' ∷ b'o' ∷ b'o' ∷ b't' ∷ b' ' ∷ b'd'
        ∷ b'i' ∷ b'r' ∷ b' ' ∷ b'b' ∷ b'u' ∷ b'f' ∷ b'f' ∷ b'e' ∷ b'r' ∷ 10 ∷ [])
    ∷ (b' ' ∷ b' ' ∷ b'r' ∷ b'u' ∷ b'n' ∷ b' ' ∷ b' ' ∷ b'-' ∷ b' ' ∷ b'R' ∷ b'u' ∷ b'n' ∷ b' '
        ∷ b'u' ∷ b's' ∷ b'e' ∷ b'r' ∷ b' ' ∷ b'm' ∷ b'o' ∷ b'd' ∷ b'e' ∷ b' ' ∷ b'p' ∷ b'r' ∷ b'o'
        ∷ b'g' ∷ b'r' ∷ b'a' ∷ b'm' ∷ 10 ∷ [])
    ∷ (b' ' ∷ b' ' ∷ b'p' ∷ b's' ∷ b' ' ∷ b' ' ∷ b'-' ∷ b' ' ∷ b'S' ∷ b'h' ∷ b'o' ∷ b'w' ∷ b' '
        ∷ b'p' ∷ b'r' ∷ b'o' ∷ b'c' ∷ b'e' ∷ b's' ∷ b's' ∷ b' ' ∷ b'l' ∷ b'i' ∷ b's' ∷ b't' ∷ 10
        ∷ [])
    ∷ (b' ' ∷ b' ' ∷ b'k' ∷ b'i' ∷ b'l' ∷ b'l' ∷ b' ' ∷ b'-' ∷ b' ' ∷ b'R' ∷ b'e' ∷ b'a' ∷ b'p'
        ∷ b' ' ∷ b'a' ∷ b' ' ∷ b'z' ∷ b'o' ∷ b'm' ∷ b'b' ∷ b'i' ∷ b'e' ∷ b' ' ∷ b'p' ∷ b'r' ∷ b'o'
        ∷ b'c' ∷ b'e' ∷ b's' ∷ b's' ∷ b' ' ∷ b'b' ∷ b'y' ∷ b' ' ∷ b'P' ∷ b'I' ∷ b'D' ∷ 10 ∷ [])
    ∷ (b' ' ∷ b' ' ∷ b'v' ∷ b's' ∷ b'b' ∷ b'e' ∷ b'e' ∷ b'p' ∷ b' ' ∷ b'-' ∷ b' ' ∷ b'b' ∷ b'e'
        ∷ b'e' ∷ b'p' ∷ b' ' ∷ b'u' ∷ b's' ∷ b'i' ∷ b'n' ∷ b'g' ∷ b' ' ∷ b'V' ∷ b'i' ∷ b'r' ∷ b't'
        ∷ b'u' ∷ b'a' ∷ b'l' ∷ b' ' ∷ b'I' ∷ b'/' ∷ b'O' ∷ b' ' ∷ b'd' ∷ b'r' ∷ b'i' ∷ b'v' ∷ b'e'
        ∷ b'r' ∷ 10 ∷ [])
    ∷ (b' ' ∷ b' ' ∷ b'v' ∷ b's' ∷ b'p' ∷ b'r' ∷ b'o' ∷ b'b' ∷ b'e' ∷ b' ' ∷ b'-' ∷ b' ' ∷ b'd'
        ∷ b'e' ∷ b'b' ∷ b'u' ∷ b'g' ∷ b' ' ∷ b'V' ∷ b'i' ∷ b'r' ∷ b't' ∷ b'u' ∷ b'a' ∷ b'l' ∷ b' '
        ∷ b'I' ∷ b'/' ∷ b'O' ∷ b' ' ∷ b'c' ∷ b'r' ∷ b'i' ∷ b't' ∷ b'i' ∷ b'c' ∷ b'a' ∷ b'l' ∷ b' '
        ∷ b'v' ∷ b'a' ∷ b'l' ∷ b'u' ∷ b'e' ∷ b's' ∷ 10 ∷ [])
    ∷ (10 ∷ [])
    ∷ []

unfoldable pub print_lines : List (List ℕ) → Vga → Vga
print_lines [] s = s
print_lines (line ∷ rest) s = print_lines rest (print_string line s)

unfoldable pub help : Vga → Vga
help s = print_lines help_lines s

unfoldable pub uptime : ℕ → Vga → Vga
uptime ticks s = print_hex (ticks / 100) (
    print_string
      (b'U' ∷ b'p' ∷ b't' ∷ b'i' ∷ b'm' ∷ b'e' ∷ b' ' ∷ b'(' ∷ b's' ∷ b'e' ∷ b'c' ∷ b'o' ∷ b'n'
        ∷ b'd' ∷ b's' ∷ b')' ∷ b':' ∷ b' ' ∷ [])
      s)

-- memtest: the three blocks; `none` if the heap grows for more than `fuel` rounds.
unfoldable pub test_blocks : ℕ → Heap → Option (ℕ × ℕ × ℕ × Heap)
test_blocks fuel h = elim (malloc fuel 16 h) [
  | none ↦ none
  | some (block_a, h1) ↦ elim (malloc fuel 1024 h1) [
    | none ↦ none
    | some (block_b, h2) ↦ elim (malloc fuel 8 (free block_a h2)) [
      | none ↦ none
      | some (block_c, h3) ↦ some (block_a, block_b, block_c, h3)
    ]
  ]
]

unfoldable pub memtest : ℕ → Heap → Vga → Option (Heap × Vga)
memtest fuel h s = elim (test_blocks fuel h) [
  | none ↦ none
  | some (a, b, c, h') ↦
      let s1 =
        print_string
          (b'A' ∷ b'l' ∷ b'l' ∷ b'o' ∷ b'c' ∷ b'a' ∷ b't' ∷ b'i' ∷ b'n' ∷ b'g' ∷ b' ' ∷ b'b' ∷ b'l'
            ∷ b'o' ∷ b'c' ∷ b'k' ∷ b' ' ∷ b'A' ∷ b' ' ∷ b'(' ∷ b'1' ∷ b'6' ∷ b' ' ∷ b'b' ∷ b'y'
            ∷ b't' ∷ b'e' ∷ b's' ∷ b')' ∷ b'.' ∷ b'.' ∷ b'.' ∷ [])
          s in
      let s2 = print_hex a (
        print_string
          (10 ∷ b' ' ∷ b' ' ∷ b'A' ∷ b' ' ∷ b'i' ∷ b's' ∷ b' ' ∷ b'a' ∷ b't' ∷ b':' ∷ b' ' ∷ [])
          s1) in
      let s3 =
        print_string
          (10 ∷ b'A' ∷ b'l' ∷ b'l' ∷ b'o' ∷ b'c' ∷ b'a' ∷ b't' ∷ b'i' ∷ b'n' ∷ b'g' ∷ b' ' ∷ b'b'
            ∷ b'l' ∷ b'o' ∷ b'c' ∷ b'k' ∷ b' ' ∷ b'B' ∷ b' ' ∷ b'(' ∷ b'1' ∷ b'0' ∷ b'2' ∷ b'4'
            ∷ b' ' ∷ b'b' ∷ b'y' ∷ b't' ∷ b'e' ∷ b's' ∷ b')' ∷ b'.' ∷ b'.' ∷ b'.' ∷ [])
          s2 in
      let s4 = print_hex b (
        print_string
          (10 ∷ b' ' ∷ b' ' ∷ b'B' ∷ b' ' ∷ b'i' ∷ b's' ∷ b' ' ∷ b'a' ∷ b't' ∷ b':' ∷ b' ' ∷ [])
          s3) in
      let s5 =
        print_string
          (10 ∷ b'F' ∷ b'r' ∷ b'e' ∷ b'e' ∷ b'i' ∷ b'n' ∷ b'g' ∷ b' ' ∷ b'b' ∷ b'l' ∷ b'o' ∷ b'c'
            ∷ b'k' ∷ b' ' ∷ b'A' ∷ b'.' ∷ b'.' ∷ b'.' ∷ [])
          s4 in
      let s6 =
        print_string
          (10 ∷ b'A' ∷ b'l' ∷ b'l' ∷ b'o' ∷ b'c' ∷ b'a' ∷ b't' ∷ b'i' ∷ b'n' ∷ b'g' ∷ b' ' ∷ b'b'
            ∷ b'l' ∷ b'o' ∷ b'c' ∷ b'k' ∷ b' ' ∷ b'C' ∷ b' ' ∷ b'(' ∷ b'8' ∷ b' ' ∷ b'b' ∷ b'y'
            ∷ b't' ∷ b'e' ∷ b's' ∷ b')' ∷ b'.' ∷ b'.' ∷ b'.' ∷ [])
          s5 in
      let s7 = print_hex c (
        print_string
          (10 ∷ b' ' ∷ b' ' ∷ b'C' ∷ b' ' ∷ b'i' ∷ b's' ∷ b' ' ∷ b'a' ∷ b't' ∷ b':' ∷ b' ' ∷ [])
          s6) in
      some (
        h',
        print_string
            (10 ∷ b'(' ∷ b'N' ∷ b'o' ∷ b't' ∷ b'e' ∷ b':' ∷ b' ' ∷ b'C' ∷ b' ' ∷ b's' ∷ b'h' ∷ b'o'
              ∷ b'u' ∷ b'l' ∷ b'd' ∷ b' ' ∷ b'h' ∷ b'a' ∷ b'v' ∷ b'e' ∷ b' ' ∷ b't' ∷ b'h' ∷ b'e'
              ∷ b' ' ∷ b's' ∷ b'a' ∷ b'm' ∷ b'e' ∷ b' ' ∷ b'a' ∷ b'd' ∷ b'd' ∷ b'r' ∷ b'e' ∷ b's'
              ∷ b's' ∷ b' ' ∷ b'a' ∷ b's' ∷ b' ' ∷ b'A' ∷ b')' ∷ [])
            s7,
      )
]

-- The bytes of a buffer, `n` of them from `i` on.
unfoldable pub print_bytes : ℕ → Mem → ℕ → Vga → Vga
print_bytes zero buffer i s = s
print_bytes (suc n) buffer i s = print_bytes n buffer (i + 1) (print_char (buffer i) s)

-- cat, with the argument if there is one; `none` is a chain of clusters longer than `fuel`.
unfoldable pub cat : ℕ → Files → Option (List ℕ) → Vga → Option Vga
cat fuel fs none s = some (
    print_string
      (b'U' ∷ b's' ∷ b'a' ∷ b'g' ∷ b'e' ∷ b':' ∷ b' ' ∷ b'c' ∷ b'a' ∷ b't' ∷ b' ' ∷ b'<' ∷ b'f'
        ∷ b'i' ∷ b'l' ∷ b'e' ∷ b'n' ∷ b'a' ∷ b'm' ∷ b'e' ∷ b'>' ∷ [])
      s)
cat fuel fs (some name) s = elim (find_file fs.root_dir_entries fs.root_directory name) [
  | none ↦ some (
      print_string name (
        print_string
          (b'F' ∷ b'i' ∷ b'l' ∷ b'e' ∷ b' ' ∷ b'n' ∷ b'o' ∷ b't' ∷ b' ' ∷ b'f' ∷ b'o' ∷ b'u' ∷ b'n'
            ∷ b'd' ∷ b':' ∷ b' ' ∷ [])
          s))
  | some offset ↦
      let entry = dir_entry fs.root_directory offset in
      elim (read_file fuel fs.malloc fs.volume entry fs.dma_buffer fs.fresh) [
        | none ↦ none
        | some none ↦ some s
        | some (some file) ↦ some (print_bytes entry.file_size file 0 s)
      ]
]

unfoldable pub print_entry : DirEntry → Vga → Vga
print_entry entry s =
    let s1 = print_string (b' ' ∷ b' ' ∷ []) (print_string entry.name s) in
    let s2 =
      print_hex entry.attributes
        (print_string (b' ' ∷ b' ' ∷ b'0' ∷ b'x' ∷ []) (print_string entry.extension s1)) in
    print_string (10 ∷ []) (print_hex entry.file_size (print_string (b' ' ∷ b' ' ∷ []) s2))

-- Whether ls leaves an entry out.
unfoldable pub hidden : DirEntry → ℕ → Bool
hidden entry first =
    (first == 0xE5)
    || (bit_and entry.attributes 0x0F == 0x0F)
    || not (bit_and entry.attributes 0x08 == 0)

-- The loop of ls over `n` entries from `offset` on.
unfoldable pub list_entries : ℕ → Mem → ℕ → Vga → Vga
list_entries zero root offset s = s
list_entries (suc n) root offset s =
    let entry = dir_entry root offset in
    elim (root offset == 0) [
      | true ↦ s
      | false ↦
          list_entries n root (offset + 32)
            (if hidden entry (root offset) then s else print_entry entry s)
    ]

unfoldable pub ls : ℕ → Mem → Vga → Vga
ls entries root s = list_entries entries root 0 (
    print_string
      (b'-' ∷ b'-' ∷ b'-' ∷ b'-' ∷ b'-' ∷ b'-' ∷ b'-' ∷ b'-' ∷ b'-' ∷ b'-' ∷ b'-' ∷ b'-' ∷ b'-'
        ∷ b'-' ∷ b'-' ∷ b'-' ∷ b'-' ∷ b'-' ∷ b'-' ∷ b'-' ∷ b'-' ∷ b'-' ∷ b'-' ∷ b'-' ∷ b'-' ∷ b'-'
        ∷ b'-' ∷ 10 ∷ [])
      (print_string
        (b'N' ∷ b'a' ∷ b'm' ∷ b'e' ∷ b' ' ∷ b' ' ∷ b' ' ∷ b' ' ∷ b' ' ∷ b' ' ∷ b'E' ∷ b'x' ∷ b't'
          ∷ b' ' ∷ b' ' ∷ b'A' ∷ b't' ∷ b't' ∷ b'r' ∷ b' ' ∷ b' ' ∷ b'S' ∷ b'i' ∷ b'z' ∷ b'e' ∷ 10
          ∷ [])
        s))

-- The loop of dump and of disktest, `n` bytes from `i` on.
unfoldable pub dump_hex : ℕ → Mem → ℕ → Vga → Vga
dump_hex zero buffer i s = s
dump_hex (suc n) buffer i s = dump_hex n buffer (i + 1) (print_char b' ' (print_hex (buffer i) s))

unfoldable pub dump : Mem → Vga → Vga
dump root s = dump_hex 128 root 0 (
    print_string
      (10 ∷ b'R' ∷ b'o' ∷ b'o' ∷ b't' ∷ b' ' ∷ b'D' ∷ b'i' ∷ b'r' ∷ b'e' ∷ b'c' ∷ b't' ∷ b'o' ∷ b'r'
        ∷ b'y' ∷ b' ' ∷ b'B' ∷ b'u' ∷ b'f' ∷ b'f' ∷ b'e' ∷ b'r' ∷ b' ' ∷ b'D' ∷ b'u' ∷ b'm' ∷ b'p'
        ∷ b':' ∷ 10 ∷ [])
      s)

unfoldable pub state_text : TaskState → List ℕ
state_text unused =
    (b'U' ∷ b'n' ∷ b'k' ∷ b'n' ∷ b'o' ∷ b'w' ∷ b'n' ∷ b' ' ∷ b' ' ∷ b' ' ∷ b' ' ∷ b'|' ∷ b' ' ∷ [])
state_text running =
    (b'R' ∷ b'u' ∷ b'n' ∷ b'n' ∷ b'i' ∷ b'n' ∷ b'g' ∷ b' ' ∷ b' ' ∷ b' ' ∷ b' ' ∷ b'|' ∷ b' ' ∷ [])
state_text sleeping =
    (b'U' ∷ b'n' ∷ b'k' ∷ b'n' ∷ b'o' ∷ b'w' ∷ b'n' ∷ b' ' ∷ b' ' ∷ b' ' ∷ b' ' ∷ b'|' ∷ b' ' ∷ [])
state_text waiting =
    (b'U' ∷ b'n' ∷ b'k' ∷ b'n' ∷ b'o' ∷ b'w' ∷ b'n' ∷ b' ' ∷ b' ' ∷ b' ' ∷ b' ' ∷ b'|' ∷ b' ' ∷ [])
state_text zombie =
    (b'Z' ∷ b'o' ∷ b'm' ∷ b'b' ∷ b'i' ∷ b'e' ∷ b' ' ∷ b' ' ∷ b' ' ∷ b' ' ∷ b' ' ∷ b'|' ∷ b' ' ∷ [])

unfoldable pub until_nul : List ℕ → List ℕ
until_nul [] = []
until_nul (c ∷ cs) = if c == 0 then [] else c ∷ until_nul cs

-- A row of ps. A name that fills its field has no NUL; the row then ends with the field.
unfoldable pub print_task : Task → Vga → Vga
print_task t s =
    let s1 = print_string (b' ' ∷ b' ' ∷ b' ' ∷ b' ' ∷ b'|' ∷ b' ' ∷ []) (print_dec t.pid s) in
    print_string (10 ∷ []) (print_string (until_nul t.name) (print_string (state_text t.state) s1))

-- The loop of ps, `n` entries from `i` on.
unfoldable pub print_tasks : ℕ → ℕ → (ℕ → Task) → Vga → Vga
print_tasks zero i table s = s
print_tasks (suc n) i table s =
    print_tasks n (i + 1) table (if is_unused (table i).state then s else print_task (table i) s)

unfoldable pub ps : Kernel → Vga → Vga
ps k s = print_tasks max_processes 0 k.process_table (
    print_string
      (b'-' ∷ b'-' ∷ b'-' ∷ b'-' ∷ b'-' ∷ b'-' ∷ b'-' ∷ b'-' ∷ b'-' ∷ b'-' ∷ b'-' ∷ b'-' ∷ b'-'
        ∷ b'-' ∷ b'-' ∷ b'-' ∷ b'-' ∷ b'-' ∷ b'-' ∷ b'-' ∷ b'-' ∷ b'-' ∷ b'-' ∷ b'-' ∷ b'-' ∷ b'-'
        ∷ b'-' ∷ b'-' ∷ b'-' ∷ b'-' ∷ b'-' ∷ b'-' ∷ b'-' ∷ b'-' ∷ 10 ∷ [])
      (print_string
        (b'P' ∷ b'I' ∷ b'D' ∷ b' ' ∷ b' ' ∷ b'|' ∷ b' ' ∷ b'S' ∷ b't' ∷ b'a' ∷ b't' ∷ b'e' ∷ b' '
          ∷ b' ' ∷ b' ' ∷ b' ' ∷ b' ' ∷ b' ' ∷ b'|' ∷ b' ' ∷ b'N' ∷ b'a' ∷ b'm' ∷ b'e' ∷ 10 ∷ [])
        s))

-- The part of kill that frees what a zombie holds and clears its entry; `none` is a page fault.
unfoldable pub reap : ℕ → System → Option System
reap pid s =
    let task = s.kernel.process_table pid in
    elim (free_directory task.page_directory s.machine) [
      | none ↦ none
      | some (_, m) ↦ some (record s {
        machine = record m { pmm = free_frame m.pmm task.kernel_stack };
        kernel = record s.kernel { process_table = update s.kernel.process_table pid zero_task };
      })
    ]

unfoldable pub reaped : ℕ → Vga → Option System → Option (System × Vga)
reaped pid v none = none
reaped pid v (some s) = some (
  record s { interrupts = true },
  print_dec pid (
      print_string
        (b'R' ∷ b'e' ∷ b'a' ∷ b'p' ∷ b'e' ∷ b'd' ∷ b' ' ∷ b'z' ∷ b'o' ∷ b'm' ∷ b'b' ∷ b'i' ∷ b'e'
          ∷ b' ' ∷ b'P' ∷ b'I' ∷ b'D' ∷ b' ' ∷ [])
        v),
)

-- kill, with the 32-bit pattern of the int that atoi returns. Every way out prints a message, and print_char
-- enables the interrupts.
unfoldable pub kill : Option ℕ → System → Vga → Option (System × Vga)
kill none s v = some (
  record s { interrupts = true },
  print_string
      (b'U' ∷ b's' ∷ b'a' ∷ b'g' ∷ b'e' ∷ b':' ∷ b' ' ∷ b'k' ∷ b'i' ∷ b'l' ∷ b'l' ∷ b' ' ∷ b'<'
        ∷ b'p' ∷ b'i' ∷ b'd' ∷ b'>' ∷ [])
      v,
)
kill (some pid) s v = elim (ltb 0 pid && ltb pid max_processes) [
  | false ↦ some (
    record s { interrupts = true },
    print_string
        (b'I' ∷ b'n' ∷ b'v' ∷ b'a' ∷ b'l' ∷ b'i' ∷ b'd' ∷ b' ' ∷ b'P' ∷ b'I' ∷ b'D' ∷ b'.' ∷ []) v,
  )
  | true ↦ elim (is_zombie (s.kernel.process_table pid).state) [
    | false ↦ some (
      record s { interrupts = true },
      print_string
          (b'C' ∷ b'a' ∷ b'n' ∷ b'n' ∷ b'o' ∷ b't' ∷ b' ' ∷ b'k' ∷ b'i' ∷ b'l' ∷ b'l' ∷ b' ' ∷ b'n'
            ∷ b'o' ∷ b'n' ∷ b'-' ∷ b'z' ∷ b'o' ∷ b'm' ∷ b'b' ∷ b'i' ∷ b'e' ∷ b' ' ∷ b'p' ∷ b'r'
            ∷ b'o' ∷ b'c' ∷ b'e' ∷ b's' ∷ b's' ∷ b'.' ∷ [])
          v,
    )
    | true ↦ reaped pid v (reap pid s)
  ]
]

-- The state of the shell's own task while a program runs; `none` where it would write through NULL.
unfoldable pub set_waiting : Kernel → Option Kernel
set_waiting k = elim k.current_task [
  | none ↦ none
  | some c ↦ some (record k {
    process_table = update k.process_table c (record (k.process_table c) { state = waiting });
  })
]

unfoldable pub with_shell : ℕ → System → Option Kernel → Option (Outcome × System)
with_shell pid s none = none
with_shell pid s (some k) = some (started pid, record s { kernel = k })

-- Behind exec_program: the system at the interrupt 0x20, or with interrupts enabled again.
unfoldable pub launched : Option (Outcome × System) → Option (Outcome × System)
launched none = none
launched (some (failed e, s)) = some (failed e, record s { interrupts = true })
launched (some (started pid, s)) = with_shell pid s (set_waiting s.kernel)

-- run, with the words behind it.
unfoldable pub run :
    ℕ → Files → List (List ℕ) → Keyboard → System → Option (Outcome × System) × Keyboard
run fuel fs args kb s = (launched (exec_program fuel fs args s), flush kb)
