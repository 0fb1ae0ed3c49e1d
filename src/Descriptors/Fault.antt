-- ===== src/Descriptors/Fault.antt =====
-- kernel/cpu/exceptions.c: the report of the handler of all exceptions, on the screen of Vga; behind it
-- the kernel halts.
use capstone_myos.Prelude.{ℕ, zero, suc, ◌+◌, ◌%◌, ◌^◌, List, [], ◌∷◌, ◌==◌, if◌then◌else◌, bit_and}
use capstone_myos.Process.{Registers}
use capstone_myos.Vga.{Vga, clear_screen, print_string, print_hex}

-- A name, where its bit is set.
unfoldable pub print_flag : ℕ → ℕ → List ℕ → Vga → Vga
print_flag eflags bit name s = if bit_and eflags bit == 0 then s else print_string name s

unfoldable pub print_eflags : ℕ → Vga → Vga
print_eflags eflags s =
    let s1 =
      print_flag eflags 0x1 (b'C' ∷ b'F' ∷ b' ' ∷ []) (print_string (b' ' ∷ b'[' ∷ b' ' ∷ []) s) in
    let s2 =
      print_flag eflags 0x10 (b'A' ∷ b'F' ∷ b' ' ∷ [])
        (print_flag eflags 0x4 (b'P' ∷ b'F' ∷ b' ' ∷ []) s1) in
    let s3 =
      print_flag eflags 0x80 (b'S' ∷ b'F' ∷ b' ' ∷ [])
        (print_flag eflags 0x40 (b'Z' ∷ b'F' ∷ b' ' ∷ []) s2) in
    print_string (b']' ∷ []) (
      print_flag eflags 0x400 (b'D' ∷ b'F' ∷ b' ' ∷ [])
        (print_flag eflags 0x200 (b'I' ∷ b'F' ∷ b' ' ∷ []) s3))

-- The loop of dump_stack, with `n` words left from the address on.
unfoldable pub dump_words : ℕ → (ℕ → ℕ) → ℕ → Vga → Vga
dump_words zero stack p s = s
dump_words (suc n) stack p s =
    dump_words n stack ((p + 4) % 2 ^ 32) (
      print_string (10 ∷ [])
        (print_hex (stack p) (print_string (b':' ∷ b' ' ∷ []) (print_hex p s))))

unfoldable pub dump_stack : (ℕ → ℕ) → ℕ → Vga → Vga
dump_stack stack p s = dump_words 13 stack p (
    print_string
      (10 ∷ b'-' ∷ b'-' ∷ b' ' ∷ b'S' ∷ b'T' ∷ b'A' ∷ b'C' ∷ b'K' ∷ b' ' ∷ b'D' ∷ b'U' ∷ b'M' ∷ b'P'
        ∷ b' ' ∷ b'-' ∷ b'-' ∷ 10 ∷ [])
      s)

-- A text and a number.
unfoldable pub field : List ℕ → ℕ → Vga → Vga
field name value s = print_hex value (print_string name s)

-- fault_handler, with the words of memory and CR2.
unfoldable pub fault_report : (ℕ → ℕ) → ℕ → Registers → Vga → Vga
fault_report stack cr2 r s =
    let s1 =
      print_string
        (b'C' ∷ b'P' ∷ b'U' ∷ b' ' ∷ b'E' ∷ b'X' ∷ b'C' ∷ b'E' ∷ b'P' ∷ b'T' ∷ b'I' ∷ b'O' ∷ b'N'
          ∷ b' ' ∷ b'C' ∷ b'A' ∷ b'U' ∷ b'G' ∷ b'H' ∷ b'T' ∷ b'!' ∷ b' ' ∷ b'-' ∷ b'-' ∷ b' ' ∷ b'S'
          ∷ b'Y' ∷ b'S' ∷ b'T' ∷ b'E' ∷ b'M' ∷ b' ' ∷ b'H' ∷ b'A' ∷ b'L' ∷ b'T' ∷ b'E' ∷ b'D' ∷ 10
          ∷ [])
        (clear_screen s) in
    let s2 =
      field
        (b' ' ∷ b' ' ∷ b'E' ∷ b'r' ∷ b'r' ∷ b'o' ∷ b'r' ∷ b' ' ∷ b'C' ∷ b'o' ∷ b'd' ∷ b'e' ∷ b':'
          ∷ b' ' ∷ [])
        r.err_code
        (field
          (b'I' ∷ b'n' ∷ b't' ∷ b'e' ∷ b'r' ∷ b'r' ∷ b'u' ∷ b'p' ∷ b't' ∷ b' ' ∷ b'N' ∷ b'u' ∷ b'm'
            ∷ b'b' ∷ b'e' ∷ b'r' ∷ b':' ∷ b' ' ∷ [])
          r.int_no s1) in
    let s3 =
      print_string
        (10 ∷ b'-' ∷ b'-' ∷ b' ' ∷ b'R' ∷ b'E' ∷ b'G' ∷ b'I' ∷ b'S' ∷ b'T' ∷ b'E' ∷ b'R' ∷ b' '
          ∷ b'D' ∷ b'U' ∷ b'M' ∷ b'P' ∷ b' ' ∷ b'-' ∷ b'-' ∷ 10 ∷ [])
        (field
          (10 ∷ b'F' ∷ b'a' ∷ b'u' ∷ b'l' ∷ b't' ∷ b'i' ∷ b'n' ∷ b'g' ∷ b' ' ∷ b'A' ∷ b'd' ∷ b'd'
            ∷ b'r' ∷ b'e' ∷ b's' ∷ b's' ∷ b':' ∷ b' ' ∷ [])
          cr2 s2) in
    let s4 = field (b' ' ∷ b' ' ∷ b'E' ∷ b'C' ∷ b'X' ∷ b':' ∷ b' ' ∷ []) r.ecx (
      field (b' ' ∷ b' ' ∷ b'E' ∷ b'B' ∷ b'X' ∷ b':' ∷ b' ' ∷ []) r.ebx
        (field (b'E' ∷ b'A' ∷ b'X' ∷ b':' ∷ b' ' ∷ []) r.eax s3)) in
    let s5 = field (b' ' ∷ b' ' ∷ b'E' ∷ b'D' ∷ b'I' ∷ b':' ∷ b' ' ∷ []) r.edi (
      field (b' ' ∷ b' ' ∷ b'E' ∷ b'S' ∷ b'I' ∷ b':' ∷ b' ' ∷ []) r.esi
        (field (10 ∷ b'E' ∷ b'D' ∷ b'X' ∷ b':' ∷ b' ' ∷ []) r.edx s4)) in
    let s6 = field (b'C' ∷ b'S' ∷ b':' ∷ b' ' ∷ b' ' ∷ []) r.cs (
      print_string
        (10 ∷ b'-' ∷ b'-' ∷ b' ' ∷ b'S' ∷ b'E' ∷ b'G' ∷ b'M' ∷ b'E' ∷ b'N' ∷ b'T' ∷ b' ' ∷ b'D'
          ∷ b'U' ∷ b'M' ∷ b'P' ∷ b' ' ∷ b'-' ∷ b'-' ∷ 10 ∷ [])
        s5) in
    let s7 =
      field (b' ' ∷ b' ' ∷ b'S' ∷ b'S' ∷ b':' ∷ b' ' ∷ b' ' ∷ []) r.ss
        (field (b' ' ∷ b' ' ∷ b'D' ∷ b'S' ∷ b':' ∷ b' ' ∷ b' ' ∷ []) r.ds s6) in
    let s8 = field (b'E' ∷ b'I' ∷ b'P' ∷ b':' ∷ b' ' ∷ []) r.eip (
      print_string
        (10 ∷ b'-' ∷ b'-' ∷ b' ' ∷ b'C' ∷ b'O' ∷ b'N' ∷ b'T' ∷ b'R' ∷ b'O' ∷ b'L' ∷ b' ' ∷ b'D'
          ∷ b'U' ∷ b'M' ∷ b'P' ∷ b' ' ∷ b'-' ∷ b'-' ∷ 10 ∷ [])
        s7) in
    dump_stack stack r.useresp (
      print_eflags r.eflags (
        field (b' ' ∷ b' ' ∷ b'E' ∷ b'F' ∷ b'L' ∷ b'A' ∷ b'G' ∷ b'S' ∷ b':' ∷ b' ' ∷ []) r.eflags
          s8))
