-- ===== src/Debug.antt =====
-- kernel/debug.c: the bytes that go to the debug port 0xE9, in order.
mod Tests
use capstone_myos.Prelude.{
  ℕ, zero, suc, ◌+◌, ◌-◌, ◌*◌, ◌/◌, ◌%◌, ◌^◌, List, [], ◌∷◌, ◌++◌, ◌==◌, ltb, if◌then◌else◌,
  bit_and,
}
use capstone_myos.Process.{Registers, CpuState}
use capstone_myos.Strings.{Mem}

-- The digit of a nibble.
unfoldable pub nibble_char : ℕ → ℕ
nibble_char nibble = if ltb 9 nibble then nibble - 10 + b'A' else nibble + b'0'

-- The loop of qemu_debug_hex, with `n` digits left.
unfoldable pub debug_nibbles : ℕ → ℕ → List ℕ
debug_nibbles zero value = []
debug_nibbles (suc n) value =
    nibble_char (bit_and (value / 2 ^ (4 * n)) 0xF) ∷ debug_nibbles n value

unfoldable pub debug_hex : ℕ → List ℕ
debug_hex value = (b'0' ∷ b'x' ∷ []) ++ debug_nibbles 8 value

-- The loop of qemu_debug_memdump, with `n` bytes left from byte `i` on.
unfoldable pub dump_bytes : ℕ → Mem → ℕ → ℕ → List ℕ
dump_bytes zero m addr i = []
dump_bytes (suc n) m addr i =
    (nibble_char (bit_and (m (addr + i) / 2 ^ 4) 0xF)
      ∷ nibble_char (bit_and (m (addr + i)) 0xF)
      ∷ b' '
      ∷ [])
    ++ (if (i + 1) % 16 == 0 then 10 ∷ [] else [])
    ++ dump_bytes n m addr (i + 1)

unfoldable pub debug_memdump : Mem → ℕ → ℕ → List ℕ
debug_memdump m addr size =
    (b'D' ∷ b'u' ∷ b'm' ∷ b'p' ∷ b'i' ∷ b'n' ∷ b'g' ∷ b' ' ∷ b'm' ∷ b'e' ∷ b'm' ∷ b'o' ∷ b'r' ∷ b'y'
      ∷ b' ' ∷ b'a' ∷ b't' ∷ b' ' ∷ [])
    ++ debug_hex addr
    ++ (b' ' ∷ b'f' ∷ b'o' ∷ b'r' ∷ b' ' ∷ [])
    ++ debug_hex size
    ++ (b' ' ∷ b'b' ∷ b'y' ∷ b't' ∷ b'e' ∷ b's' ∷ b'.' ∷ b'.' ∷ b'.' ∷ 10 ∷ [])
    ++ dump_bytes size m addr 0
    ++ (10 ∷ [])

unfoldable pub debug_regs : Registers → List ℕ
debug_regs r =
    (b'-' ∷ b'-' ∷ b' ' ∷ b'R' ∷ b'E' ∷ b'G' ∷ b'I' ∷ b'S' ∷ b'T' ∷ b'E' ∷ b'R' ∷ b' ' ∷ b'D' ∷ b'U'
      ∷ b'M' ∷ b'P' ∷ b' ' ∷ b'-' ∷ b'-' ∷ 10 ∷ [])
    ++ (b'E' ∷ b'A' ∷ b'X' ∷ b':' ∷ b' ' ∷ [])
    ++ debug_hex r.eax
    ++ (b' ' ∷ b' ' ∷ b'E' ∷ b'B' ∷ b'X' ∷ b':' ∷ b' ' ∷ [])
    ++ debug_hex r.ebx
    ++ (b' ' ∷ b' ' ∷ b'E' ∷ b'C' ∷ b'X' ∷ b':' ∷ b' ' ∷ [])
    ++ debug_hex r.ecx
    ++ (10 ∷ b'E' ∷ b'D' ∷ b'X' ∷ b':' ∷ b' ' ∷ [])
    ++ debug_hex r.edx
    ++ (b' ' ∷ b' ' ∷ b'E' ∷ b'S' ∷ b'I' ∷ b':' ∷ b' ' ∷ [])
    ++ debug_hex r.esi
    ++ (b' ' ∷ b' ' ∷ b'E' ∷ b'D' ∷ b'I' ∷ b':' ∷ b' ' ∷ [])
    ++ debug_hex r.edi
    ++ (10 ∷ b'-' ∷ b'-' ∷ b' ' ∷ b'S' ∷ b'E' ∷ b'G' ∷ b'M' ∷ b'E' ∷ b'N' ∷ b'T' ∷ b' ' ∷ b'D'
        ∷ b'U' ∷ b'M' ∷ b'P' ∷ b' ' ∷ b'-' ∷ b'-' ∷ 10 ∷ [])
    ++ (b'C' ∷ b'S' ∷ b':' ∷ b' ' ∷ b' ' ∷ [])
    ++ debug_hex r.cs
    ++ (b' ' ∷ b' ' ∷ b'D' ∷ b'S' ∷ b':' ∷ b' ' ∷ b' ' ∷ [])
    ++ debug_hex r.ds
    ++ (b' ' ∷ b' ' ∷ b'S' ∷ b'S' ∷ b':' ∷ b' ' ∷ b' ' ∷ [])
    ++ debug_hex r.ss
    ++ (10 ∷ b'-' ∷ b'-' ∷ b' ' ∷ b'C' ∷ b'O' ∷ b'N' ∷ b'T' ∷ b'R' ∷ b'O' ∷ b'L' ∷ b' ' ∷ b'D'
        ∷ b'U' ∷ b'M' ∷ b'P' ∷ b' ' ∷ b'-' ∷ b'-' ∷ 10 ∷ [])
    ++ (b'E' ∷ b'I' ∷ b'P' ∷ b':' ∷ b' ' ∷ [])
    ++ debug_hex r.eip
    ++ (b' ' ∷ b' ' ∷ b'E' ∷ b'F' ∷ b'L' ∷ b'A' ∷ b'G' ∷ b'S' ∷ b':' ∷ b' ' ∷ [])
    ++ debug_hex r.eflags
    ++ (10 ∷ b'-' ∷ b'-' ∷ b' ' ∷ b'S' ∷ b'T' ∷ b'A' ∷ b'C' ∷ b'K' ∷ b' ' ∷ b'D' ∷ b'U' ∷ b'M'
        ∷ b'P' ∷ b' ' ∷ b'-' ∷ b'-' ∷ 10 ∷ [])
    ++ (b'E' ∷ b'S' ∷ b'P' ∷ b':' ∷ b' ' ∷ [])
    ++ debug_hex r.esp
    ++ (b' ' ∷ b' ' ∷ b'E' ∷ b'B' ∷ b'P' ∷ b':' ∷ b' ' ∷ [])
    ++ debug_hex r.ebp
    ++ (b' ' ∷ b' ' ∷ b'U' ∷ b'E' ∷ b'S' ∷ b'P' ∷ b':' ∷ b' ' ∷ [])
    ++ debug_hex r.useresp
    ++ (10 ∷ [])

unfoldable pub debug_cpu_state : CpuState → List ℕ
debug_cpu_state s =
    (b'-' ∷ b'-' ∷ b' ' ∷ b'C' ∷ b'P' ∷ b'U' ∷ b' ' ∷ b'S' ∷ b'T' ∷ b'A' ∷ b'T' ∷ b'E' ∷ b' ' ∷ b'D'
      ∷ b'U' ∷ b'M' ∷ b'P' ∷ b' ' ∷ b'-' ∷ b'-' ∷ 10 ∷ [])
    ++ (b'E' ∷ b'A' ∷ b'X' ∷ b':' ∷ b' ' ∷ [])
    ++ debug_hex s.eax
    ++ (b' ' ∷ b' ' ∷ b'E' ∷ b'B' ∷ b'X' ∷ b':' ∷ b' ' ∷ [])
    ++ debug_hex s.ebx
    ++ (b' ' ∷ b' ' ∷ b'E' ∷ b'C' ∷ b'X' ∷ b':' ∷ b' ' ∷ [])
    ++ debug_hex s.ecx
    ++ (10 ∷ b'E' ∷ b'D' ∷ b'X' ∷ b':' ∷ b' ' ∷ [])
    ++ debug_hex s.edx
    ++ (b' ' ∷ b' ' ∷ b'E' ∷ b'S' ∷ b'I' ∷ b':' ∷ b' ' ∷ [])
    ++ debug_hex s.esi
    ++ (b' ' ∷ b' ' ∷ b'E' ∷ b'D' ∷ b'I' ∷ b':' ∷ b' ' ∷ [])
    ++ debug_hex s.edi
    ++ (10 ∷ b'-' ∷ b'-' ∷ b' ' ∷ b'S' ∷ b'E' ∷ b'G' ∷ b'M' ∷ b'E' ∷ b'N' ∷ b'T' ∷ b' ' ∷ b'D'
        ∷ b'U' ∷ b'M' ∷ b'P' ∷ b' ' ∷ b'-' ∷ b'-' ∷ 10 ∷ [])
    ++ (b'C' ∷ b'S' ∷ b':' ∷ b' ' ∷ b' ' ∷ [])
    ++ debug_hex s.cs
    ++ (b' ' ∷ b' ' ∷ b'S' ∷ b'S' ∷ b':' ∷ b' ' ∷ b' ' ∷ [])
    ++ debug_hex s.ss
    ++ (10 ∷ b'-' ∷ b'-' ∷ b' ' ∷ b'C' ∷ b'O' ∷ b'N' ∷ b'T' ∷ b'R' ∷ b'O' ∷ b'L' ∷ b' ' ∷ b'D'
        ∷ b'U' ∷ b'M' ∷ b'P' ∷ b' ' ∷ b'-' ∷ b'-' ∷ 10 ∷ [])
    ++ (b'E' ∷ b'I' ∷ b'P' ∷ b':' ∷ b' ' ∷ [])
    ++ debug_hex s.eip
    ++ (b' ' ∷ b' ' ∷ b'E' ∷ b'F' ∷ b'L' ∷ b'A' ∷ b'G' ∷ b'S' ∷ b':' ∷ b' ' ∷ [])
    ++ debug_hex s.eflags
    ++ (10 ∷ b'-' ∷ b'-' ∷ b' ' ∷ b'S' ∷ b'T' ∷ b'A' ∷ b'C' ∷ b'K' ∷ b' ' ∷ b'D' ∷ b'U' ∷ b'M'
        ∷ b'P' ∷ b' ' ∷ b'-' ∷ b'-' ∷ 10 ∷ [])
    ++ (b'E' ∷ b'S' ∷ b'P' ∷ b':' ∷ b' ' ∷ [])
    ++ debug_hex s.esp
    ++ (b' ' ∷ b' ' ∷ b'E' ∷ b'B' ∷ b'P' ∷ b':' ∷ b' ' ∷ [])
    ++ debug_hex s.ebp
    ++ (10 ∷ b'-' ∷ b'-' ∷ b' ' ∷ b'P' ∷ b'A' ∷ b'G' ∷ b'I' ∷ b'N' ∷ b'G' ∷ b' ' ∷ b'D' ∷ b'U'
        ∷ b'M' ∷ b'P' ∷ b' ' ∷ b'-' ∷ b'-' ∷ 10 ∷ [])
    ++ (b'C' ∷ b'R' ∷ b'3' ∷ b':' ∷ b' ' ∷ [])
    ++ debug_hex s.cr3
    ++ (10 ∷ [])

-- The digits of `value`, before the list `printed`; `n` bounds their number.
unfoldable pub dec_digits : ℕ → ℕ → List ℕ → List ℕ
dec_digits zero value printed = printed
dec_digits (suc n) value printed =
    if value == 0 then printed else dec_digits n (value / 10) ((value % 10 + b'0') ∷ printed)

-- A 32-bit number has at most ten digits.
unfoldable pub debug_dec : ℕ → List ℕ
debug_dec value = if value == 0 then b'0' ∷ [] else dec_digits 10 value []
