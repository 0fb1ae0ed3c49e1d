-- ===== src/Syscall/Calls.antt =====
-- kernel/syscall.c: what the system calls do, from the frame of interrupt 0x80. `memory` is the caller's
-- memory, byte by byte.
use capstone_myos.Prelude.{
  ℕ, zero, suc, ◌+◌, ◌≡◌, refl, true, false, Option, none, some, List, [], ◌∷◌, ◌++◌, ◌==◌,
}
use capstone_myos.Strings.{Mem, sign_extend}
use capstone_myos.Process.{Registers, Kernel}
use capstone_myos.Timer.{sleep, play_sound}
use capstone_myos.Keyboard.{Keyboard, read_char}
use capstone_myos.Keyboard.Ring.{contents, IsValid, Reads, read_char-Reads}
use capstone_myos.Vga.{Vga, print_char, print_string, print_hex}
use capstone_myos.Syscall.{
  Handler, sys_test_print, sys_getchar, sys_exit_call, sys_play_sound, sys_sleep, syscall_install,
  syscall_handler, sys_exit,
}

-- What the calls reach. `writes` are the bytes written to the speaker's ports, and `control` what port 0x61
-- reads.
pub record Caller : Type 0 where
  pub registers : Registers
  pub kernel : Kernel
  pub keyboard : Keyboard
  pub vga : Vga
  pub current_frequency : ℕ
  pub writes : List (ℕ × ℕ)

-- The string at an address, of fewer than `n` characters; `none` if its end is not among them.
unfoldable pub read_string : ℕ → Mem → ℕ → Option (List ℕ)
read_string zero memory p = none
read_string (suc n) memory p = elim (memory p == 0) [
  | true ↦ some []
  | false ↦ elim (read_string n memory (p + 1)) [ none ↦ none | some s ↦ some (memory p ∷ s) ]
]

unfoldable pub test_print : ℕ → Mem → Caller → Option Caller
test_print fuel memory c = elim (read_string fuel memory c.registers.ebx) [
  | none ↦ none
  | some message ↦ some (record c { vga = print_char 10 (print_string message c.vga) })
]

-- `none` while the keyboard has no character: the call waits.
unfoldable pub getchar : Caller → Option Caller
getchar c = elim (read_char c.keyboard) [
  | none ↦ none
  | some (ch, k) ↦
      some (record c { registers = record c.registers { eax = sign_extend ch }; keyboard = k })
]

-- The processor goes on with another task; `frame` is that of the interrupt which sys_exit raises.
unfoldable pub exit_call : Registers → Caller → Option Caller
exit_call frame c = elim (sys_exit frame c.kernel) [
  | none ↦ none
  | some (r, k) ↦ some (record c { registers = r; kernel = k })
]

unfoldable pub sound_call : ℕ → Caller → Option Caller
sound_call control c =
    let s = play_sound control c.current_frequency c.registers.ebx in
    some (record c { current_frequency = s.current_frequency; writes = c.writes ++ s.writes })

unfoldable pub sleep_call : Caller → Option Caller
sleep_call c = elim (sleep c.registers.ebx c.kernel) [
  | none ↦ none
  | some k ↦ some (record c { kernel = k })
]

unfoldable pub handle : ℕ → Mem → ℕ → Registers → Handler → Caller → Option Caller
handle fuel memory control frame sys_test_print c = test_print fuel memory c
handle fuel memory control frame sys_getchar c = getchar c
handle fuel memory control frame sys_exit_call c = exit_call frame c
handle fuel memory control frame sys_play_sound c = sound_call control c
handle fuel memory control frame sys_sleep c = sleep_call c

-- The message for a number without a call.
unfoldable pub invalid_number : Caller → Caller
invalid_number c = record c {
  vga = print_char 10 (
      print_hex c.registers.eax (
        print_string
          (b'I' ∷ b'n' ∷ b'v' ∷ b'a' ∷ b'l' ∷ b'i' ∷ b'd' ∷ b' ' ∷ b's' ∷ b'y' ∷ b's' ∷ b'c' ∷ b'a'
            ∷ b'l' ∷ b'l' ∷ b' ' ∷ b'n' ∷ b'u' ∷ b'm' ∷ b'b' ∷ b'e' ∷ b'r' ∷ b':' ∷ b' ' ∷ [])
          c.vga));
}

unfoldable pub system_call : ℕ → Mem → ℕ → Registers → Caller → Option Caller
system_call fuel memory control frame c = elim (syscall_handler syscall_install c.registers.eax) [
  | none ↦ some (invalid_number c)
  | some h ↦ handle fuel memory control frame h c
]

-- The call 2: the oldest character that waits goes to EAX, as a signed number, and leaves the keyboard;
-- nothing else changes. Without a character the call waits.
abbrev pub IsGetchar : Caller → Option Caller → Type 0
IsGetchar c none = contents c.keyboard ≡ []
IsGetchar c (some c') =
    (ch : ℕ) × (contents c.keyboard ≡ ch ∷ contents c'.keyboard)
    × IsValid c'.keyboard
    × (c' ≡ record c {
      registers = record c.registers { eax = sign_extend ch };
      keyboard = c'.keyboard;
    })

IsGetchar-from :
    (c : Caller) (r : Option (ℕ × Keyboard))
    → Reads c.keyboard r
    → IsGetchar c (
        let o : Option Caller = elim r [
          | none ↦ none
          | some (ch, k) ↦
              some
                (record c { registers = record c.registers { eax = sign_extend ch }; keyboard = k })
        ] in
        o)
IsGetchar-from c none h = h
IsGetchar-from c (some (ch, k)) (e, v, s) = (ch, e, v, refl)

-- Interrupt 0x80 with 2 in EAX, while the keyboard's indices are in range, waits if no character waits, and
-- otherwise returns the oldest one, sign-extended, in EAX: the character has left the keyboard, and no other
-- register, no process, not the screen and not the speaker have changed.
pub getchar_lem :
    (fuel : ℕ) (memory : Mem) (control : ℕ) (frame : Registers) (c : Caller)
    → IsValid c.keyboard
    → c.registers.eax ≡ 2
    → IsGetchar c (system_call fuel memory control frame c)
unfolding system_call handle getchar syscall_handler syscall_install
getchar_lem fuel memory control frame c v two =
    rw two (IsGetchar-from c (read_char c.keyboard) (read_char-Reads c.keyboard v))
