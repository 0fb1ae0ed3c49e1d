-- ===== src/Vga.antt =====
-- kernel/drivers/vga.c: the 80 x 25 text screen. `buffer` is the memory from 0xB8000 on, in 16-bit
-- cells; a write past cell 1999 reaches what stands behind the screen, as in C. `ports` is the trace
-- of `port_byte_out` calls, the newest first. A C string is the list of its bytes.
-- The interrupt flag, which print_char clears and then sets, is part of the state of its callers in Shell.
pub mod Screen
pub mod Boot
pub mod Text
pub mod Digits
mod Tests
use capstone_myos.Prelude.{
  ℕ, zero, suc, ◌+◌, ◌-◌, ◌*◌, ◌/◌, ◌%◌, ◌^◌, bit_and, bit_or, List, [], ◌∷◌, ltb, leb, ◌==◌,
  if◌then◌else◌, update,
}
use capstone_myos.Strings.{sign_extend}

abbrev pub width : ℕ
width = 80

abbrev pub height : ℕ
height = 25

pub record Vga : Type 0 where
  pub cursor_row : ℕ
  pub cursor_col : ℕ
  pub buffer : ℕ → ℕ
  pub ports : List (ℕ × ℕ)

-- `c | (color << 8)` stored in an unsigned short; `c` is a signed char.
unfoldable pub cell : ℕ → ℕ → ℕ
cell c color = bit_or (sign_extend c) (color * 256) % 65536

abbrev pub blank : ℕ
blank = 0x0F20

abbrev pub cursor_writes : ℕ → List (ℕ × ℕ) → List (ℕ × ℕ)
cursor_writes position older =
    (0x3D5, bit_and position 0xFF % 256)
    ∷ (0x3D4, 0x0F)
    ∷ (0x3D5, position / 256 % 256)
    ∷ (0x3D4, 0x0E)
    ∷ older

unfoldable pub update_cursor : ℕ → ℕ → Vga → Vga
update_cursor row col s = record s { ports = cursor_writes ((row * 80 + col) % 65536) s.ports }

-- `n` cells from `i` on become blank.
unfoldable pub fill_blank : ℕ → ℕ → (ℕ → ℕ) → ℕ → ℕ
fill_blank zero i b = b
fill_blank (suc n) i b = fill_blank n (i + 1) (update b i blank)

-- `n` cells from `i` on take the cell 80 places further, in ascending order.
unfoldable pub shift_up : ℕ → ℕ → (ℕ → ℕ) → ℕ → ℕ
shift_up zero i b = b
shift_up (suc n) i b = shift_up n (i + 1) (update b i (b (i + 80)))

unfoldable pub clear_screen : Vga → Vga
clear_screen s =
    update_cursor 0 0
      (record s { buffer = fill_blank 2000 0 s.buffer; cursor_row = 0; cursor_col = 0 })

unfoldable pub wrap : Vga → Vga
wrap s =
    if leb 80 s.cursor_col then record s { cursor_col = 0; cursor_row = s.cursor_row + 1 } else s

unfoldable pub scroll : Vga → Vga
scroll s =
    if leb 25 s.cursor_row
    then record s { buffer = fill_blank 80 1920 (shift_up 1920 0 s.buffer); cursor_row = 24 }
    else s

unfoldable pub show_cursor : Vga → Vga
show_cursor s = update_cursor s.cursor_row s.cursor_col s

unfoldable pub print_char_color : ℕ → ℕ → Vga → Vga
print_char_color c color s = show_cursor (
    wrap (
      if c == b'\n' then record s { cursor_row = s.cursor_row + 1; cursor_col = 0 } else record s {
        buffer = update s.buffer (s.cursor_row * 80 + s.cursor_col) (cell c color);
        cursor_col = s.cursor_col + 1;
      }))

unfoldable pub back : Vga → Vga
back s =
    if ltb 0 s.cursor_col
    then record s { cursor_col = s.cursor_col - 1 }
    else if ltb 0 s.cursor_row
    then record s { cursor_row = s.cursor_row - 1; cursor_col = 79 }
    else s

unfoldable pub erase_here : Vga → Vga
erase_here s = record s { buffer = update s.buffer (s.cursor_row * 80 + s.cursor_col) blank }

-- The part of print_char that depends on the character; 8 is backspace.
unfoldable pub put : ℕ → Vga → Vga
put c s =
    if c == 8
    then erase_here (back s)
    else if c == b'\n'
    then record s { cursor_row = s.cursor_row + 1; cursor_col = 0 }
    else record s {
      buffer = update s.buffer (s.cursor_row * 80 + s.cursor_col) (cell c 0x0F);
      cursor_col = s.cursor_col + 1;
    }

unfoldable pub print_char : ℕ → Vga → Vga
print_char c s = show_cursor (scroll (wrap (put c s)))

unfoldable pub print_string : List ℕ → Vga → Vga
print_string [] s = s
print_string (c ∷ str) s = print_string str (print_char c s)

unfoldable pub hex_char : ℕ → ℕ
hex_char nibble = if ltb 9 nibble then nibble - 10 + b'A' else nibble + b'0'

-- The loop of print_hex with `k` nibbles left, so that `i` is `4 * (k - 1)`.
unfoldable pub print_nibbles : ℕ → ℕ → Vga → Vga
print_nibbles zero n s = s
print_nibbles (suc k) n s =
    print_nibbles k n (print_char (hex_char (bit_and (n / 2 ^ (4 * k)) 0xF)) s)

unfoldable pub print_hex : ℕ → Vga → Vga
print_hex n s = print_nibbles 8 n (print_string (b'0' ∷ b'x' ∷ []) s)

-- The recursion of print_dec, which divides a number below 2 ^ 32 at most ten times, on fuel.
unfoldable pub print_dec_on : ℕ → ℕ → Vga → Vga
print_dec_on zero n s = s
print_dec_on (suc fuel) n s =
    let higher = print_dec_on fuel (n / 10) s in
    if n == 0
    then print_char b'0' s
    else print_char (n % 10 + b'0') (if leb 10 n then higher else s)

unfoldable pub print_dec : ℕ → Vga → Vga
print_dec = print_dec_on 10

unfoldable pub set_cursor_pos : ℕ → ℕ → Vga → Vga
set_cursor_pos row col s = update_cursor row col (record s { cursor_row = row; cursor_col = col })
