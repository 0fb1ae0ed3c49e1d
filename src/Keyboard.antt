-- ===== src/Keyboard.antt =====
-- kernel/drivers/keyboard.c: scancodes to characters, and the circular buffer between the interrupt
-- handler and its readers. A `char` is its byte: the arrow codes -1 to -4 are 255 to 252.
pub mod Tables
pub mod Ring
pub mod Refine
pub mod Decode
mod Tests
use capstone_myos.Prelude.{
  ℕ, zero, suc, ◌+◌, ◌%◌, ◌≡◌, bit_and, Bool, true, false, ◌&&◌, ◌||◌, not, Option, none, some,
  List, [], ◌∷◌, ltb, ◌==◌, if◌then◌else◌, update, get_or,
}
use Tables.{kbd_us, kbd_us_shift}

abbrev pub buffer_size : ℕ
buffer_size = 256

abbrev pub arrow_up : ℕ
arrow_up = 255

abbrev pub arrow_down : ℕ
arrow_down = 254

abbrev pub arrow_left : ℕ
arrow_left = 253

abbrev pub arrow_right : ℕ
arrow_right = 252

pub record Keyboard : Type 0 where
  pub buffer : ℕ → ℕ
  pub read_idx : ℕ
  pub write_idx : ℕ
  pub shift_pressed : Bool

-- The character of a key press that is no shift key; 0 for none.
unfoldable pub character : Bool → ℕ → ℕ
character shift scancode =
    if scancode == 0x4B
    then arrow_left
    else if scancode == 0x4D
    then arrow_right
    else if scancode == 0x48
    then arrow_up
    else if scancode == 0x50
    then arrow_down
    else if ltb scancode 128
    then (if shift then get_or kbd_us_shift scancode 0 else get_or kbd_us scancode 0)
    else 0

unfoldable pub is_shift : ℕ → Bool
is_shift key = key == 0x2A || key == 0x36

unfoldable pub enqueue : ℕ → Keyboard → Keyboard
enqueue c k =
    if not ((k.write_idx + 1) % buffer_size == k.read_idx)
    then record k {
      buffer = update k.buffer k.write_idx c;
      write_idx = (k.write_idx + 1) % buffer_size;
    }
    else k

-- keyboard_handler on the byte that it reads from port 0x60.
unfoldable pub handler : ℕ → Keyboard → Keyboard
handler scancode k =
    if not (bit_and scancode 0x80 == 0)
    then (if is_shift (bit_and scancode 0x7F) then record k { shift_pressed = false } else k)
    else if is_shift scancode
    then record k { shift_pressed = true }
    else let c = character k.shift_pressed scancode in if not (c == 0) then enqueue c k else k

-- keyboard_read_char: `none` while it halts and waits for the next interrupt.
unfoldable pub read_char : Keyboard → Option (ℕ × Keyboard)
read_char k =
    if k.read_idx == k.write_idx
    then none
    else some (k.buffer k.read_idx, record k { read_idx = (k.read_idx + 1) % buffer_size })

unfoldable pub flush : Keyboard → Keyboard
flush k = record k { read_idx = k.write_idx }

-- What happens to the driver, in the order in which it happens: an interrupt with its scancode, a
-- reader that looks for a character, a flush.
pub data Event : Type 0 where
  key : ℕ → Event
  read : Event
  flushed : Event

abbrev after_read : Keyboard → Option (ℕ × Keyboard) → Option ℕ × Keyboard
after_read k none = (none, k)
after_read k (some (c, k')) = (some c, k')

-- The characters that the readers get, `none` for a reader that still waits.
unfoldable pub run : List Event → Keyboard → List (Option ℕ)
run [] k = []
run (key scancode ∷ es) k = run es (handler scancode k)
run (read ∷ es) k = let (r, k') = after_read k (read_char k) in r ∷ run es k'
run (flushed ∷ es) k = run es (flush k)
