-- ===== src/Vga/Screen.antt =====
-- The cursor stays on the screen, nothing behind the screen is written, and scrolling moves lines.
use capstone_myos.Prelude.{
  ℕ, zero, suc, ◌+◌, ◌*◌, ◌%◌, ◌<◌, ◌≤◌, ◌≡◌, refl, ◌≢◌, arith, List, [], ◌∷◌, ◌==◌, ltb, leb, ◌&&◌,
  if◌then◌else◌, update, bit_and-low,
}
use capstone_myos.Vga.{
  Vga, blank, update_cursor, fill_blank, shift_up, clear_screen, wrap, scroll, show_cursor, back,
  erase_here, put, print_char,
}

pub record IsOnScreen (s : Vga) : Type 0 where
  pub row : s.cursor_row < 25
  pub col : s.cursor_col < 80

pub fill_blank_lem :
    (n i : ℕ) (b : ℕ → ℕ) (a : ℕ)
    → fill_blank n i b a ≡ (if leb i a && ltb a (i + n) then blank else b a)
unfolding fill_blank
fill_blank_lem zero i b a = ground arith
fill_blank_lem (suc n) i b a = ground (arith, fill_blank_lem n (i + 1) (update b i blank) a)

shift_up_lem :
    (n i : ℕ) (b : ℕ → ℕ) (a : ℕ)
    → shift_up n i b a ≡ (if leb i a && ltb a (i + n) then b (a + 80) else b a)
unfolding shift_up
shift_up_lem zero i b a = ground arith
shift_up_lem (suc n) i b a = ground (arith, shift_up_lem n (i + 1) (update b i (b (i + 80))) a)

-- One line up: line r takes what line r + 1 showed, and the last line becomes blank.
abbrev pub lifted : (ℕ → ℕ) → ℕ → ℕ
lifted b a = if ltb a 1920 then b (a + 80) else if ltb a 2000 then blank else b a

scrolled_cells : (b : ℕ → ℕ) (a : ℕ) → fill_blank 80 1920 (shift_up 1920 0 b) a ≡ lifted b a
scrolled_cells b a =
    ground (arith, fill_blank_lem 80 1920 (shift_up 1920 0 b) a, shift_up_lem 1920 0 b a)

-- clear_screen blanks the 2000 cells, leaves what is behind them, and homes the cursor.
pub clear_screen_lem :
    (s : Vga) (a : ℕ)
    → ((clear_screen s).buffer a ≡ (if ltb a 2000 then blank else s.buffer a))
      × ((clear_screen s).cursor_row ≡ 0)
      × ((clear_screen s).cursor_col ≡ 0)
unfolding clear_screen update_cursor
clear_screen_lem s a = (ground (arith, fill_blank_lem 2000 0 s.buffer a), refl, refl)

-- What print_char does to a screen with its cursor on it: the character's own cell changes, and
-- then all lines move up if the cursor left the last one.
pub print_char-IsOnScreen : (c : ℕ) (s : Vga) → IsOnScreen s → IsOnScreen (print_char c s)
unfolding print_char show_cursor update_cursor scroll wrap put erase_here back
print_char-IsOnScreen c s v = ground arith

-- Where the character goes before any scrolling: `put` and then `wrap`.
abbrev placed : ℕ → Vga → Vga
placed c s = wrap (put c s)

placed-cells :
    (c : ℕ) (s : Vga) (a : ℕ) → IsOnScreen s → 2000 ≤ a → (placed c s).buffer a ≡ s.buffer a
unfolding wrap put erase_here back
placed-cells c s a v h = ground arith

scroll-cells :
    (s : Vga) (a : ℕ)
    → (scroll s).buffer a ≡ (if leb 25 s.cursor_row then lifted s.buffer a else s.buffer a)
unfolding scroll
scroll-cells s a = ground (arith, scrolled_cells s.buffer a)

-- The register of the controller that port 0x3D4 last selected; the latest write stands first.
abbrev selected : List (ℕ × ℕ) → ℕ
selected [] = 0
selected ((port, v) ∷ older) = if port == 0x3D4 then v else selected older

-- What port 0x3D5 last wrote to a register of the controller.
abbrev pub crtc : ℕ → List (ℕ × ℕ) → ℕ
crtc register [] = 0
crtc register ((port, v) ∷ older) =
    if (port == 0x3D5) && (selected older == register) then v else crtc register older

-- Where the controller shows the cursor: the high byte is register 0x0E, the low byte 0x0F.
abbrev pub shown_position : List (ℕ × ℕ) → ℕ
shown_position ports = crtc 0x0E ports * 256 + crtc 0x0F ports

update_cursor_lem :
    (row col : ℕ) (s : Vga)
    → row * 80 + col < 65536
    → shown_position (update_cursor row col s).ports ≡ row * 80 + col
unfolding update_cursor
update_cursor_lem row col s h = rw (bit_and-low 8 ((row * 80 + col) % 65536)) (omega arith)

-- From a cursor on the screen, printing any character keeps the cursor on the screen, writes nothing
-- behind the 2000 cells, and leaves the position in the registers 0x0E and 0x0F of the display
-- controller, as its ports 0x3D4 and 0x3D5 set them, where the software cursor is.
pub print_char_safe :
    (c : ℕ) (s : Vga)
    → IsOnScreen s
    → let t = print_char c s in
      IsOnScreen t
      × ((a : ℕ) → 2000 ≤ a → t.buffer a ≡ s.buffer a)
      × (shown_position t.ports ≡ t.cursor_row * 80 + t.cursor_col)
unfolding print_char show_cursor update_cursor scroll
print_char_safe c s v =
    let v' = print_char-IsOnScreen c s v in
    let t = scroll (wrap (put c s)) in
    (
      v',
      (λ a h. ground (arith, scroll-cells (wrap (put c s)) a, placed-cells c s a v h)),
      shown t (record { row = v'.row; col = v'.col }),
    )
  where
    shown :
        (t : Vga)
        → IsOnScreen t
        → shown_position (update_cursor t.cursor_row t.cursor_col t).ports
          ≡ t.cursor_row * 80 + t.cursor_col
    shown t w = update_cursor_lem t.cursor_row t.cursor_col t (omega arith)

-- A newline goes to the start of the next line; on the last line the screen moves up by one line
-- instead, line r showing what line r + 1 showed, and the last line blank.
print_newline :
    (s : Vga) (a : ℕ)
    → IsOnScreen s
    → let t = print_char b'\n' s in
      (t.cursor_col ≡ 0)
      × (t.cursor_row ≡ (if ltb s.cursor_row 24 then s.cursor_row + 1 else 24))
      × (t.buffer a ≡ (if ltb s.cursor_row 24 then s.buffer a else lifted s.buffer a))
unfolding print_char show_cursor update_cursor scroll wrap put
print_newline s a v = ground (arith, scrolled_cells s.buffer a)

-- A backspace after a visible character takes it back: the cursor is where it was and its cell is
-- blank, unless the character made the screen scroll.
pub back-print_char :
    (c : ℕ) (s : Vga) (a : ℕ)
    → IsOnScreen s
    → c ≢ 8
    → c ≢ b'\n'
    → s.cursor_row * 80 + s.cursor_col < 1999
    → let t = print_char 8 (print_char c s) in
      (t.cursor_row ≡ s.cursor_row)
      × (t.cursor_col ≡ s.cursor_col)
      × (t.buffer a ≡ update s.buffer (s.cursor_row * 80 + s.cursor_col) blank a)
unfolding print_char show_cursor update_cursor scroll wrap put erase_here back
back-print_char c s a v h k lt = ground arith
