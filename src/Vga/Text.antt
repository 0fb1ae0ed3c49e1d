-- ===== src/Vga/Text.antt =====
-- print_string on a line that has room for the text.
use capstone_myos.Prelude.{
  ℕ, zero, suc, ◌+◌, ◌-◌, ◌*◌, ◌<◌, ◌≡◌, refl, ◌≢◌, arith, List, [], ◌∷◌, ◌++◌, ltb, leb, ◌==◌,
  ◌&&◌, if◌then◌else◌, update, length, get_or, All,
}
use capstone_myos.Vga.{
  Vga, cell, update_cursor, wrap, scroll, show_cursor, put, print_char, print_string,
}

-- A byte that print_char shows.
abbrev pub IsVisible : ℕ → Type 0
IsVisible c = (c ≢ 8) × (c ≢ b'\n')

print_visible :
    (c : ℕ) (s : Vga) (a : ℕ)
    → IsVisible c
    → s.cursor_row < 25
    → s.cursor_col < 79
    → let t = print_char c s in
      (t.cursor_row ≡ s.cursor_row)
      × (t.cursor_col ≡ s.cursor_col + 1)
      × (t.buffer a ≡ update s.buffer (s.cursor_row * 80 + s.cursor_col) (cell c 0x0F) a)
unfolding print_char show_cursor update_cursor scroll wrap put
print_visible c s a v r h = ground arith

get_or-cons :
    (c d : ℕ) (s : List ℕ) (k : ℕ) → get_or (c ∷ s) k d ≡ (if k == 0 then c else get_or s (k - 1) d)
get_or-cons c d s zero = refl
get_or-cons c d s (suc k) = let e : suc k - 1 ≡ k = omega arith in rw e (ground arith)

-- A text of visible characters that leaves room on the line appears from the cursor on, in white on
-- black; the cursor advances by its length, and no other cell changes.
pub print_string_fits :
    (str : List ℕ) (s : Vga) (a : ℕ)
    → All IsVisible str
    → s.cursor_row < 25
    → s.cursor_col + length str < 80
    → let t = print_string str s in
      let here = s.cursor_row * 80 + s.cursor_col in
      (t.cursor_row ≡ s.cursor_row)
      × (t.cursor_col ≡ s.cursor_col + length str)
      × (t.buffer a ≡ (
          if leb here a && ltb a (here + length str)
          then cell (get_or str (a - here) 0) 0x0F
          else s.buffer a))
unfolding print_string
print_string_fits [] s a v r h = ground arith
print_string_fits (c ∷ str) s a v r h =
    let p = print_visible c s a v.0 r (omega arith) in
    let here = s.cursor_row * 80 + s.cursor_col in
    let shift : a - here - 1 ≡ a - (here + 1) = omega arith in
    ground (
      arith,
      p,
      print_string_fits str (print_char c s) a v.1 (omega (arith, p.0)) (omega (arith, p.1)),
      rw shift at (get_or-cons c 0 str (a - here)),
    )

pub print_string-append :
    (xs ys : List ℕ) (s : Vga) → print_string (xs ++ ys) s ≡ print_string ys (print_string xs s)
unfolding print_string
print_string-append [] ys s = refl
print_string-append (x ∷ xs) ys s = print_string-append xs ys (print_char x s)
