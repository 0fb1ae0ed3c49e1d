-- ===== src/Shell/Redraw.antt =====
-- kernel/shell.c: shell_redraw_line.
use capstone_myos.Prelude.{
  ℕ, zero, suc, ◌+◌, ◌-◌, ◌*◌, ◌≤◌, ◌≡◌, refl, ◌&&◌, List, [], ◌∷◌, get_or, leb, ltb, if◌then◌else◌,
  update, arith,
}
use capstone_myos.Vga.{Vga, cell, blank, fill_blank, set_cursor_pos, update_cursor}
use capstone_myos.Vga.Screen.{fill_blank_lem}
use capstone_myos.Shell.{Shell}

abbrev pub prompt : List ℕ
prompt = b'P' ∷ b'G' ∷ b'O' ∷ b'S' ∷ b'>' ∷ b' ' ∷ []

-- The loop that writes `n` characters, from index `i` on, behind the cell `at`.
unfoldable pub write_cells : ℕ → ℕ → ℕ → (ℕ → ℕ) → (ℕ → ℕ) → ℕ → ℕ
write_cells zero i at text b = b
write_cells (suc n) i at text b =
    write_cells n (i + 1) at text (update b (at + i) (cell (text i) 0x0F))

unfoldable pub redraw_line : Shell → Vga → Vga
redraw_line s v =
    let first = v.cursor_row * 80 in
    let erased = fill_blank 80 first v.buffer in
    let prompted = write_cells 6 0 first (λ i. get_or prompt i 0) erased in
    let b = write_cells s.line_len 0 (first + 6) s.current_line prompted in
    set_cursor_pos v.cursor_row (6 + s.cursor_pos) (record v { buffer = b })

-- The characters of the row: the prompt, the line, and blanks.
abbrev pub row_cell : Shell → ℕ → ℕ
row_cell s col =
    if ltb col 6
    then cell (get_or prompt col 0) 0x0F
    else if ltb col (6 + s.line_len)
    then cell (s.current_line (col - 6)) 0x0F
    else blank

write_cells_lem :
    (n i at : ℕ) (text : ℕ → ℕ) (b : ℕ → ℕ) (a : ℕ)
    → write_cells n i at text b a
      ≡ (if leb (at + i) a && ltb a (at + i + n) then cell (text (a - at)) 0x0F else b a)
unfolding write_cells
write_cells_lem zero i at text b a = ground arith
write_cells_lem (suc n) i at text b a =
    ground (arith, write_cells_lem n (i + 1) at text (update b (at + i) (cell (text i) 0x0F)) a)

choice :
    (first n a x y z old : ℕ)
    → n ≤ 74
    → (if leb (first + 6 + 0) a && ltb a (first + 6 + 0 + n)
        then x
        else if leb (first + 0) a && ltb a (first + 0 + 6)
        then y
        else if leb first a && ltb a (first + 80)
        then z
        else old)
      ≡ (if leb first a && ltb a (first + 80)
          then (if ltb (a - first) 6 then y else if ltb (a - first) (6 + n) then x else z)
          else old)
choice first n a x y z old h = ground arith

-- A line that fits the row behind the prompt is shown: the cursor's row holds the prompt, the line
-- and blanks, the other rows stay, and the cursor goes to the place of the editor's cursor.
pub redraw_line_lem :
    (s : Shell) (v : Vga) (a : ℕ)
    → s.line_len ≤ 74
    → let v' = redraw_line s v in
      (v'.buffer a ≡ (
        if leb (v.cursor_row * 80) a && ltb a (v.cursor_row * 80 + 80)
        then row_cell s (a - v.cursor_row * 80)
        else v.buffer a))
      × (v'.cursor_row ≡ v.cursor_row)
      × (v'.cursor_col ≡ 6 + s.cursor_pos)
unfolding redraw_line set_cursor_pos update_cursor
redraw_line_lem s v a h =
    let first = v.cursor_row * 80 in
    let erased = fill_blank 80 first v.buffer in
    let prompted = write_cells 6 0 first (λ i. get_or prompt i 0) erased in
    let e1 = fill_blank_lem 80 first v.buffer a in
    let e2 = write_cells_lem 6 0 first (λ i. get_or prompt i 0) erased a in
    let e3 = write_cells_lem s.line_len 0 (first + 6) s.current_line prompted a in
    let sub : a - (first + 6) ≡ a - first - 6 = omega arith in
    (rw (e3, e2, e1, sub) (choice first s.line_len a _ _ _ _ h), refl, refl)
