-- ===== src/Shell/Line.antt =====
-- Editing the line: what insertion and deletion do to every cell.
use native.Mathlib.Decide.{ℕ_discrete}
use capstone_myos.Prelude.{
  ℕ, zero, suc, ◌+◌, ◌-◌, ◌<◌, ◌≤◌, ◌≡◌, arith, ◌&&◌, ◌==◌, leb, ltb, if◌then◌else◌, update, ◌∙◌,
  ==_refl, ==_of_ne, Bool-cases, inl, inr,
}
use capstone_myos.Strings.{Mem}
use capstone_myos.Shell.{Shell, move_left, move_right, insert, backspace}

shifted_right :
    (n i : ℕ) (line : Mem) (j : ℕ)
    → suc n ≤ i
    → (if ltb (i - 1 - n) j && leb j (i - 1)
        then update line i (line (i - 1)) (j - 1)
        else update line i (line (i - 1)) j)
      ≡ (if ltb (i - suc n) j && leb j i then line (j - 1) else line j)
shifted_right n i line j le = elim (ℕ_discrete j i) [
  | yes e ↦ rw (e, ==_refl i) (ground arith)
  | no ne ↦
      let other = ==_of_ne j i ne in
      elim (Bool-cases (leb j i)) [
        | inl below ↦
            let before = ==_of_ne (j - 1) i (λ e. ground arith) in rw (other, before) (ground arith)
        | inr above ↦ rw other (ground arith)
      ]
]

move_right_lem :
    (n i : ℕ) (line : Mem) (j : ℕ)
    → n ≤ i
    → move_right n i line j ≡ (if ltb (i - n) j && leb j i then line (j - 1) else line j)
unfolding move_right
move_right_lem zero i line j le = ground arith
move_right_lem (suc n) i line j le =
    move_right_lem n (i - 1) (update line i (line (i - 1))) j (omega arith)
    ∙ shifted_right n i line j le

move_left_lem :
    (n i : ℕ) (line : Mem) (j : ℕ)
    → 0 < i
    → move_left n i line j ≡ (if leb i (j + 1) && ltb (j + 1) (i + n) then line (j + 1) else line j)
unfolding move_left
move_left_lem zero i line j pos = ground arith
move_left_lem (suc n) i line j pos =
    ground (arith, move_left_lem n (i + 1) (update line (i - 1) (line i)) j (omega arith))

pub insert-cell :
    (c : ℕ) (s : Shell) (j : ℕ)
    → s.cursor_pos ≤ s.line_len
    → s.line_len < 255
    → (insert c s).current_line j ≡ (
        if j == s.cursor_pos
        then c
        else if ltb s.cursor_pos j && leb j s.line_len
        then s.current_line (j - 1)
        else s.current_line j)
unfolding insert
insert-cell c s j le room =
    ground (arith, move_right_lem (s.line_len - s.cursor_pos) s.line_len s.current_line j)

pub insert-counts :
    (c : ℕ) (s : Shell)
    → s.line_len < 255
    → ((insert c s).line_len ≡ s.line_len + 1) × ((insert c s).cursor_pos ≡ s.cursor_pos + 1)
unfolding insert
insert-counts c s room = (ground arith, ground arith)

pub backspace-cell :
    (s : Shell) (j : ℕ)
    → 0 < s.cursor_pos
    → s.cursor_pos ≤ s.line_len
    → (backspace s).current_line j ≡ (
        if j == s.line_len - 1
        then 0
        else if leb s.cursor_pos (j + 1) && ltb (j + 1) s.line_len
        then s.current_line (j + 1)
        else s.current_line j)
unfolding backspace
backspace-cell s j pos le =
    ground (arith, move_left_lem (s.line_len - s.cursor_pos) s.cursor_pos s.current_line j)

pub backspace-counts :
    (s : Shell)
    → 0 < s.cursor_pos
    → ((backspace s).line_len ≡ s.line_len - 1) × ((backspace s).cursor_pos ≡ s.cursor_pos - 1)
unfolding backspace
backspace-counts s pos = (ground arith, ground arith)

-- Typing a character into a line that is not full and deleting it restores the line, wherever the
-- cursor stands: every character of the line, its length and the cursor; the line ends with a zero.
pub backspace-insert :
    (c : ℕ) (s : Shell)
    → s.cursor_pos ≤ s.line_len
    → s.line_len < 255
    → ((j : ℕ) → j < s.line_len → (backspace (insert c s)).current_line j ≡ s.current_line j)
      × ((backspace (insert c s)).current_line s.line_len ≡ 0)
      × ((backspace (insert c s)).line_len ≡ s.line_len)
      × ((backspace (insert c s)).cursor_pos ≡ s.cursor_pos)
backspace-insert c s le room =
    let n = insert-counts c s room in
    let pos : 0 < (insert c s).cursor_pos = omega (arith, n.1) in
    let inside : (insert c s).cursor_pos ≤ (insert c s).line_len = omega (arith, n.0, n.1) in
    let m = backspace-counts (insert c s) pos in
    (
      (λ j lt. ground (
        arith,
        n.0,
        n.1,
        backspace-cell (insert c s) j pos inside,
        insert-cell c s j le room,
        insert-cell c s (j + 1) le room,
      )),
      ground (arith, n.0, n.1, backspace-cell (insert c s) s.line_len pos inside),
      omega (arith, m.0, n.0),
      omega (arith, m.1, n.1),
    )
