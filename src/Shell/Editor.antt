-- ===== src/Shell/Editor.antt =====
-- The line editor against its abstract view: the characters before the cursor and those from it on.
use capstone_myos.Prelude.{
  ℕ, ◌+◌, ◌-◌, ◌<◌, ◌≤◌, ◌≡◌, ◌≢◌, refl, sym, ◌∙◌, arith, Bool, true, false, ◌&&◌, ◌==◌, leb, ltb,
  if◌then◌else◌, Option, none, some, List, [], ◌∷◌, Bool-cases, inl, inr, length, ==_of_ne, All,
}
use mathlib.Core.Path.{subst}
use capstone_myos.Strings.{Mem}
use capstone_myos.Keyboard.{arrow_up, arrow_down, arrow_left, arrow_right}
use capstone_myos.Shell.{Shell, go_left, go_right, insert, backspace, handle_input, inputs}
use capstone_myos.Shell.Line.{insert-cell, insert-counts, backspace-cell, backspace-counts}

-- The characters before the cursor, the nearest first, and those from the cursor on.
abbrev pub Text : Type 0
Text = List ℕ × List ℕ

unfoldable pub move_back : Text → Text
move_back ([], r) = ([], r)
move_back (c ∷ l, r) = (l, c ∷ r)

unfoldable pub move_on : Text → Text
move_on (l, []) = (l, [])
move_on (l, c ∷ r) = (c ∷ l, r)

unfoldable pub delete : Text → Text
delete ([], r) = ([], r)
delete (c ∷ l, r) = (l, r)

unfoldable pub type_char : ℕ → Text → Text
type_char c (l, r) = if ltb (length l + length r) 255 then (c ∷ l, r) else (l, r)

-- What a key does to the text, the keys for the history and the newline apart.
unfoldable pub edit : ℕ → Text → Text
edit c t =
    if c == arrow_left
    then move_back t
    else if c == arrow_right
    then move_on t
    else if c == 8
    then delete t
    else if leb b' ' c && leb c b'~'
    then type_char c t
    else t

-- `l` stands in the line before the position `p`, `r` from `p` up to `n`.
abbrev pub IsLeft : Mem → ℕ → List ℕ → Type 0
IsLeft line p [] = p ≡ 0
IsLeft line p (c ∷ l) = (0 < p) × (line (p - 1) ≡ c) × IsLeft line (p - 1) l

abbrev pub IsRight : Mem → ℕ → ℕ → List ℕ → Type 0
IsRight line p n [] = p ≡ n
IsRight line p n (c ∷ r) = (p < n) × (line p ≡ c) × IsRight line (p + 1) n r

-- The line holds the text, with the cursor between its two parts, and has room for its end.
abbrev pub IsText : Shell → Text → Type 0
IsText s (l, r) =
    IsLeft s.current_line s.cursor_pos l
    × IsRight s.current_line s.cursor_pos s.line_len r
    × (s.line_len ≤ 255)

IsLeft-length : (line : Mem) (p : ℕ) (l : List ℕ) → IsLeft line p l → p ≡ length l
IsLeft-length line p [] h = h
IsLeft-length line p (c ∷ l) (pos, e, h) = omega (arith, IsLeft-length line (p - 1) l h)

IsRight-length : (line : Mem) (p n : ℕ) (r : List ℕ) → IsRight line p n r → n ≡ p + length r
IsRight-length line p n [] h = omega arith
IsRight-length line p n (c ∷ r) (lt, e, h) = omega (arith, IsRight-length line (p + 1) n r h)

IsLeft-same :
    (line line' : Mem) (p : ℕ) (l : List ℕ)
    → ((j : ℕ) → j < p → line' j ≡ line j)
    → IsLeft line p l
    → IsLeft line' p l
IsLeft-same line line' p [] same h = h
IsLeft-same line line' p (c ∷ l) same (pos, e, h) = (
  pos,
  same (p - 1) (omega arith) ∙ e,
  IsLeft-same line line' (p - 1) l (λ j lt. same j (omega arith)) h,
)

-- The characters from the cursor on move one to the right, or to the left.
IsRight-up :
    (line line' : Mem) (p n : ℕ) (r : List ℕ)
    → ((j : ℕ) → p ≤ j → j < n → line' (j + 1) ≡ line j)
    → IsRight line p n r
    → IsRight line' (p + 1) (n + 1) r
IsRight-up line line' p n [] same h = omega arith
IsRight-up line line' p n (c ∷ r) same (lt, e, h) = (
  omega arith,
  same p (omega arith) lt ∙ e,
  IsRight-up line line' (p + 1) n r (λ j le lt'. same j (omega arith) lt') h,
)

IsRight-down :
    (line line' : Mem) (p n : ℕ) (r : List ℕ)
    → ((j : ℕ) → p ≤ j → j < n → line' (j - 1) ≡ line j)
    → 0 < p
    → IsRight line p n r
    → IsRight line' (p - 1) (n - 1) r
IsRight-down line line' p n [] same pos h = omega arith
IsRight-down line line' p n (c ∷ r) same pos (lt, e, h) =
    let z : p + 1 - 1 ≡ p - 1 + 1 = omega arith in
    (
      omega arith,
      same p (omega arith) lt ∙ e,
      subst (λ q. IsRight line' q (n - 1) r) z
          (IsRight-down line line' (p + 1) n r (λ j le lt'. same j (omega arith) lt') (omega arith)
            h),
    )

backspace_start : (s : Shell) → s.cursor_pos ≡ 0 → backspace s ≡ s
unfolding backspace
backspace_start s e = let stay : ltb 0 s.cursor_pos ≡ false = ground (arith, e) in rw stay refl

insert_full : (c : ℕ) (s : Shell) → ltb s.line_len 255 ≡ false → insert c s ≡ s
unfolding insert
insert_full c s full = rw full refl

go_left-IsText : (s : Shell) (t : Text) → IsText s t → IsText (go_left s) (move_back t)
unfolding go_left move_back
go_left-IsText s ([], r) (h, k, le) =
    let stay : ltb 0 s.cursor_pos ≡ false = ground (arith, h) in
    subst (λ b. IsText (if b then record s { cursor_pos = s.cursor_pos - 1 } else s) ([], r))
      (sym stay) (h, k, le)
go_left-IsText s (c ∷ l, r) ((pos, e, h), k, le) =
    let move : ltb 0 s.cursor_pos ≡ true = ground (arith, pos) in
    let n = IsRight-length s.current_line s.cursor_pos s.line_len r k in
    let z : s.cursor_pos ≡ s.cursor_pos - 1 + 1 = omega arith in
    subst (λ b. IsText (if b then record s { cursor_pos = s.cursor_pos - 1 } else s) (l, c ∷ r))
      (sym move) (h, (omega arith, e, subst (λ q. IsRight s.current_line q s.line_len r) z k), le)

go_right-IsText : (s : Shell) (t : Text) → IsText s t → IsText (go_right s) (move_on t)
unfolding go_right move_on
go_right-IsText s (l, []) (h, k, le) =
    let stay : ltb s.cursor_pos s.line_len ≡ false = ground (arith, k) in
    subst (λ b. IsText (if b then record s { cursor_pos = s.cursor_pos + 1 } else s) (l, []))
      (sym stay) (h, k, le)
go_right-IsText s (l, c ∷ r) (h, (lt, e, k), le) =
    let move : ltb s.cursor_pos s.line_len ≡ true = ground (arith, lt) in
    let z : s.cursor_pos ≡ s.cursor_pos + 1 - 1 = omega arith in
    subst (λ b. IsText (if b then record s { cursor_pos = s.cursor_pos + 1 } else s) (c ∷ l, r))
      (sym move)
      (
        subst (λ q. (0 < s.cursor_pos + 1) × (s.current_line q ≡ c) × IsLeft s.current_line q l) z
            (omega arith, e, h),
        k,
        le,
      )

backspace-IsText : (s : Shell) (t : Text) → IsText s t → IsText (backspace s) (delete t)
unfolding delete
backspace-IsText s ([], r) (h, k, le) =
    subst (λ x. IsText x ([], r)) (sym (backspace_start s h)) (h, k, le)
backspace-IsText s (c ∷ l, r) ((pos, e, h), k, le) =
    let n = IsRight-length s.current_line s.cursor_pos s.line_len r k in
    let inside : s.cursor_pos ≤ s.line_len = omega arith in
    let (n', p') = backspace-counts s pos in
    let line' = (backspace s).current_line in
    rw (n', p')
      (
        IsLeft-same s.current_line line' (s.cursor_pos - 1) l
            (λ j lt. ground (arith, backspace-cell s j pos inside)) h,
        IsRight-down s.current_line line' s.cursor_pos s.line_len r
            (λ j from below. ground (arith, backspace-cell s (j - 1) pos inside)) pos k,
        omega arith,
      )

insert-IsText : (c : ℕ) (s : Shell) (t : Text) → IsText s t → IsText (insert c s) (type_char c t)
unfolding type_char
insert-IsText c s (l, r) (h, k, le) =
    let a = IsLeft-length s.current_line s.cursor_pos l h in
    let n = IsRight-length s.current_line s.cursor_pos s.line_len r k in
    let same : length l + length r ≡ s.line_len = omega arith in
    elim (Bool-cases (ltb s.line_len 255)) [
      | inl room ↦
          let lt : s.line_len < 255 = ground (arith, room) in
          let (n', p') = insert-counts c s lt in
          let inside : s.cursor_pos ≤ s.line_len = omega arith in
          let line' = (insert c s).current_line in
          let z : s.cursor_pos ≡ s.cursor_pos + 1 - 1 = omega arith in
          rw (same, room, n', p')
            (
              subst (λ q. (0 < s.cursor_pos + 1) × (line' q ≡ c) × IsLeft line' q l) z
                  (
                    omega arith,
                    ground (arith, insert-cell c s s.cursor_pos inside lt),
                    IsLeft-same s.current_line line' s.cursor_pos l
                        (λ j below. ground (arith, insert-cell c s j inside lt)) h,
                  ),
              IsRight-up s.current_line line' s.cursor_pos s.line_len r
                  (λ j from below. ground (arith, insert-cell c s (j + 1) inside lt)) k,
              omega arith,
            )
      | inr full ↦
          rw (same, full) (subst (λ x. IsText x (l, r)) (sym (insert_full c s full)) (h, k, le))
    ]

-- What a key leaves: a line that holds the text.
abbrev pub Holds : Option Shell → Text → Type 0
Holds none t = ⊥
Holds (some s) t = IsText s t

-- A key that edits the line: not one for the history, and not the newline.
abbrev pub IsEdit : ℕ → Type 0
IsEdit c = (c ≢ arrow_up) × (c ≢ arrow_down) × (c ≢ 10)

Holds-if :
    (b : Bool) (x y : Option Shell) (t u : Text)
    → Holds x t
    → Holds y u
    → Holds (if b then x else y) (if b then t else u)
Holds-if true x y t u first second = first
Holds-if false x y t u first second = second

-- A key does to the line what it does to the text.
handle_input-Holds :
    (c : ℕ) (s : Shell) (t : Text) → IsEdit c → IsText s t → Holds (handle_input c s) (edit c t)
unfolding handle_input edit
handle_input-Holds c s t (up, down, newline) h =
    let a = ==_of_ne c arrow_up up in
    let b = ==_of_ne c arrow_down down in
    let d = ==_of_ne c 10 newline in
    rw (a, b, d)
      (Holds-if (c == arrow_left) (some (go_left s)) _ (move_back t) _ (go_left-IsText s t h) (
        Holds-if (c == arrow_right) (some (go_right s)) _ (move_on t) _ (go_right-IsText s t h) (
          Holds-if (c == 8) (some (backspace s)) _ (delete t) _ (backspace-IsText s t h) (
            Holds-if (leb b' ' c && leb c b'~') (some (insert c s)) (some s) (type_char c t) t
              (insert-IsText c s t h) h))))

-- The text after a sequence of keys.
unfoldable pub typed : List ℕ → Text → Text
typed [] t = t
typed (c ∷ cs) t = typed cs (edit c t)

inputs-some :
    (r : Option Shell) (cs : List ℕ) (t u : Text)
    → Holds r t
    → ((s : Shell) → IsText s t → Holds (inputs cs s) u)
    → Holds (let o : Option Shell = elim r [ none ↦ none | some s' ↦ inputs cs s' ] in o) u
inputs-some none cs t u h next = absurd h
inputs-some (some s) cs t u h next = next s h

-- Whatever keys are typed, history keys and the newline apart, the shell's line and cursor hold what an
-- editor of a text with a cursor gives: arrows move over one character and stop at the ends, backspace
-- deletes the character before the cursor, a printable character enters at the cursor while the line
-- has fewer than 255 characters, and every other key is ignored.
pub inputs_lem :
    (cs : List ℕ) (s : Shell) (t : Text)
    → All IsEdit cs
    → IsText s t
    → Holds (inputs cs s) (typed cs t)
unfolding inputs typed
inputs_lem [] s t all h = h
inputs_lem (c ∷ cs) s t (key, all) h =
    inputs-some (handle_input c s) cs (edit c t) (typed cs (edit c t))
      (handle_input-Holds c s t key h) (λ s' h'. inputs_lem cs s' (edit c t) all h')
