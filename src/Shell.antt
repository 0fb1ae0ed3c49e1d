-- ===== src/Shell.antt =====
-- kernel/shell.c: the line editor with its history, on its own state. The child modules have the
-- drawing of the line, its words and the commands.
pub mod Line
pub mod Editor
pub mod Words
pub mod Commands
pub mod Redraw
pub mod Reap
pub mod Lifecycle
pub mod Effects
pub mod Dispatch
pub mod Naming
pub mod Split
mod CommandTests
mod Tests
use capstone_myos.Prelude.{
  ℕ, zero, suc, ◌+◌, ◌-◌, ◌%◌, Bool, true, false, ◌&&◌, ◌||◌, Option, none, some, List, [], ◌∷◌,
  ◌==◌, leb, ltb, if◌then◌else◌, update,
}
use capstone_myos.Strings.{Mem, strlen}
use capstone_myos.Keyboard.{arrow_up, arrow_down, arrow_left, arrow_right}

abbrev pub max_cmd_len : ℕ
max_cmd_len = 256

abbrev pub history_size : ℕ
history_size = 10

pub record Shell : Type 0 where
  pub history_buffer : ℕ → Mem
  pub history_count : ℕ
  pub history_index : ℕ
  pub current_line : Mem
  pub cursor_pos : ℕ
  pub line_len : ℕ

-- The loop of a deletion: cells `i` to `i + n - 1` move one to the left.
unfoldable pub move_left : ℕ → ℕ → Mem → Mem
move_left zero i line = line
move_left (suc n) i line = move_left n (i + 1) (update line (i - 1) (line i))

-- The loop of an insertion: the cells below `i` move one to the right, `n` of them, the last first.
unfoldable pub move_right : ℕ → ℕ → Mem → Mem
move_right zero i line = line
move_right (suc n) i line = move_right n (i - 1) (update line i (line (i - 1)))

unfoldable pub go_left : Shell → Shell
go_left s = if ltb 0 s.cursor_pos then record s { cursor_pos = s.cursor_pos - 1 } else s

unfoldable pub go_right : Shell → Shell
go_right s = if ltb s.cursor_pos s.line_len then record s { cursor_pos = s.cursor_pos + 1 } else s

unfoldable pub backspace : Shell → Shell
backspace s =
    if ltb 0 s.cursor_pos
    then record s {
      current_line =
          update (move_left (s.line_len - s.cursor_pos) s.cursor_pos s.current_line)
            (s.line_len - 1) 0;
      line_len = s.line_len - 1;
      cursor_pos = s.cursor_pos - 1;
    }
    else s

unfoldable pub insert : ℕ → Shell → Shell
insert c s =
    if ltb s.line_len (max_cmd_len - 1)
    then record s {
      current_line =
          update (move_right (s.line_len - s.cursor_pos) s.line_len s.current_line) s.cursor_pos c;
      line_len = s.line_len + 1;
      cursor_pos = s.cursor_pos + 1;
    }
    else s

-- strncpy from one line buffer to another: `n` cells from `i` on, zeros once the source has ended.
unfoldable pub copy_line : ℕ → ℕ → Bool → Mem → Mem → Mem
copy_line zero i ended source target = target
copy_line (suc n) i ended source target =
    let over = ended || (source i == 0) in
    copy_line n (i + 1) over source (update target i (if over then 0 else source i))

-- The line is set, and the cursor goes to its end; `none` if the line has no end.
unfoldable pub recall : Mem → Shell → Option Shell
recall line s = elim (strlen max_cmd_len line 0) [
  | none ↦ none
  | some n ↦ some (record s { current_line = line; line_len = n; cursor_pos = n })
]

unfoldable pub history_line : ℕ → Shell → Mem
history_line index s =
    copy_line max_cmd_len 0 false (s.history_buffer (index % history_size)) s.current_line

unfoldable pub go_up : Shell → Option Shell
go_up s =
    if ltb 0 s.history_index
    then recall (history_line (s.history_index - 1) s)
        (record s { history_index = s.history_index - 1 })
    else some s

unfoldable pub go_down : Shell → Option Shell
go_down s =
    let index = s.history_index + 1 in
    if ltb s.history_index s.history_count
    then (if index == s.history_count
        then recall (update s.current_line 0 0) (record s { history_index = index })
        else recall (history_line index s) (record s { history_index = index }))
    else some s

-- Where the command starts, behind its leading blanks; `n` bounds their number.
unfoldable pub skip_blanks : ℕ → Mem → ℕ → ℕ
skip_blanks zero line start = start
skip_blanks (suc n) line start =
    if line start == b' ' then skip_blanks n line (start + 1) else start

-- A command enters the history.
unfoldable pub save_command : ℕ → Shell → Shell
save_command start s =
    let row = s.history_count % history_size in
    record s {
      history_buffer =
          update s.history_buffer row (
            copy_line max_cmd_len 0 false (λ i. s.current_line (start + i)) (s.history_buffer row));
      history_count = s.history_count + 1;
      history_index = s.history_count + 1;
    }

unfoldable pub clear_line : Shell → Shell
clear_line s = record s {
  current_line = λ i. if ltb i max_cmd_len then 0 else s.current_line i;
  cursor_pos = 0;
  line_len = 0;
}

-- process_command on the editor's state: a line of blanks only returns early.
unfoldable pub process_command : Shell → Shell
process_command s =
    let start = skip_blanks max_cmd_len s.current_line 0 in
    if s.current_line start == 0 then s else clear_line (save_command start s)

-- shell_init, without the prompt.
unfoldable pub shell_init : Shell → Shell
shell_init s = record s {
  current_line = λ i. if ltb i max_cmd_len then 0 else s.current_line i;
  cursor_pos = 0;
  line_len = 0;
  history_index = s.history_count;
}

-- shell_handle_input; the newline runs the command.
unfoldable pub handle_input : ℕ → Shell → Option Shell
handle_input c s =
    if c == arrow_left
    then some (go_left s)
    else if c == arrow_right
    then some (go_right s)
    else if c == arrow_up
    then go_up s
    else if c == arrow_down
    then go_down s
    else if c == 10
    then some (process_command (record s { current_line = update s.current_line s.line_len 0 }))
    else if c == 8
    then some (backspace s)
    else if leb b' ' c && leb c b'~'
    then some (insert c s)
    else some s

-- The loop of shell_run, over the characters that its reads return.
unfoldable pub inputs : List ℕ → Shell → Option Shell
inputs [] s = some s
inputs (c ∷ cs) s = elim (handle_input c s) [ none ↦ none | some s' ↦ inputs cs s' ]
