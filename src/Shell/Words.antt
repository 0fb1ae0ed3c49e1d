-- ===== src/Shell/Words.antt =====
-- kernel/shell.c (process_command): the words of a command line. Each word is ended in place, and
-- argv leads to its start.
use capstone_myos.Prelude.{ℕ, zero, suc, ◌+◌, ◌||◌, List, [], ◌∷◌, ◌==◌, if◌then◌else◌, update}
use capstone_myos.Strings.{Mem}
use capstone_myos.Shell.{max_cmd_len, skip_blanks}

abbrev pub max_args : ℕ
max_args = 16

-- The end of the word at `p`; `n` bounds its length.
unfoldable pub find_end : ℕ → Mem → ℕ → ℕ
find_end zero line p = p
find_end (suc n) line p = if (line p == 0) || (line p == b' ') then p else find_end n line (p + 1)

-- The loop, with room for `left` more arguments: the line and the pointers.
unfoldable pub split_words : ℕ → Mem → ℕ → Mem × List ℕ
split_words zero line p = (line, [])
split_words (suc left) line p =
    let word_end = find_end max_cmd_len line p in
    let line' = update line word_end 0 in
    let (after, argv) = split_words left line' (skip_blanks max_cmd_len line' (word_end + 1)) in
    if line p == 0
    then (line, [])
    else if line word_end == b' '
    then (after, p ∷ argv)
    else (line, p ∷ [])
