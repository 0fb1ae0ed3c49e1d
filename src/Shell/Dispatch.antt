-- ===== src/Shell/Dispatch.antt =====
-- kernel/shell.c (process_command): from the line to the command.
use capstone_myos.Prelude.{
  ◌+◌, ℕ, zero, suc, Bool, true, false, ◌&&◌, Option, none, some, List, [], ◌∷◌, map, ◌==◌,
  if◌then◌else◌,
}
use capstone_myos.Strings.{Mem}
use capstone_myos.Shell.{Shell, max_cmd_len, skip_blanks, save_command, clear_line}
use capstone_myos.Shell.Redraw.{prompt}
use capstone_myos.Shell.Words.{max_args, split_words}
use capstone_myos.Shell.Effects.{
  Command, help_command, cls_command, uptime_command, reboot_command, memtest_command, cat_command,
  disktest_command, sleep_command, ls_command, dump_command, run_command, ps_command, kill_command,
  vsbeep_command, vsprobe_command, unknown_command, Console, World, say, execute,
}

-- Whether strcmp finds no difference.
unfoldable pub same_word : List ℕ → List ℕ → Bool
same_word [] [] = true
same_word [] (d ∷ ds) = false
same_word (c ∷ cs) [] = false
same_word (c ∷ cs) (d ∷ ds) = (c == d) && same_word cs ds

abbrev pub command_name : Command → List ℕ
command_name help_command = (b'h' ∷ b'e' ∷ b'l' ∷ b'p' ∷ [])
command_name cls_command = (b'c' ∷ b'l' ∷ b's' ∷ [])
command_name uptime_command = (b'u' ∷ b'p' ∷ b't' ∷ b'i' ∷ b'm' ∷ b'e' ∷ [])
command_name reboot_command = (b'r' ∷ b'e' ∷ b'b' ∷ b'o' ∷ b'o' ∷ b't' ∷ [])
command_name memtest_command = (b'm' ∷ b'e' ∷ b'm' ∷ b't' ∷ b'e' ∷ b's' ∷ b't' ∷ [])
command_name cat_command = (b'c' ∷ b'a' ∷ b't' ∷ [])
command_name disktest_command = (b'd' ∷ b'i' ∷ b's' ∷ b'k' ∷ b't' ∷ b'e' ∷ b's' ∷ b't' ∷ [])
command_name sleep_command = (b's' ∷ b'l' ∷ b'e' ∷ b'e' ∷ b'p' ∷ [])
command_name ls_command = (b'l' ∷ b's' ∷ [])
command_name dump_command = (b'd' ∷ b'u' ∷ b'm' ∷ b'p' ∷ [])
command_name run_command = (b'r' ∷ b'u' ∷ b'n' ∷ [])
command_name ps_command = (b'p' ∷ b's' ∷ [])
command_name kill_command = (b'k' ∷ b'i' ∷ b'l' ∷ b'l' ∷ [])
command_name vsbeep_command = (b'v' ∷ b's' ∷ b'b' ∷ b'e' ∷ b'e' ∷ b'p' ∷ [])
command_name vsprobe_command = (b'v' ∷ b's' ∷ b'p' ∷ b'r' ∷ b'o' ∷ b'b' ∷ b'e' ∷ [])
command_name unknown_command = []

-- The commands in the order of the comparisons.
abbrev pub commands : List Command
commands =
    help_command ∷ cls_command ∷ uptime_command ∷ reboot_command ∷ memtest_command ∷ cat_command
    ∷ disktest_command ∷ sleep_command ∷ ls_command ∷ dump_command ∷ run_command ∷ ps_command
    ∷ kill_command ∷ vsbeep_command ∷ vsprobe_command ∷ []

unfoldable pub lookup : List Command → List ℕ → Command
lookup [] w = unknown_command
lookup (c ∷ cs) w = let rest = lookup cs w in if same_word w (command_name c) then c else rest

unfoldable pub command_of : List ℕ → Command
command_of w = lookup commands w

-- The string at an address, of fewer than `n` characters.
unfoldable pub word_at : ℕ → Mem → ℕ → List ℕ
word_at zero m p = []
word_at (suc n) m p = let rest = word_at n m (p + 1) in if m p == 0 then [] else m p ∷ rest

-- The command and its arguments, from the words of a line.
unfoldable pub command_line : List (List ℕ) → Command × List (List ℕ)
command_line [] = (unknown_command, [])
command_line (w ∷ ws) = (command_of w, ws)

unfoldable pub words_of : Mem → List ℕ → List (List ℕ)
words_of line argv = map (word_at max_cmd_len line) argv

abbrev pub is_cls : Command → Bool
is_cls cls_command = true
is_cls _ = false

-- process_command, on the editor and the console; `none` is a fault or a loop that takes more than its fuel.
unfoldable pub run_line : World → Shell → Console → Option (Shell × Console)
run_line w s c =
    let start = skip_blanks max_cmd_len s.current_line 0 in
    let saved = save_command start s in
    let (line, argv) = split_words max_args s.current_line start in
    let (command, args) = command_line (words_of line argv) in
    elim (s.current_line start == 0) [
      | true ↦ some (s, say prompt (say (10 ∷ []) c))
      | false ↦ elim (execute w command args (word_at max_cmd_len line 0) (say (10 ∷ []) c)) [
        | none ↦ none
        | some c' ↦
            some (clear_line saved, say prompt (if is_cls command then c' else say (10 ∷ []) c'))
      ]
    ]
