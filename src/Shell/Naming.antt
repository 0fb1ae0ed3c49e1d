-- ===== src/Shell/Naming.antt =====
-- The command that a line runs is the one that its first word names.
use capstone_myos.Prelude.{
  ◌∙◌, sym, ap, arith, ◌+◌, ◌≡◌, ◌≢◌, ◌<◌, refl, ◌⊎◌, inl, inr, length, All, ℕ, zero, suc, true,
  false, List, [], ◌∷◌, map, ◌==◌, Bool-cases, ==_refl, ==_of_ne,
}
use mathlib.Core.Bool.{false≢true}
use capstone_myos.Strings.{Mem}
use capstone_myos.Strings.Scan.{IsCStr}
use capstone_myos.Shell.{max_cmd_len}
use capstone_myos.Shell.Words.{max_args, split_words}
use capstone_myos.Shell.Split.{IsLine, IsSplit, split_words_lem}
use capstone_myos.Shell.Effects.{Command, unknown_command}
use capstone_myos.Shell.Dispatch.{
  same_word, command_name, commands, lookup, command_of, word_at, command_line, words_of,
}

same_word_sound : (a b : List ℕ) → same_word a b ≡ true → a ≡ b
unfolding same_word
same_word_sound [] [] e = refl
same_word_sound [] (d ∷ b) e = absurd (false≢true e)
same_word_sound (c ∷ a) [] e = absurd (false≢true e)
same_word_sound (c ∷ a) (d ∷ b) e =
    let head : c ≡ d = ground (arith, e) in
    let rest : same_word a b ≡ true = ground (arith, e) in rw (head, same_word_sound a b rest) refl

same_word_refl : (a : List ℕ) → same_word a a ≡ true
unfolding same_word
same_word_refl [] = refl
same_word_refl (c ∷ a) = rw (==_refl c) (same_word_refl a)

-- The search: no name of the list is the word, or the word is the name of the answer.
abbrev IsNamed : List Command → List ℕ → Command → Type 0
IsNamed cs w c = ((c ≡ unknown_command) × All (λ d. w ≢ command_name d) cs) ⊎ (w ≡ command_name c)

lookup-IsNamed : (cs : List Command) (w : List ℕ) → IsNamed cs w (lookup cs w)
unfolding lookup
lookup-IsNamed [] w = inl (refl, tt)
lookup-IsNamed (c ∷ cs) w = elim (Bool-cases (same_word w (command_name c))) [
  | inl yes_same ↦ rw yes_same (inr (same_word_sound w (command_name c) yes_same))
  | inr other ↦ rw other (elim (lookup-IsNamed cs w) [
    | inl (e, none_of) ↦ inl (
      e,
      ((λ same. false≢true (sym other ∙ ap (same_word w) (sym same) ∙ same_word_refl w)), none_of),
    )
    | inr e ↦ inr e
  ])
]

word_at_lem :
    (n : ℕ) (m : Mem) (p : ℕ) (w : List ℕ) → length w < n → IsCStr m p w → word_at n m p ≡ w
unfolding word_at
word_at_lem zero m p w lt s = absurd (omega arith)
word_at_lem (suc n) m p [] lt s = rw s refl
word_at_lem (suc n) m p (c ∷ w) lt (e, nz, s) =
    let other : (c == 0) ≡ false = ==_of_ne c 0 nz in
    rw (e, other, word_at_lem n m (p + 1) w (omega arith) s) refl

IsLine-short :
    (m : Mem) (p : ℕ) (ws : List (List ℕ × ℕ))
    → IsLine m p ws
    → All (λ (x : List ℕ × ℕ). length x.0 < max_cmd_len) ws
IsLine-short m p [] l = tt
IsLine-short m p ((w, zero) ∷ []) l = (l.1, tt)
IsLine-short m p ((w, zero) ∷ _ ∷ _) l = absurd l
IsLine-short m p ((w, suc gap) ∷ rest) l = (l.1, IsLine-short m (p + length w + suc gap) rest l.5)

words_of_lem :
    (m : Mem) (argv : List ℕ) (ws : List (List ℕ × ℕ))
    → IsSplit m argv ws
    → All (λ (x : List ℕ × ℕ). length x.0 < max_cmd_len) ws
    → words_of m argv ≡ map (λ x. x.0) ws
unfolding words_of
words_of_lem m [] [] s short = refl
words_of_lem m [] (w ∷ ws) s short = absurd s
words_of_lem m (p ∷ argv) [] s short = absurd s
words_of_lem m (p ∷ argv) ((w, gap) ∷ ws) (here, s) (lt, short) =
    rw (word_at_lem max_cmd_len m p w lt here) (ap (λ l. w ∷ l) (words_of_lem m argv ws s short))

-- From a line of at most 16 words, each shorter than the line's buffer and so are the blanks between
-- them, process_command runs a command on the words behind the first; the first word is the name of
-- that command, or the command is the unknown one and the word is no command's name.
pub command_line_lem :
    (m : Mem) (p gap : ℕ) (w : List ℕ) (rest : List (List ℕ × ℕ))
    → length rest < max_args
    → IsLine m p ((w, gap) ∷ rest)
    → let (line, argv) = split_words max_args m p in
      let (command, args) = command_line (words_of line argv) in
      (args ≡ map (λ x. x.0) rest)
      × (((command ≡ unknown_command) × All (λ d. w ≢ command_name d) commands)
          ⊎ (w ≡ command_name command))
unfolding command_line command_of
command_line_lem m p gap w rest few l =
    let (line, argv) = split_words max_args m p in
    let s = split_words_lem m p ((w, gap) ∷ rest) (omega arith) l in
    let short = IsLine-short m p ((w, gap) ∷ rest) l in
    let same = words_of_lem line argv ((w, gap) ∷ rest) s short in
    rw same (refl, lookup-IsNamed commands w)
