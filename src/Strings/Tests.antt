-- ===== src/Strings/Tests.antt =====
-- The string routines on concrete memories.
use capstone_myos.Prelude.{ℕ, ◌≡◌, refl, arith, inr, List, [], ◌∷◌, window, update}
use capstone_myos.Strings.Copy.{strncpy_lem}
use capstone_myos.Strings.{Mem, copy_chars, pad_chars, strncpy}

-- "42" at 0 and "4" at 8.
abbrev text : Mem
text = update (update (update (λ a. 0) 0 b'4') 1 b'2') 8 b'4'

abbrev forty_two : List ℕ
forty_two = b'4' ∷ b'2' ∷ []

strncpy-text : window (strncpy text 16 0 4) 16 5 ≡ b'4' ∷ b'2' ∷ 0 ∷ 0 ∷ 0 ∷ []
unfolding strncpy copy_chars pad_chars
strncpy-text = refl

strncpy_lem_example : strncpy text 16 0 4 17 ≡ b'2'
strncpy_lem_example = strncpy_lem 4 text 16 0 17 forty_two (inr (omega arith)) (omega arith)
