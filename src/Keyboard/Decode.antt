-- ===== src/Keyboard/Decode.antt =====
-- The two scancode tables against each other.
use capstone_myos.Prelude.{
  ℕ, ◌≤◌, ◌≡◌, refl, arith, true, false, ◌&&◌, ◌||◌, not, leb, ◌==◌, all_below, all_below-elim,
}
use native.Mathlib.Decide.{dec_lt}
use capstone_myos.Strings.{toupper}
use capstone_myos.Keyboard.{character}

letter_keys :
    all_below 128 (λ sc.
      not (leb b'a' (character false sc) && leb (character false sc) b'z')
      || (character true sc == toupper (character false sc)))
    ≡ true
unfolding character toupper all_below
letter_keys = refl

beyond : (sc : ℕ) → 128 ≤ sc → character false sc ≡ 0
unfolding character
beyond sc h = ground arith

-- A key that types a lower-case letter types, with shift, the capital that toupper makes of it.
pub character_shift :
    (scancode : ℕ)
    → b'a' ≤ character false scancode
    → character false scancode ≤ b'z'
    → character true scancode ≡ toupper (character false scancode)
character_shift sc lo hi = elim (dec_lt sc 128) [
  | yes small ↦ ground (arith, all_below-elim 128 _ sc letter_keys small)
  | no large ↦ absurd (omega (arith, beyond sc))
]
