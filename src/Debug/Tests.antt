-- ===== src/Debug/Tests.antt =====
-- The debug output of concrete values.
use capstone_myos.Prelude.{◌≡◌, refl, ◌+◌, ◌-◌, ◌^◌, [], ◌∷◌}
use capstone_myos.Debug.{debug_hex, debug_nibbles, nibble_char, debug_dec, dec_digits, dump_bytes}

hex_beef :
    debug_hex 0xBEEF ≡ b'0' ∷ b'x' ∷ b'0' ∷ b'0' ∷ b'0' ∷ b'0' ∷ b'B' ∷ b'E' ∷ b'E' ∷ b'F' ∷ []
unfolding debug_hex debug_nibbles nibble_char
hex_beef = refl

dec_1042 : debug_dec 1042 ≡ b'1' ∷ b'0' ∷ b'4' ∷ b'2' ∷ []
unfolding debug_dec dec_digits
dec_1042 = refl

dec_widest :
    debug_dec (2 ^ 32 - 1)
    ≡ b'4' ∷ b'2' ∷ b'9' ∷ b'4' ∷ b'9' ∷ b'6' ∷ b'7' ∷ b'2' ∷ b'9' ∷ b'5' ∷ []
unfolding debug_dec dec_digits
dec_widest = refl

two_bytes : dump_bytes 2 (λ i. 0xA0 + i) 4 0 ≡ b'A' ∷ b'4' ∷ b' ' ∷ b'A' ∷ b'5' ∷ b' ' ∷ []
unfolding dump_bytes nibble_char
two_bytes = refl
