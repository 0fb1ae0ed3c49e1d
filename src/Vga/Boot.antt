-- ===== src/Vga/Boot.antt =====
-- kernel/drivers/vga.c: the boot screen.
use capstone_myos.Prelude.{ℕ, List, [], ◌∷◌}
use capstone_myos.Vga.{Vga, print_char_color}

unfoldable pub art_lines : List (List ℕ)
art_lines =
    (10 ∷ [])
    ∷ (b' ' ∷ b'_' ∷ b'_' ∷ b'_' ∷ b'_' ∷ b'_' ∷ b'_' ∷ b'_' ∷ b' ' ∷ b' ' ∷ b'_' ∷ b'_' ∷ b'_'
        ∷ b'_' ∷ b'_' ∷ b'_' ∷ b'_' ∷ b' ' ∷ b' ' ∷ b'_' ∷ b'_' ∷ b'_' ∷ b'_' ∷ b'_' ∷ b'_' ∷ b'_'
        ∷ b' ' ∷ b' ' ∷ b'_' ∷ b'_' ∷ b'_' ∷ b'_' ∷ b'_' ∷ b'_' ∷ b'_' ∷ b' ' ∷ 10 ∷ [])
    ∷ (b'|' ∷ b' ' ∷ b' ' ∷ b' ' ∷ b' ' ∷ b' ' ∷ b' ' ∷ b' ' ∷ b'|' ∷ b'|' ∷ b' ' ∷ b' ' ∷ b' '
        ∷ b' ' ∷ b' ' ∷ b' ' ∷ b' ' ∷ b'|' ∷ b'|' ∷ b' ' ∷ b' ' ∷ b' ' ∷ b' ' ∷ b' ' ∷ b' ' ∷ b' '
        ∷ b'|' ∷ b'|' ∷ b' ' ∷ b' ' ∷ b' ' ∷ b' ' ∷ b' ' ∷ b' ' ∷ b' ' ∷ b'|' ∷ 10 ∷ [])
    ∷ (b'|' ∷ b' ' ∷ b' ' ∷ b' ' ∷ b' ' ∷ b'_' ∷ b' ' ∷ b' ' ∷ b'|' ∷ b'|' ∷ b' ' ∷ b' ' ∷ b' '
        ∷ b' ' ∷ b'_' ∷ b'_' ∷ b'_' ∷ b'|' ∷ b'|' ∷ b' ' ∷ b' ' ∷ b' ' ∷ b'_' ∷ b' ' ∷ b' ' ∷ b' '
        ∷ b'|' ∷ b'|' ∷ b' ' ∷ b' ' ∷ b'_' ∷ b'_' ∷ b'_' ∷ b'_' ∷ b'_' ∷ b'|' ∷ 10 ∷ [])
    ∷ (b'|' ∷ b' ' ∷ b' ' ∷ b' ' ∷ b'|' ∷ b'_' ∷ b'|' ∷ b' ' ∷ b'|' ∷ b'|' ∷ b' ' ∷ b' ' ∷ b' '
        ∷ b'|' ∷ b' ' ∷ b'_' ∷ b'_' ∷ b' ' ∷ b'|' ∷ b' ' ∷ b' ' ∷ b'|' ∷ b' ' ∷ b'|' ∷ b' ' ∷ b' '
        ∷ b'|' ∷ b'|' ∷ b' ' ∷ b'|' ∷ b'_' ∷ b'_' ∷ b'_' ∷ b'_' ∷ b'_' ∷ b' ' ∷ 10 ∷ [])
    ∷ (b'|' ∷ b' ' ∷ b' ' ∷ b' ' ∷ b' ' ∷ b'_' ∷ b'_' ∷ b'_' ∷ b'|' ∷ b'|' ∷ b' ' ∷ b' ' ∷ b' '
        ∷ b'|' ∷ b'|' ∷ b' ' ∷ b' ' ∷ b'|' ∷ b'|' ∷ b' ' ∷ b' ' ∷ b'|' ∷ b'_' ∷ b'|' ∷ b' ' ∷ b' '
        ∷ b'|' ∷ b'|' ∷ b'_' ∷ b'_' ∷ b'_' ∷ b'_' ∷ b'_' ∷ b' ' ∷ b' ' ∷ b'|' ∷ 10 ∷ [])
    ∷ (b'|' ∷ b' ' ∷ b' ' ∷ b' ' ∷ b'|' ∷ b' ' ∷ b' ' ∷ b' ' ∷ b' ' ∷ b'|' ∷ b' ' ∷ b' ' ∷ b' '
        ∷ b'|' ∷ b'_' ∷ b'|' ∷ b' ' ∷ b'|' ∷ b'|' ∷ b' ' ∷ b' ' ∷ b' ' ∷ b' ' ∷ b' ' ∷ b' ' ∷ b' '
        ∷ b'|' ∷ b' ' ∷ b'_' ∷ b'_' ∷ b'_' ∷ b'_' ∷ b'_' ∷ b'|' ∷ b' ' ∷ b'|' ∷ 10 ∷ [])
    ∷ (b'|' ∷ b'_' ∷ b'_' ∷ b'_' ∷ b'|' ∷ b' ' ∷ b' ' ∷ b' ' ∷ b' ' ∷ b'|' ∷ b'_' ∷ b'_' ∷ b'_'
        ∷ b'_' ∷ b'_' ∷ b'_' ∷ b'_' ∷ b'|' ∷ b'|' ∷ b'_' ∷ b'_' ∷ b'_' ∷ b'_' ∷ b'_' ∷ b'_' ∷ b'_'
        ∷ b'|' ∷ b'|' ∷ b'_' ∷ b'_' ∷ b'_' ∷ b'_' ∷ b'_' ∷ b'_' ∷ b'_' ∷ b'|' ∷ 10 ∷ [])
    ∷ (b' ' ∷ b' ' ∷ b' ' ∷ b' ' ∷ b' ' ∷ b' ' ∷ b'W' ∷ b'e' ∷ b'l' ∷ b'c' ∷ b'o' ∷ b'm' ∷ b'e'
        ∷ b' ' ∷ b't' ∷ b'o' ∷ b' ' ∷ b'P' ∷ b'i' ∷ b'e' ∷ b't' ∷ b'e' ∷ b'r' ∷ b's' ∷ 39 ∷ b's'
        ∷ b' ' ∷ b'O' ∷ b'S' ∷ b'!' ∷ b' ' ∷ b' ' ∷ b' ' ∷ b' ' ∷ b' ' ∷ b' ' ∷ 10 ∷ [])
    ∷ []

unfoldable pub print_colored : List ℕ → Vga → Vga
print_colored [] s = s
print_colored (c ∷ cs) s = print_colored cs (print_char_color c 0x09 s)

unfoldable pub print_art : List (List ℕ) → Vga → Vga
print_art [] s = s
print_art (line ∷ rest) s = print_art rest (print_colored line s)

unfoldable pub print_bootscreen : Vga → Vga
print_bootscreen s = print_art art_lines s
