-- ===== src/Vga/Tests.antt =====
-- The screen driver on concrete screens.
use capstone_myos.Prelude.{ℕ, ◌≡◌, refl, ◌+◌, ◌*◌, ◌≤◌, arith, some, List, []}
use capstone_myos.Strings.{Mem, atoi}
use capstone_myos.Strings.Scan.{IsCStr}
use capstone_myos.Vga.{
  Vga, blank, update_cursor, wrap, scroll, show_cursor, put, print_char, print_string, print_dec,
  print_dec_on,
}
use capstone_myos.Vga.Screen.{IsOnScreen, shown_position, print_char_safe}
use capstone_myos.Vga.Digits.{atoi-print_dec}

-- An empty screen, the cursor on the last line.
abbrev bottom : Vga
bottom = record { cursor_row = 24; cursor_col = 5; buffer = λ a. blank; ports = [] }

bottom-IsOnScreen : IsOnScreen bottom
bottom-IsOnScreen = omega arith

dec_cursor : (print_dec 1024 bottom).cursor_col ≡ 9
unfolding print_dec print_dec_on print_char show_cursor update_cursor scroll wrap put
dec_cursor = refl

print_char_safe_example :
    let t = print_char b'\n' bottom in
    IsOnScreen t
    × ((a : ℕ) → 2000 ≤ a → t.buffer a ≡ blank)
    × (shown_position t.ports ≡ t.cursor_row * 80 + t.cursor_col)
print_char_safe_example = print_char_safe b'\n' bottom bottom-IsOnScreen

atoi-print_dec_example :
    (str : List ℕ) × (print_dec 1024 bottom ≡ print_string str bottom)
    × ((m : Mem) (p : ℕ) → IsCStr m p str → atoi 11 m p ≡ some 1024)
atoi-print_dec_example = atoi-print_dec 1024 bottom (omega arith)
