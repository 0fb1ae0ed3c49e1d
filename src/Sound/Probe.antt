-- ===== src/Sound/Probe.antt =====
-- kernel/drivers/virtio.c: virtio_sound_probe.
use capstone_myos.Prelude.{ℕ, Option, none, some, [], ◌∷◌}
use capstone_myos.Vga.{Vga, print_string, print_hex, print_dec}

-- What the registers of the device show: its status, its number of queues, and its features for a value
-- of the selector.
pub record Probe : Type 0 where
  pub device_status : ℕ
  pub num_queues : ℕ
  pub device_feature : ℕ → ℕ

-- The pointer to the registers is NULL before virtio_sound_init.
unfoldable pub sound_probe : Option Probe → Vga → Vga
sound_probe none s =
    print_string
      (b' ' ∷ b' ' ∷ b'E' ∷ b'R' ∷ b'R' ∷ b'O' ∷ b'R' ∷ b':' ∷ b' ' ∷ b'v' ∷ b'i' ∷ b'r' ∷ b't'
        ∷ b'i' ∷ b'o' ∷ b'_' ∷ b's' ∷ b'o' ∷ b'u' ∷ b'n' ∷ b'd' ∷ b'_' ∷ b'c' ∷ b'f' ∷ b'g' ∷ b' '
        ∷ b'i' ∷ b's' ∷ b' ' ∷ b'N' ∷ b'U' ∷ b'L' ∷ b'L' ∷ b'.' ∷ b' ' ∷ b'W' ∷ b'a' ∷ b's' ∷ b' '
        ∷ b'i' ∷ b'n' ∷ b'i' ∷ b't' ∷ b' ' ∷ b's' ∷ b'u' ∷ b'c' ∷ b'c' ∷ b'e' ∷ b's' ∷ b's' ∷ b'f'
        ∷ b'u' ∷ b'l' ∷ b'?' ∷ 10 ∷ [])
      s
sound_probe (some cfg) s =
    let s1 = print_hex cfg.device_status (
      print_string
        (b' ' ∷ b' ' ∷ b'D' ∷ b'e' ∷ b'v' ∷ b'i' ∷ b'c' ∷ b'e' ∷ b' ' ∷ b'S' ∷ b't' ∷ b'a' ∷ b't'
          ∷ b'u' ∷ b's' ∷ b':' ∷ b' ' ∷ b'0' ∷ b'x' ∷ [])
        s) in
    let s2 = print_dec cfg.num_queues (
      print_string
        (10 ∷ b' ' ∷ b' ' ∷ b'N' ∷ b'u' ∷ b'm' ∷ b'b' ∷ b'e' ∷ b'r' ∷ b' ' ∷ b'o' ∷ b'f' ∷ b' '
          ∷ b'Q' ∷ b'u' ∷ b'e' ∷ b'u' ∷ b'e' ∷ b's' ∷ b':' ∷ b' ' ∷ [])
        s1) in
    print_string (10 ∷ []) (
      print_hex (cfg.device_feature 0) (
        print_string
          (10 ∷ b' ' ∷ b' ' ∷ b'D' ∷ b'e' ∷ b'v' ∷ b'i' ∷ b'c' ∷ b'e' ∷ b' ' ∷ b'F' ∷ b'e' ∷ b'a'
            ∷ b't' ∷ b'u' ∷ b'r' ∷ b'e' ∷ b's' ∷ b' ' ∷ b'(' ∷ b'L' ∷ b'o' ∷ b'w' ∷ b' ' ∷ b'3'
            ∷ b'2' ∷ b' ' ∷ b'b' ∷ b'i' ∷ b't' ∷ b's' ∷ b')' ∷ b':' ∷ b' ' ∷ b'0' ∷ b'x' ∷ [])
          s2))

-- What the probe leaves in device_feature_select.
unfoldable pub probe_select : Option Probe → ℕ → ℕ
probe_select none old = old
probe_select (some cfg) old = 0
