-- ===== src/Devices/Start.antt =====
-- kernel/drivers/pci.c (pci_scan): which device the scan finds, and the mapping of its registers. The
-- messages are left out.
use capstone_myos.Prelude.{
  ℕ, zero, suc, ◌+◌, ◌/◌, ◌^◌, ◌≤◌, ◌<◌, ◌≡◌, refl, sym, arith, inl, inr, Bool, true, false, ◌&&◌,
  Option, none, some, ◌==◌, bit_and, bit_or, Bool-cases,
}
use native.Mathlib.Decide.{ℕ_discrete}
use mathlib.Core.Path.{subst}
use capstone_myos.Paging.{M, pure, ◌>>=◌, ◌>>◌, map_page, load, flag_present, flag_rw}
use capstone_myos.Devices.{
  Cap, config_read_word, config_read_byte, find_capability, cap_address, scan_slots, scan_buses,
  pci_scan, first_of,
}

abbrev pub virtio_snd_virt_addr : ℕ
virtio_snd_virt_addr = 0xE0000000

abbrev pub virtio_snd_notify_virt_addr : ℕ
virtio_snd_notify_virt_addr = 0xE0001000

-- How the start of a device that was found ends: a list of capabilities that `fuel` rounds do not end,
-- no capability for the registers or for the notifications, or a call of virtio_sound_init with the
-- multiplier that the notification region starts with.
pub data StartResult : Type 0 where
  endless no_common_config no_notification : StartResult
  start_sound : ℕ → StartResult

abbrev pub device_flags : ℕ
device_flags = bit_or (bit_or flag_present flag_rw) 0x10

-- pci_find_capability on the function 0 of a device, from the list's head on.
unfoldable pub capability : ℕ → (ℕ → ℕ) → ℕ → ℕ → ℕ → Option (Option Cap)
capability fuel config bus slot cap_id =
    find_capability fuel config bus slot 0 cap_id (config_read_byte config bus slot 0 0x34)

unfoldable pub map_notification : (ℕ → ℕ) → ℕ → ℕ → Option (Option Cap) → M StartResult
map_notification config bus slot none = pure endless
map_notification config bus slot (some none) = pure no_notification
map_notification config bus slot (some (some cap)) = do
  map_page virtio_snd_notify_virt_addr (cap_address config bus slot cap) device_flags
  multiplier ← load virtio_snd_notify_virt_addr
  pure (start_sound multiplier)

unfoldable pub map_common : ℕ → (ℕ → ℕ) → ℕ → ℕ → Option (Option Cap) → M StartResult
map_common fuel config bus slot none = pure endless
map_common fuel config bus slot (some none) = pure no_common_config
map_common fuel config bus slot (some (some cap)) = do
  map_page virtio_snd_virt_addr (cap_address config bus slot cap) device_flags
  map_notification config bus slot (capability fuel config bus slot 2)

-- The branch of pci_scan for a device.
unfoldable pub start_device : ℕ → (ℕ → ℕ) → ℕ → ℕ → M StartResult
start_device fuel config bus slot =
    map_common fuel config bus slot (capability fuel config bus slot 1)

-- The whole of pci_scan; `none` is a scan without a sound device.
unfoldable pub scan_and_start : ℕ → (ℕ → ℕ) → M (Option StartResult)
scan_and_start fuel config = elim (pci_scan config) [
  | none ↦ pure none
  | some (bus, slot) ↦ do result ← start_device fuel config bus slot; pure (some result)
]

-- Whether a virtio sound device answers at a bus and a slot.
abbrev pub is_sound : (ℕ → ℕ) → ℕ → ℕ → Bool
is_sound config bus slot =
    let first_dword = config_read_word config bus slot 0 0 in
    (bit_and first_dword 0xFFFF == 0x1AF4) && (first_dword / 2 ^ 16 == 0x1059)

abbrev IsFirstSlot : (ℕ → ℕ) → ℕ → ℕ → ℕ → Option (ℕ × ℕ) → Type 0
IsFirstSlot config bus lo hi none = (s : ℕ) → lo ≤ s → s < hi → is_sound config bus s ≡ false
IsFirstSlot config bus lo hi (some (b, slot)) =
    (b ≡ bus)
    × (lo ≤ slot)
    × (slot < hi)
    × (is_sound config bus slot ≡ true)
    × ((s : ℕ) → lo ≤ s → s < slot → is_sound config bus s ≡ false)

-- From `lo` on: at `lo`, and above.
from_first : (P : ℕ → Type 0) (lo s : ℕ) → P lo → (lo + 1 ≤ s → P s) → lo ≤ s → P s
from_first P lo s first above le = elim (ℕ_discrete s lo) [
  | yes e ↦ subst P (sym e) first
  | no ne ↦ above (omega arith)
]

IsFirstSlot-skip :
    (config : ℕ → ℕ) (bus lo hi : ℕ) (r : Option (ℕ × ℕ))
    → is_sound config bus lo ≡ false
    → IsFirstSlot config bus (lo + 1) hi r
    → IsFirstSlot config bus lo hi r
IsFirstSlot-skip config bus lo hi none e h =
    λ s le lt. from_first (λ x. is_sound config bus x ≡ false) lo s e (λ up. h s up lt) le
IsFirstSlot-skip config bus lo hi (some (b, slot)) e (same, le, lt, found, before) = (
  same,
  omega arith,
  lt,
  found,
  λ s le' lt'. from_first (λ x. is_sound config bus x ≡ false) lo s e (λ up. before s up lt') le',
)

scan_slots-IsFirstSlot :
    (n lo hi : ℕ) (config : ℕ → ℕ) (bus : ℕ)
    → lo + n ≡ hi
    → IsFirstSlot config bus lo hi (scan_slots n config bus lo)
unfolding scan_slots
scan_slots-IsFirstSlot zero lo hi config bus e = λ s le lt. absurd (omega arith)
scan_slots-IsFirstSlot (suc n) lo hi config bus e =
    let ih = scan_slots-IsFirstSlot n (lo + 1) hi config bus (omega arith) in
    elim (Bool-cases (is_sound config bus lo)) [
      | inl found ↦
          rw found (refl, omega arith, omega arith, found, λ s le lt. absurd (omega arith))
      | inr other ↦
          rw other (IsFirstSlot-skip config bus lo hi (scan_slots n config bus (lo + 1)) other ih)
    ]

-- The first of the devices on the buses from `lo` on, by bus and then by slot.
abbrev pub IsFirstDevice : (ℕ → ℕ) → ℕ → ℕ → Option (ℕ × ℕ) → Type 0
IsFirstDevice config lo hi none = (b s : ℕ) → lo ≤ b → b < hi → s < 32 → is_sound config b s ≡ false
IsFirstDevice config lo hi (some (bus, slot)) =
    (lo ≤ bus)
    × (bus < hi)
    × (slot < 32)
    × (is_sound config bus slot ≡ true)
    × ((b s : ℕ) → lo ≤ b → b < bus → s < 32 → is_sound config b s ≡ false)
    × ((s : ℕ) → s < slot → is_sound config bus s ≡ false)

first_of-IsFirstDevice :
    (config : ℕ → ℕ) (lo hi : ℕ) (r rest : Option (ℕ × ℕ))
    → lo < hi
    → IsFirstSlot config lo 0 32 r
    → IsFirstDevice config (lo + 1) hi rest
    → IsFirstDevice config lo hi (first_of r rest)
first_of-IsFirstDevice config lo hi (some (b, slot)) rest lt (same, _, small, found, before) h = (
  omega arith,
  omega arith,
  small,
  subst (λ x. is_sound config x slot ≡ true) (sym same) found,
  (λ b' s le lt' small'. absurd (omega arith)),
  λ s lt'. subst (λ x. is_sound config x s ≡ false) (sym same) (before s (omega arith) lt'),
)
first_of-IsFirstDevice config lo hi none none lt h k = λ b s le lt' small.
    from_first (λ x. is_sound config x s ≡ false) lo b (h s (omega arith) small)
      (λ up. k b s up lt' small) le
first_of-IsFirstDevice config lo hi none (some (bus, slot)) lt h
      (le, lt', small, found, earlier, before) =
    (
      omega arith,
      lt',
      small,
      found,
      (λ b s le' lt2 small'.
          from_first (λ x. is_sound config x s ≡ false) lo b (h s (omega arith) small')
            (λ up. earlier b s up lt2 small') le'),
      before,
    )

scan_buses-IsFirstDevice :
    (n lo hi : ℕ) (config : ℕ → ℕ)
    → lo + n ≡ hi
    → IsFirstDevice config lo hi (scan_buses n config lo)
unfolding scan_buses
scan_buses-IsFirstDevice zero lo hi config e = λ b s le lt small. absurd (omega arith)
scan_buses-IsFirstDevice (suc n) lo hi config e =
    first_of-IsFirstDevice config lo hi (scan_slots 32 config lo 0) (scan_buses n config (lo + 1))
      (omega arith) (scan_slots-IsFirstSlot 32 0 32 config lo (omega arith))
      (scan_buses-IsFirstDevice n (lo + 1) hi config (omega arith))

-- pci_scan finds the first virtio sound device of the 256 buses of 32 slots each, in the order of the buses
-- and within a bus in that of the slots; it finds none exactly if there is none.
pub pci_scan_lem : (config : ℕ → ℕ) → IsFirstDevice config 0 256 (pci_scan config)
unfolding pci_scan
pci_scan_lem config = scan_buses-IsFirstDevice 256 0 256 config (omega arith)
