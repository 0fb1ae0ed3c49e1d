-- ===== src/Devices.antt =====
-- kernel/drivers/pci.c and kernel/drivers/dma.c: the configuration accesses of the PCI bus, whose
-- registers are an argument, and the port writes that program the DMA controller. The disk is in Disk.
pub mod Disk
pub mod Start
mod Tests
use capstone_myos.Prelude.{
  ℕ, zero, suc, ◌+◌, ◌-◌, ◌*◌, ◌/◌, ◌%◌, ◌^◌, Bool, true, false, ◌&&◌, Option, none, some, List, [],
  ◌∷◌, ◌==◌, leb, if◌then◌else◌, bit_and, bit_or,
}

-- The address packet; the arguments are bytes.
unfoldable pub config_address : ℕ → ℕ → ℕ → ℕ → ℕ
config_address bus slot func offset =
    bit_or
      (bit_or (bit_or (bit_or (bus * 2 ^ 16) (slot * 2 ^ 11)) (func * 2 ^ 8)) (bit_and offset 0xFC))
      0x80000000

-- `config` is what the data port reads for an address.
unfoldable pub config_read_word : (ℕ → ℕ) → ℕ → ℕ → ℕ → ℕ → ℕ
config_read_word config bus slot func offset = config (config_address bus slot func offset)

unfoldable pub config_read_byte : (ℕ → ℕ) → ℕ → ℕ → ℕ → ℕ → ℕ
config_read_byte config bus slot func offset =
    let word = config_read_word config bus slot func (bit_and offset 0xFC) in
    bit_and (word / 2 ^ (bit_and offset 3 * 8)) 0xFF

-- The part of virtio_pci_cap_t that pci_find_capability fills.
pub record Cap : Type 0 where
  pub type : ℕ
  pub bar : ℕ
  pub offset : ℕ
  pub length : ℕ

-- The loop of pci_find_capability, from `cap_ptr` on: `none` if `fuel` rounds were not enough, else the
-- capability if there is one. Offsets are bytes and wrap.
unfoldable pub find_capability : ℕ → (ℕ → ℕ) → ℕ → ℕ → ℕ → ℕ → ℕ → Option (Option Cap)
find_capability zero config bus slot func cap_id cap_ptr = none
find_capability (suc fuel) config bus slot func cap_id cap_ptr =
    let byte = λ (o : ℕ). config_read_byte config bus slot func ((cap_ptr + o) % 2 ^ 8) in
    let word = λ (o : ℕ). config_read_word config bus slot func ((cap_ptr + o) % 2 ^ 8) in
    let rest = find_capability fuel config bus slot func cap_id (byte 1) in
    if cap_ptr == 0
    then some none
    else if (byte 0 == 0x09) && (byte 3 == cap_id)
    then some (some (record { type = byte 3; bar = byte 4; offset = word 8; length = word 12 }))
    else rest

-- The scan's inner loop over slots, `n` being left, and its outer loop over buses: the first virtio sound
-- device.
unfoldable pub scan_slots : ℕ → (ℕ → ℕ) → ℕ → ℕ → Option (ℕ × ℕ)
scan_slots zero config bus slot = none
scan_slots (suc n) config bus slot =
    let first_dword = config_read_word config bus slot 0 0 in
    let rest = scan_slots n config bus (slot + 1) in
    if (bit_and first_dword 0xFFFF == 0x1AF4) && (first_dword / 2 ^ 16 == 0x1059)
    then some (bus, slot)
    else rest

abbrev pub first_of : Option (ℕ × ℕ) → Option (ℕ × ℕ) → Option (ℕ × ℕ)
first_of none rest = rest
first_of (some found) rest = some found

unfoldable pub scan_buses : ℕ → (ℕ → ℕ) → ℕ → Option (ℕ × ℕ)
scan_buses zero config bus = none
scan_buses (suc n) config bus =
    let rest = scan_buses n config (bus + 1) in first_of (scan_slots 32 config bus 0) rest

unfoldable pub pci_scan : (ℕ → ℕ) → Option (ℕ × ℕ)
pci_scan config = scan_buses 256 config 0

-- The physical address of a capability's registers.
unfoldable pub cap_address : (ℕ → ℕ) → ℕ → ℕ → Cap → ℕ
cap_address config bus slot cap =
    let bar_val = config_read_word config bus slot 0 ((0x10 + cap.bar * 4) % 2 ^ 8) in
    (bit_and bar_val 0xFFFFFFF0 + cap.offset) % 2 ^ 32

-- dma_prepare_transfer: the ports and the bytes, in order.
unfoldable pub dma_prepare_transfer : ℕ → ℕ → ℕ → ℕ → List (ℕ × ℕ)
dma_prepare_transfer channel mode addr size =
    let count = (size + 2 ^ 32 - 1) % 2 ^ 32 in
    if leb 0x1000000 addr
    then []
    else (0x0A, bit_or 0x04 channel)
      ∷ (0x0C, 0)
      ∷ (0x0B, bit_or mode channel)
      ∷ (0x02, bit_and addr 0xFF)
      ∷ (0x02, bit_and (addr / 2 ^ 8) 0xFF)
      ∷ (0x83, bit_and (addr / 2 ^ 16) 0xFF)
      ∷ (0x03, bit_and count 0xFF)
      ∷ (0x03, bit_and (count / 2 ^ 8) 0xFF)
      ∷ (0x0A, channel)
      ∷ []
