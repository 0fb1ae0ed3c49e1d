-- ===== src/Descriptors/Segments.antt =====
-- The descriptors of the GDT as the processor reads them.
use capstone_myos.Prelude.{
  ℕ, ◌+◌, ◌*◌, ◌/◌, ◌%◌, ◌^◌, ◌<◌, ◌≡◌, refl, arith, true, ◌==◌, ==_iff, if◌then◌else◌, bit_and,
  bit_or, bit_and-low, all_below, all_below-elim,
}
use capstone_myos.Descriptors.{Segment, gdt_set_gate}

-- The processor's reading of a descriptor: the base address, the limit of 20 bits and the flags.
abbrev pub base_of : Segment → ℕ
base_of s = s.base_low + s.base_middle * 2 ^ 16 + s.base_high * 2 ^ 24

abbrev pub limit_of : Segment → ℕ
limit_of s = s.limit_low + s.granularity % 16 * 2 ^ 16

abbrev pub nibble_of : Segment → ℕ
nibble_of s = s.granularity / 16

nibbles_table :
    all_below 16 (λ a. all_below 256 (λ g. bit_or a (bit_and g 0xF0) == a + g / 16 * 16)) ≡ true
unfolding all_below
nibbles_table = refl

nibbles : (a g : ℕ) → a < 16 → g < 256 → bit_or a (bit_and g 0xF0) ≡ a + g / 16 * 16
nibbles a g small byte = (==_iff (bit_or a (bit_and g 0xF0)) (a + g / 16 * 16)).0 (
    all_below-elim 256 (λ h. bit_or a (bit_and h 0xF0) == a + h / 16 * 16) g
      (all_below-elim 16 (λ b. all_below 256 (λ h. bit_or b (bit_and h 0xF0) == b + h / 16 * 16)) a
        nibbles_table small)
      byte)

-- What gdt_set_gate stores for a 32-bit base is read back: the base, the low 20 bits of the limit, the
-- access byte and the upper half of the granularity byte; the other descriptors stay.
pub gdt_set_gate_lem :
    (num base limit access gran : ℕ) (entries : ℕ → Segment) (i : ℕ)
    → base < 2 ^ 32
    → gran < 256
    → (base_of (gdt_set_gate num base limit access gran entries i)
        ≡ (if i == num then base else base_of (entries i)))
      × (limit_of (gdt_set_gate num base limit access gran entries i)
          ≡ (if i == num then limit % 2 ^ 20 else limit_of (entries i)))
      × ((gdt_set_gate num base limit access gran entries i).access
          ≡ (if i == num then access else (entries i).access))
      × (nibble_of (gdt_set_gate num base limit access gran entries i)
          ≡ (if i == num then gran / 16 else nibble_of (entries i)))
unfolding gdt_set_gate
gdt_set_gate_lem num base limit access gran entries i lt byte =
    let low = bit_and-low 16 base in
    let middle = bit_and-low 8 (base / 2 ^ 16) in
    let high = bit_and-low 8 (base / 2 ^ 24) in
    let limit_low = bit_and-low 16 limit in
    let limit_high = bit_and-low 4 (limit / 2 ^ 16) in
    let both = nibbles (bit_and (limit / 2 ^ 16) 0x0F) gran (omega (arith, limit_high)) byte in
    (
      ground (arith, low, middle, high),
      ground (arith, limit_low, limit_high, both),
      ground arith,
      ground (arith, limit_high, both),
    )
