-- ===== src/Descriptors/Gates.antt =====
-- The interrupt table as the processor reads it.
use capstone_myos.Prelude.{
  ℕ, zero, suc, ◌+◌, ◌-◌, ◌*◌, ◌/◌, ◌^◌, ◌<◌, ◌≡◌, refl, arith, true, ◌&&◌, ◌||◌, ◌==◌, leb, ltb,
  if◌then◌else◌, bit_and, bit_and-low, ◌∙◌, Bool-cases, inl, inr, Bool-cases, inl, inr,
}
use capstone_myos.Descriptors.{Gate, idt_set_gate, set_gates, idt_install}

-- The address that a gate leads to.
abbrev pub target : Gate → ℕ
target g = g.base_low + g.base_high * 2 ^ 16

-- A gate's address, selector and type.
abbrev pub Leads : Gate → ℕ → ℕ → ℕ → Type 0
Leads g base selector flags = (target g ≡ base) × (g.selector ≡ selector) × (g.flags ≡ flags)

abbrev made : ℕ → ℕ → ℕ → Gate
made base selector flags = record {
  base_low = bit_and base 0xFFFF;
  base_high = bit_and (base / 2 ^ 16) 0xFFFF;
  selector = selector;
  always0 = 0;
  flags = flags;
}

made-target : (base selector flags : ℕ) → base < 2 ^ 32 → target (made base selector flags) ≡ base
made-target base selector flags lt =
    omega (arith, bit_and-low 16 base, bit_and-low 16 (base / 2 ^ 16))

set_gates_lem :
    (n num : ℕ) (stub : ℕ → ℕ) (selector flags : ℕ) (entries : ℕ → Gate) (i : ℕ)
    → set_gates n num stub selector flags entries i
      ≡ (if leb num i && ltb i (num + n) then made (stub (i - num)) selector flags else entries i)
unfolding set_gates idt_set_gate
set_gates_lem zero num stub selector flags entries i = ground arith
set_gates_lem (suc n) num stub selector flags entries i =
    let ih =
      set_gates_lem n (num + 1) (λ j. stub (j + 1)) selector flags
        (idt_set_gate num (stub 0) selector flags entries) i in
    let first : ltb num i ≡ true → i - (num + 1) + 1 ≡ i - num = λ more. ground arith in
    ih ∙ elim (Bool-cases (ltb num i)) [
      | inl more ↦ rw (first more) (ground arith)
      | inr less ↦ ground arith
    ]

-- The stub, the selector and the type that idt_install is to give to a vector.
abbrev pub stub_of : (ℕ → ℕ) → (ℕ → ℕ) → ℕ → ℕ → ℕ
stub_of isr irq isr128 i =
    if i == 128 then isr128 else if ltb i 32 then isr i else if ltb i 48 then irq (i - 32) else 0

abbrev pub selector_of : ℕ → ℕ
selector_of i = if (i == 128) || ltb i 48 then 0x08 else 0

-- Exceptions are trap gates, interrupts are interrupt gates, and the system call's is an interrupt
-- gate that user programs may use.
abbrev pub flags_of : ℕ → ℕ
flags_of i = if i == 128 then 0xEE else if ltb i 32 then 0x8F else if ltb i 48 then 0x8E else 0

install-made :
    (isr irq : ℕ → ℕ) (isr128 : ℕ) (entries : ℕ → Gate) (i : ℕ)
    → i < 256
    → idt_install isr irq isr128 entries i
      ≡ made (stub_of isr irq isr128 i) (selector_of i) (flags_of i)
unfolding idt_install idt_set_gate
install-made isr irq isr128 entries i lt = ground (
  arith,
  set_gates_lem 256 0 (λ j. 0) 0 0 entries i,
  set_gates_lem 32 0 isr 0x08 0x8F (set_gates 256 0 (λ j. 0) 0 0 entries) i,
  set_gates_lem 16 32 irq 0x08 0x8E
      (set_gates 32 0 isr 0x08 0x8F (set_gates 256 0 (λ j. 0) 0 0 entries)) i,
)

stub_of-lt :
    (isr irq : ℕ → ℕ) (isr128 i : ℕ)
    → ((j : ℕ) → isr j < 2 ^ 32)
    → ((j : ℕ) → irq j < 2 ^ 32)
    → isr128 < 2 ^ 32
    → stub_of isr irq isr128 i < 2 ^ 32
stub_of-lt isr irq isr128 i a b c = ground (arith, a i, b (i - 32))

-- After idt_install, for stubs at 32-bit addresses, the processor finds at every vector the stub that
-- belongs there, the kernel's code segment and the type: trap gates for the exceptions, interrupt
-- gates for the hardware's interrupts and, open to user programs, for the system call, and nothing
-- at the other vectors.
pub idt_install_lem :
    (isr irq : ℕ → ℕ) (isr128 : ℕ) (entries : ℕ → Gate) (i : ℕ)
    → ((j : ℕ) → isr j < 2 ^ 32)
    → ((j : ℕ) → irq j < 2 ^ 32)
    → isr128 < 2 ^ 32
    → i < 256
    → Leads
        (idt_install isr irq isr128 entries i)
        (stub_of isr irq isr128 i)
        (selector_of i)
        (flags_of i)
idt_install_lem isr irq isr128 entries i a b c lt = rw (install-made isr irq isr128 entries i lt) (
  made-target (stub_of isr irq isr128 i) (selector_of i) (flags_of i)
      (stub_of-lt isr irq isr128 i a b c),
  refl,
  refl,
)
