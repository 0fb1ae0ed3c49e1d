-- ===== src/Descriptors.antt =====
-- kernel/cpu/idt.c, kernel/cpu/gdt.c, kernel/cpu/tss.c and kernel/cpu/irq.c: the tables that the
-- processor reads, and the dispatch of the hardware interrupts. kernel/cpu/exceptions.c is in Fault.
pub mod Gates
pub mod Segments
pub mod Fault
mod Tests
use capstone_myos.Prelude.{
  ℕ, zero, suc, ◌+◌, ◌-◌, ◌*◌, ◌/◌, ◌%◌, ◌^◌, Option, none, some, List, [], ◌∷◌, leb, if◌then◌else◌,
  update, bit_and, bit_or,
}

-- idt_entry_struct.
pub record Gate : Type 0 where
  pub base_low : ℕ
  pub selector : ℕ
  pub always0 : ℕ
  pub flags : ℕ
  pub base_high : ℕ

-- The arguments are of the widths 8, 32, 16 and 8 bits.
unfoldable pub idt_set_gate : ℕ → ℕ → ℕ → ℕ → (ℕ → Gate) → ℕ → Gate
idt_set_gate num base selector flags entries = update entries num (record {
  base_low = bit_and base 0xFFFF;
  base_high = bit_and (base / 2 ^ 16) 0xFFFF;
  selector = selector;
  always0 = 0;
  flags = flags;
})

-- `n` calls of idt_set_gate, from the vector `num` on, for stubs with consecutive numbers.
unfoldable pub set_gates : ℕ → ℕ → (ℕ → ℕ) → ℕ → ℕ → (ℕ → Gate) → ℕ → Gate
set_gates zero num stub selector flags entries = entries
set_gates (suc n) num stub selector flags entries =
    set_gates n (num + 1) (λ i. stub (i + 1)) selector flags
      (idt_set_gate num (stub 0) selector flags entries)

-- idt_install on the addresses of the stubs `isr`0 to 31, `irq`0 to 15 and isr128.
unfoldable pub idt_install : (ℕ → ℕ) → (ℕ → ℕ) → ℕ → (ℕ → Gate) → ℕ → Gate
idt_install isr irq isr128 entries = idt_set_gate 128 isr128 0x08 0xEE (
    set_gates 16 32 irq 0x08 0x8E
      (set_gates 32 0 isr 0x08 0x8F (set_gates 256 0 (λ i. 0) 0 0 entries)))

-- gdt_entry_struct.
pub record Segment : Type 0 where
  pub limit_low : ℕ
  pub base_low : ℕ
  pub base_middle : ℕ
  pub access : ℕ
  pub granularity : ℕ
  pub base_high : ℕ

-- The last two arguments are bytes.
unfoldable pub gdt_set_gate : ℕ → ℕ → ℕ → ℕ → ℕ → (ℕ → Segment) → ℕ → Segment
gdt_set_gate num base limit access gran entries = update entries num (record {
  base_low = bit_and base 0xFFFF;
  base_middle = bit_and (base / 2 ^ 16) 0xFF;
  base_high = bit_and (base / 2 ^ 24) 0xFF;
  limit_low = bit_and limit 0xFFFF;
  granularity = bit_or (bit_and (limit / 2 ^ 16) 0x0F) (bit_and gran 0xF0);
  access = access;
})

unfoldable pub gdt_install : (ℕ → Segment) → ℕ → Segment
gdt_install entries = gdt_set_gate 4 0 0xFFFFFFFF 0xF2 0xCF (
    gdt_set_gate 3 0 0xFFFFFFFF 0xFA 0xCF (
      gdt_set_gate 2 0 0xFFFFFFFF 0x92 0xCF
        (gdt_set_gate 1 0 0xFFFFFFFF 0x9A 0xCF (gdt_set_gate 0 0 0 0 0 entries))))

-- tss_install's descriptor for a task state segment of 104 bytes at `base`.
unfoldable pub tss_gate : ℕ → (ℕ → Segment) → ℕ → Segment
tss_gate base entries = gdt_set_gate 5 base 104 0x89 0x40 entries

-- irq_install_handler and irq_uninstall_handler; a handler is named by its address.
unfoldable pub irq_install_handler : ℕ → ℕ → (ℕ → Option ℕ) → ℕ → Option ℕ
irq_install_handler irq handler routines = update routines irq (some handler)

unfoldable pub irq_uninstall_handler : ℕ → (ℕ → Option ℕ) → ℕ → Option ℕ
irq_uninstall_handler irq routines = update routines irq none

-- irq_handler: the handler that it calls, and the bytes that it writes to the interrupt controllers
-- afterwards.
unfoldable pub irq_handler : (ℕ → Option ℕ) → ℕ → Option ℕ × List (ℕ × ℕ)
irq_handler routines int_no = (
  routines (int_no - 32),
  if leb 40 int_no then (0xA0, 0x20) ∷ (0x20, 0x20) ∷ [] else (0x20, 0x20) ∷ [],
)
