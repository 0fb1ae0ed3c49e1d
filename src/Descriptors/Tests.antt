-- ===== src/Descriptors/Tests.antt =====
-- The descriptor tables on concrete arguments.
use capstone_myos.Prelude.{◌≡◌, refl, arith, none, some, [], ◌∷◌}
use capstone_myos.Descriptors.{
  Gate, Segment, idt_install, gdt_set_gate, gdt_install, irq_install_handler, irq_handler,
}
use capstone_myos.Descriptors.Gates.{Leads, stub_of, selector_of, flags_of, idt_install_lem}
use capstone_myos.Descriptors.Segments.{limit_of}

abbrev no_gate : Gate
no_gate = record { base_low = 0; selector = 0; always0 = 0; flags = 0; base_high = 0 }

abbrev no_segment : Segment
no_segment = record {
  limit_low = 0;
  base_low = 0;
  base_middle = 0;
  access = 0;
  granularity = 0;
  base_high = 0;
}

idt_install_lem_example :
    Leads
      (idt_install (λ i. 0x100000) (λ i. 0x200000) 0x300000 (λ i. no_gate) 33)
      (stub_of (λ i. 0x100000) (λ i. 0x200000) 0x300000 33)
      (selector_of 33)
      (flags_of 33)
idt_install_lem_example =
    idt_install_lem (λ i. 0x100000) (λ i. 0x200000) 0x300000 (λ i. no_gate) 33 (λ j. omega arith)
      (λ j. omega arith) (omega arith) (omega arith)

-- The user code segment covers four gigabytes.
user_segment : limit_of (gdt_install (λ i. no_segment) 3) ≡ 0xFFFFF
unfolding gdt_install gdt_set_gate
user_segment = refl

-- An interrupt of the second controller is acknowledged at both.
keyboard_irq :
    irq_handler (irq_install_handler 1 0x1234 (λ i. none)) 33 ≡ (some 0x1234, (0x20, 0x20) ∷ [])
unfolding irq_handler irq_install_handler
keyboard_irq = refl
