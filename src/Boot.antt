-- ===== src/Boot.antt =====
-- kernel/kernel.c: kmain, in the order of its calls. The messages to the debug port and on the screen,
-- the two scans that only draw, and the waiting of delay_ms are left out.
pub mod Frames
pub mod Tasks
mod Tests
use capstone_myos.Prelude.{
  ℕ, zero, suc, ◌+◌, ◌*◌, ◌-◌, ◌%◌, ◌^◌, true, Option, none, some, List, [], ◌∷◌, ◌++◌, bit_and,
  bit_or,
}
use capstone_myos.Strings.{Mem}
use capstone_myos.Pmm.{Pmm, init, alloc_frame, free_frame, frame_size}
use capstone_myos.Paging.{Machine, M, pure, ◌>>◌, map_page, flag_present, flag_rw, paging_init}
use capstone_myos.Heap.{Heap, init_memory, malloc}
use capstone_myos.Process.{Kernel, process_init}
use capstone_myos.Descriptors.{
  Gate, Segment, idt_install, gdt_install, tss_gate, irq_install_handler,
}
use capstone_myos.Fs.Setup.{FileSystem, init_fs}
use capstone_myos.Syscall.{Handler, syscall_install}
use capstone_myos.Timer.{timer_install}

abbrev pub ram : ℕ
ram = 16777216

-- pic_remap, between the two masks that it saves and restores.
unfoldable pub pic_remap : ℕ → ℕ → ℕ → ℕ → List (ℕ × ℕ)
pic_remap offset1 offset2 a1 a2 =
    (0x20, 0x11)
    ∷ (0xA0, 0x11)
    ∷ (0x21, offset1)
    ∷ (0xA1, offset2)
    ∷ (0x21, 4)
    ∷ (0xA1, 2)
    ∷ (0x21, 0x01)
    ∷ (0xA1, 0x01)
    ∷ (0x21, a1)
    ∷ (0xA1, a2)
    ∷ []

-- The frames that kmain's test of the allocator gets, and the allocator behind it.
pub record FrameTest : Type 0 where
  pub frame1 : ℕ
  pub frame2 : ℕ
  pub frame3 : ℕ
  pub pmm : Pmm

unfoldable pub test_frames : Pmm → FrameTest
test_frames p =
    let (frame1, p1) = alloc_frame p in
    let (frame2, p2) = alloc_frame p1 in
    let (frame3, p3) = alloc_frame (free_frame p2 frame1) in
    record { frame1 = frame1; frame2 = frame2; frame3 = frame3; pmm = p3 }

-- tss_install: the frame for the kernel's stack, and the stack pointer in the task state segment.
unfoldable pub tss_stack : Pmm → ℕ × Pmm
tss_stack p =
    let (stack, p') = alloc_frame p in (bit_and ((stack + frame_size) % 2 ^ 32) 0xFFFFFFF0, p')

-- The start of kmain, up to init_memory.
pub record Memory : Type 0 where
  pub test : FrameTest
  pub machine : Machine
  pub esp0 : ℕ
  pub heap : Heap

-- paging_map_page for the pages that the heap asks for, the first of them last in the list.
unfoldable pub map_requests : List (ℕ × ℕ) → M (Unit {0})
map_requests [] = pure tt
map_requests ((va, frame) ∷ older) = do
  map_requests older
  map_page va frame (bit_or flag_present flag_rw)

-- `none` is a page fault.
unfoldable pub start_memory : ℕ → Mem → (ℕ → ℕ) → Option Memory
start_memory kernel_end bitmap mem =
    let test = test_frames (init kernel_end bitmap ram) in
    let machine =
      paging_init (record { mem = mem; pmm = test.pmm; cr3 = 0; kernel_directory = 0 }) in
    let (esp0, p) = tss_stack machine.pmm in
    let heap = init_memory kernel_end p in
    elim (map_requests heap.mapped (record machine { pmm = heap.pmm })) [
      | none ↦ none
      | some (_, m) ↦
          some
            (record { test = test; machine = m; esp0 = esp0; heap = record heap { pmm = m.pmm } })
    ]

-- process_init with its two blocks; `none` if `fuel` rounds of the heap's growth were not enough.
unfoldable pub start_processes : ℕ → ℕ → ℕ → ℕ → Heap → Kernel → Option (Heap × Kernel)
start_processes fuel idle_task shell_task kernel_directory h k = elim (malloc fuel 4096 h) [
  | none ↦ none
  | some (stack_a, h1) ↦ elim (malloc fuel 4096 h1) [
    | none ↦ none
    | some (stack_b, h2) ↦
        some (h2, process_init stack_a stack_b idle_task shell_task kernel_directory k)
  ]
]

-- What kmain finds: the linker's addresses, the memory, the disk, the masks of the controllers, and the
-- globals.
pub record Platform : Type 0 where
  pub kernel_end : ℕ
  pub isr : ℕ → ℕ
  pub irq : ℕ → ℕ
  pub isr128 : ℕ
  pub tss_entry : ℕ
  pub idle_task : ℕ
  pub shell_task : ℕ
  pub timer_handler : ℕ
  pub keyboard_handler : ℕ
  pub bitmap : Mem
  pub mem : ℕ → ℕ
  pub sector : ℕ → ℕ → ℕ
  pub fat_pages_held : Mem
  pub root_pages_held : Mem
  pub mask1 : ℕ
  pub mask2 : ℕ
  pub entries : ℕ → Gate
  pub segments : ℕ → Segment
  pub kernel : Kernel

pub record Boot : Type 0 where
  pub idt : ℕ → Gate
  pub gdt : ℕ → Segment
  pub memory : Memory
  pub machine : Machine
  pub heap : Heap
  pub file_system : FileSystem
  pub kernel : Kernel
  pub syscall_table : ℕ → Option Handler
  pub routines : ℕ → Option ℕ
  pub writes : List (ℕ × ℕ)

-- kmain up to start_multitasking; `none` if the heap's growth needs more rounds, or on a fault
-- of init_memory or init_fs. What the later growth of the heap maps is left as its list of requests.
-- The block of 36 bytes for the boot sector's parameters lies in the heap's first page.
unfoldable pub kmain : ℕ → Platform → Option Boot
kmain fuel b = elim (start_memory b.kernel_end b.bitmap b.mem) [
  | none ↦ none
  | some memory ↦ elim (malloc fuel 36 memory.heap) [
    | none ↦ none
    | some (bpb, h1) ↦
        elim (init_fs b.sector b.fat_pages_held b.root_pages_held
          (record memory.machine { pmm = h1.pmm })) [
            | none ↦ none
            | some (file_system, machine) ↦
                elim (start_processes fuel b.idle_task b.shell_task machine.kernel_directory
                  (record h1 { pmm = machine.pmm }) (record b.kernel { esp0 = memory.esp0 })) [
                    | none ↦ none
                    | some (h2, kernel) ↦ some (record {
                      idt = idt_install b.isr b.irq b.isr128 b.entries;
                      gdt = tss_gate b.tss_entry (gdt_install b.segments);
                      memory = memory;
                      machine = record machine { pmm = h2.pmm };
                      heap = h2;
                      file_system = file_system;
                      kernel = record kernel { multitasking_enabled = true };
                      syscall_table = syscall_install;
                      routines =
                          irq_install_handler 0 b.timer_handler
                            (irq_install_handler 1 b.keyboard_handler (λ i. none));
                      writes = pic_remap 0x20 0x28 b.mask1 b.mask2 ++ timer_install;
                    })
                  ]
          ]
  ]
]
