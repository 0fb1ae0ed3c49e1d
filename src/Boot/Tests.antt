-- ===== src/Boot/Tests.antt =====
-- The start of the kernel: a kernel that ends at 0x30000.
use capstone_myos.Prelude.{
  some, ◌+◌, ◌*◌, ◌<◌, ◌≡◌, refl, arith, false, [], none, if◌then◌else◌, ◌==◌,
}
use capstone_myos.Pmm.{frame_size, free_frame_count, count_words, count_bits}
use capstone_myos.Pmm.Alloc.{IsValid}
use capstone_myos.Pmm.Init.{reserved}
use capstone_myos.Heap.{Heap}
use capstone_myos.Heap.Apart.{IsHeap}
use capstone_myos.Process.{Kernel, zero_task}
use capstone_myos.Boot.{ram, Memory, start_memory, start_processes}
use capstone_myos.Boot.Frames.{IsPacked, IsHeapSpace, start_memory_lem}
use capstone_myos.Boot.Tasks.{IsStarted, start_processes_lem}

start_memory_lem_example :
    let r = reserved 0x30000 ram in
    (s : Memory) × (start_memory 0x30000 (λ i. 0xFFFFFFFF) (λ a. 0) ≡ some s)
    × (s.test.frame1 ≡ r * frame_size)
    × (s.test.frame2 ≡ (r + 1) * frame_size)
    × (s.test.frame3 ≡ s.test.frame1)
    × (s.machine.kernel_directory ≡ (r + 2) * frame_size)
    × (s.machine.cr3 ≡ (r + 2) * frame_size)
    × (s.esp0 ≡ (r + 5) * frame_size)
    × (s.heap.heap_top ≡ s.test.frame1)
    × (s.heap.heap_end ≡ s.heap.heap_top + frame_size)
    × IsHeapSpace r (r + 5) s.machine
    × IsPacked (r + 6) s.heap.pmm
start_memory_lem_example =
    start_memory_lem 0x30000 (λ i. 0xFFFFFFFF) (λ a. 0) (omega arith) (omega arith)
      (λ i. omega arith) (λ a. omega arith)

-- A heap of one page, and two free frames for it.
abbrev heap : Heap
heap = record {
  heap_top = 0x31024;
  heap_end = 0x32000;
  free_list = [];
  sizes = λ i. 0;
  pmm = record {
    bitmap = λ i. if i == 0 then 0xFFFFFF3F else 0xFFFFFFFF;
    base = 0;
    total_frames = 32;
    bitmap_size = 4;
  };
  mapped = [];
}

heap-IsValid : IsValid heap.pmm
heap-IsValid = record { words = λ i. ground arith; zero_used = refl; fits = omega arith }

heap-IsHeap : IsHeap heap (λ b. false)
heap-IsHeap = record {
  apart = λ b c ub uc ne. ground (arith, ub);
  below = λ b ub. ground (arith, ub);
  once = λ b l. refl;
  distinct = tt;
  room = omega arith;
  pages = refl;
}

two_frames : free_frame_count heap.pmm < 3
unfolding free_frame_count count_words count_bits
two_frames = omega arith

abbrev kernel : Kernel
kernel = record {
  process_table = λ i. zero_task;
  current_task = none;
  esp0 = 0x37000;
  tick = 0;
  multitasking_enabled = false;
}

start_processes_lem_example :
    IsStarted heap (λ b. false) (start_processes 3 0x1000 0x1100 0x33000 heap kernel)
start_processes_lem_example =
    start_processes_lem 3 0x1000 0x1100 0x33000 heap (λ b. false) kernel heap-IsHeap heap-IsValid
      two_frames (omega arith)
