-- ===== src/Boot/Tasks.antt =====
-- The stacks of the first two tasks.
use capstone_myos.Prelude.{
  ℕ, ◌+◌, ◌*◌, ◌%◌, ◌^◌, ◌<◌, ◌≤◌, ◌≡◌, ◌≢◌, refl, sym, arith, ◌⊎◌, inl, inr, Bool, true, false,
  Option, none, some, update,
}
use mathlib.Core.Path.{subst}
use capstone_myos.Pmm.{free_frame_count}
use capstone_myos.Pmm.Alloc.{IsValid}
use capstone_myos.Heap.{Heap, malloc}
use capstone_myos.Heap.Kept.{IsKept, malloc-IsKept}
use capstone_myos.Heap.Growth.{malloc_returns}
use capstone_myos.Heap.Apart.{IsHeap, IsAnswer, block_end, in_use, malloc_lem}
use capstone_myos.Process.{Kernel, process_init, kernel_task, zero_task, running}
use capstone_myos.Boot.{start_processes}

-- The stack that ends at `esp` is a block of the heap that was not handed out before.
abbrev pub IsStack : Heap → (ℕ → Bool) → ℕ → ℕ → Type 0
IsStack h live b esp = (live b ≡ false) × (esp ≡ b + 8 + 4096) × (4096 ≤ h.sizes b)

-- The first two tasks run, the idle task first; their stacks are blocks apart from each other, or
-- malloc had no memory for one of them, which then has the stack below 4096.
abbrev pub IsStarted : Heap → (ℕ → Bool) → Option (Heap × Kernel) → Type 0
IsStarted h live none = ⊥
IsStarted h live (some (h', k)) =
    (k.current_task ≡ some 0)
    × ((k.process_table 0).state ≡ running)
    × ((k.process_table 1).state ≡ running)
    × ((i : ℕ) → 1 < i → k.process_table i ≡ zero_task)
    × (((k.process_table 0).cpu_state.esp ≡ 4096)
        ⊎ (((k.process_table 1).cpu_state.esp ≡ 4096)
            ⊎ ((b c : ℕ) × IsStack h' live b (k.process_table 0).cpu_state.esp
                × IsStack h' live c (k.process_table 1).cpu_state.esp
                × IsHeap h' (update (update live b true) c true)
                × ((block_end h' b ≤ c) ⊎ (block_end h' c ≤ b)))))

stack_top : (b : ℕ) → b + 8 + 4096 < 2 ^ 32 → (b + 8 + 4096) % 2 ^ 32 ≡ b + 8 + 4096
stack_top b lt = omega arith

-- process_init on the two stacks.
process_init_lem :
    (stack_a stack_b idle_task shell_task kernel_directory : ℕ) (k : Kernel)
    → let k' = process_init stack_a stack_b idle_task shell_task kernel_directory k in
      (k'.current_task ≡ some 0)
      × ((k'.process_table 0).state ≡ running)
      × ((k'.process_table 1).state ≡ running)
      × ((i : ℕ) → 1 < i → k'.process_table i ≡ zero_task)
      × ((k'.process_table 0).cpu_state.esp ≡ (stack_a + 4096) % 2 ^ 32)
      × ((k'.process_table 1).cpu_state.esp ≡ (stack_b + 4096) % 2 ^ 32)
unfolding process_init kernel_task
process_init_lem stack_a stack_b idle_task shell_task kernel_directory k =
    (refl, refl, refl, (λ i lt. ground arith), refl, refl)

-- The last part of what starts, from the answers of the two calls of malloc.
stacks_apart :
    (h h1 h2 : Heap) (live : ℕ → Bool) (pa pb esp_a esp_b : ℕ)
    → esp_a ≡ (pa + 4096) % 2 ^ 32
    → esp_b ≡ (pb + 4096) % 2 ^ 32
    → h1.heap_end < 2 ^ 32
    → h2.heap_end < 2 ^ 32
    → IsAnswer 4096 h live (some (pa, h1))
    → ((l : ℕ → Bool) → IsHeap h1 l → IsAnswer 4096 h1 l (some (pb, h2)))
    → (esp_a ≡ 4096)
      ⊎ ((esp_b ≡ 4096)
          ⊎ ((b c : ℕ) × IsStack h2 live b esp_a
              × IsStack h2 live c esp_b
              × IsHeap h2 (update (update live b true) c true)
              × ((block_end h2 b ≤ c) ⊎ (block_end h2 c ≤ b))))
stacks_apart h h1 h2 live pa pb esp_a esp_b ea eb lt1 lt2 first second = elim first [
  | inl (z, u) ↦ inl (omega arith)
  | inr (b, p, l, size, same, u) ↦ elim (second (update live b true) u) [
    | inl (z, u2) ↦ inr (inl (omega arith))
    | inr (c, p2, l2, size2, same2, u2) ↦
        let ne : b ≢ c = λ e. ground (arith, l2, e) in
        let live_b : in_use h2 (update (update live b true) c true) b ≡ true = ground (arith, ne) in
        let live_c : in_use h2 (update (update live b true) c true) c ≡ true = ground arith in
        let end_b : block_end h2 b ≤ h2.heap_top = u2.below b live_b in
        let end_c : block_end h2 c ≤ h2.heap_top = u2.below c live_c in
        let room = u2.room in
        let kept : 4096 ≤ h2.sizes b = omega (arith, same2 b ne) in
        inr (
          inr (
            b,
            c,
            (l, omega (arith, end_b, kept), kept),
            (ground (arith, l2, ne), omega (arith, end_c, size2), size2),
            u2,
            u2.apart b c live_b live_c ne,
          ))
  ]
]

start_processes_made :
    (fuel idle_task shell_task kernel_directory pa pb : ℕ) (h h1 h2 : Heap) (k : Kernel)
    → malloc fuel 4096 h ≡ some (pa, h1)
    → malloc fuel 4096 h1 ≡ some (pb, h2)
    → start_processes fuel idle_task shell_task kernel_directory h k
      ≡ some (h2, process_init pa pb idle_task shell_task kernel_directory k)
unfolding start_processes
start_processes_made fuel idle_task shell_task kernel_directory pa pb h h1 h2 k e1 e2 =
    rw (start_processes, e1, e2) refl

-- process_init on a heap whose blocks are apart, while the heap stays clear of the end of the addresses
-- and `fuel` exceeds the number of free frames: it returns, and the idle task and the shell run, the
-- idle task being current and every other entry zeroed. Their stacks are two blocks of the heap of at
-- least 4096 bytes that do not overlap and were not handed out before, unless malloc answered NULL for
-- one of them, which is not tested: that task's stack then ends at 4096.
pub start_processes_lem :
    (fuel idle_task shell_task kernel_directory : ℕ) (h : Heap) (live : ℕ → Bool) (k : Kernel)
    → IsHeap h live
    → IsValid h.pmm
    → free_frame_count h.pmm < fuel
    → h.heap_end + 2 * (fuel * 4096) + 4112 < 2 ^ 32
    → IsStarted h live (start_processes fuel idle_task shell_task kernel_directory h k)
start_processes_lem fuel idle_task shell_task kernel_directory h live k u v lt room =
    let ((pa, h1), e1) = malloc_returns fuel 4096 h v lt in
    let (v1, less1, end1) =
      subst (IsKept h.pmm (h.heap_end + fuel * 4096)) e1 (malloc-IsKept fuel 4096 h v) in
    let ((pb, h2), e2) = malloc_returns fuel 4096 h1 v1 (omega arith) in
    let (v2, less2, end2) =
      subst (IsKept h1.pmm (h1.heap_end + fuel * 4096)) e2 (malloc-IsKept fuel 4096 h1 v1) in
    let (current, run0, run1, rest, top0, top1) =
      process_init_lem pa pb idle_task shell_task kernel_directory k in
    let first = subst (IsAnswer 4096 h live) e1 (malloc_lem fuel 4096 h live u (omega arith)) in
    let second : (l : ℕ → Bool) → IsHeap h1 l → IsAnswer 4096 h1 l (some (pb, h2)) =
      λ l w. subst (IsAnswer 4096 h1 l) e2 (malloc_lem fuel 4096 h1 l w (omega arith)) in
    let e = start_processes_made fuel idle_task shell_task kernel_directory pa pb h h1 h2 k e1 e2 in
    subst (IsStarted h live) (sym e) (
      current,
      run0,
      run1,
      rest,
      stacks_apart h h1 h2 live pa pb _ _ top0 top1 (omega arith) (omega arith) first second,
    )
