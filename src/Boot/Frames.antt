-- ===== src/Boot/Frames.antt =====
-- The frames that the start of kmain takes, one after the other.
use capstone_myos.Prelude.{
  ℕ, ◌+◌, ◌*◌, ◌/◌, ◌%◌, ◌^◌, ◌<◌, ◌≤◌, ◌≡◌, refl, ◌∙◌, sym, ap, arith, inl, inr, ◌==◌,
  bit_and-high, if◌then◌else◌, ==_of_ne, [], ◌∷◌, false, true, some, update, bit_or, Bool-cases,
}
use mathlib.Core.Path.{subst}
use capstone_myos.Strings.{Mem}
use capstone_myos.Pmm.{Pmm, init, alloc_frame, free_frame, frame_size, size_of}
use capstone_myos.Pmm.Frames.{used, Words}
use capstone_myos.Pmm.Alloc.{
  IsValid, alloc_frame_lem, alloc_free-IsValid, free_frame_lem, bitmap_size-alloc_frame,
  bitmap_size-free_frame,
}
use capstone_myos.Pmm.Init.{init-IsValid, init_lem, bitmap_size-init, reserved}
use capstone_myos.Paging.{Machine, translate, is_present, paging_init}
use capstone_myos.Paging.Translate.{translate-absent}
use capstone_myos.Paging.Map.{IsSpace, slot}
use capstone_myos.Paging.Calls.{map_page-found}
use capstone_myos.Paging.Space.{Maps-update}
use capstone_myos.Paging.Init.{paging_init_lem}
use capstone_myos.Heap.{init_memory}
use capstone_myos.Boot.{ram, Memory, map_requests, test_frames, tss_stack, start_memory}

-- The bitmap is valid, and exactly the frames below `f` are used, of the 4096 that it stands for.
pub record IsPacked (f : ℕ) (p : Pmm) : Type 0 where
  pub valid : IsValid p
  pub size : p.bitmap_size ≡ 512
  pub below : (g : ℕ) → g < f → used p g ≡ 1
  pub above : (g : ℕ) → f ≤ g → g < 4096 → used p g ≡ 0

alloc_frame-IsPacked :
    (f : ℕ) (p : Pmm)
    → f < 4096
    → IsPacked f p
    → ((alloc_frame p).0 ≡ f * frame_size) × IsPacked (f + 1) (alloc_frame p).1
alloc_frame-IsPacked f p lt k = elim (alloc_frame_lem p k.valid) [
  | inl (z, q, full) ↦ absurd (ground (arith, full f, k.size, k.above f))
  | inr (g, e, pos, le, free, below, set) ↦
      let same : g ≡ f = ground (arith, k.below g, k.above f, below f, k.size) in
      (
        e ∙ ap (λ (x : ℕ). x * frame_size) same,
        record {
          valid = (alloc_free-IsValid p frame_size k.valid (omega arith)).0;
          size = bitmap_size-alloc_frame p k.valid ∙ k.size;
          below = λ i l. ground (arith, set i, k.below i, same);
          above = λ i l u. ground (arith, set i, k.above i, same);
        },
      )
]

-- Freeing the frame `f` and allocating again gives it back.
free-alloc-IsPacked :
    (f n : ℕ) (p : Pmm)
    → 0 < f
    → f < n
    → n ≤ 4096
    → IsPacked n p
    → ((alloc_frame (free_frame p (f * frame_size))).0 ≡ f * frame_size)
      × IsPacked n (alloc_frame (free_frame p (f * frame_size))).1
free-alloc-IsPacked f n p pos lt le k =
    let z : f * frame_size + 0 ≡ f * frame_size = omega arith in
    let freed : (g : ℕ)
        → used (free_frame p (f * frame_size)) g ≡ (if g == f then 0 else used p g) =
      λ g.
        subst (λ x. used (free_frame p x) g ≡ (if g == f then 0 else used p g)) z
          (free_frame_lem p f 0 g (omega arith)) in
    let v = (alloc_free-IsValid p (f * frame_size) k.valid (omega arith)).1 in
    let size : (free_frame p (f * frame_size)).bitmap_size ≡ 512 =
      bitmap_size-free_frame p (f * frame_size) ∙ k.size in
    elim (alloc_frame_lem (free_frame p (f * frame_size)) v) [
      | inl (_, q, full) ↦ absurd (ground (arith, full f, freed f, size))
      | inr (g, e, gpos, glt, free, below, set) ↦
          let same : g ≡ f = ground (arith, freed g, freed f, k.below g, below f, size) in
          (
            e ∙ ap (λ (x : ℕ). x * frame_size) same,
            record {
              valid =
                  (alloc_free-IsValid (free_frame p (f * frame_size)) frame_size v (omega arith)).0;
              size = bitmap_size-alloc_frame (free_frame p (f * frame_size)) v ∙ size;
              below = λ i l. ground (arith, set i, freed i, k.below i, same);
              above = λ i l u. ground (arith, set i, freed i, k.above i, same);
            },
          )
    ]

init-IsPacked :
    (kernel_end : ℕ) (bitmap : Mem)
    → 0 < kernel_end
    → kernel_end < 2 ^ 22
    → Words bitmap
    → IsPacked (reserved kernel_end ram) (init kernel_end bitmap ram)
unfolding size_of
init-IsPacked kernel_end bitmap pos small w =
    let v = init-IsValid kernel_end bitmap ram pos (omega arith) (omega arith) w in
    let size : (init kernel_end bitmap ram).bitmap_size ≡ 512 =
      bitmap_size-init kernel_end bitmap ram in
    record {
      valid = v;
      size = size;
      below = λ g l. ground (arith, init_lem kernel_end bitmap ram g (omega arith), size);
      above = λ g l u. ground (arith, init_lem kernel_end bitmap ram g (omega arith), size);
    }

-- paging_init takes two frames.
paging_init-IsPacked :
    (f : ℕ) (m : Machine)
    → 0 < f
    → f + 1 < 4096
    → IsPacked f m.pmm
    → ((paging_init m).kernel_directory ≡ f * frame_size)
      × ((paging_init m).cr3 ≡ f * frame_size)
      × IsPacked (f + 2) (paging_init m).pmm
unfolding paging_init
paging_init-IsPacked f m pos lt k =
    let (e, k1) = alloc_frame-IsPacked f m.pmm (omega arith) k in
    let (e', k2) = alloc_frame-IsPacked (f + 1) (alloc_frame m.pmm).1 (omega arith) k1 in
    let dir : ((alloc_frame m.pmm).0 == 0) ≡ false =
      ==_of_ne (alloc_frame m.pmm).0 0 (λ z. omega arith) in
    let table : ((alloc_frame (alloc_frame m.pmm).1).0 == 0) ≡ false =
      ==_of_ne (alloc_frame (alloc_frame m.pmm).1).0 0 (λ z. omega arith) in
    let z : f + 1 + 1 ≡ f + 2 = omega arith in
    rw (dir, table) (e, e, subst (λ n. IsPacked n (alloc_frame (alloc_frame m.pmm).1).1) z k2)

test_frames-IsPacked :
    (f : ℕ) (p : Pmm)
    → 0 < f
    → f + 1 < 4096
    → IsPacked f p
    → ((test_frames p).frame1 ≡ f * frame_size)
      × ((test_frames p).frame2 ≡ (f + 1) * frame_size)
      × ((test_frames p).frame3 ≡ f * frame_size)
      × IsPacked (f + 2) (test_frames p).pmm
unfolding test_frames
test_frames-IsPacked f p pos lt k =
    let (e1, k1) = alloc_frame-IsPacked f p (omega arith) k in
    let (e2, k2) = alloc_frame-IsPacked (f + 1) (alloc_frame p).1 (omega arith) k1 in
    let (e3, k3) =
      free-alloc-IsPacked f (f + 1 + 1) (alloc_frame (alloc_frame p).1).1 pos (omega arith)
        (omega arith) k2 in
    let z : f + 1 + 1 ≡ f + 2 = omega arith in
    let q = (alloc_frame (alloc_frame p).1).1 in
    (
      e1,
      e2,
      rw e1 e3,
      rw e1 (subst (λ n. IsPacked n (alloc_frame (free_frame q (f * frame_size))).1) z k3),
    )

tss_stack-IsPacked :
    (f : ℕ) (p : Pmm)
    → f < 4096
    → IsPacked f p
    → ((tss_stack p).0 ≡ (f + 1) * frame_size) × IsPacked (f + 1) (tss_stack p).1
unfolding tss_stack
tss_stack-IsPacked f p lt k =
    let (e, k1) = alloc_frame-IsPacked f p lt k in
    let top : ((alloc_frame p).0 + frame_size) % 2 ^ 32 ≡ (f + 1) * frame_size = omega (arith, e) in
    (rw top (bit_and-high 4 28 ((f + 1) * frame_size) ∙ omega arith), k1)

init_memory-IsPacked :
    (kernel_end f : ℕ) (p : Pmm)
    → kernel_end < 2 ^ 22
    → f < 4096
    → IsPacked f p
    → let h = init_memory kernel_end p in
      (h.heap_top ≡ reserved kernel_end ram * frame_size)
      × (h.heap_end ≡ h.heap_top + frame_size)
      × (h.mapped ≡ (reserved kernel_end ram * frame_size, f * frame_size) ∷ [])
      × IsPacked (f + 1) h.pmm
unfolding init_memory size_of
init_memory-IsPacked kernel_end f p small lt k =
    let (e, k1) = alloc_frame-IsPacked f p lt k in
    let start : (kernel_end + p.bitmap_size) % 2 ^ 32 ≡ kernel_end + 512 = omega (arith, k.size) in
    let top : (if (kernel_end + 512) % frame_size == 0
          then kernel_end + 512
          else ((kernel_end + 512) / frame_size + 1) * frame_size % 2 ^ 32)
        ≡ reserved kernel_end ram * frame_size =
      ground arith in
    rw (start, top, e) (refl, omega arith, refl, k1)

-- The space behind init_memory: the heap's first page leads to the frame that it was given, and every other
-- of the first 4 MB of addresses to itself.
pub record IsHeapSpace (page frame : ℕ) (m : Machine) : Type 0 where
  pub space : IsSpace m.mem m.cr3
  pub pages :
      (va : ℕ)
      → va < 2 ^ 22
      → translate m.mem m.cr3 va
        ≡ (if va / 4096 == page then some (frame * 4096 + va % 4096) else some va)

table_present :
    (mem : ℕ → ℕ) (dir va pa : ℕ)
    → translate mem dir va ≡ some pa
    → is_present (mem (dir + 4 * (va / 2 ^ 22))) ≡ true
table_present mem dir va pa e = elim (Bool-cases (is_present (mem (dir + 4 * (va / 2 ^ 22))))) [
  | inl p ↦ p
  | inr p ↦ let absent = translate-absent mem dir va p in absurd (ground (arith, absent, e))
]

-- paging_map_page for a page of the first 4 MB of the first space.
map_low_page :
    (m : Machine) (page frame : ℕ)
    → IsSpace m.mem m.cr3
    → ((va : ℕ) → va < 2 ^ 22 → translate m.mem m.cr3 va ≡ some va)
    → page < 1024
    → frame < 4096
    → (mem' : ℕ → ℕ) × (map_requests ((page * 4096, frame * 4096) ∷ []) m
        ≡ some (tt, record m { mem = mem' }))
      × IsHeapSpace page frame (record m { mem = mem' })
unfolding map_requests
map_low_page m page frame space identity lt small =
    let va = page * 4096 in
    let there = table_present m.mem m.cr3 va va (identity va (omega arith)) in
    let maps =
      Maps-update m va (frame * 4096) 3 space (omega arith) there (omega arith) (omega arith)
        (omega arith) refl in
    let index : va / 4096 ≡ page = omega arith in
    (
      update m.mem (slot m.mem m.cr3 va) (bit_or (frame * 4096) 3),
      map_page-found va (frame * 4096) 3 m space (omega arith) there,
      record {
        space = maps.space;
        pages =
            λ other below. maps.pages other (omega arith) ∙ rw (index, identity other below) refl;
      },
    )

-- At start-up, of a kernel that ends at least 4608 bytes below 4 MB, nothing faults, and the frames
-- behind the kernel and the bitmap are taken in this order: the first two for the test of the allocator,
-- which gets the first one again after it was freed; one each for the directory, the first page table,
-- the kernel's stack of the task state segment, and the heap's first page. The heap starts at the address
-- that is also that of the test's first frame, where paging_map_page puts its page without a further
-- frame: that page then leads to the heap's frame, every other of the first 4 MB of addresses to itself,
-- and the heap's further pages take the addresses of the frames that follow.
pub start_memory_lem :
    (kernel_end : ℕ) (bitmap : Mem) (mem : ℕ → ℕ)
    → 0 < kernel_end
    → kernel_end + 4608 ≤ 2 ^ 22
    → Words bitmap
    → ((a : ℕ) → mem a < 2 ^ 32)
    → let r = reserved kernel_end ram in
      (s : Memory) × (start_memory kernel_end bitmap mem ≡ some s)
      × (s.test.frame1 ≡ r * frame_size)
      × (s.test.frame2 ≡ (r + 1) * frame_size)
      × (s.test.frame3 ≡ s.test.frame1)
      × (s.machine.kernel_directory ≡ (r + 2) * frame_size)
      × (s.machine.cr3 ≡ (r + 2) * frame_size)
      × (s.esp0 ≡ (r + 5) * frame_size)
      × (s.heap.heap_top ≡ s.test.frame1)
      × (s.heap.heap_end ≡ s.heap.heap_top + frame_size)
      × IsHeapSpace r (r + 5) s.machine
      × IsPacked (r + 6) s.heap.pmm
unfolding start_memory size_of
start_memory_lem kernel_end bitmap mem pos small w words =
    let r = reserved kernel_end ram in
    let p = init kernel_end bitmap ram in
    let k0 = init-IsPacked kernel_end bitmap pos (omega arith) w in
    let (f1, f2, f3, k1) = test_frames-IsPacked r p (omega arith) (omega arith) k0 in
    let m : Machine = record {
      mem = mem;
      pmm = (test_frames p).pmm;
      cr3 = 0;
      kernel_directory = 0;
    } in
    let (dir, cr3, k2) = paging_init-IsPacked (r + 2) m (omega arith) (omega arith) k1 in
    let (first, kf) = alloc_frame-IsPacked (r + 2) m.pmm (omega arith) k1 in
    let (second, ks) = alloc_frame-IsPacked (r + 2 + 1) (alloc_frame m.pmm).1 (omega arith) kf in
    let (_, _, space, owns) =
      paging_init_lem m words k1.valid (λ z. omega arith) (λ z. omega arith) in
    let (esp0, k3) = tss_stack-IsPacked (r + 2 + 2) (paging_init m).pmm (omega arith) k2 in
    let (top, end, mapped, k4) =
      init_memory-IsPacked kernel_end (r + 2 + 2 + 1) (tss_stack (paging_init m).pmm).1
        (omega arith) (omega arith) k3 in
    let five : r + 2 + 2 + 1 ≡ r + 5 = omega arith in
    let six : r + 2 + 2 + 1 + 1 ≡ r + 6 = omega arith in
    let heap = init_memory kernel_end (tss_stack (paging_init m).pmm).1 in
    let before : Machine = record (paging_init m) { pmm = heap.pmm } in
    let (mem', run, leads) =
      map_low_page before r (r + 5) space owns.identity (omega arith) (omega arith) in
    let asked : map_requests heap.mapped before ≡ some (tt, record before { mem = mem' }) =
      ap (λ x. map_requests x before) (mapped ∙ rw five refl) ∙ run in
    (
      record {
        test = test_frames p;
        machine = record before { mem = mem' };
        esp0 = (tss_stack (paging_init m).pmm).0;
        heap = heap;
      },
      rw (start_memory, asked) refl,
      f1,
      f2,
      f3 ∙ sym f1,
      dir,
      cr3,
      esp0 ∙ ap (λ (x : ℕ). x * frame_size) five,
      top ∙ sym f1,
      end,
      leads,
      subst (λ n. IsPacked n heap.pmm) six k4,
    )
