-- ===== src/Paging/Init.antt =====
-- paging_init: the first space.
use native.Mathlib.Decide.{ℕ_discrete}
use capstone_myos.Prelude.{
  ℕ, zero, suc, ◌+◌, ◌*◌, ◌/◌, ◌%◌, ◌^◌, ◌<◌, ◌≤◌, ◌≡◌, ◌≢◌, refl, ap, ◌∙◌, sym, arith, true, false,
  ◌&&◌, some, ◌==◌, ==_refl, ==_of_ne, ==_iff, leb, ltb, if◌then◌else◌, update, update_ne, bit_or,
  bit_or-one_two, inl, inr, ◌⊎◌,
}
use mathlib.Core.Bool.{false≢true}
use capstone_myos.Pmm.{Pmm, alloc_frame, frame_size}
use capstone_myos.Pmm.Frames.{used}
use capstone_myos.Pmm.Alloc.{IsValid, alloc_frame_lem, alloc_free-IsValid, stays_used}
use capstone_myos.Paging.{
  Machine, page_of, is_present, translate, clear_page, fill_table, first_space, paging_init,
}
use capstone_myos.Paging.Translate.{page_of-eq, is_present-eq, translate-leaf, leaf}
use capstone_myos.Paging.Space.{Owns}
use capstone_myos.Paging.Map.{IsSpace, other_page, update-words}

-- The entry for the page at `base`.
entry : (base : ℕ) → base % 4096 ≡ 0 → bit_or (bit_or base 0x1) 0x2 ≡ base + 3
entry base aligned = bit_or-one_two base (omega arith)

fill_table_self :
    (n i table k : ℕ) (mem : ℕ → ℕ)
    → fill_table n i table mem (table + 4 * k) ≡ (
        if leb i k && ltb k (i + n)
        then bit_or (bit_or (k * 0x1000) 0x1) 0x2
        else mem (table + 4 * k))
unfolding fill_table
fill_table_self zero i table k mem = ground arith
fill_table_self (suc n) i table k mem =
    let value : ℕ = bit_or (bit_or (i * 0x1000) 0x1) 0x2 in
    fill_table_self n (i + 1) table k (update mem (table + 4 * i) value) ∙ elim (ℕ_discrete k i) [
      | yes e ↦ rw e (ground arith)
      | no ne ↦
          let other = update_ne mem (table + 4 * i) (table + 4 * k) value (λ e. ne (omega arith)) in
          ground (arith, other)
    ]

fill_table-other :
    (n i table page k : ℕ) (mem : ℕ → ℕ)
    → table % 4096 ≡ 0
    → page % 4096 ≡ 0
    → page ≢ table
    → k < 1024
    → i + n ≤ 1024
    → fill_table n i table mem (page + 4 * k) ≡ mem (page + 4 * k)
unfolding fill_table
fill_table-other zero i table page k mem ht hp ne hk le = refl
fill_table-other (suc n) i table page k mem ht hp ne hk le =
    let value : ℕ = bit_or (bit_or (i * 0x1000) 0x1) 0x2 in
    fill_table-other n (i + 1) table page k (update mem (table + 4 * i) value) ht hp ne hk
      (omega arith)
    ∙ update_ne mem (table + 4 * i) (page + 4 * k) value
        (other_page page table k i hp ht ne hk (omega arith))

clear_page-in :
    (frame : ℕ) (mem : ℕ → ℕ) (k : ℕ) → k < 1024 → clear_page frame mem (frame + 4 * k) ≡ 0
unfolding clear_page
clear_page-in frame mem k lt = ground arith

clear_page-out :
    (frame page : ℕ) (mem : ℕ → ℕ) (k : ℕ)
    → frame % 4096 ≡ 0
    → page % 4096 ≡ 0
    → page ≢ frame
    → k < 1024
    → clear_page frame mem (page + 4 * k) ≡ mem (page + 4 * k)
unfolding clear_page
clear_page-out frame page mem k hf hp ne lt = ground arith

clear_page-words :
    (frame : ℕ) (mem : ℕ → ℕ)
    → ((a : ℕ) → mem a < 2 ^ 32)
    → (a : ℕ) → clear_page frame mem a < 2 ^ 32
unfolding clear_page
clear_page-words frame mem words a = ground (arith, words a)

fill_table-words :
    (n i table : ℕ) (mem : ℕ → ℕ)
    → ((a : ℕ) → mem a < 2 ^ 32)
    → i + n ≤ 1024
    → (a : ℕ) → fill_table n i table mem a < 2 ^ 32
unfolding fill_table
fill_table-words zero i table mem words le a = words a
fill_table-words (suc n) i table mem words le a =
    let value : ℕ = bit_or (bit_or (i * 0x1000) 0x1) 0x2 in
    let lt : value < 2 ^ 32 = omega (arith, entry (i * 4096) (omega arith)) in
    fill_table-words n (i + 1) table (update mem (table + 4 * i) value)
      (update-words mem (table + 4 * i) value words lt) (omega arith) a

-- Two frames for a directory and a table.
record Frames (dir table : ℕ) : Type 0 where
  dir_aligned : dir % 4096 ≡ 0
  table_aligned : table % 4096 ≡ 0
  differ : dir ≢ table
  dir_fits : dir + 4096 ≤ 2 ^ 32
  table_fits : table + 4096 ≤ 2 ^ 32

module _ (dir table : ℕ) (mem : ℕ → ℕ) (f : Frames dir table) where
  pde_last : first_space dir table mem (dir + 4092) ≡ dir + 3
  unfolding first_space
  pde_last = ground (arith, entry dir f.dir_aligned)

  filled : ℕ → ℕ
  filled = fill_table 1024 0 table (clear_page table (clear_page dir mem))

  filled-dir : (i : ℕ) → i < 1024 → filled (dir + 4 * i) ≡ 0
  unfolding filled
  filled-dir i hi =
      fill_table-other 1024 0 table dir i (clear_page table (clear_page dir mem)) f.table_aligned
        f.dir_aligned f.differ hi (omega arith)
      ∙ clear_page-out table dir (clear_page dir mem) i f.table_aligned f.dir_aligned f.differ hi
      ∙ clear_page-in dir mem i hi

  filled-table : (k : ℕ) → k < 1024 → filled (table + 4 * k) ≡ k * 4096 + 3
  unfolding filled
  filled-table k hk = ground (
    arith,
    fill_table_self 1024 0 table k (clear_page table (clear_page dir mem)),
    entry (k * 4096) (omega arith),
  )

  pde :
      (i : ℕ)
      → i < 1024
      → first_space dir table mem (dir + 4 * i)
        ≡ (if i == 0 then table + 3 else if i == 1023 then dir + 3 else 0)
  unfolding first_space filled
  pde i hi = ground (arith, filled-dir i hi, entry dir f.dir_aligned, entry table f.table_aligned)

  pte : (k : ℕ) → k < 1024 → first_space dir table mem (table + 4 * k) ≡ k * 4096 + 3
  unfolding first_space filled
  pte k hk =
      let ta = f.table_aligned in
      let da = f.dir_aligned in
      let first = other_page table dir k 0 ta da (λ e. f.differ (sym e)) hk (omega arith) in
      let last = other_page table dir k 1023 ta da (λ e. f.differ (sym e)) hk (omega arith) in
      ground (
        arith,
        filled-table k hk,
        ==_of_ne (table + 4 * k) (dir + 4 * 0) first,
        ==_of_ne (table + 4 * k) (dir + 4 * 1023) last,
      )

  first_space-words : ((a : ℕ) → mem a < 2 ^ 32) → (a : ℕ) → first_space dir table mem a < 2 ^ 32
  unfolding first_space
  first_space-words words =
      let table_fits = f.table_fits in
      let dir_fits = f.dir_fits in
      let ta = entry table f.table_aligned in
      let da = entry dir f.dir_aligned in
      update-words
        (update (fill_table 1024 0 table (clear_page table (clear_page dir mem))) (dir + 4 * 0)
          (bit_or (bit_or table 1) 2))
        (dir + 4 * 1023) (bit_or (bit_or dir 1) 2)
        (update-words (fill_table 1024 0 table (clear_page table (clear_page dir mem)))
          (dir + 4 * 0) (bit_or (bit_or table 1) 2)
          (fill_table-words 1024 0 table (clear_page table (clear_page dir mem))
            (clear_page-words table (clear_page dir mem) (clear_page-words dir mem words))
            (omega arith))
          (omega (arith, ta)))
        (omega (arith, da))

  page_of-frame :
      (frame : ℕ) → frame % 4096 ≡ 0 → frame + 4096 ≤ 2 ^ 32 → page_of (frame + 3) ≡ frame
  page_of-frame frame aligned fits = omega (arith, page_of-eq (frame + 3) (omega arith))

  is_present-frame : (frame : ℕ) → frame % 4096 ≡ 0 → is_present (frame + 3) ≡ true
  is_present-frame frame aligned =
      is_present-eq (frame + 3) ∙ (==_iff ((frame + 3) % 2) 1).1 (omega arith)

  is_present-zero : is_present 0 ≡ false
  is_present-zero = is_present-eq 0

  -- Only the first and the last entry are present.
  present_ends :
      (i : ℕ)
      → i < 1024
      → is_present (first_space dir table mem (dir + 4 * i)) ≡ true
      → (i ≡ 0) ⊎ (i ≡ 1023)
  present_ends i hi p = elim (ℕ_discrete i 0) [
    | yes e ↦ inl e
    | no first ↦ elim (ℕ_discrete i 1023) [
      | yes e ↦ inr e
      | no last ↦
          let zero_entry : first_space dir table mem (dir + 4 * i) ≡ 0 =
            pde i hi ∙ ground (arith, ==_of_ne i 0 first, ==_of_ne i 1023 last) in
          absurd (false≢true (sym is_present-zero ∙ ap is_present (sym zero_entry) ∙ p))
    ]
  ]

  pde_first : first_space dir table mem (dir + 4 * 0) ≡ table + 3
  pde_first = pde 0 (omega arith)

  pde_end : first_space dir table mem (dir + 4 * 1023) ≡ dir + 3
  pde_end = pde 1023 (omega arith)

  page_first : page_of (first_space dir table mem (dir + 4 * 0)) ≡ table
  page_first = ap page_of pde_first ∙ page_of-frame table f.table_aligned f.table_fits

  page_end : page_of (first_space dir table mem (dir + 4 * 1023)) ≡ dir
  page_end = ap page_of pde_end ∙ page_of-frame dir f.dir_aligned f.dir_fits

  page_at :
      (i j : ℕ)
      → i ≡ j
      → page_of (first_space dir table mem (dir + 4 * i))
        ≡ page_of (first_space dir table mem (dir + 4 * j))
  page_at i j e = ap (λ (x : ℕ). page_of (first_space dir table mem (dir + 4 * x))) e

  first_space-separate :
      (i j : ℕ)
      → i < 1024
      → j < 1024
      → i ≢ j
      → is_present (first_space dir table mem (dir + 4 * i)) ≡ true
      → is_present (first_space dir table mem (dir + 4 * j)) ≡ true
      → page_of (first_space dir table mem (dir + 4 * i))
        ≢ page_of (first_space dir table mem (dir + 4 * j))
  first_space-separate i j hi hj ne p q e = elim (present_ends i hi p) [
    | inl a ↦ elim (present_ends j hj q) [
      | inl b ↦ ne (a ∙ sym b)
      | inr b ↦
          f.differ (sym page_end ∙ sym (page_at j 1023 b) ∙ sym e ∙ page_at i 0 a ∙ page_first)
    ]
    | inr a ↦ elim (present_ends j hj q) [
      | inl b ↦ f.differ (sym page_end ∙ sym (page_at i 1023 a) ∙ e ∙ page_at j 0 b ∙ page_first)
      | inr b ↦ ne (a ∙ sym b)
    ]
  ]

  first_space-IsSpace : ((a : ℕ) → mem a < 2 ^ 32) → IsSpace (first_space dir table mem) dir
  first_space-IsSpace words = record {
    recursive = record {
      aligned = f.dir_aligned;
      page = page_end;
      present = ap is_present pde_end ∙ is_present-frame dir f.dir_aligned;
    };
    words = first_space-words words;
    separate = first_space-separate;
  }

  first_space-identity :
      (va : ℕ) → va < 2 ^ 22 → translate (first_space dir table mem) dir va ≡ some va
  first_space-identity va lt =
      let up : va / 2 ^ 22 ≡ 0 = omega arith in
      let k : ℕ = va / 2 ^ 12 % 1024 in
      let low : k * 4096 + 3 < 2 ^ 32 = omega arith in
      let space = first_space dir table mem in
      let top : space (dir + 4 * (va / 2 ^ 22)) ≡ table + 3 =
        ap (λ (x : ℕ). space (dir + 4 * x)) up ∙ pde_first in
      let page : page_of (k * 4096 + 3) ≡ k * 4096 = omega (arith, page_of-eq (k * 4096 + 3) low) in
      let there : k * 4096 + va % 4096 ≡ va = omega arith in
      translate-leaf space dir va (ap is_present top ∙ is_present-frame table f.table_aligned)
      ∙ ap (λ (x : ℕ). leaf (space (page_of x + 4 * k)) va) top
      ∙ ap (λ (x : ℕ). leaf (space (x + 4 * k)) va)
          (page_of-frame table f.table_aligned f.table_fits)
      ∙ ap (λ (x : ℕ). leaf x va) (pte k (omega arith))
      ∙ rw (is_present-frame (k * 4096) (omega arith), page, there) refl

-- The two frames that paging_init asks for.
abbrev pub dir_frame : Machine → ℕ
dir_frame m = (alloc_frame m.pmm).0

abbrev pub table_frame : Machine → ℕ
table_frame m = (alloc_frame (alloc_frame m.pmm).1).0

absurd_one : ◌≡◌ {A = ℕ} 1 0 → ⊥
absurd_one e = omega arith

-- What the allocator promises of two frames in a row.
allocated-Frames :
    (p : Pmm)
    → IsValid p
    → (alloc_frame p).0 ≢ 0
    → (alloc_frame (alloc_frame p).1).0 ≢ 0
    → Frames (alloc_frame p).0 (alloc_frame (alloc_frame p).1).0
allocated-Frames p v d t =
    let p1 : Pmm = (alloc_frame p).1 in
    let v1 : IsValid p1 = (alloc_free-IsValid p frame_size v (omega arith)).0 in
    elim (alloc_frame_lem p v) [
      | inl full ↦ absurd (d full.0)
      | inr (f, e, pos, lt, free, below, after) ↦ elim (alloc_frame_lem p1 v1) [
        | inl full ↦ absurd (t full.0)
        | inr (g, e', pos', lt', free', below', after') ↦
            let fits = v.fits in
            let fits1 = v1.fits in
            let used_f : used p1 f ≡ 1 = after f ∙ rw (==_refl f) refl in
            let differ : f ≢ g = λ same. absurd_one (sym used_f ∙ ap (used p1) same ∙ free') in
            record {
              dir_aligned = omega (arith, e);
              table_aligned = omega (arith, e');
              differ = λ same. differ (omega (arith, e, e', same));
              dir_fits = omega (arith, e);
              table_fits = omega (arith, e');
            }
      ]
    ]

-- Both frames are used afterwards.
allocated_used :
    (p : Pmm)
    → IsValid p
    → (alloc_frame p).0 ≢ 0
    → (alloc_frame (alloc_frame p).1).0 ≢ 0
    → (used (alloc_frame (alloc_frame p).1).1 ((alloc_frame p).0 / 4096) ≡ 1)
      × (used (alloc_frame (alloc_frame p).1).1 ((alloc_frame (alloc_frame p).1).0 / 4096) ≡ 1)
allocated_used p v d t =
    let p1 : Pmm = (alloc_frame p).1 in
    let p2 : Pmm = (alloc_frame p1).1 in
    let v1 : IsValid p1 = (alloc_free-IsValid p frame_size v (omega arith)).0 in
    elim (alloc_frame_lem p v) [
      | inl full ↦ absurd (d full.0)
      | inr (f, e, pos, lt, free, below, after) ↦ elim (alloc_frame_lem p1 v1) [
        | inl full ↦ absurd (t full.0)
        | inr (g, e', pos', lt', free', below', after') ↦
            let first : (alloc_frame p).0 / 4096 ≡ f = omega (arith, e) in
            let second : (alloc_frame p1).0 / 4096 ≡ g = omega (arith, e') in
            (
              ap (used p2) first ∙ stays_used p1 f v1 (after f ∙ rw (==_refl f) refl),
              ap (used p2) second ∙ after' g ∙ rw (==_refl g) refl,
            )
      ]
    ]

-- The machine that paging_init leaves when it has both frames.
abbrev started : Machine → Machine
started m = record m {
  pmm = (alloc_frame (alloc_frame m.pmm).1).1;
  kernel_directory = dir_frame m;
  mem = first_space (dir_frame m) (table_frame m) m.mem;
  cr3 = dir_frame m;
}

started-Owns :
    (m : Machine) → IsValid m.pmm → dir_frame m ≢ 0 → table_frame m ≢ 0 → Owns (started m)
started-Owns m v d t =
    let dir : ℕ = dir_frame m in
    let table : ℕ = table_frame m in
    let p2 : Pmm = (started m).pmm in
    let frames = allocated-Frames m.pmm v d t in
    let (use_dir, use_table) = allocated_used m.pmm v d t in
    let v1 = (alloc_free-IsValid m.pmm frame_size v (omega arith)).0 in
    record {
      valid = (alloc_free-IsValid (alloc_frame m.pmm).1 frame_size v1 (omega arith)).0;
      tables = λ i hi p. elim (present_ends dir table m.mem frames i hi p) [
        | inl first ↦
            ap (λ (x : ℕ). used p2 (x / 4096))
              (page_at dir table m.mem frames i 0 first ∙ page_first dir table m.mem frames)
            ∙ use_table
        | inr last ↦
            ap (λ (x : ℕ). used p2 (x / 4096))
              (page_at dir table m.mem frames i 1023 last ∙ page_end dir table m.mem frames)
            ∙ use_dir
      ];
      identity = first_space-identity dir table m.mem frames;
    }

paging_init-started :
    (m : Machine) → dir_frame m ≢ 0 → table_frame m ≢ 0 → paging_init m ≡ started m
unfolding paging_init
paging_init-started m d t = rw (==_of_ne (dir_frame m) 0 d, ==_of_ne (table_frame m) 0 t) refl

-- paging_init on a valid bitmap with at least two free frames loads a directory that maps itself, with
-- distinct tables, under which each of the first 4 MB of addresses leads to itself; the tables stand in
-- frames that are used from then on.
pub paging_init_lem :
    (m : Machine)
    → ((a : ℕ) → m.mem a < 2 ^ 32)
    → IsValid m.pmm
    → dir_frame m ≢ 0
    → table_frame m ≢ 0
    → ((paging_init m).cr3 ≡ dir_frame m)
      × ((paging_init m).kernel_directory ≡ dir_frame m)
      × IsSpace (paging_init m).mem (paging_init m).cr3
      × Owns (paging_init m)
paging_init_lem m words v d t = rw (paging_init-started m d t) (
  refl,
  refl,
  first_space-IsSpace (dir_frame m) (table_frame m) m.mem (allocated-Frames m.pmm v d t) words,
  started-Owns m v d t,
)
