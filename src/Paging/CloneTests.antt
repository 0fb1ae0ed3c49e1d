-- ===== src/Paging/CloneTests.antt =====
-- A directory with its own entry and one table, that of the temporary address.
use native.Mathlib.Decide.{ℕ_discrete}
use capstone_myos.Prelude.{
  ℕ, ◌+◌, ◌*◌, ◌≡◌, ◌≢◌, refl, ap, ◌∙◌, sym, arith, true, false, some, ◌==◌, ==_of_ne,
  if◌then◌else◌, inl, inr, ◌⊎◌,
}
use capstone_myos.Pmm.Alloc.{IsValid}
use capstone_myos.Paging.{Machine, is_present, page_of}
use capstone_myos.Paging.Calls.{taken, taken_frame}
use capstone_myos.Paging.Directory.{clone_directory}
use capstone_myos.Paging.Clone.{IsReady, Clones, clone_directory_lem}

-- Frames 0 to 17 are used, the last two by the directory and the table.
abbrev ready : Machine
ready = record {
  mem = λ a. if a == 0x10FFC then 0x10003 else if a == 0x10FF8 then 0x11003 else 0;
  pmm = record {
    bitmap = λ i. if i == 0 then 0x3FFFF else 0;
    base = 0;
    total_frames = 64;
    bitmap_size = 8;
  };
  cr3 = 0x10000;
  kernel_directory = 0x10000;
}

ready-IsValid : IsValid ready.pmm
ready-IsValid = record { words = λ i. ground arith; zero_used = refl; fits = omega arith }

ready-absent : (i : ℕ) → i ≢ 1023 → i ≢ 1022 → is_present (ready.mem (0x10000 + 4 * i)) ≡ false
unfolding is_present
ready-absent i a b =
    let last = ==_of_ne (0x10000 + 4 * i) 0x10FFC (λ e. a (omega arith)) in
    let window = ==_of_ne (0x10000 + 4 * i) 0x10FF8 (λ e. b (omega arith)) in rw (last, window) refl

ready-present : (i : ℕ) → is_present (ready.mem (0x10000 + 4 * i)) ≡ true → (i ≡ 1023) ⊎ (i ≡ 1022)
ready-present i p = elim (ℕ_discrete i 1023) [
  | yes e ↦ inl e
  | no a ↦ elim (ℕ_discrete i 1022) [
    | yes e ↦ inr e
    | no b ↦ let absent = ready-absent i a b in ground (arith, absent, p)
  ]
]

ready-page :
    (i k : ℕ)
    → i ≡ k
    → page_of (ready.mem (0x10000 + 4 * i)) ≡ page_of (ready.mem (0x10000 + 4 * k))
ready-page i k e = ap (λ (x : ℕ). page_of (ready.mem (0x10000 + 4 * x))) e

pages-differ :
    (i j : ℕ)
    → (i ≡ 1023) ⊎ (i ≡ 1022)
    → (j ≡ 1023) ⊎ (j ≡ 1022)
    → i ≢ j
    → page_of (ready.mem (0x10000 + 4 * i)) ≢ page_of (ready.mem (0x10000 + 4 * j))
unfolding page_of
pages-differ i j (inl a) (inl b) ne e = ne (a ∙ sym b)
pages-differ i j (inl a) (inr b) ne e =
    let wrong : 0x10000 ≡ 0x11000 = sym (ready-page i 1023 a) ∙ e ∙ ready-page j 1022 b in
    omega (arith, wrong)
pages-differ i j (inr a) (inl b) ne e =
    let wrong : 0x11000 ≡ 0x10000 = sym (ready-page i 1022 a) ∙ e ∙ ready-page j 1023 b in
    omega (arith, wrong)
pages-differ i j (inr a) (inr b) ne e = ne (a ∙ sym b)

ready-IsReady : IsReady ready
unfolding page_of is_present
ready-IsReady = record {
  space = record {
    recursive = record { aligned = refl; page = refl; present = refl };
    words = λ a. ground arith;
    separate = λ i j hi hj ne p q. pages-differ i j (ready-present i p) (ready-present j q) ne;
  };
  valid = ready-IsValid;
  tables = λ i hi p. elim (ready-present i p) [ inl e ↦ rw e refl | inr e ↦ rw e refl ];
  window = refl;
}

clone_directory_lem_example :
    ((taken_frame ready ≡ 0) × (clone_directory ready ≡ some (0, taken ready)))
    ⊎ ((m' : Machine) × (clone_directory ready ≡ some (taken_frame ready, m'))
        × (taken_frame ready ≢ 0)
        × Clones ready m' (taken_frame ready))
clone_directory_lem_example = clone_directory_lem ready ready-IsReady
