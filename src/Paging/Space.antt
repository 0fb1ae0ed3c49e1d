-- ===== src/Paging/Space.antt =====
-- What paging_map_page promises about the address space.
use capstone_myos.Prelude.{
  ℕ, ◌+◌, ◌*◌, ◌/◌, ◌%◌, ◌^◌, ◌<◌, ◌≡◌, ◌≢◌, refl, ap, ◌∙◌, sym, arith, true, false, Option, some,
  ◌==◌, ==_iff, if◌then◌else◌, update, bit_or, Bool-cases, inl, inr, ◌⊎◌,
}
use native.Mathlib.Decide.{ℕ_discrete}
use capstone_myos.Pmm.Frames.{used}
use capstone_myos.Pmm.Alloc.{IsValid, alloc_frame_lem}
use capstone_myos.Paging.{Machine, page_of, is_present, translate, new_table, map_page, ◌>>=◌}
use capstone_myos.Paging.Translate.{page_of-eq, is_present-eq, entry-fields, leaf}
use capstone_myos.Paging.Map.{IsSpace, slot, translate-update, update-IsSpace}
use capstone_myos.Paging.Create.{IsFresh, store-some}
use capstone_myos.Paging.Calls.{
  taken, taken_frame, pointer, map_page-found, get_page-absent, new_table-full, Made,
  new_table-Made, translate-pointer,
}

-- The page of `va` leads to `phys`, and every other page of the space below the window leads where it
-- led.
pub record Maps (m m' : Machine) (va phys : ℕ) : Type 0 where
  pub same_dir : m'.cr3 ≡ m.cr3
  pub space : IsSpace m'.mem m'.cr3
  pub pages :
      (other : ℕ)
      → other / 2 ^ 22 < 1023
      → translate m'.mem m'.cr3 other ≡ (
          if other / 4096 == va / 4096
          then some (phys + other % 4096)
          else translate m.mem m.cr3 other)

pub leaf-entry :
    (phys flags other : ℕ)
    → phys % 4096 ≡ 0
    → phys < 2 ^ 32
    → flags < 4096
    → flags % 2 ≡ 1
    → leaf (bit_or phys flags) other ≡ some (phys + other % 4096)
leaf-entry phys flags other aligned lt small odd =
    let e = entry-fields phys flags aligned small in
    let fits : phys + flags < 2 ^ 32 = omega arith in
    let p : is_present (phys + flags) ≡ true =
      is_present-eq (phys + flags) ∙ (==_iff ((phys + flags) % 2) 1).1 (omega arith) in
    let page : page_of (phys + flags) ≡ phys = omega (arith, page_of-eq (phys + flags) fits) in
    rw (e, p, page)

pub entry-lt :
    (phys flags : ℕ) → phys % 4096 ≡ 0 → phys < 2 ^ 32 → flags < 4096 → bit_or phys flags < 2 ^ 32
entry-lt phys flags aligned lt small = omega (arith, entry-fields phys flags aligned small)

-- Writing the entry in a space that has the table.
pub Maps-update :
    (m : Machine) (va phys flags : ℕ)
    → IsSpace m.mem m.cr3
    → va / 2 ^ 22 < 1023
    → is_present (m.mem (m.cr3 + 4 * (va / 2 ^ 22))) ≡ true
    → phys % 4096 ≡ 0
    → phys < 2 ^ 32
    → flags < 4096
    → flags % 2 ≡ 1
    → Maps m (record m { mem = update m.mem (slot m.mem m.cr3 va) (bit_or phys flags) }) va phys
Maps-update m va phys flags space small p aligned lt few odd = record {
  same_dir = refl;
  space =
      update-IsSpace m.mem m.cr3 va (bit_or phys flags) space small p
        (entry-lt phys flags aligned lt few);
  pages = λ other below.
      translate-update m.mem m.cr3 va other (bit_or phys flags) space small below p
      ∙ ap (λ (x : Option ℕ). if other / 4096 == va / 4096 then x else translate m.mem m.cr3 other)
          (leaf-entry phys flags other aligned lt few odd);
}

Maps-Made :
    (m m1 m2 : Machine) (va phys : ℕ)
    → Made m m1 (va / 2 ^ 22)
    → Maps m1 m2 va phys
    → Maps m m2 va phys
Maps-Made m m1 m2 va phys made maps = record {
  same_dir = maps.same_dir ∙ made.same_dir;
  space = maps.space;
  pages = λ other below.
      maps.pages other below
      ∙ ap (λ (x : Option ℕ). if other / 4096 == va / 4096 then some (phys + other % 4096) else x)
          (made.others other below);
}

map_page-full :
    (va phys flags : ℕ) (m : Machine)
    → IsSpace m.mem m.cr3
    → va / 2 ^ 22 < 1023
    → is_present (m.mem (m.cr3 + 4 * (va / 2 ^ 22))) ≡ false
    → taken_frame m ≡ 0
    → map_page va phys flags m ≡ some (tt, taken m)
unfolding map_page
map_page-full va phys flags m space small absent full =
    rw (get_page-absent va flags m space small absent, ◌>>=◌)
      (rw (new_table-full (va / 2 ^ 22) flags m full, ◌>>=◌) refl)

map_page-Made :
    (va phys flags : ℕ) (m m1 : Machine)
    → IsSpace m.mem m.cr3
    → va / 2 ^ 22 < 1023
    → is_present (m.mem (m.cr3 + 4 * (va / 2 ^ 22))) ≡ false
    → new_table (va / 2 ^ 22) flags m ≡ some (true, m1)
    → Made m m1 (va / 2 ^ 22)
    → map_page va phys flags m
      ≡ some (tt, record m1 { mem = update m1.mem (slot m1.mem m1.cr3 va) (bit_or phys flags) })
unfolding map_page
map_page-Made va phys flags m m1 space small absent run made =
    rw (get_page-absent va flags m space small absent, ◌>>=◌)
      (rw (run, ◌>>=◌)
        (store-some m1 (pointer va) (slot m1.mem m1.cr3 va) (bit_or phys flags)
          (translate-pointer m1.mem m1.cr3 va made.space small made.present)))

map_page-fresh :
    (va phys flags : ℕ) (m : Machine)
    → IsSpace m.mem m.cr3
    → va / 2 ^ 22 < 1023
    → phys % 4096 ≡ 0
    → phys < 2 ^ 32
    → flags < 4096
    → flags % 2 ≡ 1
    → (taken_frame m ≢ 0 → IsFresh m.mem m.cr3 (taken_frame m))
    → (m' : Machine) × (map_page va phys flags m ≡ some (tt, m'))
      × (Maps m m' va phys
          ⊎ ((taken_frame m ≡ 0)
              × (is_present (m.mem (m.cr3 + 4 * (va / 2 ^ 22))) ≡ false)
              × (m'.mem ≡ m.mem)
              × (m'.cr3 ≡ m.cr3)))
map_page-fresh va phys flags m space small aligned lt few odd fresh =
    elim (Bool-cases (is_present (m.mem (m.cr3 + 4 * (va / 2 ^ 22))))) [
      | inl p ↦ (
        record m { mem = update m.mem (slot m.mem m.cr3 va) (bit_or phys flags) },
        map_page-found va phys flags m space small p,
        inl (Maps-update m va phys flags space small p aligned lt few odd),
      )
      | inr absent ↦ elim (ℕ_discrete (taken_frame m) 0) [
        | yes full ↦ (
          taken m,
          map_page-full va phys flags m space small absent full,
          inr (full, absent, refl, refl),
        )
        | no ne ↦
            let (m1, run, made) =
              new_table-Made (va / 2 ^ 22) flags m space small absent odd ne (fresh ne) in
            (
              record m1 { mem = update m1.mem (slot m1.mem m1.cr3 va) (bit_or phys flags) },
              map_page-Made va phys flags m m1 space small absent run made,
              inl (
                  Maps-Made m m1
                    (record m1 { mem = update m1.mem (slot m1.mem m1.cr3 va) (bit_or phys flags) })
                    va phys made
                    (Maps-update m1 va phys flags made.space small made.present aligned lt few
                      odd)),
            )
      ]
    ]

pub zero_one : ◌≡◌ {A = ℕ} 0 1 → ⊥
zero_one e = omega arith

-- The bitmap and the space agree: the tables stand in used frames of it, and the first 4 MB of
-- addresses lead to themselves.
pub record Owns (m : Machine) : Type 0 where
  pub valid : IsValid m.pmm
  pub tables :
      (i : ℕ)
      → i < 1024
      → is_present (m.mem (m.cr3 + 4 * i)) ≡ true
      → used m.pmm (page_of (m.mem (m.cr3 + 4 * i)) / 4096) ≡ 1
  pub identity : (va : ℕ) → va < 2 ^ 22 → translate m.mem m.cr3 va ≡ some va

-- What the allocator gives below 4 MB is fresh.
taken_frame-IsFresh :
    (m : Machine)
    → Owns m
    → taken_frame m < 2 ^ 22
    → taken_frame m ≢ 0
    → IsFresh m.mem m.cr3 (taken_frame m)
taken_frame-IsFresh m owns low ne = elim (alloc_frame_lem m.pmm owns.valid) [
  | inl full ↦ absurd (ne full.0)
  | inr (f, e, pos, lt, free, below, after) ↦
      let aligned : taken_frame m % 4096 ≡ 0 = omega (arith, e) in
      let index : taken_frame m / 4096 ≡ f = omega (arith, e) in
      record {
        aligned = aligned;
        fits = omega arith;
        identity = λ k hk. owns.identity (taken_frame m + 4 * k) (omega (arith, aligned));
        unused = λ i hi p same. zero_one (
            sym free
            ∙ ap (used m.pmm) (sym index)
            ∙ ap (λ (x : ℕ). used m.pmm (x / 4096)) (sym same)
            ∙ owns.tables i hi p);
      }
]

-- In a space whose directory maps itself, whose tables are distinct used frames, and in which the first
-- 4 MB lead to themselves, paging_map_page of a page below the window, with the present flag, never
-- faults, and the directory still maps itself, with distinct tables. Either the page then leads to the
-- given frame and every other page where it led, a new table being made if need be; or there was neither
-- a table nor a frame for it, and the memory has not changed. The frame that the allocator would give for
-- a table is to lie below 4 MB.
pub map_page_lem :
    (va phys flags : ℕ) (m : Machine)
    → IsSpace m.mem m.cr3
    → Owns m
    → va / 2 ^ 22 < 1023
    → phys % 4096 ≡ 0
    → phys < 2 ^ 32
    → flags < 4096
    → flags % 2 ≡ 1
    → taken_frame m < 2 ^ 22
    → (m' : Machine) × (map_page va phys flags m ≡ some (tt, m'))
      × (Maps m m' va phys
          ⊎ ((taken_frame m ≡ 0)
              × (is_present (m.mem (m.cr3 + 4 * (va / 2 ^ 22))) ≡ false)
              × (m'.mem ≡ m.mem)
              × (m'.cr3 ≡ m.cr3)))
map_page_lem va phys flags m space owns small aligned lt few odd low =
    map_page-fresh va phys flags m space small aligned lt few odd (taken_frame-IsFresh m owns low)
