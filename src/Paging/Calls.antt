-- ===== src/Paging/Calls.antt =====
-- paging_get_page and paging_map_page against the translation.
use capstone_myos.Prelude.{
  ℕ, ◌+◌, ◌*◌, ◌/◌, ◌%◌, ◌^◌, ◌<◌, ◌≡◌, ◌≢◌, refl, ap, ◌∙◌, arith, Bool, true, false, none, some,
  ==_of_ne, ==_iff, if◌then◌else◌, update, bit_and, bit_or, bit_and-low,
}
use capstone_myos.Pmm.{alloc_frame}
use capstone_myos.Paging.{
  Machine, is_present, translate, load, zero_words, new_frame, new_table, get_page, map_page,
  pde_addr, pte_addr, pure, ◌>>=◌,
}
use capstone_myos.Paging.Translate.{page_of-eq, is_present-eq, entry-fields}
use capstone_myos.Paging.Window.{translate-pde_addr, translate-pte_addr}
use capstone_myos.Paging.Map.{IsSpace, slot}
use capstone_myos.Paging.Create.{IsFresh, translate-Outside, store-some, Cleared, zero-Cleared}
use capstone_myos.Paging.Attach.{
  Attached, attached, attached-IsSpace, translate-attached, entry_new,
}

pub load-some :
    (m : Machine) (va a : ℕ) → translate m.mem m.cr3 va ≡ some a → load va m ≡ some (m.mem a, m)
unfolding load
load-some m va a e = ground arith

pte_index : (va : ℕ) → bit_and (va / 2 ^ 12) 0x3FF ≡ va / 2 ^ 12 % 1024
pte_index va = bit_and-low 10 (va / 2 ^ 12)

-- The entry's address in the window.
abbrev pub pointer : ℕ → ℕ
pointer va = pte_addr (va / 2 ^ 22) (bit_and (va / 2 ^ 12) 0x3FF)

pub translate-pointer :
    (mem : ℕ → ℕ) (dir va : ℕ)
    → IsSpace mem dir
    → va / 2 ^ 22 < 1023
    → is_present (mem (dir + 4 * (va / 2 ^ 22))) ≡ true
    → translate mem dir (pointer va) ≡ some (slot mem dir va)
translate-pointer mem dir va space small p =
    ap (λ (x : ℕ). translate mem dir (pte_addr (va / 2 ^ 22) x)) (pte_index va)
    ∙ translate-pte_addr mem dir (va / 2 ^ 22) (va / 2 ^ 12 % 1024) space.recursive (omega arith)
        (omega arith) p

get_page-found :
    (va flags : ℕ) (create : Bool) (m : Machine)
    → IsSpace m.mem m.cr3
    → va / 2 ^ 22 < 1023
    → is_present (m.mem (m.cr3 + 4 * (va / 2 ^ 22))) ≡ true
    → get_page va create flags m ≡ some (some (pointer va), m)
unfolding get_page
get_page-found va flags create m space small p =
    rw
      (
        load-some m (pde_addr (va / 2 ^ 22)) (m.cr3 + 4 * (va / 2 ^ 22))
            (translate-pde_addr m.mem m.cr3 (va / 2 ^ 22) space.recursive (omega arith)),
        ◌>>=◌,
      )
      (rw p)

-- The table is there: one word is written.
pub map_page-found :
    (va phys flags : ℕ) (m : Machine)
    → IsSpace m.mem m.cr3
    → va / 2 ^ 22 < 1023
    → is_present (m.mem (m.cr3 + 4 * (va / 2 ^ 22))) ≡ true
    → map_page va phys flags m
      ≡ some (tt, record m { mem = update m.mem (slot m.mem m.cr3 va) (bit_or phys flags) })
unfolding map_page
map_page-found va phys flags m space small p =
    rw (get_page-found va flags true m space small p, ◌>>=◌)
      (store-some m (pointer va) (slot m.mem m.cr3 va) (bit_or phys flags)
        (translate-pointer m.mem m.cr3 va space small p))

pub get_page-absent :
    (va flags : ℕ) (m : Machine)
    → IsSpace m.mem m.cr3
    → va / 2 ^ 22 < 1023
    → is_present (m.mem (m.cr3 + 4 * (va / 2 ^ 22))) ≡ false
    → get_page va true flags m
      ≡ (new_table (va / 2 ^ 22) flags >>= λ made. pure (if made then some (pointer va) else none))
          m
unfolding get_page
get_page-absent va flags m space small p =
    rw
      (
        load-some m (pde_addr (va / 2 ^ 22)) (m.cr3 + 4 * (va / 2 ^ 22))
            (translate-pde_addr m.mem m.cr3 (va / 2 ^ 22) space.recursive (omega arith)),
        ◌>>=◌,
      )
      (rw p)

-- The machine after an allocation.
abbrev pub taken : Machine → Machine
taken m = record m { pmm = (alloc_frame m.pmm).1 }

abbrev pub taken_frame : Machine → ℕ
taken_frame m = (alloc_frame m.pmm).0

pub new_table-full :
    (i flags : ℕ) (m : Machine) → taken_frame m ≡ 0 → new_table i flags m ≡ some (false, taken m)
unfolding new_table new_frame
new_table-full i flags m e = rw (e, ◌>>=◌) refl

-- The directory entry for a new table.
abbrev new_pde : ℕ → ℕ → ℕ
new_pde frame flags = bit_or frame (bit_and flags 0x7)

new_pde-eq : (frame flags : ℕ) → frame % 4096 ≡ 0 → new_pde frame flags ≡ frame + flags % 8
new_pde-eq frame flags aligned =
    let low = bit_and-low 3 flags in
    let small : bit_and flags 0x7 < 4096 = omega (arith, low) in
    omega (arith, low, entry-fields frame (bit_and flags 0x7) aligned small)

start_clear : (mem : ℕ → ℕ) (dir frame : ℕ) → IsSpace mem dir → Cleared mem mem frame 0
start_clear mem dir frame space = record {
  outside = λ t k ht ne hk. refl;
  zeros = λ j lt. absurd (omega arith);
  words = space.words;
}

attach_new :
    (mem mem' : ℕ → ℕ) (dir frame i flags : ℕ)
    → IsSpace mem dir
    → IsFresh mem dir frame
    → Cleared mem mem' frame 1024
    → i < 1023
    → is_present (mem (dir + 4 * i)) ≡ false
    → flags % 2 ≡ 1
    → Attached mem mem' dir frame i (new_pde frame flags)
attach_new mem mem' dir frame i flags space fresh c small absent odd =
    let eq = new_pde-eq frame flags fresh.aligned in
    let aligned = fresh.aligned in
    let fits = fresh.fits in
    let lt : new_pde frame flags < 2 ^ 32 = omega (arith, eq) in
    record {
      space = space;
      fresh = fresh;
      cleared = c;
      below = small;
      was_absent = absent;
      word = lt;
      page = omega (arith, eq, page_of-eq (new_pde frame flags) lt);
      present =
          is_present-eq (new_pde frame flags)
          ∙ (==_iff (new_pde frame flags % 2) 1).1 (omega (arith, eq));
    }

-- A table was made: nothing is translated otherwise, and the entry is present.
pub record Made (m m' : Machine) (i : ℕ) : Type 0 where
  pub same_dir : m'.cr3 ≡ m.cr3
  pub space : IsSpace m'.mem m'.cr3
  pub present : is_present (m'.mem (m'.cr3 + 4 * i)) ≡ true
  pub others : (va : ℕ) → va / 2 ^ 22 < 1023 → translate m'.mem m'.cr3 va ≡ translate m.mem m.cr3 va

new_table-run :
    (i flags : ℕ) (m : Machine) (mem' : ℕ → ℕ)
    → taken_frame m ≢ 0
    → zero_words 1024 (taken_frame m) (taken m) ≡ some (tt, record (taken m) { mem = mem' })
    → translate mem' m.cr3 (pde_addr i) ≡ some (m.cr3 + 4 * i)
    → new_table i flags m
      ≡ some
          (true, record (taken m) { mem = attached mem' m.cr3 i (new_pde (taken_frame m) flags) })
unfolding new_table new_frame attached
new_table-run i flags m mem' ne zeroed there =
    rw (==_of_ne (taken_frame m) 0 ne, ◌>>=◌)
      (rw (zeroed, ◌>>=◌)
        (rw
          (
            store-some (record (taken m) { mem = mem' }) (pde_addr i) (m.cr3 + 4 * i)
                (new_pde (taken_frame m) flags) there,
            ◌>>=◌,
          )
          refl))

pub new_table-Made :
    (i flags : ℕ) (m : Machine)
    → IsSpace m.mem m.cr3
    → i < 1023
    → is_present (m.mem (m.cr3 + 4 * i)) ≡ false
    → flags % 2 ≡ 1
    → taken_frame m ≢ 0
    → IsFresh m.mem m.cr3 (taken_frame m)
    → (m' : Machine) × (new_table i flags m ≡ some (true, m')) × Made m m' i
new_table-Made i flags m space small absent odd ne fresh =
    let frame : ℕ = taken_frame m in
    let (mem', run, c) =
      zero-Cleared 1024 0 (taken m) m.mem frame space fresh (start_clear m.mem m.cr3 frame space)
        (omega arith) in
    let at = attach_new m.mem mem' m.cr3 frame i flags space fresh c small absent odd in
    let d : ℕ = new_pde frame flags in
    let origin : frame + 4 * 0 ≡ frame = omega arith in
    let there : translate mem' m.cr3 (pde_addr i) ≡ some (m.cr3 + 4 * i) =
      translate-Outside m.mem mem' m.cr3 frame (pde_addr i) space fresh c.outside (omega arith)
      ∙ translate-pde_addr m.mem m.cr3 i space.recursive (omega arith) in
    (
      record (taken m) { mem = attached mem' m.cr3 i d },
      new_table-run i flags m mem' ne (rw origin at run) there,
      record {
        same_dir = refl;
        space = attached-IsSpace m.mem mem' m.cr3 frame i d at;
        present = ap is_present (entry_new m.mem mem' m.cr3 frame i d at) ∙ at.present;
        others = translate-attached m.mem mem' m.cr3 frame i d at;
      },
    )
