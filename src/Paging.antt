-- ===== src/Paging.antt =====
-- kernel/mm/paging.c and include/kernel/paging.h over a memory of 32-bit words, by physical address.
-- The code writes through virtual addresses; here every access goes through the processor's translation
-- under CR3. The translation has no cache: the code invalidates each entry that it changes. The
-- bitmap of the frames stands beside the memory. `none` is a page fault.
pub mod Translate
pub mod Window
pub mod Map
pub mod Create
pub mod Attach
pub mod Calls
pub mod Space
pub mod Init
pub mod Directory
pub mod Clone
mod CloneTests
pub mod Fill
pub mod Copied
mod Tests
use capstone_myos.Prelude.{
  ℕ, zero, suc, ◌+◌, ◌-◌, ◌*◌, ◌/◌, ◌%◌, ◌^◌, Bool, true, false, not, ◌&&◌, Option, none, some,
  ◌==◌, leb, ltb, if◌then◌else◌, update, bit_and, bit_or,
}
use capstone_myos.Pmm.{Pmm, alloc_frame, free_frame}

abbrev pub flag_present : ℕ
flag_present = 0x1

abbrev pub flag_rw : ℕ
flag_rw = 0x2

abbrev pub flag_user : ℕ
flag_user = 0x4

abbrev pub temp_pagetable : ℕ
temp_pagetable = 0xFFBFF000

abbrev pub temp_pagedir : ℕ
temp_pagedir = 0xFFBFE000

pub record Machine : Type 0 where
  pub mem : ℕ → ℕ
  pub pmm : Pmm
  pub cr3 : ℕ
  pub kernel_directory : ℕ

-- `entry & ~0xFFF`.
unfoldable pub page_of : ℕ → ℕ
page_of entry = bit_and entry 0xFFFFF000

unfoldable pub is_present : ℕ → Bool
is_present entry = not (bit_and entry flag_present == 0)

-- The processor's translation of a virtual address, under the directory at `dir`.
unfoldable pub translate : (ℕ → ℕ) → ℕ → ℕ → Option ℕ
translate mem dir va =
    let pde = mem (dir + 4 * (va / 2 ^ 22)) in
    let pte = mem (page_of pde + 4 * (va / 2 ^ 12 % 1024)) in
    if is_present pde
    then (if is_present pte then some (page_of pte + va % 4096) else none)
    else none

abbrev pub M : Type 0 → Type 0
M A = Machine → Option (A × Machine)

abbrev pub pure : {A : Type 0} → A → M A
pure a m = some (a, m)

infixl 5 ◌>>=◌ ◌>>◌
abbrev pub ◌>>=◌ : {A B : Type 0} → M A → (A → M B) → M B
◌>>=◌ first next m = elim (first m) [ none ↦ none | some (a, m') ↦ next a m' ]

abbrev pub ◌>>◌ : {B : Type 0} → M (Unit {0}) → M B → M B
first >> second = first >>= λ _. second

-- A word at a virtual address.
unfoldable pub load : ℕ → M ℕ
load va m = elim (translate m.mem m.cr3 va) [ none ↦ none | some a ↦ some (m.mem a, m) ]

unfoldable pub store : ℕ → ℕ → M (Unit {0})
store va value m = elim (translate m.mem m.cr3 va) [
  | none ↦ none
  | some a ↦ some (tt, record m { mem = update m.mem a value })
]

unfoldable pub new_frame : M ℕ
new_frame m = let (frame, p) = alloc_frame m.pmm in some (frame, record m { pmm = p })

unfoldable pub release : ℕ → M (Unit {0})
release frame m = some (tt, record m { pmm = free_frame m.pmm frame })

-- memset to zero of the `n` words from `va` on.
unfoldable pub zero_words : ℕ → ℕ → M (Unit {0})
zero_words zero va = pure tt
zero_words (suc n) va = do store va 0; zero_words n (va + 4)

-- &CURRENT_PAGE_DIR->entries[i] and &CURRENT_PAGE_TABLES[i].entries[j].
abbrev pub pde_addr : ℕ → ℕ
pde_addr i = 0xFFFFF000 + 4 * i

abbrev pub pte_addr : ℕ → ℕ → ℕ
pte_addr i j = 0xFFC00000 + 4096 * i + 4 * j

-- The part of paging_get_page that makes a table: whether there was a frame for it.
unfoldable pub new_table : ℕ → ℕ → M Bool
new_table pd_idx flags = do
  frame ← new_frame
  elim (frame == 0) [
    | true ↦ pure false
    | false ↦ do
      zero_words 1024 frame
      store (pde_addr pd_idx) (bit_or frame (bit_and flags 0x7))
      pure true
  ]

-- paging_get_page: the virtual address of the entry; `none` within the result is NULL. The directory
-- that the code takes as an argument is not read.
unfoldable pub get_page : ℕ → Bool → ℕ → M (Option ℕ)
get_page va create flags = do
  pde ← load (pde_addr (va / 2 ^ 22))
  elim (is_present pde) [
    | true ↦ pure (some (pte_addr (va / 2 ^ 22) (bit_and (va / 2 ^ 12) 0x3FF)))
    | false ↦ elim create [
      | false ↦ pure none
      | true ↦ do
        made ← new_table (va / 2 ^ 22) flags
        pure (if made then some (pte_addr (va / 2 ^ 22) (bit_and (va / 2 ^ 12) 0x3FF)) else none)
    ]
  ]

unfoldable pub map_page : ℕ → ℕ → ℕ → M (Unit {0})
map_page va phys flags = do
  pte ← get_page va true flags
  elim pte [ none ↦ pure tt | some p ↦ store p (bit_or phys flags) ]

-- paging_init, before paging is on, so that it writes to physical addresses.
unfoldable pub clear_page : ℕ → (ℕ → ℕ) → ℕ → ℕ
clear_page frame mem a = if leb frame a && ltb a (frame + 4096) then 0 else mem a

-- The loop that fills the first table, `n` entries from `i` on.
unfoldable pub fill_table : ℕ → ℕ → ℕ → (ℕ → ℕ) → ℕ → ℕ
fill_table zero i table mem = mem
fill_table (suc n) i table mem =
    fill_table n (i + 1) table
      (update mem (table + 4 * i) (bit_or (bit_or (i * 0x1000) flag_present) flag_rw))

-- The memory when both frames are there.
unfoldable pub first_space : ℕ → ℕ → (ℕ → ℕ) → ℕ → ℕ
first_space dir table mem =
    update
      (update (fill_table 1024 0 table (clear_page table (clear_page dir mem))) (dir + 4 * 0)
        (bit_or (bit_or table flag_present) flag_rw))
      (dir + 4 * 1023) (bit_or (bit_or dir flag_present) flag_rw)

unfoldable pub paging_init : Machine → Machine
paging_init m =
    let (dir, p1) = alloc_frame m.pmm in
    let (table, p2) = alloc_frame p1 in
    if dir == 0
    then record m { pmm = p1; kernel_directory = 0 }
    else if table == 0
    then record m { pmm = p2; kernel_directory = dir; mem = clear_page dir m.mem }
    else record m { pmm = p2; kernel_directory = dir; mem = first_space dir table m.mem; cr3 = dir }
