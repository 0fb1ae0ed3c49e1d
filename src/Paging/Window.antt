-- ===== src/Paging/Window.antt =====
-- The recursive mapping: the last entry of the directory points to the directory, which makes the
-- directory and its tables appear at fixed virtual addresses.
use capstone_myos.Prelude.{ℕ, ◌+◌, ◌*◌, ◌/◌, ◌%◌, ◌^◌, ◌<◌, ◌≡◌, ap, ◌∙◌, arith, true, some}
use capstone_myos.Paging.{page_of, is_present, translate, pde_addr, pte_addr}
use capstone_myos.Paging.Translate.{translate-present}

-- The directory at `dir` maps itself.
pub record IsRecursive (mem : ℕ → ℕ) (dir : ℕ) : Type 0 where
  pub aligned : dir % 4096 ≡ 0
  pub page : page_of (mem (dir + 4092)) ≡ dir
  pub present : is_present (mem (dir + 4092)) ≡ true

pte_addr-fields :
    (i j : ℕ)
    → i < 1024
    → j < 1024
    → (pte_addr i j / 2 ^ 22 ≡ 1023)
      × (pte_addr i j / 2 ^ 12 % 1024 ≡ i)
      × (pte_addr i j % 4096 ≡ 4 * j)
pte_addr-fields i j hi hj = (omega arith, omega arith, omega arith)

-- Under a directory that maps itself, the address of CURRENT_PAGE_TABLES[i].entries[j] leads to entry
-- j of the table that entry i of the directory points to, for every present entry i, the last one
-- included.
pub translate-pte_addr :
    (mem : ℕ → ℕ) (dir i j : ℕ)
    → IsRecursive mem dir
    → i < 1024
    → j < 1024
    → is_present (mem (dir + 4 * i)) ≡ true
    → translate mem dir (pte_addr i j) ≡ some (page_of (mem (dir + 4 * i)) + 4 * j)
translate-pte_addr mem dir i j rec hi hj p =
    let (up, middle, low) = pte_addr-fields i j hi hj in
    let top : mem (dir + 4 * (pte_addr i j / 2 ^ 22)) ≡ mem (dir + 4092) =
      ap (λ (x : ℕ). mem (dir + 4 * x)) up in
    let table : page_of (mem (dir + 4 * (pte_addr i j / 2 ^ 22))) ≡ dir =
      ap page_of top ∙ rec.page in
    let entry : mem
          (page_of (mem (dir + 4 * (pte_addr i j / 2 ^ 22))) + 4 * (pte_addr i j / 2 ^ 12 % 1024))
        ≡ mem (dir + 4 * i) =
      ap (λ (x : ℕ). mem (x + 4 * (pte_addr i j / 2 ^ 12 % 1024))) table
      ∙ ap (λ (x : ℕ). mem (dir + 4 * x)) middle in
    translate-present mem dir (pte_addr i j) (ap is_present top ∙ rec.present)
      (ap is_present entry ∙ p)
    ∙ ap (λ (x : ℕ). some (page_of x + pte_addr i j % 4096)) entry
    ∙ ap (λ (x : ℕ). some (page_of (mem (dir + 4 * i)) + x)) low

-- The address of CURRENT_PAGE_DIR->entries[i] is that of entry i in the last table of the window.
same_addr : (i : ℕ) → pde_addr i ≡ pte_addr 1023 i
same_addr i = omega arith

pub translate-pde_addr :
    (mem : ℕ → ℕ) (dir i : ℕ)
    → IsRecursive mem dir
    → i < 1024
    → translate mem dir (pde_addr i) ≡ some (dir + 4 * i)
translate-pde_addr mem dir i rec hi =
    ap (translate mem dir) (same_addr i)
    ∙ translate-pte_addr mem dir 1023 i rec (omega arith) hi rec.present
    ∙ ap (λ (x : ℕ). some (x + 4 * i)) rec.page
