-- ===== src/Paging/Map.antt =====
-- What a change of one table entry does to the translation of every address.
use native.Mathlib.Decide.{ℕ_discrete}
use capstone_myos.Prelude.{
  ℕ, ◌+◌, ◌*◌, ◌/◌, ◌%◌, ◌^◌, ◌<◌, ◌≡◌, ◌≢◌, ap, ◌∙◌, sym, arith, true, ◌==◌, if◌then◌else◌, update,
  update_ne, update_self, ==_refl, ==_of_ne,
}
use capstone_myos.Paging.{page_of, is_present, translate}
use capstone_myos.Paging.Translate.{page_of-eq, translate-local, translate-leaf, leaf}
use capstone_myos.Paging.Window.{IsRecursive}

-- A directory that maps itself, with a table of its own for each present entry.
pub record IsSpace (mem : ℕ → ℕ) (dir : ℕ) : Type 0 where
  pub recursive : IsRecursive mem dir
  pub words : (a : ℕ) → mem a < 2 ^ 32
  pub separate :
      (i j : ℕ)
      → i < 1024
      → j < 1024
      → i ≢ j
      → is_present (mem (dir + 4 * i)) ≡ true
      → is_present (mem (dir + 4 * j)) ≡ true
      → page_of (mem (dir + 4 * i)) ≢ page_of (mem (dir + 4 * j))

pub page_of-aligned : (x : ℕ) → x < 2 ^ 32 → page_of x % 4096 ≡ 0
page_of-aligned x lt = omega (arith, page_of-eq x lt)

-- Entries of different pages, and different entries of one page, are different words.
pub other_page :
    (s t a b : ℕ)
    → s % 4096 ≡ 0
    → t % 4096 ≡ 0
    → s ≢ t
    → a < 1024
    → b < 1024
    → s + 4 * a ≢ t + 4 * b
other_page s t a b hs ht ne ha hb e = ne (omega arith)

-- No table but the directory itself stands where the directory stands.
pub table-ne-dir :
    (mem : ℕ → ℕ) (dir i : ℕ)
    → IsSpace mem dir
    → i < 1023
    → is_present (mem (dir + 4 * i)) ≡ true
    → page_of (mem (dir + 4 * i)) ≢ dir
table-ne-dir mem dir i space small p e =
    space.separate i 1023 (omega arith) (omega arith) (λ same. omega arith) p
      space.recursive.present (e ∙ sym space.recursive.page)

-- The entry of `va` in its table.
abbrev pub slot : (ℕ → ℕ) → ℕ → ℕ → ℕ
slot mem dir va = page_of (mem (dir + 4 * (va / 2 ^ 22))) + 4 * (va / 2 ^ 12 % 1024)

slot-ne-pde :
    (mem : ℕ → ℕ) (dir va i : ℕ)
    → IsSpace mem dir
    → va / 2 ^ 22 < 1023
    → is_present (mem (dir + 4 * (va / 2 ^ 22))) ≡ true
    → i < 1024
    → dir + 4 * i ≢ slot mem dir va
slot-ne-pde mem dir va i space small p hi =
    other_page dir (page_of (mem (dir + 4 * (va / 2 ^ 22)))) i (va / 2 ^ 12 % 1024)
      space.recursive.aligned
      (page_of-aligned (mem (dir + 4 * (va / 2 ^ 22))) (space.words (dir + 4 * (va / 2 ^ 22))))
      (λ e. table-ne-dir mem dir (va / 2 ^ 22) space small p (sym e)) hi (omega arith)

slot-ne-slot :
    (mem : ℕ → ℕ) (dir va other : ℕ)
    → IsSpace mem dir
    → va / 2 ^ 22 < 1023
    → other / 2 ^ 22 < 1023
    → is_present (mem (dir + 4 * (va / 2 ^ 22))) ≡ true
    → is_present (mem (dir + 4 * (other / 2 ^ 22))) ≡ true
    → other / 4096 ≢ va / 4096
    → slot mem dir other ≢ slot mem dir va
slot-ne-slot mem dir va other space small small' p p' ne =
    elim (ℕ_discrete (other / 2 ^ 22) (va / 2 ^ 22)) [
      | yes same ↦ λ e.
          let table : page_of (mem (dir + 4 * (other / 2 ^ 22)))
              ≡ page_of (mem (dir + 4 * (va / 2 ^ 22))) =
            ap (λ (x : ℕ). page_of (mem (dir + 4 * x))) same in
          ne (omega (arith, e, table, same))
      | no differ ↦
          other_page (page_of (mem (dir + 4 * (other / 2 ^ 22))))
            (page_of (mem (dir + 4 * (va / 2 ^ 22)))) (other / 2 ^ 12 % 1024) (va / 2 ^ 12 % 1024)
            (page_of-aligned (mem (dir + 4 * (other / 2 ^ 22)))
              (space.words (dir + 4 * (other / 2 ^ 22))))
            (page_of-aligned (mem (dir + 4 * (va / 2 ^ 22)))
              (space.words (dir + 4 * (va / 2 ^ 22))))
            (space.separate (other / 2 ^ 22) (va / 2 ^ 22) (omega arith) (omega arith) differ p' p)
            (omega arith) (omega arith)
    ]

-- Writing the entry of one page changes the translation of that page and of no other.
pub translate-update :
    (mem : ℕ → ℕ) (dir va other w : ℕ)
    → IsSpace mem dir
    → va / 2 ^ 22 < 1023
    → other / 2 ^ 22 < 1023
    → is_present (mem (dir + 4 * (va / 2 ^ 22))) ≡ true
    → translate (update mem (slot mem dir va) w) dir other
      ≡ (if other / 4096 == va / 4096 then leaf w other else translate mem dir other)
translate-update mem dir va other w space small small' p =
    let after = update mem (slot mem dir va) w in
    let pde : after (dir + 4 * (other / 2 ^ 22)) ≡ mem (dir + 4 * (other / 2 ^ 22)) =
      update_ne mem (slot mem dir va) (dir + 4 * (other / 2 ^ 22)) w
        (slot-ne-pde mem dir va (other / 2 ^ 22) space small p (omega arith)) in
    elim (ℕ_discrete (other / 4096) (va / 4096)) [
      | yes same ↦
          let up : other / 2 ^ 22 ≡ va / 2 ^ 22 = omega arith in
          let low : other / 2 ^ 12 % 1024 ≡ va / 2 ^ 12 % 1024 = omega arith in
          let there : after (slot after dir other) ≡ w =
            ap (λ (x : ℕ). after (page_of x + 4 * (other / 2 ^ 12 % 1024))) pde
            ∙ ap (λ (x : ℕ). after (page_of (mem (dir + 4 * x)) + 4 * (other / 2 ^ 12 % 1024))) up
            ∙ ap (λ (x : ℕ). after (page_of (mem (dir + 4 * (va / 2 ^ 22))) + 4 * x)) low
            ∙ update_self mem (slot mem dir va) w in
          let found : is_present (mem (dir + 4 * (other / 2 ^ 22))) ≡ true =
            ap (λ (x : ℕ). is_present (mem (dir + 4 * x))) up ∙ p in
          rw (same, ==_refl (va / 4096))
            (translate-leaf after dir other (ap is_present pde ∙ found)
              ∙ ap (λ (x : ℕ). leaf x other) there)
      | no ne ↦ rw (==_of_ne (other / 4096) (va / 4096) ne) (
          translate-local mem after dir other pde (λ p'.
            update_ne mem (slot mem dir va) (slot mem dir other) w
              (slot-ne-slot mem dir va other space small small' p p' ne)))
    ]

pub slot-pde :
    (mem : ℕ → ℕ) (dir va w i : ℕ)
    → IsSpace mem dir
    → va / 2 ^ 22 < 1023
    → is_present (mem (dir + 4 * (va / 2 ^ 22))) ≡ true
    → i < 1024
    → update mem (slot mem dir va) w (dir + 4 * i) ≡ mem (dir + 4 * i)
slot-pde mem dir va w i space small p hi =
    update_ne mem (slot mem dir va) (dir + 4 * i) w (slot-ne-pde mem dir va i space small p hi)

-- Directories whose entries agree have the same tables.
pub same_tables :
    (mem mem' : ℕ → ℕ) (dir : ℕ)
    → IsSpace mem dir
    → ((a : ℕ) → mem' a < 2 ^ 32)
    → ((i : ℕ) → i < 1024 → mem' (dir + 4 * i) ≡ mem (dir + 4 * i))
    → IsSpace mem' dir
same_tables mem mem' dir space words same = record {
  recursive = record {
    aligned = space.recursive.aligned;
    page = ap page_of (same 1023 (omega arith)) ∙ space.recursive.page;
    present = ap is_present (same 1023 (omega arith)) ∙ space.recursive.present;
  };
  words = words;
  separate = λ i j hi hj ne p q e.
      space.separate i j hi hj ne (ap is_present (sym (same i hi)) ∙ p)
        (ap is_present (sym (same j hj)) ∙ q)
        (ap page_of (sym (same i hi)) ∙ e ∙ ap page_of (same j hj));
}

pub update-words :
    (mem : ℕ → ℕ) (a w : ℕ)
    → ((b : ℕ) → mem b < 2 ^ 32)
    → w < 2 ^ 32
    → (b : ℕ) → update mem a w b < 2 ^ 32
update-words mem a w words lt b = ground (arith, words b)

pub update-IsSpace :
    (mem : ℕ → ℕ) (dir va w : ℕ)
    → IsSpace mem dir
    → va / 2 ^ 22 < 1023
    → is_present (mem (dir + 4 * (va / 2 ^ 22))) ≡ true
    → w < 2 ^ 32
    → IsSpace (update mem (slot mem dir va) w) dir
update-IsSpace mem dir va w space small p lt =
    same_tables mem (update mem (slot mem dir va) w) dir space
      (update-words mem (slot mem dir va) w space.words lt)
      (λ i hi. slot-pde mem dir va w i space small p hi)
