-- ===== src/Paging/Translate.antt =====
-- Translation as arithmetic, and what it depends on.
use capstone_myos.Prelude.{
  ℕ, ◌+◌, ◌*◌, ◌/◌, ◌%◌, ◌^◌, ◌<◌, ◌≡◌, ap, ◌∙◌, sym, arith, true, false, Option, none, some, ◌==◌,
  if◌then◌else◌, bit_or, bit_and-high, bit_and-low, bit_or-fields, Bool-cases, inl, inr,
}
use capstone_myos.Paging.{page_of, is_present, translate}

pub page_of-eq : (x : ℕ) → x < 2 ^ 32 → page_of x ≡ x / 4096 * 4096
unfolding page_of
page_of-eq x lt = omega (arith, bit_and-high 12 20 x)

pub is_present-eq : (x : ℕ) → is_present x ≡ (x % 2 == 1)
unfolding is_present
is_present-eq x = ground (arith, bit_and-low 1 x)

-- An entry for the page at `base` with flags.
pub entry-fields :
    (base flags : ℕ) → base % 4096 ≡ 0 → flags < 4096 → bit_or base flags ≡ base + flags
entry-fields base flags aligned small =
    let e : base ≡ base / 4096 * 4096 = omega arith in
    let fields = bit_or-fields 12 (base / 4096) flags small in rw (← e) at fields

-- A present directory entry with a present table entry.
pub translate-present :
    (mem : ℕ → ℕ) (dir va : ℕ)
    → is_present (mem (dir + 4 * (va / 2 ^ 22))) ≡ true
    → is_present (mem (page_of (mem (dir + 4 * (va / 2 ^ 22))) + 4 * (va / 2 ^ 12 % 1024))) ≡ true
    → translate mem dir va
      ≡ some (
          page_of (mem (page_of (mem (dir + 4 * (va / 2 ^ 22))) + 4 * (va / 2 ^ 12 % 1024)))
          + va % 4096)
unfolding translate
translate-present mem dir va p q = rw (p, q)

pub translate-absent :
    (mem : ℕ → ℕ) (dir va : ℕ)
    → is_present (mem (dir + 4 * (va / 2 ^ 22))) ≡ false
    → translate mem dir va ≡ none
unfolding translate
translate-absent mem dir va p = rw p

-- What a table entry makes of an address.
abbrev pub leaf : ℕ → ℕ → Option ℕ
leaf pte va = if is_present pte then some (page_of pte + va % 4096) else none

pub translate-leaf :
    (mem : ℕ → ℕ) (dir va : ℕ)
    → is_present (mem (dir + 4 * (va / 2 ^ 22))) ≡ true
    → translate mem dir va
      ≡ leaf (mem (page_of (mem (dir + 4 * (va / 2 ^ 22))) + 4 * (va / 2 ^ 12 % 1024))) va
unfolding translate
translate-leaf mem dir va p = rw p

-- Translation reads one entry of the directory and, if it is present, one of a table.
pub translate-local :
    (mem mem' : ℕ → ℕ) (dir va : ℕ)
    → mem' (dir + 4 * (va / 2 ^ 22)) ≡ mem (dir + 4 * (va / 2 ^ 22))
    → (is_present (mem (dir + 4 * (va / 2 ^ 22))) ≡ true
        → mem' (page_of (mem (dir + 4 * (va / 2 ^ 22))) + 4 * (va / 2 ^ 12 % 1024))
          ≡ mem (page_of (mem (dir + 4 * (va / 2 ^ 22))) + 4 * (va / 2 ^ 12 % 1024)))
    → translate mem' dir va ≡ translate mem dir va
translate-local mem mem' dir va e f =
    elim (Bool-cases (is_present (mem (dir + 4 * (va / 2 ^ 22))))) [
      | inl p ↦
          translate-leaf mem' dir va (ap is_present e ∙ p)
          ∙ ap (λ (x : ℕ). leaf (mem' (page_of x + 4 * (va / 2 ^ 12 % 1024))) va) e
          ∙ ap (λ (x : ℕ). leaf x va) (f p)
          ∙ sym (translate-leaf mem dir va p)
      | inr p ↦
          translate-absent mem' dir va (ap is_present e ∙ p) ∙ sym (translate-absent mem dir va p)
    ]
