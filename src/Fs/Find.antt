-- ===== src/Fs/Find.antt =====
-- The search of the root directory.
use capstone_myos.Prelude.{
  ℕ, zero, suc, ◌+◌, ◌*◌, ◌<◌, ◌≤◌, ◌≡◌, ◌≢◌, refl, arith, true, false, Option, none, some, List,
  ◌==◌, ◌∙◌, Bool-cases, inl, inr, ◌⊎◌,
}
use capstone_myos.Strings.{Mem}
use capstone_myos.Fs.{matches, search}

-- The entries before number `k` are in use and do not match.
abbrev Skips : List ℕ → List ℕ → Mem → ℕ → ℕ → Type 0
Skips base ext m offset k =
    (j : ℕ) → j < k → (m (offset + j * 32) ≢ 0) × (matches base ext m (offset + j * 32) ≡ false)

-- The outcome of a search of `n` entries: the first match before the end mark; or no match before
-- the end mark or the end of the table.
abbrev pub IsFirst : ℕ → List ℕ → List ℕ → Mem → ℕ → Option ℕ → Type 0
IsFirst n base ext m offset none =
    (k : ℕ) × (k ≤ n) × Skips base ext m offset k × ((k ≡ n) ⊎ (m (offset + k * 32) ≡ 0))
IsFirst n base ext m offset (some found) =
    (k : ℕ) × (k < n)
    × Skips base ext m offset k
    × (found ≡ offset + k * 32)
    × (m found ≢ 0)
    × (matches base ext m found ≡ true)

shift_offset : (offset j : ℕ) → offset + 32 + j * 32 ≡ offset + suc j * 32
shift_offset offset j = omega arith

Skips-suc :
    (base ext : List ℕ) (m : Mem) (offset k : ℕ)
    → m offset ≢ 0
    → matches base ext m offset ≡ false
    → Skips base ext m (offset + 32) k
    → Skips base ext m offset (suc k)
Skips-suc base ext m offset k used no_match rest zero lt =
    let here : offset + 0 * 32 ≡ offset = omega arith in rw here (used, no_match)
Skips-suc base ext m offset k used no_match rest (suc j) lt =
    rw (shift_offset offset j) at (rest j (omega arith))

IsFirst-suc :
    (n : ℕ) (base ext : List ℕ) (m : Mem) (offset : ℕ) (r : Option ℕ)
    → m offset ≢ 0
    → matches base ext m offset ≡ false
    → IsFirst n base ext m (offset + 32) r
    → IsFirst (suc n) base ext m offset r
IsFirst-suc n base ext m offset none used no_match (k, le, skips, inl e) =
    (suc k, omega arith, Skips-suc base ext m offset k used no_match skips, inl (omega arith))
IsFirst-suc n base ext m offset none used no_match (k, le, skips, inr e) = (
  suc k,
  omega arith,
  Skips-suc base ext m offset k used no_match skips,
  inr (rw (shift_offset offset k) at e),
)
IsFirst-suc n base ext m offset (some found) used no_match (k, lt, skips, e, live, match) = (
  suc k,
  omega arith,
  Skips-suc base ext m offset k used no_match skips,
  e ∙ shift_offset offset k,
  live,
  match,
)

search-end :
    (n : ℕ) (base ext : List ℕ) (m : Mem) (offset : ℕ)
    → m offset ≡ 0
    → search (suc n) base ext m offset ≡ none
unfolding search
search-end n base ext m offset h = ground arith

search-match :
    (n : ℕ) (base ext : List ℕ) (m : Mem) (offset : ℕ)
    → m offset ≢ 0
    → matches base ext m offset ≡ true
    → search (suc n) base ext m offset ≡ some offset
unfolding search
search-match n base ext m offset used h = ground arith

search-next :
    (n : ℕ) (base ext : List ℕ) (m : Mem) (offset : ℕ)
    → m offset ≢ 0
    → matches base ext m offset ≡ false
    → search (suc n) base ext m offset ≡ search n base ext m (offset + 32)
unfolding search
search-next n base ext m offset used h = ground arith

-- The search of fs_find_file returns the first entry that matches, all before it being in use and
-- not matching; or nothing, if none matches before the end mark or the end of the table.
pub search-IsFirst :
    (n : ℕ) (base ext : List ℕ) (m : Mem) (offset : ℕ)
    → IsFirst n base ext m offset (search n base ext m offset)
unfolding search
search-IsFirst zero base ext m offset = (0, omega arith, (λ j lt. absurd (omega arith)), inl refl)
search-IsFirst (suc n) base ext m offset =
    let ih = search-IsFirst n base ext m (offset + 32) in
    elim (Bool-cases (m offset == 0)) [
      | inl end ↦
          let e : m offset ≡ 0 = ground arith in
          let here : offset + 0 * 32 ≡ offset = omega arith in
          rw (search-end n base ext m offset e)
            (0, omega arith, (λ j lt. absurd (omega arith)), inr (rw here e))
      | inr live ↦
          let used : m offset ≢ 0 = λ z. ground arith in
          elim (Bool-cases (matches base ext m offset)) [
            | inl match ↦
                let here : offset ≡ offset + 0 * 32 = omega arith in
                rw (search-match n base ext m offset used match)
                  (0, omega arith, (λ j lt. absurd (omega arith)), here, used, match)
            | inr no_match ↦ rw (search-next n base ext m offset used no_match) (
                IsFirst-suc n base ext m offset (search n base ext m (offset + 32)) used no_match
                  ih)
          ]
    ]
