-- ===== src/Fs/Names.antt =====
-- Names in the 8.3 format.
use capstone_myos.Prelude.{
  ℕ, zero, suc, ◌≤◌, ◌≡◌, ◌≢◌, refl, arith, some, List, [], ◌∷◌, ◌++◌, length, All, map, ◌∙◌, ap,
  ==_of_ne,
}
use capstone_myos.Strings.{toupper}
use capstone_myos.Fs.{
  take_name, take_extension, skip_dot, padded, fat_name, with_base, with_extension,
}

take_name-dot :
    (n : ℕ) (base ext : List ℕ)
    → All (λ c. c ≢ b'.') base
    → length base ≤ n
    → take_name n (base ++ b'.' ∷ ext) ≡ (map toupper base, b'.' ∷ ext)
unfolding take_name
take_name-dot zero [] ext no_dot short = refl
take_name-dot (suc n) [] ext no_dot short = refl
take_name-dot zero (c ∷ base) ext no_dot short = absurd (omega arith)
take_name-dot (suc n) (c ∷ base) ext (ne, no_dot) short =
    rw (take_name-dot n base ext no_dot (omega arith), ==_of_ne c b'.' ne) refl

take_extension_lem :
    (n : ℕ) (ext : List ℕ) → length ext ≤ n → take_extension n ext ≡ (map toupper ext, [])
unfolding take_extension
take_extension_lem zero [] short = refl
take_extension_lem zero (c ∷ ext) short = absurd (omega arith)
take_extension_lem (suc n) [] short = refl
take_extension_lem (suc n) (c ∷ ext) short = rw (take_extension_lem n ext (omega arith)) refl

skip_dot-dot : (ext : List ℕ) → skip_dot (b'.' ∷ ext) ≡ ext
unfolding skip_dot
skip_dot-dot ext = refl

-- The name of a file, `base` and `ext` around a dot, becomes the upper-case fields, padded with
-- blanks, if the base has at most eight characters and no dot and the extension at most three.
pub fat_name_lem :
    (base ext : List ℕ)
    → All (λ c. c ≢ b'.') base
    → length base ≤ 8
    → length ext ≤ 3
    → fat_name (base ++ b'.' ∷ ext) ≡ some (padded 8 (map toupper base), padded 3 (map toupper ext))
unfolding fat_name with_base with_extension
fat_name_lem base ext no_dot short short_ext =
    ap with_base (take_name-dot 8 base ext no_dot short)
    ∙ ap (λ (rest : List ℕ). with_extension (map toupper base) (take_extension 3 rest))
        (skip_dot-dot ext)
    ∙ ap (with_extension (map toupper base)) (take_extension_lem 3 ext short_ext)
