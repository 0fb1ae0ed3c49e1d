-- ===== src/Shell/Split.antt =====
-- The words that the command line is split into.
use capstone_myos.Prelude.{
  ◌∙◌, ℕ, zero, suc, ◌+◌, ◌≤◌, ◌<◌, ◌≡◌, ◌≢◌, refl, sym, ◌⊎◌, inl, inr, List, [], ◌∷◌, length,
  update, update_self, update_ne, arith,
}
use capstone_myos.Strings.{Mem}
use capstone_myos.Strings.Scan.{IsCStr}
use capstone_myos.Shell.{max_cmd_len, skip_blanks}
use capstone_myos.Shell.Words.{max_args, find_end, split_words}

-- The letters of a word stand from `p` on.
abbrev pub IsSpan : Mem → ℕ → List ℕ → Type 0
IsSpan m p [] = Unit
IsSpan m p (c ∷ s) = (m p ≡ c) × (c ≢ 0) × (c ≢ b' ') × IsSpan m (p + 1) s

abbrev pub IsBlank : Mem → ℕ → ℕ → Type 0
IsBlank m p zero = Unit
IsBlank m p (suc n) = (m p ≡ b' ') × IsBlank m (p + 1) n

-- At `p` stand words, each with the number of blanks behind it; only the last word can have none.
abbrev pub IsLine : Mem → ℕ → List (List ℕ × ℕ) → Type 0
IsLine m p [] = m p ≡ 0
IsLine m p ((w, zero) ∷ []) =
    (0 < length w) × (length w < max_cmd_len) × IsSpan m p w × (m (p + length w) ≡ 0)
IsLine m p ((w, zero) ∷ _ ∷ _) = ⊥
IsLine m p ((w, suc gap) ∷ rest) =
    (0 < length w)
    × (length w < max_cmd_len)
    × (gap < max_cmd_len)
    × IsSpan m p w
    × IsBlank m (p + length w) (suc gap)
    × IsLine m (p + length w + suc gap) rest

-- The pointers lead to the words.
abbrev pub IsSplit : Mem → List ℕ → List (List ℕ × ℕ) → Type 0
IsSplit m [] [] = Unit
IsSplit m [] (_ ∷ _) = ⊥
IsSplit m (p ∷ ps) [] = ⊥
IsSplit m (p ∷ ps) ((w, gap) ∷ rest) = IsCStr m p w × IsSplit m ps rest

find_end_lem :
    (n : ℕ) (m : Mem) (p : ℕ) (w : List ℕ)
    → length w < n
    → IsSpan m p w
    → (m (p + length w) ≡ 0) ⊎ (m (p + length w) ≡ b' ')
    → find_end n m p ≡ p + length w
unfolding find_end
find_end_lem zero m p w h s e = absurd (omega arith)
find_end_lem (suc n) m p [] h s e =
    let z : p + 0 ≡ p = omega arith in let e' = rw z at e in ground (arith, e')
find_end_lem (suc n) m p (c ∷ w) h (e, nz, nb, s) t =
    let ih = find_end_lem n m (p + 1) w (omega arith) s in
    let z : p + suc (length w) ≡ p + 1 + length w = omega arith in
    let t' = rw z at t in ground (arith, ih t')

skip_blanks_lem :
    (n : ℕ) (m : Mem) (p gap : ℕ)
    → gap < n
    → IsBlank m p gap
    → m (p + gap) ≢ b' '
    → skip_blanks n m p ≡ p + gap
unfolding skip_blanks
skip_blanks_lem zero m p gap h s e = absurd (omega arith)
skip_blanks_lem (suc n) m p zero h s e =
    let z : p + 0 ≡ p = omega arith in let e' = rw z at e in ground (arith, e')
skip_blanks_lem (suc n) m p (suc gap) h (b, s) e =
    let ih = skip_blanks_lem n m (p + 1) gap (omega arith) s in
    let z : p + suc gap ≡ p + 1 + gap = omega arith in let e' = rw z at e in ground (arith, ih e')

IsSpan-same :
    (m m' : Mem) (p : ℕ) (w : List ℕ)
    → ((q : ℕ) → p ≤ q → q < p + length w → m' q ≡ m q)
    → IsSpan m p w
    → IsSpan m' p w
IsSpan-same m m' p [] same s = tt
IsSpan-same m m' p (c ∷ w) same (e, nz, nb, s) = (
  same p (omega arith) (omega arith) ∙ e,
  nz,
  nb,
  IsSpan-same m m' (p + 1) w (λ q a b. same q (omega arith) (omega arith)) s,
)

IsSpan-IsCStr : (m : Mem) (p : ℕ) (w : List ℕ) → IsSpan m p w → m (p + length w) ≡ 0 → IsCStr m p w
IsSpan-IsCStr m p [] s z = let e : p + 0 ≡ p = omega arith in rw e at z
IsSpan-IsCStr m p (c ∷ w) (e, nz, nb, s) z =
    let same : p + suc (length w) ≡ p + 1 + length w = omega arith in
    (e, nz, IsSpan-IsCStr m (p + 1) w s (rw same at z))

IsBlank-same :
    (m m' : Mem) (p n : ℕ) → ((q : ℕ) → p ≤ q → m' q ≡ m q) → IsBlank m p n → IsBlank m' p n
IsBlank-same m m' p zero same b = tt
IsBlank-same m m' p (suc n) same (e, b) =
    (same p (omega arith) ∙ e, IsBlank-same m m' (p + 1) n (λ q a. same q (omega arith)) b)

IsLine-same :
    (m m' : Mem) (p : ℕ) (ws : List (List ℕ × ℕ))
    → ((q : ℕ) → p ≤ q → m' q ≡ m q)
    → IsLine m p ws
    → IsLine m' p ws
IsLine-same m m' p [] same l = same p (omega arith) ∙ l
IsLine-same m m' p ((w, zero) ∷ []) same (a, b, s, z) =
    (a, b, IsSpan-same m m' p w (λ q i j. same q i) s, same (p + length w) (omega arith) ∙ z)
IsLine-same m m' p ((w, zero) ∷ _ ∷ _) same l = l
IsLine-same m m' p ((w, suc gap) ∷ rest) same (a, b, c, s, bl, l) = (
  a,
  b,
  c,
  IsSpan-same m m' p w (λ q i j. same q i) s,
  IsBlank-same m m' (p + length w) (suc gap) (λ q i. same q (omega arith)) bl,
  IsLine-same m m' (p + length w + suc gap) rest (λ q i. same q (omega arith)) l,
)

IsSpan-first :
    (m : Mem) (p : ℕ) (w : List ℕ) → 0 < length w → IsSpan m p w → (m p ≢ 0) × (m p ≢ b' ')
IsSpan-first m p [] h s = absurd (omega arith)
IsSpan-first m p (c ∷ w) h (e, nz, nb, s) = ((λ z. nz (sym e ∙ z)), λ z. nb (sym e ∙ z))

IsLine-first : (m : Mem) (p : ℕ) (ws : List (List ℕ × ℕ)) → IsLine m p ws → m p ≢ b' '
IsLine-first m p [] l = λ e. ground (arith, l, e)
IsLine-first m p ((w, zero) ∷ []) (a, b, s, z) = (IsSpan-first m p w a s).1
IsLine-first m p ((w, zero) ∷ _ ∷ _) l = absurd l
IsLine-first m p ((w, suc gap) ∷ rest) (a, b, c, s, bl, l) = (IsSpan-first m p w a s).1

-- One round at a word that is not the last.
split_words-more :
    (left : ℕ) (m : Mem) (p e next : ℕ)
    → m p ≢ 0
    → find_end max_cmd_len m p ≡ e
    → m e ≡ b' '
    → skip_blanks max_cmd_len (update m e 0) (e + 1) ≡ next
    → split_words (suc left) m p
      ≡ (let (after, argv) = split_words left (update m e 0) next in (after, p ∷ argv))
unfolding split_words
split_words-more left m p e next nz fe me sk = rw (fe, sk) (ground arith)

split_words-last :
    (left : ℕ) (m : Mem) (p e : ℕ)
    → m p ≢ 0
    → find_end max_cmd_len m p ≡ e
    → m e ≡ 0
    → split_words (suc left) m p ≡ (m, p ∷ [])
unfolding split_words
split_words-last left m p e nz fe me = rw fe (ground arith)

split_words-none : (left : ℕ) (m : Mem) (p : ℕ) → m p ≡ 0 → split_words left m p ≡ (m, [])
unfolding split_words
split_words-none zero m p z = refl
split_words-none (suc left) m p z = ground arith

-- What the loop leaves from `p` on, with `left` arguments to come.
abbrev IsParsed : Mem → ℕ → List (List ℕ × ℕ) → Mem × List ℕ → Type 0
IsParsed m p ws (after, argv) = IsSplit after argv ws × ((q : ℕ) → q < p → after q ≡ m q)

one_more :
    (m : Mem) (p gap : ℕ) (w : List ℕ) (rest : List (List ℕ × ℕ)) (r : Mem × List ℕ)
    → IsSpan m p w
    → IsParsed (update m (p + length w) 0) (p + length w + suc gap) rest r
    → IsParsed m p ((w, suc gap) ∷ rest) (let (after, argv) = r in (after, p ∷ argv))
one_more m p gap w rest (after, argv) s (split, same) =
    let e = p + length w in
    let kept : (q : ℕ) → q < e → after q ≡ m q =
      λ q k. same q (omega arith) ∙ update_ne m e q 0 (λ i. omega arith) in
    let ended : after e ≡ 0 = same e (omega arith) ∙ update_self m e 0 in
    (
      (IsSpan-IsCStr after p w (IsSpan-same m after p w (λ q i j. kept q j) s) ended, split),
      λ q k. kept q (omega arith),
    )

split_words-IsParsed :
    (left : ℕ) (m : Mem) (p : ℕ) (ws : List (List ℕ × ℕ))
    → length ws ≤ left
    → IsLine m p ws
    → IsParsed m p ws (split_words left m p)
split_words-IsParsed left m p [] h l = rw (split_words-none left m p l) (tt, λ q k. refl)
split_words-IsParsed zero m p (_ ∷ _) h l = absurd (omega arith)
split_words-IsParsed (suc left) m p ((w, zero) ∷ []) h (a, b, s, z) =
    let fe = find_end_lem max_cmd_len m p w b s (inl z) in
    rw (split_words-last left m p (p + length w) (IsSpan-first m p w a s).0 fe z)
      ((IsSpan-IsCStr m p w s z, tt), λ q k. refl)
split_words-IsParsed (suc left) m p ((w, zero) ∷ _ ∷ _) h l = absurd l
split_words-IsParsed (suc left) m p ((w, suc gap) ∷ rest) h (a, b, c, s, bl, l) =
    let e = p + length w in
    let fe = find_end_lem max_cmd_len m p w b s (inr bl.0) in
    let m' = update m e 0 in
    let behind : (q : ℕ) → e + 1 ≤ q → m' q ≡ m q = λ q k. update_ne m e q 0 (λ i. omega arith) in
    let re : e + suc gap ≡ e + 1 + gap = omega arith in
    let l' = IsLine-same m m' (e + suc gap) rest (λ q k. behind q (omega arith)) l in
    let bl' = IsBlank-same m m' (e + 1) gap behind bl.1 in
    let sk =
      skip_blanks_lem max_cmd_len m' (e + 1) gap c bl'
        (rw re at (IsLine-first m' (e + suc gap) rest l')) in
    let ih = split_words-IsParsed left m' (e + suc gap) rest (omega arith) l' in
    rw (split_words-more left m p e (e + suc gap) (IsSpan-first m p w a s).0 fe bl.0 (sk ∙ sym re))
      (one_more m p gap w rest (split_words left m' (e + suc gap)) s ih)

-- A line of at most 16 words, each shorter than the line's buffer and so are the blanks between
-- them, is split into pointers to its words, in their order, each ended by a NUL.
pub split_words_lem :
    (m : Mem) (p : ℕ) (ws : List (List ℕ × ℕ))
    → length ws ≤ max_args
    → IsLine m p ws
    → let (line, argv) = split_words max_args m p in IsSplit line argv ws
split_words_lem m p ws h l = (split_words-IsParsed max_args m p ws h l).0
