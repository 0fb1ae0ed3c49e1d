-- ===== src/Exec/Layout.antt =====
-- The arguments that a new program finds on its stack.
use capstone_myos.Prelude.{
  ◌∙◌, ℕ, ◌+◌, ◌-◌, ◌*◌, ◌/◌, ◌%◌, ◌^◌, ◌<◌, ◌≤◌, inl, inr, ◌≡◌, ◌≢◌, refl, sym, ap, List, [], ◌∷◌,
  ◌++◌, length, length-append, All, arith, bit_and, bit_and-high,
}
use mathlib.Core.Path.{subst}
use capstone_myos.Strings.{Mem}
use capstone_myos.Strings.Scan.{IsCStr}
use capstone_myos.Exec.{bytes_at, word}
use capstone_myos.Exec.Args.{sub_u32, push_strings, push_pointers, push_args, write, word_at}
use capstone_myos.Exec.Written.{
  write-append, write-outside, write-IsCStr, write-word, Agrees, IsCStr-Agrees, word_window,
  write_word-Agrees,
}

-- The bytes that the strings take, with their NULs.
abbrev pub size : List (List ℕ) → ℕ
size [] = 0
size (arg ∷ rest) = length arg + 1 + size rest

-- The pointers lead to the strings, all from `lo` on.
abbrev pub IsStrings : Mem → ℕ → List ℕ → List (List ℕ) → Type 0
IsStrings m lo [] [] = Unit
IsStrings m lo [] (arg ∷ args) = ⊥
IsStrings m lo (p ∷ ps) [] = ⊥
IsStrings m lo (p ∷ ps) (arg ∷ args) =
    (lo ≤ p) × (p < 2 ^ 32) × IsCStr m p arg × IsStrings m lo ps args

-- What main finds at `argv`: pointers to the arguments, all from `lo` on, and NULL.
abbrev pub IsArgv : Mem → ℕ → ℕ → List (List ℕ) → Type 0
IsArgv m lo argv [] = word m argv ≡ 0
IsArgv m lo argv (arg ∷ args) =
    (lo ≤ word m argv) × IsCStr m (word m argv) arg × IsArgv m lo (argv + 4) args

IsArgv-Agrees :
    (m m' : Mem) (lo argv : ℕ) (args : List (List ℕ))
    → lo ≤ argv
    → Agrees m m' lo
    → IsArgv m lo argv args
    → IsArgv m' lo argv args
IsArgv-Agrees m m' lo argv [] k ag h = word_window m m' argv (λ q j i. ag q (omega arith)) ∙ h
IsArgv-Agrees m m' lo argv (arg ∷ args) k ag (le, str, rest) =
    let e = word_window m m' argv (λ q j i. ag q (omega arith)) in
    let str' = IsCStr-Agrees arg m m' (word m argv) (λ q j. ag q (omega arith)) str in
    subst (λ x. (lo ≤ x) × IsCStr m' x arg × IsArgv m' lo (argv + 4) args) (sym e)
      (le, str', IsArgv-Agrees m m' lo (argv + 4) args (omega arith) ag rest)

IsStrings-Agrees :
    (m m' : Mem) (lo : ℕ) (ps : List ℕ) (args : List (List ℕ))
    → Agrees m m' lo
    → IsStrings m lo ps args
    → IsStrings m' lo ps args
IsStrings-Agrees m m' lo [] [] ag h = tt
IsStrings-Agrees m m' lo [] (arg ∷ args) ag h = h
IsStrings-Agrees m m' lo (p ∷ ps) [] ag h = h
IsStrings-Agrees m m' lo (p ∷ ps) (arg ∷ args) ag (le, lt, str, rest) = (
  le,
  lt,
  IsCStr-Agrees arg m m' p (λ q k. ag q (omega arith)) str,
  IsStrings-Agrees m m' lo ps args ag rest,
)

IsStrings-lower :
    (m : Mem) (lo lo' : ℕ) (ps : List ℕ) (args : List (List ℕ))
    → lo' ≤ lo
    → IsStrings m lo ps args
    → IsStrings m lo' ps args
IsStrings-lower m lo lo' [] [] k h = h
IsStrings-lower m lo lo' [] (arg ∷ args) k h = h
IsStrings-lower m lo lo' (p ∷ ps) [] k h = h
IsStrings-lower m lo lo' (p ∷ ps) (arg ∷ args) k (le, lt, str, rest) =
    (omega arith, lt, str, IsStrings-lower m lo lo' ps args k rest)

push_strings-ptr :
    (args : List (List ℕ)) (top : ℕ)
    → size args ≤ top
    → top < 2 ^ 32
    → (push_strings args top).user_stack_ptr ≡ top - size args
unfolding push_strings
push_strings-ptr [] top h lt = omega arith
push_strings-ptr (arg ∷ rest) top h lt =
    let ih = push_strings-ptr rest top (omega arith) lt in rw ih (omega arith)

push_strings-IsStrings :
    (args : List (List ℕ)) (top : ℕ) (m : Mem)
    → size args ≤ top
    → top < 2 ^ 32 - 1
    → All (All (λ c. c ≢ 0)) args
    → let s = push_strings args top in
      IsStrings (write s.writes m) (top - size args) s.user_argv args
unfolding push_strings
push_strings-IsStrings [] top m h lt nz = tt
push_strings-IsStrings (arg ∷ rest) top m h lt nz =
    let s = push_strings rest top in
    let ih = push_strings-IsStrings rest top m (omega arith) lt nz.1 in
    let e = push_strings-ptr (arg ∷ rest) top h (omega arith) in
    let m' = write s.writes m in
    let p = top - size (arg ∷ rest) in
    let str = write-IsCStr arg p m' (omega arith) nz.0 in
    let count : length (arg ++ (0 ∷ [])) ≡ length arg + 1 = length-append arg (0 ∷ []) in
    let ag : Agrees m' (write (bytes_at p (arg ++ (0 ∷ []))) m') (top - size rest) =
      λ q k. write-outside (arg ++ (0 ∷ [])) p m' q (omega arith) (inr (omega arith)) in
    let others =
      IsStrings-Agrees m' (write (bytes_at p (arg ++ (0 ∷ []))) m') (top - size rest) s.user_argv
        rest ag ih in
    let bytes = λ (x : ℕ). bytes_at x (arg ++ (0 ∷ [])) in
    let holds : Mem → ℕ → Type 0 =
      λ w x. (p ≤ x) × (x < 2 ^ 32) × IsCStr w x arg × IsStrings w p s.user_argv rest in
    subst (λ x. holds (write (s.writes ++ bytes x) m) x) (sym e)
      (subst (λ w. holds w p) (sym (write-append s.writes (bytes p) m))
        (
          omega arith,
          omega arith,
          str,
          IsStrings-lower (write (bytes p) m') (top - size rest) p s.user_argv rest (omega arith)
              others,
        ))

push_pointers-Agrees :
    (ps : List ℕ) (va : ℕ) (m : Mem)
    → va + 4 * length ps + 4 < 2 ^ 32
    → Agrees m (write (push_pointers ps va) m) (va + 4 * length ps + 4)
unfolding push_pointers
push_pointers-Agrees [] va m h q k = write_word-Agrees va 0 m (omega arith) q (omega arith)
push_pointers-Agrees (p ∷ ps) va m h q k =
    let e : (va + 4) % 2 ^ 32 ≡ va + 4 = omega arith in
    let m' = write (word_at va p) m in
    let first = write_word-Agrees va p m (omega arith) q (omega arith) in
    let rest = push_pointers-Agrees ps (va + 4) m' (omega arith) q (omega arith) in
    let wa = write-append (word_at va p) (push_pointers ps (va + 4)) m in
    rw e (ap (λ f. f q) wa ∙ rest ∙ first)

push_pointers_below :
    (ps : List ℕ) (va : ℕ) (m : Mem) (q : ℕ)
    → va + 4 * length ps + 4 < 2 ^ 32
    → q < va
    → write (push_pointers ps va) m q ≡ m q
unfolding push_pointers
push_pointers_below [] va m q h k = write-outside (0 ∷ 0 ∷ 0 ∷ 0 ∷ []) va m q (omega arith) (inl k)
push_pointers_below (p ∷ ps) va m q h k =
    let e : (va + 4) % 2 ^ 32 ≡ va + 4 = omega arith in
    let bs = p % 2 ^ 8 ∷ p / 2 ^ 8 % 2 ^ 8 ∷ p / 2 ^ 16 % 2 ^ 8 ∷ p / 2 ^ 24 % 2 ^ 8 ∷ [] in
    let m' = write (word_at va p) m in
    let first = write-outside bs va m q (omega arith) (inl k) in
    let rest = push_pointers_below ps (va + 4) m' q (omega arith) (omega arith) in
    let wa = write-append (word_at va p) (push_pointers ps (va + 4)) m in
    rw e (ap (λ f. f q) wa ∙ rest ∙ first)

IsStrings-length :
    (m : Mem) (lo : ℕ) (ps : List ℕ) (args : List (List ℕ))
    → IsStrings m lo ps args
    → length ps ≡ length args
IsStrings-length m lo [] [] h = refl
IsStrings-length m lo [] (arg ∷ args) h = absurd h
IsStrings-length m lo (p ∷ ps) [] h = absurd h
IsStrings-length m lo (p ∷ ps) (arg ∷ args) (le, lt, str, rest) =
    omega (arith, IsStrings-length m lo ps args rest)

-- The array of pointers is written below the strings that they lead to.
push_pointers-IsArgv :
    (args : List (List ℕ)) (ps : List ℕ) (lo va : ℕ) (m : Mem)
    → lo ≤ va
    → va + 4 * length args + 4 < 2 ^ 32
    → IsStrings m (va + 4 * length args + 4) ps args
    → IsArgv (write (push_pointers ps va) m) lo va args
unfolding push_pointers
push_pointers-IsArgv [] [] lo va m b h strs = write-word va 0 m (omega arith) (omega arith)
push_pointers-IsArgv [] (p ∷ ps) lo va m b h strs = absurd strs
push_pointers-IsArgv (arg ∷ args) [] lo va m b h strs = absurd strs
push_pointers-IsArgv (arg ∷ args) (p ∷ ps) lo va m b h (le, lt, str, rest) =
    let e : (va + 4) % 2 ^ 32 ≡ va + 4 = omega arith in
    let m' = write (word_at va p) m in
    let m'' = write (push_pointers ps (va + 4)) m' in
    let wa : write (push_pointers (p ∷ ps) va) m ≡ m'' =
      rw e (write-append (word_at va p) (push_pointers ps (va + 4)) m) in
    let count = IsStrings-length m (va + 4 * length (arg ∷ args) + 4) ps args rest in
    let below : (q : ℕ) → va ≤ q → q < va + 4 → m'' q ≡ m' q =
      λ q k l. push_pointers_below ps (va + 4) m' q (omega arith) l in
    let pointer : word m'' va ≡ p =
      word_window m' m'' va below ∙ write-word va p m (omega arith) lt in
    let ag : Agrees m m'' (va + 4 * length (arg ∷ args) + 4) = λ q k.
      push_pointers-Agrees ps (va + 4) m' (omega arith) q (omega arith)
      ∙ write_word-Agrees va p m (omega arith) q (omega arith) in
    let str' = IsCStr-Agrees arg m m'' p (λ q k. ag q (omega arith)) str in
    let ag' : Agrees m m' (va + 4 * length (arg ∷ args) + 4) =
      λ q k. write_word-Agrees va p m (omega arith) q (omega arith) in
    let rest' = IsStrings-Agrees m m' (va + 4 * length (arg ∷ args) + 4) ps args ag' rest in
    let re : va + 4 * length (arg ∷ args) + 4 ≡ va + 4 + 4 * length args + 4 = omega arith in
    let ih =
      push_pointers-IsArgv args ps lo (va + 4) m' (omega arith) (omega arith)
        (subst (λ x. IsStrings m' x ps args) re rest') in
    subst (λ w. (lo ≤ word w va) × IsCStr w (word w va) arg × IsArgv w lo (va + 4) args) (sym wa)
      (rw pointer (omega arith), subst (λ x. IsCStr m'' x arg) (sym pointer) str', ih)

-- A pointer is cut to a multiple of 4.
align_four : (x : ℕ) → x < 2 ^ 32 → bit_and x 0xFFFFFFFC ≡ x / 4 * 4
align_four x h = bit_and-high 2 30 x ∙ (omega arith)

-- The three blocks below the strings, with the stack pointer at their start.
entry_words :
    (args : List (List ℕ)) (ps : List ℕ) (esp : ℕ) (m : Mem)
    → esp + 4 * length args + 12 < 2 ^ 32
    → IsStrings m (esp + 8 + 4 * length args + 4) ps args
    → let m' = write (push_pointers ps (esp + 8)) m in
      let m'' = write (word_at (esp + 4) (esp + 8)) m' in
      let m''' = write (word_at esp (length args)) m'' in
      (word m''' esp ≡ length args)
      × (word m''' (esp + 4) ≡ esp + 8)
      × IsArgv m''' (esp + 8) (esp + 8) args
entry_words args ps esp m h strs =
    let m' = write (push_pointers ps (esp + 8)) m in
    let m'' = write (word_at (esp + 4) (esp + 8)) m' in
    let m''' = write (word_at esp (length args)) m'' in
    let argv =
      push_pointers-IsArgv args ps (esp + 8) (esp + 8) m (omega arith) (omega arith) strs in
    let ag : Agrees m'' m''' (esp + 4) = write_word-Agrees esp (length args) m'' (omega arith) in
    let ag' : Agrees m' m''' (esp + 8) = λ q k.
      ag q (omega arith) ∙ write_word-Agrees (esp + 4) (esp + 8) m' (omega arith) q (omega arith) in
    (
      write-word esp (length args) m'' (omega arith) (omega arith),
      word_window m'' m''' (esp + 4) (λ q j k. ag q j)
          ∙ write-word (esp + 4) (esp + 8) m' (omega arith) (omega arith),
      IsArgv-Agrees m' m''' (esp + 8) (esp + 8) args (omega arith) ag' argv,
    )

-- The stack pointer, and the writes in four blocks.
push_args_blocks :
    (args : List (List ℕ)) (top esp : ℕ) (m : Mem)
    → size args + 4 * length args + 15 ≤ top
    → top < 2 ^ 32 - 1
    → esp ≡ (top - size args) / 4 * 4 - 4 * length args - 12
    → let s = push_strings args top in
      let m' = write (push_pointers s.user_argv (esp + 8)) (write s.writes m) in
      ((push_args args top).user_stack_ptr ≡ esp)
      × (write (push_args args top).writes m
          ≡ write (word_at esp (length args)) (write (word_at (esp + 4) (esp + 8)) m'))
unfolding push_args
push_args_blocks args top esp m fit lt k =
    let s = push_strings args top in
    let e = push_strings-ptr args top (omega arith) (omega arith) in
    let al = align_four (top - size args) (omega arith) in
    let argv : sub_u32 (bit_and s.user_stack_ptr 0xFFFFFFFC) (4 * (length args + 1)) ≡ esp + 8 =
      rw e (rw al (omega arith)) in
    let argc : sub_u32 (esp + 8) 8 ≡ esp = omega arith in
    let argp : sub_u32 (esp + 8) 4 ≡ esp + 4 = omega arith in
    let ps = push_pointers s.user_argv (esp + 8) in
    let one = word_at (esp + 4) (esp + 8) in
    let two = word_at esp (length args) in
    let split =
      write-append (s.writes ++ ps ++ one) two m
      ∙ ap (write two)
          (write-append (s.writes ++ ps) one m ∙ ap (write one) (write-append s.writes ps m)) in
    (rw argv argc, rw argv (rw argc (rw argp split)))

-- A program whose arguments fit below the top of its stack starts with the stack that its entry
-- expects: at the stack pointer, a multiple of 4, the number of the arguments, then the address of
-- an array of pointers to the arguments' strings, in their order, with a NULL behind.
pub push_args_lem :
    (args : List (List ℕ)) (top : ℕ) (m : Mem)
    → All (All (λ c. c ≢ 0)) args
    → size args + 4 * length args + 15 ≤ top
    → top < 2 ^ 32 - 1
    → let s = push_args args top in
      let m' = write s.writes m in
      let esp = s.user_stack_ptr in
      (esp % 4 ≡ 0)
      × (esp + size args + 4 * length args + 12 ≤ top)
      × (word m' esp ≡ length args)
      × (word m' (esp + 4) ≡ esp + 8)
      × IsArgv m' (esp + 8) (esp + 8) args
unfolding push_args
push_args_lem args top m nz fit lt =
    let s = push_strings args top in
    let esp = (top - size args) / 4 * 4 - 4 * length args - 12 in
    let blocks = push_args_blocks args top esp m fit lt refl in
    let strs = push_strings-IsStrings args top m (omega arith) lt nz in
    let strs' =
      IsStrings-lower (write s.writes m) (top - size args) (esp + 8 + 4 * length args + 4)
        s.user_argv args (omega arith) strs in
    let words = entry_words args s.user_argv esp (write s.writes m) (omega arith) strs' in
    let there =
      subst
        (λ w.
          (word w esp ≡ length args)
          × (word w (esp + 4) ≡ esp + 8)
          × IsArgv w (esp + 8) (esp + 8) args)
        (sym blocks.1) words in
    subst
      (λ x.
        let m' = write (push_args args top).writes m in
        (x % 4 ≡ 0)
        × (x + size args + 4 * length args + 12 ≤ top)
        × (word m' x ≡ length args)
        × (word m' (x + 4) ≡ x + 8)
        × IsArgv m' (x + 8) (x + 8) args)
      (sym blocks.0) (omega arith, omega arith, there.0, there.1, there.2)
