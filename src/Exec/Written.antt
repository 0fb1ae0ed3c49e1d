-- ===== src/Exec/Written.antt =====
-- What a sequence of byte writes leaves in memory.
use capstone_myos.Prelude.{
  ◌∙◌, ℕ, ◌+◌, ◌/◌, ◌%◌, ◌^◌, ◌<◌, ◌≤◌, ◌⊎◌, inl, inr, ◌≡◌, ◌≢◌, refl, ap, List, [], ◌∷◌, ◌++◌,
  length, length-append, All, update, update_self, update_ne, arith,
}
use capstone_myos.Strings.{Mem}
use capstone_myos.Strings.Scan.{IsCStr}
use capstone_myos.Exec.{bytes_at, word}
use capstone_myos.Exec.Args.{write, word_at}

pub write-append : (ws vs : List (ℕ × ℕ)) (m : Mem) → write (ws ++ vs) m ≡ write vs (write ws m)
unfolding write
write-append [] vs m = refl
write-append ((va, b) ∷ ws) vs m = write-append ws vs (update m va b)

pub write-outside :
    (bs : List ℕ) (p : ℕ) (m : Mem) (q : ℕ)
    → p + length bs < 2 ^ 32
    → (q < p) ⊎ (p + length bs ≤ q)
    → write (bytes_at p bs) m q ≡ m q
unfolding write
write-outside [] p m q h out = refl
write-outside (b ∷ bs) p m q h out =
    let e : (p + 1) % 2 ^ 32 ≡ p + 1 = omega arith in
    let ne : q ≢ p = λ k. omega arith in
    let rec = write-outside bs (p + 1) (update m p b) q (omega arith) (omega arith) in
    rw e (rec ∙ update_ne m p q b ne)

write-bytes_at :
    (b : ℕ) (bs : List ℕ) (p : ℕ) (m : Mem)
    → p + 1 < 2 ^ 32
    → write (bytes_at p (b ∷ bs)) m ≡ write (bytes_at (p + 1) bs) (update m p b)
unfolding write
write-bytes_at b bs p m h = let e : (p + 1) % 2 ^ 32 ≡ p + 1 = omega arith in rw e refl

-- Memories that agree from `lo` on hold the same strings there.
abbrev pub Agrees : Mem → Mem → ℕ → Type 0
Agrees m m' lo = (q : ℕ) → lo ≤ q → m' q ≡ m q

pub IsCStr-Agrees : (s : List ℕ) (m m' : Mem) (p : ℕ) → Agrees m m' p → IsCStr m p s → IsCStr m' p s
IsCStr-Agrees [] m m' p ag h = ag p (omega arith) ∙ h
IsCStr-Agrees (c ∷ s) m m' p ag h =
    (ag p (omega arith) ∙ h.0, h.1, IsCStr-Agrees s m m' (p + 1) (λ q k. ag q (omega arith)) h.2)

-- A string that is written with its NUL stands there.
pub write-IsCStr :
    (s : List ℕ) (p : ℕ) (m : Mem)
    → p + length s + 1 < 2 ^ 32
    → All (λ c. c ≢ 0) s
    → IsCStr (write (bytes_at p (s ++ (0 ∷ []))) m) p s
unfolding write
write-IsCStr [] p m h nz = update_self m p 0
write-IsCStr (c ∷ s) p m h nz =
    let count : length (s ++ (0 ∷ [])) ≡ length s + 1 = length-append s (0 ∷ []) in
    let first =
      write-outside (s ++ (0 ∷ [])) (p + 1) (update m p c) p (omega arith) (inl (omega arith)) in
    let rest = write-IsCStr s (p + 1) (update m p c) (omega arith) nz.1 in
    let e = write-bytes_at c (s ++ (0 ∷ [])) p m (omega arith) in
    (
      rw e (first ∙ update_self m p c),
      nz.0,
      IsCStr-Agrees s _ _ (p + 1) (λ q k. ap (λ f. f q) e) rest,
    )

pub write-word :
    (p w : ℕ) (m : Mem) → p + 4 < 2 ^ 32 → w < 2 ^ 32 → word (write (word_at p w) m) p ≡ w
unfolding write
write-word p w m h hw =
    let e1 : (p + 1) % 2 ^ 32 ≡ p + 1 = omega arith in
    let e2 : (p + 1 + 1) % 2 ^ 32 ≡ p + 2 = omega arith in
    let e3 : (p + 2 + 1) % 2 ^ 32 ≡ p + 3 = omega arith in rw e1 (rw e2 (rw e3 (ground arith)))

-- A word of which no byte changes.
pub word_window :
    (m m' : Mem) (p : ℕ) → ((q : ℕ) → p ≤ q → q < p + 4 → m' q ≡ m q) → word m' p ≡ word m p
word_window m m' p same = rw (same p (omega arith) (omega arith)) (
    rw (same (p + 1) (omega arith) (omega arith)) (
      rw (same (p + 2) (omega arith) (omega arith))
        (rw (same (p + 2 + 1) (omega arith) (omega arith)) refl)))

pub write_word-Agrees :
    (p w : ℕ) (m : Mem) → p + 4 < 2 ^ 32 → Agrees m (write (word_at p w) m) (p + 4)
write_word-Agrees p w m h q k =
    write-outside (w % 2 ^ 8 ∷ w / 2 ^ 8 % 2 ^ 8 ∷ w / 2 ^ 16 % 2 ^ 8 ∷ w / 2 ^ 24 % 2 ^ 8 ∷ []) p m
      q h (inr k)
