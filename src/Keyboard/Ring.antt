-- ===== src/Keyboard/Ring.antt =====
-- The circular buffer as a queue of at most 255 characters.
use native.Mathlib.Decide.{ℕ_discrete, dec_lt}
use capstone_myos.Prelude.{
  ==_of_ne, ==_iff, lt→ltb, ℕ, zero, suc, ◌+◌, ◌-◌, ◌%◌, ◌<◌, ◌≡◌, refl, ap, ◌≢◌, arith, Option,
  none, some, List, [], ◌∷◌, ◌++◌, ltb, if◌then◌else◌, update, length,
}
use capstone_myos.Keyboard.{Keyboard, enqueue, read_char, flush}

-- The `n` characters from index `h` on, going round at 256.
abbrev pub ring : (ℕ → ℕ) → ℕ → ℕ → List ℕ
ring b h zero = []
ring b h (suc n) = b h ∷ ring b ((h + 1) % 256) n

abbrev pub held : Keyboard → ℕ
held k = (k.write_idx + 256 - k.read_idx) % 256

-- The characters that wait to be read, the oldest first.
abbrev pub contents : Keyboard → List ℕ
contents k = ring k.buffer k.read_idx (held k)

pub record IsValid (k : Keyboard) : Type 0 where
  pub read_in : k.read_idx < 256
  pub write_in : k.write_idx < 256

pub length-ring : (b : ℕ → ℕ) (h n : ℕ) → length (ring b h n) ≡ n
length-ring b h zero = refl
length-ring b h (suc n) = ap suc (length-ring b ((h + 1) % 256) n)

-- A character stored just past the ones that wait joins them at the end.
ring-update :
    (b : ℕ → ℕ) (c n h i : ℕ)
    → h < 256
    → n < 256
    → i ≡ (h + n) % 256
    → ring (update b i c) h (suc n) ≡ ring b h n ++ (c ∷ [])
ring-update b c zero h i hh hn e = ground arith
ring-update b c (suc n) h i hh hn e =
    ground (arith, ring-update b c n ((h + 1) % 256) i (omega arith) (omega arith) (omega arith))

-- A character is dropped exactly when 255 wait.
pub contents-enqueue :
    (c : ℕ) (k : Keyboard)
    → IsValid k
    → contents (enqueue c k) ≡ (if ltb (held k) 255 then contents k ++ (c ∷ []) else contents k)
unfolding enqueue
contents-enqueue c k v = elim (dec_lt (held k) 255) [
  | yes room ↦
      let next : (k.write_idx + 1) % 256 ≢ k.read_idx = λ e. omega arith in
      let more : ((k.write_idx + 1) % 256 + 256 - k.read_idx) % 256 ≡ suc (held k) = omega arith in
      rw (==_of_ne ((k.write_idx + 1) % 256) k.read_idx next, more, lt→ltb (held k) 255 room)
        (ring-update k.buffer c (held k) k.read_idx k.write_idx v.read_in (omega arith)
          (omega (arith, v.read_in, v.write_in)))
  | no full ↦
      let next : (k.write_idx + 1) % 256 ≡ k.read_idx = omega (arith, v.read_in, v.write_in) in
      ground (arith, next)
]

ring-nonempty : (b : ℕ → ℕ) (h n : ℕ) → n ≢ 0 → ring b h n ≡ b h ∷ ring b ((h + 1) % 256) (n - 1)
ring-nonempty b h zero p = absurd (p refl)
ring-nonempty b h (suc n) p = ap (λ j. ring b h (suc j)) (omega arith)

-- A read takes the oldest character, and waits exactly when there is none.
abbrev pub Reads : Keyboard → Option (ℕ × Keyboard) → Type 0
Reads k none = contents k ≡ []
Reads k (some (c, k')) =
    (contents k ≡ c ∷ contents k') × IsValid k' × (k'.shift_pressed ≡ k.shift_pressed)

pub read_char-Reads : (k : Keyboard) → IsValid k → Reads k (read_char k)
unfolding read_char
read_char-Reads k v = elim (ℕ_discrete k.read_idx k.write_idx) [
  | yes same ↦
      let e : held k ≡ 0 = omega (arith, v.read_in, v.write_in) in
      rw ((==_iff k.read_idx k.write_idx).1 same) (rw e)
  | no other ↦
      let r = k.read_idx in
      let less : (k.write_idx + 256 - (r + 1) % 256) % 256 ≡ held k - 1 =
        omega (arith, v.read_in, v.write_in) in
      let some_held : held k ≢ 0 = λ e. omega (arith, v.read_in, v.write_in) in
      rw (==_of_ne k.read_idx k.write_idx other) (
        rw less (ring-nonempty k.buffer r (held k) some_held),
        record { read_in = omega arith; write_in = v.write_in },
        refl,
      )
]

pub enqueue-IsValid : (c : ℕ) (k : Keyboard) → IsValid k → IsValid (enqueue c k)
unfolding enqueue
enqueue-IsValid c k v = ground arith

pub shift-enqueue : (c : ℕ) (k : Keyboard) → (enqueue c k).shift_pressed ≡ k.shift_pressed
unfolding enqueue
shift-enqueue c k = ground arith

pub contents-flush : (k : Keyboard) → IsValid k → contents (flush k) ≡ []
unfolding flush
contents-flush k v =
    let e : (k.write_idx + 256 - k.write_idx) % 256 ≡ 0 = omega (arith, v.write_in) in rw e
