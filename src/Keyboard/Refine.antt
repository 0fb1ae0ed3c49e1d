-- ===== src/Keyboard/Refine.antt =====
-- The driver, seen by its readers, is a bounded queue of typed characters.
use capstone_myos.Prelude.{
  ℕ, ◌-◌, ◌<◌, ◌≡◌, refl, arith, bit_and, bit_and-low, bit_and-pow, Bool-cases, inl, inr, Bool, not,
  true, false, Option, none, some, List, [], ◌∷◌, ◌++◌, ltb, leb, ◌==◌, ◌||◌, if◌then◌else◌, length,
  All,
}
use capstone_myos.Keyboard.{
  Keyboard, character, is_shift, enqueue, handler, read_char, flush, Event, key, read, flushed,
  after_read, run,
}
use capstone_myos.Keyboard.Ring.{
  contents, held, length-ring, IsValid, contents-enqueue, Reads, read_char-Reads, enqueue-IsValid,
  shift-enqueue, contents-flush,
}

-- What a user types: codes from 128 on are releases, shift keys only change the shift state, and a
-- key without a character types nothing.
abbrev pub typed : Bool → ℕ → Option ℕ
typed shift scancode =
    if leb 128 scancode || is_shift scancode
    then none
    else if character shift scancode == 0
    then none
    else some (character shift scancode)

abbrev pub shift_after : Bool → ℕ → Bool
shift_after shift scancode =
    if leb 128 scancode
    then (if is_shift (scancode - 128) then false else shift)
    else if is_shift scancode
    then true
    else shift

-- A queue of at most 255 characters; what comes when it is full is lost.
abbrev pub deliver : List ℕ → Option ℕ → List ℕ
deliver q none = q
deliver q (some c) = if ltb (length q) 255 then q ++ (c ∷ []) else q

abbrev pub first : List ℕ → Option ℕ
first [] = none
first (c ∷ q) = some c

abbrev pub rest_of : List ℕ → List ℕ
rest_of [] = []
rest_of (c ∷ q) = q

unfoldable pub queue_run : List Event → List ℕ → Bool → List (Option ℕ)
queue_run [] q shift = []
queue_run (key scancode ∷ es) q shift =
    queue_run es (deliver q (typed shift scancode)) (shift_after shift scancode)
queue_run (read ∷ es) q shift = first q ∷ queue_run es (rest_of q) shift
queue_run (flushed ∷ es) q shift = queue_run es [] shift

release_bit : (sc : ℕ) → sc < 256 → not (bit_and sc 0x80 == 0) ≡ leb 128 sc
release_bit sc h = ground (arith, bit_and-pow 7 sc)

pressed :
    (c : ℕ) (k : Keyboard)
    → IsValid k
    → let k' = if not (c == 0) then enqueue c k else k in
      (contents k' ≡ deliver (contents k) (if c == 0 then none else some c))
      × (k'.shift_pressed ≡ k.shift_pressed)
      × IsValid k'
pressed c k v = elim (Bool-cases (c == 0)) [
  | inl none_typed ↦ rw none_typed (refl, refl, v)
  | inr typed_one ↦ rw typed_one (
    rw (length-ring k.buffer k.read_idx (held k)) (contents-enqueue c k v),
    shift-enqueue c k,
    enqueue-IsValid c k v,
  )
]

-- One interrupt with a byte from the keyboard, in a state with the indices in range: the characters
-- that wait are those before and the typed one, if there is one and room for it; shift is held from
-- its press to its release; and the indices stay in range.
pub handler_lem :
    (scancode : ℕ) (k : Keyboard)
    → scancode < 256
    → IsValid k
    → (contents (handler scancode k) ≡ deliver (contents k) (typed k.shift_pressed scancode))
      × ((handler scancode k).shift_pressed ≡ shift_after k.shift_pressed scancode)
      × IsValid (handler scancode k)
unfolding handler
handler_lem sc k h v = elim (Bool-cases (leb 128 sc)) [
  | inl release ↦
      let mask : bit_and sc 0x7F ≡ sc - 128 = ground (arith, bit_and-low 7 sc) in
      rw (release_bit sc h, release, mask)
        (elim (Bool-cases (is_shift (sc - 128))) [
          | inl s ↦ rw s (refl, refl, record { read_in = v.read_in; write_in = v.write_in })
          | inr s ↦ rw s (refl, refl, v)
        ])
  | inr press ↦
      rw (release_bit sc h, press)
        (elim (Bool-cases (is_shift sc)) [
          | inl s ↦ rw s (refl, refl, record { read_in = v.read_in; write_in = v.write_in })
          | inr s ↦ rw s (pressed (character k.shift_pressed sc) k v)
        ])
]

taken :
    (k : Keyboard) (r : Option (ℕ × Keyboard))
    → IsValid k
    → Reads k r
    → let (c, k') = after_read k r in
      (c ≡ first (contents k))
      × (contents k' ≡ rest_of (contents k))
      × (k'.shift_pressed ≡ k.shift_pressed)
      × IsValid k'
taken k none v h = rw h (refl, refl, refl, v)
taken k (some (c, k')) v h = rw h.0 (refl, refl, h.2, h.1)

read_step :
    (k : Keyboard)
    → IsValid k
    → let (c, k') = after_read k (read_char k) in
      (c ≡ first (contents k))
      × (contents k' ≡ rest_of (contents k))
      × (k'.shift_pressed ≡ k.shift_pressed)
      × IsValid k'
read_step k v = taken k (read_char k) v (read_char-Reads k v)

flush-IsValid : (k : Keyboard) → IsValid k → IsValid (flush k)
unfolding flush
flush-IsValid k v = record { read_in = v.write_in; write_in = v.write_in }

abbrev IsByte : Event → Type 0
IsByte (key scancode) = scancode < 256
IsByte _ = Unit

-- Whatever the order of interrupts, readers and flushes, the readers get what a queue of at most 255
-- typed characters would give them: in order, none twice, none lost but at a full queue or a flush.
pub run_refines :
    (es : List Event) (k : Keyboard)
    → All IsByte es
    → IsValid k
    → run es k ≡ queue_run es (contents k) k.shift_pressed
unfolding run queue_run
run_refines [] k b v = refl
run_refines (key sc ∷ es) k b v =
    let (waits, shift, v') = handler_lem sc k b.0 v in
    rw (run_refines es (handler sc k) b.1 v', waits, shift)
run_refines (read ∷ es) k b v =
    let (got, waits, shift, v') = read_step k v in
    rw (run_refines es (after_read k (read_char k)).1 b.1 v', got, waits, shift)
run_refines (flushed ∷ es) k b v =
    rw (run_refines es (flush k) b.1 (flush-IsValid k v), contents-flush k v) (unfold flush in refl)
