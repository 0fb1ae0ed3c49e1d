-- ===== src/Keyboard/Tests.antt =====
-- The keyboard driver on concrete events.
use capstone_myos.Prelude.{◌≡◌, refl, arith, false, none, some, List, [], ◌∷◌}
use capstone_myos.Keyboard.{
  Keyboard, character, is_shift, enqueue, handler, read_char, Event, key, read, run,
}
use capstone_myos.Keyboard.Ring.{IsValid}
use capstone_myos.Keyboard.Refine.{queue_run, run_refines}

-- Nothing waits, and the indices stand just before the wrap.
abbrev idle : Keyboard
idle = record { buffer = λ i. 0; read_idx = 255; write_idx = 255; shift_pressed = false }

idle-IsValid : IsValid idle
idle-IsValid = omega arith

-- h, shift held, i, shift released, three readers.
abbrev typing : List Event
typing = key 0x23 ∷ key 0x2A ∷ key 0x17 ∷ key 0xAA ∷ read ∷ read ∷ read ∷ []

run-typing : run typing idle ≡ some b'h' ∷ some b'I' ∷ none ∷ []
unfolding run handler is_shift character enqueue read_char
run-typing = refl

run_refines_example : run typing idle ≡ queue_run typing [] false
run_refines_example = run_refines typing idle (omega arith) idle-IsValid
