-- ===== src/Sound/Beep.antt =====
-- kernel/drivers/virtio.c: virtio_sound_beep, without its messages. `used c` and `device c` are what the
-- device makes of the c-th command: the indices that it puts into the used ring, and the DMA buffer.
use capstone_myos.Prelude.{
  ℕ, zero, suc, ◌+◌, ◌*◌, ◌/◌, ◌%◌, ◌^◌, Option, none, some, List, [], ◌∷◌, ◌++◌, ltb,
  if◌then◌else◌,
}
use capstone_myos.Strings.{Mem}
use capstone_myos.Sound.{
  Queue, send_buffer, send_command_sync, commands_before, commands_behind, fill_audio,
}

-- What a beep does, in order: a command is sent and answered, the buffer is offered, and sleep is called with
-- a number of milliseconds. What sleep does to the scheduler is Timer's.
pub data Event : Type 0 where
  command_sent : List ℕ → Event
  audio_sent : Mem → Event
  slept : ℕ → Event

-- The two queues, the DMA buffer, and what was done so far.
pub record SoundState : Type 0 where
  pub control : Queue
  pub playback : Queue
  pub dma_buffer : Mem
  pub events : List Event

-- The audio in the buffer, as bytes: 16-bit cells, the low byte first.
unfoldable pub with_audio : Mem → Mem
with_audio buffer i =
    if ltb i 2048
    then fill_audio 512 0 (λ j. buffer (2 * j) + 2 ^ 8 * buffer (2 * j + 1)) (i / 2)
      / 2 ^ (8 * (i % 2))
      % 2 ^ 8
    else buffer i

-- The sleeps of a wait.
unfoldable pub looks : ℕ → List Event
looks zero = []
looks (suc n) = slept 1 ∷ looks n

module _ (fuel : ℕ) (used : ℕ → ℕ → ℕ) (device : ℕ → Mem → Mem) (dma : ℕ) where
  -- Commands in a row, each with a response of 4 bytes; the first has the number `c`.
  unfoldable pub send_all : ℕ → List (List ℕ) → SoundState → Option SoundState
  send_all c [] s = some s
  send_all c (cmd ∷ cmds) s =
      elim (send_command_sync fuel (used c) (device c) dma cmd 4 s.dma_buffer s.control) [
        | none ↦ none
        | some (q, response, buffer, n) ↦ send_all (c + 1) cmds (record s {
          control = q;
          dma_buffer = buffer;
          events = s.events ++ (command_sent cmd ∷ looks n);
        })
      ]

  -- The audio buffer, offered to queue 2, and the time that it plays.
  unfoldable pub send_audio : SoundState → SoundState
  send_audio s = record s {
    dma_buffer = with_audio s.dma_buffer;
    playback = send_buffer dma 2048 s.playback;
    events = s.events ++ (audio_sent (with_audio s.dma_buffer) ∷ slept 1000 ∷ []);
  }

  -- The commands up to the start of the stream.
  unfoldable pub start_stream : ℕ → SoundState → Option SoundState
  start_stream padding s = send_all 0 (commands_before padding) s

  -- virtio_sound_beep; `none` if the device takes longer than `fuel` looks.
  unfoldable pub sound_beep : ℕ → SoundState → Option SoundState
  sound_beep padding s = elim (start_stream padding s) [
    | none ↦ none
    | some s1 ↦ send_all 3 commands_behind (send_audio s1)
  ]
