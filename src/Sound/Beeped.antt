-- ===== src/Sound/Beeped.antt =====
-- kernel/drivers/virtio.c, virtio_sound_beep: what the device sees of a beep.
use capstone_myos.Prelude.{
  ℕ, ◌+◌, ◌%◌, ◌^◌, ◌<◌, ◌≡◌, List, [], ◌∷◌, ◌++◌, length, ◌==◌, if◌then◌else◌,
}
use capstone_myos.Strings.{Mem}
use capstone_myos.Sound.{Queue, consume, submit_command, send_buffer}
use capstone_myos.Sound.Beep.{Event, command_sent, audio_sent, slept, SoundState}
use capstone_myos.Sound.Wave.{wave}

-- The device answers every command, the first from the index `start` of the used ring on: one of the
-- `fuel` looks behind the c-th command shows the index that counts it.
abbrev pub IsAnswering : ℕ → (ℕ → ℕ → ℕ) → ℕ → Type 0
IsAnswering fuel used start = (c : ℕ) → (i : ℕ) × (i < fuel) × (used c i ≡ (start + c + 1) % 2 ^ 16)

-- The sleeps of 1 ms left out.
unfoldable pub without_looks : List Event → List Event
without_looks [] = []
without_looks (slept ms ∷ es) = if ms == 1 then without_looks es else slept ms ∷ without_looks es
without_looks (command_sent cmd ∷ es) = command_sent cmd ∷ without_looks es
without_looks (audio_sent b ∷ es) = audio_sent b ∷ without_looks es

-- The events of commands that were sent.
abbrev sent_events : List (List ℕ) → List Event
sent_events [] = []
sent_events (cmd ∷ cmds) = command_sent cmd ∷ sent_events cmds

-- What commands leave: so many chains more were offered, and so many answers taken; the other queue stays.
abbrev IsSent : List (List ℕ) → SoundState → SoundState → Type 0
IsSent cmds s s' =
    (s'.control.avail_idx % 2 ^ 16 ≡ (s.control.avail_idx + length cmds) % 2 ^ 16)
    × (s'.control.last_used_idx ≡ (s.control.last_used_idx + length cmds) % 2 ^ 16)
    × (s'.playback ≡ s.playback)
    × (without_looks s'.events ≡ without_looks s.events ++ sent_events cmds)

module _ (fuel : ℕ) (used : ℕ → ℕ → ℕ) (device : ℕ → Mem → Mem) (dma start : ℕ)
    (answers : IsAnswering fuel used start) where
  -- The queue behind a command.
  sent : List ℕ → Queue → Queue
  sent cmd q = consume (submit_command dma (length cmd) 4 q)

-- What virtio_sound_beep does: the parameters of stream 0, its PREPARE and its START, the audio, a second,
-- its STOP and its RELEASE.
abbrev pub beep_events : ℕ → Mem → List Event
beep_events padding audio =
    command_sent (
      1 ∷ 1 ∷ 0 ∷ 0 ∷ 0 ∷ 0 ∷ 0 ∷ 0 ∷ 0 ∷ 0x10 ∷ 0 ∷ 0 ∷ 0 ∷ 0x08 ∷ 0 ∷ 0 ∷ 0 ∷ 0 ∷ 0 ∷ 0 ∷ 2 ∷ 5
      ∷ 6 ∷ padding ∷ [])
    ∷ command_sent (2 ∷ 1 ∷ 0 ∷ 0 ∷ 0 ∷ 0 ∷ 0 ∷ 0 ∷ [])
    ∷ command_sent (4 ∷ 1 ∷ 0 ∷ 0 ∷ 0 ∷ 0 ∷ 0 ∷ 0 ∷ [])
    ∷ audio_sent audio
    ∷ slept 1000
    ∷ command_sent (5 ∷ 1 ∷ 0 ∷ 0 ∷ 0 ∷ 0 ∷ 0 ∷ 0 ∷ [])
    ∷ command_sent (3 ∷ 1 ∷ 0 ∷ 0 ∷ 0 ∷ 0 ∷ 0 ∷ 0 ∷ [])
    ∷ []

-- How a beep ends: five chains more in the control queue, all answered, one more in the playback queue, and
-- the events of a beep with the square wave.
pub record IsBeeped (dma padding : ℕ) (s s' : SoundState) : Type 0 where
  pub offered : s'.control.avail_idx % 2 ^ 16 ≡ (s.control.avail_idx + 5) % 2 ^ 16
  pub answered : s'.control.last_used_idx ≡ (s.control.last_used_idx + 5) % 2 ^ 16
  pub played : s'.playback ≡ send_buffer dma 2048 s.playback
  pub audio : Mem
  pub wave_form : (i : ℕ) → i < 2048 → audio i ≡ wave i
  pub done : without_looks s'.events ≡ without_looks s.events ++ beep_events padding audio
