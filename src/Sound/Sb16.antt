-- ===== src/Sound/Sb16.antt =====
-- kernel/drivers/sb16.c and include/kernel/drivers/sb16.h. `port p n` is what the port `p` gives at the
-- n-th read of the driver. Messages on the screen are left out.
use capstone_myos.Prelude.{
  ℕ, zero, suc, ◌+◌, ◌-◌, ◌/◌, ◌%◌, ◌^◌, Bool, true, false, Option, none, some, List, [], ◌∷◌, ◌++◌,
  ◌==◌, ltb, if◌then◌else◌, bit_and, update,
}
use capstone_myos.Strings.{Mem}
use capstone_myos.Pmm.{Pmm, alloc_frame, frame_size}
use capstone_myos.Process.{Kernel}
use capstone_myos.Timer.{sleep}
use capstone_myos.Devices.{dma_prepare_transfer}

abbrev pub dsp_reset : ℕ
dsp_reset = 0x226

abbrev pub dsp_read_data : ℕ
dsp_read_data = 0x22A

abbrev pub dsp_write_port : ℕ
dsp_write_port = 0x22C

abbrev pub dsp_read_status : ℕ
dsp_read_status = 0x22E

abbrev pub Ports : Type 0
Ports = ℕ → ℕ → ℕ

-- The reads so far, the writes in order, and the DMA buffer with its content.
pub record Sb16 : Type 0 where
  pub reads : ℕ
  pub writes : List (ℕ × ℕ)
  pub dma_buffer : ℕ
  pub samples : Mem

-- The loops that wait for bit 7 of a status port to be `wanted`: the number of reads behind the wait, or
-- `none` if `fuel` reads were not enough.
unfoldable pub wait_status : ℕ → Ports → ℕ → Bool → ℕ → Option ℕ
wait_status zero port p wanted n = none
wait_status (suc fuel) port p wanted n =
    let rest = wait_status fuel port p wanted (n + 1) in
    if (bit_and (port p n) 0x80 == 0)
    then (if wanted then rest else some (n + 1))
    else if wanted
    then some (n + 1)
    else rest

unfoldable pub out : ℕ → ℕ → Sb16 → Sb16
out p value s = record s { writes = s.writes ++ ((p, value) ∷ []) }

unfoldable pub dsp_write : ℕ → Ports → ℕ → Sb16 → Option Sb16
dsp_write fuel port value s = elim (wait_status fuel port dsp_write_port false s.reads) [
  | none ↦ none
  | some n ↦ some (out dsp_write_port value (record s { reads = n }))
]

-- Several commands in a row.
unfoldable pub dsp_writes : ℕ → Ports → List ℕ → Sb16 → Option Sb16
dsp_writes fuel port [] s = some s
dsp_writes fuel port (v ∷ vs) s = elim (dsp_write fuel port v s) [
  | none ↦ none
  | some s' ↦ dsp_writes fuel port vs s'
]

unfoldable pub dsp_read : ℕ → Ports → Sb16 → Option (ℕ × Sb16)
dsp_read fuel port s = elim (wait_status fuel port dsp_read_status true s.reads) [
  | none ↦ none
  | some n ↦ some (port dsp_read_data n, record s { reads = n + 1 })
]

-- sb16_reset_dsp: whether the card answered.
unfoldable pub reset_dsp : ℕ → Ports → Sb16 → Option (Bool × Sb16)
reset_dsp fuel port s = elim (dsp_read fuel port (out dsp_reset 0 (out dsp_reset 1 s))) [
  | none ↦ none
  | some (ack, s') ↦ some (ack == 0xAA, s')
]

unfoldable pub mixer_write : ℕ → ℕ → Sb16 → Sb16
mixer_write reg value s = out 0x225 value (out 0x224 reg s)

unfoldable pub sb16_init : ℕ → Ports → Sb16 → Pmm → Option (Sb16 × Pmm)
sb16_init fuel port s p = elim (reset_dsp fuel port s) [
  | none ↦ none
  | some (found, s1) ↦ elim found [
    | false ↦ some (s1, p)
    | true ↦
        let s2 = mixer_write 0x04 0xFF (mixer_write 0x22 0xFF s1) in
        let (buffer, p') = alloc_frame p in
        some (
          record s2 {
            dma_buffer = buffer;
            writes = s2.writes ++ dma_prepare_transfer 1 0x48 buffer frame_size;
          },
          p',
        )
  ]
]

abbrev pub sample_rate : ℕ
sample_rate = 22050

-- The loop that fills the buffer, `n` bytes from `i` on.
unfoldable pub fill_wave : ℕ → ℕ → ℕ → Mem → Mem
fill_wave zero i period samples = samples
fill_wave (suc n) i period samples =
    fill_wave n (i + 1) period
      (update samples i (if ltb (i % period) (period / 2) then 0xFF else 0x00))

-- How sb16_play_sound ends: by a division by zero, in a wait that takes more than `fuel` reads, by a sleep
-- without a current task, or with the sound played.
pub data Played : Type 0 where
  divide_error still_waiting no_task : Played
  played : Sb16 → Kernel → Played

unfoldable pub sb16_commands : List ℕ
sb16_commands =
    0xD1
    ∷ 0x41
    ∷ sample_rate / 2 ^ 8 % 2 ^ 8
    ∷ sample_rate % 2 ^ 8
    ∷ 0xC6
    ∷ 0x00
    ∷ (frame_size - 1) % 2 ^ 8
    ∷ (frame_size - 1) / 2 ^ 8 % 2 ^ 8
    ∷ []

-- Behind the commands: the sleep, and the commands that end the sound.
unfoldable pub finish : ℕ → Ports → ℕ → Kernel → Option Sb16 → Played
finish fuel port duration_ms k none = still_waiting
finish fuel port duration_ms k (some s) = elim (sleep duration_ms k) [
  | none ↦ no_task
  | some k' ↦ elim (dsp_writes fuel port (0xD0 ∷ 0xD3 ∷ []) s) [
    | none ↦ still_waiting
    | some s' ↦ played s' k'
  ]
]

-- The arguments are 16-bit numbers.
unfoldable pub sb16_play_sound : ℕ → Ports → ℕ → ℕ → Sb16 → Kernel → Played
sb16_play_sound fuel port frequency duration_ms s k =
    let period = sample_rate / frequency in
    elim ((frequency == 0)) [
      | true ↦ divide_error
      | false ↦ elim (period == 0) [
        | true ↦ divide_error
        | false ↦
            let filled = record s { samples = fill_wave frame_size 0 period s.samples } in
            finish fuel port duration_ms k (dsp_writes fuel port sb16_commands filled)
      ]
    ]
