-- ===== src/Sound.antt =====
-- kernel/drivers/virtio.c and include/kernel/drivers/virtio.h: the queues of the virtio sound device.
-- The device's registers are a function; `react`, an argument, is what the device makes of them when
-- one is written. What the device has put into a queue's used ring is an argument as well.
pub mod Setup
pub mod Chain
pub mod Sb16
pub mod Beep
pub mod Wave
pub mod Beeped
pub mod Probe
pub mod Playing
mod Tests
use capstone_myos.Prelude.{
  ℕ, zero, suc, ◌+◌, ◌-◌, ◌*◌, ◌/◌, ◌%◌, ◌^◌, Bool, true, false, Option, none, some, List, [], ◌∷◌,
  ◌++◌, length, ◌==◌, ltb, if◌then◌else◌, update, get_or,
}
use capstone_myos.Strings.{Mem}

-- VIRTQ_DESC_F_NEXT and VIRTQ_DESC_F_WRITE.
abbrev pub flag_next : ℕ
flag_next = 1

abbrev pub flag_write : ℕ
flag_write = 2

pub record Desc : Type 0 where
  pub addr : ℕ
  pub len : ℕ
  pub flags : ℕ
  pub next : ℕ

-- virtqueue_info_t, with the rings that its pointers lead to.
pub record Queue : Type 0 where
  pub desc_table : ℕ → Desc
  pub avail_idx : ℕ
  pub avail_ring : ℕ → ℕ
  pub size : ℕ
  pub last_used_idx : ℕ
  pub next_avail_idx : ℕ

-- The lines that make a chain available to the device.
unfoldable pub offer : ℕ → Queue → Queue
offer head_idx q = record q {
  avail_ring = update q.avail_ring (q.avail_idx % q.size) head_idx;
  avail_idx = (q.avail_idx + 1) % 2 ^ 16;
}

-- virtq_send_command_sync up to the notification, for the address of the DMA buffer.
unfoldable pub submit_command : ℕ → ℕ → ℕ → Queue → Queue
submit_command dma cmd_size resp_size q =
    let head_idx = q.next_avail_idx in
    let resp_idx = (head_idx + 1) % q.size in
    let command : Desc = record {
      addr = dma;
      len = cmd_size;
      flags = flag_next;
      next = resp_idx;
    } in
    let response : Desc = record {
      addr = (dma + cmd_size) % 2 ^ 32;
      len = resp_size;
      flags = flag_write;
      next = 0;
    } in
    let q' =
      offer head_idx (record q {
        desc_table = update (update q.desc_table head_idx command) resp_idx response;
      }) in
    record q' { next_avail_idx = (resp_idx + 1) % q.size }

-- The wait for the device: `used n` is the index of the used ring at the n-th look. The number of calls of
-- sleep(1), or `none` if `fuel` looks were not enough.
unfoldable pub await : ℕ → (ℕ → ℕ) → ℕ → ℕ → Option ℕ
await zero used last n = none
await (suc fuel) used last n =
    let rest = await fuel used last (n + 1) in if last == used n then rest else some n

unfoldable pub consume : Queue → Queue
consume q = record q { last_used_idx = (q.last_used_idx + 1) % 2 ^ 16 }

-- memcpy of a command into the DMA buffer.
unfoldable pub put_bytes : List ℕ → ℕ → Mem → Mem
put_bytes [] i m = m
put_bytes (b ∷ bs) i m = put_bytes bs (i + 1) (update m i b)

unfoldable pub get_bytes : ℕ → ℕ → Mem → List ℕ
get_bytes zero i m = []
get_bytes (suc n) i m = m i ∷ get_bytes n (i + 1) m

-- virtq_send_command_sync: the queue, the response, the DMA buffer, and the number of calls of sleep(1).
-- `device` is what the device makes of the DMA buffer.
unfoldable pub send_command_sync :
    ℕ → (ℕ → ℕ) → (Mem → Mem) → ℕ → List ℕ → ℕ → Mem → Queue → Option (Queue × List ℕ × Mem × ℕ)
send_command_sync fuel used device dma cmd resp_size buffer q =
    let buffer' = device (put_bytes cmd 0 buffer) in
    elim (await fuel used q.last_used_idx 0) [
      | none ↦ none
      | some n ↦ some (
        consume (submit_command dma (length cmd) resp_size q),
        get_bytes resp_size (length cmd) buffer',
        buffer',
        n,
      )
    ]

-- virtq_send_buffer up to the notification.
unfoldable pub send_buffer : ℕ → ℕ → Queue → Queue
send_buffer buffer len q =
    let head_idx = q.next_avail_idx in
    let q' = offer head_idx (record q {
      desc_table =
          update q.desc_table head_idx (record { addr = buffer; len = len; flags = 0; next = 0 });
    }) in
    record q' { next_avail_idx = (head_idx + 1) % q.size }

-- notify_queue: the address and the value of its write.
unfoldable pub notify_queue : ℕ → ℕ → ℕ → ℕ → ℕ × ℕ
notify_queue notify_base multiplier queue_notify_off queue_idx =
    ((notify_base + queue_notify_off * multiplier) % 2 ^ 32, queue_idx)

-- The bytes of the commands.
abbrev pub bytes4 : ℕ → List ℕ
bytes4 w = w % 2 ^ 8 ∷ w / 2 ^ 8 % 2 ^ 8 ∷ w / 2 ^ 16 % 2 ^ 8 ∷ w / 2 ^ 24 % 2 ^ 8 ∷ []

unfoldable pub pcm_hdr : ℕ → ℕ → List ℕ
pcm_hdr code stream_id = bytes4 code ++ bytes4 stream_id

-- The padding of the structure is not written by the code: it is an argument.
unfoldable pub set_params : ℕ → List ℕ
set_params padding =
    pcm_hdr 0x0101 0 ++ bytes4 4096 ++ bytes4 2048 ++ bytes4 0 ++ (2 ∷ 5 ∷ 6 ∷ padding ∷ [])

-- The commands of virtio_sound_beep before and behind the audio buffer.
unfoldable pub commands_before : ℕ → List (List ℕ)
commands_before padding = set_params padding ∷ pcm_hdr 0x0102 0 ∷ pcm_hdr 0x0104 0 ∷ []

unfoldable pub commands_behind : List (List ℕ)
commands_behind = pcm_hdr 0x0105 0 ∷ pcm_hdr 0x0103 0 ∷ []

-- The square wave, as the 16-bit patterns of its samples; `amplitude` is 80000 in an int16_t.
abbrev pub amplitude : ℕ
amplitude = 80000 % 2 ^ 16

unfoldable pub sample_value : ℕ → ℕ
sample_value i =
    let period_frames = 44100 / 440 in
    if ltb (i % period_frames) (period_frames / 2) then amplitude else (2 ^ 16 - amplitude) % 2 ^ 16

-- The loop that fills the buffer of 16-bit cells, `n` frames from `i` on.
unfoldable pub fill_audio : ℕ → ℕ → (ℕ → ℕ) → ℕ → ℕ
fill_audio zero i b = b
fill_audio (suc n) i b =
    fill_audio n (i + 1)
      (update (update b (i * 2 + 0) (sample_value i)) (i * 2 + 1) (sample_value i))
