-- ===== src/Sound/Tests.antt =====
-- A queue of 64 descriptors whose last one is the next to be used, and a device.
use capstone_myos.Prelude.{
  ℕ, ◌+◌, ◌-◌, ◌%◌, ◌/◌, ◌^◌, ◌≡◌, false, refl, arith, some, [], ◌∷◌, ◌==◌, if◌then◌else◌,
}
use capstone_myos.Sound.{
  Queue, flag_next, flag_write, submit_command, send_buffer, await, sample_value,
}
use capstone_myos.Process.{Kernel, zero_task}
use capstone_myos.Timer.{sleep}
use capstone_myos.Sound.Sb16.{Sb16, sample_rate, sb16_play_sound}
use capstone_myos.Sound.Playing.{IsPlayed, sb16_play_sound_lem}
use capstone_myos.Sound.Beep.{SoundState}
use capstone_myos.Sound.Chain.{IsValid, chain_of, last_offered, submit_command_lem}

abbrev queue : Queue
queue = record {
  desc_table = λ i. record { addr = 0; len = 0; flags = 0; next = 0 };
  avail_idx = 0xFFFF;
  avail_ring = λ i. 0;
  size = 64;
  last_used_idx = 0;
  next_avail_idx = 63;
}

submit_command_lem_example :
    let q' = submit_command 0x9000 8 4 queue in
    let q'' = send_buffer 0x9000 2048 queue in
    (chain_of 64 q'.desc_table (last_offered q')
      ≡ record { addr = 0x9000; len = 8; flags = flag_next; next = (63 + 1) % 64 }
        ∷ record { addr = (0x9000 + 8) % 2 ^ 32; len = 4; flags = flag_write; next = 0 }
        ∷ [])
    × (chain_of 64 q''.desc_table (last_offered q'')
        ≡ record { addr = 0x9000; len = 2048; flags = 0; next = 0 } ∷ [])
    × IsValid q'
    × IsValid q''
    × (q'.avail_idx ≡ (0xFFFF + 1) % 2 ^ 16)
    × (q''.avail_idx ≡ (0xFFFF + 1) % 2 ^ 16)
submit_command_lem_example =
    submit_command_lem 0x9000 8 4 0x9000 2048 queue
      (record { room = omega arith; inside = omega arith; index = omega arith })

-- The device answers between the third look and the fourth.
third : await 5 (λ n. if n == 3 then 1 else 0) 0 0 ≡ some 3
unfolding await
third = refl

-- The two halves of a period.
halves : (sample_value 49 ≡ 14464) × (sample_value 50 ≡ 2 ^ 16 - 14464)
unfolding sample_value
halves = (refl, refl)

abbrev task_zero : Kernel
task_zero = record {
  process_table = λ i. zero_task;
  current_task = some 0;
  esp0 = 0;
  tick = 0;
  multitasking_enabled = false;
}

after_sleep : (k : Kernel) × (sleep 200 task_zero ≡ some k)
unfolding sleep
after_sleep = (_, refl)

-- A card that is ready at every look.
abbrev card : Sb16
card = record { reads = 0; writes = []; dma_buffer = 0x9000; samples = λ i. 0 }

sb16_play_sound_lem_example :
    IsPlayed
      (sample_rate / 440)
      (sleep 200 task_zero)
      card
      (sb16_play_sound 1 (λ p n. 0) 440 200 card task_zero)
sb16_play_sound_lem_example =
    sb16_play_sound_lem 1 (λ p n. 0) 440 200 card task_zero after_sleep.0
      (λ n. (0, omega arith, refl)) (omega arith) (omega arith) after_sleep.1

-- A device that answers at the second look.
second_look : ℕ → ℕ → ℕ
second_look c n = if n == 0 then c % 2 ^ 16 else (c + 1) % 2 ^ 16

abbrev sounds : SoundState
sounds = record { control = queue; playback = queue; dma_buffer = λ i. 0; events = [] }
