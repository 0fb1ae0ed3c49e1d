-- ===== src/Timer.antt =====
-- kernel/drivers/timer.c: the clock interrupt, sleeping, and the speaker, on the state of Process.
pub mod Wake
pub mod Sleep
mod Tests
use capstone_myos.Prelude.{
  ℕ, zero, suc, ◌+◌, ◌*◌, ◌/◌, ◌%◌, ◌^◌, Bool, true, false, ◌&&◌, Option, none, some, List, [], ◌∷◌,
  ◌==◌, leb, if◌then◌else◌, update, bit_or, bit_and, max,
}
use capstone_myos.Process.{
  TaskState, running, sleeping, Task, CpuState, Registers, Kernel, is_sleeping, schedule, restore,
}

-- The body of the loop of timer_handler on one entry.
unfoldable pub wake_entry : ℕ → Task → Task
wake_entry tick t =
    if is_sleeping t.state && leb t.wakeup_time tick then record t { state = running } else t

-- The loop, over `n` entries from `i` on.
unfoldable pub wake : ℕ → ℕ → ℕ → (ℕ → Task) → ℕ → Task
wake zero i tick table = table
wake (suc n) i tick table = wake n (suc i) tick (update table i (wake_entry tick (table i)))

-- The clock and the loop, before the switch.
unfoldable pub advance : Kernel → Kernel
advance k =
    let now = (k.tick + 1) % 2 ^ 32 in
    record k { tick = now; process_table = wake 16 0 now k.process_table }

-- timer_handler, with the frame that the interrupt returns to; `none` if schedule halts.
unfoldable pub timer_handler : Registers → Kernel → Option (Registers × Kernel)
timer_handler r k =
    let k' = advance k in
    elim k.multitasking_enabled [
      | false ↦ some (r, k')
      | true ↦ elim (schedule r k') [
        | none ↦ none
        | some (n, k'') ↦ some (restore (k''.process_table n).cpu_state r, k'')
      ]
    ]

-- Milliseconds in ticks of 10 ms, at least one.
unfoldable pub ticks_to_wait : ℕ → ℕ
ticks_to_wait milliseconds = if milliseconds / 10 == 0 then 1 else milliseconds / 10

-- What sleep writes before it halts; `none` where it would write through a NULL pointer.
unfoldable pub sleep : ℕ → Kernel → Option Kernel
sleep milliseconds k = elim k.current_task [
  | none ↦ none
  | some c ↦ some (record k {
    process_table = update k.process_table c (record (k.process_table c) {
      state = sleeping;
      wakeup_time = (k.tick + ticks_to_wait milliseconds) % 2 ^ 32;
    });
  })
]

-- delay_ms: the tick at which its loop ends.
unfoldable pub delay_end : ℕ → Kernel → ℕ
delay_end milliseconds k = (k.tick + ticks_to_wait milliseconds) % 2 ^ 32

-- The speaker: the bytes written to ports, in order, and the frequency that is thought to play.
pub record Speaker : Type 0 where
  pub writes : List (ℕ × ℕ)
  pub current_frequency : ℕ

-- The two bytes of a divisor, after the mode byte.
unfoldable pub program_pit : ℕ → ℕ → ℕ → List (ℕ × ℕ)
program_pit mode port divisor =
    (0x43, mode) ∷ (port, divisor % 2 ^ 8) ∷ (port, (divisor / 2 ^ 8) % 2 ^ 8) ∷ []

-- timer_install: the PIT's channel 0 at 100 Hz.
unfoldable pub timer_install : List (ℕ × ℕ)
timer_install = program_pit 0x36 0x40 (1193180 / 100)

-- nosound; `control` is what port 0x61 reads.
unfoldable pub nosound : ℕ → Speaker
nosound control = record {
  writes = (0x61, bit_and control 0xFC) ∷ program_pit 0xB6 0x42 0;
  current_frequency = 0;
}

-- play_sound on the frequency that plays already: what it writes and what plays then.
unfoldable pub play_sound : ℕ → ℕ → ℕ → Speaker
play_sound control playing frequency =
    if frequency == playing
    then record { writes = []; current_frequency = playing }
    else if frequency == 0
    then nosound control
    else record {
      writes =
          (0x43, 0xB6)
          ∷ (0x42, (1193180 / frequency) % 2 ^ 8)
          ∷ (0x42, ((1193180 / frequency) / 2 ^ 8) % 2 ^ 8)
          ∷ (0x61, bit_or control 3)
          ∷ [];
      current_frequency = frequency;
    }

-- beep up to its sleep: what plays, and the task that sleeps; the sound stops with `nosound`.
unfoldable pub beep : ℕ → ℕ → ℕ → ℕ → Kernel → Option (Speaker × Kernel)
beep control playing frequency duration_ms k = elim (sleep duration_ms k) [
  | none ↦ none
  | some k' ↦ some (play_sound control playing frequency, k')
]

-- beep_blocking: what plays, and the tick at which its loop ends.
unfoldable pub beep_blocking : ℕ → ℕ → ℕ → ℕ → Kernel → Speaker × ℕ
beep_blocking control playing frequency duration_ms k =
    (play_sound control playing frequency, delay_end duration_ms k)
