-- ===== src/Sound/Playing.antt =====
-- kernel/drivers/sb16.c: what sb16_play_sound makes of a card that takes commands.
use native.Mathlib.Decide.{ℕ_discrete}
use native.Mathlib.Nat.{le-div_iff_mul-le}
use mathlib.Core.Path.{subst}
use mathlib.Core.List.{append_assoc, append-nil}
use capstone_myos.Prelude.{
  ℕ, zero, suc, ◌+◌, ◌-◌, ◌/◌, ◌%◌, ◌≤◌, ◌<◌, ◌≡◌, ◌≢◌, refl, ◌∙◌, ap, sym, arith, false, ◌&&◌,
  Option, some, List, [], ◌∷◌, ◌++◌, map, ◌==◌, leb, ltb, if◌then◌else◌, bit_and, update,
  Bool-cases, inl, inr, ==_of_ne,
}
use capstone_myos.Strings.{Mem}
use capstone_myos.Pmm.{frame_size}
use capstone_myos.Process.{Kernel}
use capstone_myos.Timer.{sleep}
use capstone_myos.Sound.Sb16.{
  Sb16, Ports, Played, divide_error, still_waiting, no_task, played, dsp_write_port, sample_rate,
  wait_status, dsp_write, dsp_writes, out, fill_wave, sb16_commands, finish, sb16_play_sound,
}

fill_wave_lem :
    (n i period : ℕ) (samples : Mem) (j : ℕ)
    → fill_wave n i period samples j ≡ (
        if leb i j && ltb j (i + n)
        then (if ltb (j % period) (period / 2) then 0xFF else 0x00)
        else samples j)
unfolding fill_wave
fill_wave_lem zero i period samples j = ground arith
fill_wave_lem (suc n) i period samples j =
    let value : ℕ = if ltb (i % period) (period / 2) then 0xFF else 0x00 in
    fill_wave_lem n (i + 1) period (update samples i value) j ∙ elim (ℕ_discrete j i) [
      | yes e ↦ rw e (ground arith)
      | no ne ↦ let other = ==_of_ne j i ne in rw other (ground arith)
    ]

-- The card takes commands: from any read on, one of the next `fuel` reads of the status has bit 7 clear.
abbrev pub IsReady : ℕ → Ports → Type 0
IsReady fuel port =
    (n : ℕ) → (i : ℕ) × (i < fuel) × (bit_and (port dsp_write_port (n + i)) 0x80 ≡ 0)

plus_zero : (n i : ℕ) → i ≡ 0 → n + i ≡ n
plus_zero n i z = omega arith

wait_status-some :
    (fuel : ℕ) (port : Ports) (n i : ℕ)
    → i < fuel
    → bit_and (port dsp_write_port (n + i)) 0x80 ≡ 0
    → (m : ℕ) × (wait_status fuel port dsp_write_port false n ≡ some m)
unfolding wait_status
wait_status-some zero port n i lt e = absurd (omega arith)
wait_status-some (suc fuel) port n i lt e =
    elim (Bool-cases (bit_and (port dsp_write_port n) 0x80 == 0)) [
      | inl ready ↦ (n + 1, rw ready refl)
      | inr busy ↦
          let later : i ≢ 0 = λ z. ground (
            arith,
            busy,
            e,
            ap (λ (x : ℕ). bit_and (port dsp_write_port x) 0x80) (plus_zero n i z),
          ) in
          let same : n + i ≡ n + 1 + (i - 1) = omega arith in
          let (m, made) =
            wait_status-some fuel port (n + 1) (i - 1) (omega arith)
              (subst (λ x. bit_and (port dsp_write_port x) 0x80 ≡ 0) same e) in
          (m, rw busy made)
    ]

-- The writes of commands to the card.
abbrev pub to_card : List ℕ → List (ℕ × ℕ)
to_card vs = map (λ v. (dsp_write_port, v)) vs

-- The card has taken the commands `vs`, in this order and without anything else.
abbrev pub HasTaken : List ℕ → Sb16 → Sb16 → Type 0
HasTaken vs s s' =
    (s'.writes ≡ s.writes ++ to_card vs) × (s'.samples ≡ s.samples) × (s'.dma_buffer ≡ s.dma_buffer)

module _ (fuel : ℕ) (port : Ports) (ready : IsReady fuel port) where
  dsp_write-some :
      (v : ℕ) (s : Sb16)
      → (s' : Sb16) × (dsp_write fuel port v s ≡ some s') × HasTaken (v ∷ []) s s'
  unfolding dsp_write out
  dsp_write-some v s =
      let (i, lt, e) = ready s.reads in
      let (m, made) = wait_status-some fuel port s.reads i lt e in
      (out dsp_write_port v (record s { reads = m }), rw (dsp_write, made) refl, (refl, refl, refl))

  dsp_writes-some :
      (vs : List ℕ) (s : Sb16)
      → (s' : Sb16) × (dsp_writes fuel port vs s ≡ some s') × HasTaken vs s s'
  unfolding dsp_writes
  dsp_writes-some [] s = (s, refl, (sym (append-nil s.writes), refl, refl))
  dsp_writes-some (v ∷ vs) s =
      let (s1, made, (w1, m1, b1)) = dsp_write-some v s in
      let (s2, rest, (w2, m2, b2)) = dsp_writes-some vs s1 in
      let joined : s2.writes ≡ s.writes ++ to_card (v ∷ vs) =
        w2
        ∙ ap (λ (l : List (ℕ × ℕ)). l ++ to_card vs) w1
        ∙ append_assoc s.writes ((dsp_write_port, v) ∷ []) (to_card vs) in
      (s2, rw (dsp_writes, made) rest, (joined, m2 ∙ m1, b2 ∙ b1))

-- The commands of a whole sound.
abbrev pub sound_commands : List ℕ
sound_commands = 0xD1 ∷ 0x41 ∷ 0x56 ∷ 0x22 ∷ 0xC6 ∷ 0x00 ∷ 0xFF ∷ 0x0F ∷ 0xD0 ∷ 0xD3 ∷ []

-- The sound was played: the task sleeps, the buffer holds a square wave of the period, and the card has
-- taken the commands.
abbrev pub IsPlayed : ℕ → Option Kernel → Sb16 → Played → Type 0
IsPlayed period slept s divide_error = ⊥
IsPlayed period slept s still_waiting = ⊥
IsPlayed period slept s no_task = ⊥
IsPlayed period slept s (played s' k') =
    (slept ≡ some k')
    × (s'.writes ≡ s.writes ++ to_card sound_commands)
    × ((j : ℕ)
        → j < frame_size
        → s'.samples j ≡ (if ltb (j % period) (period / 2) then 0xFF else 0x00))

finish_made :
    (fuel : ℕ) (port : Ports) (duration_ms : ℕ) (k k' : Kernel) (s1 s2 : Sb16)
    → sleep duration_ms k ≡ some k'
    → dsp_writes fuel port (0xD0 ∷ 0xD3 ∷ []) s1 ≡ some s2
    → finish fuel port duration_ms k (some s1) ≡ played s2 k'
unfolding finish
finish_made fuel port duration_ms k k' s1 s2 slept made = rw (finish, slept, made) refl

sb16_play_sound_made :
    (fuel : ℕ) (port : Ports) (frequency duration_ms : ℕ) (s : Sb16) (k k' : Kernel) (s1 s2 : Sb16)
    → (frequency == 0) ≡ false
    → (sample_rate / frequency == 0) ≡ false
    → dsp_writes fuel port sb16_commands
        (record s { samples = fill_wave frame_size 0 (sample_rate / frequency) s.samples })
      ≡ some s1
    → sleep duration_ms k ≡ some k'
    → dsp_writes fuel port (0xD0 ∷ 0xD3 ∷ []) s1 ≡ some s2
    → sb16_play_sound fuel port frequency duration_ms s k ≡ played s2 k'
unfolding sb16_play_sound
sb16_play_sound_made fuel port frequency duration_ms s k k' s1 s2 a b made1 slept made2 =
    rw (sb16_play_sound, a, b, made1) (finish_made fuel port duration_ms k k' s1 s2 slept made2)

-- On a card that takes commands, of which one of `fuel` looks at its status always finds it ready, and
-- with a task that can sleep, sb16_play_sound ends for every frequency from 1 to 22050: the buffer holds
-- a square wave of the frequency's period, and the card has got the commands that turn the speaker on,
-- set the rate of 22050, start the transfer of 4096 bytes, pause it, and turn the speaker off.
pub sb16_play_sound_lem :
    (fuel : ℕ) (port : Ports) (frequency duration_ms : ℕ) (s : Sb16) (k k' : Kernel)
    → IsReady fuel port
    → 0 < frequency
    → frequency ≤ 22050
    → sleep duration_ms k ≡ some k'
    → IsPlayed
        (sample_rate / frequency)
        (sleep duration_ms k)
        s
        (sb16_play_sound fuel port frequency duration_ms s k)
unfolding sb16_commands
sb16_play_sound_lem fuel port frequency duration_ms s k k' ready pos le slept =
    let period : ℕ = sample_rate / frequency in
    let filled : Sb16 = record s { samples = fill_wave frame_size 0 period s.samples } in
    let (s1, made1, (w1, m1, b1)) = dsp_writes-some fuel port ready sb16_commands filled in
    let (s2, made2, (w2, m2, b2)) = dsp_writes-some fuel port ready (0xD0 ∷ 0xD3 ∷ []) s1 in
    let some_period : 1 ≤ period = (le-div_iff_mul-le pos).1 (omega arith) in
    let a : (frequency == 0) ≡ false = ==_of_ne frequency 0 (λ z. omega arith) in
    let b : (period == 0) ≡ false = ==_of_ne period 0 (λ z. omega (arith, some_period)) in
    let e =
      sb16_play_sound_made fuel port frequency duration_ms s k k' s1 s2 a b made1 slept made2 in
    subst (IsPlayed period (sleep duration_ms k) s) (sym e) (
      slept,
      w2
          ∙ ap (λ (l : List (ℕ × ℕ)). l ++ to_card (0xD0 ∷ 0xD3 ∷ [])) w1
          ∙ append_assoc s.writes (to_card sb16_commands) (to_card (0xD0 ∷ 0xD3 ∷ [])),
      λ j lt.
          ap (λ (f : Mem). f j) (m2 ∙ m1)
          ∙ fill_wave_lem frame_size 0 period s.samples j
          ∙ ground (arith, lt),
    )
