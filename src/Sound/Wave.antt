-- ===== src/Sound/Wave.antt =====
-- kernel/drivers/virtio.c, virtio_sound_beep: the audio that fills the buffer.
use capstone_myos.Prelude.{
  ℕ, zero, suc, ◌+◌, ◌*◌, ◌/◌, ◌%◌, ◌^◌, ◌<◌, ◌≡◌, ◌∙◌, arith, ◌==◌, ltb, leb, ◌&&◌, update, true,
  if◌then◌else◌,
}
use native.Mathlib.Decide.{ℕ_discrete}
use capstone_myos.Strings.{Mem}
use capstone_myos.Sound.{fill_audio, sample_value}
use capstone_myos.Sound.Beep.{with_audio}

fill_audio_lem :
    (n i : ℕ) (b : ℕ → ℕ) (a : ℕ)
    → fill_audio n i b a
      ≡ (if leb (2 * i) a && ltb a (2 * (i + n)) then sample_value (a / 2) else b a)
unfolding fill_audio
fill_audio_lem zero i b a = ground arith
fill_audio_lem (suc n) i b a =
    let filled : ℕ → ℕ =
      update (update b (i * 2 + 0) (sample_value i)) (i * 2 + 1) (sample_value i) in
    let ih = fill_audio_lem n (i + 1) filled a in
    elim (ℕ_discrete (a / 2) i) [
      | yes e ↦ rw e at ih ∙ rw e (ground arith)
      | no ne ↦ ground (arith, ih, ne)
    ]

-- A square wave of 50 stereo frames up and 50 down: 14464 and -14464 in 16 bits, the low byte first.
abbrev pub wave : ℕ → ℕ
wave i = if i % 2 == 0 then 0x80 else if ltb (i / 4 % 100) 50 then 0x38 else 0xC7

sample_byte : (i : ℕ) → i < 2048 → sample_value (i / 2 / 2) / 2 ^ (8 * (i % 2)) % 2 ^ 8 ≡ wave i
unfolding sample_value
sample_byte i lt = elim (ℕ_discrete (i % 2) 0) [
  | yes low ↦ rw low (ground (arith, lt))
  | no high ↦
      let one : i % 2 ≡ 1 = omega (arith, high) in
      let quarter : i / 2 / 2 ≡ i / 4 = omega arith in rw (one, quarter) (ground arith)
]

pub with_audio-wave : (buffer : Mem) (i : ℕ) → i < 2048 → with_audio buffer i ≡ wave i
unfolding with_audio
with_audio-wave buffer i lt =
    let f = fill_audio_lem 512 0 (λ j. buffer (2 * j) + 2 ^ 8 * buffer (2 * j + 1)) (i / 2) in
    let inside : ltb i 2048 ≡ true = ground (arith, lt) in
    let all : (leb (2 * 0) (i / 2) && ltb (i / 2) (2 * (0 + 512))) ≡ true = ground (arith, lt) in
    rw inside (rw f (rw all (sample_byte i lt)))
