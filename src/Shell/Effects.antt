-- ===== src/Shell/Effects.antt =====
-- kernel/shell.c (process_command): what the commands do to the parts of the system that they reach. The
-- messages of exec_program and of the steps of a beep are left out.
use capstone_myos.Prelude.{true, ℕ, zero, suc, Option, none, some, List, [], ◌∷◌, ◌++◌}
use capstone_myos.Strings.{Mem, atoi_from}
use capstone_myos.Heap.{Heap, malloc, free}
use capstone_myos.Keyboard.{Keyboard}
use capstone_myos.Timer.{sleep}
use capstone_myos.Vga.{Vga, clear_screen, print_string}
use capstone_myos.Exec.Program.{System, Files}
use capstone_myos.Sound.Beep.{SoundState, sound_beep}
use capstone_myos.Sound.Probe.{Probe, sound_probe, probe_select}
use capstone_myos.Shell.Commands.{help, uptime, memtest, cat, ls, dump, dump_hex, ps, kill, run}

-- The names that process_command compares the first word with.
pub data Command : Type 0 where
  help_command cls_command uptime_command reboot_command memtest_command cat_command
        disktest_command sleep_command ls_command dump_command run_command ps_command kill_command
        vsbeep_command vsprobe_command unknown_command :
      Command

-- What the commands reach: processes and memory, the heap, the screen, the keyboard, the sound device,
-- the ports that were written, and the register device_feature_select of the sound device.
pub record Console : Type 0 where
  pub system : System
  pub heap : Heap
  pub vga : Vga
  pub keyboard : Keyboard
  pub sound : SoundState
  pub writes : List (ℕ × ℕ)
  pub feature_select : ℕ

-- The world of the commands: the files, the device's answers to a beep, its registers, and the sizes of
-- the loops.
pub record World : Type 0 where
  pub fuel : ℕ
  pub files : Files
  pub used : ℕ → ℕ → ℕ
  pub device : ℕ → Mem → Mem
  pub dma : ℕ
  pub padding : ℕ
  pub probe : Option Probe

-- A message; print_char enables the interrupts.
unfoldable pub say : List ℕ → Console → Console
say text c = record c {
  vga = print_string text c.vga;
  system = record c.system { interrupts = true };
}

unfoldable pub with_vga : Console → Option Vga → Option Console
with_vga c none = none
with_vga c (some v) = some (record c { vga = v })

unfoldable pub first_word : List (List ℕ) → Option (List ℕ)
first_word [] = none
first_word (w ∷ ws) = some w

-- A word's characters behind each other, with its end.
unfoldable pub stored : List ℕ → Mem
stored [] i = 0
stored (c ∷ cs) zero = c
stored (c ∷ cs) (suc i) = stored cs i

unfoldable pub argument_number : ℕ → List ℕ → Option ℕ
argument_number fuel w = atoi_from fuel (stored w) 0 0

-- The port that the keyboard controller answers with a reset of the machine: nothing that follows the
-- write is to be read off the result.
unfoldable pub reboot_effect : Console → Console
reboot_effect c =
    let c' =
      say
        (b'R' ∷ b'e' ∷ b'b' ∷ b'o' ∷ b'o' ∷ b't' ∷ b'i' ∷ b'n' ∷ b'g' ∷ b' ' ∷ b's' ∷ b'y' ∷ b's'
          ∷ b't' ∷ b'e' ∷ b'm' ∷ b'.' ∷ b'.' ∷ b'.' ∷ [])
        c in
    record c' { writes = c'.writes ++ ((0x64, 0xFE) ∷ []) }

unfoldable pub memtest_effect : Console → Option (Heap × Vga) → Option Console
memtest_effect c none = none
memtest_effect c (some (h, v)) = some (record c { heap = h; vga = v })

-- disktest: the first 32 bytes of sector 19.
unfoldable pub disktest_effect : World → Console → Option Console
disktest_effect w c = elim (malloc w.fuel 512 c.heap) [
  | none ↦ none
  | some (buffer, h) ↦ some (record c {
    heap = free buffer h;
    vga = dump_hex 32 (w.files.volume.sector 19) 0 (
        print_string
          (b'F' ∷ b'i' ∷ b'r' ∷ b's' ∷ b't' ∷ b' ' ∷ b'3' ∷ b'2' ∷ b' ' ∷ b'b' ∷ b'y' ∷ b't' ∷ b'e'
            ∷ b's' ∷ b':' ∷ b' ' ∷ [])
          (print_string
            (b'R' ∷ b'e' ∷ b'a' ∷ b'd' ∷ b'i' ∷ b'n' ∷ b'g' ∷ b' ' ∷ b'L' ∷ b'B' ∷ b'A' ∷ b' '
              ∷ b'1' ∷ b'9' ∷ b' ' ∷ b'(' ∷ b'r' ∷ b'o' ∷ b'o' ∷ b't' ∷ b' ' ∷ b'd' ∷ b'i' ∷ b'r'
              ∷ b')' ∷ b'.' ∷ b'.' ∷ b'.' ∷ 10 ∷ [])
            c.vga));
  })
]

-- sleep, with the argument if there is one.
unfoldable pub sleep_effect : ℕ → Option (List ℕ) → Console → Option Console
sleep_effect fuel none c = some (
    say
      (b'U' ∷ b's' ∷ b'a' ∷ b'g' ∷ b'e' ∷ b':' ∷ b' ' ∷ b's' ∷ b'l' ∷ b'e' ∷ b'e' ∷ b'p' ∷ b' '
        ∷ b'<' ∷ b'm' ∷ b'i' ∷ b'l' ∷ b'l' ∷ b'i' ∷ b's' ∷ b'e' ∷ b'c' ∷ b'o' ∷ b'n' ∷ b'd' ∷ b's'
        ∷ b'>' ∷ [])
      c)
sleep_effect fuel (some word) c = elim (argument_number fuel word) [
  | none ↦ none
  | some ms ↦ elim (sleep ms c.system.kernel) [
    | none ↦ none
    | some k ↦
        let said = say (b'm' ∷ b's' ∷ b'.' ∷ b'.' ∷ b'.' ∷ []) (
          say word (
            say
              (b'S' ∷ b'l' ∷ b'e' ∷ b'e' ∷ b'p' ∷ b'i' ∷ b'n' ∷ b'g' ∷ b' ' ∷ b'f' ∷ b'o' ∷ b'r'
                ∷ b' ' ∷ [])
              c)) in
        some (record said { system = record said.system { kernel = k } })
  ]
]

unfoldable pub run_effect : World → List (List ℕ) → Console → Option Console
run_effect w [] c = some (
    say
      (b'U' ∷ b's' ∷ b'a' ∷ b'g' ∷ b'e' ∷ b':' ∷ b' ' ∷ b'r' ∷ b'u' ∷ b'n' ∷ b' ' ∷ b'<' ∷ b'f'
        ∷ b'i' ∷ b'l' ∷ b'e' ∷ b'n' ∷ b'a' ∷ b'm' ∷ b'e' ∷ b'>' ∷ [])
      c)
run_effect w (name ∷ args) c =
    let (result, kb) = run w.fuel w.files (name ∷ args) c.keyboard c.system in
    elim result [
      | none ↦ none
      | some (outcome, system) ↦ some (record c { system = system; keyboard = kb })
    ]

-- kill, whose argument is read as a number if there is one.
unfoldable pub kill_with : Console → Option (System × Vga) → Option Console
kill_with c none = none
kill_with c (some (system, v)) = some (record c { system = system; vga = v })

unfoldable pub kill_effect : ℕ → Option (List ℕ) → Console → Option Console
kill_effect fuel none c = kill_with c (kill none c.system c.vga)
kill_effect fuel (some word) c = elim (argument_number fuel word) [
  | none ↦ none
  | some pid ↦ kill_with c (kill (some pid) c.system c.vga)
]

-- vsbeep. The clock interrupts that pass in its sleeps are not steps of it.
unfoldable pub vsbeep_effect : World → Console → Option Console
vsbeep_effect w c =
    let c' =
      say
        (b'T' ∷ b'e' ∷ b's' ∷ b't' ∷ b'i' ∷ b'n' ∷ b'g' ∷ b' ' ∷ b'v' ∷ b'i' ∷ b'r' ∷ b't' ∷ b'i'
          ∷ b'o' ∷ b'-' ∷ b's' ∷ b'o' ∷ b'u' ∷ b'n' ∷ b'd' ∷ b' ' ∷ b'c' ∷ b'o' ∷ b'n' ∷ b't' ∷ b'r'
          ∷ b'o' ∷ b'l' ∷ b' ' ∷ b'q' ∷ b'u' ∷ b'e' ∷ b'u' ∷ b'e' ∷ b'.' ∷ b'.' ∷ b'.' ∷ [])
        c in
    elim (sound_beep w.fuel w.used w.device w.dma w.padding c'.sound) [
      | none ↦ none
      | some sound ↦ some (
          say
            (b' ' ∷ b't' ∷ b'e' ∷ b's' ∷ b't' ∷ b' ' ∷ b'c' ∷ b'o' ∷ b'm' ∷ b'p' ∷ b'l' ∷ b'e'
              ∷ b't' ∷ b'e' ∷ b'.' ∷ [])
            (record c' { sound = sound }))
    ]

-- The branches of process_command. `line` is what its buffer reads as a string by then.
unfoldable pub execute : World → Command → List (List ℕ) → List ℕ → Console → Option Console
execute w help_command args line c = some (record c { vga = help c.vga })
execute w cls_command args line c = some (record c { vga = clear_screen c.vga })
execute w uptime_command args line c = some (record c { vga = uptime c.system.kernel.tick c.vga })
execute w reboot_command args line c = some (reboot_effect c)
execute w memtest_command args line c = memtest_effect c (memtest w.fuel c.heap c.vga)
execute w cat_command args line c = with_vga c (cat w.fuel w.files (first_word args) c.vga)
execute w disktest_command args line c = disktest_effect w c
execute w sleep_command args line c = sleep_effect w.fuel (first_word args) c
execute w ls_command args line c =
    some (record c { vga = ls w.files.root_dir_entries w.files.root_directory c.vga })
execute w dump_command args line c = some (record c { vga = dump w.files.root_directory c.vga })
execute w run_command args line c = run_effect w args c
execute w ps_command args line c = some (record c { vga = ps c.system.kernel c.vga })
execute w kill_command args line c = kill_effect w.fuel (first_word args) c
execute w vsbeep_command args line c = vsbeep_effect w c
execute w vsprobe_command args line c =
    let c' =
      say
        (b'P' ∷ b'r' ∷ b'o' ∷ b'b' ∷ b'i' ∷ b'n' ∷ b'g' ∷ b' ' ∷ b'v' ∷ b'i' ∷ b'r' ∷ b't' ∷ b'i'
          ∷ b'o' ∷ b'-' ∷ b's' ∷ b'o' ∷ b'u' ∷ b'n' ∷ b'd' ∷ b' ' ∷ b'd' ∷ b'e' ∷ b'v' ∷ b'i' ∷ b'c'
          ∷ b'e' ∷ b'.' ∷ b'.' ∷ b'.' ∷ 10 ∷ [])
        c in
    some (record c' {
      vga = sound_probe w.probe c'.vga;
      feature_select = probe_select w.probe c'.feature_select;
    })
execute w unknown_command args line c = some (
    say (10 ∷ []) (
      say line (
        say
          (b'U' ∷ b'n' ∷ b'k' ∷ b'n' ∷ b'o' ∷ b'w' ∷ b'n' ∷ b' ' ∷ b'c' ∷ b'o' ∷ b'm' ∷ b'm' ∷ b'a'
            ∷ b'n' ∷ b'd' ∷ b':' ∷ b' ' ∷ [])
          c)))
