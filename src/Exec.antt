-- ===== src/Exec.antt =====
-- kernel/cpu/process.c (exec_program) and include/kernel/elf.h: the loading of a program. The file's
-- buffer is a function from offsets to bytes, without its block on the heap; user memory is written through the
-- translation of Paging.
pub mod Args
pub mod Written
pub mod Layout
pub mod Program
pub mod Space
pub mod Outcomes
mod Tests
use capstone_myos.Prelude.{
  ℕ, zero, suc, ◌+◌, ◌-◌, ◌*◌, ◌/◌, ◌%◌, ◌^◌, Bool, true, false, not, Option, none, some, List, [],
  ◌∷◌, ◌++◌, length, get_or, ◌==◌, ltb, if◌then◌else◌, update, bit_and, bit_or,
}
use capstone_myos.Process.{
  Task, TaskState, unused, running, CpuState, zero_cpu, Kernel, max_processes,
}
use capstone_myos.Paging.{
  Machine, M, pure, ◌>>=◌, ◌>>◌, translate, new_frame, map_page, flag_present, flag_rw, flag_user,
}
use capstone_myos.Paging.Directory.{clone_directory, free_directory, switch_directory}

-- Elf32_Ehdr and Elf32_Phdr.
pub record ElfHeader : Type 0 where
  pub magic : ℕ
  pub ident : List ℕ
  pub type : ℕ
  pub machine : ℕ
  pub version : ℕ
  pub entry : ℕ
  pub phoff : ℕ
  pub shoff : ℕ
  pub flags : ℕ
  pub ehsize : ℕ
  pub phentsize : ℕ
  pub phnum : ℕ
  pub shentsize : ℕ
  pub shnum : ℕ
  pub shstrndx : ℕ

pub record ProgramHeader : Type 0 where
  pub type : ℕ
  pub offset : ℕ
  pub vaddr : ℕ
  pub paddr : ℕ
  pub filesz : ℕ
  pub memsz : ℕ
  pub flags : ℕ
  pub align : ℕ

abbrev pub elf_magic : ℕ
elf_magic = 0x464C457F

abbrev pub user_stack_top : ℕ
user_stack_top = 0xC0000000

abbrev pub user_stack_pages : ℕ
user_stack_pages = 4

-- Bytes of the file's buffer, and the structures that the casts read.
abbrev pub half : (ℕ → ℕ) → ℕ → ℕ
half file p = file p + file (p + 1) * 2 ^ 8

abbrev pub word : (ℕ → ℕ) → ℕ → ℕ
word file p = half file p + half file (p + 2) * 2 ^ 16

abbrev pub bytes : ℕ → (ℕ → ℕ) → ℕ → List ℕ
bytes zero file p = []
bytes (suc n) file p = file p ∷ bytes n file (p + 1)

unfoldable pub elf_header : (ℕ → ℕ) → ElfHeader
elf_header file = record {
  magic = word file 0;
  ident = bytes 12 file 4;
  type = half file 16;
  machine = half file 18;
  version = word file 20;
  entry = word file 24;
  phoff = word file 28;
  shoff = word file 32;
  flags = word file 36;
  ehsize = half file 40;
  phentsize = half file 42;
  phnum = half file 44;
  shentsize = half file 46;
  shnum = half file 48;
  shstrndx = half file 50;
}

unfoldable pub program_header : (ℕ → ℕ) → ℕ → ProgramHeader
program_header file p = record {
  type = word file p;
  offset = word file (p + 4);
  vaddr = word file (p + 8);
  paddr = word file (p + 12);
  filesz = word file (p + 16);
  memsz = word file (p + 20);
  flags = word file (p + 24);
  align = word file (p + 28);
}

-- A byte at a virtual address: the byte of its word in memory.
unfoldable pub set_byte : ℕ → ℕ → ℕ → ℕ
set_byte value k byte = value / 256 ^ (k + 1) * 256 ^ (k + 1) + byte * 256 ^ k + value % 256 ^ k

unfoldable pub store_byte : ℕ → ℕ → M (Unit {0})
store_byte va byte m = elim (translate m.mem m.cr3 va) [
  | none ↦ none
  | some a ↦
      some (
        tt,
        record m { mem = update m.mem (a / 4 * 4) (set_byte (m.mem (a / 4 * 4)) (a % 4) byte) },
      )
]

-- A sequence of byte writes.
unfoldable pub store_bytes : List (ℕ × ℕ) → M (Unit {0})
store_bytes [] = pure tt
store_bytes ((va, byte) ∷ rest) = do store_byte va byte; store_bytes rest

abbrev pub bytes_at : ℕ → List ℕ → List (ℕ × ℕ)
bytes_at va [] = []
bytes_at va (b ∷ bs) = (va, b) ∷ bytes_at ((va + 1) % 2 ^ 32) bs

-- The loop that maps a segment, `n` pages from offset `p` on: false if a frame is missing.
unfoldable pub map_segment : ℕ → ℕ → ℕ → M Bool
map_segment zero vaddr p = pure true
map_segment (suc n) vaddr p = do
  frame ← new_frame
  elim (frame == 0) [
    | true ↦ pure false
    | false ↦ do
      map_page ((vaddr + p) % 2 ^ 32) frame (bit_or (bit_or flag_present flag_rw) flag_user)
      map_segment n vaddr (p + 4096)
  ]

abbrev pub zeros : ℕ → List ℕ
zeros zero = []
zeros (suc n) = 0 ∷ zeros n

-- One PT_LOAD segment: its pages, its data, and zeros behind.
unfoldable pub load_segment : (ℕ → ℕ) → ProgramHeader → M Bool
load_segment file h = do
  mapped ← map_segment ((h.memsz + 4095) / 4096) h.vaddr 0
  elim mapped [
    | false ↦ pure false
    | true ↦ do
      store_bytes (bytes_at h.vaddr (bytes h.filesz file h.offset))
      store_bytes (bytes_at ((h.vaddr + h.filesz) % 2 ^ 32) (zeros (h.memsz - h.filesz)))
      pure true
  ]

-- The loop over the program headers, `n` being left from the one at `p` on.
unfoldable pub load_segments : ℕ → (ℕ → ℕ) → ℕ → M Bool
load_segments zero file p = pure true
load_segments (suc n) file p = elim ((program_header file p).type == 1) [
  | false ↦ load_segments n file (p + 32)
  | true ↦ do
    loaded ← load_segment file (program_header file p)
    elim loaded [ false ↦ pure false | true ↦ load_segments n file (p + 32) ]
]

-- The user stack, `n` pages from page `i` below the top on.
unfoldable pub map_stack : ℕ → ℕ → M Bool
map_stack zero i = pure true
map_stack (suc n) i = do
  frame ← new_frame
  elim (frame == 0) [
    | true ↦ pure false
    | false ↦ do
      map_page (user_stack_top - (i + 1) * 4096) frame
          (bit_or (bit_or flag_present flag_rw) flag_user)
      map_stack n (i + 1)
  ]
