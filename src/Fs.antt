-- ===== src/Fs.antt =====
-- kernel/fs/fs.c and include/kernel/fs.h: FAT12 entries, the search of the root directory, and the
-- reading of a file along its cluster chain. The FAT and the root directory are byte buffers; what
-- read_disk_sector (port input and output) delivers is the argument `sector`.
pub mod Entries
pub mod Find
pub mod Names
pub mod Read
pub mod Setup
mod Tests
use capstone_myos.Prelude.{
  ℕ, zero, suc, ◌+◌, ◌-◌, ◌*◌, ◌/◌, ◌%◌, ◌^◌, Bool, true, false, not, ◌&&◌, ◌||◌, Option, none,
  some, List, [], ◌∷◌, ◌++◌, ◌==◌, leb, ltb, if◌then◌else◌, window, bit_or, bit_and,
}
use capstone_myos.Strings.{Mem, toupper}

pub record Bpb : Type 0 where
  pub jump_code : List ℕ
  pub oem_name : List ℕ
  pub bytes_per_sector : ℕ
  pub sectors_per_cluster : ℕ
  pub reserved_sectors : ℕ
  pub num_fats : ℕ
  pub root_dir_entries : ℕ
  pub total_sectors : ℕ
  pub media_type : ℕ
  pub sectors_per_fat : ℕ
  pub sectors_per_track : ℕ
  pub num_heads : ℕ
  pub hidden_sectors : ℕ
  pub total_sectors_large : ℕ

pub record DirEntry : Type 0 where
  pub name : List ℕ
  pub extension : List ℕ
  pub attributes : ℕ
  pub reserved : ℕ
  pub creation_time_tenths : ℕ
  pub creation_time : ℕ
  pub creation_date : ℕ
  pub last_access_date : ℕ
  pub first_cluster_high : ℕ
  pub last_mod_time : ℕ
  pub last_mod_date : ℕ
  pub first_cluster_low : ℕ
  pub file_size : ℕ

-- Little-endian fields of a packed structure.
abbrev pub word16 : Mem → ℕ → ℕ
word16 m p = m p + m (p + 1) * 2 ^ 8

abbrev pub word32 : Mem → ℕ → ℕ
word32 m p = word16 m p + word16 m (p + 2) * 2 ^ 16

-- The structure that the buffer holds at `offset`.
unfoldable pub dir_entry : Mem → ℕ → DirEntry
dir_entry m offset = record {
  name = window m offset 8;
  extension = window m (offset + 8) 3;
  attributes = m (offset + 11);
  reserved = m (offset + 12);
  creation_time_tenths = m (offset + 13);
  creation_time = word16 m (offset + 14);
  creation_date = word16 m (offset + 16);
  last_access_date = word16 m (offset + 18);
  first_cluster_high = word16 m (offset + 20);
  last_mod_time = word16 m (offset + 22);
  last_mod_date = word16 m (offset + 24);
  first_cluster_low = word16 m (offset + 26);
  file_size = word32 m (offset + 28);
}

-- fs_get_fat_entry, with the FAT's bytes.
unfoldable pub get_fat_entry : Bpb → Mem → ℕ → ℕ
get_fat_entry bpb fat cluster =
    let offset = cluster * 3 / 2 in
    let entry = bit_or (fat (offset + 1) * 2 ^ 8) (fat offset) in
    if leb (bpb.sectors_per_fat * bpb.bytes_per_sector) (offset + 1)
    then 0xFFF
    else if cluster % 2 == 0
    then bit_and entry 0x0FFF
    else entry / 2 ^ 4

-- The loops of fs_find_file that convert a name, whose bytes before the NUL are a list: up to `n`
-- characters before a dot, and what is left.
unfoldable pub take_name : ℕ → List ℕ → List ℕ × List ℕ
take_name zero cs = ([], cs)
take_name (suc n) [] = ([], [])
take_name (suc n) (c ∷ cs) =
    let (taken, rest) = take_name n cs in
    if not (c == b'.') then (toupper c ∷ taken, rest) else ([], c ∷ cs)

unfoldable pub take_extension : ℕ → List ℕ → List ℕ × List ℕ
take_extension zero cs = ([], cs)
take_extension (suc n) [] = ([], [])
take_extension (suc n) (c ∷ cs) =
    let (taken, rest) = take_extension n cs in (toupper c ∷ taken, rest)

unfoldable pub skip_dot : List ℕ → List ℕ
skip_dot [] = []
skip_dot (c ∷ cs) = if c == b'.' then cs else c ∷ cs

-- `fat_name` was filled with blanks.
unfoldable pub padded : ℕ → List ℕ → List ℕ
padded zero cs = []
padded (suc n) [] = b' ' ∷ padded n []
padded (suc n) (c ∷ cs) = c ∷ padded n cs

-- The eight and the three characters of `fat_name`; `none` if characters are left over.
unfoldable pub with_extension : List ℕ → List ℕ × List ℕ → Option (List ℕ × List ℕ)
with_extension base (ext, []) = some (padded 8 base, padded 3 ext)
with_extension base (ext, c ∷ cs) = none

unfoldable pub with_base : List ℕ × List ℕ → Option (List ℕ × List ℕ)
with_base (base, rest) = with_extension base (take_extension 3 (skip_dot rest))

unfoldable pub fat_name : List ℕ → Option (List ℕ × List ℕ)
fat_name filename = with_base (take_name 8 filename)

-- memcmp(…) == 0 of two fields.
unfoldable pub same : List ℕ → List ℕ → Bool
same [] [] = true
same [] (y ∷ ys) = false
same (x ∷ xs) [] = false
same (x ∷ xs) (y ∷ ys) = x == y && same xs ys

unfoldable pub matches : List ℕ → List ℕ → Mem → ℕ → Bool
matches base ext m offset =
    let e = dir_entry m offset in
    not (m offset == 0xE5)
    && not (bit_and e.attributes 0x0F == 0x0F)
    && (bit_and e.attributes 0x08 == 0)
    && same base e.name
    && same ext e.extension

-- The search, with `n` entries left from `offset` on.
unfoldable pub search : ℕ → List ℕ → List ℕ → Mem → ℕ → Option ℕ
search zero base ext m offset = none
search (suc n) base ext m offset =
    let rest = search n base ext m (offset + 32) in
    if m offset == 0 then none else if matches base ext m offset then some offset else rest

-- fs_find_file on a root directory of `entries` entries: the offset of the one that it returns.
unfoldable pub find_file : ℕ → Mem → List ℕ → Option ℕ
find_file entries m filename = elim (fat_name filename) [
  | none ↦ none
  | some (base, ext) ↦ search entries base ext m 0
]

-- read_disk_sector into the DMA buffer, whose further bytes stay.
unfoldable pub load_sector : (ℕ → ℕ → ℕ) → ℕ → Mem → Mem
load_sector sector lba dma i = if ltb i 512 then sector lba i else dma i

-- memcpy from the DMA buffer to the file's buffer at `pos`.
unfoldable pub copy_from : Mem → Mem → ℕ → ℕ → ℕ → ℕ
copy_from dma file pos zero i = file i
copy_from dma file pos (suc n) i = if i == pos + n then dma n else copy_from dma file pos n i

-- The sector of a cluster: unsigned arithmetic of 32 bits.
unfoldable pub lba_of : ℕ → ℕ → ℕ
lba_of data_area_start_sector cluster = (data_area_start_sector + cluster + (2 ^ 32 - 2)) % 2 ^ 32

-- The volume: its parameters, its FAT, the start of its data area and its sectors.
pub record Volume : Type 0 where
  pub bpb : Bpb
  pub fat : Mem
  pub data_area_start_sector : ℕ
  pub sector : ℕ → ℕ → ℕ

unfoldable pub chunk : Volume → ℕ → ℕ → ℕ
chunk v size pos =
    let bytes_per_cluster = v.bpb.sectors_per_cluster * v.bpb.bytes_per_sector in
    if ltb bytes_per_cluster (size - pos) then bytes_per_cluster else size - pos

-- The loop of fs_read_file; `none` if `fuel` rounds were not enough. It leaves the file's buffer.
unfoldable pub read_clusters : ℕ → Volume → ℕ → ℕ → ℕ → Mem → Mem → Option Mem
read_clusters zero v size cluster pos dma file = none
read_clusters (suc fuel) v size cluster pos dma file = elim (ltb cluster 0xFF8) [
  | false ↦ some file
  | true ↦
      let dma' = load_sector v.sector (lba_of v.data_area_start_sector cluster) dma in
      let to_copy = chunk v size pos in
      read_clusters fuel v size (get_fat_entry v.bpb v.fat cluster) (pos + to_copy) dma'
        (copy_from dma' file pos to_copy)
]

-- fs_read_file; `malloc` tells whether the heap has so many bytes: `none` within the result is NULL,
-- and the outer one a loop that went on for more than `fuel` rounds.
unfoldable pub read_file : ℕ → (ℕ → Bool) → Volume → DirEntry → Mem → Mem → Option (Option Mem)
read_file fuel malloc v entry dma fresh =
    if entry.file_size == 0
    then some (if malloc 1 then some fresh else none)
    else if malloc entry.file_size
    then elim (read_clusters fuel v entry.file_size entry.first_cluster_low 0 dma fresh) [
      | none ↦ none
      | some file ↦ some (some file)
    ]
    else some none
