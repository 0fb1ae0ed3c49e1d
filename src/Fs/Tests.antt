-- ===== src/Fs/Tests.antt =====
-- A small volume: two files in the root directory, one of them in the clusters 2 and 5.
use capstone_myos.Prelude.{
  ℕ, ◌+◌, ◌*◌, ◌/◌, ◌%◌, ◌≤◌, ◌≡◌, refl, arith, true, ◌&&◌, some, List, [], ◌∷◌, ◌++◌, length, map,
  get_or, ◌==◌, ltb, if◌then◌else◌,
}
use capstone_myos.Strings.{Mem, toupper}
use capstone_myos.Fs.{
  Bpb, DirEntry, Volume, get_fat_entry, matches, dir_entry, same, fat_name, padded, with_base,
  with_extension, take_name, take_extension, skip_dot, search, find_file, read_file,
}
use capstone_myos.Fs.Entries.{put_fat_entry, get-put_fat_entry}
use capstone_myos.Fs.Find.{IsFirst, search-IsFirst}
use capstone_myos.Fs.Names.{fat_name_lem}
use capstone_myos.Fs.Setup.{mounted, root_sectors, fat_pages, mounted_lem}
use capstone_myos.Fs.Read.{IsChain, end, link, byte_at, read_file_lem}

-- The parameters of a floppy disk.
abbrev floppy : Bpb
floppy = record {
  jump_code = [];
  oem_name = [];
  bytes_per_sector = 512;
  sectors_per_cluster = 1;
  reserved_sectors = 1;
  num_fats = 2;
  root_dir_entries = 224;
  total_sectors = 2880;
  media_type = 0xF0;
  sectors_per_fat = 9;
  sectors_per_track = 18;
  num_heads = 2;
  hidden_sectors = 0;
  total_sectors_large = 0;
}

-- Cluster 2 leads to 5, and 5 to the end.
abbrev fat : Mem
fat i = get_or (0xF0 ∷ 0xFF ∷ 0xFF ∷ 5 ∷ 0 ∷ 0 ∷ 0 ∷ 0xF0 ∷ 0xFF ∷ []) i 0

second : get_fat_entry floppy fat 2 ≡ 5
unfolding get_fat_entry
second = refl

last : get_fat_entry floppy fat 5 ≡ 0xFFF
unfolding get_fat_entry
last = refl

get-put_fat_entry_example :
    get_fat_entry floppy (put_fat_entry (λ i. 0xAB) 3 0x123) 2
    ≡ (if 2 == 3 then 0x123 else get_fat_entry floppy (λ i. 0xAB) 2)
get-put_fat_entry_example =
    get-put_fat_entry floppy (λ i. 0xAB) 3 2 0x123 (λ i. omega arith) (omega arith) (omega arith)
      (omega arith)

-- A volume label, then A.TXT.
abbrev directory : Mem
directory i =
    get_or
      (b'A' ∷ b' ' ∷ b' ' ∷ b' ' ∷ b' ' ∷ b' ' ∷ b' ' ∷ b' ' ∷ b'T' ∷ b'X' ∷ b'T' ∷ 8 ∷ 0 ∷ 0 ∷ 0
        ∷ 0 ∷ 0 ∷ 0 ∷ 0 ∷ 0 ∷ 0 ∷ 0 ∷ 0 ∷ 0 ∷ 0 ∷ 0 ∷ 2 ∷ 0 ∷ 0 ∷ 0 ∷ 0 ∷ 0 ∷ b'A' ∷ b' ' ∷ b' '
        ∷ b' ' ∷ b' ' ∷ b' ' ∷ b' ' ∷ b' ' ∷ b'T' ∷ b'X' ∷ b'T' ∷ 0 ∷ [])
      i 0

found : find_file 224 directory (b'a' ∷ b'.' ∷ b't' ∷ b'x' ∷ b't' ∷ []) ≡ some 32
unfolding find_file fat_name with_base with_extension take_name take_extension skip_dot padded
    search matches same dir_entry toupper
found = refl

search-IsFirst_example :
    IsFirst 3
      (padded 8 (b'A' ∷ []))
      (padded 3 (b'T' ∷ []))
      directory
      0
      (search 3 (padded 8 (b'A' ∷ [])) (padded 3 (b'T' ∷ [])) directory 0)
search-IsFirst_example = search-IsFirst 3 (padded 8 (b'A' ∷ [])) (padded 3 (b'T' ∷ [])) directory 0

fat_name_lem_example :
    fat_name ((b'a' ∷ []) ++ b'.' ∷ b't' ∷ b'x' ∷ [])
    ≡ some (padded 8 (map toupper (b'a' ∷ [])), padded 3 (map toupper (b't' ∷ b'x' ∷ [])))
fat_name_lem_example =
    fat_name_lem (b'a' ∷ []) (b't' ∷ b'x' ∷ []) ((λ e. omega arith), tt) (omega arith) (omega arith)

abbrev clusters : List ℕ
clusters = 2 ∷ 5 ∷ []

abbrev volume : Volume
volume = record {
  bpb = floppy;
  fat = fat;
  data_area_start_sector = 33;
  sector = λ lba i. (lba + i) % 256;
}

abbrev file : DirEntry
file = record {
  name = [];
  extension = [];
  attributes = 0;
  reserved = 0;
  creation_time_tenths = 0;
  creation_time = 0;
  creation_date = 0;
  last_access_date = 0;
  first_cluster_high = 0;
  last_mod_time = 0;
  last_mod_date = 0;
  first_cluster_low = 2;
  file_size = 700;
}

chain : IsChain floppy fat 2 clusters
unfolding get_fat_entry
chain = link 2 (5 ∷ []) (omega arith) (link 5 [] (omega arith) (end 0xFFF (omega arith)))

read_file_lem_example :
    (after : Mem) × (read_file 3 (λ n. true) volume file (λ i. 0) (λ i. 0) ≡ some (some after))
    × ((i : ℕ)
        → after i
          ≡ (if ltb i 700 && ltb i (512 * length clusters) then byte_at volume clusters i else 0))
read_file_lem_example =
    read_file_lem 3 (λ n. true) volume file (λ i. 0) (λ i. 0) clusters (omega arith) chain
      (omega arith) (omega arith) refl

-- A FAT in which cluster 2 leads to itself.
abbrev cyclic : Volume
cyclic = record volume { fat = λ i. get_or (0xF0 ∷ 0xFF ∷ 0xFF ∷ 2 ∷ 0 ∷ []) i 0 }

self_loop : get_fat_entry floppy cyclic.fat 2 ≡ 2
unfolding get_fat_entry
self_loop = refl

mounted_lem_example :
    let fs = mounted (λ lba i. (lba + i) % 256) (λ i. 0) (λ i. 0) floppy in
    let root_lba = 1 + 2 * 9 in
    (fs.volume.fat 1000 ≡ (if ltb 1000 (9 * 512) then (1 + 1000 / 512 + 1000 % 512) % 256 else 0))
    × (fs.root_directory 1000 ≡ (
        if ltb 1000 (root_sectors floppy * 512)
        then (root_lba + 1000 / 512 + 1000 % 512) % 256
        else 0))
    × (fs.volume.data_area_start_sector ≡ root_lba + root_sectors floppy)
    × (224 * 32 ≤ root_sectors floppy * 512)
    × (9 * 512 ≤ fat_pages floppy * 4096)
mounted_lem_example = mounted_lem (λ lba i. (lba + i) % 256) (λ i. 0) (λ i. 0) floppy 1000 refl
