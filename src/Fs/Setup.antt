-- ===== src/Fs/Setup.antt =====
-- kernel/fs/fs.c: init_fs. The buffers are bytes from their start; that the FAT and the root directory
-- stand in pages is modelled by the calls of Paging that map them. The heap's block for the boot
-- sector's parameters is left out.
use capstone_myos.Prelude.{
  ℕ, zero, suc, ◌+◌, ◌-◌, ◌*◌, ◌/◌, ◌%◌, ◌^◌, ◌≤◌, ◌≡◌, refl, Bool-cases, inl, inr, true, false,
  ◌&&◌, none, ◌==◌, leb, ltb, if◌then◌else◌, window, bit_or, arith,
}
use capstone_myos.Strings.{Mem}
use capstone_myos.Paging.{M, pure, ◌>>=◌, ◌>>◌, new_frame, release, map_page, flag_present, flag_rw}
use capstone_myos.Fs.{Bpb, Volume, word16, word32}

-- The packed structure at the start of sector 0.
unfoldable pub bpb_of : Mem → Bpb
bpb_of m = record {
  jump_code = window m 0 3;
  oem_name = window m 3 8;
  bytes_per_sector = word16 m 11;
  sectors_per_cluster = m 13;
  reserved_sectors = word16 m 14;
  num_fats = m 16;
  root_dir_entries = word16 m 17;
  total_sectors = word16 m 19;
  media_type = m 21;
  sectors_per_fat = word16 m 22;
  sectors_per_track = word16 m 24;
  num_heads = word16 m 26;
  hidden_sectors = word32 m 28;
  total_sectors_large = word32 m 32;
}

abbrev pub fat_virt_addr : ℕ
fat_virt_addr = 0x300000

-- The sizes and places that init_fs computes.
unfoldable pub fat_pages : Bpb → ℕ
fat_pages bpb = (bpb.sectors_per_fat * bpb.bytes_per_sector + 4096 - 1) / 4096

unfoldable pub root_start : Bpb → ℕ
root_start bpb = bpb.reserved_sectors + bpb.num_fats * bpb.sectors_per_fat

unfoldable pub root_size : Bpb → ℕ
root_size bpb = bpb.root_dir_entries * 32

unfoldable pub root_sectors : Bpb → ℕ
root_sectors bpb = (root_size bpb + bpb.bytes_per_sector - 1) / bpb.bytes_per_sector

unfoldable pub root_virt_addr : Bpb → ℕ
root_virt_addr bpb = (fat_virt_addr + fat_pages bpb * 4096) % 2 ^ 32

-- The loops that give a buffer its pages, `n` from the address on. The frames are not checked.
unfoldable pub map_buffer : ℕ → ℕ → M (Unit {0})
map_buffer zero va = pure tt
map_buffer (suc n) va = do
  phys_frame ← new_frame
  map_page va phys_frame (bit_or flag_present flag_rw)
  map_buffer n ((va + 4096) % 2 ^ 32)

-- read_disk_sector into a buffer, 512 bytes at `pos`.
unfoldable pub read_at : (ℕ → ℕ → ℕ) → ℕ → ℕ → Mem → Mem
read_at sector lba pos buffer i =
    if leb pos i && ltb i (pos + 512) then sector lba (i - pos) else buffer i

-- The loops that read `n` sectors, each `stride` bytes behind the one before.
unfoldable pub read_sectors : ℕ → (ℕ → ℕ → ℕ) → ℕ → ℕ → ℕ → Mem → Mem
read_sectors zero sector lba pos stride buffer = buffer
read_sectors (suc n) sector lba pos stride buffer =
    read_sectors n sector (lba + 1) (pos + stride) stride (read_at sector lba pos buffer)

pub record FileSystem : Type 0 where
  pub volume : Volume
  pub root_directory : Mem
  pub root_directory_size : ℕ

-- The globals that init_fs leaves, from what the pages held before.
unfoldable pub mounted : (ℕ → ℕ → ℕ) → Mem → Mem → Bpb → FileSystem
mounted sector fat_pages_held root_pages_held bpb = record {
  volume = record {
    bpb = bpb;
    fat =
        read_sectors bpb.sectors_per_fat sector bpb.reserved_sectors 0 bpb.bytes_per_sector
          fat_pages_held;
    data_area_start_sector = root_start bpb + root_sectors bpb;
    sector = sector;
  };
  root_directory = read_sectors (root_sectors bpb) sector (root_start bpb) 0 512 root_pages_held;
  root_directory_size = root_size bpb;
}

abbrev page_fault : M FileSystem
page_fault m = none

-- init_fs; a sector size of 0 is a division by zero.
unfoldable pub init_fs : (ℕ → ℕ → ℕ) → Mem → Mem → M FileSystem
init_fs sector fat_pages_held root_pages_held = do
  temp_buffer ← new_frame
  release temp_buffer
  let bpb = bpb_of (sector 0)
  elim (bpb.bytes_per_sector == 0) [
    | true ↦ page_fault
    | false ↦ do
      map_buffer (fat_pages bpb) fat_virt_addr
      map_buffer ((root_sectors bpb * 512 + 4096 - 1) / 4096) (root_virt_addr bpb)
      pure (mounted sector fat_pages_held root_pages_held bpb)
  ]

-- Sectors of 512 bytes that follow one another: each byte is that of its sector.
pub read_sectors_lem :
    (n : ℕ) (sector : ℕ → ℕ → ℕ) (lba pos : ℕ) (buffer : Mem) (i : ℕ)
    → read_sectors n sector lba pos 512 buffer i ≡ (
        if leb pos i && ltb i (pos + n * 512)
        then sector (lba + (i - pos) / 512) ((i - pos) % 512)
        else buffer i)
unfolding read_sectors read_at
read_sectors_lem zero sector lba pos buffer i = ground arith
read_sectors_lem (suc n) sector lba pos buffer i =
    let ih = read_sectors_lem n sector (lba + 1) (pos + 512) (read_at sector lba pos buffer) i in
    elim (Bool-cases (ltb i (pos + 512))) [
      | inl here ↦ elim (Bool-cases (leb pos i)) [
        | inl from ↦
            let q : (i - pos) / 512 ≡ 0 = ground (arith, here, from) in
            let r : (i - pos) % 512 ≡ i - pos = ground (arith, here, from) in
            let z : lba + 0 ≡ lba = omega arith in rw (ih, q, r, z) (ground (arith, here, from))
        | inr below ↦ rw ih (ground (arith, here, below))
      ]
      | inr behind ↦
          let far : pos + 512 ≤ i = ground (arith, behind) in
          let q : lba + 1 + (i - (pos + 512)) / 512 ≡ lba + (i - pos) / 512 = omega arith in
          let r : (i - (pos + 512)) % 512 ≡ (i - pos) % 512 = omega arith in
          rw (ih, q, r) (ground (arith, behind))
    ]

-- On a volume with sectors of 512 bytes, the buffers that the set-up fills hold, byte for byte, the
-- sectors of the first FAT behind the reserved ones, and those of the root directory behind all the
-- FATs; the data area begins behind them, and the room for the root directory holds all its entries.
pub mounted_lem :
    (sector : ℕ → ℕ → ℕ) (fat_pages_held root_pages_held : Mem) (bpb : Bpb) (i : ℕ)
    → bpb.bytes_per_sector ≡ 512
    → let fs = mounted sector fat_pages_held root_pages_held bpb in
      let root_lba = bpb.reserved_sectors + bpb.num_fats * bpb.sectors_per_fat in
      (fs.volume.fat i ≡ (
        if ltb i (bpb.sectors_per_fat * 512)
        then sector (bpb.reserved_sectors + i / 512) (i % 512)
        else fat_pages_held i))
      × (fs.root_directory i ≡ (
          if ltb i (root_sectors bpb * 512)
          then sector (root_lba + i / 512) (i % 512)
          else root_pages_held i))
      × (fs.volume.data_area_start_sector ≡ root_lba + root_sectors bpb)
      × (bpb.root_dir_entries * 32 ≤ root_sectors bpb * 512)
      × (bpb.sectors_per_fat * 512 ≤ fat_pages bpb * 4096)
unfolding mounted root_sectors root_size root_start fat_pages
mounted_lem sector fat_pages_held root_pages_held bpb i e =
    let fat = read_sectors_lem bpb.sectors_per_fat sector bpb.reserved_sectors 0 fat_pages_held i in
    let n = (root_size bpb + 512 - 1) / 512 in
    let root = read_sectors_lem n sector (root_start bpb) 0 root_pages_held i in
    let z : i - 0 ≡ i = omega arith in
    rw e
      ((rw (fat, z) (ground arith)), (rw (root, z) (ground arith)), refl, omega arith, omega arith)
