-- ===== src/Fs/Entries.antt =====
-- The 12-bit entries of the FAT, against a function that stores them in the format's layout: two
-- entries in three bytes.
use native.Mathlib.Decide.{ℕ_discrete}
use capstone_myos.Prelude.{
  ℕ, ◌+◌, ◌*◌, ◌/◌, ◌%◌, ◌^◌, ◌<◌, ◌≡◌, ◌≢◌, arith, ◌==◌, if◌then◌else◌, update, ◌∙◌, sym,
  bit_or-fields, bit_and-low, ==_refl, ==_of_ne,
}
use capstone_myos.Strings.{Mem}
use capstone_myos.Fs.{Bpb, get_fat_entry}

-- The layout: an even entry has a byte and the low half of the next, an odd one the high half of a
-- byte and the next.
abbrev pub put_fat_entry : Mem → ℕ → ℕ → Mem
put_fat_entry fat cluster value =
    let offset = cluster * 3 / 2 in
    if cluster % 2 == 0
    then update (update fat offset (value % 256)) (offset + 1)
        (fat (offset + 1) / 16 * 16 + value / 256)
    else update (update fat offset (fat offset % 16 + value % 16 * 16)) (offset + 1) (value / 16)

abbrev pub IsBytes : Mem → Type 0
IsBytes m = (i : ℕ) → m i < 256

-- The value that two bytes make, as arithmetic.
abbrev decoded : ℕ → ℕ → ℕ → ℕ
decoded cluster low high =
    if cluster % 2 == 0 then (high * 256 + low) % 4096 else (high * 256 + low) / 16

get_fat_entry-decoded :
    (bpb : Bpb) (fat : Mem) (cluster : ℕ)
    → fat (cluster * 3 / 2) < 256
    → cluster * 3 / 2 + 1 < bpb.sectors_per_fat * bpb.bytes_per_sector
    → get_fat_entry bpb fat cluster
      ≡ decoded cluster (fat (cluster * 3 / 2)) (fat (cluster * 3 / 2 + 1))
unfolding get_fat_entry
get_fat_entry-decoded bpb fat cluster small inside =
    let offset : ℕ = cluster * 3 / 2 in
    let word = bit_or-fields 8 (fat (offset + 1)) (fat offset) small in
    let low = bit_and-low 12 (fat (offset + 1) * 2 ^ 8 + fat offset) in
    rw word (ground (arith, low))

put-IsBytes :
    (fat : Mem) (cluster value : ℕ)
    → IsBytes fat
    → value < 4096
    → IsBytes (put_fat_entry fat cluster value)
put-IsBytes fat cluster value bytes small i =
    ground (arith, bytes i, bytes (cluster * 3 / 2), bytes (cluster * 3 / 2 + 1))

put_self :
    (fat : Mem) (cluster value : ℕ)
    → IsBytes fat
    → value < 4096
    → decoded cluster
        (put_fat_entry fat cluster value (cluster * 3 / 2))
        (put_fat_entry fat cluster value (cluster * 3 / 2 + 1))
      ≡ value
put_self fat cluster value bytes small = ground arith

put_other :
    (fat : Mem) (cluster other value : ℕ)
    → IsBytes fat
    → value < 4096
    → other ≢ cluster
    → decoded other
        (put_fat_entry fat cluster value (other * 3 / 2))
        (put_fat_entry fat cluster value (other * 3 / 2 + 1))
      ≡ decoded other (fat (other * 3 / 2)) (fat (other * 3 / 2 + 1))
put_other fat cluster other value bytes small ne =
    ground (arith, bytes (cluster * 3 / 2), bytes (other * 3 / 2))

-- fs_get_fat_entry decodes the format: an entry that is stored reads back as it was, and storing it
-- changes no other entry, for entries that lie within the FAT.
pub get-put_fat_entry :
    (bpb : Bpb) (fat : Mem) (cluster other value : ℕ)
    → IsBytes fat
    → value < 4096
    → cluster * 3 / 2 + 1 < bpb.sectors_per_fat * bpb.bytes_per_sector
    → other * 3 / 2 + 1 < bpb.sectors_per_fat * bpb.bytes_per_sector
    → get_fat_entry bpb (put_fat_entry fat cluster value) other
      ≡ (if other == cluster then value else get_fat_entry bpb fat other)
get-put_fat_entry bpb fat cluster other value bytes small inside inside_other =
    let read =
      get_fat_entry-decoded bpb (put_fat_entry fat cluster value) other
        (put-IsBytes fat cluster value bytes small (other * 3 / 2)) inside_other in
    elim (ℕ_discrete other cluster) [
      | yes e ↦
          rw (e, ==_refl cluster)
            (get_fat_entry-decoded bpb (put_fat_entry fat cluster value) cluster
                (put-IsBytes fat cluster value bytes small (cluster * 3 / 2)) inside
              ∙ put_self fat cluster value bytes small)
      | no ne ↦ rw (==_of_ne other cluster ne) (
          read
          ∙ put_other fat cluster other value bytes small ne
          ∙ sym (get_fat_entry-decoded bpb fat other (bytes (other * 3 / 2)) inside_other))
    ]
