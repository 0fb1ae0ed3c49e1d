-- ===== src/Fs/Read.antt =====
-- Reading a file: the bytes that arrive are those of the cluster chain, in order.
use capstone_myos.Prelude.{
  ℕ, zero, suc, ◌+◌, ◌-◌, ◌*◌, ◌/◌, ◌%◌, ◌<◌, ◌≤◌, ◌≡◌, arith, Bool, true, ◌&&◌, some, List, [],
  ◌∷◌, length, get_or, ltb, leb, if◌then◌else◌, ◌∙◌, ap, lt→ltb,
}
use capstone_myos.Strings.{Mem}
use capstone_myos.Fs.{
  Bpb, DirEntry, Volume, get_fat_entry, load_sector, copy_from, lba_of, chunk, read_clusters,
  read_file,
}

-- The clusters from `c` to an end mark.
pub data IsChain (bpb : Bpb) (fat : Mem) : ℕ → List ℕ → Type 0 where
  end : (c : ℕ) → 0xFF8 ≤ c → IsChain bpb fat c []
  link :
      (c : ℕ) (cs : List ℕ)
      → c < 0xFF8
      → IsChain bpb fat (get_fat_entry bpb fat c) cs
      → IsChain bpb fat c (c ∷ cs)

-- Byte `i` of the clusters, at 512 bytes each.
abbrev pub byte_at : Volume → List ℕ → ℕ → ℕ
byte_at v cs i = v.sector (lba_of v.data_area_start_sector (get_or cs (i / 512) 0)) (i % 512)

copy_from_lem :
    (n : ℕ) (dma file : Mem) (pos i : ℕ)
    → copy_from dma file pos n i ≡ (if leb pos i && ltb i (pos + n) then dma (i - pos) else file i)
unfolding copy_from
copy_from_lem zero dma file pos i = ground arith
copy_from_lem (suc n) dma file pos i = ground (arith, copy_from_lem n dma file pos i)

-- What the loop leaves from `pos` on, when the clusters still to come are `cs`.
abbrev Delivered : Volume → List ℕ → ℕ → ℕ → Mem → Mem → Type 0
Delivered v cs size pos before after =
    (i : ℕ)
    → after i ≡ (
        if leb pos i && (ltb i size && ltb i (pos + 512 * length cs))
        then byte_at v cs (i - pos)
        else before i)

byte_at-first :
    (v : Volume) (c : ℕ) (cs : List ℕ) (j : ℕ)
    → j < 512
    → byte_at v (c ∷ cs) j ≡ v.sector (lba_of v.data_area_start_sector c) j
byte_at-first v c cs j lt =
    let q : j / 512 ≡ 0 = omega arith in
    let r : j % 512 ≡ j = omega arith in
    let start : ℕ = v.data_area_start_sector in
    ap (λ (x : ℕ). v.sector (lba_of start (get_or (c ∷ cs) x 0)) (j % 512)) q
    ∙ ap (λ (x : ℕ). v.sector (lba_of start c) x) r

byte_at-later :
    (v : Volume) (c : ℕ) (cs : List ℕ) (j : ℕ) → byte_at v (c ∷ cs) (j + 512) ≡ byte_at v cs j
byte_at-later v c cs j =
    let q : (j + 512) / 512 ≡ suc (j / 512) = omega arith in
    let r : (j + 512) % 512 ≡ j % 512 = omega arith in
    let start : ℕ = v.data_area_start_sector in
    ap (λ (x : ℕ). v.sector (lba_of start (get_or (c ∷ cs) x 0)) ((j + 512) % 512)) q
    ∙ ap (λ (x : ℕ). v.sector (lba_of start (get_or cs (j / 512) 0)) x) r

load_sector-lt :
    (sector : ℕ → ℕ → ℕ) (lba : ℕ) (dma : Mem) (i : ℕ)
    → i < 512
    → load_sector sector lba dma i ≡ sector lba i
unfolding load_sector
load_sector-lt sector lba dma i lt = ground arith

chunk_lem :
    (v : Volume) (size pos : ℕ)
    → v.bpb.sectors_per_cluster * v.bpb.bytes_per_sector ≡ 512
    → chunk v size pos ≡ (if ltb 512 (size - pos) then 512 else size - pos)
unfolding chunk
chunk_lem v size pos geometry = rw geometry

-- One round and the rest.
Delivered-link :
    (v : Volume) (c : ℕ) (cs : List ℕ) (size pos : ℕ) (dma file after : Mem)
    → pos ≤ size
    → v.bpb.sectors_per_cluster * v.bpb.bytes_per_sector ≡ 512
    → Delivered v cs size
        (pos + chunk v size pos)
        (copy_from
          (load_sector v.sector (lba_of v.data_area_start_sector c) dma)
          file
          pos
          (chunk v size pos))
        after
    → Delivered v (c ∷ cs) size pos file after
Delivered-link v c cs size pos dma file after le geometry rest i =
    let dma1 : Mem = load_sector v.sector (lba_of v.data_area_start_sector c) dma in
    ground (
      arith,
      rest i,
      copy_from_lem (chunk v size pos) dma1 file pos i,
      chunk_lem v size pos geometry,
      load_sector-lt v.sector (lba_of v.data_area_start_sector c) dma (i - pos),
      byte_at-first v c cs (i - pos),
      byte_at-later v c cs (i - (pos + 512)),
    )

read-end :
    (fuel : ℕ) (v : Volume) (size c pos : ℕ) (dma file : Mem)
    → 0xFF8 ≤ c
    → read_clusters (suc fuel) v size c pos dma file ≡ some file
unfolding read_clusters
read-end fuel v size c pos dma file h = ground arith

read-link :
    (fuel : ℕ) (v : Volume) (size c pos : ℕ) (dma file : Mem)
    → c < 0xFF8
    → read_clusters (suc fuel) v size c pos dma file
      ≡ read_clusters fuel v size
          (get_fat_entry v.bpb v.fat c)
          (pos + chunk v size pos)
          (load_sector v.sector (lba_of v.data_area_start_sector c) dma)
          (copy_from
            (load_sector v.sector (lba_of v.data_area_start_sector c) dma)
            file
            pos
            (chunk v size pos))
unfolding read_clusters
read-link fuel v size c pos dma file h = rw (lt→ltb c 0xFF8 h, read_clusters)

chunk_fits :
    (v : Volume) (size pos : ℕ)
    → pos ≤ size
    → v.bpb.sectors_per_cluster * v.bpb.bytes_per_sector ≡ 512
    → pos + chunk v size pos ≤ size
chunk_fits v size pos le geometry = rw (chunk_lem v size pos geometry) (ground arith)

read-chain :
    (fuel : ℕ) (v : Volume) (size c pos : ℕ) (dma file : Mem) (cs : List ℕ)
    → v.bpb.sectors_per_cluster * v.bpb.bytes_per_sector ≡ 512
    → IsChain v.bpb v.fat c cs
    → length cs < fuel
    → pos ≤ size
    → (after : Mem) × (read_clusters fuel v size c pos dma file ≡ some after)
      × Delivered v cs size pos file after
read-chain zero v size c pos dma file cs geometry chain enough le = absurd (omega arith)
read-chain (suc fuel) v size c pos dma file [] geometry (end _ h) enough le =
    (file, read-end fuel v size c pos dma file h, λ i. ground arith)
read-chain (suc fuel) v size c pos dma file (_ ∷ _) geometry (link _ cs h chain) enough le =
    let dma1 : Mem = load_sector v.sector (lba_of v.data_area_start_sector c) dma in
    let file1 : Mem = copy_from dma1 file pos (chunk v size pos) in
    let (after, e, d) =
      read-chain fuel v size (get_fat_entry v.bpb v.fat c) (pos + chunk v size pos) dma1 file1 cs
        geometry chain (omega arith) (chunk_fits v size pos le geometry) in
    (
      after,
      read-link fuel v size c pos dma file h ∙ e,
      Delivered-link v c cs size pos dma file after le geometry d,
    )

read_file-some :
    (fuel : ℕ) (malloc : ℕ → Bool) (v : Volume) (entry : DirEntry) (dma fresh after : Mem)
    → 0 < entry.file_size
    → malloc entry.file_size ≡ true
    → read_clusters fuel v entry.file_size entry.first_cluster_low 0 dma fresh ≡ some after
    → read_file fuel malloc v entry dma fresh ≡ some (some after)
unfolding read_file
read_file-some fuel malloc v entry dma fresh after pos room e = ground arith

-- On a volume with 512 bytes in a cluster, for a file whose chain of clusters reaches an end mark and
-- for which the heap has room, fs_read_file returns after as many rounds as the chain has clusters,
-- and its buffer holds the bytes of the clusters in the chain's order, up to the file's size or the
-- end of the chain, and nothing is written behind.
pub read_file_lem :
    (fuel : ℕ) (malloc : ℕ → Bool) (v : Volume) (entry : DirEntry) (dma fresh : Mem) (cs : List ℕ)
    → v.bpb.sectors_per_cluster * v.bpb.bytes_per_sector ≡ 512
    → IsChain v.bpb v.fat entry.first_cluster_low cs
    → length cs < fuel
    → 0 < entry.file_size
    → malloc entry.file_size ≡ true
    → (after : Mem) × (read_file fuel malloc v entry dma fresh ≡ some (some after))
      × ((i : ℕ)
          → after i ≡ (
              if ltb i entry.file_size && ltb i (512 * length cs) then byte_at v cs i else fresh i))
read_file_lem fuel malloc v entry dma fresh cs geometry chain enough pos room =
    let (after, e, d) =
      read-chain fuel v entry.file_size entry.first_cluster_low 0 dma fresh cs geometry chain enough
        (omega arith) in
    (after, read_file-some fuel malloc v entry dma fresh after pos room e, λ i. d i ∙ ground arith)
