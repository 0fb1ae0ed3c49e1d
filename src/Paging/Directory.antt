-- ===== src/Paging/Directory.antt =====
-- kernel/mm/paging.c: the calls that make, free and print whole directories.
use capstone_myos.Prelude.{
  ℕ, zero, suc, ◌+◌, ◌*◌, ◌/◌, ◌^◌, true, false, some, List, [], ◌∷◌, ◌++◌, ◌==◌, if◌then◌else◌,
  bit_and, bit_or,
}
use capstone_myos.Debug.{debug_hex}
use capstone_myos.Paging.{
  M, pure, ◌>>=◌, ◌>>◌, load, store, new_frame, release, zero_words, map_page, page_of, is_present,
  pde_addr, pte_addr, temp_pagedir, temp_pagetable, flag_present, flag_rw, flag_user,
}

-- The loop of paging_clone_directory over `n` entries from `i` on.
unfoldable pub copy_entries : ℕ → ℕ → M (Unit {0})
copy_entries zero i = pure tt
copy_entries (suc n) i = do
  e ← load (pde_addr i)
  elim (is_present e) [ true ↦ store (temp_pagedir + 4 * i) e | false ↦ pure tt ]
  copy_entries n (i + 1)

-- paging_clone_directory; 0 is NULL. The directory that the code takes as an argument is not read.
unfoldable pub clone_directory : M ℕ
clone_directory = do
  new_dir ← new_frame
  elim (new_dir == 0) [
    | true ↦ pure 0
    | false ↦ do
      map_page temp_pagedir new_dir (bit_or flag_present flag_rw)
      zero_words 1024 temp_pagedir
      first ← load (pde_addr 0)
      store (temp_pagedir + 4 * 0) first
      copy_entries 255 768
      store (temp_pagedir + 4 * 1023) (bit_or (bit_or new_dir flag_present) flag_rw)
      map_page temp_pagedir 0 0
      pure new_dir
  ]

-- The inner loop of paging_free_directory, over `n` entries of the table from `j` on.
unfoldable pub free_pages : ℕ → ℕ → M (Unit {0})
free_pages zero j = pure tt
free_pages (suc n) j = do
  pte ← load (temp_pagetable + 4 * j)
  elim (is_present pte) [ true ↦ release (page_of pte) | false ↦ pure tt ]
  free_pages n (j + 1)

unfoldable pub free_table : ℕ → M (Unit {0})
free_table pde = do
  map_page temp_pagetable (page_of pde) (bit_or flag_present flag_rw)
  free_pages 1024 0
  map_page temp_pagetable 0 0
  release (page_of pde)

-- Its outer loop, over `n` entries of the directory from `i` on.
unfoldable pub free_tables : ℕ → ℕ → M (Unit {0})
free_tables zero i = pure tt
free_tables (suc n) i = do
  pde ← load (temp_pagedir + 4 * i)
  elim (is_present pde) [ true ↦ free_table pde | false ↦ pure tt ]
  free_tables n (i + 1)

unfoldable pub free_directory : ℕ → M (Unit {0})
free_directory dir = elim (dir == 0) [
  | true ↦ pure tt
  | false ↦ do
    map_page temp_pagedir dir (bit_or flag_present flag_rw)
    free_tables 767 1
    map_page temp_pagedir 0 0
    release dir
]

unfoldable pub switch_directory : ℕ → M (Unit {0})
switch_directory dir m = some (tt, record m { cr3 = dir })

-- The flags of an entry, in the debug output.
unfoldable pub flag_text : ℕ → List ℕ
flag_text entry =
    (if bit_and entry flag_present == 0 then [] else (b'P' ∷ b' ' ∷ []))
    ++ (if bit_and entry flag_rw == 0 then [] else (b'R' ∷ b'W' ∷ b' ' ∷ []))
    ++ (if bit_and entry flag_user == 0 then [] else (b'U' ∷ b' ' ∷ []))

-- paging_dump_entry_for_addr: the text.
unfoldable pub dump_entry : ℕ → M (List ℕ)
dump_entry va = do
  pde ← load (pde_addr (va / 2 ^ 22))
  let head =
      (b'-' ∷ b'-' ∷ b' ' ∷ b'P' ∷ b'A' ∷ b'G' ∷ b'I' ∷ b'N' ∷ b'G' ∷ b' ' ∷ b'D' ∷ b'U' ∷ b'M'
        ∷ b'P' ∷ b' ' ∷ b'f' ∷ b'o' ∷ b'r' ∷ b' ' ∷ b'V' ∷ b'A' ∷ b':' ∷ b' ' ∷ [])
      ++ debug_hex va
      ++ (b' ' ∷ b'-' ∷ b'-' ∷ 10 ∷ [])
      ++ (b' ' ∷ b' ' ∷ b'P' ∷ b'D' ∷ b'E' ∷ b' ' ∷ b'i' ∷ b'n' ∷ b'd' ∷ b'e' ∷ b'x' ∷ b':' ∷ b' '
          ∷ [])
      ++ debug_hex (va / 2 ^ 22)
      ++ (b' ' ∷ b' ' ∷ b' ' ∷ b'P' ∷ b'D' ∷ b'E' ∷ b' ' ∷ b'v' ∷ b'a' ∷ b'l' ∷ b'u' ∷ b'e' ∷ b':'
          ∷ b' ' ∷ [])
      ++ debug_hex pde
      ++ (b' ' ∷ b'[' ∷ [])
      ++ flag_text pde
      ++ (b']' ∷ 10 ∷ [])
  elim (is_present pde) [
    | false ↦ pure head
    | true ↦ do
      pte ← load (pte_addr (va / 2 ^ 22) (bit_and (va / 2 ^ 12) 0x3FF))
      pure (
          head
          ++ (b' ' ∷ b' ' ∷ b'P' ∷ b'T' ∷ b'E' ∷ b' ' ∷ b'i' ∷ b'n' ∷ b'd' ∷ b'e' ∷ b'x' ∷ b':'
              ∷ b' ' ∷ [])
          ++ debug_hex (bit_and (va / 2 ^ 12) 0x3FF)
          ++ (b' ' ∷ b' ' ∷ b' ' ∷ b'P' ∷ b'T' ∷ b'E' ∷ b' ' ∷ b'v' ∷ b'a' ∷ b'l' ∷ b'u' ∷ b'e'
              ∷ b':' ∷ b' ' ∷ [])
          ++ debug_hex pte
          ++ (b' ' ∷ b'[' ∷ [])
          ++ flag_text pte
          ++ (b']' ∷ b' ' ∷ b'-' ∷ b'>' ∷ b' ' ∷ b'm' ∷ b'a' ∷ b'p' ∷ b's' ∷ b' ' ∷ b't' ∷ b'o'
              ∷ b' ' ∷ b'p' ∷ b'h' ∷ b'y' ∷ b's' ∷ b'i' ∷ b'c' ∷ b'a' ∷ b'l' ∷ b':' ∷ b' ' ∷ [])
          ++ debug_hex (page_of pte)
          ++ (10 ∷ []))
  ]
