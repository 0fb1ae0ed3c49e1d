-- ===== src/Paging/Tests.antt =====
-- A machine with four frames free after the start, and its first space.
use capstone_myos.Prelude.{
  ◌≡◌, ◌≢◌, refl, ◌+◌, ◌*◌, ◌/◌, ◌^◌, ◌<◌, ◌⊎◌, arith, false, some, ◌==◌, if◌then◌else◌,
}
use capstone_myos.Pmm.Alloc.{IsValid}
use capstone_myos.Pmm.{alloc_frame, scan, find_bit, set_bit}
use capstone_myos.Paging.{Machine, is_present, map_page, paging_init}
use capstone_myos.Paging.Map.{IsSpace}
use capstone_myos.Paging.Calls.{taken_frame}
use capstone_myos.Paging.Space.{Maps, Owns, map_page_lem}
use capstone_myos.Paging.Init.{dir_frame, table_frame, paging_init_lem}

-- Frames 0 to 15 are used.
abbrev start : Machine
start = record {
  mem = λ a. 0;
  pmm = record {
    bitmap = λ i. if i == 0 then 0xFFFF else 0;
    base = 0;
    total_frames = 64;
    bitmap_size = 8;
  };
  cr3 = 0;
  kernel_directory = 0;
}

first_frames : (dir_frame start ≡ 0x10000) × (table_frame start ≡ 0x11000)
unfolding alloc_frame scan find_bit set_bit
first_frames = (refl, refl)

start-IsValid : IsValid start.pmm
start-IsValid = record { words = λ i. ground arith; zero_used = refl; fits = omega arith }

two_frames : (dir_frame start ≢ 0) × (table_frame start ≢ 0)
unfolding alloc_frame scan find_bit set_bit
two_frames = ((λ e. omega arith), (λ e. omega arith))

paging_init_lem_example :
    ((paging_init start).cr3 ≡ dir_frame start)
    × ((paging_init start).kernel_directory ≡ dir_frame start)
    × IsSpace (paging_init start).mem (paging_init start).cr3
    × Owns (paging_init start)
paging_init_lem_example =
    paging_init_lem start (λ a. omega arith) start-IsValid two_frames.0 two_frames.1

-- The space that paging_init makes.
abbrev ready : Machine
ready = paging_init start

ready-IsSpace : IsSpace ready.mem ready.cr3
ready-IsSpace = (paging_init_lem start (λ a. omega arith) start-IsValid two_frames.0 two_frames.1).2

ready-Owns : Owns ready
ready-Owns = (paging_init_lem start (λ a. omega arith) start-IsValid two_frames.0 two_frames.1).3

next_frame : taken_frame ready < 2 ^ 22
unfolding paging_init alloc_frame scan find_bit set_bit
next_frame = omega arith

-- A page of user space at 128 MB, with no table so far.
map_page_lem_example :
    (m' : Machine) × (map_page 0x8000000 0x50000 7 ready ≡ some (tt, m'))
    × (Maps ready m' 0x8000000 0x50000
        ⊎ ((taken_frame ready ≡ 0)
            × (is_present (ready.mem (ready.cr3 + 4 * (0x8000000 / 2 ^ 22))) ≡ false)
            × (m'.mem ≡ ready.mem)
            × (m'.cr3 ≡ ready.cr3)))
map_page_lem_example =
    map_page_lem 0x8000000 0x50000 7 ready ready-IsSpace ready-Owns (omega arith) (omega arith)
      (omega arith) (omega arith) (omega arith) next_frame
