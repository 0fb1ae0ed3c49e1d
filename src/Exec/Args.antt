-- ===== src/Exec/Args.antt =====
-- kernel/cpu/process.c (exec_program): the arguments on the stack of a new program, as the list of
-- the byte writes that the code does, the first of them first.
use capstone_myos.Prelude.{
  ℕ, ◌+◌, ◌-◌, ◌*◌, ◌/◌, ◌%◌, ◌^◌, List, [], ◌∷◌, ◌++◌, length, update, bit_and,
}
use capstone_myos.Strings.{Mem}
use capstone_myos.Exec.{bytes_at}

-- Subtraction on the 32 bits of a pointer.
abbrev pub sub_u32 : ℕ → ℕ → ℕ
sub_u32 a b = (a + (2 ^ 32 - b)) % 2 ^ 32

pub record UserStack : Type 0 where
  pub writes : List (ℕ × ℕ)
  pub user_argv : List ℕ
  pub user_stack_ptr : ℕ

-- The loop that copies the strings, the last argument first.
unfoldable pub push_strings : List (List ℕ) → ℕ → UserStack
push_strings [] top = record { writes = []; user_argv = []; user_stack_ptr = top }
push_strings (arg ∷ rest) top =
    let s = push_strings rest top in
    let p = sub_u32 s.user_stack_ptr (length arg + 1) in
    record {
      writes = s.writes ++ bytes_at p (arg ++ (0 ∷ []));
      user_argv = p ∷ s.user_argv;
      user_stack_ptr = p;
    }

-- A little-endian word.
abbrev pub word_at : ℕ → ℕ → List (ℕ × ℕ)
word_at va w =
    bytes_at va (w % 2 ^ 8 ∷ w / 2 ^ 8 % 2 ^ 8 ∷ w / 2 ^ 16 % 2 ^ 8 ∷ w / 2 ^ 24 % 2 ^ 8 ∷ [])

-- The array of the pointers and its NULL.
unfoldable pub push_pointers : List ℕ → ℕ → List (ℕ × ℕ)
push_pointers [] va = word_at va 0
push_pointers (p ∷ ps) va = word_at va p ++ push_pointers ps ((va + 4) % 2 ^ 32)

unfoldable pub push_args : List (List ℕ) → ℕ → UserStack
push_args args top =
    let s = push_strings args top in
    let argv_on_stack = sub_u32 (bit_and s.user_stack_ptr 0xFFFFFFFC) (4 * (length args + 1)) in
    record {
      writes =
          s.writes
          ++ push_pointers s.user_argv argv_on_stack
          ++ word_at (sub_u32 argv_on_stack 4) argv_on_stack
          ++ word_at (sub_u32 argv_on_stack 8) (length args);
      user_argv = s.user_argv;
      user_stack_ptr = sub_u32 argv_on_stack 8;
    }

-- The memory of the program, by virtual address, behind a sequence of writes.
unfoldable pub write : List (ℕ × ℕ) → Mem → Mem
write [] m = m
write ((va, byte) ∷ rest) m = write rest (update m va byte)
