-- ===== src/Strings.antt =====
-- kernel/lib/string.c: the freestanding string routines, over a byte memory. A pointer is an
-- address; a loop that C runs until it meets a NUL takes fuel, and `none` means that it ran out.
pub mod Scan
pub mod Blocks
pub mod Copy
pub mod Number
mod Tests
use capstone_myos.Prelude.{
  ℕ, zero, suc, ◌+◌, ◌-◌, ◌*◌, ◌%◌, ◌^◌, Bool, true, false, ◌&&◌, Option, none, some, leb, ltb,
  ◌==◌, not, if◌then◌else◌, update, ℤ, pos, sub_ℕ,
}

abbrev pub Mem : Type 0
Mem = ℕ → ℕ

unfoldable pub strcmp : ℕ → Mem → ℕ → ℕ → Option ℤ
strcmp zero m str1 str2 = none
strcmp (suc fuel) m str1 str2 = elim (not (m str1 == 0) && (m str1 == m str2)) [
  | true ↦ strcmp fuel m (str1 + 1) (str2 + 1)
  | false ↦ some (sub_ℕ (m str1) (m str2))
]

-- A `char` is signed: its value as a 32-bit word.
abbrev pub sign_extend : ℕ → ℕ
sign_extend c = if ltb c 128 then c else c + (2 ^ 32 - 256)

-- `res` as its 32-bit pattern: from 2 ^ 31 on it stands for a negative int. Where the int overflows, which
-- C leaves undefined, the pattern wraps as the processor's arithmetic does.
unfoldable pub atoi_from : ℕ → Mem → ℕ → ℕ → Option ℕ
atoi_from zero m str res = none
atoi_from (suc fuel) m str res = elim (m str == 0) [
  | true ↦ some res
  | false ↦ atoi_from fuel m (str + 1) ((res * 10 + sign_extend (m str) + (2 ^ 32 - 48)) % 2 ^ 32)
]

unfoldable pub atoi : ℕ → Mem → ℕ → Option ℕ
atoi fuel m str = atoi_from fuel m str 0

unfoldable pub memset : Mem → ℕ → ℕ → ℕ → Mem
memset m p c zero = m
memset m p c (suc n) = memset (update m p (c % 256)) (p + 1) c n

unfoldable pub memcmp : Mem → ℕ → ℕ → ℕ → ℤ
memcmp m p1 p2 zero = pos 0
memcmp m p1 p2 (suc n) =
    let rest = memcmp m (p1 + 1) (p2 + 1) n in
    if not (m p1 == m p2) then sub_ℕ (m p1) (m p2) else rest

unfoldable pub toupper : ℕ → ℕ
toupper c = if leb b'a' c && leb c b'z' then c - b'a' + b'A' else c

unfoldable pub strlen_from : ℕ → Mem → ℕ → ℕ → Option ℕ
strlen_from zero m str len = none
strlen_from (suc fuel) m str len = elim (m (str + len) == 0) [
  | true ↦ some len
  | false ↦ strlen_from fuel m str (len + 1)
]

unfoldable pub strlen : ℕ → Mem → ℕ → Option ℕ
strlen fuel m str = strlen_from fuel m str 0

unfoldable pub memcpy : Mem → ℕ → ℕ → ℕ → Mem
memcpy m d s zero = m
memcpy m d s (suc n) = memcpy (update m d (m s)) (d + 1) (s + 1) n

-- The first loop of strncpy, with at most `n` rounds left: the memory and the final `i`.
unfoldable pub copy_chars : ℕ → Mem → ℕ → ℕ → ℕ → Mem × ℕ
copy_chars zero m dest src i = (m, i)
copy_chars (suc n) m dest src i = elim (m (src + i) == 0) [
  | true ↦ (m, i)
  | false ↦ copy_chars n (update m (dest + i) (m (src + i))) dest src (i + 1)
]

-- The second loop, with `n` rounds left.
unfoldable pub pad_chars : ℕ → Mem → ℕ → ℕ → Mem
pad_chars zero m dest i = m
pad_chars (suc n) m dest i = pad_chars n (update m (dest + i) 0) dest (i + 1)

unfoldable pub strncpy : Mem → ℕ → ℕ → ℕ → Mem
strncpy m dest src n = let (m', i) = copy_chars n m dest src 0 in pad_chars (n - i) m' dest i
