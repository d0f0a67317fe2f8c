-- ===== src/Stdlibc/Bounded.antt =====
-- The functions of string.c that search, compare and copy up to a number of bytes, and those that
-- are made of others.
use mein_os.Prelude.{
  ℕ, zero, suc, ◌+◌, ◌-◌, ◌*◌, ◌/◌, ◌%◌, ◌^◌, ◌&&◌, Option, none, some, ltb, ◌==◌, if◌then◌else◌,
}
use mathlib.Core.Option
use mein_os.Stdlibc.Memory.{Mem, memcpy}
use mein_os.Stdlibc.Strings.{strlen, strcpy, write, of_char, char_diff}

-- `memccpy`: the byte that is compared is read after the copy.
unfoldable pub memccpy : (dest src c n : ℕ) → Mem → Mem
memccpy dest src c zero m = m
memccpy dest src c (suc n) m =
    let m' = write dest (m src) m in
    let rest = memccpy (dest + 1) (src + 1) c n m' in if m' src == c % 256 then m' else rest

unfoldable pub memchr : (src c n : ℕ) → Mem → ℕ
memchr src c zero m = 0
memchr src c (suc n) m = let rest = memchr (src + 1) c n m in if m src == c % 256 then src else rest

-- An `int` in memory, the low byte first.
abbrev pub word : ℕ → Mem → ℕ
word p m = m p + 256 * m (p + 1) + 65536 * m (p + 2) + 16777216 * m (p + 3)

abbrev pub int_diff : ℕ → ℕ → ℕ
int_diff a b = (a + 2 ^ 32 - b) % 2 ^ 32

-- The two loops of `memcmp`: the difference where the first unequal pair is, or what follows.
unfoldable pub compare_words : (srca srcb count : ℕ) → Mem → (next : ℕ) → ℕ
compare_words srca srcb zero m next = next
compare_words srca srcb (suc count) m next =
    let rest = compare_words (srca + 4) (srcb + 4) count m next in
    if word srca m == word srcb m then rest else int_diff (word srca m) (word srcb m)

unfoldable pub compare_bytes : (srca srcb count : ℕ) → Mem → ℕ
compare_bytes srca srcb zero m = 0
compare_bytes srca srcb (suc count) m =
    let rest = compare_bytes (srca + 1) (srcb + 1) count m in
    if m srca == m srcb then rest else int_diff (m srca) (m srcb)

unfoldable pub memcmp : (srca srcb n : ℕ) → Mem → ℕ
unfolding compare_words compare_bytes
memcmp srca srcb n m =
    let fast = n / 4 * 4 in
    if srca == srcb
    then 0
    else compare_words srca srcb (n / 4) m (compare_bytes (srca + fast) (srcb + fast) (n % 4) m)

-- `strchr`: the loop stops at the low byte of `chr`, and the result compares with all of it.
unfoldable pub strchr : (fuel str chr : ℕ) → Mem → Option ℕ
strchr zero str chr m = none
strchr (suc fuel) str chr m =
    let rest = strchr fuel (str + 1) chr m in
    if m str == 0
    then some (if of_char (m str) == chr then str else 0)
    else if m str == chr % 256
    then some (if of_char (m str) == chr then str else 0)
    else rest

-- The loop of `strncmp`
unfoldable pub strncmp_from : (str1 str2 n : ℕ) → Mem → ℕ
strncmp_from str1 str2 zero m = 0
strncmp_from str1 str2 (suc n) m =
    let rest = strncmp_from (str1 + 1) (str2 + 1) n m in
    if m str1 == 0 && m str2 == 0
    then 0
    else if m str1 == m str2
    then rest
    else char_diff (m str1) (m str2)

unfoldable pub strncmp : (str1 str2 n : ℕ) → Mem → ℕ
unfolding strncmp_from
strncmp str1 str2 n m = if str1 == str2 then 0 else strncmp_from str1 str2 n m

-- `strncpy`: for `n` 0 the length less one wraps around.
unfoldable pub strncpy : (fuel dest src n : ℕ) → Mem → Option Mem
strncpy fuel dest src n m = elim (strlen fuel src m) [
  | none ↦ none
  | some k ↦
      let len = if ltb n (k + 1) then n else k + 1 in
      let last = (len + 2 ^ 32 - 1) % 2 ^ 32 in
      some (write ((dest + last) % 2 ^ 32) 0 (memcpy dest src last m))
]

-- `strcat`
unfoldable pub strcat : (fuel str1 str2 : ℕ) → Mem → Option Mem
strcat fuel str1 str2 m = elim (strlen fuel str1 m) [
  | none ↦ none
  | some k ↦ strcpy fuel (str1 + k) str2 m
]

-- The loop of `strncat`
unfoldable pub append : (dest src count : ℕ) → Mem → Mem
append dest src zero m = m
append dest src (suc count) m = append (dest + 1) (src + 1) count (write dest (m src) m)

unfoldable pub strncat : (fuel src1 src2 n : ℕ) → Mem → Option Mem
unfolding append
strncat fuel src1 src2 n m = elim (strlen fuel src2 m) [
  | none ↦ none
  | some k2 ↦ elim (strlen fuel src1 m) [
    | none ↦ none
    | some k1 ↦
        let count = if ltb n k2 then n else k2 in
        some (write (src1 + k1 + count) 0 (append (src1 + k1) src2 count m))
  ]
]

-- `strdup`, with the new block at `fresh`, which it returns
unfoldable pub strdup : (fuel fresh src : ℕ) → Mem → Option Mem
strdup fuel fresh src m = Option.map (λ k. memcpy fresh src (k + 1) m) (strlen fuel src m)
