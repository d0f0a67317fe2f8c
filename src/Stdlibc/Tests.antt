-- ===== src/Stdlibc/Tests.antt =====
-- The functions of string.c on a memory with two strings.
use mein_os.Prelude.{refl, [], ◌∷◌, arith, ◌==◌, if◌then◌else◌}
use mein_os.Stdlibc.Memory.{Mem, memmove}
use mein_os.Stdlibc.Copies.{Copied}
use mein_os.Stdlibc.Moves.{memmove-Copied}
use mein_os.Stdlibc.Strings.{IsString}

-- "ab" at 10 and "ac" at 20
abbrev memory : Mem
memory a =
    if a == 10
    then 97
    else if a == 11
    then 98
    else if a == 20
    then 97
    else if a == 21
    then 99
    else 0

memmove-Copied_example : Copied 7 12 10 memory (memmove 12 10 7 memory)
memmove-Copied_example = memmove-Copied 12 10 7 memory

ab : IsString memory 10 (97 ∷ 98 ∷ [])
ab = (refl, omega arith, omega arith, (refl, omega arith, omega arith, refl))

ac : IsString memory 20 (97 ∷ 99 ∷ [])
ac = (refl, omega arith, omega arith, (refl, omega arith, omega arith, refl))
