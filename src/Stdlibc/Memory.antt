-- ===== src/Stdlibc/Memory.antt =====
-- `memcpy`, `memmove` and `memset`. The memory has a byte at each address; an `int` is four of them
-- that are read together and then written together.
use mein_os.Prelude.{
  ℕ, zero, suc, ◌+◌, ◌-◌, ◌*◌, ◌/◌, ◌%◌, Bool, ◌&&◌, ltb, leb, ◌==◌, if◌then◌else◌,
}

abbrev pub Mem : Type 0
Mem = ℕ → ℕ

-- The address is one of the `n` from `d` on.
abbrev pub within : (d n a : ℕ) → Bool
within d n a = leb d a && ltb a (d + n)

-- `w` bytes read from `s` and then written to `d`
abbrev pub move : (w d s : ℕ) → Mem → Mem
move w d s m a = if within d w a then m (s + (a - d)) else m a

-- `for (i=0;i<count;i++) dest[i] = src[i];` with elements of `w` bytes
unfoldable pub forward : (w count d s : ℕ) → Mem → Mem
forward w zero d s m = m
forward w (suc count) d s m = forward w count (d + w) (s + w) (move w d s m)

-- `for (i=count;i>0;i--) dest[i-1] = src[i-1];`
unfoldable pub backward : (w count d s : ℕ) → Mem → Mem
backward w zero d s m = m
backward w (suc count) d s m = backward w count d s (move w (d + count * w) (s + count * w) m)

unfoldable pub memcpy : (dest src n : ℕ) → Mem → Mem
unfolding forward
memcpy dest src n m =
    let fast = n / 4 * 4 in
    if dest == src
    then m
    else forward 1 (n % 4) (dest + fast) (src + fast) (forward 4 (n / 4) dest src m)

unfoldable pub memmove : (dest src n : ℕ) → Mem → Mem
unfolding forward backward
memmove dest src n m =
    let fast = n / 4 * 4 in
    if dest == src
    then m
    else if ltb dest src
    then forward 1 (n % 4) (dest + fast) (src + fast) (forward 4 (n / 4) dest src m)
    else backward 4 (n / 4) dest src (backward 1 (n % 4) (dest + fast) (src + fast) m)

-- The loop of `memset` writes `val` as a byte.
unfoldable pub fill : (count d val : ℕ) → Mem → Mem
fill zero d val m = m
fill (suc count) d val m = fill count (d + 1) val (λ a. if a == d then val % 256 else m a)

unfoldable pub memset : (dest val n : ℕ) → Mem → Mem
unfolding fill
memset dest val n m = fill n dest val m
