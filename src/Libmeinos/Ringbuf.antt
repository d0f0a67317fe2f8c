-- ===== src/Libmeinos/Ringbuf.antt =====
-- apps/lib/libmeinos/ringbuf.c: a ring buffer. A copy outside of a block of memory is `none`.
pub mod Block
pub mod Transfer
pub mod Fill
pub mod Exchange
mod Tests
use mein_os.Prelude.{
  ℕ, ◌+◌, ◌-◌, ◌%◌, ◌^◌, Bool, Option, none, some, List, [], ◌++◌, take, drop, length, replicate,
  min, ◌==◌, if◌then◌else◌, ltb, leb,
}

-- `ringbuf_t`, with the block that `buf` points to
pub record Ringbuf : Type 0 where
  pub buf : List ℕ
  pub size : ℕ
  pub rpos : ℕ
  pub wpos : ℕ

-- `size_t` has 32 bits.
abbrev pub size_add : ℕ → ℕ → ℕ
size_add a b = (a + b) % 2 ^ 32

abbrev pub size_sub : ℕ → ℕ → ℕ
size_sub a b = (a + 2 ^ 32 - b) % 2 ^ 32

-- `memcpy` of `n` bytes from an offset of a block
unfoldable pub copy_out : (block : List ℕ) (offset n : ℕ) → Option (List ℕ)
copy_out block offset n =
    if leb (offset + n) (length block) then some (take n (drop offset block)) else none

-- `memcpy` of bytes to an offset of a block
unfoldable pub copy_in : (block : List ℕ) (offset : ℕ) (bytes : List ℕ) → Option (List ℕ)
copy_in block offset bytes =
    if leb (offset + length bytes) (length block)
    then some (take offset block ++ (bytes ++ drop (offset + length bytes) block))
    else none

-- What follows a copy that stays in its block
abbrev pub then_copy : {A B : Type 0} → Option A → (A → Option B) → Option B
then_copy none k = none
then_copy (some x) k = k x

-- `ringbuf_create`, with the bytes that `malloc` gives
unfoldable pub create : (block : List ℕ) (size : ℕ) → Ringbuf
create block size = record { buf = block; size = size; rpos = 0; wpos = 0 }

-- The first value of `size_free` in `ringbuf_read`, which is what the buffer holds
unfoldable pub filled : Ringbuf → ℕ
filled r =
    if leb r.rpos r.wpos then size_sub r.wpos r.rpos else size_sub (size_add r.wpos r.size) r.rpos

-- The bytes that `ringbuf_read` copies, in one part or in two
unfoldable pub fetch : (n : ℕ) → Ringbuf → Option (List ℕ)
fetch n r =
    if ltb (size_add r.rpos n) r.size
    then copy_out r.buf r.rpos n
    else let part1 = size_sub r.size r.rpos in
      then_copy (copy_out r.buf r.rpos part1)
        λ bytes1. then_copy (copy_out r.buf 0 (size_sub n part1)) λ bytes2. some (bytes1 ++ bytes2)

-- `ringbuf_read`: the bytes that it copies, whose number it returns, and the buffer
unfoldable pub read : (size : ℕ) → Ringbuf → Option (List ℕ × Ringbuf)
read size r =
    let n = min size (filled r) in
    if n == 0
    then some ([], r)
    else then_copy (fetch n r) λ bytes. some (bytes, record r { rpos = size_add r.rpos n % r.size })

-- The value of `size_free` in `ringbuf_write`
unfoldable pub room : Ringbuf → ℕ
room r =
    if ltb r.wpos r.rpos then size_sub r.rpos r.wpos else size_sub (size_add r.rpos r.size) r.rpos

-- The copies of `ringbuf_write`
unfoldable pub store : (n : ℕ) (bytes : List ℕ) → Ringbuf → Option (List ℕ)
store n bytes r =
    if ltb (size_add r.rpos n) r.size
    then then_copy (copy_out bytes 0 n) (λ part. copy_in r.buf r.wpos part)
    else let part1 = size_sub r.size r.wpos in
      then_copy (copy_out bytes 0 part1) λ bytes1. then_copy (copy_in r.buf r.wpos bytes1) λ block.
        then_copy (copy_out bytes part1 (size_sub n part1)) λ bytes2. copy_in block 0 bytes2

-- `ringbuf_write`: its result and the buffer
unfoldable pub write : (bytes : List ℕ) → Ringbuf → Option (ℕ × Ringbuf)
write bytes r =
    let n = min (length bytes) (room r) in
    if n == 0
    then some (0, r)
    else then_copy (store n bytes r)
        λ block. some (n, record r { buf = block; wpos = size_add r.wpos n % r.size })
