-- ===== src/Libmeinos/Ringbuf/Exchange.antt =====
-- What is written to an empty buffer is read back, and where a write goes past the end of the block.
use mein_os.Prelude.{
  ℕ, ◌+◌, ◌%◌, ◌≤◌, ◌<◌, ◌≡◌, sym, ap, ◌∙◌, ◌⊎◌, inl, inr, false, none, some, List, [], ◌++◌, take,
  drop, length, min, arith, Bool-cases, ltb, ltb→lt, lt→ltb,
}
use native.Mathlib.Nat.{mod-lt, mod-eq_of_lt}
use mein_os.Llist.Mem.{eq_of_ne}
use mein_os.Libmeinos.Ringbuf.{Ringbuf, filled, read, room, store, write}
use mein_os.Libmeinos.Ringbuf.Block.{
  take_all, drop_all, size_add-small, size_sub-small, copy_out-inside, copy_in-outside,
}
use mein_os.Libmeinos.Ringbuf.Fill.{Holding, stored}
use mein_os.Libmeinos.Ringbuf.Transfer.{
  IsValid, contents, advanced, around, filled-way, read-contents,
}

room-behind : (r : Ringbuf) → IsValid r → r.rpos ≤ r.wpos → room r ≡ r.size
unfolding room
room-behind r v h =
    rw (behind, size_add-small r.rpos r.size (omega (arith, v.reads, v.small)))
      (size_sub-small (r.rpos + r.size) r.rpos (omega arith) (omega (arith, v.reads, v.small))
        ∙ omega arith)
  where
    behind : ltb r.wpos r.rpos ≡ false
    behind = ground (arith, h)

-- The bytes are more than the block has behind the write position, but the test looks at the read
-- position, which lies lower: the copy goes on past the end of the block.
pub write_overflows :
    (bytes : List ℕ) (r : Ringbuf)
    → IsValid r
    → r.rpos ≤ r.wpos
    → r.rpos + length bytes < r.size
    → r.size < r.wpos + length bytes
    → write bytes r ≡ none
unfolding write store
write_overflows bytes r v h near far =
    let n = length bytes in
    rw (
      room-behind r v h,
      all,
      eq_of_ne n 0 (λ z. ground (arith, z, far, v.writes)),
      size_add-small r.rpos n (omega (arith, near, v.small)),
      lt→ltb (r.rpos + n) r.size near,
      copy_out-inside bytes 0 n (omega arith),
      take_all n bytes (omega arith),
      copy_in-outside r.buf r.wpos bytes (omega (arith, far, v.block)),
    )
  where
    all : min (length bytes) r.size ≡ length bytes
    all = omega (arith, near)

module _ (bytes : List ℕ) (r : Ringbuf) (v : IsValid r) (empty : r.rpos ≡ r.wpos)
    (some_bytes : 0 < length bytes) (fits : length bytes < r.size) where
  -- The buffer after the write
  abbrev pub after_write : (block : List ℕ) → Ringbuf
  after_write block = record r { buf = block; wpos = (r.wpos + length bytes) % r.size }

  write-stored :
      (block : List ℕ)
      → Holding bytes r v empty some_bytes fits block
      → write bytes r ≡ some (length bytes, after_write block)
  unfolding write
  write-stored block s = rw (
    room-behind r v (omega (arith, empty)),
    all,
    eq_of_ne (length bytes) 0 (λ z. ground (arith, z, some_bytes)),
    s.stores,
    size_add-small r.wpos (length bytes) (omega (arith, fits, v.small, v.writes)),
  )
    where
      all : min (length bytes) r.size ≡ length bytes
      all = omega (arith, fits)

  after_write-IsValid :
      (block : List ℕ) → Holding bytes r v empty some_bytes fits block → IsValid (after_write block)
  after_write-IsValid block s = record {
    block = s.whole;
    reads = v.reads;
    writes = mod-lt (r.wpos + length bytes) (omega (arith, v.reads));
    small = v.small;
  }

  -- Where the write position lies now
  moved :
      ((r.wpos + length bytes) % r.size ≡ r.wpos + length bytes)
      ⊎ ((r.wpos + length bytes) % r.size + r.size ≡ r.wpos + length bytes)
  moved = elim (Bool-cases (ltb (r.wpos + length bytes) r.size)) [
    | inl e ↦ inl (mod-eq_of_lt (ltb→lt (r.wpos + length bytes) r.size e))
    | inr e ↦
        inr (
          around (r.wpos + length bytes) r.size (ground (arith, e)) (omega (arith, v.writes, fits)))
  ]

  filled-after_write :
      (block : List ℕ)
      → Holding bytes r v empty some_bytes fits block
      → filled (after_write block) ≡ length bytes
  filled-after_write block s =
      part moved (mod-lt (r.wpos + length bytes) (omega (arith, v.reads)))
        (filled-way (after_write block) (after_write-IsValid block s))
    where
      part :
          ((r.wpos + length bytes) % r.size ≡ r.wpos + length bytes)
            ⊎ ((r.wpos + length bytes) % r.size + r.size ≡ r.wpos + length bytes)
          → (r.wpos + length bytes) % r.size < r.size
          → ((r.rpos ≤ (r.wpos + length bytes) % r.size)
              × (filled (after_write block) + r.rpos ≡ (r.wpos + length bytes) % r.size))
            ⊎ (((r.wpos + length bytes) % r.size < r.rpos)
                × (filled (after_write block) + r.rpos ≡ (r.wpos + length bytes) % r.size + r.size))
          → filled (after_write block) ≡ length bytes
      part p l w = ground (arith, p, l, w, empty, some_bytes, fits, v.reads)

  contents-after_write :
      (block : List ℕ)
      → Holding bytes r v empty some_bytes fits block
      → contents (after_write block) ≡ bytes
  contents-after_write block s =
      ap (λ k. take k (drop r.rpos block ++ block)) (filled-after_write block s)
      ∙ ap (λ p. take (length bytes) (drop p block ++ block)) empty
      ∙ s.holds

  -- An empty buffer gets some bytes, fewer than its size, wherever its positions are. The write returns
  -- how many they are, a read of as many gives them back, and the buffer is empty again.
  pub read-write :
      (block : List ℕ) × (write bytes r ≡ some (length bytes, after_write block))
      × (read (length bytes) (after_write block)
          ≡ some (bytes, advanced (after_write block) (length bytes)))
      × (contents (advanced (after_write block) (length bytes)) ≡ [])
  read-write =
      let block = (stored bytes r v empty some_bytes fits).0 in
      let s = (stored bytes r v empty some_bytes fits).1 in
      let w = after_write block in
      let back = read-contents (length bytes) w (after_write-IsValid block s) in
      let waits = contents-after_write block s in
      let all : min (length bytes) (filled w) ≡ length bytes =
        omega (arith, filled-after_write block s) in
      (
        block,
        write-stored block s,
        back.0
            ∙ ap (λ n. some (take (length bytes) (contents w), advanced w n)) all
            ∙ ap (λ x. some (x, advanced w (length bytes)))
                (ap (take (length bytes)) waits ∙ take_all (length bytes) bytes (omega arith)),
        ap (λ n. contents (advanced w n)) (sym all)
            ∙ back.1
            ∙ ap (drop (length bytes)) waits
            ∙ drop_all (length bytes) bytes (omega arith),
      )
