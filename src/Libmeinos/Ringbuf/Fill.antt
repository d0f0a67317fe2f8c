-- ===== src/Libmeinos/Ringbuf/Fill.antt =====
-- `ringbuf_write` on an empty buffer: the blocks that its copies leave.
use mein_os.Prelude.{
  ℕ, ◌+◌, ◌-◌, ◌≤◌, ◌<◌, ◌≡◌, ap, ◌∙◌, inl, inr, false, some, List, ◌++◌, take, drop, length,
  length-take, length-drop, length-append, take-append-drop, arith, Bool-cases, ltb, ltb→lt, lt→ltb,
}
use mathlib.Core.List.{append-nil}
use mein_os.Libmeinos.Ringbuf.{Ringbuf, copy_in, store}
use mein_os.Libmeinos.Ringbuf.Block.{
  take_all, drop_all, take-append_le, take-append_ge, drop-append_ge, drop-drop, size_add-small,
  size_sub-small, copy_out-inside, copy_in-inside,
}
use mein_os.Libmeinos.Ringbuf.Transfer.{IsValid}

module _ (bytes : List ℕ) (r : Ringbuf) where
  -- The parts of the bytes in front of the end of the block and behind it
  abbrev pub end_part : ℕ
  end_part = r.size - r.wpos

  abbrev pub near_block : List ℕ
  near_block = take r.wpos r.buf ++ (bytes ++ drop (r.wpos + length bytes) r.buf)

  abbrev pub mid_block : List ℕ
  mid_block = take r.wpos r.buf ++ take end_part bytes

  abbrev pub far_block : List ℕ
  far_block = drop end_part bytes ++ drop (length (drop end_part bytes)) mid_block

module _ (bytes : List ℕ) (r : Ringbuf) (v : IsValid r) (empty : r.rpos ≡ r.wpos)
    (some_bytes : 0 < length bytes) (fits : length bytes < r.size) where
  store-near :
      r.rpos + length bytes < r.size → store (length bytes) bytes r ≡ some (near_block bytes r)
  unfolding store
  store-near h = rw (
    size_add-small r.rpos (length bytes) (omega (arith, h, v.small)),
    lt→ltb (r.rpos + length bytes) r.size h,
    copy_out-inside bytes 0 (length bytes) (omega arith),
    take_all (length bytes) bytes (omega arith),
    copy_in-inside r.buf r.wpos bytes (omega (arith, h, empty, v.block)),
  )

  length-start : length (take r.wpos r.buf) ≡ r.wpos
  length-start = omega (arith, length-take r.wpos r.buf, v.block, v.writes)

  near-read : take (length bytes) (drop r.wpos (near_block bytes r) ++ (near_block bytes r)) ≡ bytes
  near-read =
      let rest = bytes ++ drop (r.wpos + length bytes) r.buf in
      let long : length bytes ≤ length rest =
        omega (arith, length-append bytes (drop (r.wpos + length bytes) r.buf)) in
      ap (λ x. take (length bytes) (x ++ (near_block bytes r)))
        (drop-append_ge r.wpos 0 (take r.wpos r.buf) rest (omega (arith, length-start)))
      ∙ take-append_le (length bytes) rest (near_block bytes r) long
      ∙ take-append_le (length bytes) bytes (drop (r.wpos + length bytes) r.buf) (omega arith)
      ∙ take_all (length bytes) bytes (omega arith)

  module _ (h : r.size ≤ r.rpos + length bytes) where
    length-end : length (take (end_part bytes r) bytes) ≡ (end_part bytes r)
    length-end = omega (arith, length-take (end_part bytes r) bytes, h, empty, v.writes)

    length-mid : length (mid_block bytes r) ≡ r.size
    length-mid = omega (
      arith,
      length-append (take r.wpos r.buf) (take (end_part bytes r) bytes),
      length-start,
      length-end,
      v.writes,
    )

    length-far : length (drop (end_part bytes r) bytes) ≡ length bytes - (end_part bytes r)
    length-far = length-drop (end_part bytes r) bytes

    copy-mid : copy_in r.buf r.wpos (take (end_part bytes r) bytes) ≡ some (mid_block bytes r)
    copy-mid =
        copy_in-inside r.buf r.wpos (take (end_part bytes r) bytes)
          (omega (arith, length-end, v.block, v.writes))
        ∙ ap (λ x. some (take r.wpos r.buf ++ (take (end_part bytes r) bytes ++ x)))
            (drop_all (r.wpos + length (take (end_part bytes r) bytes)) r.buf
              (omega (arith, length-end, v.block, v.writes)))
        ∙ ap (λ x. some (take r.wpos r.buf ++ x)) (append-nil (take (end_part bytes r) bytes))

    store-far : store (length bytes) bytes r ≡ some (far_block bytes r)
    unfolding store
    store-far =
        let n = length bytes in
        rw
          (
            size_add-small r.rpos n (omega (arith, fits, v.small, v.reads)),
            behind,
            size_sub-small r.size r.wpos (omega (arith, v.writes)) (omega (arith, v.small)),
            size_sub-small n (end_part bytes r) (omega (arith, h, empty))
                (omega (arith, fits, v.small)),
            copy_out-inside bytes 0 (end_part bytes r) (omega (arith, h, empty)),
            copy-mid,
            copy_out-inside bytes (end_part bytes r) (n - (end_part bytes r))
                (omega (arith, h, empty)),
            take_all (n - (end_part bytes r)) (drop (end_part bytes r) bytes)
                (omega (arith, length-far)),
            copy_in-inside (mid_block bytes r) 0 (drop (end_part bytes r) bytes)
                (omega (arith, length-mid, length-far, fits)),
          )
          (ap (λ k. some (drop (end_part bytes r) bytes ++ drop k (mid_block bytes r)))
            (omega arith))
      where
        behind : ltb (r.rpos + length bytes) r.size ≡ false
        behind = ground (arith, h)

    far-read : take (length bytes) (drop r.wpos (far_block bytes r) ++ (far_block bytes r)) ≡ bytes
    far-read =
        let q = length (drop (end_part bytes r) bytes) in
        let at : drop r.wpos (far_block bytes r) ≡ take (end_part bytes r) bytes =
          drop-append_ge r.wpos (r.wpos - q) (drop (end_part bytes r) bytes)
            (drop q (mid_block bytes r)) (omega (arith, length-far, fits, h, empty))
          ∙ drop-drop (r.wpos - q) q r.wpos (mid_block bytes r)
              (omega (arith, length-far, fits, h, empty))
          ∙ drop-append_ge r.wpos 0 (take r.wpos r.buf) (take (end_part bytes r) bytes)
              (omega (arith, length-start)) in
        ap (λ x. take (length bytes) (x ++ (far_block bytes r))) at
        ∙ take-append_ge (length bytes) q (take (end_part bytes r) bytes) (far_block bytes r)
            (omega (arith, length-end, length-far, h, empty))
        ∙ ap (λ x. take (end_part bytes r) bytes ++ x)
            (take-append_le q (drop (end_part bytes r) bytes) (drop q (mid_block bytes r))
                (omega arith)
              ∙ take_all q (drop (end_part bytes r) bytes) (omega arith))
        ∙ take-append-drop (end_part bytes r) bytes

  length-near : r.rpos + length bytes < r.size → length (near_block bytes r) ≡ r.size
  length-near h = omega (
    arith,
    length-append (take r.wpos r.buf) (bytes ++ drop (r.wpos + length bytes) r.buf),
    length-append bytes (drop (r.wpos + length bytes) r.buf),
    length-drop (r.wpos + length bytes) r.buf,
    length-start,
    v.block,
    h,
    empty,
  )

  length-far_block : r.size ≤ r.rpos + length bytes → length (far_block bytes r) ≡ r.size
  length-far_block h = omega (
    arith,
    length-append (drop (end_part bytes r) bytes)
        (drop (length (drop (end_part bytes r) bytes)) (mid_block bytes r)),
    length-drop (length (drop (end_part bytes r) bytes)) (mid_block bytes r),
    length-mid h,
    length-far h,
    fits,
  )

  -- A block that holds the bytes from the write position on
  pub record Holding (block : List ℕ) : Type 0 where
    pub stores : store (length bytes) bytes r ≡ some block
    pub whole : length block ≡ r.size
    pub holds : take (length bytes) (drop r.wpos block ++ block) ≡ bytes

  pub stored : (block : List ℕ) × Holding block
  stored = elim (Bool-cases (ltb (r.rpos + length bytes) r.size)) [
    | inl e ↦
        let h = ltb→lt (r.rpos + length bytes) r.size e in
        (
          (near_block bytes r),
          record { stores = store-near h; whole = length-near h; holds = near-read },
        )
    | inr e ↦
        let h : r.size ≤ r.rpos + length bytes = ground (arith, e) in
        (
          (far_block bytes r),
          record { stores = store-far h; whole = length-far_block h; holds = far-read h },
        )
  ]
