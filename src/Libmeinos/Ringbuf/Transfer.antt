-- ===== src/Libmeinos/Ringbuf/Transfer.antt =====
-- What is read from a ring buffer and written to it.
use mein_os.Prelude.{
  ℕ, zero, suc, ◌+◌, ◌-◌, ◌%◌, ◌^◌, ◌≤◌, ◌<◌, ◌≡◌, refl, sym, ap, ◌∙◌, ◌⊎◌, inl, inr, false, some,
  List, [], ◌++◌, take, drop, length, length-drop, min, arith, Bool-cases, ltb, ltb→lt, lt→ltb,
}
use native.Mathlib.Nat.{mod-lt, mod-eq_of_lt, mod-eq-sub-mod}
use mein_os.Llist.Mem.{eq_of_ne}
use mein_os.Libmeinos.Ringbuf.{Ringbuf, filled, fetch, read}
use mein_os.Libmeinos.Ringbuf.Block.{
  take_all, take-append_le, take-append_ge, drop-append_le, drop-append_ge, take-take-min,
  drop-take-min, drop-drop, drop-take, size_add-small, size_sub-small, copy_out-inside,
}

-- The positions lie in the block, and its size is less than half of what `size_t` counts.
pub record IsValid (r : Ringbuf) : Type 0 where
  pub block : length r.buf ≡ r.size
  pub reads : r.rpos < r.size
  pub writes : r.wpos < r.size
  pub small : r.size < 2 ^ 31

-- The block read from the read position on, and once more from its start
abbrev pub unrolled : Ringbuf → List ℕ
unrolled r = drop r.rpos r.buf ++ r.buf

-- The bytes that wait to be read
abbrev pub contents : Ringbuf → List ℕ
contents r = take (filled r) (unrolled r)

-- The buffer after `n` bytes are read
abbrev pub advanced : Ringbuf → ℕ → Ringbuf
advanced r n = record r { rpos = (r.rpos + n) % r.size }

module _ (r : Ringbuf) (v : IsValid r) where
  -- What the buffer holds is the way from the one position to the other.
  pub filled-way :
      ((r.rpos ≤ r.wpos) × (filled r + r.rpos ≡ r.wpos))
      ⊎ ((r.wpos < r.rpos) × (filled r + r.rpos ≡ r.wpos + r.size))
  unfolding filled
  filled-way = ground (arith, v.block, v.reads, v.writes, v.small)

  length-rest : length (drop r.rpos r.buf) + r.rpos ≡ r.size
  length-rest = omega (arith, length-drop r.rpos r.buf, v.block, v.reads)

  fetch-near : (n : ℕ) → r.rpos + n < r.size → fetch n r ≡ some (take n (unrolled r))
  unfolding fetch
  fetch-near n h =
      rw (size_add-small r.rpos n (omega (arith, h, v.small)), lt→ltb (r.rpos + n) r.size h)
        (copy_out-inside r.buf r.rpos n (omega (arith, h, v.block))
          ∙ ap some
              (sym (take-append_le n (drop r.rpos r.buf) r.buf (omega (arith, h, length-rest)))))

  fetch-far : (n : ℕ) → r.size ≤ r.rpos + n → n < r.size → fetch n r ≡ some (take n (unrolled r))
  unfolding fetch
  fetch-far n h k =
      let p = r.size - r.rpos in
      rw
        (
          size_add-small r.rpos n (omega (arith, k, v.small, v.reads)),
          far,
          size_sub-small r.size r.rpos (omega (arith, v.reads)) (omega (arith, v.small)),
          size_sub-small n p (omega (arith, h)) (omega (arith, k, v.small)),
          copy_out-inside r.buf r.rpos p (omega (arith, v.block, v.reads)),
          copy_out-inside r.buf 0 (n - p) (omega (arith, v.block, k)),
          take_all p (drop r.rpos r.buf) (omega (arith, length-rest)),
        )
        (ap some (
          sym (take-append_ge n (n - p) (drop r.rpos r.buf) r.buf (omega (arith, h, length-rest)))))
    where
      far : ltb (r.rpos + n) r.size ≡ false
      far = ground (arith, h)

  fetch_lem : (n : ℕ) → n < r.size → fetch n r ≡ some (take n (unrolled r))
  fetch_lem n k = elim (Bool-cases (ltb (r.rpos + n) r.size)) [
    | inl e ↦ fetch-near n (ltb→lt (r.rpos + n) r.size e)
    | inr e ↦ fetch-far n (ground (arith, e)) k
  ]

  filled-small : filled r < r.size
  filled-small = ground (arith, filled-way, v.reads, v.writes)

  -- A read of `n` bytes, which the buffer holds
  read-some :
      (k n : ℕ)
      → min k (filled r) ≡ n
      → n < r.size
      → read k r ≡ some (take n (unrolled r), advanced r n)
  unfolding read
  read-some k zero e h = rw e (
      ap (λ p. some ([], record r { rpos = p }))
        (sym (mod-eq_of_lt (omega (arith, v.reads))) ∙ ap (λ p. p % r.size) (omega arith)))
  read-some k (suc n) e h = rw (
    e,
    eq_of_ne (suc n) 0 (λ z. ground (arith, z)),
    fetch_lem (suc n) h,
    size_add-small r.rpos (suc n) (omega (arith, h, v.small, v.reads)),
  )

  advanced-IsValid : (n : ℕ) → IsValid (advanced r n)
  advanced-IsValid n = record {
    block = v.block;
    reads = mod-lt (r.rpos + n) (omega (arith, v.reads));
    writes = v.writes;
    small = v.small;
  }

pub around : (a size : ℕ) → size ≤ a → a < size + size → a % size + size ≡ a
around a size h k =
    ap (λ x. x + size) (mod-eq-sub-mod h ∙ mod-eq_of_lt (omega (arith, h, k))) ∙ omega (arith, h)

module _ (r : Ringbuf) (v : IsValid r) (n m : ℕ) (e : filled r ≡ n + m) where
  inside : n < r.size
  inside = omega (arith, e, filled-small r v)

  -- Where the read position lies after `n` bytes that the buffer holds
  position :
      ((r.rpos + n < r.size) × ((advanced r n).rpos ≡ r.rpos + n))
      ⊎ ((r.size ≤ r.rpos + n) × ((advanced r n).rpos + r.size ≡ r.rpos + n))
  position = elim (Bool-cases (ltb (r.rpos + n) r.size)) [
    | inl t ↦ let h = ltb→lt (r.rpos + n) r.size t in inl (h, mod-eq_of_lt h)
    | inr t ↦
        let h : r.size ≤ r.rpos + n = ground (arith, t) in
        inr (h, around (r.rpos + n) r.size h (omega (arith, v.reads, inside)))
  ]

  filled-advanced : filled (advanced r n) ≡ m
  filled-advanced =
      part position (filled-way r v) (filled-way (advanced r n) (advanced-IsValid r v n))
    where
      part :
          ((r.rpos + n < r.size) × ((advanced r n).rpos ≡ r.rpos + n))
            ⊎ ((r.size ≤ r.rpos + n) × ((advanced r n).rpos + r.size ≡ r.rpos + n))
          → ((r.rpos ≤ r.wpos) × (filled r + r.rpos ≡ r.wpos))
            ⊎ ((r.wpos < r.rpos) × (filled r + r.rpos ≡ r.wpos + r.size))
          → (((advanced r n).rpos ≤ r.wpos)
              × (filled (advanced r n) + (advanced r n).rpos ≡ r.wpos))
            ⊎ ((r.wpos < (advanced r n).rpos)
                × (filled (advanced r n) + (advanced r n).rpos ≡ r.wpos + r.size))
          → filled (advanced r n) ≡ m
      part p w w' = ground (arith, e, p, w, w', v.reads, v.writes)

  -- The bytes that are left are those behind the first `n`.
  contents-advanced : contents (advanced r n) ≡ drop n (contents r)
  contents-advanced =
      ap (λ k. take k (unrolled (advanced r n))) filled-advanced
      ∙ moved position
      ∙ sym (drop-take n (filled r) m (unrolled r) e)
    where
      short :
          r.size ≤ r.rpos + n
          → (advanced r n).rpos + r.size ≡ r.rpos + n
          → ((r.rpos ≤ r.wpos) × (filled r + r.rpos ≡ r.wpos))
            ⊎ ((r.wpos < r.rpos) × (filled r + r.rpos ≡ r.wpos + r.size))
          → m + (advanced r n).rpos ≤ r.size
      short h q w = ground (arith, h, q, w, e, v.writes)

      moved :
          ((r.rpos + n < r.size) × ((advanced r n).rpos ≡ r.rpos + n))
            ⊎ ((r.size ≤ r.rpos + n) × ((advanced r n).rpos + r.size ≡ r.rpos + n))
          → take m (unrolled (advanced r n)) ≡ take m (drop n (unrolled r))
      moved (inl (h, q)) =
          ap (λ p. take m (drop p r.buf ++ r.buf)) q
          ∙ ap (take m) (
              sym (
                drop-append_le n (drop r.rpos r.buf) r.buf (omega (arith, h, length-rest r v))
                ∙ ap (λ x. x ++ r.buf) (drop-drop n r.rpos (r.rpos + n) r.buf (omega arith))))
      moved (inr (h, q)) =
          let p = (advanced r n).rpos in
          let fits = short h q (filled-way r v) in
          take-append_le m (drop p r.buf) r.buf (omega (arith, fits, length-drop p r.buf, v.block))
          ∙ ap (take m) (
              sym
                (drop-append_ge n p (drop r.rpos r.buf) r.buf (omega (arith, q, length-rest r v))))

-- What a read of at most `k` bytes gives: the first bytes that wait, as many as there are up to `k`, and
-- a buffer in which the others wait.
pub read-contents :
    (k : ℕ) (r : Ringbuf)
    → IsValid r
    → let r' = advanced r (min k (filled r)) in
      (read k r ≡ some (take k (contents r), r')) × (contents r' ≡ drop k (contents r)) × IsValid r'
read-contents k r v =
    let n = min k (filled r) in
    let left = filled r - n in
    let split : filled r ≡ n + left = omega arith in
    (
      read-some r v k n refl (omega (arith, filled-small r v))
          ∙ ap (λ x. some (x, advanced r n)) (sym (take-take-min k (filled r) (unrolled r))),
      contents-advanced r v n left split ∙ sym (drop-take-min k (filled r) (unrolled r)),
      advanced-IsValid r v n,
    )
