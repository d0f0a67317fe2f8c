-- ===== src/Fat/Sector.antt =====
-- `fat_read`: which reads give the bytes of the volume, and which read from behind a cache block.
use mein_os.Prelude.{
  ℕ, zero, suc, ◌+◌, ◌-◌, ◌*◌, ◌/◌, ◌%◌, ◌^◌, ◌≤◌, ◌<◌, ◌≡◌, refl, sym, ap, ◌∙◌, ◌↔◌, ◌⊎◌, min, inl,
  inr, true, false, arith, ltb, leb, Bool-cases,
}
use mathlib.Core.Path.{subst}
use native.Mathlib.Nat.{mod-add-div', mod-lt}
use mein_os.Fat.{FatFs, bytes, sectors, bytes_read, untouched, read_blocks, fat_read}
use mein_os.Fat.Bytes.{div-part, same_at, bytes-join, byte_at, bytes-sector}
use mein_os.Fat.Round.{
  now, now_full, now_part, now-le, now-le_all, now_pos, read_blocks_step, read_blocks_done, IsRead,
  read_blocks_round,
}

-- The cache has a block for each byte.
abbrev pub Blocks : FatFs → (pos n : ℕ) → Type 0
Blocks fs pos n = (i : ℕ) → i < n → fs.has_block ((pos + i) / fs.bootsector.sector_size) ≡ true

-- The read starts on the volume, its first part ends with its sector or before, and the cache has the
-- blocks.
abbrev pub Readable : FatFs → (pos n : ℕ) → Type 0
Readable fs pos n =
    (pos / fs.bootsector.sector_size < sectors fs.bootsector)
    × (pos % fs.bootsector.sector_size + min n fs.bootsector.sector_size
        ≤ fs.bootsector.sector_size)
    × Blocks fs pos n

module _ (fs : FatFs) (some_bytes : 0 < fs.bootsector.sector_size) where
  abbrev size : ℕ
  size = fs.bootsector.sector_size

  next_block :
      (block offset rem : ℕ)
      → offset + now size rem ≤ size
      → ((block + 1) * size + 0 ≡ block * size + offset + now size rem) ⊎ (rem - now size rem ≡ 0)
  next_block block offset rem fits = elim (Bool-cases (ltb size rem)) [
    | inl e ↦ inl (omega (arith, fits, now_full size rem e))
    | inr e ↦ inr (omega (arith, now_part size rem e))
  ]

  block_at : (block offset i : ℕ) → offset + i < size → (block * size + offset + i) / size ≡ block
  block_at block offset i h =
      same_at (λ x. x / size) (block * size + offset + i) (block * size + (offset + i))
        (omega arith)
      ∙ div-part size block (offset + i) h

  -- Where a part starts, and where the next one does
  next_position :
      (block offset rem i : ℕ)
      → offset + now size rem ≤ size
      → i < rem - now size rem
      → (block + 1) * size + 0 + i ≡ block * size + offset + (now size rem + i)
  next_position block offset rem i fits h = elim (next_block block offset rem fits) [
    | inl e ↦ omega (arith, e)
    | inr e ↦ absurd (omega (arith, e, h))
  ]

  -- What fits into the first block can be read, and all that follows it, where the cache has the blocks.
  read_blocks-Bytes :
      (n block offset rem : ℕ)
      → rem ≤ n
      → block + rem < 2 ^ 32
      → offset + now size rem ≤ size
      → Blocks fs (block * size + offset) rem
      → read_blocks fs n block offset rem
        ≡ bytes_read (bytes (byte_at fs) (block * size + offset) rem)
  read_blocks-Bytes n block offset zero fuel room fits b = read_blocks_done fs n block offset
  read_blocks-Bytes zero block offset (suc r) fuel room fits b = absurd (omega (arith, fuel))
  read_blocks-Bytes (suc n) block offset (suc r) fuel room fits b =
      read_blocks_step fs n block offset (suc r) (omega arith) has fits
      ∙ rw
          (
            wrap,
            read_blocks-Bytes n (block + 1) 0 (suc r - now size (suc r)) less
                (omega (arith, room, first)) (omega (arith, now-le size (suc r - now size (suc r))))
                further,
            bytes-sector fs block offset (now size (suc r)) fits,
            bytes-join (byte_at fs) (block * size + offset) ((block + 1) * size + 0)
                (now size (suc r)) (suc r - now size (suc r)) (suc r)
                (next_block block offset (suc r) fits) (omega (arith, now-le_all size (suc r))),
          )
          refl
    where
      wrap : (block + 1) % 2 ^ 32 ≡ block + 1
      wrap = omega (arith, room)

      first : 0 < now size (suc r)
      first = now_pos size (suc r) some_bytes (omega arith)

      less : suc r - now size (suc r) ≤ n
      less = omega (arith, first, fuel)

      has : fs.has_block block ≡ true
      has =
          ap fs.has_block (sym (block_at block offset 0 (omega (arith, fits, first))))
          ∙ b 0 (omega arith)

      further : Blocks fs ((block + 1) * size + 0) (suc r - now size (suc r))
      further i h =
          ap (λ x. fs.has_block (x / size)) (next_position block offset (suc r) i fits h)
          ∙ b (now size (suc r) + i) (omega (arith, h))

  -- The cache has the blocks of a read that gives bytes.
  read_blocks-Blocks :
      (n block offset rem : ℕ)
      → rem ≤ n
      → block + rem < 2 ^ 32
      → IsRead (read_blocks fs n block offset rem)
      → Blocks fs (block * size + offset) rem
  read_blocks-Blocks n block offset zero fuel room h i less = absurd (omega (arith, less))
  read_blocks-Blocks zero block offset (suc r) fuel room h i less = absurd (omega (arith, fuel))
  read_blocks-Blocks (suc n) block offset (suc r) fuel room h i less =
      let t = read_blocks_round fs n block offset (suc r) (omega arith) h in
      elim (Bool-cases (ltb i (now size (suc r)))) [
        | inl e ↦ ap fs.has_block (block_at block offset i (ground (arith, e, t.1))) ∙ t.0
        | inr e ↦
            let behind : now size (suc r) ≤ i = ground (arith, e) in
            let further : block * size + offset + i
                ≡ (block + 1) * size + 0 + (i - now size (suc r)) =
              omega (
                arith,
                behind,
                next_position block offset (suc r) (i - now size (suc r)) t.1
                    (omega (arith, behind, less)),
              ) in
            ap (λ x. fs.has_block (x / size)) further
            ∙ read_blocks-Blocks n (block + 1) 0 (suc r - now size (suc r))
                (omega (arith, first, fuel)) (omega (arith, first, room))
                (subst (λ b. IsRead (read_blocks fs n b 0 (suc r - now size (suc r)))) wrap t.2)
                (i - now size (suc r)) (omega (arith, behind, less))
      ]
    where
      wrap : (block + 1) % 2 ^ 32 ≡ block + 1
      wrap = omega (arith, room)

      first : 0 < now size (suc r)
      first = now_pos size (suc r) some_bytes (omega arith)

  -- The first part of a read that gives bytes ends with its sector or before.
  read_blocks-first :
      (n block offset rem : ℕ)
      → offset < size
      → rem ≤ n
      → IsRead (read_blocks fs n block offset rem)
      → offset + now size rem ≤ size
  read_blocks-first n block offset zero less fuel h = ground (arith, less)
  read_blocks-first zero block offset (suc r) less fuel h = absurd (omega (arith, fuel))
  read_blocks-first (suc n) block offset (suc r) less fuel h =
      (read_blocks_round fs n block offset (suc r) (omega arith) h).1

  now-min : (n : ℕ) → now size n ≡ min n size
  now-min n = ground arith

  module _ (pos n : ℕ) (room : pos / size + n < 2 ^ 32) where
    number : pos / size % 2 ^ 32 ≡ pos / size
    number = omega (arith, room)

    position : pos / size * size + pos % size ≡ pos
    position = omega (arith, mod-add-div' pos size)

    pub fat_read-Bytes :
        Readable fs pos n → fat_read fs pos n ≡ bytes_read (bytes (byte_at fs) pos n)
    unfolding fat_read
    fat_read-Bytes r =
        rw (number, not_behind)
          (read_blocks-Bytes n (pos / size) (pos % size) n (omega arith) room
              (omega (arith, r.1, now-min n)) (subst (λ p. Blocks fs p n) (sym position) r.2)
            ∙ ap (λ p. bytes_read (bytes (byte_at fs) p n)) position)
      where
        not_behind : leb (sectors fs.bootsector) (pos / size) ≡ false
        not_behind = ground (arith, r.0)

    pub IsRead-Readable : IsRead (fat_read fs pos n) → Readable fs pos n
    unfolding fat_read
    IsRead-Readable h = elim (Bool-cases (leb (sectors fs.bootsector) (pos / size))) [
      | inl e ↦ let off : IsRead untouched = rw (number, e) at h in absurd off
      | inr e ↦
          let inside : IsRead (read_blocks fs n (pos / size) (pos % size) n) =
            rw (number, e) at h in
          (
            ground (arith, e),
            omega (
              arith,
              now-min n,
              read_blocks-first n (pos / size) (pos % size) n (mod-lt pos some_bytes) (omega arith)
                  inside,
            ),
            subst (λ p. Blocks fs p n) position
                (read_blocks-Blocks n (pos / size) (pos % size) n (omega arith) room inside),
          )
    ]

    -- Sectors have bytes, and the number of the sector with the size is below 2 ^ 32. Then a read gives the bytes
    -- of the volume exactly where it starts on the volume, the first part of it, at most a sector, ends with
    -- the sector that it starts in or before, and the cache has a block for each byte.
    pub fat_read_iff :
        (fat_read fs pos n ≡ bytes_read (bytes (byte_at fs) pos n)) ↔ Readable fs pos n
    fat_read_iff = (λ e. IsRead-Readable (subst IsRead (sym e) tt), fat_read-Bytes)
