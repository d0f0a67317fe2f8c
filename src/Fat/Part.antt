-- ===== src/Fat/Part.antt =====
-- The bytes of a file, and those of one cluster of it.
use mein_os.Prelude.{
  ℕ, zero, suc, ◌+◌, ◌*◌, ◌/◌, ◌%◌, ◌^◌, ◌≤◌, ◌<◌, ◌≡◌, refl, sym, ap, ◌∙◌, min, true, none, some,
  List, [], ◌∷◌, arith, length, get_elem?,
}
use native.Mathlib.Nat.{mod-eq_of_lt, div-lt_iff_lt-mul, add-mod}
use mein_os.Fat.{FatFs, bytes, sectors, cluster_bytes, bytes_read, fat_read}
use mein_os.Fat.Bytes.{bytes_ext, byte_at, div-part, mod-part, same_at}
use mein_os.Fat.Sector.{Blocks, fat_read-Bytes}

-- The position of a cluster of the chain
abbrev pub position_in : List ℕ → ℕ → ℕ
position_in chain n = elim (get_elem? chain n) [ none ↦ 0 | some c ↦ c ]

-- The byte of a file: that of its cluster
abbrev pub file_byte : FatFs → List ℕ → ℕ → ℕ
file_byte fs chain p =
    byte_at fs
      (position_in chain (p / cluster_bytes fs.bootsector) + p % cluster_bytes fs.bootsector)

-- The clusters stand on sectors of the volume, and whole. The cache hands out each block of the volume.
pub record IsChain (fs : FatFs) (chain : List ℕ) : Type 0 where
  pub some_bytes : 0 < fs.bootsector.sector_size
  pub some_sectors : 0 < fs.bootsector.cluster_size
  pub on_sectors : (n : ℕ) → position_in chain n % fs.bootsector.sector_size ≡ 0
  pub on_volume :
      (n : ℕ)
      → n < length chain
      → position_in chain n + cluster_bytes fs.bootsector
        ≤ sectors fs.bootsector * fs.bootsector.sector_size
  pub room : sectors fs.bootsector + cluster_bytes fs.bootsector < 2 ^ 32
  pub blocks : (b : ℕ) → b < sectors fs.bootsector → fs.has_block b ≡ true
  pub volume : sectors fs.bootsector * fs.bootsector.sector_size < 2 ^ 64

pub position_in-some :
    (chain : List ℕ) (n : ℕ) → n < length chain → get_elem? chain n ≡ some (position_in chain n)
position_in-some [] n h = absurd (omega (arith, h))
position_in-some (c ∷ cs) zero h = refl
position_in-some (c ∷ cs) (suc n) h = position_in-some cs n (omega (arith, h))

module _ (fs : FatFs) (chain : List ℕ) (ch : IsChain fs chain) where
  abbrev size : ℕ
  size = fs.bootsector.sector_size

  abbrev cs : ℕ
  cs = cluster_bytes fs.bootsector

  file_byte-part :
      (num at : ℕ)
      → at < cs
      → file_byte fs chain (num * cs + at) ≡ byte_at fs (position_in chain num + at)
  file_byte-part num at h =
      ap (λ q. byte_at fs (position_in chain q + (num * cs + at) % cs)) (div-part cs num at h)
      ∙ ap (λ r. byte_at fs (position_in chain num + r)) (mod-part cs num at h)

  -- One part of a cluster
  pub part-Bytes :
      (num offset n : ℕ)
      → num < length chain
      → offset % size ≡ 0
      → offset + n ≤ cs
      → 0 < n
      → fat_read fs ((position_in chain num + offset) % 2 ^ 64) n
        ≡ bytes_read (bytes (file_byte fs chain) (num * cs + offset) n)
  part-Bytes num offset n on at fits pos =
      rw
        (
          wrap,
          fat_read-Bytes fs ch.some_bytes (position_in chain num + offset) n room
              (inside, fit, blocks),
        )
        (ap bytes_read same)
    where
      wrap : (position_in chain num + offset) % 2 ^ 64 ≡ position_in chain num + offset
      wrap = omega (arith, ch.on_volume num on, ch.volume, fits)

      inside : (position_in chain num + offset) / size < sectors fs.bootsector
      inside = (div-lt_iff_lt-mul ch.some_bytes).1 (omega (arith, ch.on_volume num on, fits, pos))

      blocks : Blocks fs (position_in chain num + offset) n
      blocks i less =
          ch.blocks ((position_in chain num + offset + i) / size)
            ((div-lt_iff_lt-mul ch.some_bytes).1 (omega (arith, ch.on_volume num on, fits, less)))

      room : (position_in chain num + offset) / size + n < 2 ^ 32
      room = omega (arith, inside, ch.room, fits)

      start : (position_in chain num + offset) % size ≡ 0
      start =
          add-mod (position_in chain num) offset size
          ∙ ap (λ x. (x + offset % size) % size) (ch.on_sectors num)
          ∙ ap (λ x. (0 + x) % size) at
          ∙ mod-eq_of_lt ch.some_bytes

      fit : (position_in chain num + offset) % size + min n size ≤ size
      fit = omega (arith, start)

      same :
          bytes (byte_at fs) (position_in chain num + offset) n
          ≡ bytes (file_byte fs chain) (num * cs + offset) n
      same =
          bytes_ext (byte_at fs) (file_byte fs chain) (position_in chain num + offset)
            (num * cs + offset) n
            λ i l.
              same_at (byte_at fs) (position_in chain num + offset + i)
                (position_in chain num + (offset + i)) (omega arith)
              ∙ sym (file_byte-part num (offset + i) (omega (arith, fits, l)))
              ∙ same_at (file_byte fs chain) (num * cs + (offset + i)) (num * cs + offset + i)
                  (omega arith)
