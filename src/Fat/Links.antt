-- ===== src/Fat/Links.antt =====
-- The chains of clusters that the format of a FAT has.
use mein_os.Prelude.{
  ℕ, ◌+◌, ◌-◌, ◌*◌, ◌/◌, ◌^◌, ◌≤◌, ◌<◌, ◌≡◌, ◌⊎◌, inl, inr, true, false, some, List, [], ◌∷◌, arith,
  ltb, Bool-cases,
}
use mein_os.Fat.{
  FatFs, FatType, fat12, fat16, fat32, fat_start, cluster_bytes, ReadResult, bytes_read, untouched,
  no_block, past_block, past_chain, unfinished,
}
use mein_os.Fat.Bytes.{byte_at}
use mein_os.Fat.Round.{IsRead}
use mein_os.Fat.Sector.{Readable}
use mein_os.Fat.Chain.{entry_at, entry_size, is_last, entry_from}
use mein_os.Fat.Format.{width, used, value}

-- The FAT, as bytes
abbrev pub fat_of : FatFs → ℕ → ℕ
fat_of fs p = byte_at fs (fat_start fs.bootsector + p)

-- The driver can read the entry of a cluster, which starts with the byte that has its first digit.
abbrev pub HasEntry : FatFs → ℕ → Type 0
HasEntry fs c =
    Readable fs (fat_start fs.bootsector + width fs.type_is * c / 2) (entry_size fs.type_is)

-- A number that stands for no further cluster: below 3, where the format has 2, or one of the last eight
-- of so many digits
abbrev pub Ends : FatType → ℕ → Type 0
Ends t v = (v < 3) ⊎ (16 ^ used t ≤ v + 8)

-- The clusters of a file by the format, from `c` on
pub data FatPath (fs : FatFs) : ℕ → List ℕ → Type 0 where
  ends :
      (c : ℕ)
      → HasEntry fs c
      → Ends fs.type_is (value fs.type_is (fat_of fs) c)
      → FatPath fs c (c ∷ [])
  goes_on :
      (c : ℕ) (cs : List ℕ)
      → HasEntry fs c
      → 3 ≤ value fs.type_is (fat_of fs) c
      → value fs.type_is (fat_of fs) c + 8 < 16 ^ used fs.type_is
      → FatPath fs (value fs.type_is (fat_of fs) c) cs
      → FatPath fs c (c ∷ cs)

-- Cluster 2 is the first one of the data area.
abbrev pub cluster_at : FatFs → ℕ → ℕ
cluster_at fs c = fs.data_area + (c - 2) * cluster_bytes fs.bootsector

-- The volume has bytes, and its numbers are small enough for the driver.
pub record IsFat (fs : FatFs) : Type 0 where
  pub some_bytes : 0 < fs.bootsector.sector_size
  pub are_bytes : (p : ℕ) → byte_at fs p < 256
  pub fat_room : fat_start fs.bootsector + 2 ^ 30 + 4 < 2 ^ 32
  pub data_room : fs.data_area + 2 ^ 28 * cluster_bytes fs.bootsector < 2 ^ 64

pub entry_at-small : (t : FatType) (c : ℕ) → c < 2 ^ 28 → entry_at t c ≡ width t * c / 2
entry_at-small fat12 c small = omega (arith, small)
entry_at-small fat16 c small = omega (arith, small)
entry_at-small fat32 c small = omega (arith, small)

pub entry_at-lt : (t : FatType) (c : ℕ) → c < 2 ^ 28 → entry_at t c < 2 ^ 30
entry_at-lt fat12 c small = omega (arith, small)
entry_at-lt fat16 c small = omega (arith, small)
entry_at-lt fat32 c small = omega (arith, small)

pub entry_size-le : (t : FatType) → entry_size t ≤ 4
entry_size-le fat12 = omega arith
entry_size-le fat16 = omega arith
entry_size-le fat32 = omega arith

pub is_last-true : (t : FatType) (v : ℕ) → Ends t v → is_last t v ≡ true
is_last-true fat12 v e = ground (arith, e)
is_last-true fat16 v e = ground (arith, e)
is_last-true fat32 v e = ground (arith, e)

pub is_last-false : (t : FatType) (v : ℕ) → 3 ≤ v → v + 8 < 16 ^ used t → is_last t v ≡ false
is_last-false fat12 v l h = ground (arith, l, h)
is_last-false fat16 v l h = ground (arith, l, h)
is_last-false fat32 v l h = ground (arith, l, h)

pub last-Ends : (t : FatType) (v : ℕ) → is_last t v ≡ true → Ends t v
last-Ends fat12 v e = elim (Bool-cases (ltb v 3)) [
  | inl l ↦ inl (ground (arith, l))
  | inr l ↦ inr (ground (arith, e, l))
]
last-Ends fat16 v e = elim (Bool-cases (ltb v 3)) [
  | inl l ↦ inl (ground (arith, l))
  | inr l ↦ inr (ground (arith, e, l))
]
last-Ends fat32 v e = elim (Bool-cases (ltb v 3)) [
  | inl l ↦ inl (ground (arith, l))
  | inr l ↦ inr (ground (arith, e, l))
]

pub not_last : (t : FatType) (v : ℕ) → is_last t v ≡ false → (3 ≤ v) × (v + 8 < 16 ^ used t)
not_last fat12 v e = (ground (arith, e), ground (arith, e))
not_last fat16 v e = (ground (arith, e), ground (arith, e))
not_last fat32 v e = (ground (arith, e), ground (arith, e))

pub few : (c : ℕ) → c < 2 ^ 28 → c - 2 ≤ 2 ^ 28
few c small = omega (arith, small)

-- The answer of `fat_read` is bytes, where an entry comes of it.
pub entry-IsRead : (t : FatType) (c v : ℕ) (r : ReadResult) → entry_from t c r ≡ some v → IsRead r
entry-IsRead t c v (bytes_read bs) e = tt
entry-IsRead t c v untouched e = absurd (ground (arith, e))
entry-IsRead t c v no_block e = absurd (ground (arith, e))
entry-IsRead t c v past_block e = absurd (ground (arith, e))
entry-IsRead t c v past_chain e = absurd (ground (arith, e))
entry-IsRead t c v unfinished e = absurd (ground (arith, e))
