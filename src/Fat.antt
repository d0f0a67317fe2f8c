-- ===== src/Fat.antt =====
-- apps/fat: the driver of FAT volumes. The cache of blocks is a parameter: `has_block` says for which
-- numbers `cdi_cache_block_get` hands out a block and not NULL, and `cache` is the contents of these
-- blocks, block number and offset to byte.
pub mod Bytes
pub mod Round
pub mod Sector
pub mod Part
pub mod Cluster
pub mod Chain
pub mod Format
pub mod Links
pub mod Path
mod Tests
use mein_os.Prelude.{
  ℕ, zero, suc, ◌+◌, ◌-◌, ◌*◌, ◌/◌, ◌%◌, ◌^◌, min, bit_and, Bool, true, false, not, ◌&&◌, ◌||◌,
  Option, none, some, List, [], ◌∷◌, ◌++◌, ◌==◌, if◌then◌else◌, ltb, leb, length, take, drop,
  get_elem?,
}

-- `struct fat_bootsector`: the fields that the driver reads
pub record Bootsector : Type 0 where
  pub sector_size : ℕ
  pub cluster_size : ℕ
  pub reserved_sectors : ℕ
  pub num_sectors_small : ℕ
  pub fat_size_small : ℕ
  pub num_sectors : ℕ
  pub fat_size : ℕ

pub data FatType : Type 0 where
  fat12 : FatType
  fat16 : FatType
  fat32 : FatType

-- `struct fat_fs_filesystem`
pub record FatFs : Type 0 where
  pub bootsector : Bootsector
  pub type_is : FatType
  pub data_area : ℕ
  pub has_block : ℕ → Bool
  pub cache : ℕ → ℕ → ℕ

-- `fat_num_sectors`
abbrev pub sectors : Bootsector → ℕ
sectors bs = if bs.num_sectors_small == 0 then bs.num_sectors else bs.num_sectors_small

-- `fat_fat_start(bs,0)`
abbrev pub fat_start : Bootsector → ℕ
fat_start bs = bs.reserved_sectors * bs.sector_size

-- The bytes of `f` from `pos` on
abbrev pub bytes : (ℕ → ℕ) → (pos size : ℕ) → List ℕ
bytes f pos zero = []
bytes f pos (suc n) = f pos ∷ bytes f (suc pos) n

-- What a read comes to: the bytes, or the answer 0 with the buffer as it was, or an access through NULL
-- where the cache has no block, or a `memcpy` from behind the end of a cache block, or an access behind
-- the end of the cluster chain. `unfinished` is for want of fuel.
pub data ReadResult : Type 0 where
  bytes_read : List ℕ → ReadResult
  untouched : ReadResult
  no_block : ReadResult
  past_block : ReadResult
  past_chain : ReadResult
  unfinished : ReadResult

-- The bytes before what the rest of the loop reads
abbrev pub read_before : List ℕ → ReadResult → ReadResult
read_before xs (bytes_read ys) = bytes_read (xs ++ ys)
read_before xs untouched = untouched
read_before xs no_block = no_block
read_before xs past_block = past_block
read_before xs past_chain = past_chain
read_before xs unfinished = unfinished

-- The loop of `fat_read`. `offset` and `cur_size` reach behind the end of the block together, where
-- they do.
unfoldable pub read_blocks : FatFs → (fuel block offset rem_size : ℕ) → ReadResult
read_blocks fs zero block offset rem_size = if rem_size == 0 then bytes_read [] else unfinished
read_blocks fs (suc n) block offset rem_size =
    let size = fs.bootsector.sector_size in
    let cur_size = if ltb size rem_size then size else rem_size in
    let rest = read_blocks fs n ((block + 1) % 2 ^ 32) 0 (rem_size - cur_size) in
    if rem_size == 0
    then bytes_read []
    else if not (fs.has_block block)
    then no_block
    else if leb (offset + cur_size) size
    then read_before (bytes (fs.cache block) offset cur_size) rest
    else past_block

-- `fat_read`
unfoldable pub fat_read : FatFs → (pos size : ℕ) → ReadResult
fat_read fs pos size =
    let block = pos / fs.bootsector.sector_size % 2 ^ 32 in
    if leb (sectors fs.bootsector) block
    then untouched
    else read_blocks fs size block (pos % fs.bootsector.sector_size) size

-- The size of a cluster in bytes
abbrev pub cluster_bytes : Bootsector → ℕ
cluster_bytes bs = bs.cluster_size * bs.sector_size

-- Where the answer of `fat_read` goes: a refused read leaves the buffer as it was.
abbrev pub into_buffer : List ℕ → ReadResult → ReadResult → ReadResult
into_buffer old (bytes_read xs) rest = read_before xs rest
into_buffer old untouched rest = read_before old rest
into_buffer old no_block rest = no_block
into_buffer old past_block rest = past_block
into_buffer old past_chain rest = past_chain
into_buffer old unfinished rest = unfinished

-- The loop of `fat_cluster_read`; `old` is the buffer before, and `done` what has been read already.
unfoldable pub read_clusters :
    FatFs → List ℕ → (old : ℕ → ℕ) → (fuel cluster_num offset done rem_size : ℕ) → ReadResult
read_clusters fs chain old zero num offset done rem_size =
    if rem_size == 0 then bytes_read [] else unfinished
read_clusters fs chain old (suc n) num offset done rem_size =
    let room = cluster_bytes fs.bootsector - offset in
    let cur_size = if ltb rem_size room then rem_size else room in
    let rest = read_clusters fs chain old n (num + 1) 0 (done + cur_size) (rem_size - cur_size) in
    if rem_size == 0 then bytes_read [] else elim (get_elem? chain num) [
      | none ↦ past_chain
      | some c ↦
          into_buffer (bytes old done cur_size) (fat_read fs ((c + offset) % 2 ^ 64) cur_size) rest
    ]

-- `fat_cluster_read`
unfoldable pub fat_cluster_read : FatFs → List ℕ → (old : ℕ → ℕ) → (start size : ℕ) → ReadResult
unfolding read_clusters
fat_cluster_read fs chain old start size =
    let cs = cluster_bytes fs.bootsector in
    read_clusters fs chain old size (start / cs % 2 ^ 32) (start % cs) 0 size

-- `fat_fs_file_read`: how many bytes it says that it read, and the result
unfoldable pub fat_fs_file_read :
    FatFs → (chain : List ℕ) → (filesize : ℕ) → (old : ℕ → ℕ) → (start size : ℕ) → ℕ × ReadResult
fat_fs_file_read fs chain filesize old start size =
    if ltb filesize start
    then (0, bytes_read [])
    else let part = if ltb filesize ((start + size) % 2 ^ 64) then filesize - start else size in
      (part, fat_cluster_read fs chain old start part)
