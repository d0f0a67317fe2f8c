-- ===== src/Fat/Tests.antt =====
-- A small volume: ten sectors of eight bytes, and two sectors to a cluster.
use mein_os.Prelude.{
  ℕ, zero, suc, ◌+◌, ◌*◌, ◌%◌, ◌-◌, ◌≤◌, ◌<◌, ◌≡◌, ◌↔◌, refl, min, List, [], ◌∷◌, arith, ◌==◌,
  if◌then◌else◌, length, ltb,
}
use mein_os.Fat.{
  Bootsector, FatFs, fat16, bytes, bytes_read, no_block, past_block, read_blocks, fat_read,
  fat_fs_file_read,
}
use mein_os.Fat.Bytes.{byte_at}
use mein_os.Fat.Sector.{Readable, fat_read_iff}
use mein_os.Fat.Part.{position_in, file_byte, IsChain}
use mein_os.Fat.Cluster.{fat_fs_file_read-Bytes}
use mein_os.Fat.Chain.{clusters, fat_entry, fat_clchain_create}

abbrev boot : Bootsector
boot = record {
  sector_size = 8;
  cluster_size = 2;
  reserved_sectors = 1;
  num_sectors_small = 10;
  fat_size_small = 1;
  num_sectors = 0;
  fat_size = 0;
}

-- The FAT links cluster 2 to cluster 3, and that is the last one.
abbrev fat_byte : ℕ → ℕ
fat_byte o = if o == 4 then 3 else if o == 5 then 0 else 255

abbrev volume : FatFs
volume = record {
  bootsector = boot;
  type_is = fat16;
  data_area = 16;
  has_block = λ b. ltb b 10;
  cache = λ b o. if b == 1 then fat_byte o else (b * 8 + o) % 256;
}

abbrev chain : List ℕ
chain = 32 ∷ 64 ∷ []

-- A `fat_read` across the end of a sector goes behind the cache block.
across : fat_read volume 5 6 ≡ past_block
unfolding fat_read read_blocks
across = refl

fat_read_iff_example :
    (fat_read volume 16 20 ≡ bytes_read (bytes (byte_at volume) 16 20)) ↔ Readable volume 16 20
fat_read_iff_example = fat_read_iff volume (omega arith) 16 20 (omega arith)

-- A read that starts on the volume and goes on behind its end comes to a block that there is not.
behind : fat_read volume 72 16 ≡ no_block
unfolding fat_read read_blocks
behind = refl

on_sectors : (n : ℕ) → position_in chain n % 8 ≡ 0
on_sectors zero = refl
on_sectors (suc zero) = refl
on_sectors (suc (suc n)) = refl

on_volume : (n : ℕ) → n < length chain → position_in chain n + 16 ≤ 80
on_volume zero h = omega arith
on_volume (suc zero) h = omega arith
on_volume (suc (suc n)) h = absurd (omega (arith, h))

chain-IsChain : IsChain volume chain
chain-IsChain = record {
  some_bytes = omega arith;
  some_sectors = omega arith;
  on_sectors = on_sectors;
  on_volume = on_volume;
  room = omega arith;
  volume = omega arith;
  blocks = λ b h. ground (arith, h);
}

fat_fs_file_read-Bytes_example :
    fat_fs_file_read volume chain 30 (λ i. 0) 8 100
    ≡ (min 100 (30 - 8), bytes_read (bytes (file_byte volume chain) 8 (min 100 (30 - 8))))
fat_fs_file_read-Bytes_example =
    fat_fs_file_read-Bytes volume chain (λ i. 0) chain-IsChain 30 8 100 (omega arith) (omega arith)
      (omega arith) refl

two_clusters : fat_clchain_create volume 2 2 ≡ clusters (16 ∷ 32 ∷ [])
unfolding fat_clchain_create fat_entry fat_read read_blocks
two_clusters = refl
