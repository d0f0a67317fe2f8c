-- ===== src/Fat/Path.antt =====
-- `fat_clchain_create` against the format of a FAT.
use mein_os.Prelude.{ℕ, ◌+◌, ◌/◌, ◌^◌, ◌<◌, arith}
use native.Mathlib.Nat.{div-le_self}
use mein_os.Fat.{FatFs, fat_start}
use mein_os.Fat.Chain.{entry_at, entry_size, Links}
use mein_os.Fat.Links.{IsFat, entry_at-lt, entry_size-le}

module _ (fs : FatFs) (fat : IsFat fs) where
  module _ (c : ℕ) (small : c < 2 ^ 28) where
    room :
        (fat_start fs.bootsector + entry_at fs.type_is c) / fs.bootsector.sector_size
          + entry_size fs.type_is
        < 2 ^ 32
    room = omega (
      arith,
      div-le_self (fat_start fs.bootsector + entry_at fs.type_is c) fs.bootsector.sector_size,
      entry_at-lt fs.type_is c small,
      entry_size-le fs.type_is,
      fat.fat_room,
    )
