-- ===== src/Fat/Round.antt =====
-- One round of the loop of `fat_read`.
use mein_os.Prelude.{
  ℕ, zero, suc, ◌+◌, ◌-◌, ◌%◌, ◌^◌, ◌≤◌, ◌<◌, ◌≡◌, refl, Bool, not, List, true, false, [], arith,
  ltb, leb, ◌==◌, if◌then◌else◌,
}
use mein_os.Fat.{
  FatFs, bytes, ReadResult, bytes_read, untouched, no_block, past_block, past_chain, unfinished,
  read_before, read_blocks,
}

-- What the loop reads before it goes on with the next block
abbrev pub now : (size rem : ℕ) → ℕ
now size rem = if ltb size rem then size else rem

pub now_full : (size rem : ℕ) → ltb size rem ≡ true → now size rem ≡ size
now_full size rem e = ground (arith, e)

pub now_part : (size rem : ℕ) → ltb size rem ≡ false → now size rem ≡ rem
now_part size rem e = ground (arith, e)

pub now-le : (size rem : ℕ) → now size rem ≤ size
now-le size rem = ground arith

pub now-le_all : (size rem : ℕ) → now size rem ≤ rem
now-le_all size rem = ground arith

pub now_pos : (size rem : ℕ) → 0 < size → 0 < rem → 0 < now size rem
now_pos size rem s r = ground (arith, s, r)

pub read_blocks_step :
    (fs : FatFs) (n block offset rem : ℕ)
    → 0 < rem
    → fs.has_block block ≡ true
    → offset + now fs.bootsector.sector_size rem ≤ fs.bootsector.sector_size
    → read_blocks fs (suc n) block offset rem
      ≡ read_before
          (bytes (fs.cache block) offset (now fs.bootsector.sector_size rem))
          (read_blocks fs n ((block + 1) % 2 ^ 32) 0 (rem - now fs.bootsector.sector_size rem))
unfolding read_blocks
read_blocks_step fs n block offset rem pos has fits = rw (some_left, has, inside) refl
  where
    some_left : (rem == 0) ≡ false
    some_left = ground (arith, pos)

    inside : leb (offset + now fs.bootsector.sector_size rem) fs.bootsector.sector_size ≡ true
    inside = ground (arith, fits)

pub read_blocks_done :
    (fs : FatFs) (n block offset : ℕ) → read_blocks fs n block offset 0 ≡ bytes_read []
unfolding read_blocks
read_blocks_done fs zero block offset = refl
read_blocks_done fs (suc n) block offset = refl

-- The read gave bytes.
abbrev pub IsRead : ReadResult → Type 0
IsRead (bytes_read xs) = Unit
IsRead untouched = ⊥
IsRead no_block = ⊥
IsRead past_block = ⊥
IsRead past_chain = ⊥
IsRead unfinished = ⊥

read_before-IsRead : (xs : List ℕ) (r : ReadResult) → IsRead (read_before xs r) → IsRead r
read_before-IsRead xs (bytes_read ys) h = h
read_before-IsRead xs untouched h = h
read_before-IsRead xs no_block h = h
read_before-IsRead xs past_block h = h
read_before-IsRead xs past_chain h = h
read_before-IsRead xs unfinished h = h

-- The tests of one round, where the read gives bytes
IsRead-tests :
    (left has fits : Bool) (done rest : ReadResult)
    → IsRead
        (if left then done else if not has then no_block else if fits then rest else past_block)
    → left ≡ false
    → (has ≡ true) × (fits ≡ true) × IsRead rest
IsRead-tests true has fits done rest h e = absurd (ground (arith, e))
IsRead-tests false true true done rest h e = (refl, refl, h)
IsRead-tests false true false done rest h e = absurd h
IsRead-tests false false fits done rest h e = absurd h

-- One round of a read that gives bytes
pub read_blocks_round :
    (fs : FatFs) (n block offset rem : ℕ)
    → 0 < rem
    → IsRead (read_blocks fs (suc n) block offset rem)
    → (fs.has_block block ≡ true)
      × (offset + now fs.bootsector.sector_size rem ≤ fs.bootsector.sector_size)
      × IsRead (read_blocks fs n ((block + 1) % 2 ^ 32) 0 (rem - now fs.bootsector.sector_size rem))
unfolding read_blocks
read_blocks_round fs n block offset rem pos h =
    let t =
      IsRead-tests (rem == 0) (fs.has_block block)
        (leb (offset + now fs.bootsector.sector_size rem) fs.bootsector.sector_size) _ _ h
        (ground (arith, pos)) in
    (t.0, ground (arith, t.1), read_before-IsRead _ _ t.2)
