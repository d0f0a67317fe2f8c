-- ===== src/Malloc/Bytes.antt =====
-- Which bytes the blocks of a list hold.
use mein_os.Prelude.{
  ℕ, ◌+◌, ◌^◌, ◌≤◌, ◌<◌, ◌&&◌, ◌⊎◌, List, [], ◌∷◌, arith, if◌then◌else◌, ltb, leb,
}
use mein_os.Malloc.{Block}

-- 1 where the block holds the byte `x`, and 0 elsewhere
abbrev pub covers : Block → ℕ → ℕ
covers b x = if leb b.addr x && ltb x (b.addr + b.size) then 1 else 0

-- How many blocks hold the byte `x`
abbrev pub count : List Block → ℕ → ℕ
count [] x = 0
count (b ∷ bs) x = covers b x + count bs x

-- The block has bytes, and ends before the end of memory.
abbrev pub IsBlock : Block → Type 0
IsBlock b = (0 < b.size) × (b.addr + b.size < 2 ^ 32)

-- The blocks follow one another from `lo` on, and none reaches into the next.
abbrev pub Apart : (lo : ℕ) → List Block → Type 0
Apart lo [] = Unit
Apart lo (b ∷ bs) = (lo ≤ b.addr) × (IsBlock b × Apart (b.addr + b.size) bs)

pub Apart-lower : (lo lo' : ℕ) (l : List Block) → lo' ≤ lo → Apart lo l → Apart lo' l
Apart-lower lo lo' [] h a = tt
Apart-lower lo lo' (b ∷ bs) h a = (omega (arith, h, a.0), a.1)

-- No byte of the block is in the list.
abbrev pub IsFresh : Block → List Block → Type 0
IsFresh h l = (x : ℕ) → covers h x + count l x ≤ 1

pub IsFresh-tail : (h b : Block) (bs : List Block) → IsFresh h (b ∷ bs) → IsFresh h bs
IsFresh-tail h b bs f x = omega (arith, f x)

-- One of two blocks without a common byte lies before the other.
pub before_or_behind :
    (h b : Block) (bs : List Block)
    → IsBlock h
    → IsBlock b
    → IsFresh h (b ∷ bs)
    → (h.addr + h.size ≤ b.addr) ⊎ (b.addr + b.size ≤ h.addr)
before_or_behind h b bs hb bb f = ground (arith, hb, bb, f h.addr, f b.addr)
