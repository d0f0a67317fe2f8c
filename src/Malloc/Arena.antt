-- ===== src/Malloc/Arena.antt =====
-- The heap together with its clients: which blocks are in use, and which pages are still to come.
use mein_os.Prelude.{
  ℕ, ◌+◌, ◌-◌, ◌%◌, ◌^◌, ◌≤◌, ◌<◌, ◌≡◌, refl, false, some, List, [], ◌∷◌, arith, ◌==◌,
}
use mein_os.Malloc.{Block, header_size, Heap, put_size, malloc, size_at, free}
use mein_os.Malloc.Bytes.{covers, count, IsBlock, Apart, IsFresh, IsFresh-tail}
use mein_os.Malloc.Serve.{block, page_blocks, ArePages}

pub record Arena : Type 0 where
  pub heap : Heap
  pub pages : List ℕ
  pub used : List Block

-- The blocks in use have bytes, and the size field of each is its size.
abbrev pub AreUsed : (ℕ → ℕ) → List Block → Type 0
AreUsed f [] = Unit
AreUsed f (b ∷ bs) = IsBlock b × ((f b.addr ≡ b.size) × AreUsed f bs)

-- The free blocks are in order, and no byte belongs to two of the pages to come, the free blocks and
-- the blocks in use.
pub record IsSound (a : Arena) : Type 0 where
  pub are_pages : ArePages a.pages
  pub apart : Apart 0 a.heap.free
  pub once : (x : ℕ) → count (page_blocks a.pages) x + count a.heap.free x + count a.used x ≤ 1
  pub are_used : AreUsed a.heap.size_of a.used

-- The header of what `malloc` returned
abbrev pub header_of : ℕ → ℕ
header_of address = (address + 2 ^ 32 - header_size) % 2 ^ 32

-- A list less one of its blocks
pub data Picked (b : Block) : List Block → List Block → Type 0 where
  here : (l : List Block) → Picked b (b ∷ l) l
  there : (c : Block) (l l' : List Block) → Picked b l l' → Picked b (c ∷ l) (c ∷ l')

abbrev pub with_block : Arena → ℕ → List ℕ → Heap → ℕ → Arena
with_block a size ps h address = record {
  heap = h;
  pages = ps;
  used = block (header_of address) (size + header_size) ∷ a.used;
}

-- What the clients of the heap do: they get a block, or give one back
pub data Step : Arena → Arena → Type 0 where
  gets :
      (size address : ℕ) (ps : List ℕ) (a : Arena) (h : Heap)
      → size + 24 < 2 ^ 32
      → malloc size a.pages a.heap ≡ some (address, ps, h)
      → Step a (with_block a size ps h address)
  gives_back :
      (b : Block) (l : List Block) (a : Arena) (h : Heap)
      → Picked b a.used l
      → free ((b.addr + header_size) % 2 ^ 32) a.heap ≡ some h
      → Step a (record a { heap = h; used = l })

pub data Reaches (a : Arena) : Arena → Type 0 where
  start : Reaches a a
  next : (b c : Arena) → Reaches a b → Step b c → Reaches a c

pub AreUsed-put :
    (f : ℕ → ℕ) (new : Block) (l : List Block)
    → 0 < new.size
    → IsFresh new l
    → AreUsed f l
    → AreUsed (put_size f new.addr new.size) l
AreUsed-put f new [] pos fresh u = tt
AreUsed-put f new (c ∷ l) pos fresh u =
    (u.0, (rw other u.1.0, AreUsed-put f new l pos (IsFresh-tail new c l fresh) u.1.1))
  where
    other : (c.addr == new.addr) ≡ false
    other = ground (arith, fresh c.addr, pos, u.0.0)

pub Picked-count :
    (b : Block) (l l' : List Block) → Picked b l l' → (x : ℕ) → count l x ≡ covers b x + count l' x
Picked-count b _ _ (here l) x = refl
Picked-count b _ _ (there c l l' p) x = omega (arith, Picked-count b l l' p x)

pub Picked-AreUsed :
    (f : ℕ → ℕ) (b : Block) (l l' : List Block)
    → Picked b l l'
    → AreUsed f l
    → IsBlock b × (f b.addr ≡ b.size) × AreUsed f l'
Picked-AreUsed f b _ _ (here l) u = (u.0, u.1.0, u.1.1)
Picked-AreUsed f b _ _ (there c l l' p) u =
    let r = Picked-AreUsed f b l l' p u.1.1 in (r.0, r.1, (u.0, (u.1.0, r.2)))

-- No free block starts at a byte of a block in use.
pub size_at-used :
    (used a : ℕ) (l : List Block) (lo : ℕ) → Apart lo l → count l a ≡ 0 → size_at used a l ≡ used
size_at-used used a [] lo ap e = refl
size_at-used used a (b ∷ bs) lo ap e =
    rw other (size_at-used used a bs (b.addr + b.size) ap.1.1 (omega (arith, e)))
  where
    other : (b.addr == a) ≡ false
    other = ground (arith, e, ap.1.0.0)
