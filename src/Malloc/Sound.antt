-- ===== src/Malloc/Sound.antt =====
-- Nothing that the clients of the heap do gives a byte away twice.
use mein_os.Prelude.{
  ℕ, ◌+◌, ◌%◌, ◌^◌, ◌<◌, ◌≡◌, sym, refl, true, Option, none, some, List, arith, ◌==◌,
}
use mathlib.Core.Path.{subst}
use mein_os.Malloc.{
  Block, header_size, Heap, get_free, put_size, malloc, insert_list, then_free, free,
}
use mein_os.Malloc.Bytes.{covers, count, IsBlock, Apart, IsFresh}
use mein_os.Malloc.Insert.{Inserted, insert_list-Inserted}
use mein_os.Malloc.Serve.{block, page_blocks, Got, get_free-Got}
use mein_os.Malloc.Arena.{
  Arena, AreUsed, IsSound, header_of, Picked, with_block, Step, gets, gives_back, Reaches, start,
  next, here, AreUsed-put, Picked-count, Picked-AreUsed, size_at-used,
}

-- The answer of `malloc` is a block that nobody had, and all is well with the arena that it leaves.
abbrev pub Served : (a : Arena) (size : ℕ) → Option (ℕ × List ℕ × Heap) → Type 0
Served a size none = Unit
Served a size (some r) =
    IsSound (with_block a size r.1 r.2 r.0)
    × ((header_of r.0 + header_size) % 2 ^ 32 ≡ r.0)
    × ((x : ℕ)
        → count (page_blocks a.pages) x + count a.heap.free x
          ≡ covers (block (header_of r.0) (size + header_size)) x
            + (count (page_blocks r.1) x + count r.2.free x))

header_of-behind : (a : ℕ) → a + header_size < 2 ^ 32 → header_of ((a + header_size) % 2 ^ 32) ≡ a
header_of-behind a room = omega (arith, room)

-- The heap with a block at `a` handed out
abbrev got_heap : Arena → (a size : ℕ) → List Block → Heap
got_heap s a size l = record { free = l; size_of = put_size s.heap.size_of a size }

Got-Served :
    (a : Arena) (size : ℕ) (r : ℕ × List ℕ × List Block)
    → IsSound a
    → Got (size + header_size) a.pages a.heap.free (some r)
    → Served a size
        (some ((r.0 + header_size) % 2 ^ 32, r.1, got_heap a r.0 (size + header_size) r.2))
Got-Served a size r s g = rw at (
  record {
    are_pages = g.1;
    apart = g.2;
    once = λ x. omega (arith, s.once x, g.3 x);
    are_used = (
      (omega arith, g.0),
      (
        rw self refl,
        AreUsed-put a.heap.size_of (block r.0 (size + header_size)) a.used (omega arith)
            (λ x. omega (arith, s.once x, g.3 x)) s.are_used,
      ),
    );
  },
  refl,
  g.3,
)
  where
    at : header_of ((r.0 + header_size) % 2 ^ 32) ≡ r.0
    at = header_of-behind r.0 (omega (arith, g.0))

    self : (r.0 == r.0) ≡ true
    self = ground arith

-- `malloc` on a sound arena, with a size below 2 ^ 32 - 24 and where it returns. The memory
-- stands behind a header in a block that was free or comes from a page; all other bytes stay as
-- they were, and the arena with the new block in use is sound.
pub malloc-Served :
    (a : Arena) (size : ℕ)
    → IsSound a
    → size + 24 < 2 ^ 32
    → Served a size (malloc size a.pages a.heap)
unfolding malloc
malloc-Served a size s room =
    subst
      (λ w. Served a size (elim (get_free w a.pages a.heap.free) [
        | none ↦ none
        | some r ↦ some ((r.0 + header_size) % 2 ^ 32, r.1, got_heap a r.0 w r.2)
      ]))
      (sym fits)
      (go (get_free (size + header_size) a.pages a.heap.free) (
        get_free-Got (size + header_size) (omega arith) (omega (arith, room)) a.pages a.heap.free
          s.are_pages s.apart (λ x. omega (arith, s.once x))))
  where
    fits : (size + header_size) % 2 ^ 32 ≡ size + header_size
    fits = omega (arith, room)

    go :
        (r : Option (ℕ × List ℕ × List Block))
        → Got (size + header_size) a.pages a.heap.free r
        → Served a size (elim r [
          | none ↦ none
          | some r ↦
              some ((r.0 + header_size) % 2 ^ 32, r.1, got_heap a r.0 (size + header_size) r.2)
        ])
    go none g = tt
    go (some r) g = Got-Served a size r s g

-- The answer of `free`
abbrev pub Freed : (a : Arena) (b : Block) (l : List Block) → Option Heap → Type 0
Freed a b l none = ⊥
Freed a b l (some h) =
    IsSound (record a { heap = h; used = l })
    × ((x : ℕ) → count h.free x ≡ covers b x + count a.heap.free x)

pub free-Freed :
    (a : Arena) (b : Block) (l : List Block)
    → IsSound a
    → Picked b a.used l
    → Freed a b l (free ((b.addr + header_size) % 2 ^ 32) a.heap)
unfolding free
free-Freed a b l s p =
    rw (at, size_at-used (a.heap.size_of b.addr) b.addr a.heap.free 0 s.apart not_free, u.1)
      (go (insert_list b a.heap.free)
        (insert_list-Inserted 0 b a.heap.free (omega arith) u.0 s.apart fresh))
  where
    u : IsBlock b × (a.heap.size_of b.addr ≡ b.size) × AreUsed a.heap.size_of l
    u = Picked-AreUsed a.heap.size_of b a.used l p s.are_used

    at : header_of ((b.addr + header_size) % 2 ^ 32) ≡ b.addr
    at = ground (arith, u.0.0, u.0.1)

    fresh : IsFresh b a.heap.free
    fresh x = omega (arith, s.once x, Picked-count b a.used l p x)

    not_free : count a.heap.free b.addr ≡ 0
    not_free = ground (arith, fresh b.addr, u.0.0)

    go :
        (r : Option (List Block))
        → Inserted 0 b a.heap.free r
        → Freed a b l (then_free r λ l'. some (record (a.heap) { free = l' }))
    go none i = absurd i
    go (some l') i = (
      record {
        are_pages = s.are_pages;
        apart = i.0;
        once = λ x. omega (arith, s.once x, i.1 x, Picked-count b a.used l p x);
        are_used = u.2;
      },
      i.1,
    )

Served-equal :
    (a : Arena) (size : ℕ) (r : ℕ × List ℕ × Heap) (o : Option (ℕ × List ℕ × Heap))
    → o ≡ some r
    → Served a size o
    → Served a size (some r)
Served-equal a size r o e s = subst (λ o. Served a size o) e s

Freed-equal :
    (a : Arena) (b : Block) (l : List Block) (h : Heap) (o : Option Heap)
    → o ≡ some h
    → Freed a b l o
    → Freed a b l (some h)
Freed-equal a b l h o e s = subst (λ o. Freed a b l o) e s

Step-IsSound : {a b : Arena} → Step a b → IsSound a → IsSound b
Step-IsSound (gets size address ps a h room e) s =
    (Served-equal a size (address, ps, h) (malloc size a.pages a.heap) e
      (malloc-Served a size s room)).0
Step-IsSound (gives_back b l a h p e) s =
    (Freed-equal a b l h (free ((b.addr + header_size) % 2 ^ 32) a.heap) e (free-Freed a b l s p)).0

-- From a sound arena, with the free blocks in order and no byte in two of the free blocks, the
-- blocks in use and the pages to come, the clients call `malloc` with sizes below 2 ^ 32 - 24 and
-- `free` with blocks in use, where these return: then the arena is sound again.
pub Reaches-IsSound : {a b : Arena} → IsSound a → Reaches a b → IsSound b
Reaches-IsSound s start = s
Reaches-IsSound s (next b c r t) = Step-IsSound t (Reaches-IsSound s r)

-- The answer of `free` for what `malloc` returned
abbrev pub GivenBack : (a : Arena) → List ℕ → Option Heap → Type 0
GivenBack a ps none = ⊥
GivenBack a ps (some h) =
    Apart 0 h.free
    × ((x : ℕ)
        → count (page_blocks ps) x + count h.free x
          ≡ count (page_blocks a.pages) x + count a.heap.free x)

Freed-GivenBack :
    (a : Arena) (size : ℕ) (r : ℕ × List ℕ × Heap) (o : Option Heap)
    → Served a size (some r)
    → Freed (with_block a size r.1 r.2 r.0) (block (header_of r.0) (size + header_size)) a.used o
    → GivenBack a r.1 o
Freed-GivenBack a size r none s f = f
Freed-GivenBack a size r (some h) s f = (f.0.apart, λ x. omega (arith, s.2 x, f.1 x))

-- What `malloc` returned on a sound arena, for a size below 2 ^ 32 - 24, can be given back:
-- `free` succeeds, the free blocks are in order, and each byte is as often in the free blocks and
-- the pages to come as it was before.
pub free-malloc :
    (a : Arena) (size address : ℕ) (ps : List ℕ) (h : Heap)
    → IsSound a
    → size + 24 < 2 ^ 32
    → malloc size a.pages a.heap ≡ some (address, ps, h)
    → GivenBack a ps (free address h)
free-malloc a size address ps h s room e =
    let t =
      Served-equal a size (address, ps, h) (malloc size a.pages a.heap) e
        (malloc-Served a size s room) in
    subst (λ x. GivenBack a ps (free x h)) t.1
      (Freed-GivenBack a size (address, ps, h) _ t
        (free-Freed (with_block a size ps h address)
          (block (header_of address) (size + header_size)) a.used t.0 (here a.used)))
