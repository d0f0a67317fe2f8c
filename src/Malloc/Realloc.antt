-- ===== src/Malloc/Realloc.antt =====
-- `realloc`: the blocks of the heap. The bytes that it copies are left out.
use mein_os.Prelude.{
  ℕ, ◌+◌, ◌-◌, ◌*◌, ◌%◌, ◌^◌, ◌≤◌, ◌<◌, ◌≡◌, refl, true, false, ◌&&◌, Option, none, some, List, [],
  ◌∷◌, arith, ◌==◌, if◌then◌else◌, ltb, leb, lt→ltb,
}
use mein_os.Malloc.{Block, header_size, Heap, insert_list, put_size, malloc, then_free, free}
use mein_os.Malloc.Bytes.{covers, count, IsBlock, IsFresh}
use mein_os.Malloc.Insert.{Inserted, insert_list-Inserted}
use mein_os.Malloc.Serve.{block, Split, rest_of, smaller-Split}
use mein_os.Malloc.Arena.{
  Arena, AreUsed, IsSound, header_of, Picked, Picked-count, Picked-AreUsed, AreUsed-put,
}

-- What `realloc` comes to: the address, the pages that are left and the heap, or no result of `malloc` or
-- `free`. Where the new header lies on fields of another header that are still read, what is left
-- depends on the bytes of that header, and is not followed further.
pub data Resized : Type 0 where
  resized : (address : ℕ) (pages : List ℕ) → Heap → Resized
  no_result : Resized
  overlaps : Resized

-- A new free block at `a`, and a new size for the header
abbrev split_off : (header size a rest : ℕ) → Heap → Option Heap
split_off header size a rest h =
    then_free (insert_list (record { addr = a; size = rest }) h.free)
      λ l. some (record { free = l; size_of = put_size h.size_of header size })

-- What the loop over the free blocks comes to
pub data Grown : Type 0 where
  grown : Heap → Grown
  stuck : Grown
  on_header : Grown

abbrev grown_by : Option Heap → Grown
grown_by none = stuck
grown_by (some h) = grown h

-- The loop over the free blocks: `header + header->size` counts in headers. The block that is found
-- stays in the list; where the new header lies on its header, its size or its next block is overwritten.
unfoldable pub grow : (header old size : ℕ) → List Block → Heap → Grown
grow header old size [] h = grown h
grow header old size (b ∷ bs) h =
    let further = grow header old size bs h in
    if b.addr == (header + header_size * old) % 2 ^ 32 && leb (size - old) b.size
    then if ltb (b.size - (size - old)) header_size
      then grown h
      else if ltb (size - old) header_size
      then on_header
      else grown_by (
          split_off header size ((b.addr + size + 2 ^ 32 - old) % 2 ^ 32) (b.size - (size - old)) h)
    else further

-- `malloc`, `memcpy` and `free`, where the block has not got the new size
abbrev move_block : (header size address : ℕ) (pages : List ℕ) → Heap → Resized
move_block header size address pages h =
    if h.size_of header == size then resized address pages h else elim (malloc size pages h) [
      | none ↦ no_result
      | some r ↦ elim (free address r.2) [ none ↦ no_result | some h' ↦ resized r.0 r.1 h' ]
    ]

abbrev resized_to : (address : ℕ) (pages : List ℕ) → Option Heap → Resized
resized_to address pages none = no_result
resized_to address pages (some h) = resized address pages h

-- `realloc`. A new header less than 8 bytes behind the old one lies on the size field of that, and
-- `new->flags = 0` overwrites it before it is read.
unfoldable pub realloc : (address size : ℕ) (pages : List ℕ) → Heap → Resized
unfolding grow
realloc address size pages h =
    let header = header_of address in
    let old = h.size_of header in
    if size == 0
    then resized_to 0 pages (free address h)
    else if ltb size old
    then if ltb (old - size) header_size
      then resized address pages h
      else if ltb size 8
      then overlaps
      else resized_to address pages
          (split_off header size ((header + size) % 2 ^ 32) (old - size) h)
    else if ltb old size
    then elim (grow header old size h.free h) [
      | grown h' ↦ move_block header size address pages h'
      | stuck ↦ no_result
      | on_header ↦ overlaps
    ]
    else resized address pages h

-- The block has the new size, and the bytes behind it are free.
abbrev pub Shrunk : (a : Arena) (b : Block) (size : ℕ) (l : List Block) → Resized → Type 0
Shrunk a b size l no_result = ⊥
Shrunk a b size l overlaps = ⊥
Shrunk a b size l (resized address pages h) =
    (address ≡ (b.addr + header_size) % 2 ^ 32)
    × IsSound (record { heap = h; pages = pages; used = block b.addr size ∷ l })
    × ((x : ℕ) → count h.free x + covers (block b.addr size) x ≡ count a.heap.free x + covers b x)

-- `realloc` of a block in use on a sound arena to a smaller size, where both the block that is left and
-- the rest of it have room for a header: the address stays, and the arena is sound with the smaller
-- block in use and the rest of it free.
pub realloc-Shrunk :
    (a : Arena) (b : Block) (size : ℕ) (l : List Block)
    → IsSound a
    → Picked b a.used l
    → header_size ≤ size
    → size + header_size ≤ b.size
    → Shrunk a b size l (realloc ((b.addr + header_size) % 2 ^ 32) size a.pages a.heap)
unfolding realloc
realloc-Shrunk a b size l s p least room =
    rw (at, u.1, some_size, lt→ltb size b.size (omega (arith, room)), big, no_overlap)
      (go (insert_list (rest_of b size) a.heap.free) (
        insert_list-Inserted 0 (rest_of b size) a.heap.free (omega arith) t.is_block s.apart fresh))
  where
    u : IsBlock b × (a.heap.size_of b.addr ≡ b.size) × AreUsed a.heap.size_of l
    u = Picked-AreUsed a.heap.size_of b a.used l p s.are_used

    at : header_of ((b.addr + header_size) % 2 ^ 32) ≡ b.addr
    at = ground (arith, u.0.0, u.0.1)

    pos : 0 < size
    pos = omega (arith, least)

    no_overlap : ltb size 8 ≡ false
    no_overlap = ground (arith, least)

    some_size : (size == 0) ≡ false
    some_size = ground (arith, pos)

    big : ltb (b.size - size) header_size ≡ false
    big = ground (arith, room)

    t : Split b size
    t = smaller-Split b size (omega (arith, room)) u.0

    taken : (x : ℕ) → count a.used x ≡ covers b x + count l x
    taken = Picked-count b a.used l p

    fresh : IsFresh (rest_of b size) a.heap.free
    fresh x = omega (arith, s.once x, taken x, t.bytes x)

    self : (b.addr == b.addr) ≡ true
    self = ground arith

    go :
        (r : Option (List Block))
        → Inserted 0 (rest_of b size) a.heap.free r
        → Shrunk a b size l (
            resized_to ((b.addr + header_size) % 2 ^ 32) a.pages (
              then_free r
                λ l'. some (record { free = l'; size_of = put_size a.heap.size_of b.addr size })))
    go none i = absurd i
    go (some l') i = (
      refl,
      record {
        are_pages = s.are_pages;
        apart = i.0;
        once = λ x. omega (arith, s.once x, i.1 x, taken x, t.bytes x);
        are_used = (
          (pos, omega (arith, u.0.1, room)),
          (
            rw self refl,
            AreUsed-put a.heap.size_of (block b.addr size) l pos
                (λ x. omega (arith, s.once x, taken x, t.bytes x)) u.2,
          ),
        );
      },
      λ x. omega (arith, i.1 x, t.bytes x),
    )
