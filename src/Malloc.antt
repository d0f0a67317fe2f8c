-- ===== src/Malloc.antt =====
-- kernel2/malloc.c: the heap of the kernel. The list of free blocks is the sequence of its blocks, with
-- the address of the header and the size with the header, and the size field of a block in use stands
-- at the address of its header.
pub mod Bytes
pub mod Insert
pub mod Serve
pub mod Arena
pub mod Sound
pub mod Enough
pub mod Realloc
mod Tests
use mein_os.Prelude.{
  ℕ, ◌+◌, ◌-◌, ◌*◌, ◌%◌, ◌^◌, Bool, true, false, ◌&&◌, ◌||◌, Option, none, some, List, [], ◌∷◌,
  ◌==◌, if◌then◌else◌, ltb, leb,
}

pub record Block : Type 0 where
  pub addr : ℕ
  pub size : ℕ

-- `sizeof(struct _malloc_header)`
abbrev pub header_size : ℕ
header_size = 12

abbrev pub page_size : ℕ
page_size = 4096

-- The address behind a block
abbrev pub end_of : Block → ℕ
end_of b = (b.addr + b.size) % 2 ^ 32

-- The list from the new block on, which is joined with the next one where they touch. With no next
-- block the pointer is NULL: a block that ends at the end of memory touches that, and the fault is `none`.
unfoldable pub join_next : Block → List Block → Option (List Block)
join_next h [] = if end_of h == 0 then none else some (h ∷ [])
join_next h (n ∷ ns) =
    if end_of h == n.addr
    then some (record h { size = (h.size + n.size) % 2 ^ 32 } ∷ ns)
    else some (h ∷ n ∷ ns)

-- Is the place of the new block right behind `cur`?
abbrev pub fits_behind : (h cur : Block) → List Block → Bool
fits_behind h cur [] = ltb cur.addr h.addr
fits_behind h cur (n ∷ ns) = ltb cur.addr h.addr && ltb h.addr n.addr

abbrev pub cons_to : Block → Option (List Block) → Option (List Block)
cons_to b none = none
cons_to b (some l) = some (b ∷ l)

-- The loop of `_malloc_insertlist`, at the block `cur`. A block that is in the list already goes through
-- the loop, and its next block is the one that it has in the list.
unfoldable pub insert_behind : (h cur : Block) → List Block → Option (List Block)
unfolding join_next
insert_behind h cur [] =
    if fits_behind h cur []
    then if end_of cur == h.addr
      then some (record cur { size = (cur.size + h.size) % 2 ^ 32 } ∷ [])
      else cons_to cur (join_next h [])
    else if cur.addr == h.addr
    then join_next h []
    else some (cur ∷ [])
insert_behind h cur (n ∷ ns) =
    let further = insert_behind h n ns in
    if fits_behind h cur (n ∷ ns)
    then if end_of cur == h.addr
      then some (record cur { size = (cur.size + h.size) % 2 ^ 32 } ∷ n ∷ ns)
      else cons_to cur (join_next h (n ∷ ns))
    else if cur.addr == h.addr
    then join_next h (n ∷ ns)
    else cons_to cur further

-- `_malloc_insertlist`. Where the new block is joined with the one before it, the last test reads and
-- writes only the header that is now inside of that block.
unfoldable pub insert_list : Block → List Block → Option (List Block)
insert_list h [] = join_next h []
insert_list h (b ∷ bs) = if ltb h.addr b.addr then join_next h (b ∷ bs) else insert_behind h b bs

-- `malloc_donatemem`
unfoldable pub donate : (addr size : ℕ) → List Block → Option (List Block)
donate addr size l =
    if addr == 0 then some l else insert_list (record { addr = addr; size = size }) l

abbrev pub cons_rest : Block → Option (ℕ × List Block) → Option (ℕ × List Block)
cons_rest b none = none
cons_rest b (some r) = some (r.0, b ∷ r.1)

-- One pass of `_malloc_getfree` over the list: the address of the block and the list without it
unfoldable pub take_fit : (size : ℕ) → List Block → Option (ℕ × List Block)
take_fit size [] = none
take_fit size (b ∷ bs) =
    let further = take_fit size bs in
    if size == b.size
    then some (b.addr, bs)
    else if leb ((size + header_size) % 2 ^ 32) b.size
    then some (b.addr, record { addr = (b.addr + size) % 2 ^ 32; size = b.size - size } ∷ bs)
    else cons_rest b further

pub record Heap : Type 0 where
  pub free : List Block
  pub size_of : ℕ → ℕ

abbrev pub then_free : {A : Type 0} → Option (List Block) → (List Block → Option A) → Option A
then_free none k = none
then_free (some l) k = k l

-- `_malloc_getfree`: the address, the pages that are left and the list. `pages` are the answers of
-- `_malloc_getpage` in turn; without a further answer the loop goes on, which is `none`.
unfoldable pub get_free :
    (size : ℕ) (pages : List ℕ) → List Block → Option (ℕ × List ℕ × List Block)
unfolding take_fit donate
get_free size [] l = elim (take_fit size l) [ none ↦ none | some r ↦ some (r.0, [], r.1) ]
get_free size (p ∷ ps) l = elim (take_fit size l) [
  | none ↦ then_free (donate p page_size l) (get_free size ps)
  | some r ↦ some (r.0, p ∷ ps, r.1)
]

abbrev pub put_size : (ℕ → ℕ) → ℕ → ℕ → ℕ → ℕ
put_size f a v x = if x == a then v else f x

-- `malloc`: the address that it returns, and what is left
unfoldable pub malloc : (size : ℕ) (pages : List ℕ) → Heap → Option (ℕ × List ℕ × Heap)
malloc size pages h =
    let whole = (size + header_size) % 2 ^ 32 in
    elim (get_free whole pages h.free) [
      | none ↦ none
      | some r ↦ some (
        (r.0 + header_size) % 2 ^ 32,
        r.1,
        record { free = r.2; size_of = put_size h.size_of r.0 whole },
      )
    ]

-- The size field of the header at `a`, where `used` is that of a block in use
abbrev pub size_at : (used a : ℕ) → List Block → ℕ
size_at used a [] = used
size_at used a (b ∷ bs) = if b.addr == a then b.size else size_at used a bs

-- `free`
unfoldable pub free : (address : ℕ) → Heap → Option Heap
unfolding insert_list
free address h =
    let header = (address + 2 ^ 32 - header_size) % 2 ^ 32 in
    let size = size_at (h.size_of header) header h.free in
    then_free (insert_list (record { addr = header; size = size }) h.free)
      λ l. some (record h { free = l })
