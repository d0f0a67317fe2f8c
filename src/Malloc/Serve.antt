-- ===== src/Malloc/Serve.antt =====
-- `_malloc_getfree`: the block that is handed out had been free, and no other byte leaves the list.
use mein_os.Prelude.{
  ℕ, ◌+◌, ◌-◌, ◌%◌, ◌^◌, ◌≤◌, ◌<◌, ◌≡◌, false, inl, inr, Option, none, some, List, [], ◌∷◌, arith,
  ◌==◌, leb, Bool-cases,
}
use mein_os.Malloc.{Block, header_size, page_size, cons_rest, take_fit, then_free, donate, get_free}
use mein_os.Malloc.Bytes.{covers, count, IsBlock, Apart, Apart-lower, IsFresh}
use mein_os.Malloc.Insert.{Inserted, insert_list-Inserted}

-- The block of `size` bytes at `a`
abbrev pub block : (a size : ℕ) → Block
block a size = record { addr = a; size = size }

-- The answer is a block of the list `l`, and the other bytes of the list are still there.
abbrev pub Taken : (lo size : ℕ) → List Block → Option (ℕ × List Block) → Type 0
Taken lo size l none = Unit
Taken lo size l (some r) =
    (lo ≤ r.0)
    × (r.0 + size < 2 ^ 32)
    × Apart lo r.1
    × ((x : ℕ) → count l x ≡ covers (block r.0 size) x + count r.1 x)

-- What is left of a block behind its first `size` bytes
abbrev pub rest_of : Block → ℕ → Block
rest_of b size = block ((b.addr + size) % 2 ^ 32) (b.size - size)

pub record Split (b : Block) (size : ℕ) : Type 0 where
  pub starts : (b.addr + size) % 2 ^ 32 ≡ b.addr + size
  pub is_block : IsBlock (rest_of b size)
  pub ends : (b.addr + size) % 2 ^ 32 + (b.size - size) ≡ b.addr + b.size
  pub bytes : (x : ℕ) → covers b x ≡ covers (block b.addr size) x + covers (rest_of b size) x

split_covers :
    (b : Block) (size n m : ℕ)
    → n ≡ b.addr + size
    → b.size ≡ size + m
    → (x : ℕ) → covers b x ≡ covers (block b.addr size) x + covers (block n m) x
split_covers b size n m e e' x = ground (arith, e, e')

pub smaller-Split : (b : Block) (size : ℕ) → size < b.size → IsBlock b → Split b size
smaller-Split b size less hb = record {
  starts = starts;
  is_block = (omega (arith, less), omega (arith, starts, hb.1, less));
  ends = omega (arith, starts, less);
  bytes =
      split_covers b size ((b.addr + size) % 2 ^ 32) (b.size - size) starts (omega (arith, less));
}
  where
    starts : (b.addr + size) % 2 ^ 32 ≡ b.addr + size
    starts = omega (arith, less, hb.1)

whole_block :
    (b : Block) (size : ℕ) → size ≡ b.size → (x : ℕ) → covers b x ≡ covers (block b.addr size) x
whole_block b size e x = ground (arith, e)

cons_rest-Taken :
    (lo size : ℕ) (b : Block) (l : List Block) (r : Option (ℕ × List Block))
    → lo ≤ b.addr
    → IsBlock b
    → Taken (b.addr + b.size) size l r
    → Taken lo size (b ∷ l) (cons_rest b r)
cons_rest-Taken lo size b l none low hb t = tt
cons_rest-Taken lo size b l (some r) low hb t =
    (omega (arith, low, t.0), t.1, (low, (hb, t.2)), λ x. omega (arith, t.3 x))

pub take_fit-Taken :
    (lo size : ℕ) (l : List Block)
    → 0 < size
    → size + header_size < 2 ^ 32
    → Apart lo l
    → Taken lo size l (take_fit size l)
unfolding take_fit
take_fit-Taken lo size [] pos room a = tt
take_fit-Taken lo size (b ∷ bs) pos room a = elim (Bool-cases (size == b.size)) [
  | inl e ↦ rw e (
    a.0,
    ground (arith, e, a.1.0.1),
    Apart-lower (b.addr + b.size) lo bs (omega (arith, a.0)) a.1.1,
    λ x. omega (arith, whole_block b size (ground (arith, e)) x),
  )
  | inr e ↦ elim (Bool-cases (leb ((size + header_size) % 2 ^ 32) b.size)) [
    | inl e' ↦
        let less : size < b.size = ground (arith, e', room) in
        let t = smaller-Split b size less a.1.0 in
        rw (e, e')
          (
            a.0,
            omega (arith, less, a.1.0.1),
            (
              omega (arith, t.starts, a.0),
              (t.is_block, Apart-lower (b.addr + b.size) _ bs (omega (arith, t.ends)) a.1.1),
            ),
            λ x. omega (arith, t.bytes x),
          )
    | inr e' ↦
        rw (e, e')
          (cons_rest-Taken lo size b bs (take_fit size bs) a.0 a.1.0
            (take_fit-Taken (b.addr + b.size) size bs pos room a.1.1))
  ]
]

-- The pages that are still to come, as blocks
abbrev pub page_blocks : List ℕ → List Block
page_blocks [] = []
page_blocks (p ∷ ps) = block p page_size ∷ page_blocks ps

-- A page is neither at NULL nor at the end of memory.
abbrev pub ArePages : List ℕ → Type 0
ArePages [] = Unit
ArePages (p ∷ ps) = (0 < p) × ((p + page_size < 2 ^ 32) × ArePages ps)

-- The answer had been free or on a page, and the other bytes still are.
abbrev pub Got : (size : ℕ) → List ℕ → List Block → Option (ℕ × List ℕ × List Block) → Type 0
Got size ps l none = Unit
Got size ps l (some r) =
    (r.0 + size < 2 ^ 32)
    × ArePages r.1
    × Apart 0 r.2
    × ((x : ℕ)
        → count (page_blocks ps) x + count l x
          ≡ covers (block r.0 size) x + (count (page_blocks r.1) x + count r.2 x))

pub donate-Inserted :
    (p : ℕ) (l : List Block)
    → 0 < p
    → p + page_size < 2 ^ 32
    → Apart 0 l
    → IsFresh (block p page_size) l
    → Inserted 0 (block p page_size) l (donate p page_size l)
unfolding donate
donate-Inserted p l pos room a f =
    rw nonnull (insert_list-Inserted 0 (block p page_size) l (omega arith) (omega arith, room) a f)
  where
    nonnull : (p == 0) ≡ false
    nonnull = ground (arith, pos)

-- The page has come to the list.
donated-Got :
    (size p : ℕ) (ps : List ℕ) (l l' : List Block) (r : Option (ℕ × List ℕ × List Block))
    → ((x : ℕ) → count l' x ≡ covers (block p page_size) x + count l x)
    → Got size ps l' r
    → Got size (p ∷ ps) l r
donated-Got size p ps l l' none e g = tt
donated-Got size p ps l l' (some r) e g = (g.0, g.1, g.2, λ x. omega (arith, e x, g.3 x))

module _ (size : ℕ) (pos : 0 < size) (room : size + header_size < 2 ^ 32) where
  Taken-Got :
      (ps : List ℕ) (l : List Block) (r : ℕ × List Block)
      → ArePages ps
      → Taken 0 size l (some r)
      → Got size ps l (some (r.0, ps, r.1))
  Taken-Got ps l r pages t = (t.1, pages, t.2, λ x. omega (arith, t.3 x))

  pub get_free-Got :
      (ps : List ℕ) (l : List Block)
      → ArePages ps
      → Apart 0 l
      → ((x : ℕ) → count (page_blocks ps) x + count l x ≤ 1)
      → Got size ps l (get_free size ps l)
  unfolding get_free
  get_free-Got [] l pages a once = go (take_fit size l) (take_fit-Taken 0 size l pos room a)
    where
      go :
          (r : Option (ℕ × List Block))
          → Taken 0 size l r
          → Got size [] l (elim r [ none ↦ none | some r ↦ some (r.0, [], r.1) ])
      go none t = tt
      go (some r) t = Taken-Got [] l r tt t
  get_free-Got (p ∷ ps) l pages a once =
      go
        (grown (λ l'. get_free-Got ps l' pages.1.1) (donate p page_size l)
          (donate-Inserted p l pages.0 pages.1.0 a (λ x. omega (arith, once x))))
        (take_fit size l) (take_fit-Taken 0 size l pos room a)
    where
      grown :
          ((l' : List Block)
            → Apart 0 l'
            → ((x : ℕ) → count (page_blocks ps) x + count l' x ≤ 1)
            → Got size ps l' (get_free size ps l'))
          → (r : Option (List Block)) → Inserted 0 (block p page_size) l r
          → Got size (p ∷ ps) l (then_free r (get_free size ps))
      grown further none i = absurd i
      grown further (some l') i =
          donated-Got size p ps l l' (get_free size ps l') i.1
            (further l' i.0 (λ x. omega (arith, i.1 x, once x)))

      go :
          Got size (p ∷ ps) l (then_free (donate p page_size l) (get_free size ps))
          → (r : Option (ℕ × List Block)) → Taken 0 size l r
          → Got size (p ∷ ps) l (elim r [
            | none ↦ then_free (donate p page_size l) (get_free size ps)
            | some r ↦ some (r.0, p ∷ ps, r.1)
          ])
      go more none t = more
      go more (some r) t = Taken-Got (p ∷ ps) l r pages t
