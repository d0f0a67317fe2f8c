-- ===== src/Malloc/Enough.antt =====
-- One page is enough for `malloc`, where a page holds the block.
use mein_os.Prelude.{
  ℕ, ◌+◌, ◌%◌, ◌^◌, ◌≤◌, ◌<◌, ◌≡◌, sym, false, ◌⊎◌, inl, inr, Option, none, some, List, [], ◌∷◌,
  arith, ◌==◌, if◌then◌else◌, ltb, leb, Bool-cases, lt→ltb,
}
use mathlib.Core.Path.{subst}
use mein_os.Malloc.{
  Block, header_size, page_size, Heap, end_of, join_next, cons_to, insert_behind, insert_list,
  donate, cons_rest, take_fit, get_free, put_size, malloc, then_free,
}
use mein_os.Malloc.Bytes.{count, IsBlock, Apart, IsFresh, IsFresh-tail}
use mein_os.Malloc.Insert.{Inserted, whole, touching-Joined, ends_before, not_before}
use mein_os.Malloc.Serve.{block, page_blocks, ArePages, donate-Inserted}
use mein_os.Malloc.Arena.{Arena, IsSound}

-- A block of the list has at least `s` bytes.
abbrev Fits : (s : ℕ) → List Block → Type 0
Fits s [] = ⊥
Fits s (b ∷ bs) = (s ≤ b.size) ⊎ Fits s bs

abbrev FitsIn : (s : ℕ) → Option (List Block) → Type 0
FitsIn s none = Unit
FitsIn s (some l) = Fits s l

cons_to-FitsIn : (s : ℕ) (b : Block) (r : Option (List Block)) → FitsIn s r → FitsIn s (cons_to b r)
cons_to-FitsIn s b none f = tt
cons_to-FitsIn s b (some l) f = inr f

join_next-FitsIn :
    (h : Block) (l : List Block)
    → IsBlock h
    → Apart (h.addr + h.size) l
    → FitsIn h.size (join_next h l)
unfolding join_next
join_next-FitsIn h [] hb a = elim (Bool-cases (end_of h == 0)) [
  | inl e ↦ rw e tt
  | inr e ↦ rw e (inl (omega arith))
]
join_next-FitsIn h (n ∷ ns) hb a = elim (Bool-cases (end_of h == n.addr)) [
  | inl e ↦ rw e (inl (omega (arith, (touching-Joined h n hb a.1.0 e).size_is)))
  | inr e ↦ rw e (inl (omega arith))
]

placed-FitsIn :
    (lo : ℕ) (h cur : Block) (l : List Block)
    → IsBlock h
    → Apart lo (cur ∷ l)
    → FitsIn h.size (join_next h l)
    → FitsIn h.size
        (if end_of cur == h.addr then some (whole cur h ∷ l) else cons_to cur (join_next h l))
placed-FitsIn lo h cur l hb a f = elim (Bool-cases (end_of cur == h.addr)) [
  | inl e ↦ rw e (inl (omega (arith, (touching-Joined cur h a.1.0 hb e).size_is)))
  | inr e ↦ rw e (cons_to-FitsIn h.size cur (join_next h l) f)
]

insert_behind-FitsIn :
    (lo : ℕ) (h cur : Block) (l : List Block)
    → IsBlock h
    → Apart lo (cur ∷ l)
    → IsFresh h (cur ∷ l)
    → cur.addr < h.addr
    → FitsIn h.size (insert_behind h cur l)
unfolding insert_behind
insert_behind-FitsIn lo h cur [] hb a f less =
    rw (lt→ltb cur.addr h.addr less) (placed-FitsIn lo h cur [] hb a (join_next-FitsIn h [] hb tt))
insert_behind-FitsIn lo h cur (n ∷ ns) hb a f less = elim (Bool-cases (ltb h.addr n.addr)) [
  | inl e ↦
      rw (lt→ltb cur.addr h.addr less, e)
        (placed-FitsIn lo h cur (n ∷ ns) hb a (
          join_next-FitsIn h (n ∷ ns) hb (
            ends_before h n ns hb a.1.1.1.0 (IsFresh-tail h cur (n ∷ ns) f) (ground (arith, e)),
            a.1.1.1,
          )))
  | inr e ↦
      rw (lt→ltb cur.addr h.addr less, e, other)
        (cons_to-FitsIn h.size cur (insert_behind h n ns) (
          insert_behind-FitsIn (cur.addr + cur.size) h n ns hb a.1.1 (IsFresh-tail h cur (n ∷ ns) f)
            (not_before h n ns hb a.1.1.1.0 (IsFresh-tail h cur (n ∷ ns) f) e)))
]
  where
    other : (cur.addr == h.addr) ≡ false
    other = ground (arith, less)

insert_list-FitsIn :
    (lo : ℕ) (h : Block) (l : List Block)
    → IsBlock h
    → Apart lo l
    → IsFresh h l
    → FitsIn h.size (insert_list h l)
unfolding insert_list
insert_list-FitsIn lo h [] hb a f = join_next-FitsIn h [] hb tt
insert_list-FitsIn lo h (b ∷ bs) hb a f = elim (Bool-cases (ltb h.addr b.addr)) [
  | inl e ↦
      rw e (join_next-FitsIn h (b ∷ bs) hb (ends_before h b bs hb a.1.0 f (ground (arith, e)), a.1))
  | inr e ↦ rw e (insert_behind-FitsIn lo h b bs hb a f (not_before h b bs hb a.1.0 f e))
]

abbrev pub IsSome : {A : Type 0} → Option A → Type 0
IsSome none = ⊥
IsSome (some x) = Unit

cons_rest-IsSome : (b : Block) (r : Option (ℕ × List Block)) → IsSome r → IsSome (cons_rest b r)
cons_rest-IsSome b none s = s
cons_rest-IsSome b (some r) s = tt

take_fit-IsSome :
    (size s : ℕ) (l : List Block) → size + header_size ≤ s → Fits s l → IsSome (take_fit size l)
unfolding take_fit
take_fit-IsSome size s [] room f = absurd f
take_fit-IsSome size s (b ∷ bs) room f = elim (Bool-cases (size == b.size)) [
  | inl e ↦ rw e tt
  | inr e ↦ elim (Bool-cases (leb ((size + header_size) % 2 ^ 32) b.size)) [
    | inl e' ↦ rw (e, e') tt
    | inr e' ↦
        rw (e, e')
          (cons_rest-IsSome b (take_fit size bs) (take_fit-IsSome size s bs room (later f e')))
  ]
]
  where
    later :
        (s ≤ b.size) ⊎ Fits s bs → leb ((size + header_size) % 2 ^ 32) b.size ≡ false → Fits s bs
    later (inl le) e = absurd (ground (arith, le, e, room))
    later (inr f) e = f

get_free-at_once :
    (size : ℕ) (ps : List ℕ) (l : List Block)
    → IsSome (take_fit size l)
    → IsSome (get_free size ps l)
unfolding get_free
get_free-at_once size [] l s = go (take_fit size l) s
  where
    go :
        (r : Option (ℕ × List Block))
        → IsSome r
        → IsSome (elim r as (λ x. Option (ℕ × List ℕ × List Block)) [
          | none ↦ none
          | some r ↦ some (r.0, [], r.1)
        ])
    go none s = s
    go (some r) s = tt
get_free-at_once size (p ∷ ps) l s = go (take_fit size l) s
  where
    go :
        (r : Option (ℕ × List Block))
        → IsSome r
        → IsSome (elim r as (λ x. Option (ℕ × List ℕ × List Block)) [
          | none ↦ then_free (donate p page_size l) (get_free size ps)
          | some r ↦ some (r.0, p ∷ ps, r.1)
        ])
    go none s = absurd s
    go (some r) s = tt

module _ (size page : ℕ) (ps : List ℕ) (l : List Block)
    (room : size + header_size ≤ page_size) where
  donated-IsSome :
      (r : Option (List Block))
      → Inserted 0 (block page page_size) l r
      → FitsIn page_size r
      → IsSome (then_free r (get_free size ps))
  donated-IsSome none i f = i
  donated-IsSome (some l') i f =
      get_free-at_once size ps l' (take_fit-IsSome size page_size l' room f)

  donate-FitsIn :
      0 < page
      → page + page_size < 2 ^ 32
      → Apart 0 l
      → IsFresh (block page page_size) l
      → FitsIn page_size (donate page page_size l)
  unfolding donate
  donate-FitsIn pos below a f =
      rw nonnull (insert_list-FitsIn 0 (block page page_size) l (omega arith, below) a f)
    where
      nonnull : (page == 0) ≡ false
      nonnull = ground (arith, pos)

  get_free-IsSome :
      0 < page
      → page + page_size < 2 ^ 32
      → Apart 0 l
      → IsFresh (block page page_size) l
      → IsSome (get_free size (page ∷ ps) l)
  unfolding get_free
  get_free-IsSome pos below a f =
      go
        (donated-IsSome (donate page page_size l) (donate-Inserted page l pos below a f)
          (donate-FitsIn pos below a f))
        (take_fit size l)
    where
      go :
          IsSome (then_free (donate page page_size l) (get_free size ps))
          → (r : Option (ℕ × List Block))
          → IsSome (elim r as (λ x. Option (ℕ × List ℕ × List Block)) [
            | none ↦ then_free (donate page page_size l) (get_free size ps)
            | some r ↦ some (r.0, page ∷ ps, r.1)
          ])
      go more none = more
      go more (some r) = tt

-- On a sound arena with a page to come, `malloc` of at most 4072 bytes returns memory.
pub malloc-IsSome :
    (a : Arena) (size page : ℕ) (ps : List ℕ)
    → IsSound a
    → a.pages ≡ page ∷ ps
    → size + 24 ≤ page_size
    → IsSome (malloc size a.pages a.heap)
unfolding malloc
malloc-IsSome a size page ps s e room =
    subst (λ q. IsSome (malloc size q a.heap)) (sym e)
      (go (get_free ((size + header_size) % 2 ^ 32) (page ∷ ps) a.heap.free) (
        get_free-IsSome ((size + header_size) % 2 ^ 32) page ps a.heap.free (omega (arith, room))
          pages.0 pages.1.0 s.apart (λ x. omega (arith, once x))))
  where
    pages : ArePages (page ∷ ps)
    pages = subst ArePages e s.are_pages

    once : (x : ℕ) → count (page_blocks (page ∷ ps)) x + count a.heap.free x + count a.used x ≤ 1
    once =
        subst (λ q. (x : ℕ) → count (page_blocks q) x + count a.heap.free x + count a.used x ≤ 1) e
          s.once

    go :
        (r : Option (ℕ × List ℕ × List Block))
        → IsSome r
        → IsSome (elim r as (λ x. Option (ℕ × List ℕ × Heap)) [
          | none ↦ none
          | some r ↦ some (
            (r.0 + header_size) % 2 ^ 32,
            r.1,
            record {
              free = r.2;
              size_of = put_size a.heap.size_of r.0 ((size + header_size) % 2 ^ 32);
            },
          )
        ])
    go none s = s
    go (some r) s = tt
