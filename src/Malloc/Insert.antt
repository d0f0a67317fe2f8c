-- ===== src/Malloc/Insert.antt =====
-- `_malloc_insertlist`: the list gains the bytes of the block, and stays in order.
use mein_os.Prelude.{
  ℕ, ◌+◌, ◌%◌, ◌^◌, ◌≤◌, ◌<◌, ◌≡◌, refl, true, false, inl, inr, Option, none, some, List, [], ◌∷◌,
  arith, ◌==◌, if◌then◌else◌, ltb, Bool-cases, lt→ltb,
}
use mein_os.Malloc.{Block, end_of, join_next, cons_to, insert_behind, insert_list}
use mein_os.Malloc.Bytes.{
  covers, count, IsBlock, Apart, Apart-lower, IsFresh, IsFresh-tail, before_or_behind,
}

-- The list `l` with the bytes of `h`, in order from `lo` on
abbrev pub Inserted : (lo : ℕ) (h : Block) (l : List Block) → Option (List Block) → Type 0
Inserted lo h l none = ⊥
Inserted lo h l (some l') = Apart lo l' × ((x : ℕ) → count l' x ≡ covers h x + count l x)

end_of-block : (b : Block) → IsBlock b → end_of b ≡ b.addr + b.size
end_of-block b h = omega (arith, h.1)

merged-covers :
    (a b : Block) (size : ℕ)
    → a.addr + a.size ≡ b.addr
    → size ≡ a.size + b.size
    → (x : ℕ) → covers (record a { size = size }) x ≡ covers a x + covers b x
merged-covers a b size touch e x = ground (arith, touch, e)

-- Two blocks that touch, as one block
abbrev pub whole : (a b : Block) → Block
whole a b = record a { size = (a.size + b.size) % 2 ^ 32 }

-- The block in place of both reaches to the end of the second one.
pub record Joined (a b : Block) : Type 0 where
  pub size_is : (a.size + b.size) % 2 ^ 32 ≡ a.size + b.size
  pub is_block : IsBlock (whole a b)
  pub ends : a.addr + (a.size + b.size) % 2 ^ 32 ≡ b.addr + b.size
  pub bytes : (x : ℕ) → covers (whole a b) x ≡ covers a x + covers b x

pub touching-Joined :
    (a b : Block) → IsBlock a → IsBlock b → (end_of a == b.addr) ≡ true → Joined a b
touching-Joined a b ha hb e = record {
  size_is = fits;
  is_block = (omega (arith, fits, ha.0), omega (arith, fits, touch, hb.1));
  ends = omega (arith, fits, touch);
  bytes = merged-covers a b ((a.size + b.size) % 2 ^ 32) touch fits;
}
  where
    touch : a.addr + a.size ≡ b.addr
    touch = ground (arith, e, end_of-block a ha)

    fits : (a.size + b.size) % 2 ^ 32 ≡ a.size + b.size
    fits = omega (arith, touch, hb.1)

module _ (lo : ℕ) (h : Block) (low : lo ≤ h.addr) (hb : IsBlock h) where
  pub join_next-Inserted :
      (l : List Block) → Apart (h.addr + h.size) l → Inserted lo h l (join_next h l)
  unfolding join_next
  join_next-Inserted [] a = rw open_end ((low, (hb, tt)), λ x. omega arith)
    where
      open_end : (end_of h == 0) ≡ false
      open_end = ground (arith, hb)
  join_next-Inserted (n ∷ ns) a = elim (Bool-cases (end_of h == n.addr)) [
    | inl e ↦
        let j = touching-Joined h n hb a.1.0 e in
        rw e (
          (low, (j.is_block, Apart-lower (n.addr + n.size) _ ns (omega (arith, j.ends)) a.1.1)),
          λ x. omega (arith, j.bytes x),
        )
    | inr e ↦ rw e ((low, (hb, a)), λ x. refl)
  ]

-- One more block before the list
cons_to-Inserted :
    (lo : ℕ) (h cur : Block) (l : List Block) (r : Option (List Block))
    → lo ≤ cur.addr
    → IsBlock cur
    → Inserted (cur.addr + cur.size) h l r
    → Inserted lo h (cur ∷ l) (cons_to cur r)
cons_to-Inserted lo h cur l none low b i = i
cons_to-Inserted lo h cur l (some l') low b i = ((low, (b, i.0)), λ x. omega (arith, i.1 x))

-- The block stands right behind `cur`, and before the blocks of `l`.
placed-Inserted :
    (lo : ℕ) (h cur : Block) (l : List Block)
    → IsBlock h
    → Apart lo (cur ∷ l)
    → cur.addr + cur.size ≤ h.addr
    → Apart (h.addr + h.size) l
    → Inserted lo h
        (cur ∷ l)
        (if end_of cur == h.addr then some (whole cur h ∷ l) else cons_to cur (join_next h l))
placed-Inserted lo h cur l hb a behind above = elim (Bool-cases (end_of cur == h.addr)) [
  | inl e ↦
      let j = touching-Joined cur h a.1.0 hb e in
      rw e (
        (a.0, (j.is_block, Apart-lower (h.addr + h.size) _ l (omega (arith, j.ends)) above)),
        λ x. omega (arith, j.bytes x),
      )
  | inr e ↦ rw e (
      cons_to-Inserted lo h cur l (join_next h l) a.0 a.1.0
        (join_next-Inserted (cur.addr + cur.size) h behind hb l above))
]

-- A block without a common byte that starts behind another one starts behind its end.
pub starts_behind :
    (h b : Block) (bs : List Block)
    → IsBlock h
    → IsBlock b
    → IsFresh h (b ∷ bs)
    → b.addr < h.addr
    → b.addr + b.size ≤ h.addr
starts_behind h b bs hb bb f less = elim (before_or_behind h b bs hb bb f) [
  | inl le ↦ absurd (omega (arith, le, hb.0, less))
  | inr le ↦ le
]

pub ends_before :
    (h b : Block) (bs : List Block)
    → IsBlock h
    → IsBlock b
    → IsFresh h (b ∷ bs)
    → h.addr < b.addr
    → h.addr + h.size ≤ b.addr
ends_before h b bs hb bb f less = elim (before_or_behind h b bs hb bb f) [
  | inl le ↦ le
  | inr le ↦ absurd (omega (arith, le, bb.0, less))
]

pub not_before :
    (h b : Block) (bs : List Block)
    → IsBlock h
    → IsBlock b
    → IsFresh h (b ∷ bs)
    → ltb h.addr b.addr ≡ false
    → b.addr < h.addr
not_before h b bs hb bb f e = elim (before_or_behind h b bs hb bb f) [
  | inl le ↦ absurd (ground (arith, le, e, hb.0))
  | inr le ↦ ground (arith, le, bb.0)
]

pub insert_behind-Inserted :
    (lo : ℕ) (h cur : Block) (l : List Block)
    → IsBlock h
    → Apart lo (cur ∷ l)
    → IsFresh h (cur ∷ l)
    → cur.addr < h.addr
    → Inserted lo h (cur ∷ l) (insert_behind h cur l)
unfolding insert_behind
insert_behind-Inserted lo h cur [] hb a f less =
    rw (lt→ltb cur.addr h.addr less)
      (placed-Inserted lo h cur [] hb a (starts_behind h cur [] hb a.1.0 f less) tt)
insert_behind-Inserted lo h cur (n ∷ ns) hb a f less = elim (Bool-cases (ltb h.addr n.addr)) [
  | inl e ↦
      rw (lt→ltb cur.addr h.addr less, e)
        (placed-Inserted lo h cur (n ∷ ns) hb a (starts_behind h cur (n ∷ ns) hb a.1.0 f less) (
          ends_before h n ns hb a.1.1.1.0 (IsFresh-tail h cur (n ∷ ns) f) (ground (arith, e)),
          a.1.1.1,
        ))
  | inr e ↦
      rw (lt→ltb cur.addr h.addr less, e, other)
        (cons_to-Inserted lo h cur (n ∷ ns) (insert_behind h n ns) a.0 a.1.0 (
          insert_behind-Inserted (cur.addr + cur.size) h n ns hb a.1.1
            (IsFresh-tail h cur (n ∷ ns) f)
            (not_before h n ns hb a.1.1.1.0 (IsFresh-tail h cur (n ∷ ns) f) e)))
]
  where
    other : (cur.addr == h.addr) ≡ false
    other = ground (arith, less)

pub insert_list-Inserted :
    (lo : ℕ) (h : Block) (l : List Block)
    → lo ≤ h.addr
    → IsBlock h
    → Apart lo l
    → IsFresh h l
    → Inserted lo h l (insert_list h l)
unfolding insert_list
insert_list-Inserted lo h [] low hb a f = join_next-Inserted lo h low hb [] tt
insert_list-Inserted lo h (b ∷ bs) low hb a f = elim (Bool-cases (ltb h.addr b.addr)) [
  | inl e ↦ rw e (
      join_next-Inserted lo h low hb (b ∷ bs)
        (ends_before h b bs hb a.1.0 f (ground (arith, e)), a.1))
  | inr e ↦ rw e (insert_behind-Inserted lo h b bs hb a f (not_before h b bs hb a.1.0 f e))
]
