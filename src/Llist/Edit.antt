-- ===== src/Llist/Edit.antt =====
-- `llist_insert` and `llist_remove` against the sequence.
use mein_os.Prelude.{
  ℕ, zero, suc, ◌-◌, ◌^◌, ◌<◌, ◌≤◌, ◌≡◌, refl, ◌∙◌, ◌≢◌, true, false, Option, none, some, ◌∷◌,
  arith, length,
}
use mein_os.Llist.Mem.{
  Node, Header, Mem, update, eq_of_ne, update_self, malloc_node-ok, set_value-again, load_node-ok,
  load_header-ok, set_next-ok, set_next-again, set_size-ok,
}
use mein_os.Llist.Ops.{incr, incr_lem, insert, push}
use mein_os.Llist.Chain.{
  Cells, has, IsList, SameElse, SameElse-cons, Returns, Returns-mono, Chain-update, Chain-unused,
  update_ne, has-cons_ne,
}
use mein_os.Llist.Walk.{address, address-ne_null, address_out, node_at, get_node_at_refines}
use mein_os.Llist.Relink.{
  insert_cell, length-insert_cell, first-insert_cell, has-address, Chain-insert,
}
use mein_os.Llist.Stack.{push_refines}

-- A list survives the creation of a node elsewhere.
IsList-new :
    (f : ℕ → Option Node) (g : ℕ → Option Header) (l a : ℕ) (n : Node) (xs : Cells)
    → IsList (record { nodes = f; lists = g }) l xs
    → has a xs ≡ false
    → IsList (record { nodes = update f a (some n); lists = g }) l xs
IsList-new f g l a n xs is out = record {
  ne_null = is.ne_null;
  header = is.header;
  chain = Chain-update f xs a (some n) is.chain out;
  short = is.short;
}

ne_of_has : (a b : ℕ) (xs : Cells) → has a xs ≡ false → has b xs ≡ true → a ≢ b
ne_of_has a b xs h k = λ e. cc

-- With room for one more, `llist_insert` behind node `i` puts the new node there.
insert-suc :
    (f : ℕ → Option Node) (g : ℕ → Option Header) (fresh : ℕ) (raw : Node) (l i v : ℕ) (xs : Cells)
    → IsList (record { nodes = f; lists = g }) l xs
    → fresh ≢ 0
    → f fresh ≡ none
    → suc (length xs) < 2 ^ 31
    → i < length xs
    → Returns
        (λ r m'.
          (r ≡ l)
          × IsList m' l (insert_cell xs (suc i) (fresh, v))
          × SameElse l ((fresh, v) ∷ xs) (record { nodes = f; lists = g }) m')
        (insert fresh raw l (suc i) v (record { nodes = f; lists = g }))
unfolding insert
insert-suc f g fresh raw l i v xs is ne unused room lt =
    rw
      (
        malloc_node-ok (record { nodes = f; lists = g }) fresh raw ne,
        set_value-again f g fresh ne raw v,
        eq_of_ne l 0 is.ne_null,
        eq_of_ne (suc i) 0 (omega arith),
        pred_lem,
        get_node_at_refines _ g l i xs
            (IsList-new f g l fresh (record { value = v; next = raw.next }) xs is out),
        eq_of_ne prev 0 prev_ne,
        load_node-ok _ g prev _ prev_ne
            (node_at _ xs i (Chain-update f xs fresh _ is.chain out) lt),
        set_next-again f g fresh ne (record { value = v; next = raw.next }) (address xs (suc i)),
        set_next-ok _ g prev _ prev_ne (node_at _ xs i (Chain-update f xs fresh _ is.chain out) lt)
            fresh,
        load_header-ok _ g l _ is.ne_null is.header,
        set_size-ok _ g l _ is.ne_null is.header (incr (length xs)),
        incr_lem (length xs) (omega arith),
      )
      (
        refl,
        record {
          ne_null = is.ne_null;
          header =
              rw (first-insert_cell xs i (fresh, v), length-insert_cell xs (suc i) (fresh, v) lt)
                (update_self g l _);
          chain = Chain-insert f xs i fresh v is.chain ne out lt;
          short = rw (length-insert_cell xs (suc i) (fresh, v) lt) room;
        },
        record {
          lists = update_ne g l _;
          nodes = λ a o.
              update_ne (update f fresh new) prev _ a
                (ne_of_has a prev xs (tail_out a o) (has-address xs i lt))
              ∙ update_ne f fresh new a (has-cons_ne a fresh v xs o);
        },
      )
  where
    prev : ℕ
    prev = address xs i

    new : Option Node
    new = some (record { value = v; next = address xs (suc i) })

    pred_lem : suc i - 1 ≡ i
    pred_lem = omega arith

    out : has fresh xs ≡ false
    out = Chain-unused f xs fresh is.chain unused

    prev_ne : address xs i ≢ 0
    prev_ne = address-ne_null f xs i is.chain lt

    tail_out : (a : ℕ) → has a ((fresh, v) ∷ xs) ≡ false → has a xs ≡ false
    tail_out a o = ground arith

-- In front, `llist_insert` does the work of `llist_push`.
insert-zero :
    (m : Mem) (fresh : ℕ) (raw : Node) (l v : ℕ)
    → fresh ≢ 0
    → l ≢ 0
    → insert fresh raw l 0 v m ≡ push fresh raw l v m
unfolding insert push
insert-zero m fresh raw l v ne ne_l = rw (
  eq_of_ne l 0 ne_l,
  malloc_node-ok m fresh raw ne,
  set_value-again m.nodes m.lists fresh ne raw v,
)

-- `llist_insert` with a node from `malloc` at an index up to the length puts the value there, returns
-- the list, and changes no other object. This holds for a list whose new length is below 2 ^ 31.
pub insert_refines :
    (m : Mem) (fresh : ℕ) (raw : Node) (l i v : ℕ) (xs : Cells)
    → IsList m l xs
    → fresh ≢ 0
    → m.nodes fresh ≡ none
    → suc (length xs) < 2 ^ 31
    → i ≤ length xs
    → Returns
        (λ r m'.
          (r ≡ l) × IsList m' l (insert_cell xs i (fresh, v)) × SameElse l ((fresh, v) ∷ xs) m m')
        (insert fresh raw l i v m)
insert_refines m fresh raw l zero v xs is ne unused room lt =
    rw (insert-zero m fresh raw l v ne is.ne_null) (
      Returns-mono _ _ (push fresh raw l v m)
        (λ r m' p. (p.0, p.1, SameElse-cons l fresh v xs m m' p.2))
        (push_refines m fresh raw l v xs is ne unused room))
insert_refines m fresh raw l (suc i) v xs is ne unused room lt =
    insert-suc m.nodes m.lists fresh raw l i v xs is ne unused room lt

-- `llist_insert` at an index past the length returns NULL and keeps the list, but the node that
-- `malloc` gave stays allocated.
pub insert_leaks :
    (m : Mem) (fresh : ℕ) (raw : Node) (l i v : ℕ) (xs : Cells)
    → IsList m l xs
    → fresh ≢ 0
    → m.nodes fresh ≡ none
    → length xs < i
    → Returns
        (λ r m'.
          (r ≡ 0)
          × IsList m' l xs
          × (m'.nodes fresh ≡ some (record { value = v; next = raw.next })))
        (insert fresh raw l i v m)
unfolding insert
insert_leaks m fresh raw l zero v xs is ne unused lt = absurd (omega arith)
insert_leaks m fresh raw l (suc i) v xs is ne unused lt =
    let new : Node = record { value = v; next = raw.next } in
    let kept =
      IsList-new m.nodes m.lists l fresh new xs is
        (Chain-unused m.nodes xs fresh is.chain unused) in
    rw
      (
        malloc_node-ok m fresh raw ne,
        set_value-again m.nodes m.lists fresh ne raw v,
        eq_of_ne l 0 is.ne_null,
        eq_of_ne (suc i) 0 (omega arith),
        pred_lem,
        get_node_at_refines _ m.lists l i xs kept,
        address_out xs i (omega arith),
      )
      (refl, kept, update_self m.nodes fresh (some new))
  where
    pred_lem : suc i - 1 ≡ i
    pred_lem = omega arith
