-- ===== src/Llist/Remove.antt =====
-- `llist_remove` against the sequence.
use mein_os.Prelude.{
  ℕ, zero, suc, ◌-◌, ◌^◌, ◌<◌, ◌≤◌, ◌≡◌, refl, ◌∙◌, ◌≢◌, true, false, Option, none, some, [], ◌∷◌,
  arith, inl, inr, ltb, Bool-cases, length,
}
use mein_os.Llist.Mem.{
  Node, Header, Mem, ok, update, eq_of_ne, update_self, load_node-ok, load_header-ok, set_next-ok,
  set_size-ok, free_node-ok,
}
use mein_os.Llist.Ops.{decr, remove, pop}
use mein_os.Llist.Chain.{
  Cells, has, IsList, SameElse, SameElse-cons, Returns, Returns-mono, update_ne,
}
use mein_os.Llist.Walk.{
  address, value_at, address-ne_null, address_out, node_at, get_node_at_refines,
}
use mein_os.Llist.Relink.{
  remove_cell, length-remove_cell, address-ne_next, first-remove_cell, has-address, Chain-remove,
}
use mein_os.Llist.Stack.{pop-cons, pop-nil}

-- What a call of `llist_remove` that finds its node leaves behind.
abbrev pub Removed : ℕ → ℕ → Cells → Mem → ℕ → Mem → Type 0
Removed l i xs m r m' =
    (r ≡ value_at xs i)
    × IsList m' l (remove_cell xs i)
    × (m'.nodes (address xs i) ≡ none)
    × SameElse l xs m m'

ne_of_has : (a b : ℕ) (xs : Cells) → has a xs ≡ false → has b xs ≡ true → a ≢ b
ne_of_has a b xs h k = λ e. cc

remove-suc :
    (f : ℕ → Option Node) (g : ℕ → Option Header) (l i : ℕ) (xs : Cells)
    → IsList (record { nodes = f; lists = g }) l xs
    → suc i < length xs
    → Returns
        (Removed l (suc i) xs (record { nodes = f; lists = g }))
        (remove l (suc i) (record { nodes = f; lists = g }))
unfolding remove
remove-suc f g l i xs is lt =
    rw
      (
        eq_of_ne l 0 is.ne_null,
        eq_of_ne (suc i) 0 (omega arith),
        pred_lem,
        get_node_at_refines f g l i xs is,
        eq_of_ne prev 0 prev_ne,
        load_node-ok f g prev _ prev_ne at_prev,
        eq_of_ne node 0 node_ne,
        load_node-ok f g node _ node_ne (node_at f xs (suc i) is.chain lt),
        set_next-ok f g prev _ prev_ne at_prev (address xs (suc (suc i))),
        free_node-ok (update f prev n) g node _ node_ne
            (update_ne f prev n node apart ∙ node_at f xs (suc i) is.chain lt),
        load_header-ok _ g l _ is.ne_null is.header,
        set_size-ok _ g l _ is.ne_null is.header (decr (length xs)),
      )
      (
        refl,
        record {
          ne_null = is.ne_null;
          header = rw (first-remove_cell xs i, ← size_lem) (update_self g l _);
          chain = Chain-remove f xs i is.chain lt;
          short = short_lem;
        },
        update_self (update f prev n) node none,
        record {
          lists = update_ne g l _;
          nodes = λ a o.
              update_ne (update f prev n) node none a
                (ne_of_has a node xs o (has-address xs (suc i) lt))
              ∙ update_ne f prev n a (ne_of_has a prev xs o (has-address xs i (omega arith)));
        },
      )
  where
    prev : ℕ
    prev = address xs i

    node : ℕ
    node = address xs (suc i)

    n : Option Node
    n = some (record { value = value_at xs i; next = address xs (suc (suc i)) })

    pred_lem : suc i - 1 ≡ i
    pred_lem = omega arith

    prev_ne : address xs i ≢ 0
    prev_ne = address-ne_null f xs i is.chain (omega arith)

    node_ne : address xs (suc i) ≢ 0
    node_ne = address-ne_null f xs (suc i) is.chain lt

    at_prev : f (address xs i) ≡ some (record { value = value_at xs i; next = address xs (suc i) })
    at_prev = node_at f xs i is.chain (omega arith)

    apart : address xs (suc i) ≢ address xs i
    apart = address-ne_next f xs i is.chain lt

    size_lem : decr (length xs) ≡ length (remove_cell xs (suc i))
    size_lem = omega (arith, length-remove_cell xs (suc i) lt, is.short)

    short_lem : length (remove_cell xs (suc i)) < 2 ^ 31
    short_lem = omega (arith, length-remove_cell xs (suc i) lt, is.short)

remove-zero : (m : Mem) (l : ℕ) → l ≢ 0 → remove l 0 m ≡ pop l m
unfolding remove pop
remove-zero m l ne = rw (eq_of_ne l 0 ne)

-- `llist_remove` at an index in range returns the element there, frees its node, leaves the other
-- elements in their order, and changes no other object.
pub remove_refines :
    (m : Mem) (l i : ℕ) (xs : Cells)
    → IsList m l xs
    → i < length xs
    → Returns (Removed l i xs m) (remove l i m)
remove_refines m l zero [] is lt = absurd (omega arith)
remove_refines m l zero ((a, v) ∷ xs) is lt = rw (remove-zero m l is.ne_null) (
    Returns-mono _ (Removed l 0 ((a, v) ∷ xs) m) (pop l m)
      (λ r m' p. (p.0, p.1, p.2, SameElse-cons l a v xs m m' p.3)) (pop-cons m l a v xs is))
remove_refines m l (suc i) xs is lt = remove-suc m.nodes m.lists l i xs is lt

-- Out of range it returns NULL and changes nothing.
pub remove_out :
    (m : Mem) (l i : ℕ) (xs : Cells) → IsList m l xs → length xs ≤ i → remove l i m ≡ ok 0 m
unfolding remove
remove_out m l zero [] is out = rw (remove-zero m l is.ne_null) (pop-nil m l is)
remove_out m l zero ((a, v) ∷ xs) is out = absurd (omega arith)
remove_out m l (suc i) xs is out =
    rw
      (
        eq_of_ne l 0 is.ne_null,
        eq_of_ne (suc i) 0 (omega arith),
        pred_lem,
        get_node_at_refines m.nodes m.lists l i xs is,
      )
      (elim (Bool-cases (ltb i (length xs))) [
        | inr none_there ↦ rw (address_out xs i (ground arith))
        | inl inside ↦
            let lt : i < length xs = ground arith in
            let ne = address-ne_null m.nodes xs i is.chain lt in
            rw (
              eq_of_ne (address xs i) 0 ne,
              load_node-ok m.nodes m.lists (address xs i) _ ne (node_at m.nodes xs i is.chain lt),
              address_out xs (suc i) out,
            )
      ])
  where
    pred_lem : suc i - 1 ≡ i
    pred_lem = omega arith
