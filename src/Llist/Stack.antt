-- ===== src/Llist/Stack.antt =====
-- `llist_create`, `llist_size`, `llist_push` and `llist_pop` against the sequence.
use mein_os.Prelude.{ℕ, suc, ◌^◌, ◌<◌, ◌≡◌, refl, ◌≢◌, false, none, some, [], ◌∷◌, arith, length}
use mein_os.Llist.Mem.{
  Node, Header, Mem, ok, eq_of_ne, malloc_node-ok, set_value-again, load_header-ok, set_next-again,
  set_anchor-ok, set_size-again, update_self, malloc_header-ok, set_anchor-again, load_node-ok,
  free_node-ok,
}
use mein_os.Llist.Ops.{incr, incr_lem, decr, decr_lem, create, size, push, pop}
use mein_os.Llist.Chain.{
  Cells, values, first, has, IsList, SameElse, Returns, Chain-update, Chain-unused, length-values,
  update_ne, has-cons_ne,
}

lt_down : (k : ℕ) → suc k < 2 ^ 31 → k < 2 ^ 31
lt_down k h = omega arith

-- `llist_push` with a node from `malloc` returns the list, which then has the value in front of what
-- it had, and changes no other object. This holds for a list whose new length is below 2 ^ 31.
pub push_refines :
    (m : Mem) (fresh : ℕ) (raw : Node) (l v : ℕ) (xs : Cells)
    → IsList m l xs
    → fresh ≢ 0
    → m.nodes fresh ≡ none
    → suc (length xs) < 2 ^ 31
    → Returns
        (λ r m'. (r ≡ l) × IsList m' l ((fresh, v) ∷ xs) × SameElse l ((fresh, v) ∷ []) m m')
        (push fresh raw l v m)
unfolding push
push_refines m fresh raw l v xs is ne unused room =
    rw
      (
        eq_of_ne l 0 is.ne_null,
        malloc_node-ok m fresh raw ne,
        set_value-again m.nodes m.lists fresh ne raw v,
        load_header-ok _ m.lists l _ is.ne_null is.header,
        set_next-again m.nodes m.lists fresh ne _ (first xs),
        set_anchor-ok _ m.lists l _ is.ne_null is.header fresh,
        set_size-again _ m.lists l is.ne_null _ (incr (length xs)),
        incr_lem (length xs) (omega arith),
      )
      (
        refl,
        record {
          ne_null = is.ne_null;
          header = update_self m.lists l _;
          chain =
              (ne, update_self m.nodes fresh _, out, Chain-update m.nodes xs fresh _ is.chain out);
          short = room;
        },
        record {
          lists = update_ne m.lists l _;
          nodes = λ a o. update_ne m.nodes fresh _ a (has-cons_ne a fresh v [] o);
        },
      )
  where
    out : has fresh xs ≡ false
    out = Chain-unused m.nodes xs fresh is.chain unused

-- `llist_create` makes an empty list, and changes nothing else.
pub create_refines :
    (m : Mem) (fresh : ℕ) (raw : Header)
    → fresh ≢ 0
    → Returns
        (λ r m'. (r ≡ fresh) × IsList m' fresh [] × SameElse fresh [] m m')
        (create fresh raw m)
unfolding create
create_refines m fresh raw ne =
    rw
      (
        malloc_header-ok m fresh raw ne,
        set_anchor-again m.nodes m.lists fresh ne raw 0,
        set_size-again m.nodes m.lists fresh ne _ 0,
      )
      (
        refl,
        record {
          ne_null = ne;
          header = update_self m.lists fresh _;
          chain = tt;
          short = omega arith;
        },
        record { lists = update_ne m.lists fresh _; nodes = λ a o. refl },
      )

-- `llist_size` is the length, and the heap stays as it is.
pub size_refines :
    (m : Mem) (l : ℕ) (xs : Cells) → IsList m l xs → size l m ≡ ok (length (values xs)) m
unfolding size
size_refines m l [] is =
    rw (eq_of_ne l 0 is.ne_null, load_header-ok m.nodes m.lists l _ is.ne_null is.header)
size_refines m l ((a, v) ∷ xs) is = rw (
  eq_of_ne l 0 is.ne_null,
  load_header-ok m.nodes m.lists l _ is.ne_null is.header,
  eq_of_ne a 0 is.chain.0,
  length-values xs,
)

-- `llist_pop` on an empty list returns NULL and changes nothing.
pub pop-nil : (m : Mem) (l : ℕ) → IsList m l [] → pop l m ≡ ok 0 m
unfolding pop
pop-nil m l is =
    rw (eq_of_ne l 0 is.ne_null, load_header-ok m.nodes m.lists l _ is.ne_null is.header)

-- `llist_pop` on a list that is not empty returns the first value, frees its node, leaves the rest of
-- the list, and changes no other object.
pub pop-cons :
    (m : Mem) (l a v : ℕ) (xs : Cells)
    → IsList m l ((a, v) ∷ xs)
    → Returns
        (λ r m'. (r ≡ v) × IsList m' l xs × (m'.nodes a ≡ none) × SameElse l ((a, v) ∷ []) m m')
        (pop l m)
unfolding pop
pop-cons m l a v xs is =
    rw
      (
        eq_of_ne l 0 is.ne_null,
        load_header-ok m.nodes m.lists l _ is.ne_null is.header,
        eq_of_ne a 0 ne,
        load_node-ok m.nodes m.lists a _ ne e,
        set_anchor-ok m.nodes m.lists l _ is.ne_null is.header (first xs),
        free_node-ok m.nodes _ a _ ne e,
        set_size-again _ m.lists l is.ne_null _ (decr (suc (length xs))),
        decr_lem (length xs) is.short,
      )
      (
        refl,
        record {
          ne_null = is.ne_null;
          header = update_self m.lists l _;
          chain = Chain-update m.nodes xs a none is.chain.3 is.chain.2;
          short = lt_down (length xs) is.short;
        },
        update_self m.nodes a _,
        record {
          lists = update_ne m.lists l _;
          nodes = λ b o. update_ne m.nodes a _ b (has-cons_ne b a v [] o);
        },
      )
  where
    ne : a ≢ 0
    ne = is.chain.0

    e : m.nodes a ≡ some (record { value = v; next = first xs })
    e = is.chain.1
