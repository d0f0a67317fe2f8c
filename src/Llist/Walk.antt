-- ===== src/Llist/Walk.antt =====
-- `llist_get_node_at` and `llist_get`: the walk along the chain.
use mein_os.Prelude.{
  ℕ, zero, suc, ◌<◌, ◌≤◌, ◌≡◌, refl, ◌≢◌, inl, inr, Option, some, [], ◌∷◌, arith, ltb, Bool-cases,
  length, get_or,
}
use mein_os.Llist.Mem.{Node, Header, Mem, ok, eq_of_ne, load_node-ok, load_header-ok}
use mein_os.Llist.Ops.{decr_lem, walk, get_node_at, get}
use mein_os.Llist.Seq
use mein_os.Llist.Chain.{Cells, values, first, Chain, IsList}

-- The address of node `i`, NULL out of range.
abbrev pub address : Cells → ℕ → ℕ
address [] i = 0
address ((a, v) ∷ xs) zero = a
address ((a, v) ∷ xs) (suc i) = address xs i

abbrev pub value_at : Cells → ℕ → ℕ
value_at xs i = get_or (values xs) i 0

pub address_zero : (xs : Cells) → address xs 0 ≡ first xs
address_zero [] = refl
address_zero ((a, v) ∷ xs) = refl

pub address_out : (xs : Cells) (i : ℕ) → length xs ≤ i → address xs i ≡ 0
address_out [] i h = refl
address_out ((a, v) ∷ xs) zero h = absurd (omega arith)
address_out ((a, v) ∷ xs) (suc i) h = address_out xs i (omega arith)

pub value_out : (xs : Cells) (i : ℕ) → length xs ≤ i → value_at xs i ≡ 0
value_out [] i h = refl
value_out ((a, v) ∷ xs) zero h = absurd (omega arith)
value_out ((a, v) ∷ xs) (suc i) h = value_out xs i (omega arith)

pub address-ne_null :
    (f : ℕ → Option Node) (xs : Cells) (i : ℕ) → Chain f xs → i < length xs → address xs i ≢ 0
address-ne_null f [] i c h = absurd (omega arith)
address-ne_null f ((a, v) ∷ xs) zero c h = c.0
address-ne_null f ((a, v) ∷ xs) (suc i) c h = address-ne_null f xs i c.3 (omega arith)

-- What stands at node `i`.
pub node_at :
    (f : ℕ → Option Node) (xs : Cells) (i : ℕ)
    → Chain f xs
    → i < length xs
    → f (address xs i) ≡ some (record { value = value_at xs i; next = address xs (suc i) })
node_at f [] i c h = absurd (omega arith)
node_at f ((a, v) ∷ xs) zero c h = rw (address_zero xs) (c.1)
node_at f ((a, v) ∷ xs) (suc i) c h = node_at f xs i c.3 (omega arith)

walk-address :
    (f : ℕ → Option Node) (g : ℕ → Option Header) (a v : ℕ) (xs : Cells) (k : ℕ)
    → Chain f ((a, v) ∷ xs)
    → walk k a (record { nodes = f; lists = g })
      ≡ ok (address ((a, v) ∷ xs) k) (record { nodes = f; lists = g })
unfolding walk
walk-address f g a v xs zero c = refl
walk-address f g a v [] (suc k) c = rw (load_node-ok f g a _ c.0 c.1)
walk-address f g a v ((b, w) ∷ xs) (suc k) c =
    rw (load_node-ok f g a _ c.0 c.1, eq_of_ne b 0 c.3.0) (walk-address f g b w xs k c.3)

-- The node that `llist_get_node_at` finds, NULL out of range.
pub get_node_at_refines :
    (f : ℕ → Option Node) (g : ℕ → Option Header) (l i : ℕ) (xs : Cells)
    → IsList (record { nodes = f; lists = g }) l xs
    → get_node_at l i (record { nodes = f; lists = g })
      ≡ ok (address xs i) (record { nodes = f; lists = g })
unfolding get_node_at
get_node_at_refines f g l i [] is =
    rw (eq_of_ne l 0 is.ne_null, load_header-ok f g l _ is.ne_null is.header)
get_node_at_refines f g l i ((a, v) ∷ xs) is =
    rw
      (
        eq_of_ne l 0 is.ne_null,
        load_header-ok f g l _ is.ne_null is.header,
        eq_of_ne a 0 is.chain.0,
        decr_lem (length xs) is.short,
      )
      (elim (Bool-cases (ltb (length xs) i)) [
        | inl out ↦ rw (out, address_out ((a, v) ∷ xs) i (ground arith))
        | inr inside ↦ rw inside (walk-address f g a v xs i is.chain)
      ])

-- `llist_get` on a list returns the element at the index, NULL out of range, and the heap stays as it
-- is.
pub get_refines :
    (m : Mem) (l i : ℕ) (xs : Cells) → IsList m l xs → get l i m ≡ ok (Seq.get (values xs) i) m
unfolding get Seq.get
get_refines m l i xs is =
    rw (get_node_at_refines m.nodes m.lists l i xs is) (elim (Bool-cases (ltb i (length xs))) [
      | inl inside ↦
          let lt : i < length xs = ground arith in
          let ne = address-ne_null m.nodes xs i is.chain lt in
          rw (
            eq_of_ne (address xs i) 0 ne,
            load_node-ok m.nodes m.lists (address xs i) _ ne (node_at m.nodes xs i is.chain lt),
          )
      | inr out ↦ rw (address_out xs i (ground arith), value_out xs i (ground arith))
    ])
