-- ===== src/Llist/Relink.antt =====
-- How the stores of `llist_insert` and `llist_remove` relink a chain.
use mein_os.Prelude.{
  ℕ, zero, suc, ◌<◌, ◌≤◌, ◌≡◌, refl, sym, ap, ◌∙◌, ◌≢◌, true, false, Option, none, some, [], ◌∷◌,
  arith, length,
}
use mein_os.Llist.Mem.{Node, update, update_self}
use mein_os.Llist.Seq.{insert_at, remove_at}
use mein_os.Llist.Chain.{Cells, values, first, has, Chain, Chain-update, update_ne}
use mein_os.Llist.Walk.{address, value_at, address_zero}

abbrev pub insert_cell : Cells → ℕ → ℕ × ℕ → Cells
insert_cell xs zero c = c ∷ xs
insert_cell [] (suc i) c = []
insert_cell (x ∷ xs) (suc i) c = x ∷ insert_cell xs i c

abbrev pub remove_cell : Cells → ℕ → Cells
remove_cell [] i = []
remove_cell (x ∷ xs) zero = xs
remove_cell (x ∷ xs) (suc i) = x ∷ remove_cell xs i

pub values-insert_cell :
    (xs : Cells) (i a v : ℕ) → values (insert_cell xs i (a, v)) ≡ insert_at (values xs) i v
values-insert_cell xs zero a v = refl
values-insert_cell [] (suc i) a v = refl
values-insert_cell ((b, w) ∷ xs) (suc i) a v = rw (values-insert_cell xs i a v)

pub values-remove_cell : (xs : Cells) (i : ℕ) → values (remove_cell xs i) ≡ remove_at (values xs) i
values-remove_cell [] i = refl
values-remove_cell ((b, w) ∷ xs) zero = refl
values-remove_cell ((b, w) ∷ xs) (suc i) = rw (values-remove_cell xs i)

pub length-insert_cell :
    (xs : Cells) (i : ℕ) (c : ℕ × ℕ) → i ≤ length xs → length (insert_cell xs i c) ≡ suc (length xs)
length-insert_cell xs zero c h = refl
length-insert_cell [] (suc i) c h = absurd (omega arith)
length-insert_cell (x ∷ xs) (suc i) c h = omega (arith, length-insert_cell xs i c)

pub insert_cell_out : (xs : Cells) (i : ℕ) (c : ℕ × ℕ) → length xs < i → insert_cell xs i c ≡ xs
insert_cell_out xs zero c h = absurd (omega arith)
insert_cell_out [] (suc i) c h = refl
insert_cell_out (x ∷ xs) (suc i) c h = rw (insert_cell_out xs i c (omega arith))

pub length-remove_cell :
    (xs : Cells) (i : ℕ) → i < length xs → suc (length (remove_cell xs i)) ≡ length xs
length-remove_cell [] i h = absurd (omega arith)
length-remove_cell (x ∷ xs) zero h = refl
length-remove_cell (x ∷ xs) (suc i) h = omega (arith, length-remove_cell xs i)

pub first-insert_cell :
    (xs : Cells) (i : ℕ) (c : ℕ × ℕ) → first (insert_cell xs (suc i) c) ≡ first xs
first-insert_cell [] i c = refl
first-insert_cell ((a, v) ∷ xs) i c = refl

pub first-remove_cell : (xs : Cells) (i : ℕ) → first (remove_cell xs (suc i)) ≡ first xs
first-remove_cell [] i = refl
first-remove_cell ((a, v) ∷ xs) i = refl

has-insert_cell :
    (b a v : ℕ) (xs : Cells) (i : ℕ)
    → has b xs ≡ false
    → b ≢ a
    → has b (insert_cell xs i (a, v)) ≡ false
has-insert_cell b a v xs zero h ne = ground arith
has-insert_cell b a v [] (suc i) h ne = refl
has-insert_cell b a v ((d, w) ∷ xs) (suc i) h ne = ground (arith, has-insert_cell b a v xs i)

has-remove_cell : (b : ℕ) (xs : Cells) (i : ℕ) → has b xs ≡ false → has b (remove_cell xs i) ≡ false
has-remove_cell b [] i h = refl
has-remove_cell b ((d, w) ∷ xs) zero h = ground arith
has-remove_cell b ((d, w) ∷ xs) (suc i) h = ground (arith, has-remove_cell b xs i)

-- An address outside a list is that of no node of it.
pub address-ne : (b : ℕ) (xs : Cells) (i : ℕ) → has b xs ≡ false → i < length xs → b ≢ address xs i
address-ne b [] i h lt = absurd (omega arith)
address-ne b ((a, v) ∷ xs) zero h lt = ground arith
address-ne b ((a, v) ∷ xs) (suc i) h lt = address-ne b xs i (ground arith) (omega arith)

pub address-ne_next :
    (f : ℕ → Option Node) (xs : Cells) (i : ℕ)
    → Chain f xs
    → suc i < length xs
    → address xs (suc i) ≢ address xs i
address-ne_next f [] i c h = absurd (omega arith)
address-ne_next f ((a, v) ∷ xs) zero c h = λ e. address-ne a xs 0 c.2 (omega arith) (sym e)
address-ne_next f ((a, v) ∷ xs) (suc i) c h = address-ne_next f xs i c.3 (omega arith)

pub has-address : (xs : Cells) (i : ℕ) → i < length xs → has (address xs i) xs ≡ true
has-address [] i h = absurd (omega arith)
has-address ((a, v) ∷ xs) zero h = ground arith
has-address ((a, v) ∷ xs) (suc i) h = rw (has-address xs i (omega arith)) (ground arith)

abbrev link : ℕ → ℕ → Option Node
link v q = some (record { value = v; next = q })

-- Between node `i` and the one behind it stands the new node.
pub Chain-insert :
    (f : ℕ → Option Node) (xs : Cells) (i a v : ℕ)
    → Chain f xs
    → a ≢ 0
    → has a xs ≡ false
    → i < length xs
    → Chain
        (update
          (update f a (some (record { value = v; next = address xs (suc i) })))
          (address xs i)
          (some (record { value = value_at xs i; next = a })))
        (insert_cell xs (suc i) (a, v))
Chain-insert f [] i a v c ne out h = absurd (omega arith)
Chain-insert f ((b, w) ∷ xs) zero a v c ne out h = (
  c.0,
  update_self (update f a (link v (address xs 0))) b _,
  b_out,
  (
    ne,
    update_ne (update f a (link v (address xs 0))) b _ a apart
        ∙ update_self f a _
        ∙ ap (link v) (address_zero xs),
    a_out,
    Chain-update _ xs b _ (Chain-update f xs a _ c.3 a_out) c.2,
  ),
)
  where
    apart : a ≢ b
    apart = ground arith

    a_out : has a xs ≡ false
    a_out = ground arith

    b_out : has b ((a, v) ∷ xs) ≡ false
    b_out = ground (arith, c.2)
Chain-insert f ((b, w) ∷ xs) (suc i) a v c ne out h = (
  c.0,
  update_ne (update f a (link v (address xs (suc i)))) (address xs i) _ b far
      ∙ update_ne f a (link v (address xs (suc i))) b apart
      ∙ c.1
      ∙ ap (link w) (sym (first-insert_cell xs i (a, v))),
  has-insert_cell b a v xs (suc i) c.2 apart,
  Chain-insert f xs i a v c.3 ne (ground arith) (omega arith),
)
  where
    far : b ≢ address xs i
    far = address-ne b xs i c.2 (omega arith)

    apart : b ≢ a
    apart = ground arith

-- Node `i` leads past the one behind it, which is freed.
pub Chain-remove :
    (f : ℕ → Option Node) (xs : Cells) (i : ℕ)
    → Chain f xs
    → suc i < length xs
    → Chain
        (update
          (update f
            (address xs i)
            (some (record { value = value_at xs i; next = address xs (suc (suc i)) })))
          (address xs (suc i))
          none)
        (remove_cell xs (suc i))
Chain-remove f [] i c h = absurd (omega arith)
Chain-remove f ((b, w) ∷ []) zero c h = absurd (omega arith)
Chain-remove f ((b, w) ∷ (d, u) ∷ xs) zero c h = (
  c.0,
  update_ne (update f b (link w (address xs 0))) d none b apart
      ∙ update_self f b _
      ∙ ap (link w) (address_zero xs),
  ground (arith, c.2),
  Chain-update _ xs d none (Chain-update f xs b _ c.3.3 (ground (arith, c.2))) c.3.2,
)
  where
    apart : b ≢ d
    apart = address-ne b ((d, u) ∷ xs) 0 c.2 (omega arith)
Chain-remove f ((b, w) ∷ xs) (suc i) c h = (
  c.0,
  update_ne (update f (address xs i) n) (address xs (suc i)) none b
        (address-ne b xs (suc i) c.2 (omega arith))
      ∙ update_ne f (address xs i) n b (address-ne b xs i c.2 (omega arith))
      ∙ c.1
      ∙ ap (link w) (sym (first-remove_cell xs i)),
  has-remove_cell b xs (suc i) c.2,
  Chain-remove f xs i c.3 (omega arith),
)
  where
    n : Option Node
    n = link (value_at xs i) (address xs (suc (suc i)))
