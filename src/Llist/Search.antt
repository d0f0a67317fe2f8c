-- ===== src/Llist/Search.antt =====
-- `llist_find`, `llist_copy` and `llist_destroy`: the loops over a list, and the fuel they need.
use mein_os.Prelude.{
  ℕ, zero, suc, ◌+◌, ◌^◌, ◌<◌, ◌≡◌, refl, sym, ap, ◌∙◌, ◌≢◌, false, none, List, [], ◌∷◌, arith,
  ◌==◌, length, get_or, inl, inr, Bool-cases, contains,
}
use mathlib.Core.List.{reverse, reverse_aux}
use mein_os.Llist.Stack.{create_refines, push_refines}
use mein_os.Llist.Mem.{Node, Header, Mem, ok, eq_of_ne}
use mein_os.Llist.Ops.{create, push, get, find_from, find, copy_from, copy}
use mein_os.Llist.Seq
use mein_os.Llist.Seq.{NoNull}
use mein_os.Llist.Chain.{
  Cells, values, IsList, IsList-frame, SameElse, apart_of_unused, Returns, Returns-bind,
  length-values,
}
use mein_os.Llist.Walk.{get_refines}

-- What is left of a sequence from index `i` on.
abbrev Rest : List ℕ → ℕ → List ℕ → Type 0
Rest xs i ys = (k : ℕ) → get_or xs (i + k) 0 ≡ get_or ys k 0

Rest-all : (xs : List ℕ) → Rest xs 0 xs
Rest-all xs k = ap (λ i. get_or xs i 0) (omega arith)

Rest-next : (xs : List ℕ) (i y : ℕ) (ys : List ℕ) → Rest xs i (y ∷ ys) → Rest xs (i + 1) ys
Rest-next xs i y ys r k = ap (λ j. get_or xs j 0) (omega arith) ∙ r (suc k)

Rest-here : (xs : List ℕ) (i : ℕ) (ys : List ℕ) → Rest xs i ys → get_or xs i 0 ≡ get_or ys 0 0
Rest-here xs i ys r = ap (λ j. get_or xs j 0) (omega arith) ∙ r 0

-- The element that the loop reads at index `i`.
get-Rest :
    (m : Mem) (l i : ℕ) (xs : Cells) (ys : List ℕ)
    → IsList m l xs
    → Rest (values xs) i ys
    → get l i m ≡ ok (get_or ys 0 0) m
unfolding Seq.get
get-Rest m l i xs ys is r =
    get_refines m l i xs is ∙ ap (λ v. ok v m) (Rest-here (values xs) i ys r)

find_from_refines :
    (m : Mem) (l v : ℕ) (xs : Cells) (fuel i : ℕ) (ys : List ℕ)
    → IsList m l xs
    → Rest (values xs) i ys
    → length ys < fuel
    → find_from fuel l v i m ≡ ok (Seq.find_from ys v i) m
unfolding find_from Seq.find_from
find_from_refines m l v xs zero i ys is r h = absurd (omega arith)
find_from_refines m l v xs (suc fuel) i [] is r h = rw (get-Rest m l i xs [] is r)
find_from_refines m l v xs (suc fuel) i (y ∷ ys) is r h =
    let next =
      find_from_refines m l v xs fuel (i + 1) ys is (Rest-next (values xs) i y ys r)
        (omega arith) in
    rw (get-Rest m l i xs (y ∷ ys) is r) (elim (Bool-cases (y == 0)) [
      | inl e ↦ rw e
      | inr e ↦ elim (Bool-cases (y == v)) [ inl e' ↦ rw (e, e') | inr e' ↦ rw (e, e') next ]
    ])

-- With more rounds than elements `llist_find` returns what `Seq.find` does on the values of the list,
-- and the heap stays as it is.
pub find_refines :
    (m : Mem) (l v fuel : ℕ) (xs : Cells)
    → IsList m l xs
    → length xs < fuel
    → find fuel l v m ≡ ok (Seq.find (values xs) v) m
unfolding find Seq.find
find_refines m l v fuel xs is h =
    find_from_refines m l v xs fuel 0 (values xs) is (Rest-all (values xs))
      (omega (arith, length-values xs))

-- Distinct addresses that `malloc` may hand out one after the other.
abbrev pub Unused : Mem → List ℕ → Type 0
Unused m [] = Unit
Unused m (a ∷ ps) = (a ≢ 0) × (m.nodes a ≡ none) × (contains a ps ≡ false) × Unused m ps

Unused-frame :
    (m m' : Mem) (p a v : ℕ) (ps : List ℕ)
    → SameElse p ((a, v) ∷ []) m m'
    → contains a ps ≡ false
    → Unused m ps
    → Unused m' ps
Unused-frame m m' p a v [] same out u = tt
Unused-frame m m' p a v (b ∷ ps) same out u = (
  u.0,
  same.nodes b (ground arith) ∙ u.1,
  u.2,
  Unused-frame m m' p a v ps same (ground arith) u.3,
)

-- What a copy leaves: the new list holds the elements in `vs`, the old list is as it was.
pub record Copied (l new : ℕ) (xs : Cells) (vs : List ℕ) (r : ℕ) (m' : Mem) : Type 0 where
  pub result : r ≡ new
  pub cells : Cells
  pub copied : IsList m' new cells
  pub elements : values cells ≡ vs
  pub kept : IsList m' l xs

Unused-same : (m m' : Mem) (p : ℕ) (ps : List ℕ) → SameElse p [] m m' → Unused m ps → Unused m' ps
Unused-same m m' p [] same u = tt
Unused-same m m' p (a ∷ ps) same u =
    (u.0, same.nodes a refl ∙ u.1, u.2, Unused-same m m' p ps same u.3)

copy_from_refines :
    (raw : Node) (l new : ℕ) (xs : Cells) (ps : List ℕ) (m : Mem) (i : ℕ) (ys : Cells)
    (rest : List ℕ)
    → l ≢ new
    → IsList m l xs
    → IsList m new ys
    → Unused m ps
    → Rest (values xs) i rest
    → NoNull rest
    → length rest < length ps
    → length ys + length rest < 2 ^ 31
    → Returns (Copied l new xs (reverse_aux rest (values ys))) (copy_from ps raw l new i m)
unfolding copy_from
copy_from_refines raw l new xs [] m i ys rest ne is is' u r nn lt room = absurd (omega arith)
copy_from_refines raw l new xs (a ∷ ps) m i ys [] ne is is' u r nn lt room =
    rw (get-Rest m l i xs [] is r)
      (record { result = refl; cells = ys; copied = is'; elements = refl; kept = is })
copy_from_refines raw l new xs (a ∷ ps) m i ys (x ∷ rest) ne is is' u r nn lt room =
    rw (get-Rest m l i xs (x ∷ rest) is r, eq_of_ne x 0 nn.0)
      (Returns-bind _ _ (push a raw new x m) _
        (push_refines m a raw new x ys is' u.0 u.1 (omega arith))
        λ s m' p.
          copy_from_refines raw l new xs ps m' (i + 1) ((a, x) ∷ ys) rest ne
            (IsList-frame m m' l new xs ((a, x) ∷ []) is p.2 ne
              (apart_of_unused m.nodes xs a x is.chain u.1))
            p.1 (Unused-frame m m' new a x ps p.2 u.2 u.3) (Rest-next (values xs) i x rest r) nn.1
            (omega arith) (omega arith))

-- `llist_copy` of a list without NULL elements, with enough cells from `malloc` at distinct addresses,
-- returns a new list with the elements in reverse order, and the old list stays as it is.
pub copy-reverse :
    (m : Mem) (fresh : ℕ) (raw : Header) (ps : List ℕ) (raw_node : Node) (l : ℕ) (xs : Cells)
    → IsList m l xs
    → fresh ≢ 0
    → fresh ≢ l
    → Unused m ps
    → NoNull (values xs)
    → length xs < length ps
    → Returns (Copied l fresh xs (reverse (values xs))) (copy fresh raw ps raw_node l m)
unfolding copy
copy-reverse m fresh raw ps raw_node l xs is ne ne_l u nn lt =
    Returns-bind _ _ (create fresh raw m) _ (create_refines m fresh raw ne) λ r m' p. rw (p.0) (
      copy_from_refines raw_node l fresh xs ps m' 0 [] (values xs) (λ e. ne_l (sym e))
        (IsList-frame m m' l fresh xs [] is p.2 (λ e. ne_l (sym e)) (λ a h. refl)) p.1
        (Unused-same m m' fresh ps p.2 u) (Rest-all (values xs)) nn
        (omega (arith, length-values xs)) (omega (arith, length-values xs, is.short)))
