-- ===== src/Llist/Chain.antt =====
-- When the heap holds a list: the chain of its nodes, and the header.
use mein_os.Prelude.{
  ℕ, ◌^◌, ◌<◌, ◌≡◌, refl, ◌∙◌, ◌≢◌, Bool, true, false, ◌||◌, Option, none, some, List, [], ◌∷◌,
  arith, ◌==◌, length,
}
use mein_os.Llist.Mem.{Node, Mem, Run, ok, fault, no_fuel, M, follow, update}

-- Address and value of each node, in order.
abbrev pub Cells : Type 0
Cells = List (ℕ × ℕ)

abbrev pub values : Cells → List ℕ
values [] = []
values ((a, v) ∷ xs) = v ∷ values xs

abbrev pub first : Cells → ℕ
first [] = 0
first ((a, v) ∷ xs) = a

abbrev pub has : ℕ → Cells → Bool
has b [] = false
has b ((a, v) ∷ xs) = (b == a) || has b xs

-- From the first address on, each node points to the next, at distinct addresses.
abbrev pub Chain : (ℕ → Option Node) → Cells → Type 0
Chain f [] = Unit
Chain f ((a, v) ∷ xs) =
    (a ≢ 0) × (f a ≡ some (record { value = v; next = first xs })) × (has a xs ≡ false) × Chain f xs

pub record IsList (m : Mem) (l : ℕ) (xs : Cells) : Type 0 where
  pub ne_null : l ≢ 0
  pub header : m.lists l ≡ some (record { anchor = first xs; size = length xs })
  pub chain : Chain m.nodes xs
  pub short : length xs < 2 ^ 31

-- Nothing but the list at `l` with the nodes of `xs` is changed.
pub record SameElse (l : ℕ) (xs : Cells) (m m' : Mem) : Type 0 where
  pub lists : (a : ℕ) → a ≢ l → m'.lists a ≡ m.lists a
  pub nodes : (a : ℕ) → has a xs ≡ false → m'.nodes a ≡ m.nodes a

-- A run that ends well, in a state that satisfies `P`.
abbrev pub Returns : {A : Type 0} → (A → Mem → Type 0) → Run A → Type 0
Returns P (ok a m) = P a m
Returns P _ = ⊥

pub Returns-mono :
    {A : Type 0} (P Q : A → Mem → Type 0) (r : Run A)
    → ((a : A) (m : Mem) → P a m → Q a m)
    → Returns P r
    → Returns Q r
Returns-mono P Q (ok a m) h p = h a m p
Returns-mono P Q fault h p = absurd p
Returns-mono P Q no_fuel h p = absurd p

pub Returns-bind :
    {A B : Type 0} (P : A → Mem → Type 0) (Q : B → Mem → Type 0) (r : Run A) (k : A → M B)
    → Returns P r
    → ((a : A) (m : Mem) → P a m → Returns Q (k a m))
    → Returns Q (follow r k)
Returns-bind P Q (ok a m) k p h = h a m p
Returns-bind P Q fault k p h = absurd p
Returns-bind P Q no_fuel k p h = absurd p

pub length-values : (xs : Cells) → length (values xs) ≡ length xs
length-values [] = refl
length-values ((a, v) ∷ xs) = omega (arith, length-values xs)

-- A chain survives a change elsewhere.
pub Chain-frame :
    (f g : ℕ → Option Node) (xs : Cells)
    → Chain f xs
    → ((a : ℕ) → has a xs ≡ true → g a ≡ f a)
    → Chain g xs
Chain-frame f g [] c same = tt
Chain-frame f g ((a, v) ∷ xs) (ne, e, out, c) same =
    (ne, ground (arith, same a), out, Chain-frame f g xs c λ b i. same b (ground arith))

pub Chain-update :
    (f : ℕ → Option Node) (xs : Cells) (p : ℕ) (n : Option Node)
    → Chain f xs
    → has p xs ≡ false
    → Chain (update f p n) xs
Chain-update f xs p n c out = Chain-frame f (update f p n) xs c (ground arith)

-- An unused address is no node of a chain.
pub Chain-unused :
    (f : ℕ → Option Node) (xs : Cells) (a : ℕ) → Chain f xs → f a ≡ none → has a xs ≡ false
Chain-unused f [] a c h = refl
Chain-unused f ((b, v) ∷ xs) a c h = ground (arith, Chain-unused f xs a c.3)

-- NULL is no node of a chain, and the list is empty exactly when its anchor is NULL.
pub Chain-null : (f : ℕ → Option Node) (xs : Cells) → Chain f xs → has 0 xs ≡ false
Chain-null f [] c = refl
Chain-null f ((b, v) ∷ xs) c = ground (arith, Chain-null f xs c.3)

pub update_ne :
    {A : Type 0} (f : ℕ → Option A) (p : ℕ) (v : Option A) (a : ℕ) → a ≢ p → update f p v a ≡ f a
update_ne f p v a ne = ground arith

-- A change of one node is a change of a list that starts with it.
pub SameElse-cons :
    (l a v : ℕ) (xs : Cells) (m m' : Mem)
    → SameElse l ((a, v) ∷ []) m m'
    → SameElse l ((a, v) ∷ xs) m m'
SameElse-cons l a v xs m m' s = record { lists = s.lists; nodes = λ b o. s.nodes b (ground arith) }

pub has-cons_ne : (a p v : ℕ) (xs : Cells) → has a ((p, v) ∷ xs) ≡ false → a ≢ p
has-cons_ne a p v xs h = ground arith

-- A list whose header and nodes are not touched is still there.
pub IsList-frame :
    (m m' : Mem) (l p : ℕ) (xs ys : Cells)
    → IsList m l xs
    → SameElse p ys m m'
    → l ≢ p
    → ((a : ℕ) → has a xs ≡ true → has a ys ≡ false)
    → IsList m' l xs
IsList-frame m m' l p xs ys is same ne apart = record {
  ne_null = is.ne_null;
  header = same.lists l ne ∙ is.header;
  chain = Chain-frame m.nodes m'.nodes xs is.chain (λ a h. same.nodes a (apart a h));
  short = is.short;
}

-- A node in use is not among the unused ones.
pub apart_of_unused :
    (f : ℕ → Option Node) (xs : Cells) (a v : ℕ)
    → Chain f xs
    → f a ≡ none
    → (b : ℕ) → has b xs ≡ true
    → has b ((a, v) ∷ []) ≡ false
apart_of_unused f xs a v c unused b h = ground (arith, Chain-unused f xs a c unused)
