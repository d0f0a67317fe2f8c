-- ===== src/Llist/Mem.antt =====
-- The kernel heap as far as lib/libmeinos/llist.c uses it: list headers and nodes at addresses,
-- with the loads, stores, `malloc` and `free` of the C code as commands on it.
use mein_os.Prelude.{
  ℕ, ◌≡◌, ap, ◌∙◌, ◌≢◌, true, false, Option, none, some, arith, ◌==◌, if◌then◌else◌,
}
use mathlib.Core.Path.{fun_ext}

-- `struct llist_node`
pub record Node : Type 0 where
  pub value : ℕ
  pub next : ℕ

-- `struct llist_S`
pub record Header : Type 0 where
  pub anchor : ℕ
  pub size : ℕ

pub record Mem : Type 0 where
  pub nodes : ℕ → Option Node
  pub lists : ℕ → Option Header

-- How a run ends. `fault` is an access through NULL or through a pointer to no such object.
pub data Run (A : Type 0) : Type 0 where
  ok : A → Mem → Run A
  fault : Run A
  no_fuel : Run A

abbrev pub M : Type 0 → Type 0
M A = Mem → Run A

abbrev pub pure : {A : Type 0} → A → M A
pure = ok

module _ {A B : Type 0} where
  abbrev pub follow : Run A → (A → M B) → Run B
  follow (ok a m) k = k a m
  follow fault k = fault
  follow no_fuel k = no_fuel

  infixl 5 ◌>>=◌ ◌>>◌
  abbrev pub ◌>>=◌ : M A → (A → M B) → M B
  c >>= k = λ m. follow (c m) k

  abbrev pub ◌>>◌ : M A → M B → M B
  c >> d = c >>= λ _. d

-- The map `f` with `v` at `p`.
abbrev pub update : {A : Type 0} → (ℕ → Option A) → ℕ → Option A → ℕ → Option A
update f p v a = if a == p then v else f a

-- `NULL` is the address 0, where no object lies.
abbrev pub null : ℕ
null = 0

unfoldable pub load_node : ℕ → M Node
load_node p m = if p == null then fault else elim (m.nodes p) [ none ↦ fault | some n ↦ ok n m ]

unfoldable pub load_header : ℕ → M Header
load_header p m = if p == null then fault else elim (m.lists p) [ none ↦ fault | some h ↦ ok h m ]

unfoldable pub put_node : ℕ → Option Node → M (Unit {0})
put_node p n m = ok tt (record m { nodes = update m.nodes p n })

unfoldable pub put_header : ℕ → Option Header → M (Unit {0})
put_header p h m = ok tt (record m { lists = update m.lists p h })

unfoldable pub set_value : ℕ → ℕ → M (Unit {0})
unfolding load_node put_node
set_value p v = do n ← load_node p; put_node p (some (record n { value = v }))

unfoldable pub set_next : ℕ → ℕ → M (Unit {0})
unfolding load_node put_node
set_next p q = do n ← load_node p; put_node p (some (record n { next = q }))

unfoldable pub set_anchor : ℕ → ℕ → M (Unit {0})
unfolding load_header put_header
set_anchor p q = do h ← load_header p; put_header p (some (record h { anchor = q }))

unfoldable pub set_size : ℕ → ℕ → M (Unit {0})
unfolding load_header put_header
set_size p k = do h ← load_header p; put_header p (some (record h { size = k }))

-- `malloc` returns `fresh`, NULL if it fails; `raw` is what the new object holds at first.
unfoldable pub malloc_node : (fresh : ℕ) (raw : Node) → M ℕ
unfolding put_node
malloc_node fresh raw =
    if fresh == null then pure null else (put_node fresh (some raw) >> pure fresh)

unfoldable pub malloc_header : (fresh : ℕ) (raw : Header) → M ℕ
unfolding put_header
malloc_header fresh raw =
    if fresh == null then pure null else (put_header fresh (some raw) >> pure fresh)

unfoldable pub free_node : ℕ → M (Unit {0})
unfolding load_node put_node
free_node p = load_node p >> put_node p none

unfoldable pub free_header : ℕ → M (Unit {0})
unfolding load_header put_header
free_header p = load_header p >> put_header p none

pub eq_self : (a : ℕ) → (a == a) ≡ true
eq_self a = ground arith

pub eq_of_ne : (a b : ℕ) → a ≢ b → (a == b) ≡ false
eq_of_ne a b h = ground arith

-- Each command on an object that is there.
module _ (f : ℕ → Option Node) (g : ℕ → Option Header) (p : ℕ) (n : Node) (ne : p ≢ 0)
    (e : f p ≡ some n) where
  pub load_node-ok :
      load_node p (record { nodes = f; lists = g }) ≡ ok n (record { nodes = f; lists = g })
  unfolding load_node
  load_node-ok = rw (eq_of_ne p 0 ne, e)

  pub set_value-ok :
      (v : ℕ)
      → set_value p v (record { nodes = f; lists = g })
        ≡ ok tt
            (record { nodes = update f p (some (record { value = v; next = n.next })); lists = g })
  unfolding set_value
  set_value-ok v = rw (eq_of_ne p 0 ne, e)

  pub set_next-ok :
      (q : ℕ)
      → set_next p q (record { nodes = f; lists = g })
        ≡ ok tt
            (record { nodes = update f p (some (record { value = n.value; next = q })); lists = g })
  unfolding set_next
  set_next-ok q = rw (eq_of_ne p 0 ne, e)

  pub free_node-ok :
      free_node p (record { nodes = f; lists = g })
      ≡ ok tt (record { nodes = update f p none; lists = g })
  unfolding free_node
  free_node-ok = rw (eq_of_ne p 0 ne, e)

module _ (f : ℕ → Option Node) (g : ℕ → Option Header) (l : ℕ) (h : Header) (ne : l ≢ 0)
    (e : g l ≡ some h) where
  pub load_header-ok :
      load_header l (record { nodes = f; lists = g }) ≡ ok h (record { nodes = f; lists = g })
  unfolding load_header
  load_header-ok = rw (eq_of_ne l 0 ne, e)

  pub set_anchor-ok :
      (q : ℕ)
      → set_anchor l q (record { nodes = f; lists = g })
        ≡ ok tt
            (record { nodes = f; lists = update g l (some (record { anchor = q; size = h.size })) })
  unfolding set_anchor
  set_anchor-ok q = rw (eq_of_ne l 0 ne, e)

  pub set_size-ok :
      (k : ℕ)
      → set_size l k (record { nodes = f; lists = g })
        ≡ ok tt (record {
          nodes = f;
          lists = update g l (some (record { anchor = h.anchor; size = k }));
        })
  unfolding set_size
  set_size-ok k = rw (eq_of_ne l 0 ne, e)

  pub free_header-ok :
      free_header l (record { nodes = f; lists = g })
      ≡ ok tt (record { nodes = f; lists = update g l none })
  unfolding free_header
  free_header-ok = rw (eq_of_ne l 0 ne, e)

pub malloc_node-ok :
    (m : Mem) (p : ℕ) (raw : Node)
    → p ≢ 0
    → malloc_node p raw m ≡ ok p (record m { nodes = update m.nodes p (some raw) })
unfolding malloc_node
malloc_node-ok m p raw ne = rw (eq_of_ne p 0 ne)

pub malloc_header-ok :
    (m : Mem) (l : ℕ) (raw : Header)
    → l ≢ 0
    → malloc_header l raw m ≡ ok l (record m { lists = update m.lists l (some raw) })
unfolding malloc_header
malloc_header-ok m l raw ne = rw (eq_of_ne l 0 ne)

pub update_self : {A : Type 0} (f : ℕ → Option A) (p : ℕ) (v : Option A) → update f p v p ≡ v
update_self f p v = rw (eq_self p)

-- A second write to one address hides the first.
update-update :
    {A : Type 0} (f : ℕ → Option A) (p : ℕ) (v w : Option A)
    → update (update f p v) p w ≡ update f p w
update-update f p v w = fun_ext λ a. ground (arith)

-- The stores to an object that was written last.
module _ (f : ℕ → Option Node) (g : ℕ → Option Header) (p : ℕ) (ne : p ≢ 0) where
  pub set_value-again :
      (n : Node) (v : ℕ)
      → set_value p v (record { nodes = update f p (some n); lists = g })
        ≡ ok tt
            (record { nodes = update f p (some (record { value = v; next = n.next })); lists = g })
  set_value-again n v =
      set_value-ok (update f p (some n)) g p n ne (update_self f p _) v
      ∙ ap (λ h. ok tt (record { nodes = h; lists = g })) (update-update f p _ _)

  pub set_next-again :
      (n : Node) (q : ℕ)
      → set_next p q (record { nodes = update f p (some n); lists = g })
        ≡ ok tt
            (record { nodes = update f p (some (record { value = n.value; next = q })); lists = g })
  set_next-again n q =
      set_next-ok (update f p (some n)) g p n ne (update_self f p _) q
      ∙ ap (λ h. ok tt (record { nodes = h; lists = g })) (update-update f p _ _)

  pub set_anchor-again :
      (h : Header) (q : ℕ)
      → set_anchor p q (record { nodes = f; lists = update g p (some h) })
        ≡ ok tt
            (record { nodes = f; lists = update g p (some (record { anchor = q; size = h.size })) })
  set_anchor-again h q =
      set_anchor-ok f (update g p (some h)) p h ne (update_self g p _) q
      ∙ ap (λ k. ok tt (record { nodes = f; lists = k })) (update-update g p _ _)

  pub set_size-again :
      (h : Header) (k : ℕ)
      → set_size p k (record { nodes = f; lists = update g p (some h) })
        ≡ ok tt (record {
          nodes = f;
          lists = update g p (some (record { anchor = h.anchor; size = k }));
        })
  set_size-again h k =
      set_size-ok f (update g p (some h)) p h ne (update_self g p _) k
      ∙ ap (λ k. ok tt (record { nodes = f; lists = k })) (update-update g p _ _)
