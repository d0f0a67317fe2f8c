-- ===== src/Ipc/Registry.antt =====
-- `ipc_find`: an object by key, identifier and type.
use mein_os.Prelude.{
  ℕ, ◌≡◌, refl, sym, ◌≢◌, ==_iff, ◌⊎◌, inl, inr, Bool, true, false, ◌&&◌, ◌||◌, List, [], ◌∷◌,
  arith, ◌==◌, if◌then◌else◌, Bool-cases, contains,
}
use mathlib.Core.Path.{subst}
use mein_os.Llist.Seq.{NoNull}
use mein_os.Ipc.State.{IpcObj, Ipc, minus_one}

-- The test of the loop on one object.
abbrev pub matches : (key id kind : ℕ) → IpcObj → Bool
matches key id kind o =
    (o.kind == kind) && ((o.key == key || key == minus_one) && (o.id == id || id == minus_one))

unfoldable pub find_in : (ℕ → IpcObj) → List ℕ → (key id kind : ℕ) → ℕ
find_in f [] key id kind = 0
find_in f (p ∷ ps) key id kind =
    if p == 0 then 0 else if matches key id kind (f p) then p else find_in f ps key id kind

-- `ipc_find`
unfoldable pub find : (key id kind : ℕ) → Ipc → ℕ
unfolding find_in
find key id kind s = find_in s.headers s.objects key id kind

module _ (f : ℕ → IpcObj) (key id kind : ℕ) where
  -- `r` is a registered object that fits, or it is NULL and no registered object fits.
  abbrev pub Found : List ℕ → ℕ → Type 0
  Found ps r =
      (r ≡ 0) × ((q : ℕ) → (contains q ps && matches key id kind (f q)) ≡ false)
      ⊎ (contains r ps ≡ true) × (matches key id kind (f r) ≡ true)

  pub find_in-here :
      (p : ℕ) (ps : List ℕ)
      → p ≢ 0
      → matches key id kind (f p) ≡ true
      → find_in f (p ∷ ps) key id kind ≡ p
  unfolding find_in
  find_in-here p ps ne e = ground arith

  pub find_in-later :
      (p : ℕ) (ps : List ℕ)
      → p ≢ 0
      → matches key id kind (f p) ≡ false
      → find_in f (p ∷ ps) key id kind ≡ find_in f ps key id kind
  unfolding find_in
  find_in-later p ps ne e = ground arith

  find_in-nil : find_in f [] key id kind ≡ 0
  unfolding find_in
  find_in-nil = refl

  Found-cons :
      (p r : ℕ) (ps : List ℕ) → matches key id kind (f p) ≡ false → Found ps r → Found (p ∷ ps) r
  Found-cons p r ps e (inl (z, rest)) = inl (
    z,
    λ q. elim (Bool-cases (p == q)) [
      | inl same ↦ rw (same, ← (==_iff p q).0 same) e
      | inr other ↦ rw other (rest q)
    ],
  )
  Found-cons p r ps e (inr (on, fits)) = inr (rw on (ground arith), fits)

  find_in-Found : (ps : List ℕ) → NoNull ps → Found ps (find_in f ps key id kind)
  find_in-Found [] n = inl (find_in-nil, λ q. refl)
  find_in-Found (p ∷ ps) n = elim (Bool-cases (matches key id kind (f p))) [
    | inl e ↦ subst (Found (p ∷ ps)) (sym (find_in-here p ps n.0 e)) (inr (ground arith, e))
    | inr e ↦
        subst (Found (p ∷ ps)) (sym (find_in-later p ps n.0 e))
          (Found-cons p _ ps e (find_in-Found ps n.1))
  ]

-- With no NULL in the registry `ipc_find` returns a registered object of the type whose key and
-- identifier are those asked for, each of them where it is not -1, or NULL where there is none.
pub find-Found :
    (key id kind : ℕ) (s : Ipc)
    → NoNull s.objects
    → Found s.headers key id kind s.objects (find key id kind s)
unfolding find
find-Found key id kind s n = find_in-Found s.headers key id kind s.objects n
