-- ===== src/Stdlibc/Env/Overwrite.antt =====
-- Which variable `setenv` and `getenv` find.
use mein_os.Prelude.{
  ℕ, ◌≡◌, refl, inl, inr, true, false, some, List, [], ◌∷◌, ◌++◌, ◌==◌, contains, arith, Bool-cases,
}
use mathlib.Core.Path.{subst}
use mein_os.Procm.Lookup.{same_name}
use mein_os.Stdlibc.Pathname.Last.{same_name-equal}
use mein_os.Stdlibc.Env.{equals, newline, value, findenv, behind_equals, refused, getenv, setenv}

-- The entry of a variable
abbrev pub entry_of : (name val : List ℕ) → List ℕ
entry_of name val = name ++ (equals ∷ val)

contains-entry_of : (k v : List ℕ) → contains equals (entry_of k v) ≡ true
contains-entry_of [] v = refl
contains-entry_of (c ∷ k) v = rw (contains-entry_of k v) (ground arith)

behind_equals-entry_of :
    (k v : List ℕ) → contains equals k ≡ false → behind_equals (entry_of k v) ≡ some v
unfolding behind_equals
behind_equals-entry_of [] v h = refl
behind_equals-entry_of (c ∷ k) v h = elim (Bool-cases (c == equals)) [
  | inl e ↦ let no : true ≡ false = rw e at h in ground (arith, no)
  | inr e ↦ rw e (behind_equals-entry_of k v (rw e at h))
]

-- An entry is no name.
entry_of-differs :
    (k v name : List ℕ) → contains equals name ≡ false → same_name (entry_of k v) name ≡ false
entry_of-differs k v name h = elim (Bool-cases (same_name (entry_of k v) name)) [
  | inl e ↦
      let on : contains equals name ≡ true =
        subst (λ s. contains equals s ≡ true) (same_name-equal (entry_of k v) name e)
          (contains-entry_of k v) in
      cc (on, h)
  | inr e ↦ e
]

findenv-first :
    (k v name : List ℕ) (es : List (List ℕ))
    → contains equals name ≡ false
    → findenv name (entry_of k v ∷ es) ≡ some ([], entry_of k v, es)
unfolding findenv
findenv-first k v name es h = rw (entry_of-differs k v name h)

not_refused : (name : List ℕ) → refused name ≡ false
not_refused [] = refl
not_refused (c ∷ cs) = refl

getenv-first :
    (k v name : List ℕ) (es : List (List ℕ))
    → contains equals k ≡ false
    → contains equals name ≡ false
    → getenv name (entry_of k v ∷ es) ≡ value v
unfolding getenv
getenv-first k v name es h n =
    rw (not_refused name, findenv-first k v name es n, behind_equals-entry_of k v h)

-- The first entry of the environment is the variable `k`, and `name` and `other` are any names. Reading
-- `other` gives the value of `k`. Setting `name` replaces the entry of `k` where it may overwrite, and
-- fails where it may not; after it reading `other` gives the value that was set, with a line feed behind.
pub getenv-setenv :
    (k v name other val : List ℕ) (es : List (List ℕ))
    → contains equals k ≡ false
    → contains equals name ≡ false
    → contains equals other ≡ false
    → let environ = entry_of k v ∷ es in
      let environ' = entry_of name (val ++ (newline ∷ [])) ∷ es in
      (getenv other environ ≡ value v)
      × (setenv name val true environ ≡ (true, environ'))
      × (setenv name val false environ ≡ (false, environ))
      × (getenv other environ' ≡ value (val ++ (newline ∷ [])))
unfolding setenv
getenv-setenv k v name other val es hk hn ho = (
  getenv-first k v other es hk ho,
  rw (not_refused name, findenv-first k v name es hn),
  rw (not_refused name, findenv-first k v name es hn),
  getenv-first name (val ++ (newline ∷ [])) other es hn ho,
)
