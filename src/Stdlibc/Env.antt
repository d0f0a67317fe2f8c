-- ===== src/Stdlibc/Env.antt =====
-- apps/lib/stdlibc/env.c: the environment, a list of strings with an equals sign between the name of a
-- variable and its value. Names are not NULL. `errno` stands beside a result that is an error.
pub mod Overwrite
mod Tests
use mein_os.Prelude.{
  ℕ, Bool, true, false, not, Option, none, some, List, [], ◌∷◌, ◌++◌, ◌==◌, if◌then◌else◌, contains,
}
use mein_os.Procm.Lookup.{same_name}

-- The characters `=` and line feed
abbrev pub equals : ℕ
equals = 61

abbrev pub newline : ℕ
newline = 10

-- What a call gives: a value, or nothing and the number in `errno`
pub data Outcome (A : Type 0) : Type 0 where
  value : A → Outcome A
  einval : Outcome A
  enoent : Outcome A

-- `findenv`: the entry, the entries before it and those behind it. The test is on `strcmp` being other
-- than 0.
unfoldable pub findenv :
    (name : List ℕ) → List (List ℕ) → Option (List (List ℕ) × List ℕ × List (List ℕ))
findenv name [] = none
findenv name (e ∷ es) =
    let rest = findenv name es in
    if not (same_name e name)
    then some ([], e, es)
    else elim rest [ none ↦ none | some r ↦ some (e ∷ r.0, r.1, r.2) ]

-- `strchr(env,'=')+1`
unfoldable pub behind_equals : List ℕ → Option (List ℕ)
behind_equals [] = none
behind_equals (c ∷ cs) = let rest = behind_equals cs in if c == equals then some cs else rest

-- The names that the calls refuse
abbrev pub refused : List ℕ → Bool
refused [] = contains equals []
refused (c ∷ cs) = false

-- `getenv`
unfoldable pub getenv : (name : List ℕ) (environ : List (List ℕ)) → Outcome (List ℕ)
getenv name environ = if refused name then einval else elim (findenv name environ) [
  | none ↦ enoent
  | some r ↦ elim (behind_equals r.1) [ none ↦ einval | some v ↦ value v ]
]

-- `setenv`, where `realloc` leaves the block of `environ` at its address: whether it succeeds, and the
-- environment
unfoldable pub setenv :
    (name val : List ℕ) (overwrite : Bool) (environ : List (List ℕ)) → Bool × List (List ℕ)
setenv name val overwrite environ =
    let env = name ++ (equals ∷ val ++ (newline ∷ [])) in
    if refused name then (false, environ) else elim (findenv name environ) [
      | none ↦ (true, environ ++ (env ∷ []))
      | some r ↦ if overwrite then (true, r.0 ++ (env ∷ r.2)) else (false, environ)
    ]
