-- ===== src/Stdlibc/Env/Tests.antt =====
-- The environment with `A=1`: `B` is read and set.
use mein_os.Prelude.{ℕ, ◌≡◌, refl, true, false, List, [], ◌∷◌}
use mein_os.Stdlibc.Env.{value, getenv, setenv}
use mein_os.Stdlibc.Env.Overwrite.{getenv-setenv}

abbrev environ : List (List ℕ)
environ = (65 ∷ 61 ∷ 49 ∷ []) ∷ []

getenv-setenv_example :
    (getenv (66 ∷ []) environ ≡ value (49 ∷ []))
    × (setenv (66 ∷ []) (50 ∷ []) true environ ≡ (true, (66 ∷ 61 ∷ 50 ∷ 10 ∷ []) ∷ []))
    × (setenv (66 ∷ []) (50 ∷ []) false environ ≡ (false, environ))
    × (getenv (66 ∷ []) ((66 ∷ 61 ∷ 50 ∷ 10 ∷ []) ∷ []) ≡ value (50 ∷ 10 ∷ []))
getenv-setenv_example =
    getenv-setenv (65 ∷ []) (49 ∷ []) (66 ∷ []) (66 ∷ []) (50 ∷ []) [] refl refl refl
