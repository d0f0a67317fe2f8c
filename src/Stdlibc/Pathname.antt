-- ===== src/Stdlibc/Pathname.antt =====
-- apps/lib/stdlibc/pathname.c: the base and the directory of a path, and the path without dots. The
-- argument is not NULL.
pub mod Last
mod Tests
use mein_os.Prelude.{
  ℕ, ◌≡◌, refl, sym, ap, ◌∙◌, ◌≢◌, ◌⊎◌, inl, inr, Bool, true, false, ◌||◌, List, [], ◌∷◌, ◌++◌,
  ◌==◌, if◌then◌else◌, length, ltb, contains, arith, not,
}
use mathlib.Core.List.{reverse, reverse_aux}
use mein_os.Llist.Mem.{eq_self}
use mein_os.Procm.Lookup.{same_name}
use mein_os.Libmeinos.Path.{ParsedPath, slash, dot, parse, cut, clear_last, reject_dots, output}

-- The loop of `basename`, on the parts from the last one
unfoldable pub last_part : (from_end : List (List ℕ)) → List ℕ
last_part [] = slash ∷ []
last_part ([] ∷ ps) = last_part ps
last_part ((c ∷ cs) ∷ ps) = c ∷ cs

-- `basename`
unfoldable pub basename : List ℕ → List ℕ
basename [] = dot ∷ []
basename (c ∷ cs) =
    if same_name (c ∷ cs) (slash ∷ []) then c ∷ cs else last_part (reverse (parse (c ∷ cs)).parts)

-- The paths without a directory: no slash, nothing, or dots
abbrev pub is_plain : List ℕ → Bool
is_plain s =
    not (contains slash s)
    || (same_name s [] || (same_name s (dot ∷ []) || same_name s (dot ∷ dot ∷ [])))

-- The loop of `dirname`, which clears the last part that is not empty, and what is written
unfoldable pub without_last : ParsedPath → List ℕ
without_last path = output (
    if ltb (length path.parts) 2
    then path
    else record path { parts = reverse (clear_last (reverse path.parts)) })

-- `dirname`
unfoldable pub dirname : List ℕ → List ℕ
dirname s =
    if same_name s (slash ∷ [])
    then slash ∷ []
    else if is_plain s
    then dot ∷ []
    else without_last (parse s)

-- `realpath`, with what `getcwd` gives
unfoldable pub realpath : (cwd file_name : List ℕ) → List ℕ
realpath cwd file_name =
    let path = reject_dots (parse file_name) in (if path.root then [] else cwd) ++ output path
