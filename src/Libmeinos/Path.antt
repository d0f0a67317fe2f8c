-- ===== src/Libmeinos/Path.antt =====
-- apps/lib/libmeinos/path.c: paths as lists of parts. A string is the list of its characters without
-- the 0 at its end. The parts of a path lie apart in one block of memory, so a part that is cleared is
-- the empty string, and the others stay.
pub mod Names
pub mod Parse
pub mod Output
pub mod Dots
mod Tests
use mein_os.Prelude.{
  ℕ, zero, suc, ◌+◌, Bool, true, false, not, List, [], ◌∷◌, ◌++◌, ◌==◌, if◌then◌else◌, length, ltb,
}
use mathlib.Core.List.{reverse}
use mein_os.Procm.Lookup.{same_name}

-- `path_t`, with `num_parts` the length of `parts`
pub record ParsedPath : Type 0 where
  pub parts : List (List ℕ)
  pub root : Bool

-- The characters `/` and `.`
abbrev pub slash : ℕ
slash = 47

abbrev pub dot : ℕ
dot = 46

-- The number of slashes
unfoldable pub count_slashes : List ℕ → ℕ
count_slashes [] = 0
count_slashes (c ∷ cs) = let rest = count_slashes cs in if c == slash then suc rest else rest

-- What the inner loop of `path_parse` passes, and what it leaves behind the slash or the end.
unfoldable pub until_slash : List ℕ → List ℕ
until_slash [] = []
until_slash (c ∷ cs) = let rest = until_slash cs in if c == slash then [] else c ∷ rest

unfoldable pub after_slash : List ℕ → List ℕ
after_slash [] = []
after_slash (c ∷ cs) = let rest = after_slash cs in if c == slash then cs else rest

-- The outer loop of `path_parse`
unfoldable pub cut : (num_parts : ℕ) → List ℕ → List (List ℕ)
cut zero s = []
cut (suc n) s = until_slash s ∷ cut n (after_slash s)

abbrev pub starts_with_slash : List ℕ → Bool
starts_with_slash [] = false
starts_with_slash (c ∷ cs) = c == slash

-- `path_parse`
unfoldable pub parse : List ℕ → ParsedPath
parse s = record { parts = cut (suc (count_slashes s)) s; root = starts_with_slash s }

-- The inner loop of `path_reject_dots`, on the parts before the current one, the nearest first
unfoldable pub clear_last : List (List ℕ) → List (List ℕ)
clear_last [] = []
clear_last ([] ∷ ps) = [] ∷ clear_last ps
clear_last ((c ∷ cs) ∷ ps) = [] ∷ ps

-- One round of `path_reject_dots` with the part `p`
unfoldable pub reject_part : (before : List (List ℕ)) (p : List ℕ) → List (List ℕ)
reject_part before p =
    if same_name p (dot ∷ [])
    then [] ∷ before
    else if same_name p (dot ∷ dot ∷ [])
    then [] ∷ clear_last before
    else p ∷ before

unfoldable pub reject_from : (before parts : List (List ℕ)) → List (List ℕ)
reject_from before [] = before
reject_from before (p ∷ ps) = reject_from (reject_part before p) ps

-- `path_reject_dots`
unfoldable pub reject_dots : ParsedPath → ParsedPath
reject_dots path = record path { parts = reverse (reject_from [] path.parts) }

-- The parts that are not empty, as `path_output` counts them
unfoldable pub real_parts : List (List ℕ) → ℕ
real_parts [] = 0
real_parts ([] ∷ ps) = real_parts ps
real_parts ((c ∷ cs) ∷ ps) = suc (real_parts ps)

-- The slash before the next part, where that is not empty
unfoldable pub separator : List (List ℕ) → List ℕ
separator [] = []
separator ([] ∷ ps) = []
separator ((c ∷ cs) ∷ ps) = slash ∷ []

-- The loop of `path_output` that writes the parts
unfoldable pub write_parts : List (List ℕ) → List ℕ
write_parts [] = []
write_parts (p ∷ ps) = p ++ (separator ps ++ write_parts ps)

-- `path->root && path->parts[0][0]!=0`
abbrev pub leads : ParsedPath → Bool
leads path = elim path.parts [ [] ↦ false | p ∷ ps ↦ elim p [ [] ↦ false | c ∷ cs ↦ path.root ] ]

-- `path_output`, the string that it gives
unfoldable pub output : ParsedPath → List ℕ
output path =
    if ltb 0 (real_parts path.parts)
    then (if leads path then slash ∷ [] else []) ++ write_parts path.parts
    else slash ∷ []

unfoldable pub total : List (List ℕ) → ℕ
total [] = 0
total (p ∷ ps) = length p + total ps

-- The size of the buffer that `path_output` allocates. `strdup("/")` takes 2 bytes.
unfoldable pub output_size : ParsedPath → ℕ
output_size path =
    if ltb 0 (real_parts path.parts)
    then length path.parts + 1 + (if path.root then 1 else 0) + total path.parts
    else 2

-- The loop of `path_compare`
unfoldable pub compare_parts : (ps qs : List (List ℕ)) → ℕ
compare_parts [] qs = 0
compare_parts (p ∷ ps) [] = 0
compare_parts ([] ∷ ps) (q ∷ qs) = compare_parts ps (q ∷ qs)
compare_parts ((c ∷ cs) ∷ ps) ([] ∷ qs) = compare_parts ((c ∷ cs) ∷ ps) qs
compare_parts ((c ∷ cs) ∷ ps) ((d ∷ ds) ∷ qs) =
    let rest = compare_parts ps qs in if same_name (c ∷ cs) (d ∷ ds) then suc rest else 0

abbrev pub same_root : (a b : Bool) → Bool
same_root true b = b
same_root false b = not b

-- `path_compare`
unfoldable pub compare : (path1 path2 : ParsedPath) → ℕ
compare path1 path2 =
    if same_root path1.root path2.root then compare_parts path1.parts path2.parts else 0

-- `path_cat`
unfoldable pub cat : (path1 path2 : ParsedPath) → ParsedPath
cat path1 path2 = record { root = path1.root; parts = path1.parts ++ path2.parts }

unfoldable pub clear_end : List (List ℕ) → List (List ℕ)
clear_end [] = []
clear_end (p ∷ []) = [] ∷ []
clear_end (p ∷ q ∷ ps) = p ∷ clear_end (q ∷ ps)

-- `path_parent`
unfoldable pub parent : ParsedPath → ParsedPath
parent path = record path { parts = clear_end path.parts }
