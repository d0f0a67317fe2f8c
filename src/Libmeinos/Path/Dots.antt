-- ===== src/Libmeinos/Path/Dots.antt =====
-- `path_reject_dots`: what it leaves of the names, and the way from a string to the string of its
-- resolved path.
use mein_os.Prelude.{
  ℕ, ◌≡◌, refl, ap, ◌∙◌, ◌||◌, List, [], ◌∷◌, if◌then◌else◌, inl, inr, Bool-cases,
}
use mathlib.Core.List.{reverse, reverse_aux}
use mein_os.Procm.Lookup.{same_name}
use mein_os.Libmeinos.Path.{
  ParsedPath, slash, dot, parse, clear_last, reject_part, reject_from, reject_dots, output,
}
use mein_os.Libmeinos.Path.Names.{names, join}
use mein_os.Libmeinos.Path.Output.{starts_empty, written, output-written, written-root}

abbrev pub tail : List (List ℕ) → List (List ℕ)
tail [] = []
tail (n ∷ ns) = ns

-- One name in turn, `back` being the names on the way to here, the last one first
abbrev pub enter : (back : List (List ℕ)) (n : List ℕ) → List (List ℕ)
enter back n =
    if same_name n (dot ∷ [])
    then back
    else if same_name n (dot ∷ dot ∷ [])
    then tail back
    else n ∷ back

-- The names that are left of a path when each is entered in turn
abbrev pub resolve_from : (back ns : List (List ℕ)) → List (List ℕ)
resolve_from back [] = back
resolve_from back (n ∷ ns) = resolve_from (enter back n) ns

abbrev pub resolve : List (List ℕ) → List (List ℕ)
resolve ns = reverse (resolve_from [] ns)

pub names-clear_last : (ps : List (List ℕ)) → names (clear_last ps) ≡ tail (names ps)
unfolding clear_last
names-clear_last [] = refl
names-clear_last ([] ∷ ps) = names-clear_last ps
names-clear_last ((c ∷ cs) ∷ ps) = refl

names-reject_part :
    (before : List (List ℕ)) (c : ℕ) (cs : List ℕ)
    → names (reject_part before (c ∷ cs)) ≡ enter (names before) (c ∷ cs)
unfolding reject_part
names-reject_part before c cs = elim (Bool-cases (same_name (c ∷ cs) (dot ∷ []))) [
  | inl e ↦ rw e
  | inr e ↦ elim (Bool-cases (same_name (c ∷ cs) (dot ∷ dot ∷ []))) [
    | inl d ↦ rw (e, d) (names-clear_last before)
    | inr d ↦ rw (e, d)
  ]
]

reject_part-nil : (before : List (List ℕ)) → reject_part before [] ≡ [] ∷ before
unfolding reject_part same_name
reject_part-nil before = refl

names-reject_from :
    (before ps : List (List ℕ))
    → names (reject_from before ps) ≡ resolve_from (names before) (names ps)
unfolding reject_from
names-reject_from before [] = refl
names-reject_from before ([] ∷ ps) =
    rw (reject_part-nil before) (names-reject_from ([] ∷ before) ps)
names-reject_from before ((c ∷ cs) ∷ ps) =
    names-reject_from (reject_part before (c ∷ cs)) ps
    ∙ ap (λ ns. resolve_from ns (names ps)) (names-reject_part before c cs)

pub names-reverse_aux :
    (ps qs : List (List ℕ)) → names (reverse_aux ps qs) ≡ reverse_aux (names ps) (names qs)
names-reverse_aux [] qs = refl
names-reverse_aux ([] ∷ ps) qs = names-reverse_aux ps ([] ∷ qs)
names-reverse_aux ((c ∷ cs) ∷ ps) qs = names-reverse_aux ps ((c ∷ cs) ∷ qs)

-- After `path_reject_dots` the names of the path are those that are left when they are entered one after
-- the other: a dot stays where it is, and two dots take the last name back where there is one. The path
-- still starts at the root where it did.
pub reject_dots-resolve :
    (path : ParsedPath)
    → (names (reject_dots path).parts ≡ resolve (names path.parts))
      × ((reject_dots path).root ≡ path.root)
unfolding reject_dots
reject_dots-resolve path = (
  names-reverse_aux (reject_from [] path.parts) [] ∙ ap reverse (names-reject_from [] path.parts),
  refl,
)

-- A string that starts with a slash is parsed, its dots are rejected, and it is written again. The
-- result is a slash and then the names that are left when those of the string are entered one after the
-- other, with a slash between each two.
pub output-reject_dots-parse :
    (s : List ℕ)
    → let path = parse (slash ∷ s) in
      output (reject_dots path) ≡ slash ∷ join (resolve (names path.parts))
unfolding parse
output-reject_dots-parse s =
    let path = parse (slash ∷ s) in
    let r = reject_dots-resolve path in
    output-written (reject_dots path)
    ∙ ap
        (λ b. written (starts_empty (reject_dots path).parts || b) (names (reject_dots path).parts))
        r.1
    ∙ written-root (starts_empty (reject_dots path).parts) (names (reject_dots path).parts)
    ∙ ap (λ ns. slash ∷ join ns) r.0
