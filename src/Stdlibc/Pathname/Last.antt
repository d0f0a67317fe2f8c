-- ===== src/Stdlibc/Pathname/Last.antt =====
-- The functions on path names by the names of the path.
use mein_os.Prelude.{
  ℕ, suc, ◌≡◌, refl, sym, ap, ◌∙◌, inl, inr, true, false, ◌||◌, List, [], ◌∷◌, ◌++◌, ◌==◌, ==_iff,
  if◌then◌else◌, length, ltb, arith, Bool-cases,
}
use mathlib.Core.List.{reverse}
use mein_os.Procm.Lookup.{same_name}
use mein_os.Libmeinos.Path.{
  ParsedPath, slash, count_slashes, parse, cut, until_slash, after_slash, clear_last, reject_dots,
  output,
}
use mein_os.Libmeinos.Path.Names.{names, join}
use mein_os.Libmeinos.Path.Parse.{join-parse}
use mein_os.Libmeinos.Path.Output.{starts_empty, written, written-root, output-written}
use mein_os.Libmeinos.Path.Dots.{
  tail, resolve, names-clear_last, names-reverse_aux, output-reject_dots-parse, reject_dots-resolve,
}
use mein_os.Stdlibc.Pathname.{last_part, basename, without_last, dirname, realpath}

-- The first of some names, and a slash where there is none
abbrev pub first_name : List (List ℕ) → List ℕ
first_name [] = slash ∷ []
first_name (n ∷ ns) = n

last_part-names : (ps : List (List ℕ)) → last_part ps ≡ first_name (names ps)
unfolding last_part
last_part-names [] = refl
last_part-names ([] ∷ ps) = last_part-names ps
last_part-names ((c ∷ cs) ∷ ps) = refl

pub same_name-equal : (a b : List ℕ) → same_name a b ≡ true → a ≡ b
unfolding same_name
same_name-equal [] [] h = refl
same_name-equal [] (b ∷ bs) h = ground (arith, h)
same_name-equal (a ∷ xs) [] h = ground (arith, h)
same_name-equal (a ∷ xs) (b ∷ bs) h = elim (Bool-cases (a == b)) [
  | inl e ↦
      let rest : same_name xs bs ≡ true = rw e at h in
      ap (λ c. c ∷ xs) ((==_iff a b).0 e) ∙ ap (λ r. b ∷ r) (same_name-equal xs bs rest)
  | inr e ↦ let no : false ≡ true = rw e at h in ground (arith, no)
]

root-names : names (parse (slash ∷ [])).parts ≡ []
unfolding parse count_slashes cut until_slash after_slash
root-names = refl

-- The base of a path that is not empty is the last of its names. Where it has none, which is so for a
-- path of slashes alone, it is a slash.
pub basename_lem :
    (c : ℕ) (cs : List ℕ) → basename (c ∷ cs) ≡ first_name (reverse (names (parse (c ∷ cs)).parts))
unfolding basename
basename_lem c cs = elim (Bool-cases (same_name (c ∷ cs) (slash ∷ []))) [
  | inl e ↦
      let same = same_name-equal (c ∷ cs) (slash ∷ []) e in
      rw e (
        same
        ∙ sym (
            ap (λ s. first_name (reverse (names (parse s).parts))) same
            ∙ ap (λ ns. first_name (reverse ns)) root-names))
  | inr e ↦ rw e (
      last_part-names (reverse (parse (c ∷ cs)).parts)
      ∙ ap first_name (names-reverse_aux (parse (c ∷ cs)).parts []))
]

cleared-names :
    (ps : List (List ℕ))
    → names (reverse (clear_last (reverse ps))) ≡ reverse (tail (reverse (names ps)))
cleared-names ps =
    names-reverse_aux (clear_last (reverse ps)) []
    ∙ ap reverse (names-clear_last (reverse ps) ∙ ap tail (names-reverse_aux ps []))

two_parts : (n : ℕ) → ltb (suc (suc n)) 2 ≡ false
two_parts n = ground arith

output-root : (path : ParsedPath) → path.root ≡ true → output path ≡ slash ∷ join (names path.parts)
output-root path e =
    output-written path
    ∙ ap (λ b. written (starts_empty path.parts || b) (names path.parts)) e
    ∙ written-root (starts_empty path.parts) (names path.parts)

parse-root : (s : List ℕ) → (parse (slash ∷ s)).root ≡ true
unfolding parse
parse-root s = refl

-- The part before the slash and the one behind it
several : (s : List ℕ) → ltb (length (parse (slash ∷ s)).parts) 2 ≡ false
unfolding count_slashes
several s = rw ((join-parse (slash ∷ s)).1) (two_parts (count_slashes s))

without_last-parse :
    (s : List ℕ)
    → without_last (parse (slash ∷ s))
      ≡ slash ∷ join (reverse (tail (reverse (names (parse (slash ∷ s)).parts))))
unfolding without_last
without_last-parse s =
    let path = parse (slash ∷ s) in
    rw (several s) (
      output-root (record path { parts = reverse (clear_last (reverse path.parts)) }) (parse-root s)
      ∙ ap (λ ns. slash ∷ join ns) (cleared-names path.parts))

-- The directory of a path that starts with a slash is a slash, and then all its names but the last, with
-- a slash between each two.
pub dirname_lem :
    (s : List ℕ)
    → dirname (slash ∷ s)
      ≡ slash ∷ join (reverse (tail (reverse (names (parse (slash ∷ s)).parts))))
unfolding dirname same_name
dirname_lem s = elim (Bool-cases (same_name s [])) [
  | inl e ↦
      let same = same_name-equal s [] e in
      rw e (
        sym (
          ap (λ r. slash ∷ join (reverse (tail (reverse (names (parse (slash ∷ r)).parts))))) same
          ∙ ap (λ ns. slash ∷ join (reverse (tail (reverse ns)))) root-names))
  | inr e ↦ rw e (without_last-parse s)
]

-- The path without dots of a string that starts with a slash does not ask for the current directory.
pub realpath_lem :
    (cwd s : List ℕ)
    → realpath cwd (slash ∷ s) ≡ slash ∷ join (resolve (names (parse (slash ∷ s)).parts))
unfolding realpath
realpath_lem cwd s =
    ap (λ b. (if b then [] else cwd) ++ output (reject_dots (parse (slash ∷ s))))
      ((reject_dots-resolve (parse (slash ∷ s))).1 ∙ parse-root s)
    ∙ output-reject_dots-parse s
