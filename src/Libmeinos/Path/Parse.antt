-- ===== src/Libmeinos/Path/Parse.antt =====
-- `path_parse`: the parts make up the string again, and none of them has a slash.
use mein_os.Prelude.{
  inl, inr, ℕ, zero, suc, ◌≡◌, refl, sym, ap, ◌∙◌, false, List, [], ◌∷◌, ◌++◌, ◌==◌, ==_iff, length,
  arith, Bool-cases, contains,
}
use mein_os.Libmeinos.Path.{slash, count_slashes, until_slash, after_slash, cut, parse}
use mein_os.Libmeinos.Path.Names.{join}

until_slash-free : (s : List ℕ) → contains slash (until_slash s) ≡ false
unfolding until_slash
until_slash-free [] = refl
until_slash-free (c ∷ cs) = elim (Bool-cases (c == slash)) [
  | inl e ↦ rw e
  | inr e ↦ rw (e, e, until_slash-free cs)
]

-- Without a slash the first part is the string.
until_slash-all : (s : List ℕ) → count_slashes s ≡ 0 → until_slash s ≡ s
unfolding until_slash count_slashes
until_slash-all [] h = refl
until_slash-all (c ∷ cs) h = elim (Bool-cases (c == slash)) [
  | inl e ↦ let no : suc (count_slashes cs) ≡ 0 = rw e at h in ground (arith, no)
  | inr e ↦ rw e (ap (λ t. c ∷ t) (until_slash-all cs (rw e at h)))
]

-- With one the string is the first part, the slash and what follows, which has one slash less.
at_slash :
    (s : List ℕ) (n : ℕ)
    → count_slashes s ≡ suc n
    → (until_slash s ++ slash ∷ after_slash s ≡ s) × (count_slashes (after_slash s) ≡ n)
unfolding until_slash after_slash count_slashes
at_slash [] n h = ground arith
at_slash (c ∷ cs) n h = elim (Bool-cases (c == slash)) [
  | inl e ↦
      let less : suc (count_slashes cs) ≡ suc n = rw e at h in
      rw e (ap (λ d. d ∷ cs) (sym ((==_iff c slash).0 e)), omega (arith, less))
  | inr e ↦ let rest = at_slash cs n (rw e at h) in rw e (ap (λ t. c ∷ t) rest.0, rest.1)
]

abbrev pub NoSlash : List (List ℕ) → Type 0
NoSlash [] = Unit
NoSlash (p ∷ ps) = (contains slash p ≡ false) × NoSlash ps

cut-NoSlash : (n : ℕ) (s : List ℕ) → NoSlash (cut n s)
unfolding cut
cut-NoSlash zero s = tt
cut-NoSlash (suc n) s = (until_slash-free s, cut-NoSlash n (after_slash s))

length-cut : (n : ℕ) (s : List ℕ) → length (cut n s) ≡ n
unfolding cut
length-cut zero s = refl
length-cut (suc n) s = ap suc (length-cut n (after_slash s))

join-cut : (n : ℕ) (s : List ℕ) → count_slashes s ≡ n → join (cut (suc n) s) ≡ s
unfolding cut
join-cut zero s h = until_slash-all s h
join-cut (suc n) s h =
    let a = at_slash s n h in
    ap (λ t. until_slash s ++ slash ∷ t) (join-cut n (after_slash s) a.1) ∙ a.0

-- The parts of a parsed string, with a slash between each two, are the string again. There is one more
-- of them than the string has slashes, and no part has a slash.
pub join-parse :
    (s : List ℕ)
    → (join (parse s).parts ≡ s)
      × (length (parse s).parts ≡ suc (count_slashes s))
      × NoSlash (parse s).parts
unfolding parse
join-parse s = (
  join-cut (count_slashes s) s refl,
  length-cut (suc (count_slashes s)) s,
  cut-NoSlash (suc (count_slashes s)) s,
)
