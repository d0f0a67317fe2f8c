-- ===== src/Libmeinos/Path/Names.antt =====
-- What a path is for: its names, which are the parts that are not empty.
use mein_os.Prelude.{ℕ, suc, ◌≡◌, refl, sym, ap, List, [], ◌∷◌, ◌++◌, if◌then◌else◌, length}
use mein_os.Procm.Lookup.{same_name}
use mein_os.Libmeinos.Path.{ParsedPath, slash, same_root, real_parts, compare_parts, compare}

abbrev pub names : List (List ℕ) → List (List ℕ)
names [] = []
names ([] ∷ ps) = names ps
names ((c ∷ cs) ∷ ps) = (c ∷ cs) ∷ names ps

-- The names with a slash between two of them
abbrev pub join : List (List ℕ) → List ℕ
join [] = []
join (n ∷ []) = n
join (n ∷ m ∷ ns) = n ++ slash ∷ join (m ∷ ns)

-- The length of the longest common beginning
abbrev pub common : (ns ms : List (List ℕ)) → ℕ
common [] ms = 0
common (n ∷ ns) [] = 0
common (n ∷ ns) (m ∷ ms) = let rest = common ns ms in if same_name n m then suc rest else 0

pub real_parts-names : (ps : List (List ℕ)) → real_parts ps ≡ length (names ps)
unfolding real_parts
real_parts-names [] = refl
real_parts-names ([] ∷ ps) = real_parts-names ps
real_parts-names ((c ∷ cs) ∷ ps) = ap suc (real_parts-names ps)

pub names-append : (ps qs : List (List ℕ)) → names (ps ++ qs) ≡ names ps ++ names qs
names-append [] qs = refl
names-append ([] ∷ ps) qs = names-append ps qs
names-append ((c ∷ cs) ∷ ps) qs = ap (λ ns. (c ∷ cs) ∷ ns) (names-append ps qs)

common-nil : (ns : List (List ℕ)) → common ns [] ≡ 0
common-nil [] = refl
common-nil (n ∷ ns) = refl

compare_parts-common : (ps qs : List (List ℕ)) → compare_parts ps qs ≡ common (names ps) (names qs)
unfolding compare_parts
compare_parts-common [] qs = refl
compare_parts-common (p ∷ ps) [] = sym (common-nil (names (p ∷ ps)))
compare_parts-common ([] ∷ ps) (q ∷ qs) = compare_parts-common ps (q ∷ qs)
compare_parts-common ((c ∷ cs) ∷ ps) ([] ∷ qs) = compare_parts-common ((c ∷ cs) ∷ ps) qs
compare_parts-common ((c ∷ cs) ∷ ps) ((d ∷ ds) ∷ qs) =
    ap (λ n. if same_name (c ∷ cs) (d ∷ ds) then suc n else 0) (compare_parts-common ps qs)

-- The number that `path_compare` gives for two paths that both start at the root, or both do not, is the
-- number of names that they have in common from the start, wherever empty parts stand. Otherwise it is 0.
pub compare_lem :
    (path1 path2 : ParsedPath)
    → compare path1 path2 ≡ (
        if same_root path1.root path2.root
        then common (names path1.parts) (names path2.parts)
        else 0)
unfolding compare
compare_lem path1 path2 = rw (compare_parts-common path1.parts path2.parts)
