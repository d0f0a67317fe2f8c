-- ===== src/Libmeinos/Path/Output.antt =====
-- `path_output`: what it writes, and that it fits in the buffer.
use mein_os.Prelude.{
  inl, inr, Bool-cases, ℕ, suc, ◌+◌, ◌≤◌, ◌≡◌, refl, sym, ap, ◌∙◌, Bool, true, false, ◌||◌, List,
  [], ◌∷◌, ◌++◌, ltb, if◌then◌else◌, length, length-append, arith,
}
use mathlib.Core.List.{append-nil}
use mein_os.Libmeinos.Path.{
  ParsedPath, slash, cat, real_parts, separator, write_parts, output, total, output_size,
}
use mein_os.Libmeinos.Path.Names.{names, join, names-append, real_parts-names}

-- A slash before each name
abbrev prefixed : List (List ℕ) → List ℕ
prefixed [] = []
prefixed (n ∷ ns) = slash ∷ n ++ prefixed ns

join-prefixed : (n : List ℕ) (ns : List (List ℕ)) → join (n ∷ ns) ≡ n ++ prefixed ns
join-prefixed n [] = sym (append-nil n)
join-prefixed n (m ∷ ns) = ap (λ t. n ++ slash ∷ t) (join-prefixed m ns)

write_parts-prefixed : (ps : List (List ℕ)) → separator ps ++ write_parts ps ≡ prefixed (names ps)
unfolding separator write_parts
write_parts-prefixed [] = refl
write_parts-prefixed ([] ∷ ps) = write_parts-prefixed ps
write_parts-prefixed ((c ∷ cs) ∷ ps) = ap (λ t. slash ∷ (c ∷ cs) ++ t) (write_parts-prefixed ps)

abbrev pub starts_empty : List (List ℕ) → Bool
starts_empty [] = false
starts_empty ([] ∷ ps) = true
starts_empty ((c ∷ cs) ∷ ps) = false

-- What is written, from the names of the path
abbrev pub written : (absolute : Bool) (ns : List (List ℕ)) → List ℕ
written absolute [] = slash ∷ []
written absolute (n ∷ ns) = (if absolute then slash ∷ [] else []) ++ join (n ∷ ns)

pos : (n : ℕ) → ltb 0 (suc n) ≡ true
pos n = ground arith

slashed :
    (ns : List (List ℕ)) → (if ltb 0 (length ns) then prefixed ns else slash ∷ []) ≡ written true ns
slashed [] = refl
slashed (n ∷ ns) = rw (pos (length ns)) (ap (λ t. slash ∷ t) (sym (join-prefixed n ns)))

output-parts :
    (ps : List (List ℕ)) (root : Bool)
    → output (record { parts = ps; root = root }) ≡ written (starts_empty ps || root) (names ps)
unfolding output write_parts real_parts
output-parts [] root = refl
output-parts ([] ∷ ps) root = rw (write_parts-prefixed ps, real_parts-names ps) (slashed (names ps))
output-parts ((c ∷ cs) ∷ ps) root =
    rw (pos (real_parts ps), write_parts-prefixed ps, join-prefixed (c ∷ cs) (names ps))

-- The output is the names with a slash between each two. It has a slash in front where the path starts
-- at the root, and also where the first part is empty, as it is for a relative path whose first part was
-- rejected. Without names it is a slash, for a relative path too.
pub output-written :
    (path : ParsedPath)
    → output path ≡ written (starts_empty path.parts || path.root) (names path.parts)
output-written path = output-parts path.parts path.root

pub written-root : (b : Bool) (ns : List (List ℕ)) → written (b || true) ns ≡ slash ∷ join ns
written-root b [] = refl
written-root true (n ∷ ns) = refl
written-root false (n ∷ ns) = refl

-- Two paths are put together, and the first starts at the root: the output has the names of both.
pub output-cat :
    (path1 path2 : ParsedPath)
    → path1.root ≡ true
    → output (cat path1 path2) ≡ slash ∷ join (names path1.parts ++ names path2.parts)
unfolding cat
output-cat path1 path2 e =
    output-written (cat path1 path2)
    ∙ ap (λ b. written (starts_empty (cat path1 path2).parts || b) (names (cat path1 path2).parts))
        e
    ∙ written-root (starts_empty (cat path1 path2).parts) (names (cat path1 path2).parts)
    ∙ ap (λ ns. slash ∷ join ns) (names-append path1.parts path2.parts)

length-written :
    (ps : List (List ℕ)) → length (separator ps ++ write_parts ps) ≤ total ps + length ps
unfolding separator write_parts total
length-written [] = omega arith
length-written ([] ∷ ps) = omega (arith, length-written ps)
length-written ((c ∷ cs) ∷ ps) =
    omega (arith, length-written ps, length-append cs (separator ps ++ write_parts ps))

fits-parts :
    (ps : List (List ℕ)) (root : Bool)
    → length (output (record { parts = ps; root = root })) + 1
      ≤ output_size (record { parts = ps; root = root })
unfolding output output_size write_parts real_parts total
fits-parts [] root = omega arith
fits-parts ([] ∷ ps) root = elim (Bool-cases (ltb 0 (real_parts ps))) [
  | inl e ↦ rw e (omega (arith, length-written ps))
  | inr e ↦ rw e (omega arith)
]
fits-parts ((c ∷ cs) ∷ ps) true =
    rw (pos (real_parts ps))
      (omega (arith, length-written ps, length-append cs (separator ps ++ write_parts ps)))
fits-parts ((c ∷ cs) ∷ ps) false =
    rw (pos (real_parts ps))
      (omega (arith, length-written ps, length-append cs (separator ps ++ write_parts ps)))

-- The output and the 0 behind it fit in the buffer that `path_output` allocates for them.
pub output-fits : (path : ParsedPath) → length (output path) + 1 ≤ output_size path
output-fits path = fits-parts path.parts path.root
