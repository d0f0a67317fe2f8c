-- ===== src/Llist/Destroy.antt =====
-- `llist_destroy`: it frees every node and the header.
use mein_os.Prelude.{
  ℕ, zero, suc, ◌<◌, ◌≡◌, refl, ◌∙◌, false, none, [], ◌∷◌, arith, if◌then◌else◌, length,
}
use mein_os.Llist.Mem.{Mem, update_self, eq_of_ne, free_header-ok}
use mein_os.Llist.Ops.{pop, pop_all, destroy}
use mein_os.Llist.Seq.{NoNull}
use mein_os.Llist.Chain.{Cells, values, has, IsList, Returns, Returns-bind, Returns-mono}
use mein_os.Llist.Stack.{pop-nil, pop-cons}

-- `m'` is `m` without the nodes of `xs`.
abbrev pub Without : Cells → Mem → Mem → Type 0
Without xs m m' = (a : ℕ) → m'.nodes a ≡ (if has a xs then none else m.nodes a)

-- What taking the first node off means for the others.
step :
    (m m' : Mem) (a v : ℕ) (xs : Cells)
    → m'.nodes a ≡ none
    → ((b : ℕ) → has b ((a, v) ∷ []) ≡ false → m'.nodes b ≡ m.nodes b)
    → (b : ℕ)
    → (if has b xs then none else m'.nodes b) ≡ (if has b ((a, v) ∷ xs) then none else m.nodes b)
step m m' a v xs gone same b = ground (arith, same b)

pop_all-Without :
    (l : ℕ) (xs : Cells) (fuel : ℕ) (m : Mem)
    → IsList m l xs
    → NoNull (values xs)
    → length xs < fuel
    → Returns (λ _ m'. IsList m' l [] × Without xs m m') (pop_all fuel l m)
unfolding pop_all
pop_all-Without l xs zero m is nn lt = absurd (omega arith)
pop_all-Without l [] (suc fuel) m is nn lt = rw (pop-nil m l is) (is, λ a. refl)
pop_all-Without l ((a, v) ∷ xs) (suc fuel) m is nn lt =
    Returns-bind _ _ (pop l m) _ (pop-cons m l a v xs is) λ r m' p.
      rw (p.0, eq_of_ne v 0 nn.0)
        (Returns-mono _ _ (pop_all fuel l m')
          (λ u m'' q. (q.0, λ b. q.1 b ∙ step m m' a v xs p.2 p.3.nodes b))
          (pop_all-Without l xs fuel m' p.1 nn.1 (omega arith)))

-- With more rounds than elements, and no NULL among them, `llist_destroy` frees the header of the list
-- and its nodes, and no other node.
pub destroy-Without :
    (m : Mem) (l fuel : ℕ) (xs : Cells)
    → IsList m l xs
    → NoNull (values xs)
    → length xs < fuel
    → Returns (λ _ m'. (m'.lists l ≡ none) × Without xs m m') (destroy fuel l m)
unfolding destroy
destroy-Without m l fuel xs is nn lt =
    Returns-bind _ _ (pop_all fuel l m) _ (pop_all-Without l xs fuel m is nn lt) λ u m' p.
      rw (free_header-ok m'.nodes m'.lists l _ p.0.ne_null p.0.header)
        (update_self m'.lists l none, p.1)
