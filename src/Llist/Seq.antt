-- ===== src/Llist/Seq.antt =====
-- What a caller of lib/libmeinos/llist.c sees: a sequence of pointers, first element first, with
-- NULL for "none". The kernel's components are modelled over these operations.
use mein_os.Prelude.{
  ℕ, zero, suc, ◌+◌, ◌-◌, ◌^◌, ◌<◌, ◌≤◌, ◌≡◌, refl, ap, ◌∙◌, ◌≢◌, ==_iff, inl, inr, false, ◌==◌,
  if◌then◌else◌, Bool-cases, List, [], ◌∷◌, length, get_or, contains, arith,
}

-- What `llist_pop` returns, and what it leaves.
unfoldable pub pop : List ℕ → ℕ × List ℕ
pop [] = (0, [])
pop (x ∷ xs) = (x, xs)

unfoldable pub get : List ℕ → ℕ → ℕ
get xs i = get_or xs i 0

abbrev pub insert_at : List ℕ → ℕ → ℕ → List ℕ
insert_at xs zero v = v ∷ xs
insert_at [] (suc i) v = []
insert_at (x ∷ xs) (suc i) v = x ∷ insert_at xs i v

abbrev pub remove_at : List ℕ → ℕ → List ℕ
remove_at [] i = []
remove_at (x ∷ xs) zero = xs
remove_at (x ∷ xs) (suc i) = x ∷ remove_at xs i

-- What `llist_remove` returns, and what it leaves.
unfoldable pub remove : List ℕ → ℕ → ℕ × List ℕ
remove xs i = (get_or xs i 0, remove_at xs i)

-- The index of the first `v`, counted from `i`, or `(size_t)-1`. The loop of the code stops at a
-- NULL element too.
unfoldable pub find_from : List ℕ → ℕ → ℕ → ℕ
find_from [] v i = 2 ^ 32 - 1
find_from (x ∷ xs) v i = if x == 0 then 2 ^ 32 - 1 else if x == v then i else find_from xs v (i + 1)

unfoldable pub find : List ℕ → ℕ → ℕ
unfolding find_from
find xs v = find_from xs v 0

-- `llist_remove(list,llist_find(list,v))`, as the kernel takes an object off a list.
unfoldable pub erase : List ℕ → ℕ → List ℕ
unfolding remove find
erase xs v = (remove xs (find xs v)).1

-- No element is NULL, which would end the loop of `llist_find`.
abbrev pub NoNull : List ℕ → Type 0
NoNull [] = Unit
NoNull (x ∷ xs) = (x ≢ 0) × NoNull xs

-- The sequence without the first `v`.
abbrev pub delete : ℕ → List ℕ → List ℕ
delete v [] = []
delete v (x ∷ xs) = if x == v then xs else x ∷ delete v xs

find_from-ge : (xs : List ℕ) (v i : ℕ) → i + length xs < 2 ^ 31 → i ≤ find_from xs v i
unfolding find_from
find_from-ge [] v i h = omega arith
find_from-ge (x ∷ xs) v i h = ground (arith, find_from-ge xs v (i + 1))

remove_at-past : (xs : List ℕ) (k : ℕ) → length xs ≤ k → remove_at xs k ≡ xs
remove_at-past [] k h = refl
remove_at-past (x ∷ xs) zero h = absurd (omega arith)
remove_at-past (x ∷ xs) (suc k) h = rw (remove_at-past xs k (omega arith))

get_or-past : (xs : List ℕ) (k : ℕ) → length xs ≤ k → get_or xs k 0 ≡ 0
get_or-past [] k h = refl
get_or-past (x ∷ xs) zero h = absurd (omega arith)
get_or-past (x ∷ xs) (suc k) h = get_or-past xs k (omega arith)

sub_self : (i : ℕ) → i - i ≡ 0
sub_self i = omega arith

sub_zero : (i : ℕ) → i ≡ i - 0
sub_zero i = omega arith

module _ (v : ℕ) where
  remove_at-find :
      (xs : List ℕ) (i : ℕ)
      → NoNull xs
      → i + length xs < 2 ^ 31
      → (remove_at xs (find_from xs v i - i) ≡ delete v xs)
        × (get_or xs (find_from xs v i - i) 0 ≡ (if contains v xs then v else 0))
  unfolding find_from
  remove_at-find [] i nn h = (refl, refl)
  remove_at-find (x ∷ xs) i nn h = elim (Bool-cases (x == v)) [
    | inl e ↦ rw (ne_test, e, sub_self i) (refl, (==_iff x v).0 e)
    | inr e ↦
        let rest = remove_at-find xs (i + 1) nn.1 (omega arith) in
        rw (ne_test, e, shift) (ap (λ l. x ∷ l) rest.0, rest.1)
  ]
    where
      ne_test : (x == 0) ≡ false
      ne_test = ground (arith, nn.0)

      shift : find_from xs v (i + 1) - i ≡ suc (find_from xs v (i + 1) - (i + 1))
      shift = omega (arith, find_from-ge xs v (i + 1) (omega arith))

-- On a list without NULL of a length below 2 ^ 31, removing what `llist_find` finds takes the first
-- occurrence away, and returns it; where there is none the list stays, and NULL is returned.
pub erase_lem :
    (xs : List ℕ) (v : ℕ)
    → NoNull xs
    → length xs < 2 ^ 31
    → (erase xs v ≡ delete v xs) × ((remove xs (find xs v)).0 ≡ (if contains v xs then v else 0))
unfolding erase
erase_lem xs v nn h =
    let found = remove_at-find v xs 0 nn (omega arith) in
    (
      ap (remove_at xs) (sub_zero (find_from xs v 0)) ∙ found.0,
      ap (λ k. get_or xs k 0) (sub_zero (find_from xs v 0)) ∙ found.1,
    )
