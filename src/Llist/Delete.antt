-- ===== src/Llist/Delete.antt =====
-- What taking an element off a list keeps.
use mein_os.Prelude.{
  ℕ, ◌≤◌, ◌≡◌, refl, true, false, not, ◌&&◌, List, [], ◌∷◌, arith, ◌==◌, length, contains,
}
use mein_os.Llist.Seq.{NoNull, delete}

-- No element stands twice.
abbrev pub Distinct : List ℕ → Type 0
Distinct [] = Unit
Distinct (x ∷ xs) = (contains x xs ≡ false) × Distinct xs

pub contains-delete_sub :
    (q p : ℕ) (xs : List ℕ) → contains q (delete p xs) ≡ true → contains q xs ≡ true
contains-delete_sub q p [] h = h
contains-delete_sub q p (x ∷ xs) h = ground (arith, contains-delete_sub q p xs)

pub contains-delete :
    (q p : ℕ) (xs : List ℕ)
    → Distinct xs
    → contains q (delete p xs) ≡ (contains q xs && not (q == p))
contains-delete q p [] d = refl
contains-delete q p (x ∷ xs) d = ground (arith, contains-delete q p xs d.1)

pub NoNull-delete : (p : ℕ) (xs : List ℕ) → NoNull xs → NoNull (delete p xs)
NoNull-delete p [] n = tt
NoNull-delete p (x ∷ xs) n = ground (arith, NoNull-delete p xs n.1)

pub Distinct-delete : (p : ℕ) (xs : List ℕ) → Distinct xs → Distinct (delete p xs)
Distinct-delete p [] d = tt
Distinct-delete p (x ∷ xs) d = ground (arith, Distinct-delete p xs d.1, contains-delete_sub x p xs)

pub length-delete_le : (p : ℕ) (xs : List ℕ) → length (delete p xs) ≤ length xs
length-delete_le p [] = omega arith
length-delete_le p (x ∷ xs) = ground (arith, length-delete_le p xs)
