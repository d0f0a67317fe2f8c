-- ===== src/Stdlibc/Strings.antt =====
-- `strlen`, `strcmp` and `strcpy` of string.c. A `char` is a byte; the loops run on fuel, and more
-- rounds than the string has characters are enough.
use mein_os.Prelude.{
  ℕ, zero, suc, ◌+◌, ◌-◌, ◌%◌, ◌^◌, ◌<◌, ◌≡◌, refl, sym, ◌∙◌, ◌≢◌, ◌↔◌, inl, inr, ◌&&◌, Option,
  none, some, List, [], ◌∷◌, arith, ltb, ◌==◌, ==_iff, if◌then◌else◌, Bool-cases, length,
}
use mathlib.Core.Option
use mathlib.Core.Path.{subst}
use mein_os.Llist.Mem.{eq_of_ne, eq_self}
use mein_os.Stdlibc.Memory.{Mem}

unfoldable pub strlen_from : (fuel p : ℕ) → Mem → Option ℕ
strlen_from zero p m = none
strlen_from (suc fuel) p m =
    let rest = strlen_from fuel (p + 1) m in if m p == 0 then some 0 else Option.map suc rest

unfoldable pub strlen : (fuel str : ℕ) → Mem → Option ℕ
unfolding strlen_from
strlen fuel str m = if str == 0 then some 0 else strlen_from fuel str m

-- A `char` as an `int`, with its sign.
abbrev pub of_char : ℕ → ℕ
of_char c = if ltb c 128 then c else c + (2 ^ 32 - 256)

abbrev pub char_diff : ℕ → ℕ → ℕ
char_diff a b = (of_char a + 2 ^ 32 - of_char b) % 2 ^ 32

unfoldable pub strcmp_from : (fuel p q : ℕ) → Mem → Option ℕ
strcmp_from zero p q m = none
strcmp_from (suc fuel) p q m =
    let rest = strcmp_from fuel (p + 1) (q + 1) m in
    if m p == 0 && m q == 0
    then some 0
    else if m p == m q
    then rest
    else some (char_diff (m p) (m q))

unfoldable pub strcmp : (fuel str1 str2 : ℕ) → Mem → Option ℕ
unfolding strcmp_from
strcmp fuel str1 str2 m = if str1 == str2 then some 0 else strcmp_from fuel str1 str2 m

abbrev pub write : (d v : ℕ) → Mem → Mem
write d v m a = if a == d then v else m a

-- The loop, and the 0 that is written after it.
unfoldable pub strcpy : (fuel dest src : ℕ) → Mem → Option Mem
strcpy zero d s m = none
strcpy (suc fuel) d s m =
    let rest = strcpy fuel (d + 1) (s + 1) (write d (m s) m) in
    if m s == 0 then some (write d 0 m) else rest

-- The memory holds the characters at `p`, and a 0 after them.
abbrev pub IsString : Mem → ℕ → List ℕ → Type 0
IsString m p [] = m p ≡ 0
IsString m p (x ∷ xs) = (m p ≡ x) × (x ≢ 0) × (x < 256) × IsString m (p + 1) xs

strlen_from-IsString :
    (fuel p : ℕ) (m : Mem) (xs : List ℕ)
    → IsString m p xs
    → length xs < fuel
    → strlen_from fuel p m ≡ some (length xs)
unfolding strlen_from
strlen_from-IsString zero p m xs is h = absurd (omega arith)
strlen_from-IsString (suc fuel) p m [] is h = rw is
strlen_from-IsString (suc fuel) p m (x ∷ xs) is h =
    rw (is.0, eq_of_ne x 0 is.1, strlen_from-IsString fuel (p + 1) m xs is.3 (omega arith))

-- `strlen` of a string is the number of its characters.
pub strlen-IsString :
    (fuel p : ℕ) (m : Mem) (xs : List ℕ)
    → IsString m p xs
    → p ≢ 0
    → length xs < fuel
    → strlen fuel p m ≡ some (length xs)
unfolding strlen
strlen-IsString fuel p m xs is ne h = rw (eq_of_ne p 0 ne) (strlen_from-IsString fuel p m xs is h)

IsString-same : (m : Mem) (p : ℕ) (xs ys : List ℕ) → IsString m p xs → IsString m p ys → xs ≡ ys
IsString-same m p [] [] is is' = refl
IsString-same m p [] (y ∷ ys) is is' = absurd (is'.1 (sym is'.0 ∙ is))
IsString-same m p (x ∷ xs) [] is is' = absurd (is.1 (sym is.0 ∙ is'))
IsString-same m p (x ∷ xs) (y ∷ ys) is is' =
    rw (sym is.0 ∙ is'.0, IsString-same m (p + 1) xs ys is.3 is'.3)

char_diff-zero : (a b : ℕ) → a < 256 → b < 256 → a ≢ b → char_diff a b ≢ 0
char_diff-zero a b h k ne e = ground arith

nil_cons : (y : ℕ) (ys : List ℕ) → [] ≢ y ∷ ys
nil_cons y ys e = ground arith

heads : (x y : ℕ) (xs ys : List ℕ) → x ∷ xs ≡ y ∷ ys → x ≡ y
heads x y xs ys e = cc

tails : (x y : ℕ) (xs ys : List ℕ) → x ∷ xs ≡ y ∷ ys → xs ≡ ys
tails x y xs ys e = cc

same_cons : (x y : ℕ) (xs ys : List ℕ) → x ≡ y → xs ≡ ys → x ∷ xs ≡ y ∷ ys
same_cons x y xs ys e e' = cc

-- The result tells whether the strings are equal.
abbrev pub Compared : Option ℕ → (xs ys : List ℕ) → Type 0
Compared o xs ys = (r : ℕ) × (o ≡ some r) × ((r ≡ 0) ↔ (xs ≡ ys))

step_equal :
    (fuel p q : ℕ) (m : Mem) (x : ℕ)
    → m p ≡ x
    → m q ≡ x
    → x ≢ 0
    → strcmp_from (suc fuel) p q m ≡ strcmp_from fuel (p + 1) (q + 1) m
unfolding strcmp_from
step_equal fuel p q m x e e' ne = rw (e, e', eq_of_ne x 0 ne, eq_self x)

step_differs :
    (fuel p q : ℕ) (m : Mem) (x y : ℕ)
    → m p ≡ x
    → m q ≡ y
    → x ≢ y
    → strcmp_from (suc fuel) p q m ≡ some (char_diff x y)
unfolding strcmp_from
step_differs fuel p q m x y e e' ne = rw (e, e') (ground arith)

step_end : (fuel p q : ℕ) (m : Mem) → m p ≡ 0 → m q ≡ 0 → strcmp_from (suc fuel) p q m ≡ some 0
unfolding strcmp_from
step_end fuel p q m e e' = rw (e, e')

strcmp_from-Compared :
    (fuel p q : ℕ) (m : Mem) (xs ys : List ℕ)
    → IsString m p xs
    → IsString m q ys
    → length xs < fuel
    → Compared (strcmp_from fuel p q m) xs ys
strcmp_from-Compared zero p q m xs ys is is' h = absurd (omega arith)
strcmp_from-Compared (suc fuel) p q m [] [] is is' h =
    (0, step_end fuel p q m is is', ((λ e. refl), λ e. refl))
strcmp_from-Compared (suc fuel) p q m [] (y ∷ ys) is is' h =
    let ne : 0 ≢ y = λ e. is'.1 (sym e) in
    (
      char_diff 0 y,
      step_differs fuel p q m 0 y is is'.0 ne,
      ((λ e. absurd (char_diff-zero 0 y (omega arith) is'.2 ne e)), λ e. absurd (nil_cons y ys e)),
    )
strcmp_from-Compared (suc fuel) p q m (x ∷ xs) [] is is' h = (
  char_diff x 0,
  step_differs fuel p q m x 0 is.0 is' is.1,
  (
    (λ e. absurd (char_diff-zero x 0 is.2 (omega arith) is.1 e)),
    λ e. absurd (nil_cons x xs (sym e)),
  ),
)
strcmp_from-Compared (suc fuel) p q m (x ∷ xs) (y ∷ ys) is is' h = elim (Bool-cases (x == y)) [
  | inl e ↦
      let same = (==_iff x y).0 e in
      let rest = strcmp_from-Compared fuel (p + 1) (q + 1) m xs ys is.3 is'.3 (omega arith) in
      (
        rest.0,
        step_equal fuel p q m x is.0 (is'.0 ∙ sym same) is.1 ∙ rest.1,
        ((λ z. same_cons x y xs ys same (rest.2.0 z)), λ z. rest.2.1 (tails x y xs ys z)),
      )
  | inr e ↦
      let ne : x ≢ y = λ z. ground (arith, e, z) in
      (
        char_diff x y,
        step_differs fuel p q m x y is.0 is'.0 ne,
        ((λ z. absurd (char_diff-zero x y is.2 is'.2 ne z)), λ z. absurd (ne (heads x y xs ys z))),
      )
]

-- `strcmp` of two strings returns, and its result is 0 exactly where they have the same characters.
pub strcmp-Compared :
    (fuel p q : ℕ) (m : Mem) (xs ys : List ℕ)
    → IsString m p xs
    → IsString m q ys
    → length xs < fuel
    → Compared (strcmp fuel p q m) xs ys
unfolding strcmp
strcmp-Compared fuel p q m xs ys is is' h = elim (Bool-cases (p == q)) [
  | inl e ↦ rw e (
    0,
    refl,
    (
      (λ z. IsString-same m q xs ys (subst (λ t. IsString m t xs) ((==_iff p q).0 e) is) is'),
      λ z. refl,
    ),
  )
  | inr e ↦ rw e (strcmp_from-Compared fuel p q m xs ys is is' h)
]
