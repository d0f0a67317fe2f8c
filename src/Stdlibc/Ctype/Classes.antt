-- ===== src/Stdlibc/Ctype/Classes.antt =====
-- How the classes of characters divide the numbers, and the two cases of a letter.
use mein_os.Prelude.{
  ℕ, ◌+◌, ◌-◌, ◌^◌, ◌≤◌, ◌<◌, ◌≡◌, refl, ◌∙◌, ◌⊎◌, inl, inr, Bool, true, false, not, ◌&&◌, arith,
  if◌then◌else◌, ltb, Bool-cases,
}
use mein_os.Stdlibc.Ctype.{
  int_lt, iscntrl, isdigit, islower, isprint, isupper, isalpha, isalnum, ispunct, tolower, toupper,
}

-- The tests on the characters of ASCII, as they read
small_lt : (a b : ℕ) → a < 2 ^ 31 → b < 2 ^ 31 → int_lt a b ≡ ltb a b
small_lt a b h k = ground (arith, h, k)

abbrev pub one_if : Bool → ℕ
one_if b = if b then 1 else 0

control-no_alnum : (c : ℕ) → c < 2 ^ 32 → iscntrl c ≡ true → isalnum c ≡ false
unfolding iscntrl isalnum isalpha isupper islower isdigit
control-no_alnum c h e = ground (arith, h, e)

punct-print : (c : ℕ) → ispunct c ≡ (not (iscntrl c) && not (isalnum c))
unfolding ispunct isprint iscntrl
punct-print c = refl

counted :
    (a b : Bool) → (a ≡ false) ⊎ (b ≡ false) → one_if a + (one_if b + one_if (not a && not b)) ≡ 1
counted a b h = ground (arith, h)

-- Each number is in just one of three classes: it is a control character, or a letter or a digit, or a
-- mark, as `iscntrl`, `isalnum` and `ispunct` say.
pub one-class :
    (c : ℕ) → c < 2 ^ 32 → one_if (iscntrl c) + (one_if (isalnum c) + one_if (ispunct c)) ≡ 1
one-class c h = rw (punct-print c) (
    counted (iscntrl c) (isalnum c)
      (elim (Bool-cases (iscntrl c)) [ inl e ↦ inr (control-no_alnum c h e) | inr e ↦ inl e ]))

upper-range : (c : ℕ) → c < 2 ^ 32 → isupper c ≡ true → (65 ≤ c) × (c ≤ 90)
unfolding isupper
upper-range c h e = ground (arith, h, e)

islower-in : (d : ℕ) → 97 ≤ d → d ≤ 122 → islower d ≡ true
unfolding islower
islower-in d a b = ground (arith, a, b)

tolower-in : (c : ℕ) → isupper c ≡ true → c ≤ 90 → tolower c ≡ c + 32
unfolding tolower
tolower-in c e h = rw e (omega (arith, h))

toupper-in : (d : ℕ) → islower d ≡ true → 97 ≤ d → d ≤ 122 → toupper d ≡ d - 32
unfolding toupper
toupper-in d e a b = rw e (omega (arith, a, b))

-- The small letter of a capital one is a small letter, and its capital is the letter again.
pub toupper-tolower :
    (c : ℕ)
    → c < 2 ^ 32
    → isupper c ≡ true
    → (islower (tolower c) ≡ true) × (toupper (tolower c) ≡ c)
toupper-tolower c h e =
    let range = upper-range c h e in
    let small : islower (c + 32) ≡ true =
      islower-in (c + 32) (omega (arith, range.0)) (omega (arith, range.1)) in
    rw (tolower-in c e range.1) (
      small,
      toupper-in (c + 32) small (omega (arith, range.0)) (omega (arith, range.1)) ∙ omega arith,
    )
