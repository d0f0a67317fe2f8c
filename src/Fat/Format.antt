-- ===== src/Fat/Format.antt =====
-- The entries of a FAT as the format has them: numbers of three, four or eight hexadecimal digits, one
-- after the other, with the low digit first. Of eight digits the last one is not used.
use mein_os.Prelude.{
  ℕ, zero, suc, ◌+◌, ◌*◌, ◌/◌, ◌%◌, ◌^◌, ◌<◌, ◌≡◌, refl, ap, ◌∙◌, inl, inr, true, false, arith,
  ◌==◌, if◌then◌else◌, Bool-cases,
}
use mein_os.Fat.{FatType, fat12, fat16, fat32, bytes}
use mein_os.Fat.Chain.{value_of, entry_at, entry_size, entry_value}

-- Digit `k` of the bytes: each byte has two, the low one first.
unfoldable pub digit : (ℕ → ℕ) → ℕ → ℕ
digit f k = if k % 2 == 1 then f (k / 2) / 16 else f (k / 2) % 16

-- The number of some digits from `k` on
abbrev pub number : (ℕ → ℕ) → (k count : ℕ) → ℕ
number f k zero = 0
number f k (suc n) = digit f k + 16 * number f (k + 1) n

-- How many digits an entry has, and how many of them are used
abbrev pub width : FatType → ℕ
width fat12 = 3
width fat16 = 4
width fat32 = 8

abbrev pub used : FatType → ℕ
used fat12 = 3
used fat16 = 4
used fat32 = 7

-- The entry of cluster `c` in the bytes of a FAT
abbrev pub value : FatType → (ℕ → ℕ) → (c : ℕ) → ℕ
value t f c = number f (width t * c) (used t)

digit_low : (f : ℕ → ℕ) (k p : ℕ) → k ≡ 2 * p → digit f k ≡ f p % 16
unfolding digit
digit_low f k p e = rw even (ap (λ x. f x % 16) half)
  where
    even : (k % 2 == 1) ≡ false
    even = ground (arith, e)

    half : k / 2 ≡ p
    half = omega (arith, e)

digit_high : (f : ℕ → ℕ) (k p : ℕ) → k ≡ 2 * p + 1 → digit f k ≡ f p / 16
unfolding digit
digit_high f k p e = rw odd (ap (λ x. f x / 16) half)
  where
    odd : (k % 2 == 1) ≡ true
    odd = ground (arith, e)

    half : k / 2 ≡ p
    half = omega (arith, e)

-- The entry that `fat_clchain_create` takes out of the bytes is that of the format.
module _ (f : ℕ → ℕ) (are_bytes : (p : ℕ) → f p < 256) where
  at_suc : (p q : ℕ) → q ≡ p + 1 → f (suc p) ≡ f q
  at_suc p q e = let next : suc p ≡ q = omega (arith, e) in ap f next

  value12-even :
      (c k : ℕ) → c ≡ 2 * k → entry_value fat12 c (value_of (bytes f (3 * k) 2)) ≡ value fat12 f c
  value12-even c k e = rw even (
      omega (
        arith,
        digit_low f (3 * c) (3 * k) (omega (arith, e)),
        digit_high f (3 * c + 1) (3 * k) (omega (arith, e)),
        digit_low f (3 * c + 1 + 1) (3 * k + 1) (omega (arith, e)),
        are_bytes (3 * k),
        are_bytes (3 * k + 1),
        at_suc (3 * k) (3 * k + 1) refl,
      ))
    where
      even : (c % 2 == 1) ≡ false
      even = ground (arith, e)

  value12-odd :
      (c k : ℕ)
      → c ≡ 2 * k + 1
      → entry_value fat12 c (value_of (bytes f (3 * k + 1) 2)) ≡ value fat12 f c
  value12-odd c k e = rw odd (
      omega (
        arith,
        digit_high f (3 * c) (3 * k + 1) (omega (arith, e)),
        digit_low f (3 * c + 1) (3 * k + 2) (omega (arith, e)),
        digit_high f (3 * c + 1 + 1) (3 * k + 2) (omega (arith, e)),
        are_bytes (3 * k + 1),
        are_bytes (3 * k + 2),
        at_suc (3 * k + 1) (3 * k + 2) (omega arith),
      ))
    where
      odd : (c % 2 == 1) ≡ true
      odd = ground (arith, e)

  value16 : (c : ℕ) → entry_value fat16 c (value_of (bytes f (2 * c) 2)) ≡ value fat16 f c
  value16 c = omega (
    arith,
    digit_low f (4 * c) (2 * c) (omega arith),
    digit_high f (4 * c + 1) (2 * c) (omega arith),
    digit_low f (4 * c + 1 + 1) (2 * c + 1) (omega arith),
    digit_high f (4 * c + 1 + 1 + 1) (2 * c + 1) (omega arith),
    are_bytes (2 * c),
    are_bytes (2 * c + 1),
    at_suc (2 * c) (2 * c + 1) refl,
  )

  value32 : (c : ℕ) → entry_value fat32 c (value_of (bytes f (4 * c) 4)) ≡ value fat32 f c
  value32 c = omega (
    arith,
    digit_low f (8 * c) (4 * c) (omega arith),
    digit_high f (8 * c + 1) (4 * c) (omega arith),
    digit_low f (8 * c + 1 + 1) (4 * c + 1) (omega arith),
    digit_high f (8 * c + 1 + 1 + 1) (4 * c + 1) (omega arith),
    digit_low f (8 * c + 1 + 1 + 1 + 1) (4 * c + 2) (omega arith),
    digit_high f (8 * c + 1 + 1 + 1 + 1 + 1) (4 * c + 2) (omega arith),
    digit_low f (8 * c + 1 + 1 + 1 + 1 + 1 + 1) (4 * c + 3) (omega arith),
    are_bytes (4 * c),
    are_bytes (4 * c + 1),
    are_bytes (4 * c + 2),
    are_bytes (4 * c + 3),
    at_suc (4 * c) (4 * c + 1) refl,
    at_suc (suc (4 * c)) (4 * c + 2) (omega arith),
    at_suc (suc (suc (4 * c))) (4 * c + 3) (omega arith),
  )

  pub entry_value-value :
      (t : FatType) (c : ℕ)
      → c < 2 ^ 28
      → entry_value t c (value_of (bytes f (entry_at t c) (entry_size t))) ≡ value t f c
  entry_value-value fat12 c small = elim (Bool-cases (c % 2 == 1)) [
    | inl e ↦
        let odd : c ≡ 2 * (c / 2) + 1 = ground (arith, e) in
        let at : c * 3 % 2 ^ 32 / 2 ≡ 3 * (c / 2) + 1 = omega (arith, odd, small) in
        ap (λ p. entry_value fat12 c (value_of (bytes f p 2))) at ∙ value12-odd c (c / 2) odd
    | inr e ↦
        let even : c ≡ 2 * (c / 2) = ground (arith, e) in
        let at : c * 3 % 2 ^ 32 / 2 ≡ 3 * (c / 2) = omega (arith, even, small) in
        ap (λ p. entry_value fat12 c (value_of (bytes f p 2))) at ∙ value12-even c (c / 2) even
  ]
  entry_value-value fat16 c small =
      let at : c * 2 % 2 ^ 32 ≡ 2 * c = omega (arith, small) in
      ap (λ p. entry_value fat16 c (value_of (bytes f p 2))) at ∙ value16 c
  entry_value-value fat32 c small =
      let at : c * 4 % 2 ^ 32 ≡ 4 * c = omega (arith, small) in
      ap (λ p. entry_value fat32 c (value_of (bytes f p 4))) at ∙ value32 c
