-- ===== src/Libmeinos/Ringbuf/Block.antt =====
-- Parts of lists, and the copies of a ring buffer on them.
use mein_os.Prelude.{
  ℕ, zero, suc, ◌+◌, ◌-◌, ◌^◌, ◌≤◌, ◌<◌, ◌≡◌, refl, sym, ap, ◌∙◌, ◌⊎◌, inl, inr, min, true, false,
  none, some, List, [], ◌∷◌, ◌++◌, take, drop, length, length-take, arith, leb,
}
use mein_os.Libmeinos.Ringbuf.{copy_out, copy_in, size_add, size_sub}

module _ {ℓ} {A : Type ℓ} where
  pub take_all : (n : ℕ) (xs : List A) → length xs ≤ n → take n xs ≡ xs
  take_all zero [] h = refl
  take_all zero (x ∷ xs) h = ground (arith, h)
  take_all (suc n) [] h = refl
  take_all (suc n) (x ∷ xs) h = ap (λ r. x ∷ r) (take_all n xs (omega (arith, h)))

  pub drop_all : (n : ℕ) (xs : List A) → length xs ≤ n → drop n xs ≡ []
  drop_all zero [] h = refl
  drop_all zero (x ∷ xs) h = ground (arith, h)
  drop_all (suc n) [] h = refl
  drop_all (suc n) (x ∷ xs) h = drop_all n xs (omega (arith, h))

  pub drop-nil : (n : ℕ) → drop {A = A} n [] ≡ []
  drop-nil zero = refl
  drop-nil (suc n) = refl

  pub take-append_le : (n : ℕ) (xs ys : List A) → n ≤ length xs → take n (xs ++ ys) ≡ take n xs
  take-append_le zero xs ys h = refl
  take-append_le (suc n) [] ys h = ground (arith, h)
  take-append_le (suc n) (x ∷ xs) ys h = ap (λ r. x ∷ r) (take-append_le n xs ys (omega (arith, h)))

  pub take-append_ge :
      (n m : ℕ) (xs ys : List A) → n ≡ length xs + m → take n (xs ++ ys) ≡ xs ++ take m ys
  take-append_ge n m [] ys h = ap (λ k. take k ys) (omega (arith, h))
  take-append_ge zero m (x ∷ xs) ys h = ground (arith, h)
  take-append_ge (suc n) m (x ∷ xs) ys h =
      ap (λ r. x ∷ r) (take-append_ge n m xs ys (omega (arith, h)))

  pub drop-append_le :
      (n : ℕ) (xs ys : List A) → n ≤ length xs → drop n (xs ++ ys) ≡ drop n xs ++ ys
  drop-append_le zero xs ys h = refl
  drop-append_le (suc n) [] ys h = ground (arith, h)
  drop-append_le (suc n) (x ∷ xs) ys h = drop-append_le n xs ys (omega (arith, h))

  pub drop-append_ge :
      (n m : ℕ) (xs ys : List A) → n ≡ length xs + m → drop n (xs ++ ys) ≡ drop m ys
  drop-append_ge n m [] ys h = ap (λ k. drop k ys) (omega (arith, h))
  drop-append_ge zero m (x ∷ xs) ys h = ground (arith, h)
  drop-append_ge (suc n) m (x ∷ xs) ys h = drop-append_ge n m xs ys (omega (arith, h))

  pub take-take : (a b : ℕ) (xs : List A) → a ≤ b → take a (take b xs) ≡ take a xs
  take-take zero b xs h = refl
  take-take (suc a) zero xs h = ground (arith, h)
  take-take (suc a) (suc b) [] h = refl
  take-take (suc a) (suc b) (x ∷ xs) h = ap (λ r. x ∷ r) (take-take a b xs (omega (arith, h)))

  pub drop-drop : (a b c : ℕ) (xs : List A) → c ≡ a + b → drop a (drop b xs) ≡ drop c xs
  drop-drop a zero c xs h = ap (λ k. drop k xs) (omega (arith, h))
  drop-drop a (suc b) zero xs h = ground (arith, h)
  drop-drop a (suc b) (suc c) [] h = drop-nil a
  drop-drop a (suc b) (suc c) (x ∷ xs) h = drop-drop a b c xs (omega (arith, h))

  pub drop-take : (a b c : ℕ) (xs : List A) → b ≡ a + c → drop a (take b xs) ≡ take c (drop a xs)
  drop-take zero b c xs h = ap (λ k. take k xs) (omega (arith, h))
  drop-take (suc a) zero c xs h = ground (arith, h)
  drop-take (suc a) (suc b) zero [] h = refl
  drop-take (suc a) (suc b) (suc c) [] h = refl
  drop-take (suc a) (suc b) c (x ∷ xs) h = drop-take a b c xs (omega (arith, h))

either : (a c : ℕ) → (a ≤ c) ⊎ (c < a)
either a c = ground arith

module _ {ℓ} {A : Type ℓ} where
  short : (n : ℕ) (xs : List A) → length (take n xs) ≤ n
  short n xs = omega (arith, length-take n xs)

  -- The first `k` of `f` elements
  pub take-take-min : (k f : ℕ) (xs : List A) → take k (take f xs) ≡ take (min k f) xs
  take-take-min k f xs = elim (either k f) [
    | inl h ↦ take-take k f xs h ∙ ap (λ n. take n xs) (omega (arith, h))
    | inr h ↦
        take_all k (take f xs) (omega (arith, h, short f xs))
        ∙ ap (λ n. take n xs) (omega (arith, h))
  ]

  pub drop-take-min : (k f : ℕ) (xs : List A) → drop k (take f xs) ≡ drop (min k f) (take f xs)
  drop-take-min k f xs = elim (either k f) [
    | inl h ↦ ap (λ n. drop n (take f xs)) (omega (arith, h))
    | inr h ↦
        drop_all k (take f xs) (omega (arith, h, short f xs))
        ∙ sym (drop_all (min k f) (take f xs) (omega (arith, h, short f xs)))
  ]

pub size_add-small : (a b : ℕ) → a + b < 2 ^ 32 → size_add a b ≡ a + b
size_add-small a b h = omega (arith, h)

pub size_sub-small : (a b : ℕ) → b ≤ a → a < 2 ^ 32 → size_sub a b ≡ a - b
size_sub-small a b h k = omega (arith, h, k)

pub copy_out-inside :
    (block : List ℕ) (offset n : ℕ)
    → offset + n ≤ length block
    → copy_out block offset n ≡ some (take n (drop offset block))
unfolding copy_out
copy_out-inside block offset n h = rw inside
  where
    inside : leb (offset + n) (length block) ≡ true
    inside = ground (arith, h)

pub copy_in-inside :
    (block : List ℕ) (offset : ℕ) (bytes : List ℕ)
    → offset + length bytes ≤ length block
    → copy_in block offset bytes
      ≡ some (take offset block ++ (bytes ++ drop (offset + length bytes) block))
unfolding copy_in
copy_in-inside block offset bytes h = rw inside
  where
    inside : leb (offset + length bytes) (length block) ≡ true
    inside = ground (arith, h)

pub copy_in-outside :
    (block : List ℕ) (offset : ℕ) (bytes : List ℕ)
    → length block < offset + length bytes
    → copy_in block offset bytes ≡ none
unfolding copy_in
copy_in-outside block offset bytes h = rw outside
  where
    outside : leb (offset + length bytes) (length block) ≡ false
    outside = ground (arith, h)
