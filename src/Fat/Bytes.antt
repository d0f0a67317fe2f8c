-- ===== src/Fat/Bytes.antt =====
-- The bytes of a stretch, in parts.
use mein_os.Prelude.{
  ℕ, zero, suc, ◌+◌, ◌*◌, ◌/◌, ◌%◌, ◌≤◌, ◌<◌, ◌≡◌, refl, sym, ap, ◌∙◌, ◌⊎◌, inl, inr, ◌∷◌, ◌++◌,
  arith,
}
use native.Mathlib.Nat.{mul-add-div_right, mul-add-mod_self_right, div-eq_of_lt, mod-eq_of_lt}
use mein_os.Fat.{FatFs, bytes}

-- A function at two sums that are equal
pub same_at : (f : ℕ → ℕ) (a b : ℕ) → a ≡ b → f a ≡ f b
same_at f a b e = ap f e

pub bytes_ext :
    (f g : ℕ → ℕ) (p q n : ℕ)
    → ((i : ℕ) → i < n → f (p + i) ≡ g (q + i))
    → bytes f p n ≡ bytes g q n
bytes_ext f g p q zero h = refl
bytes_ext f g p q (suc n) h = rw (first, bytes_ext f g (suc p) (suc q) n rest) refl
  where
    first : f p ≡ g q
    first =
        same_at f p (p + 0) (omega arith) ∙ h 0 (omega arith) ∙ same_at g (q + 0) q (omega arith)

    rest : (i : ℕ) → i < n → f (suc p + i) ≡ g (suc q + i)
    rest i l =
        same_at f (suc p + i) (p + suc i) (omega arith)
        ∙ h (suc i) (omega (arith, l))
        ∙ same_at g (q + suc i) (suc q + i) (omega arith)

pub bytes-from : (f : ℕ → ℕ) (p q n : ℕ) → p ≡ q → bytes f p n ≡ bytes f q n
bytes-from f p q n e = ap (λ x. bytes f x n) e

bytes-size : (f : ℕ → ℕ) (p m n : ℕ) → m ≡ n → bytes f p m ≡ bytes f p n
bytes-size f p m n e = ap (bytes f p) e

bytes-++ : (f : ℕ → ℕ) (p m n : ℕ) → bytes f p m ++ bytes f (p + m) n ≡ bytes f p (m + n)
bytes-++ f p zero n =
    bytes-from f (p + 0) p n (omega arith) ∙ bytes-size f p n (0 + n) (omega arith)
bytes-++ f p (suc m) n =
    ap (λ xs. f p ∷ xs)
      (ap (λ xs. bytes f (suc p) m ++ xs) (bytes-from f (p + suc m) (suc p + m) n (omega arith))
        ∙ bytes-++ f (suc p) m n)
    ∙ bytes-size f p (suc (m + n)) (suc m + n) (omega arith)

-- Two parts that follow one another, where the second one may be empty
pub bytes-join :
    (f : ℕ → ℕ) (p q m n total : ℕ)
    → (q ≡ p + m) ⊎ (n ≡ 0)
    → m + n ≡ total
    → bytes f p m ++ bytes f q n ≡ bytes f p total
bytes-join f p q m n total (inl e) sum =
    ap (λ xs. bytes f p m ++ xs) (bytes-from f q (p + m) n e)
    ∙ bytes-++ f p m n
    ∙ bytes-size f p (m + n) total sum
bytes-join f p q m n total (inr e) sum =
    ap (λ xs. bytes f p m ++ xs) (bytes-size f q n 0 e ∙ sym (bytes-size f (p + m) n 0 e))
    ∙ bytes-++ f p m n
    ∙ bytes-size f p (m + n) total sum

-- The byte of the volume at a position
abbrev pub byte_at : FatFs → ℕ → ℕ
byte_at fs p = fs.cache (p / fs.bootsector.sector_size) (p % fs.bootsector.sector_size)

-- The part with the offset `r` in the part with the number `q`
pub div-part : (m q r : ℕ) → r < m → (q * m + r) / m ≡ q
div-part m q r h = mul-add-div_right (omega (arith, h)) q r ∙ rw (div-eq_of_lt h) (omega arith)

pub mod-part : (m q r : ℕ) → r < m → (q * m + r) % m ≡ r
mod-part m q r h = mul-add-mod_self_right q m r ∙ mod-eq_of_lt h

pub byte_at-part :
    (fs : FatFs) (block offset : ℕ)
    → offset < fs.bootsector.sector_size
    → byte_at fs (block * fs.bootsector.sector_size + offset) ≡ fs.cache block offset
byte_at-part fs block offset h =
    let size = fs.bootsector.sector_size in
    ap (λ b. fs.cache b ((block * size + offset) % size)) (div-part size block offset h)
    ∙ ap (fs.cache block) (mod-part size block offset h)

pub bytes-sector :
    (fs : FatFs) (block offset n : ℕ)
    → offset + n ≤ fs.bootsector.sector_size
    → bytes (fs.cache block) offset n
      ≡ bytes (byte_at fs) (block * fs.bootsector.sector_size + offset) n
bytes-sector fs block offset n h =
    let size = fs.bootsector.sector_size in
    bytes_ext (fs.cache block) (byte_at fs) offset (block * size + offset) n λ i l. sym (
      same_at (byte_at fs) (block * size + offset + i) (block * size + (offset + i)) (omega arith)
      ∙ byte_at-part fs block (offset + i) (omega (arith, h, l)))
