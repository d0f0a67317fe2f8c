-- ===== src/Stdlibc/StringCopy.antt =====
-- What `strcpy` leaves in the memory.
use mein_os.Prelude.{
  ℕ, zero, suc, ◌+◌, ◌<◌, ◌≤◌, ◌≡◌, sym, ◌∙◌, ap, ◌≢◌, ◌⊎◌, inl, inr, Option, some, List, [], ◌∷◌,
  arith, ◌==◌, ==_iff, Bool-cases, length,
}
use mathlib.Core.Path.{subst}
use mein_os.Llist.Mem.{eq_of_ne}
use mein_os.Stdlibc.Memory.{Mem}
use mein_os.Stdlibc.Copies.{Copied, two_parts, move-inside}
use mein_os.Stdlibc.Strings.{IsString, write, strcpy}

-- A write below a string, or above its end, leaves the string.
IsString-write :
    (d v s : ℕ) (xs : List ℕ) (m : Mem)
    → (d < s) ⊎ (s + length xs < d)
    → IsString m s xs
    → IsString (write d v m) s xs
IsString-write d v s [] m apart is = rw (eq_of_ne s d (differs d s 0 apart)) is
  where
    differs : (d s n : ℕ) → (d < s) ⊎ (s + n < d) → s ≢ d
    differs d s n (inl h) e = omega arith
    differs d s n (inr h) e = omega arith
IsString-write d v s (x ∷ xs) m apart is = (
  rw (eq_of_ne s d (differs d s (suc (length xs)) apart)) is.0,
  is.1,
  is.2,
  IsString-write d v (s + 1) xs m (next d s (length xs) apart) is.3,
)
  where
    differs : (d s n : ℕ) → (d < s) ⊎ (s + n < d) → s ≢ d
    differs d s n (inl h) e = omega arith
    differs d s n (inr h) e = omega arith

    next : (d s n : ℕ) → (d < s) ⊎ (s + suc n < d) → (d < s + 1) ⊎ (s + 1 + n < d)
    next d s n (inl h) = inl (omega arith)
    next d s n (inr h) = inr (omega arith)

-- One character copied is a block of one byte copied.
write-Copied : (d s v : ℕ) (m : Mem) → m s ≡ v → Copied 1 d s m (write d v m)
write-Copied d s v m e a = elim (Bool-cases (a == d)) [
  | inl t ↦
      let same = (==_iff a d).0 t in
      rw t (sym e ∙ ap m (omega arith) ∙ sym (move-inside 1 d s m a (omega arith) (omega arith)))
  | inr t ↦ ground arith
]

-- A copy of the string with its 0, returned in the memory that it left.
abbrev pub CopiedTo : Option Mem → (n d s : ℕ) → Mem → Type 0
CopiedTo o n d s m = (m' : Mem) × (o ≡ some m') × Copied n d s m m'

strcpy-end : (fuel d s : ℕ) (m : Mem) → m s ≡ 0 → strcpy (suc fuel) d s m ≡ some (write d 0 m)
unfolding strcpy
strcpy-end fuel d s m e = rw e

strcpy-step :
    (fuel d s x : ℕ) (m : Mem)
    → m s ≡ x
    → x ≢ 0
    → strcpy (suc fuel) d s m ≡ strcpy fuel (d + 1) (s + 1) (write d x m)
unfolding strcpy
strcpy-step fuel d s x m e ne = rw (e, eq_of_ne x 0 ne)

-- `strcpy` of a string returns, and has copied its characters and the 0 after them, and changed no
-- other byte. This holds where the destination does not lie above the source inside the string.
pub strcpy-CopiedTo :
    (fuel d s : ℕ) (m : Mem) (xs : List ℕ)
    → IsString m s xs
    → length xs < fuel
    → (d ≤ s) ⊎ (s + suc (length xs) ≤ d)
    → CopiedTo (strcpy fuel d s m) (suc (length xs)) d s m
strcpy-CopiedTo zero d s m xs is h apart = absurd (omega arith)
strcpy-CopiedTo (suc fuel) d s m [] is h apart =
    (write d 0 m, strcpy-end fuel d s m is, write-Copied d s 0 m is)
strcpy-CopiedTo (suc fuel) d s m (x ∷ xs) is h apart =
    let m' = write d x m in
    let rest =
      strcpy-CopiedTo fuel (d + 1) (s + 1) m' xs
        (IsString-write d x (s + 1) xs m (clear d s (length xs) apart) is.3) (omega arith)
        (tail d s (length xs) apart) in
    (
      rest.0,
      strcpy-step fuel d s x m is.0 is.1 ∙ rest.1,
      subst (λ t. Copied t d s m rest.0) (one_more (length xs))
          (two_parts 1 (suc (length xs)) d s m m' rest.0 (whole d s (length xs) apart)
            (write-Copied d s x m is.0) rest.2),
    )
  where
    one_more : (n : ℕ) → 1 + suc n ≡ suc (suc n)
    one_more n = omega arith

    whole : (d s n : ℕ) → (d ≤ s) ⊎ (s + suc (suc n) ≤ d) → (d ≤ s) ⊎ (s + (1 + suc n) ≤ d)
    whole d s n (inl h) = inl h
    whole d s n (inr h) = inr (omega arith)

    tail : (d s n : ℕ) → (d ≤ s) ⊎ (s + suc (suc n) ≤ d) → (d + 1 ≤ s + 1) ⊎ (s + 1 + suc n ≤ d + 1)
    tail d s n (inl h) = inl (omega arith)
    tail d s n (inr h) = inr (omega arith)

    clear : (d s n : ℕ) → (d ≤ s) ⊎ (s + suc (suc n) ≤ d) → (d < s + 1) ⊎ (s + 1 + n < d)
    clear d s n (inl h) = inl (omega arith)
    clear d s n (inr h) = inr (omega arith)
