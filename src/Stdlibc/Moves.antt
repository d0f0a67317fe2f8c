-- ===== src/Stdlibc/Moves.antt =====
-- What `memcpy`, `memmove` and `memset` leave in the memory.
use mein_os.Prelude.{
  ℕ, zero, suc, ◌+◌, ◌*◌, ◌/◌, ◌%◌, ◌≤◌, ◌≡◌, refl, sym, ◌∙◌, ap, ◌⊎◌, inl, inr, arith, ltb, ◌==◌,
  if◌then◌else◌, Bool-cases, ==_iff,
}
use mathlib.Core.Path.{subst}
use mein_os.Stdlibc.Memory.{Mem, within, move, forward, backward, memcpy, memmove, fill, memset}
use mein_os.Stdlibc.Copies.{
  Copied, inside, below, above, place, move-inside, move-below, move-above, two_parts,
  two_parts_down,
}

suc_mul : (c w : ℕ) → suc c * w ≡ w + c * w
suc_mul c w = grind arith

zero_mul : (w : ℕ) → 0 * w ≡ 0
zero_mul w = grind arith

nothing : (d s : ℕ) (m : Mem) → Copied 0 d s m m
nothing d s m a = elim (place d 0 a) [
  | below h ↦ sym (move-below 0 d s m a h)
  | inside h l ↦ absurd (omega arith)
  | above h ↦ sym (move-above 0 d s m a h)
]

forward-Copied :
    (w c d s : ℕ) (m : Mem) → (d ≤ s) ⊎ (s + c * w ≤ d) → Copied (c * w) d s m (forward w c d s m)
unfolding forward
forward-Copied w zero d s m apart = rw (zero_mul w) (nothing d s m)
forward-Copied w (suc c) d s m apart = rw (suc_mul c w) (
    two_parts w (c * w) d s m (move w d s m) (forward w c (d + w) (s + w) (move w d s m))
      (part w c d s apart) (λ a. refl)
      (forward-Copied w c (d + w) (s + w) (move w d s m) (shift w c d s apart)))
  where
    part : (w c d s : ℕ) → (d ≤ s) ⊎ (s + suc c * w ≤ d) → (d ≤ s) ⊎ (s + (w + c * w) ≤ d)
    part w c d s (inl h) = inl h
    part w c d s (inr h) = inr (omega (arith, suc_mul c w))

    shift :
        (w c d s : ℕ) → (d ≤ s) ⊎ (s + suc c * w ≤ d) → (d + w ≤ s + w) ⊎ (s + w + c * w ≤ d + w)
    shift w c d s (inl h) = inl (omega arith)
    shift w c d s (inr h) = inr (omega (arith, suc_mul c w))

backward-Copied : (w c d s : ℕ) (m : Mem) → s ≤ d → Copied (c * w) d s m (backward w c d s m)
unfolding backward
backward-Copied w zero d s m h = rw (zero_mul w) (nothing d s m)
backward-Copied w (suc c) d s m h =
    rw (suc_mul c w, add_comm w (c * w))
      (two_parts_down (c * w) w d s m (move w (d + c * w) (s + c * w) m)
        (backward w c d s (move w (d + c * w) (s + c * w) m)) h (λ a. refl)
        (backward-Copied w c d s (move w (d + c * w) (s + c * w) m) h))
  where
    add_comm : (a b : ℕ) → a + b ≡ b + a
    add_comm a b = omega arith

words : (n : ℕ) → n / 4 * 4 + n % 4 ≡ n
words n = omega arith

bytes : (n : ℕ) → n % 4 * 1 ≡ n % 4
bytes n = omega arith

self : (n d : ℕ) (m : Mem) → Copied n d d m m
self n d m a = elim (place d n a) [
  | below h ↦ sym (move-below n d d m a h)
  | inside h l ↦ ap m (omega arith) ∙ sym (move-inside n d d m a h l)
  | above h ↦ sym (move-above n d d m a h)
]

-- The words and then the bytes, upwards.
upwards :
    (d s n : ℕ) (m : Mem)
    → (d ≤ s) ⊎ (s + n ≤ d)
    → Copied n d s m (forward 1 (n % 4) (d + n / 4 * 4) (s + n / 4 * 4) (forward 4 (n / 4) d s m))
upwards d s n m apart =
    let m' = forward 4 (n / 4) d s m in
    let m'' = forward 1 (n % 4) (d + n / 4 * 4) (s + n / 4 * 4) m' in
    subst (λ t. Copied t d s m m'') (words n)
      (two_parts (n / 4 * 4) (n % 4) d s m m' m'' (whole d s n apart)
        (forward-Copied 4 (n / 4) d s m (first d s n apart))
        (subst (λ t. Copied t (d + n / 4 * 4) (s + n / 4 * 4) m' m'') (bytes n)
          (forward-Copied 1 (n % 4) (d + n / 4 * 4) (s + n / 4 * 4) m' (rest d s n apart))))
  where
    whole : (d s n : ℕ) → (d ≤ s) ⊎ (s + n ≤ d) → (d ≤ s) ⊎ (s + (n / 4 * 4 + n % 4) ≤ d)
    whole d s n (inl h) = inl h
    whole d s n (inr h) = inr (omega arith)

    first : (d s n : ℕ) → (d ≤ s) ⊎ (s + n ≤ d) → (d ≤ s) ⊎ (s + n / 4 * 4 ≤ d)
    first d s n (inl h) = inl h
    first d s n (inr h) = inr (omega arith)

    rest :
        (d s n : ℕ)
        → (d ≤ s) ⊎ (s + n ≤ d)
        → (d + n / 4 * 4 ≤ s + n / 4 * 4) ⊎ (s + n / 4 * 4 + n % 4 * 1 ≤ d + n / 4 * 4)
    rest d s n (inl h) = inl (omega arith)
    rest d s n (inr h) = inr (omega arith)

-- The bytes and then the words, downwards.
downwards :
    (d s n : ℕ) (m : Mem)
    → s ≤ d
    → Copied n d s m (backward 4 (n / 4) d s (backward 1 (n % 4) (d + n / 4 * 4) (s + n / 4 * 4) m))
downwards d s n m h =
    let m' = backward 1 (n % 4) (d + n / 4 * 4) (s + n / 4 * 4) m in
    let m'' = backward 4 (n / 4) d s m' in
    subst (λ t. Copied t d s m m'') (words n)
      (two_parts_down (n / 4 * 4) (n % 4) d s m m' m'' h
        (subst (λ t. Copied t (d + n / 4 * 4) (s + n / 4 * 4) m m') (bytes n)
          (backward-Copied 1 (n % 4) (d + n / 4 * 4) (s + n / 4 * 4) m (omega arith)))
        (backward-Copied 4 (n / 4) d s m' h))

-- `memcpy` copies the block as it was, also where the two blocks overlap with the destination below
-- the source, and changes no other byte. This holds where the destination does not lie above the
-- source inside the block.
pub memcpy-Copied :
    (dest src n : ℕ) (m : Mem)
    → (dest ≤ src) ⊎ (src + n ≤ dest)
    → Copied n dest src m (memcpy dest src n m)
unfolding memcpy
memcpy-Copied dest src n m apart = elim (Bool-cases (dest == src)) [
  | inl e ↦ rw (e, (==_iff dest src).0 e) (self n src m)
  | inr e ↦ rw e (upwards dest src n m apart)
]

-- `memmove` copies the block as it was, however the two blocks overlap, and changes no other byte.
pub memmove-Copied : (dest src n : ℕ) (m : Mem) → Copied n dest src m (memmove dest src n m)
unfolding memmove
memmove-Copied dest src n m = elim (Bool-cases (dest == src)) [
  | inl e ↦ rw (e, (==_iff dest src).0 e) (self n src m)
  | inr e ↦ elim (Bool-cases (ltb dest src)) [
    | inl f ↦ rw (e, f) (upwards dest src n m (inl (ground arith)))
    | inr f ↦ rw (e, f) (downwards dest src n m (ground arith))
  ]
]

fill_lem :
    (n d val : ℕ) (m : Mem) (a : ℕ) → fill n d val m a ≡ (if within d n a then val % 256 else m a)
unfolding fill
fill_lem zero d val m a = ground arith
fill_lem (suc n) d val m a =
    fill_lem n (d + 1) val (λ b. if b == d then val % 256 else m b) a ∙ ground arith

-- `memset` sets each byte of the block to the low byte of the value, and changes no other byte.
pub memset_lem :
    (dest val n : ℕ) (m : Mem) (a : ℕ)
    → memset dest val n m a ≡ (if within dest n a then val % 256 else m a)
unfolding memset
memset_lem dest val n m a = fill_lem n dest val m a
