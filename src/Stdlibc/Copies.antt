-- ===== src/Stdlibc/Copies.antt =====
-- Copies of blocks of bytes, as the functions of string.c make them, from one or two parts.
use mein_os.Prelude.{
  ℕ, ◌+◌, ◌-◌, ◌<◌, ◌≤◌, ◌≡◌, sym, ◌∙◌, ap, ◌⊎◌, inl, inr, true, false, arith, ltb, Bool-cases,
}
use mein_os.Stdlibc.Memory.{Mem, within, move}

-- After it the `n` bytes from `d` on are those that were at `s`, and no other byte has changed.
abbrev pub Copied : (n d s : ℕ) (m m' : Mem) → Type 0
Copied n d s m m' = (a : ℕ) → m' a ≡ move n d s m a

-- The tests of an address.
within_yes : (d n a : ℕ) → d ≤ a → a < d + n → within d n a ≡ true
within_yes d n a h k = ground arith

within_low : (d n a : ℕ) → a < d → within d n a ≡ false
within_low d n a h = ground arith

within_high : (d n a : ℕ) → d + n ≤ a → within d n a ≡ false
within_high d n a h = ground arith

-- Where an address stands to a block.
pub data Place (d n a : ℕ) : Type 0 where
  inside : d ≤ a → a < d + n → Place d n a
  below : a < d → Place d n a
  above : d + n ≤ a → Place d n a

pub place : (d n a : ℕ) → Place d n a
place d n a = elim (Bool-cases (ltb a d)) [
  | inl e ↦ below (ground arith)
  | inr e ↦ elim (Bool-cases (ltb a (d + n))) [
    | inl f ↦ inside (ground arith) (ground arith)
    | inr f ↦ above (ground arith)
  ]
]

pub move-inside :
    (n d s : ℕ) (m : Mem) (a : ℕ) → d ≤ a → a < d + n → move n d s m a ≡ m (s + (a - d))
move-inside n d s m a h k = rw (within_yes d n a h k)

pub move-below : (n d s : ℕ) (m : Mem) (a : ℕ) → a < d → move n d s m a ≡ m a
move-below n d s m a h = rw (within_low d n a h)

pub move-above : (n d s : ℕ) (m : Mem) (a : ℕ) → d + n ≤ a → move n d s m a ≡ m a
move-above n d s m a h = rw (within_high d n a h)

-- An address that the block does not have keeps its byte.
move-apart : (n d s : ℕ) (m : Mem) (a : ℕ) → (a < d) ⊎ (d + n ≤ a) → move n d s m a ≡ m a
move-apart n d s m a (inl h) = move-below n d s m a h
move-apart n d s m a (inr h) = move-above n d s m a h

-- A copy in two parts, the lower one first, where the block does not reach into the second source.
pub two_parts :
    (n k d s : ℕ) (m m' m'' : Mem)
    → (d ≤ s) ⊎ (s + (n + k) ≤ d)
    → Copied n d s m m'
    → Copied k (d + n) (s + n) m' m''
    → Copied (n + k) d s m m''
two_parts n k d s m m' m'' apart c c' a = elim (place d n a) [
  | below h ↦
      c' a
      ∙ move-below k (d + n) (s + n) m' a (omega arith)
      ∙ c a
      ∙ move-below n d s m a h
      ∙ sym (move-below (n + k) d s m a h)
  | inside h l ↦
      c' a
      ∙ move-below k (d + n) (s + n) m' a l
      ∙ c a
      ∙ move-inside n d s m a h l
      ∙ sym (move-inside (n + k) d s m a h (omega arith))
  | above h ↦ elim (place (d + n) k a) [
    | below h' ↦ absurd (omega arith)
    | inside h' l ↦
        let x = s + n + (a - (d + n)) in
        c' a
        ∙ move-inside k (d + n) (s + n) m' a h' l
        ∙ c x
        ∙ move-apart n d s m x (second_source n k d s a apart h' l)
        ∙ ap m (omega arith)
        ∙ sym (move-inside (n + k) d s m a (omega arith) (omega arith))
    | above h' ↦
        c' a
        ∙ move-above k (d + n) (s + n) m' a h'
        ∙ c a
        ∙ move-above n d s m a h
        ∙ sym (move-above (n + k) d s m a (omega arith))
  ]
]
  where
    second_source :
        (n k d s a : ℕ)
        → (d ≤ s) ⊎ (s + (n + k) ≤ d)
        → d + n ≤ a
        → a < d + n + k
        → (s + n + (a - (d + n)) < d) ⊎ (d + n ≤ s + n + (a - (d + n)))
    second_source n k d s a (inl apart) h l = inr (omega arith)
    second_source n k d s a (inr apart) h l = inl (omega arith)

-- A copy in two parts, the upper one first, where the source is below the block.
pub two_parts_down :
    (n k d s : ℕ) (m m' m'' : Mem)
    → s ≤ d
    → Copied k (d + n) (s + n) m m'
    → Copied n d s m' m''
    → Copied (n + k) d s m m''
two_parts_down n k d s m m' m'' apart c c' a = elim (place d n a) [
  | below h ↦
      c' a
      ∙ move-below n d s m' a h
      ∙ c a
      ∙ move-below k (d + n) (s + n) m a (omega arith)
      ∙ sym (move-below (n + k) d s m a h)
  | inside h l ↦
      let x = s + (a - d) in
      c' a
      ∙ move-inside n d s m' a h l
      ∙ c x
      ∙ move-below k (d + n) (s + n) m x (omega arith)
      ∙ sym (move-inside (n + k) d s m a h (omega arith))
  | above h ↦ c' a ∙ move-above n d s m' a h ∙ c a ∙ elim (place (d + n) k a) [
    | below h' ↦ absurd (omega arith)
    | inside h' l ↦
        move-inside k (d + n) (s + n) m a h' l
        ∙ ap m (omega arith)
        ∙ sym (move-inside (n + k) d s m a (omega arith) (omega arith))
    | above h' ↦
        move-above k (d + n) (s + n) m a h' ∙ sym (move-above (n + k) d s m a (omega arith))
  ]
]
