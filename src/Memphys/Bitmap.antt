-- ===== src/Memphys/Bitmap.antt =====
-- `memphys_dma_alloc`: it finds free pages where there are enough next to each other, and only then.
use mein_os.Prelude.{
  ℕ, zero, suc, ◌+◌, ◌-◌, ◌*◌, ◌/◌, ◌≤◌, ◌<◌, ◌≡◌, refl, ◌∙◌, ap, ◌≢◌, ◌⊎◌, inl, inr, Bool, true,
  false, Option, none, some, arith, ◌==◌, ==_iff, Bool-cases,
}
use mathlib.Core.Path.{subst}
use mein_os.Llist.Mem.{eq_of_ne, eq_self}
use mein_os.Ipc.State.{put}
use mein_os.Memphys.{page_size, dma_pages, mark, scan, dma_alloc, dma_free}

-- The pages from `s` on, `n` of them, are free.
abbrev pub FreeRun : (b : ℕ → Bool) (s n : ℕ) → Type 0
FreeRun b s n = (j : ℕ) → s ≤ j → j < s + n → b j ≡ false

-- One of them is taken.
abbrev pub Blocked : (b : ℕ → Bool) (s n : ℕ) → Type 0
Blocked b s n = (j : ℕ) × ((s ≤ j) × (j < s + n) × (b j ≡ true))

le_or_lt : (a c : ℕ) → (a ≤ c) ⊎ (c < a)
le_or_lt a c = ground arith

module _ (pages : ℕ) (b : ℕ → Bool) where
  -- What a scan gives from page `i` on, with `found` free pages before it
  abbrev Scanned : (left i found : ℕ) → Option ℕ → Type 0
  Scanned left i found none = (s : ℕ) → i ≤ s + found → s + pages ≤ i + left → Blocked b s pages
  Scanned left i found (some s) = (s + pages ≤ i + left) × FreeRun b s pages

  -- Page `i` is taken, and the scan goes on behind it with no free page before.
  past_taken :
      (left i found : ℕ) (r : Option ℕ)
      → found < pages
      → b i ≡ true
      → Scanned left (i + 1) 0 r
      → Scanned (suc left) i found r
  past_taken left i found none h e rest = λ s a c. elim (le_or_lt (i + 1) s) [
    | inl later ↦ rest s (omega (arith, later)) (omega (arith, c))
    | inr here ↦ (i, (omega (arith, here), omega (arith, a, h), e))
  ]
  past_taken left i found (some s) h e rest = (omega (arith, rest.0), rest.1)

  -- Page `i` is free, and is one more of the free pages before.
  past_free :
      (left i found : ℕ) (r : Option ℕ)
      → Scanned left (i + 1) (found + 1) r
      → Scanned (suc left) i found r
  past_free left i found none rest = λ s a c. rest s (omega (arith, a)) (omega (arith, c))
  past_free left i found (some s) rest = (omega (arith, rest.0), rest.1)

  longer :
      (i found : ℕ)
      → found ≤ i
      → FreeRun b (i - found) found
      → b i ≡ false
      → FreeRun b (i + 1 - (found + 1)) (found + 1)
  longer i found le free e j a c = elim (le_or_lt i j) [
    | inl last ↦ ap b (omega (arith, last, c, le)) ∙ e
    | inr inner ↦ free j (omega (arith, a, le)) (omega (arith, inner, le))
  ]

  scan-Scanned :
      (left i found : ℕ)
      → found < pages
      → found ≤ i
      → FreeRun b (i - found) found
      → Scanned left i found (scan left i found pages b)
  unfolding scan
  scan-Scanned zero i found h le free = λ s a c. ground (arith, h, a, c)
  scan-Scanned (suc left) i found h le free =
      let after_taken =
        scan-Scanned left (i + 1) 0 (omega (arith, h)) (omega arith)
          (λ j x y. ground (arith, x, y)) in
      let after_free = λ (more : found + 1 < pages).
        scan-Scanned left (i + 1) (found + 1) more (omega (arith, le)) in
      elim (Bool-cases (b i)) [
        | inl e ↦
            rw (e, eq_of_ne 0 pages (λ z. ground (arith, h, z)))
              (past_taken left i found (scan left (i + 1) 0 pages b) h e after_taken)
        | inr e ↦ elim (Bool-cases ((found + 1) == pages)) [
          | inl full ↦
              let same = (==_iff (found + 1) pages).0 full in
              rw (e, full)
                (
                  omega (arith, same, le),
                  subst (FreeRun b (i + 1 - (found + 1))) same (longer i found le free e),
                )
          | inr more ↦
              rw (e, more)
                (past_free left i found (scan left (i + 1) (found + 1) pages b)
                  (after_free (ground (arith, h, more)) (longer i found le free e)))
        ]
      ]

-- The loop sets the bits from `j` on, and no other.
mark-sets :
    (n j : ℕ) (b : ℕ → Bool) (i : ℕ)
    → ((j ≤ i) × (i < j + n) → mark n j b i ≡ true) × ((i < j) ⊎ (j + n ≤ i) → mark n j b i ≡ b i)
unfolding mark
mark-sets zero j b i = ((λ h. ground (arith, h)), λ h. refl)
mark-sets (suc n) j b i =
    let rest = mark-sets n (j + 1) (put b j true) i in
    (
      (λ h. elim (le_or_lt (j + 1) i) [
        | inl later ↦ rest.0 (later, omega (arith, h.1))
        | inr here ↦ rest.1 (inl here) ∙ set_here (omega (arith, h.0, here))
      ]),
      λ h. rest.1 (outer h) ∙ put_other (λ (z : i ≡ j). ground (arith, z, h)),
    )
  where
    set_here : i ≡ j → put b j true i ≡ true
    set_here e = rw (e, eq_self j)

    put_other : i ≢ j → put b j true i ≡ b i
    put_other ne = rw (eq_of_ne i j ne)

    outer : (i < j) ⊎ (j + suc n ≤ i) → (i < j + 1) ⊎ (j + 1 + n ≤ i)
    outer h = ground (arith, h)

-- What an allocation of `pages` pages in the bitmap `b` gives: free pages below the limit, which are
-- taken afterwards, as they were the others; or no page, and then each run of so many pages below the
-- limit has a taken one.
pub data Allocated (pages : ℕ) (b : ℕ → Bool) : (res : ℕ × (ℕ → Bool)) → Type 0 where
  found :
      {start : ℕ} {b' : ℕ → Bool}
      → start + pages ≤ dma_pages
      → FreeRun b start pages
      → ((j : ℕ) → start ≤ j → j < start + pages → b' j ≡ true)
      → ((j : ℕ) → (j < start) ⊎ (start + pages ≤ j) → b' j ≡ b j)
      → Allocated pages b (start * page_size, b')
  full : ((s : ℕ) → s + pages ≤ dma_pages → Blocked b s pages) → Allocated pages b (0, b)

mark-found :
    (pages start : ℕ) (b : ℕ → Bool)
    → start + pages ≤ dma_pages
    → FreeRun b start pages
    → Allocated pages b (start * page_size, mark pages start b)
mark-found pages start b h free =
    found h free (λ j x y. (mark-sets pages start b j).0 (x, y))
      (λ j x. (mark-sets pages start b j).1 x)

given :
    (pages : ℕ) (b : ℕ → Bool) (r : Option ℕ)
    → Scanned pages b dma_pages 0 0 r
    → Allocated pages b
        (elim r [ none ↦ (0, b) | some start ↦ (start * page_size, mark pages start b) ])
given pages b none h = full (λ s c. h s (omega arith) c)
given pages b (some s) h = mark-found pages s b h.0 h.1

-- An allocation of one page or more gives pages that were free and lie below the limit, and takes them
-- and no other. It gives no page only where each run of so many pages below the limit has a taken one,
-- and then leaves the bitmap as it was.
pub dma_alloc-Allocated :
    (pages : ℕ) (b : ℕ → Bool) → 0 < pages → Allocated pages b (dma_alloc pages b)
unfolding dma_alloc
dma_alloc-Allocated pages b h =
    given pages b (scan dma_pages 0 0 pages b)
      (scan-Scanned pages b dma_pages 0 0 h (omega arith) (λ j x y. ground (arith, x, y)))

-- Pages are taken, and their address is freed: the first of them is free again, and each one behind it
-- stays taken.
pub dma_free-first :
    (start pages j : ℕ) (b : ℕ → Bool)
    → start < j
    → j < start + pages
    → let b' = dma_free (start * page_size) (mark pages start b) in
      (b' start ≡ false) × (b' j ≡ true)
unfolding dma_free
dma_free-first start pages j b x y =
    let at : (start * page_size) / page_size ≡ start = omega arith in
    (
      rw (at, eq_self start),
      rw (at, eq_of_ne j start (λ z. ground (arith, x, z)))
          ((mark-sets pages start b j).0 (omega (arith, x), y)),
    )
