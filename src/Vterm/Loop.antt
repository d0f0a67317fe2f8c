-- ===== src/Vterm/Loop.antt =====
-- The loop of `vt_term_onwrite` on a screen.
use mein_os.Prelude.{
  ℕ, suc, ◌+◌, ◌*◌, ◌≤◌, ◌<◌, ◌≡◌, refl, ap, ◌⊎◌, inl, inr, false, Option, none, some, List, [],
  ◌∷◌, arith, ◌==◌, if◌then◌else◌, leb, length, Bool-cases, ==_iff,
}
use native.Mathlib.Nat.{mul-le-mul_right}
use mein_os.Vterm.{Term, printchar, after_escape, then_print, one_more, onwrite}
use mein_os.Vterm.Escape.{escape_decode}
use mein_os.Vterm.Screen.{OnScreen, Printed, printchar-Printed}

-- The bytes before the first one that is not ASCII
abbrev pub ascii : List ℕ → ℕ
ascii [] = 0
ascii (c ∷ cs) = if leb 128 c then 0 else ascii cs + 1

-- Behind one of the escape characters `vt_escape_decode` does not come back.
abbrev pub Faulty : (digits : List ℕ → ℕ) → List ℕ → Type 0
Faulty digits [] = ⊥
Faulty digits (c ∷ cs) = ((c ≡ 27) × (escape_decode digits cs ≡ none)) ⊎ Faulty digits cs

-- The buffer has no cell for the last place of the `n` lines from the line of the cursor on.
abbrev pub Short : Term → (n : ℕ) → Type 0
Short t n = length t.cells < (t.y + n) * t.width

abbrev pub Written : (digits : List ℕ → ℕ) → List ℕ → Term → Option (ℕ × Term) → Type 0
Written digits cs t none = Faulty digits cs ⊎ Short t (length cs)
Written digits cs t (some r) = (r.0 ≡ ascii cs) × OnScreen r.1

Short-suc :
    (o t : Term) (n : ℕ)
    → t.y ≤ o.y + 1
    → t.width ≡ o.width
    → length t.cells ≡ length o.cells
    → Short t n
    → Short o (suc n)
Short-suc o t n row width cells s =
    let same : (t.y + n) * t.width ≡ (t.y + n) * o.width = ap (λ w. (t.y + n) * w) width in
    let rows : (t.y + n) * o.width ≤ (o.y + suc n) * o.width =
      mul-le-mul_right o.width (omega (arith, row)) in
    omega (arith, s, cells, same, rows)

no_cell-Short :
    (t : Term) (n : ℕ) → t.x < t.width → length t.cells ≤ t.y * t.width + t.x → Short t (suc n)
no_cell-Short t n x_in h =
    let rows : (t.y + 1) * t.width ≤ (t.y + suc n) * t.width =
      mul-le-mul_right t.width (omega arith) in
    omega (arith, h, x_in, rows)

module _ (digits : List ℕ → ℕ) where
  -- One more byte before what the loop takes from `t` on
  one_more-Written :
      (c : ℕ) (cs : List ℕ) (o t : Term) (r : Option (ℕ × Term))
      → leb 128 c ≡ false
      → t.y ≤ o.y + 1
      → t.width ≡ o.width
      → length t.cells ≡ length o.cells
      → Written digits cs t r
      → Written digits (c ∷ cs) o (one_more r)
  one_more-Written c cs o t none e row width cells (inl f) = inl (inr f)
  one_more-Written c cs o t none e row width cells (inr s) =
      inr (Short-suc o t (length cs) row width cells s)
  one_more-Written c cs o t (some r) e row width cells w = (rw e (omega (arith, w.0)), w.1)

  after_escape-Written :
      (c : ℕ) (cs : List ℕ) (t : Term) (answer : Option ℕ) (r : Option (ℕ × Term))
      → c ≡ 27
      → escape_decode digits cs ≡ answer
      → Written digits cs t r
      → Written digits (c ∷ cs) t (after_escape answer r)
  after_escape-Written c cs t none r e a w = inl (inl (e, a))
  after_escape-Written c cs t (some n) r e a w =
      one_more-Written c cs t t r (ground (arith, e)) (omega arith) refl refl w

  then_print-Written :
      (c : ℕ) (cs : List ℕ) (o : Term) (p : Option Term) (k : Term → Option (ℕ × Term))
      → leb 128 c ≡ false
      → OnScreen o
      → Printed o p
      → ((t : Term) → OnScreen t → Written digits cs t (k t))
      → Written digits (c ∷ cs) o (one_more (then_print p k))
  then_print-Written c cs o none k e s p h = inr (no_cell-Short o (length cs) s.x_in p)
  then_print-Written c cs o (some t) k e s p h =
      one_more-Written c cs o t (k t) e p.1 p.2 p.3 (h t p.0)

  -- The cursor is on a screen of less than 2 ^ 16 columns and 2 ^ 15 lines, of which the buffer has a byte
  -- for each place. Then the bytes before the first one that is not ASCII are taken, and the cursor stays
  -- on the screen; or `vt_escape_decode` does not come back behind one of the escape characters; or the
  -- cells of the buffer end before as many lines from the top as there are above the cursor and bytes to
  -- write.
  pub onwrite-Written :
      (cs : List ℕ) (t : Term) → OnScreen t → Written digits cs t (onwrite digits cs t)
  unfolding onwrite
  onwrite-Written [] t s = (refl, s)
  onwrite-Written (c ∷ cs) t s = elim (Bool-cases (c == 27)) [
    | inl e ↦ rw e (
        after_escape-Written c cs t (escape_decode digits cs) (onwrite digits cs t)
          ((==_iff c 27).0 e) refl (onwrite-Written cs t s))
    | inr e ↦ elim (Bool-cases (leb 128 c)) [
      | inl b ↦ rw (e, b) (rw b refl, s)
      | inr b ↦
          rw (e, b)
            (then_print-Written c cs t (printchar t c) (onwrite digits cs) b s
              (printchar-Printed t c s) (onwrite-Written cs))
    ]
  ]
