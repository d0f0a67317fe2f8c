-- ===== src/Vterm/New.antt =====
-- The terminals that `vt_term_create` makes.
use mein_os.Prelude.{
  ℕ, zero, suc, ◌*◌, ◌%◌, ◌/◌, ◌^◌, ◌<◌, ◌≡◌, refl, sym, ap, Option, none, some, List, ◌∷◌, arith,
  length,
}
use mathlib.Core.Path.{subst}
use mein_os.Vterm.{
  Term, clear_bytes, at_home, wrapped, printchar, then_print, one_more, onwrite, junk_cells, create,
}
use mein_os.Vterm.Screen.{HasBuffer}
use mein_os.Vterm.Loop.{Written, onwrite-Written}

length-junk_cells : (junk : ℕ → ℕ) (n : ℕ) → length (junk_cells junk n) ≡ n
length-junk_cells junk zero = refl
length-junk_cells junk (suc n) = ap suc (length-junk_cells junk n)

create-HasBuffer :
    (width x y color : ℕ) (junk : ℕ → ℕ)
    → 0 < width
    → width < 2 ^ 16
    → HasBuffer (create width x y color junk)
create-HasBuffer width x y color junk some_width small_width = record {
  some_width = some_width;
  some_height = omega arith;
  small_width = small_width;
  small_height = omega arith;
  buffer = omega (arith, length-junk_cells junk (100 * width % 2 ^ 32 / 2), small_width);
  small = omega (arith, small_width);
}

-- Clearing forgets the cursor.
at_home_home :
    (t : Term) (r : Option (List ℕ)) → at_home t r ≡ at_home (record t { x = 0; y = 0 }) r
at_home_home t none = refl
at_home_home t (some cs) = refl

module _ (digits : List ℕ → ℕ) where
  form_feed :
      (t : Term) (cs : List ℕ)
      → onwrite digits (12 ∷ cs) t ≡ onwrite digits (12 ∷ cs) (record t { x = 0; y = 0 })
  unfolding onwrite printchar
  form_feed t cs =
      ap (λ r. one_more (then_print (wrapped r) (onwrite digits cs)))
        (at_home_home t (clear_bytes (t.height * t.width % 2 ^ 32) t.cells))

  -- The display has at least one and less than 2 ^ 16 columns, and `vt_term_create` finds any cursor and
  -- any cells in the memory of the terminal. Then of a write that starts with a form feed the bytes before
  -- the first one that is not ASCII are taken, and the cursor is on the screen; or `vt_escape_decode` does
  -- not come back behind one of the escape characters; or the buffer has not the cells of as many lines as
  -- there are bytes to write.
  pub create-Written :
      (width x y color : ℕ) (junk : ℕ → ℕ) (cs : List ℕ)
      → 0 < width
      → width < 2 ^ 16
      → Written digits
          (12 ∷ cs)
          (create width 0 0 color junk)
          (onwrite digits (12 ∷ cs) (create width x y color junk))
  create-Written width x y color junk cs some_width small_width =
      subst (Written digits (12 ∷ cs) (create width 0 0 color junk))
        (sym (form_feed (create width x y color junk) cs))
        (onwrite-Written digits (12 ∷ cs) (create width 0 0 color junk) (record {
          has_buffer = create-HasBuffer width 0 0 color junk some_width small_width;
          x_in = some_width;
          y_in = omega arith;
        }))
