-- ===== src/Vterm.antt =====
-- apps/vterm: the terminals. A terminal keeps a cursor and the cells of its screen, a color and a
-- character each.
pub mod Escape
pub mod Screen
pub mod Loop
pub mod New
pub mod Text
pub mod Keyboard
pub mod Keys
mod Tests
use mein_os.Prelude.{
  ℕ, zero, suc, ◌+◌, ◌-◌, ◌*◌, ◌/◌, ◌%◌, ◌^◌, Bool, true, false, ◌&&◌, ◌||◌, Option, none, some,
  List, [], ◌∷◌, ◌==◌, if◌then◌else◌, ltb, leb, length, set,
}
use mein_os.Vterm.Escape.{escape_decode}

-- `vt_term_t`, with the width of its display
pub record Term : Type 0 where
  pub x : ℕ
  pub y : ℕ
  pub width : ℕ
  pub height : ℕ
  pub tabsize : ℕ
  pub color : ℕ
  pub cells : List ℕ

abbrev pub cons_cell : ℕ → Option (List ℕ) → Option (List ℕ)
cons_cell c none = none
cons_cell c (some cs) = some (c ∷ cs)

-- `memset` of `n` bytes to 0, in cells of two bytes with the low one first; a byte outside of the buffer
-- is `none`.
abbrev pub clear_bytes : (n : ℕ) → List ℕ → Option (List ℕ)
clear_bytes zero cs = some cs
clear_bytes (suc zero) [] = none
clear_bytes (suc zero) (c ∷ cs) = some (c / 256 * 256 ∷ cs)
clear_bytes (suc (suc n)) [] = none
clear_bytes (suc (suc n)) (c ∷ cs) = cons_cell 0 (clear_bytes n cs)

abbrev pub at_home : Term → Option (List ℕ) → Option Term
at_home t none = none
at_home t (some cs) = some (record t { x = 0; y = 0; cells = cs })

-- `vt_term_clearscreen`: a byte is cleared for each place, which is half of the cells that there would be
-- places for.
abbrev pub clearscreen : Term → Option Term
clearscreen t = at_home t (clear_bytes (t.height * t.width % 2 ^ 32) t.cells)

-- A character on the screen; a cell outside of the buffer is `none`.
abbrev pub put_cell : Term → (chr : ℕ) → Option Term
put_cell t chr =
    let pos = (t.y * t.width + t.x) % 2 ^ 32 in
    if ltb pos (length t.cells)
    then some (record t { x = (t.x + 1) % 2 ^ 32; cells = set t.cells pos (t.color * 256 + chr) })
    else none

-- The characters that `vt_term_printchar` knows
abbrev pub act : Term → (chr : ℕ) → Option Term
act t chr =
    if chr == 8
    then some (record t { x = if ltb 1 t.x then t.x - 1 else 0 })
    else if chr == 9
    then some (record t { x = (t.x / t.tabsize + 1) * t.tabsize % 2 ^ 32 })
    else if chr == 10
    then some (record t { x = 0; y = (t.y + 1) % 2 ^ 32 })
    else if chr == 12
    then clearscreen t
    else if chr == 13
    then some (record t { x = 0 })
    else if leb 32 chr
    then put_cell t chr
    else some t

-- The end of a line, and the end of the screen
abbrev pub wrap_line : Term → Term
wrap_line t = if leb t.width t.x then record t { x = 0; y = (t.y + 1) % 2 ^ 32 } else t

abbrev pub wrap_screen : Term → Term
wrap_screen t = if leb t.height t.y then record t { y = (t.y + 2 ^ 32 - 1) % 2 ^ 32 } else t

abbrev pub wrapped : Option Term → Option Term
wrapped none = none
wrapped (some t) = some (wrap_screen (wrap_line t))

-- `vt_term_printchar`
unfoldable pub printchar : Term → (chr : ℕ) → Option Term
printchar t chr = wrapped (act t chr)

abbrev pub then_print : Option Term → (Term → Option (ℕ × Term)) → Option (ℕ × Term)
then_print none k = none
then_print (some t) k = k t

abbrev pub one_more : Option (ℕ × Term) → Option (ℕ × Term)
one_more none = none
one_more (some r) = some (r.0 + 1, r.1)

-- Behind an escape character: `vt_escape_decode` does not come back, or its answer is 1 and the size
-- stays as it is.
abbrev pub after_escape : (answer : Option ℕ) → Option (ℕ × Term) → Option (ℕ × Term)
after_escape none rest = none
after_escape (some n) rest = one_more rest

-- The loop of `vt_term_onwrite`: how many bytes it takes, and the terminal. An escape character is left
-- out, and the rest of its sequence is printed.
unfoldable pub onwrite : (digits : List ℕ → ℕ) → List ℕ → Term → Option (ℕ × Term)
unfolding printchar escape_decode
onwrite digits [] t = some (0, t)
onwrite digits (c ∷ cs) t =
    let skipped = onwrite digits cs t in
    if c == 27
    then after_escape (escape_decode digits cs) skipped
    else if leb 128 c
    then some (0, t)
    else one_more (then_print (printchar t c) (onwrite digits cs))

-- The cells that `malloc` gives, with what is in them
abbrev pub junk_cells : (junk : ℕ → ℕ) → ℕ → List ℕ
junk_cells junk zero = []
junk_cells junk (suc n) = junk n ∷ junk_cells junk n

-- `vt_term_create` on a display of text: the buffer has as many bytes as the screen has places, which is
-- half of the cells. The cursor and the color are what was in the memory.
abbrev pub create : (width x y color : ℕ) (junk : ℕ → ℕ) → Term
create width x y color junk = record {
  x = x;
  y = y;
  width = width;
  height = 100;
  tabsize = 8;
  color = color;
  cells = junk_cells junk (100 * width % 2 ^ 32 / 2);
}
