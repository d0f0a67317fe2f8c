-- ===== src/Vterm/Screen.antt =====
-- `vt_term_printchar` on a screen: the cursor stays there.
use mein_os.Prelude.{
  ℕ, suc, ◌+◌, ◌-◌, ◌*◌, ◌%◌, ◌^◌, ◌≤◌, ◌<◌, ◌≡◌, refl, ap, ◌⊎◌, inl, inr, true, false, Option,
  none, some, List, [], ◌∷◌, arith, ◌==◌, if◌then◌else◌, ltb, leb, length, length-set, ◌/◌, Bool,
  zero, Bool-cases,
}
use native.Mathlib.Nat.{mul-le-mul_right}
use mein_os.Vterm.{
  Term, put_cell, cons_cell, clear_bytes, at_home, clearscreen, act, wrap_line, wrap_screen,
  wrapped, printchar,
}

-- A screen of some size, with a buffer of a byte for each place, as `vt_term_create` makes it
pub record HasBuffer (t : Term) : Type 0 where
  pub some_width : 0 < t.width
  pub some_height : 0 < t.height
  pub small_width : t.width < 2 ^ 16
  pub small_height : t.height < 2 ^ 15
  pub buffer : t.height * t.width ≤ 2 * length t.cells
  pub small : t.height * t.width < 2 ^ 32

pub record OnScreen (t : Term) : Type 0 where
  pub has_buffer : HasBuffer t
  pub x_in : t.x < t.width
  pub y_in : t.y < t.height

-- The terminal `t` a character after `o`, where the cursor may have left its line, or the screen at the
-- start of a line
record Near (o t : Term) : Type 0 where
  has_buffer : HasBuffer t
  near : (t.y < t.height) ⊎ ((t.x ≡ 0) × (t.y ≡ t.height))
  rows : (t.y ≤ o.y) ⊎ ((t.x ≡ 0) × (t.y ≤ o.y + 1))
  same_width : t.width ≡ o.width
  same_cells : length t.cells ≡ length o.cells

abbrev NearOr : Term → Option Term → Type 0
NearOr o none = length o.cells ≤ o.y * o.width + o.x
NearOr o (some t) = Near o t

-- The cursor is on the screen, a line further at most; or its place has no cell.
abbrev pub Printed : Term → Option Term → Type 0
Printed o none = length o.cells ≤ o.y * o.width + o.x
Printed o (some t) =
    OnScreen t × (t.y ≤ o.y + 1) × (t.width ≡ o.width) × (length t.cells ≡ length o.cells)

-- The same screen with other cells and another cursor
pub moved-HasBuffer :
    (t : Term) (x y : ℕ) (cells : List ℕ)
    → length cells ≡ length t.cells
    → HasBuffer t
    → HasBuffer (record t { x = x; y = y; cells = cells })
moved-HasBuffer t x y cells same h = record {
  some_width = h.some_width;
  some_height = h.some_height;
  small_width = h.small_width;
  small_height = h.small_height;
  buffer = omega (arith, h.buffer, same);
  small = h.small;
}

-- The cursor moves in its line, and cells may change.
moved :
    (t : Term) (x : ℕ) (cells : List ℕ)
    → length cells ≡ length t.cells
    → OnScreen t
    → Near t (record t { x = x; cells = cells })
moved t x cells same s = record {
  has_buffer = moved-HasBuffer t x t.y cells same s.has_buffer;
  near = inl s.y_in;
  rows = inl (omega arith);
  same_width = refl;
  same_cells = same;
}

below :
    (y height : ℕ)
    → y < height
    → height < 2 ^ 15
    → ((y + 1) % 2 ^ 32 < height) ⊎ ((y + 1) % 2 ^ 32 ≡ height)
below y height h small = elim (Bool-cases (ltb (y + 1) height)) [
  | inl e ↦ inl (ground (arith, e, small))
  | inr e ↦ inr (ground (arith, e, h, small))
]

-- The cursor goes to the start of the next line.
next_line :
    (o t : Term)
    → HasBuffer t
    → t.y < t.height
    → t.y ≤ o.y
    → t.width ≡ o.width
    → length t.cells ≡ length o.cells
    → Near o (record t { x = 0; y = (t.y + 1) % 2 ^ 32 })
next_line o t h inside row w c = record {
  has_buffer = moved-HasBuffer t 0 ((t.y + 1) % 2 ^ 32) t.cells refl h;
  near = elim (below t.y t.height inside h.small_height) [ inl l ↦ inl l | inr e ↦ inr (refl, e) ];
  rows = inr (refl, omega (arith, row, inside, h.small_height));
  same_width = w;
  same_cells = c;
}

-- The place of the cursor, without a wrap-around
pub place-small : (t : Term) → OnScreen t → t.y * t.width + t.x < 2 ^ 32
place-small t s =
    let rows : (t.y + 1) * t.width ≤ t.height * t.width =
      mul-le-mul_right t.width (omega (arith, s.y_in)) in
    omega (arith, rows, s.x_in, s.has_buffer.small)

put_cell-Near : (t : Term) (chr : ℕ) → OnScreen t → NearOr t (put_cell t chr)
put_cell-Near t chr s = elim (Bool-cases (ltb ((t.y * t.width + t.x) % 2 ^ 32) (length t.cells))) [
  | inl e ↦
      rw e
        (moved t _ _ (length-set t.cells ((t.y * t.width + t.x) % 2 ^ 32) (t.color * 256 + chr)) s)
  | inr e ↦ rw e (ground (arith, e, place-small t s))
]

-- Clearing has enough bytes.
abbrev Cleared : List ℕ → Option (List ℕ) → Type 0
Cleared cs none = ⊥
Cleared cs (some cs') = length cs' ≡ length cs

cons_cell-Cleared :
    (c d : ℕ) (cs : List ℕ) (r : Option (List ℕ)) → Cleared cs r → Cleared (d ∷ cs) (cons_cell c r)
cons_cell-Cleared c d cs none h = h
cons_cell-Cleared c d cs (some cs') h = ap suc h

clear_bytes-Cleared : (n : ℕ) (cs : List ℕ) → n ≤ 2 * length cs → Cleared cs (clear_bytes n cs)
clear_bytes-Cleared zero cs h = refl
clear_bytes-Cleared (suc zero) [] h = absurd (omega (arith, h))
clear_bytes-Cleared (suc zero) (c ∷ cs) h = refl
clear_bytes-Cleared (suc (suc n)) [] h = absurd (omega (arith, h))
clear_bytes-Cleared (suc (suc n)) (c ∷ cs) h =
    cons_cell-Cleared 0 c cs (clear_bytes n cs) (clear_bytes-Cleared n cs (omega (arith, h)))

at_home-Near :
    (t : Term) (r : Option (List ℕ)) → OnScreen t → Cleared t.cells r → NearOr t (at_home t r)
at_home-Near t none s h = absurd h
at_home-Near t (some cs) s h = record {
  has_buffer = moved-HasBuffer t 0 0 cs h s.has_buffer;
  near = inl s.has_buffer.some_height;
  rows = inl (omega arith);
  same_width = refl;
  same_cells = h;
}

clearscreen-Near : (t : Term) → OnScreen t → NearOr t (clearscreen t)
clearscreen-Near t s = at_home-Near t (clear_bytes (t.height * t.width % 2 ^ 32) t.cells) s (
    clear_bytes-Cleared (t.height * t.width % 2 ^ 32) t.cells
      (omega (arith, s.has_buffer.buffer, s.has_buffer.small)))

if-NearOr :
    (o : Term) (b : Bool) (r r' : Option Term)
    → NearOr o r
    → NearOr o r'
    → NearOr o (if b then r else r')
if-NearOr o true r r' n n' = n
if-NearOr o false r r' n n' = n'

act-Near : (t : Term) (chr : ℕ) → OnScreen t → NearOr t (act t chr)
act-Near t chr s =
    if-NearOr t (chr == 8) _ _ (moved t (if ltb 1 t.x then t.x - 1 else 0) t.cells refl s) (
      if-NearOr t (chr == 9) _ _
        (moved t ((t.x / t.tabsize + 1) * t.tabsize % 2 ^ 32) t.cells refl s)
        (if-NearOr t (chr == 10) _ _ (next_line t t s.has_buffer s.y_in (omega arith) refl refl) (
          if-NearOr t (chr == 12) _ _ (clearscreen-Near t s) (
            if-NearOr t (chr == 13) _ _ (moved t 0 t.cells refl s) (
              if-NearOr t (leb 32 chr) _ _ (put_cell-Near t chr s) (moved t t.x t.cells refl s))))))

wrap_line-Near :
    (o t : Term)
    → Near o t
    → Near o (wrap_line t) × ((wrap_line t).x < (wrap_line t).width) × ((wrap_line t).y ≤ o.y + 1)
wrap_line-Near o t n = elim (Bool-cases (leb t.width t.x)) [
  | inl e ↦
      let some_x : 0 < t.x = ground (arith, e, n.has_buffer.some_width) in
      let row : t.y ≤ o.y = ground (arith, n.rows, some_x) in
      let inside : t.y < t.height = ground (arith, n.near, some_x) in
      rw e (
        next_line o t n.has_buffer inside row n.same_width n.same_cells,
        n.has_buffer.some_width,
        omega (arith, row, inside, n.has_buffer.small_height),
      )
  | inr e ↦ rw e (n, ground (arith, e), ground (arith, n.rows))
]

wrap_screen-Printed :
    (o t : Term) → Near o t → t.x < t.width → t.y ≤ o.y + 1 → Printed o (some (wrap_screen t))
wrap_screen-Printed o t n inside row = elim (Bool-cases (leb t.height t.y)) [
  | inl e ↦
      let at_end : t.y ≡ t.height = ground (arith, n.near, e) in
      rw e (
        record {
          has_buffer =
              moved-HasBuffer t t.x ((t.y + 2 ^ 32 - 1) % 2 ^ 32) t.cells refl n.has_buffer;
          x_in = inside;
          y_in = omega (arith, at_end, n.has_buffer.some_height, n.has_buffer.small_height);
        },
        omega (arith, at_end, row, n.has_buffer.some_height, n.has_buffer.small_height),
        n.same_width,
        n.same_cells,
      )
  | inr e ↦ rw e (
    record { has_buffer = n.has_buffer; x_in = inside; y_in = ground (arith, e) },
    row,
    n.same_width,
    n.same_cells,
  )
]

wrapped-Printed : (o : Term) (r : Option Term) → NearOr o r → Printed o (wrapped r)
wrapped-Printed o none n = n
wrapped-Printed o (some t) n =
    let l = wrap_line-Near o t n in wrap_screen-Printed o (wrap_line t) l.0 l.1 l.2

-- A character is printed and the cursor stays on the screen, or its place has no cell.
pub printchar-Printed : (t : Term) (chr : ℕ) → OnScreen t → Printed t (printchar t chr)
unfolding printchar
printchar-Printed t chr s = wrapped-Printed t (act t chr) (act-Near t chr s)
