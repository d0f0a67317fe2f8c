-- ===== src/Vterm/Text.antt =====
-- A text that fits into its line.
use mein_os.Prelude.{
  ℕ, suc, ◌+◌, ◌*◌, ◌%◌, ◌^◌, ◌≤◌, ◌<◌, ◌≡◌, refl, ap, ◌∙◌, true, false, some, List, [], ◌∷◌, arith,
  ◌==◌, ltb, leb, length, length-set, set,
}
use mein_os.Vterm.{Term, put_cell, act, wrapped, printchar, onwrite}
use mein_os.Vterm.Screen.{OnScreen, moved-HasBuffer, place-small}

-- The cells with a text from `pos` on, each character with the color
abbrev pub text_cells : (color : ℕ) → List ℕ → (pos : ℕ) → List ℕ → List ℕ
text_cells color cells pos [] = cells
text_cells color cells pos (c ∷ cs) =
    text_cells color (set cells pos (color * 256 + c)) (pos + 1) cs

-- Only characters that are printed
abbrev pub IsText : List ℕ → Type 0
IsText [] = Unit
IsText (c ∷ cs) = (32 ≤ c) × ((c < 128) × IsText cs)

-- The terminal after one character in the line
abbrev stepped : Term → ℕ → Term
stepped t c = record t {
  x = t.x + 1;
  cells = set t.cells (t.y * t.width + t.x) (t.color * 256 + c);
}

act-put_cell : (t : Term) (c : ℕ) → 32 ≤ c → act t c ≡ put_cell t c
act-put_cell t c low =
    rw
      (
        not_below 8 (omega arith),
        not_below 9 (omega arith),
        not_below 10 (omega arith),
        not_below 12 (omega arith),
        not_below 13 (omega arith),
        printed,
      )
      refl
  where
    not_below : (n : ℕ) → n < 32 → (c == n) ≡ false
    not_below n h = ground (arith, h, low)

    printed : leb 32 c ≡ true
    printed = ground (arith, low)

put_cell-stepped :
    (t : Term) (c : ℕ)
    → OnScreen t
    → t.x + 1 < t.width
    → t.y * t.width + t.x < length t.cells
    → put_cell t c ≡ some (stepped t c)
put_cell-stepped t c s room cell = rw (in_buffer, at, column) refl
  where
    at : (t.y * t.width + t.x) % 2 ^ 32 ≡ t.y * t.width + t.x
    at = omega (arith, place-small t s)

    in_buffer : ltb ((t.y * t.width + t.x) % 2 ^ 32) (length t.cells) ≡ true
    in_buffer = ground (arith, at, cell)

    column : (t.x + 1) % 2 ^ 32 ≡ t.x + 1
    column = omega (arith, room, s.has_buffer.small_width)

stays : (t : Term) → t.x < t.width → t.y < t.height → wrapped (some t) ≡ some t
stays t x_in y_in = rw (in_line, in_screen) refl
  where
    in_line : leb t.width t.x ≡ false
    in_line = ground (arith, x_in)

    in_screen : leb t.height t.y ≡ false
    in_screen = ground (arith, y_in)

printchar-stepped :
    (t : Term) (c : ℕ)
    → OnScreen t
    → 32 ≤ c
    → t.x + 1 < t.width
    → t.y * t.width + t.x < length t.cells
    → printchar t c ≡ some (stepped t c)
unfolding printchar
printchar-stepped t c s low room cell =
    ap wrapped (act-put_cell t c low ∙ put_cell-stepped t c s room cell)
    ∙ stays (stepped t c) room s.y_in

stepped-OnScreen : (t : Term) (c : ℕ) → OnScreen t → t.x + 1 < t.width → OnScreen (stepped t c)
stepped-OnScreen t c s room = record {
  has_buffer =
      moved-HasBuffer t (t.x + 1) t.y _
        (length-set t.cells (t.y * t.width + t.x) (t.color * 256 + c)) s.has_buffer;
  x_in = room;
  y_in = s.y_in;
}

-- The terminal after a text in the line
abbrev pub with_text : Term → List ℕ → Term
with_text t cs = record t {
  x = t.x + length cs;
  cells = text_cells t.color t.cells (t.y * t.width + t.x) cs;
}

-- The cursor is on a screen of less than 2 ^ 16 columns and 2 ^ 15 lines, of which the buffer has a byte
-- for each place; a text of printed characters ends in its line, and the buffer has the cells for it. Then
-- all of it is taken, the characters stand from the cursor on with the color of the terminal, and the
-- cursor stands behind them.
pub onwrite-text :
    (digits : List ℕ → ℕ) (cs : List ℕ) (t : Term)
    → OnScreen t
    → IsText cs
    → t.x + length cs < t.width
    → t.y * t.width + t.x + length cs ≤ length t.cells
    → onwrite digits cs t ≡ some (length cs, with_text t cs)
unfolding onwrite
onwrite-text digits [] t s text room cells =
    let same : t.x ≡ t.x + 0 = omega arith in ap (λ x. some (0, record t { x = x })) same
onwrite-text digits (c ∷ cs) t s text room cells =
    rw
      (
        no_escape,
        is_ascii,
        printchar-stepped t c s text.0 (omega (arith, room)) (omega (arith, cells)),
        onwrite-text digits cs (stepped t c) (stepped-OnScreen t c s (omega (arith, room))) text.1.1
            (omega (arith, room)) still,
      )
      (let count : length cs + 1 ≡ suc (length cs) = omega arith in
        let column : t.x + 1 + length cs ≡ t.x + suc (length cs) = omega arith in
        let place : t.y * t.width + (t.x + 1) ≡ t.y * t.width + t.x + 1 = omega arith in
        rw (count, column, place) refl)
  where
    still :
        t.y * t.width + (t.x + 1) + length cs
        ≤ length (set t.cells (t.y * t.width + t.x) (t.color * 256 + c))
    still = omega (arith, cells, length-set t.cells (t.y * t.width + t.x) (t.color * 256 + c))

    no_escape : (c == 27) ≡ false
    no_escape = ground (arith, text.0)

    is_ascii : leb 128 c ≡ false
    is_ascii = ground (arith, text.1.0)
