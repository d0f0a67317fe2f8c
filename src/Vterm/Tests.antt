-- ===== src/Vterm/Tests.antt =====
-- A narrow terminal, and the keyboard with a layout of capital letters.
use mein_os.Prelude.{ℕ, ◌+◌, ◌≡◌, refl, arith, true, false, none, some, List, [], ◌∷◌, zero, suc}
use mein_os.Libmeinos.Ringbuf.{Ringbuf, write, store, room, copy_in, copy_out}
use mein_os.Vterm.{Term, create, printchar, onwrite}
use mein_os.Vterm.Escape.{escape_decode, decode_with, match_from}
use mein_os.Vterm.Screen.{HasBuffer, OnScreen, moved-HasBuffer}
use mein_os.Vterm.Loop.{Written, onwrite-Written}
use mein_os.Vterm.New.{create-Written}
use mein_os.Vterm.Text.{with_text, onwrite-text}
use mein_os.Vterm.Keyboard.{Keyboard, irqhandlers}
use mein_os.Vterm.Keys.{NoSwitch, irqhandlers-NoSwitch, ready, irqhandlers-write}

abbrev zeros : ℕ → List ℕ
zeros zero = []
zeros (suc n) = 0 ∷ zeros n

abbrev no_digits : List ℕ → ℕ
no_digits text = 0

-- What `vt_term_create` makes for a display of four columns, where the memory was cleared
abbrev term : Term
term = create 4 0 0 7 (λ n. 0)

abbrev later : Term
later = record term { x = 3; y = 1 }

term-HasBuffer : HasBuffer term
term-HasBuffer = record {
  some_width = omega arith;
  some_height = omega arith;
  small_width = omega arith;
  small_height = omega arith;
  buffer = omega arith;
  small = omega arith;
}

term-OnScreen : OnScreen term
term-OnScreen = record { has_buffer = term-HasBuffer; x_in = omega arith; y_in = omega arith }

later-OnScreen : OnScreen later
later-OnScreen = record {
  has_buffer = moved-HasBuffer term 3 1 term.cells refl term-HasBuffer;
  x_in = omega arith;
  y_in = omega arith;
}

onwrite-Written_example :
    Written no_digits
      (65 ∷ 10 ∷ 12 ∷ 66 ∷ 200 ∷ [])
      later
      (onwrite no_digits (65 ∷ 10 ∷ 12 ∷ 66 ∷ 200 ∷ []) later)
onwrite-Written_example =
    onwrite-Written no_digits (65 ∷ 10 ∷ 12 ∷ 66 ∷ 200 ∷ []) later later-OnScreen

create-Written_example :
    Written no_digits
      (12 ∷ 65 ∷ 200 ∷ [])
      (create 4 0 0 7 (λ n. n))
      (onwrite no_digits (12 ∷ 65 ∷ 200 ∷ []) (create 4 9 300 7 (λ n. n)))
create-Written_example =
    create-Written no_digits 4 9 300 7 (λ n. n) (65 ∷ 200 ∷ []) (omega arith) (omega arith)

onwrite-text_example :
    onwrite no_digits (72 ∷ 73 ∷ []) term ≡ some (2, with_text term (72 ∷ 73 ∷ []))
onwrite-text_example =
    onwrite-text no_digits (72 ∷ 73 ∷ []) term term-OnScreen
      (omega arith, (omega arith, (omega arith, (omega arith, tt)))) (omega arith) (omega arith)

-- The second half of the screen cannot be printed on.
half_fault : printchar (record term { y = 50 }) 65 ≡ none
unfolding printchar
half_fault = refl

-- A bracket and no number behind an escape character: there is no end to the arguments of the fourth
-- sequence.
no_end : escape_decode no_digits (91 ∷ 88 ∷ []) ≡ none
unfolding escape_decode decode_with match_from
no_end = refl

abbrev keyboard : Keyboard
keyboard = record {
  buffer = record { buf = zeros 4; size = 4; rpos = 0; wpos = 0 };
  escape = false;
  shift = false;
  altgr = false;
  ctrl = false;
  alt = true;
  layout = some (λ n. 66);
}

irqhandlers-NoSwitch_example :
    NoSwitch (irqhandlers (1 ∷ 2 ∷ []) (0x1D ∷ 0x3B ∷ 0xE0 ∷ []) keyboard)
irqhandlers-NoSwitch_example =
    irqhandlers-NoSwitch (1 ∷ 2 ∷ []) (0x1D ∷ 0x3B ∷ 0xE0 ∷ []) keyboard refl

abbrev filled_buffer : Ringbuf
filled_buffer = record { buf = 66 ∷ zeros 3; size = 4; rpos = 0; wpos = 1 }

stored : write (66 ∷ []) keyboard.buffer ≡ some (1, filled_buffer)
unfolding write room store copy_out copy_in
stored = refl

irqhandlers-write_example :
    irqhandlers [] (0x1E ∷ (0x1E + 0x80) ∷ []) (ready keyboard)
    ≡ some (ready (record keyboard { buffer = filled_buffer }), [])
irqhandlers-write_example =
    irqhandlers-write [] keyboard 0x1E 1 filled_buffer
      (record {
        below = omega arith;
        no_prefix = λ e. ground (arith, e);
        no_shift = refl;
        no_alt = refl;
      })
      (omega arith) (omega arith) stored
