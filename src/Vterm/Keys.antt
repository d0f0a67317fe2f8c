-- ===== src/Vterm/Keys.antt =====
-- What the keys do: characters for the programs, and no change of the terminal.
use mein_os.Prelude.{
  ℕ, ◌+◌, ◌<◌, ◌≡◌, ◌≢◌, refl, ◌∙◌, inl, inr, arith, Bool, true, false, not, ◌&&◌, Option, none,
  some, List, [], ◌∷◌, ◌%◌, ◌==◌, if◌then◌else◌, leb, Bool-cases,
}
use mein_os.Libmeinos.Ringbuf.{Ringbuf, write}
use mein_os.Vterm.Keyboard.{
  is_wide, Keyboard, is_shift, is_altgr, is_alt, is_fxx, to_wchar, Outcome, buffered, type_key, key,
  scancode_of, irqhandler, then_go_on, irqhandlers,
}

-- The key for ctrl is not pressed, and no terminal was changed to.
abbrev Quiet : Outcome → Type 0
Quiet none = Unit
Quiet (some r) = (r.0.ctrl ≡ false) × (r.1 ≡ none)

abbrev pub NoSwitch : Option (Keyboard × List ℕ) → Type 0
NoSwitch none = Unit
NoSwitch (some r) = (r.0.ctrl ≡ false) × (r.1 ≡ [])

buffered-Quiet : (k : Keyboard) (o : Option (ℕ × Ringbuf)) → k.ctrl ≡ false → Quiet (buffered k o)
buffered-Quiet k none e = tt
buffered-Quiet k (some r) e = (e, refl)

if-Quiet : (t : Bool) (o o' : Outcome) → Quiet o → Quiet o' → Quiet (if t then o else o')
if-Quiet true o o' q q' = q
if-Quiet false o o' q q' = q'

type_key-Quiet : (k : Keyboard) (sc : ℕ) → k.ctrl ≡ false → Quiet (type_key k sc)
type_key-Quiet k sc e =
    if-Quiet (is_wide (to_wchar k sc)) _ _ (e, refl)
      (if-Quiet (to_wchar k sc == 0) _ _ (e, refl)
        (if-Quiet k.ctrl _ _ (e, refl)
          (buffered-Quiet k (write (to_wchar k sc % 256 ∷ []) k.buffer) e)))

no_fxx-Quiet :
    (t : Bool) (ctrl alt : Bool) (o o' : Outcome)
    → ctrl ≡ false
    → Quiet o'
    → Quiet (if t && (ctrl && alt) then o else o')
no_fxx-Quiet true true alt o o' e q = absurd (ground (arith, e))
no_fxx-Quiet true false alt o o' e q = q
no_fxx-Quiet false ctrl alt o o' e q = q

key-Quiet :
    (shortcuts : List ℕ) (k : Keyboard) (sc : ℕ) (released : Bool)
    → k.ctrl ≡ false
    → Quiet (key shortcuts k sc released)
key-Quiet shortcuts k sc released e =
    if-Quiet (is_shift sc) _ _ (e, refl)
      (if-Quiet (is_altgr sc) _ _ (e, refl)
        (if-Quiet (is_alt sc) _ _ (e, refl)
          (no_fxx-Quiet (is_fxx sc) k.ctrl k.alt _ _ e
            (if-Quiet (not released) _ _ (type_key-Quiet k sc e) (e, refl)))))

irqhandler-Quiet :
    (shortcuts : List ℕ) (k : Keyboard) (byte : ℕ)
    → k.ctrl ≡ false
    → Quiet (irqhandler shortcuts k byte)
unfolding irqhandler
irqhandler-Quiet shortcuts k byte e =
    if-Quiet (scancode_of k.escape byte == 0xE0) (some (record k { escape = true }, none))
      (key shortcuts (record k { escape = false }) (scancode_of k.escape byte) (leb 0x80 byte))
      (e, refl)
      (key-Quiet shortcuts (record k { escape = false }) (scancode_of k.escape byte) (leb 0x80 byte)
        e)

then_go_on-NoSwitch :
    (o : Outcome) (rest : Keyboard → Option (Keyboard × List ℕ))
    → Quiet o
    → ((k : Keyboard) → k.ctrl ≡ false → NoSwitch (rest k))
    → NoSwitch (then_go_on o rest)
then_go_on-NoSwitch none rest q h = tt
then_go_on-NoSwitch (some (k, none)) rest q h = h k q.0
then_go_on-NoSwitch (some (k, some t)) rest q h = absurd (ground (arith, q.1))

-- Ctrl is not taken for pressed at the start. Then no sequence of bytes from the keyboard makes
-- the handler take it for pressed or change the terminal, whichever shortcuts there are.
pub irqhandlers-NoSwitch :
    (shortcuts bytes : List ℕ) (k : Keyboard)
    → k.ctrl ≡ false
    → NoSwitch (irqhandlers shortcuts bytes k)
unfolding irqhandlers
irqhandlers-NoSwitch shortcuts [] k e = (e, refl)
irqhandlers-NoSwitch shortcuts (b ∷ bs) k e =
    then_go_on-NoSwitch (irqhandler shortcuts k b) (irqhandlers shortcuts bs)
      (irqhandler-Quiet shortcuts k b e) (irqhandlers-NoSwitch shortcuts bs)

-- A key that stands for a character: its scancode, without the prefix and without a modifier
pub record IsPlain (sc : ℕ) : Type 0 where
  pub below : sc < 0x80
  pub no_prefix : sc ≢ 0x60
  pub no_shift : is_shift sc ≡ false
  pub no_alt : is_alt sc ≡ false

-- The keyboard with no prefix read and ctrl not pressed
abbrev pub ready : Keyboard → Keyboard
ready k = record k { escape = false; ctrl = false }

plain_key :
    (shortcuts : List ℕ) (k : Keyboard) (sc : ℕ) (released : Bool)
    → IsPlain sc
    → key shortcuts (ready k) sc released
      ≡ (if not released then type_key (ready k) sc else some (ready k, none))
plain_key shortcuts k sc released p = elim (Bool-cases (is_fxx sc)) [
  | inl f ↦ rw (p.no_shift, no_altgr, p.no_alt, f) refl
  | inr f ↦ rw (p.no_shift, no_altgr, p.no_alt, f) refl
]
  where
    no_altgr : is_altgr sc ≡ false
    no_altgr = ground (arith, p.below)

pressed :
    (shortcuts : List ℕ) (k : Keyboard) (sc : ℕ)
    → IsPlain sc
    → irqhandler shortcuts (ready k) sc ≡ type_key (ready k) sc
unfolding irqhandler
pressed shortcuts k sc p = rw (code, no_prefix, down) (plain_key shortcuts k sc false p)
  where
    code : scancode_of false sc ≡ sc
    code = ground (arith, p.below)

    no_prefix : (sc == 0xE0) ≡ false
    no_prefix = ground (arith, p.below)

    down : leb 0x80 sc ≡ false
    down = ground (arith, p.below)

released :
    (shortcuts : List ℕ) (k : Keyboard) (sc : ℕ)
    → IsPlain sc
    → irqhandler shortcuts (ready k) (sc + 0x80) ≡ some (ready k, none)
unfolding irqhandler
released shortcuts k sc p = rw (code, no_prefix, up) (plain_key shortcuts k sc true p)
  where
    code : scancode_of false (sc + 0x80) ≡ sc
    code = ground (arith, p.below, p.no_prefix)

    no_prefix : (sc == 0xE0) ≡ false
    no_prefix = ground (arith, p.below)

    up : leb 0x80 (sc + 0x80) ≡ true
    up = ground arith

-- With no prefix read and ctrl not pressed, a key that stands for an ASCII character other than 0
-- is pressed and released, and the write of its character to the ring buffer returns. Then the
-- ring buffer is what that write leaves, and nothing else happens.
pub irqhandlers-write :
    (shortcuts : List ℕ) (k : Keyboard) (sc n : ℕ) (buffer : Ringbuf)
    → IsPlain sc
    → 0 < to_wchar k sc
    → to_wchar k sc < 0x80
    → write (to_wchar k sc ∷ []) k.buffer ≡ some (n, buffer)
    → irqhandlers shortcuts (sc ∷ (sc + 0x80) ∷ []) (ready k)
      ≡ some (ready (record k { buffer = buffer }), [])
unfolding irqhandlers
irqhandlers-write shortcuts k sc n buffer p low high e =
    rw (pressed shortcuts k sc p ∙ typed, released shortcuts (record k { buffer = buffer }) sc p)
      refl
  where
    narrow : is_wide (to_wchar k sc) ≡ false
    narrow = ground (arith, high)

    some_char : (to_wchar k sc == 0) ≡ false
    some_char = ground (arith, low)

    byte : to_wchar k sc % 256 ≡ to_wchar k sc
    byte = omega (arith, high)

    typed : type_key (ready k) sc ≡ some (ready (record k { buffer = buffer }), none)
    typed = rw (narrow, some_char, byte, e) refl
