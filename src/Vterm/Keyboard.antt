-- ===== src/Vterm/Keyboard.antt =====
-- The interrupt handler of the keyboard, one scancode at a time.
use mein_os.Prelude.{
  ℕ, ◌+◌, ◌-◌, ◌*◌, ◌%◌, ◌^◌, Bool, true, false, not, ◌&&◌, ◌||◌, Option, none, some, List, [], ◌∷◌,
  ◌==◌, if◌then◌else◌, ltb, leb, get_or,
}
use mein_os.Libmeinos.Ringbuf.{Ringbuf, write}

-- `vt_keyboard_t`; without a file the layout is NULL.
pub record Keyboard : Type 0 where
  pub buffer : Ringbuf
  pub escape : Bool
  pub shift : Bool
  pub altgr : Bool
  pub ctrl : Bool
  pub alt : Bool
  pub layout : Option (ℕ → ℕ)

-- `VT_KEYBOARD_IS_SHIFT` and the other tests
abbrev pub is_shift : ℕ → Bool
is_shift sc = sc == 0x2A || sc == 0x36

abbrev pub is_altgr : ℕ → Bool
is_altgr sc = sc == 0xB8

abbrev pub is_alt : ℕ → Bool
is_alt sc = sc == 0x38 || sc == 0xBD

abbrev pub is_fxx : ℕ → Bool
is_fxx sc = (leb 0x3B sc && ltb sc 0x45) || (sc == 0x54 || sc == 0x55)

-- `vt_keyboard_get_fxx`
abbrev pub get_fxx : ℕ → ℕ
get_fxx sc =
    if leb 0x3B sc && ltb sc 0x45
    then sc - 0x3A
    else if sc == 0x54
    then 11
    else if sc == 0x55
    then 12
    else 0

-- `vt_keyboard_scancode_to_wchar`
abbrev pub to_wchar : Keyboard → ℕ → ℕ
to_wchar k sc = elim k.layout [
  | none ↦ 0
  | some l ↦ l (sc * 4 + ((if k.shift then 1 else 0) + (if k.altgr then 2 else 0)))
]

-- What one scancode comes to: the keyboard, and the terminal that `vt_term_activate` is called with
abbrev pub Outcome : Type 0
Outcome = Option (Keyboard × Option ℕ)

abbrev pub buffered : Keyboard → Option (ℕ × Ringbuf) → Outcome
buffered k none = none
buffered k (some r) = some (record k { buffer = r.1 }, none)

-- A `wchar_t` is an `int`, as its pattern of 32 bits: `chr>0x7F` is a signed test.
abbrev pub is_wide : (chr : ℕ) → Bool
is_wide chr = ltb 0x7F chr && ltb chr (2 ^ 31)

-- A key that stands for a character. With ctrl pressed the character is worked out and dropped. One
-- byte of it is written, the lowest.
abbrev pub type_key : Keyboard → (sc : ℕ) → Outcome
type_key k sc =
    let chr = to_wchar k sc in
    if is_wide chr
    then some (k, none)
    else if chr == 0
    then some (k, none)
    else if k.ctrl
    then some (k, none)
    else buffered k (write (chr % 256 ∷ []) k.buffer)

-- `vt_shortcuts[fxx]` is tested, and `vt_shortcuts[fxx-1]` is taken.
abbrev pub switch_to : (shortcuts : List ℕ) → Keyboard → (fxx : ℕ) → Outcome
switch_to shortcuts k fxx =
    if ltb 0 (get_or shortcuts fxx 0)
    then some (k, some (get_or shortcuts (fxx - 1) 0))
    else some (k, none)

-- The key `sc`, with the bit that tells that it was released
abbrev pub key : (shortcuts : List ℕ) → Keyboard → (sc : ℕ) (released : Bool) → Outcome
key shortcuts k sc released =
    if is_shift sc
    then some (record k { shift = not released }, none)
    else if is_altgr sc
    then some (record k { altgr = not released }, none)
    else if is_alt sc
    then some (record k { alt = not released }, none)
    else if is_fxx sc && (k.ctrl && k.alt)
    then switch_to shortcuts k (get_fxx sc)
    else if not released
    then type_key k sc
    else some (k, none)

-- The scancode of a byte, after a prefix or without one
abbrev pub scancode_of : (escape : Bool) (byte : ℕ) → ℕ
scancode_of escape byte =
    let low = if byte == 0xE0 then byte else byte % 0x80 in
    if escape then low % 0x80 + 0x80 else low

-- One turn of `vt_keyboard_irqhandler`, with the byte that it reads from the port
unfoldable pub irqhandler : (shortcuts : List ℕ) → Keyboard → (byte : ℕ) → Outcome
irqhandler shortcuts k byte =
    let sc = scancode_of k.escape byte in
    if sc == 0xE0
    then some (record k { escape = true }, none)
    else key shortcuts (record k { escape = false }) sc (leb 0x80 byte)

abbrev pub then_go_on :
    Outcome → (Keyboard → Option (Keyboard × List ℕ)) → Option (Keyboard × List ℕ)
then_go_on none rest = none
then_go_on (some (k, none)) rest = rest k
then_go_on (some (k, some t)) rest = elim (rest k) [ none ↦ none | some r ↦ some (r.0, t ∷ r.1) ]

-- `vt_keyboard_irqhandler` on the bytes that come: the keyboard, and the terminals that it changes to
unfoldable pub irqhandlers : (shortcuts : List ℕ) → List ℕ → Keyboard → Option (Keyboard × List ℕ)
unfolding irqhandler
irqhandlers shortcuts [] k = some (k, [])
irqhandlers shortcuts (b ∷ bs) k = then_go_on (irqhandler shortcuts k b) (irqhandlers shortcuts bs)
