-- ===== src/Syscall/Dispatch.antt =====
-- Calls that are registered are run, and which numbers reach outside the table.
use mein_os.Prelude.{
  ℕ, zero, suc, ◌^◌, ◌<◌, ◌≤◌, ◌≡◌, refl, ◌↔◌, ◌⊎◌, inl, inr, true, false, none, some, List, [],
  ◌∷◌, length, get_elem?, arith,
}
use mein_os.Ipc.State.{minus_one}
use mein_os.Procm.Upcall.{Machine, above}
use mein_os.Syscall.{Entry, maxnum, int_le, finish, run, handle}

-- The number that the current process calls
abbrev pub call_number : Machine → ℕ
call_number m = m.memory m.kernel.curpd m.kernel.curregs.esp

get_elem?-in : (t : List Entry) (i : ℕ) → i < length t → (e : Entry) × (get_elem? t i ≡ some e)
get_elem?-in [] i h = elim (no i h) [ ]
  where
    no : (i : ℕ) → i < 0 → ⊥
    no i h = omega arith
get_elem?-in (e ∷ t) zero h = (e, refl)
get_elem?-in (e ∷ t) (suc i) h = get_elem?-in t i (omega arith)

get_elem?-out : (t : List Entry) (i : ℕ) → length t ≤ i → get_elem? t i ≡ none
get_elem?-out [] i h = refl
get_elem?-out (e ∷ t) zero h = ground (arith, h)
get_elem?-out (e ∷ t) (suc i) h = get_elem?-out t i (omega arith)

int_le-below : (cmd : ℕ) → cmd < maxnum → int_le cmd maxnum ≡ true
int_le-below cmd h = ground arith

int_le-outside : (cmd : ℕ) → (cmd ≡ maxnum) ⊎ (2 ^ 31 ≤ cmd) → int_le cmd maxnum ≡ true
int_le-outside cmd h = ground arith

int_le-above : (cmd : ℕ) → (maxnum < cmd) × (cmd < 2 ^ 31) → int_le cmd maxnum ≡ false
int_le-above cmd h = ground arith

-- Where a number lies: in the table, at a place that the handler takes for one, or above.
place :
    (cmd : ℕ)
    → (cmd < maxnum) ⊎ (((cmd ≡ maxnum) ⊎ (2 ^ 31 ≤ cmd)) ⊎ ((maxnum < cmd) × (cmd < 2 ^ 31)))
place cmd = ground arith

module _ (dyn_call : (func params numparams : ℕ) → Machine → ℕ × Machine) where
  handle-entry :
      (t : List Entry) (m : Machine) (e : Entry)
      → call_number m < maxnum
      → get_elem? t (call_number m) ≡ some e
      → handle dyn_call t m
        ≡ some (
            finish m.kernel.current
              (run dyn_call e (m.memory m.kernel.curpd (above m.kernel.curregs.esp)) m).0
              (run dyn_call e (m.memory m.kernel.curpd (above m.kernel.curregs.esp)) m).1)
  unfolding handle
  handle-entry t m e h at = rw (int_le-below (call_number m) h, at)

  handle-outside :
      (t : List Entry) (m : Machine)
      → length t ≡ maxnum
      → (call_number m ≡ maxnum) ⊎ (2 ^ 31 ≤ call_number m)
      → handle dyn_call t m ≡ none
  unfolding handle
  handle-outside t m full h =
      rw
        (int_le-outside (call_number m) h, get_elem?-out t (call_number m) (omega (arith, h, full)))

  handle-refused :
      (t : List Entry) (m : Machine)
      → (maxnum < call_number m) × (call_number m < 2 ^ 31)
      → handle dyn_call t m ≡ some (finish m.kernel.current minus_one m)
  unfolding handle
  handle-refused t m h = rw (int_le-above (call_number m) h)

  -- A call of a number reaches outside the table, which has an entry for each number below the maximum,
  -- exactly where the number is the maximum itself or is negative. Every other call gives a result.
  pub handle-bounds :
      (t : List Entry) (m : Machine)
      → length t ≡ maxnum
      → (handle dyn_call t m ≡ none) ↔ ((call_number m ≡ maxnum) ⊎ (2 ^ 31 ≤ call_number m))
  handle-bounds t m full = (
    (λ e. elim (place (call_number m)) [
      | inl h ↦
          let at = get_elem?-in t (call_number m) (omega (arith, h, full)) in
          let ran = handle-entry t m at.0 h at.1 in cc (e, ran)
      | inr (inl h) ↦ h
      | inr (inr h) ↦ let refused = handle-refused t m h in cc (e, refused)
    ]),
    handle-outside t m full,
  )

-- The entry that is registered
abbrev pub entry : (func numparams : ℕ) → Entry
entry func numparams = record { func = func; numparams = numparams }
