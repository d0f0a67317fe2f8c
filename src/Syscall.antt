-- ===== src/Syscall.antt =====
-- kernel2/syscall.c: the table of system calls. A call runs through `dyn_call`, which is a parameter.
pub mod Dispatch
mod Tests
use mein_os.Prelude.{
  ℕ, ◌-◌, ◌^◌, Bool, true, false, not, ◌||◌, Option, none, some, List, get_elem?, set, ◌==◌,
  if◌then◌else◌, ltb, leb,
}
use mein_os.Ipc.State.{minus_one}
use mein_os.Procm.State.{Kernel}
use mein_os.Procm.Upcall.{Machine, above}
use mein_os.Signal.{send}

-- `struct syscall`. A function that is NULL is 0.
pub record Entry : Type 0 where
  pub func : ℕ
  pub numparams : ℕ

-- `SYSCALL_MAXNUM`, the length of the array `syscalls`
abbrev pub maxnum : ℕ
maxnum = 83

abbrev pub sigsys : ℕ
sigsys = 31

-- `cmd<=n` for an `int`: a pattern from 2 ^ 31 on is a negative number.
abbrev pub int_le : (cmd n : ℕ) → Bool
int_le cmd n = not (ltb cmd (2 ^ 31)) || leb cmd n

-- `syscall_create`, `none` where it reads outside the array
unfoldable pub register : (cmd func numparams : ℕ) → List Entry → Option (ℕ × List Entry)
register cmd func numparams t =
    if int_le cmd maxnum
    then elim (get_elem? t cmd) [
      | none ↦ none
      | some e ↦
          if e.func == 0
          then some (0, set t cmd (record { func = func; numparams = numparams }))
          else some (minus_one, t)
    ]
    else some (minus_one, t)

-- `syscall_destroy`
unfoldable pub unregister : (cmd : ℕ) → List Entry → Option (List Entry)
unregister cmd t =
    if int_le cmd (maxnum - 1)
    then elim (get_elem? t cmd) [ none ↦ none | some e ↦ some (set t cmd (record e { func = 0 })) ]
    else some t

-- The result in the register `eax` of the interrupted context
abbrev pub set_result : ℕ → Machine → Machine
set_result v m = record m {
  kernel = record m.kernel { curregs = record m.kernel.curregs { eax = v } };
}

-- What follows the call: the result is given only where the same process is still the current one.
abbrev pub finish : (caller res : ℕ) → Machine → Machine
finish caller res m = if m.kernel.current == caller then set_result res m else m

module _ (dyn_call : (func params numparams : ℕ) → Machine → ℕ × Machine) where
  -- The call of an entry
  abbrev pub run : Entry → (params : ℕ) → Machine → ℕ × Machine
  run e params m =
      if e.func == 0
      then (minus_one, send m.kernel.current sigsys m)
      else dyn_call e.func params e.numparams m

  -- `syscall_handler`, after it found the stack. The number of the call and the address of its
  -- parameters lie at the end of the stack of the process.
  unfoldable pub handle : List Entry → Machine → Option Machine
  handle t m =
      let esp = m.kernel.curregs.esp in
      let cmd = m.memory m.kernel.curpd esp in
      let params = m.memory m.kernel.curpd (above esp) in
      if int_le cmd maxnum
      then elim (get_elem? t cmd) [
        | none ↦ none
        | some e ↦ some (finish m.kernel.current (run e params m).0 (run e params m).1)
      ]
      else some (finish m.kernel.current minus_one m)
