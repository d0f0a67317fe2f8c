-- ===== src/Rpc.antt =====
-- kernel2/rpc.c: functions that processes offer to each other. What a call writes in the memory of a
-- process stands beside the new state.
pub mod Calls
pub mod Lookup
pub mod Protocol
pub mod Withdraw
mod Tests
use mein_os.Prelude.{
  ℕ, ◌+◌, ◌-◌, ◌%◌, ◌^◌, Bool, true, false, not, ◌&&◌, ◌||◌, Option, none, some, List, [], ◌∷◌,
  ◌==◌, if◌then◌else◌, length, take, min,
}
use mein_os.Llist.Seq
use mein_os.Procm.State.{Registers, Proc, Kernel, minus}
use mein_os.Procm.Sched.{wake, sleep, load_addrspace}
use mein_os.Procm.Lookup.{current_proc, same_name}
use mein_os.Ipc.State.{eacces, einval, minus_one, put, int_add}

-- `rpc_call_t`. The parameters are the bytes of its buffer, and each of the other fields but the
-- caller is an address in the memory of the caller.
pub record Call : Type 0 where
  pub caller : ℕ
  pub params : List ℕ
  pub ret : ℕ
  pub ret_params : ℕ
  pub error : ℕ

-- `rpc_function_t`. A name that was freed is `none`, and so is the current call where there is none.
pub record Func : Type 0 where
  pub id : ℕ
  pub name : Option (List ℕ)
  pub func : ℕ
  pub synopsis : Option (List ℕ)
  pub params_size : ℕ
  pub owner : ℕ
  pub calls : List Call
  pub current : Option Call

pub record Rpc : Type 0 where
  pub kernel : Kernel
  pub funcs : ℕ → Func
  pub functions : List ℕ
  pub lastid : ℕ

-- A write of an `int` or of bytes at an address of an address space.
pub data Write : Type 0 where
  int_at : (space addr value : ℕ) → Write
  bytes_at : (space addr : ℕ) (bytes : List ℕ) → Write

-- `rpc_function_create`. `malloc` leaves `junk` in the field that is not set.
unfoldable pub create :
    (fresh : ℕ) (junk : Option Call) (name : List ℕ) (func : ℕ) (synopsis : List ℕ)
    (params_size : ℕ)
    → Rpc
    → ℕ × Rpc
create fresh junk name func synopsis params_size s = (
  s.lastid,
  record s {
    lastid = int_add s.lastid 1;
    functions = fresh ∷ s.functions;
    funcs = put s.funcs fresh (record {
      id = s.lastid;
      name = some name;
      func = func;
      synopsis = some synopsis;
      params_size = params_size;
      owner = s.kernel.current;
      calls = [];
      current = junk;
    });
  },
)

-- What `rpc_find` looks for. -1, `none`, 0, 0 and `false` ask for nothing.
pub record Query : Type 0 where
  pub id : ℕ
  pub name : Option (List ℕ)
  pub owner : ℕ
  pub pid : ℕ
  pub has_calls : Bool

abbrev pub by_id : ℕ → Query
by_id id = record { id = id; name = none; owner = 0; pid = 0; has_calls = false }

-- `strcmp(name,func->name)==0`, `none` where the name was freed
abbrev pub named : (name own : Option (List ℕ)) → Option Bool
named none own = some true
named (some n) none = none
named (some n) (some m) = some (same_name n m)

abbrev pub is_empty : List Call → Bool
is_empty [] = true
is_empty (c ∷ cs) = false

-- The rest of the test, after the name
abbrev pub fits : Query → (ℕ → Proc) → Func → Bool
fits w procs f =
    (w.owner == 0 || w.owner == f.owner)
    && ((w.pid == 0 || w.pid == (procs f.owner).pid) && (not w.has_calls || not (is_empty f.calls)))

unfoldable pub matches : Query → (ℕ → Proc) → Func → Option Bool
matches w procs f =
    if w.id == minus_one || w.id == f.id
    then elim (named w.name f.name) [ none ↦ none | some b ↦ some (b && fits w procs f) ]
    else some false

-- `found` is the result where the function matches, `none` for a fault.
abbrev pub first_of : Option Bool → (p : ℕ) → (rest : Option ℕ) → Option ℕ
first_of none p rest = none
first_of (some true) p rest = some p
first_of (some false) p rest = rest

unfoldable pub find_in : Query → (ℕ → Proc) → (ℕ → Func) → List ℕ → Option ℕ
find_in w procs funcs [] = some 0
find_in w procs funcs (p ∷ ps) =
    let rest = find_in w procs funcs ps in
    if p == 0 then some 0 else first_of (matches w procs (funcs p)) p rest

-- `rpc_find`, `none` for a fault
unfoldable pub find : Query → Rpc → Option ℕ
unfolding find_in
find w s = find_in w s.kernel.procs s.funcs s.functions

abbrev pub set_func : ℕ → Func → Rpc → Rpc
set_func q f s = record s { funcs = put s.funcs q f }

-- What follows where `rpc_find` did not fault.
abbrev pub with_found : {A : Type 0} → Option ℕ → (ℕ → Option A) → Option A
with_found none k = none
with_found (some q) k = k q

-- The function without its names and calls. `free` of a name that was freed is a fault.
abbrev pub strip : Func → Option Func
strip f = elim f.name [
  | none ↦ none
  | some n ↦ elim f.synopsis [
    | none ↦ none
    | some y ↦ some (record f { name = none; synopsis = none; calls = [] })
  ]
]

-- `rpc_function_destroy`: the function stays on the list.
unfoldable pub destroy : (id : ℕ) → Rpc → Option (ℕ × Rpc)
destroy id s = with_found (find (by_id id) s) λ q.
    if q == 0
    then some (einval, s)
    else if (s.funcs q).owner == s.kernel.current
    then elim (strip (s.funcs q)) [ none ↦ none | some f ↦ some (0, set_func q f s) ]
    else some (eacces, s)

-- What `strncpy` leaves of a string for `maxlen` bytes. For 0 it writes past the buffer.
unfoldable pub copy_name : (maxlen : ℕ) → Option (List ℕ) → Option (List ℕ)
copy_name maxlen none = none
copy_name maxlen (some s) =
    if maxlen == 0 then none else some (take (min maxlen (length s + 1) - 1) s)

-- The register `eax` of the interrupted context
abbrev pub set_eax : ℕ → Kernel → Kernel
set_eax v k = record k { curregs = record k.curregs { eax = v } }

-- `rpc_function_getinfo`: the result, the size and the synopsis that it writes, and the state
unfoldable pub getinfo :
    (id : ℕ) (name : Option (List ℕ)) (pid : ℕ) (has_calls : Bool) (maxlen : ℕ) (may_sleep : Bool)
    → Rpc
    → Option (ℕ × Option (ℕ × List ℕ) × Rpc)
getinfo id name pid has_calls maxlen may_sleep s =
    let k = s.kernel in
    let w : Query = record { id = id; name = name; owner = 0; pid = pid; has_calls = has_calls } in
    with_found (find w s) λ q.
      if q == 0
      then (if may_sleep && (has_calls && pid == (current_proc k).pid)
          then some (minus_one, none, record s { kernel = sleep k.current (set_eax minus_one k) })
          else some (einval, none, s))
      else elim (copy_name maxlen (s.funcs q).synopsis) [
        | none ↦ none
        | some y ↦ some ((s.funcs q).id, some ((s.funcs q).params_size, y), s)
      ]
