-- ===== src/Rpc/Withdraw.antt =====
-- Functions that are created and destroyed.
use mein_os.Prelude.{
  ℕ, ◌≡◌, refl, sym, ◌∙◌, ap, ◌≢◌, true, false, Option, none, some, List, [], ◌∷◌, arith,
}
use mathlib.Core.Path.{subst}
use mein_os.Llist.Mem.{eq_of_ne, eq_self}
use mein_os.Procm.State.{Proc}
use mein_os.Procm.Lookup.{same_name}
use mein_os.Ipc.State.{minus_one, put, eacces, int_add}
use mein_os.Rpc.{
  Call, Func, Rpc, Query, by_id, matches, find_in, find, set_func, create, destroy, strip,
}
use mein_os.Rpc.Lookup.{Only, find_in-here, unnamed, find-by_id}
use mein_os.Rpc.Protocol.{Only-same, as_proc}

same_name_self : (n : List ℕ) → same_name n n ≡ true
unfolding same_name
same_name_self [] = refl
same_name_self (c ∷ cs) = rw (eq_self c, same_name_self cs)

-- The query of a name
abbrev pub by_name : List ℕ → Query
by_name n = record { id = minus_one; name = some n; owner = 0; pid = 0; has_calls = false }

named-matches :
    (n : List ℕ) (procs : ℕ → Proc) (f : Func)
    → f.name ≡ some n
    → matches (by_name n) procs f ≡ some true
unfolding matches
named-matches n procs f e = rw (e, same_name_self n)

id-matches :
    (id : ℕ) (procs : ℕ → Proc) (f : Func) → f.id ≡ id → matches (by_id id) procs f ≡ some true
id-matches id procs f e = unnamed id 0 0 false procs f ∙ rw (e, eq_self id) (ground arith)

destroy-denied :
    (id : ℕ) (s : Rpc) (q : ℕ)
    → q ≢ 0
    → find (by_id id) s ≡ some q
    → (s.funcs q).owner ≢ s.kernel.current
    → destroy id s ≡ some (eacces, s)
unfolding destroy
destroy-denied id s q ne e foreign = rw (e, eq_of_ne q 0 ne, eq_of_ne _ _ foreign)

destroy-owned :
    (id : ℕ) (s : Rpc) (q : ℕ)
    → q ≢ 0
    → find (by_id id) s ≡ some q
    → (s.funcs q).owner ≡ s.kernel.current
    → destroy id s ≡ elim (strip (s.funcs q)) [ none ↦ none | some f ↦ some (0, set_func q f s) ]
unfolding destroy
destroy-owned id s q ne e own = rw (e, eq_of_ne q 0 ne, own, eq_self s.kernel.current)

-- Looking up does not ask which process is the current one.
find-as_proc : (w : Query) (p : ℕ) (s : Rpc) → find w (as_proc p s) ≡ find w s
unfolding find
find-as_proc w p s = refl

module _ (fresh : ℕ) (junk : Option Call) (name : List ℕ) (func : ℕ) (synopsis : List ℕ) (size : ℕ)
    (s : Rpc) where
  -- The function that is made
  abbrev made : Func
  made = record {
    id = s.lastid;
    name = some name;
    func = func;
    synopsis = some synopsis;
    params_size = size;
    owner = s.kernel.current;
    calls = [];
    current = junk;
  }

  -- The state after it is made
  abbrev pub registered : Rpc
  registered = record s {
    lastid = int_add s.lastid 1;
    functions = fresh ∷ s.functions;
    funcs = put s.funcs fresh made;
  }

  at_fresh : registered.funcs fresh ≡ made
  at_fresh = rw (eq_self fresh)

  create-registered : create fresh junk name func synopsis size s ≡ (s.lastid, registered)
  unfolding create
  create-registered = refl

  id-found : fresh ≢ 0 → find (by_id s.lastid) registered ≡ some fresh
  unfolding find
  id-found ne = find_in-here (by_id s.lastid) s.kernel.procs registered.funcs fresh s.functions ne (
      id-matches s.lastid s.kernel.procs (registered.funcs fresh)
        (ap (λ (f : Func). f.id) at_fresh))

  name-found : fresh ≢ 0 → find (by_name name) registered ≡ some fresh
  unfolding find
  name-found ne = find_in-here (by_name name) s.kernel.procs registered.funcs fresh s.functions ne (
      named-matches name s.kernel.procs (registered.funcs fresh)
        (ap (λ (f : Func). f.name) at_fresh))

  -- A function that is made at an address other than 0 is found by the number that the call returns and
  -- by its name, also where older functions have the same name. A process that is not its owner cannot
  -- destroy it: the result is the one for a denied access, and nothing changes.
  pub find-create_rpc :
      fresh ≢ 0
      → (other : ℕ) → s.kernel.current ≢ other
      → let made = create fresh junk name func synopsis size s in
        (find (by_id made.0) made.1 ≡ some fresh)
        × (find (by_name name) made.1 ≡ some fresh)
        × (destroy made.0 (as_proc other made.1) ≡ some (eacces, as_proc other made.1))
  find-create_rpc ne other foreign = rw create-registered (
    id-found ne,
    name-found ne,
    destroy-denied s.lastid (as_proc other registered) fresh ne
        (find-as_proc (by_id s.lastid) other registered ∙ id-found ne)
        (λ e. foreign (sym (ap (λ (f : Func). f.owner) at_fresh) ∙ e)),
  )

-- The function without names and calls
abbrev pub stripped : Func → Func
stripped f = record f { name = none; synopsis = none; calls = [] }

strip-named :
    (f : Func) (n y : List ℕ) → f.name ≡ some n → f.synopsis ≡ some y → strip f ≡ some (stripped f)
strip-named f n y e g = rw (e, g)

strip-freed : (f : Func) → f.name ≡ none → strip f ≡ none
strip-freed f e = rw e

freed-matches :
    (n : List ℕ) (procs : ℕ → Proc) (f : Func) → f.name ≡ none → matches (by_name n) procs f ≡ none
unfolding matches
freed-matches n procs f e = rw e

find_in-faults :
    (w : Query) (procs : ℕ → Proc) (funcs : ℕ → Func) (p : ℕ) (ps : List ℕ)
    → p ≢ 0
    → matches w procs (funcs p) ≡ none
    → find_in w procs funcs (p ∷ ps) ≡ none
unfolding find_in
find_in-faults w procs funcs p ps ne e = rw (eq_of_ne p 0 ne, e)

find-faults :
    (w : Query) (q : ℕ) (rest : List ℕ) (s : Rpc)
    → q ≢ 0
    → s.functions ≡ q ∷ rest
    → matches w s.kernel.procs (s.funcs q) ≡ none
    → find w s ≡ none
unfolding find
find-faults w q rest s ne front e = rw front (find_in-faults w s.kernel.procs s.funcs q rest ne e)

-- The owner withdraws its only function: the call returns 0, but the function stays on the list, with
-- its names freed. It is still found by its number, a lookup by a name that reaches it first reads the
-- freed name, and the owner who withdraws it again frees its names twice. Each of these two is a fault.
pub destroy-again :
    (q : ℕ) (s : Rpc) (rest : List ℕ) (name synopsis asked : List ℕ)
    → Only q s
    → q ≢ 0
    → s.functions ≡ q ∷ rest
    → (s.funcs q).id ≢ minus_one
    → (s.funcs q).owner ≡ s.kernel.current
    → (s.funcs q).name ≡ some name
    → (s.funcs q).synopsis ≡ some synopsis
    → let id = (s.funcs q).id in
      let s' = set_func q (stripped (s.funcs q)) s in
      (destroy id s ≡ some (0, s'))
      × (find (by_id id) s' ≡ some q)
      × (find (by_name asked) s' ≡ none)
      × (destroy id s' ≡ none)
destroy-again q s rest name synopsis asked o ne front ne_id own e g =
    let s' : Rpc = set_func q (stripped (s.funcs q)) s in
    let at : s'.funcs q ≡ stripped (s.funcs q) = rw (eq_self q) in
    let same = ap (λ (f : Func). f.id) at in
    let freed = ap (λ (f : Func). f.name) at in
    let found =
      subst (λ n. find (by_id n) s' ≡ some q) same
        (find-by_id q s' (Only-same q s s' (stripped (s.funcs q)) o refl refl refl refl)
          (λ z. ne_id (sym same ∙ z))) in
    (
      destroy-owned (s.funcs q).id s q ne (find-by_id q s o ne_id) own
          ∙ rw (strip-named (s.funcs q) name synopsis e g),
      found,
      find-faults (by_name asked) q rest s' ne front
          (freed-matches asked s.kernel.procs (s'.funcs q) freed),
      destroy-owned (s.funcs q).id s' q ne found (ap (λ (f : Func). f.owner) at ∙ own)
          ∙ rw (strip-freed (s'.funcs q) freed),
    )
