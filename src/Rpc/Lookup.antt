-- ===== src/Rpc/Lookup.antt =====
-- `rpc_find`: the only function that fits is found.
use mein_os.Prelude.{
  ℕ, ◌≡◌, sym, ◌∙◌, ap, ◌≢◌, ◌⊎◌, inl, inr, Bool, true, false, not, ◌&&◌, ◌||◌, none, some, List,
  [], ◌∷◌, arith, ◌==◌, ==_iff, Bool-cases, contains,
}
use mein_os.Llist.Mem.{eq_of_ne, eq_self}
use mein_os.Llist.Seq.{NoNull}
use mein_os.Procm.State.{Proc}
use mein_os.Ipc.State.{minus_one}
use mein_os.Rpc.{Func, Query, Rpc, by_id, fits, is_empty, matches, find_in, find}

pub find_in-here :
    (w : Query) (procs : ℕ → Proc) (funcs : ℕ → Func) (p : ℕ) (ps : List ℕ)
    → p ≢ 0
    → matches w procs (funcs p) ≡ some true
    → find_in w procs funcs (p ∷ ps) ≡ some p
unfolding find_in
find_in-here w procs funcs p ps ne e = rw (eq_of_ne p 0 ne, e)

find_in-later :
    (w : Query) (procs : ℕ → Proc) (funcs : ℕ → Func) (p : ℕ) (ps : List ℕ)
    → p ≢ 0
    → matches w procs (funcs p) ≡ some false
    → find_in w procs funcs (p ∷ ps) ≡ find_in w procs funcs ps
unfolding find_in
find_in-later w procs funcs p ps ne e = rw (eq_of_ne p 0 ne, e)

later :
    (p q : ℕ) (ps : List ℕ) → (p == q) ≡ false → contains q (p ∷ ps) ≡ true → contains q ps ≡ true
later p q ps t on = ground arith

-- A listed function that matches is found where no other one matches.
pub find_in-only :
    (w : Query) (procs : ℕ → Proc) (funcs : ℕ → Func) (q : ℕ) (ps : List ℕ)
    → NoNull ps
    → contains q ps ≡ true
    → matches w procs (funcs q) ≡ some true
    → ((r : ℕ) → r ≢ q → matches w procs (funcs r) ≡ some false)
    → find_in w procs funcs ps ≡ some q
find_in-only w procs funcs q [] nn on e alone = ground arith
find_in-only w procs funcs q (p ∷ ps) nn on e alone = elim (Bool-cases (p == q)) [
  | inl t ↦
      let same = (==_iff p q).0 t in find_in-here w procs funcs p ps nn.0 (rw same e) ∙ ap some same
  | inr t ↦
      find_in-later w procs funcs p ps nn.0 (alone p (λ z. ground (arith, t, z)))
      ∙ find_in-only w procs funcs q ps nn.1 (later p q ps t on) e alone
]

-- The function at `q` is listed, and no other function has its number or its owner.
pub record Only (q : ℕ) (s : Rpc) : Type 0 where
  pub nonnull : NoNull s.functions
  pub listed : contains q s.functions ≡ true
  pub ids : (r : ℕ) → r ≢ q → (s.funcs r).id ≢ (s.funcs q).id
  pub owners : (r : ℕ) → r ≢ q → (s.funcs r).owner ≢ (s.funcs q).owner

-- A query without a name is answered by the two tests.
pub unnamed :
    (id owner pid : ℕ) (has_calls : Bool) (procs : ℕ → Proc) (f : Func)
    → let w : Query = record {
      id = id;
      name = none;
      owner = owner;
      pid = pid;
      has_calls = has_calls;
    } in
      matches w procs f ≡ some ((id == minus_one || id == f.id) && fits w procs f)
unfolding matches
unnamed id owner pid has_calls procs f = ground arith

-- By its number the only function is found.
pub find-by_id :
    (q : ℕ) (s : Rpc)
    → Only q s
    → (s.funcs q).id ≢ minus_one
    → find (by_id (s.funcs q).id) s ≡ some q
unfolding find
find-by_id q s o ne =
    find_in-only (by_id (s.funcs q).id) s.kernel.procs s.funcs q s.functions o.nonnull o.listed
      (unnamed (s.funcs q).id 0 0 false s.kernel.procs (s.funcs q)
        ∙ rw (eq_self (s.funcs q).id) (ground arith))
      λ r other.
        unnamed (s.funcs q).id 0 0 false s.kernel.procs (s.funcs r)
        ∙ rw (
          eq_of_ne (s.funcs q).id minus_one ne,
          eq_of_ne (s.funcs q).id (s.funcs r).id (λ e. o.ids r other (sym e)),
        )

-- The owner finds its only function, by its number or by none, and with a call where it asks for one.
pub find-by_owner :
    (id own : ℕ) (has_calls : Bool) (q : ℕ) (s : Rpc)
    → Only q s
    → own ≢ 0
    → (s.funcs q).owner ≡ own
    → (id ≡ minus_one) ⊎ (id ≡ (s.funcs q).id)
    → (not has_calls || not (is_empty (s.funcs q).calls)) ≡ true
    → find (record { id = id; name = none; owner = own; pid = 0; has_calls = has_calls }) s ≡ some q
unfolding find
find-by_owner id own has_calls q s o ne is which ready =
    find_in-only _ s.kernel.procs s.funcs q s.functions o.nonnull o.listed
      (unnamed id own 0 has_calls s.kernel.procs (s.funcs q)
        ∙ rw (asked id (s.funcs q).id which, is, eq_self own, ready) (ground arith))
      λ r other.
        unnamed id own 0 has_calls s.kernel.procs (s.funcs r)
        ∙ rw
            (
              eq_of_ne own 0 ne,
              eq_of_ne own (s.funcs r).owner (λ e. o.owners r other (sym e ∙ sym is)),
            )
            (ground arith)
  where
    asked : (id own : ℕ) → (id ≡ minus_one) ⊎ (id ≡ own) → (id == minus_one || id == own) ≡ true
    asked id own which = ground arith
