-- ===== src/Rpc/Protocol.antt =====
-- A call of a function, its poll by the owner, and the return to the caller.
use mein_os.Prelude.{
  ℕ, ◌≡◌, refl, sym, ◌∙◌, ap, ◌≢◌, inl, inr, true, false, none, some, List, [], ◌∷◌, ◌==◌,
  if◌then◌else◌, take,
}
use mein_os.Llist.Mem.{eq_of_ne, eq_self}
use mein_os.Procm.Sched.{wake}
use mein_os.Procm.Exit.{run_as}
use mein_os.Procm.Keep.{SameProcs, sleep-SameProcs, wake-SameProcs, wake-awake}
use mein_os.Ipc.State.{minus_one, put}
use mein_os.Rpc.{Call, Func, Rpc, Write, by_id, find, set_func, set_eax}
use mein_os.Rpc.Calls.{Polled, called, new_call, call, poll, answer, returned, call_return}
use mein_os.Rpc.Lookup.{Only, find-by_id, find-by_owner}

-- The state with process `p` as the current one.
abbrev pub as_proc : ℕ → Rpc → Rpc
as_proc p s = record s { kernel = run_as p s.kernel }

-- The functions with another value at `q` that has the same number and owner.
pub Only-same :
    (q : ℕ) (s s' : Rpc) (f : Func)
    → Only q s
    → s'.functions ≡ s.functions
    → s'.funcs ≡ put s.funcs q f
    → f.id ≡ (s.funcs q).id
    → f.owner ≡ (s.funcs q).owner
    → Only q s'
Only-same q s s' f o same e id owner = record {
  nonnull = rw same o.nonnull;
  listed = rw same o.listed;
  ids = λ r other. rw (e, eq_of_ne r q other, eq_self q, id) (o.ids r other);
  owners = λ r other. rw (e, eq_of_ne r q other, eq_self q, owner) (o.owners r other);
}

call-ok :
    (id : ℕ) (params : List ℕ) (ret ret_params error : ℕ) (s : Rpc) (q : ℕ)
    → q ≢ 0
    → find (by_id id) s ≡ some q
    → call id params ret ret_params error s
      ≡ some (
        0,
        (if error == 0 then [] else Write.int_at s.kernel.curpd error 1 ∷ []),
        called q (new_call (s.funcs q).params_size params ret ret_params error s) s,
      )
unfolding call
call-ok id params ret ret_params error s q ne e = rw (e, eq_of_ne q 0 ne)

-- What the owner gets of a call
abbrev pub polled : (q : ℕ) → Call → Rpc → Polled
polled q c s = record {
  func_ptr = (s.funcs q).func;
  params = c.params;
  caller = (s.kernel.procs c.caller).pid;
}

-- The state after the owner took the call `c`, with the calls `cs` left
abbrev pub serving : (q : ℕ) → Call → List Call → Rpc → Rpc
serving q c cs s = set_func q (record (s.funcs q) { calls = cs; current = some c }) s

poll-ok :
    (id : ℕ) (s : Rpc) (q : ℕ) (c : Call) (cs : List Call)
    → q ≢ 0
    → find
        (record {
          id = minus_one;
          name = none;
          owner = s.kernel.current;
          pid = 0;
          has_calls = true;
        })
        s
      ≡ some q
    → (s.funcs q).calls ≡ c ∷ cs
    → poll id s ≡ some (0, some (polled q c s), serving q c cs s)
unfolding poll
poll-ok id s q c cs ne e pending = rw (e, eq_of_ne q 0 ne, pending)

return-ok :
    (id ret : ℕ) (ret_params : List ℕ) (s : Rpc) (q : ℕ) (c : Call)
    → q ≢ 0
    → find (record { id = id; name = none; owner = s.kernel.current; pid = 0; has_calls = false }) s
      ≡ some q
    → (s.funcs q).current ≡ some c
    → call_return id ret ret_params s
      ≡ some (
        0,
        answer (s.kernel.procs c.caller).addrspace (s.funcs q).params_size c ret ret_params,
        returned q c s,
      )
unfolding call_return
return-ok id ret ret_params s q c ne e served = rw (e, eq_of_ne q 0 ne, served)

module _ (q : ℕ) (s : Rpc) (o : Only q s) (ne_q : q ≢ 0) (ne_o : (s.funcs q).owner ≢ 0)
    (ne_id : (s.funcs q).id ≢ minus_one) (params : List ℕ) (ret ret_params error : ℕ) where
  abbrev pub made : Call
  made = new_call (s.funcs q).params_size params ret ret_params error s

  -- After the call, with the owner running
  abbrev pub s1 : Rpc
  s1 = as_proc (s.funcs q).owner (called q made s)

  -- After the poll
  abbrev pub s2 : Rpc
  s2 = serving q made (s.funcs q).calls s1

  at1 : s1.funcs q ≡ record (s.funcs q) { calls = made ∷ (s.funcs q).calls }
  at1 = rw (eq_self q)

  at2 : s2.funcs q ≡ record (s.funcs q) { calls = (s.funcs q).calls; current = some made }
  at2 = rw (eq_self q)

  only1 : Only q s1
  only1 =
      Only-same q s s1 (record (s.funcs q) { calls = made ∷ (s.funcs q).calls }) o refl refl refl
        refl

  only2 : Only q s2
  only2 =
      Only-same q s1 s2 (record (s1.funcs q) { calls = (s.funcs q).calls; current = some made })
        only1 refl refl refl refl

  pub called-find :
      find
        (record {
          id = minus_one;
          name = none;
          owner = (s.funcs q).owner;
          pid = 0;
          has_calls = true;
        })
        s1
      ≡ some q
  called-find =
      find-by_owner minus_one (s.funcs q).owner true q s1 only1 ne_o
        (ap (λ (f : Func). f.owner) at1) (inl refl) (rw (eq_self q))

  -- While the owner serves the call, it finds its function by the number.
  pub serving-find :
      find
        (record {
          id = (s.funcs q).id;
          name = none;
          owner = (s.funcs q).owner;
          pid = 0;
          has_calls = false;
        })
        s2
      ≡ some q
  serving-find =
      find-by_owner (s.funcs q).id (s.funcs q).owner false q s2 only2 ne_o
        (ap (λ (f : Func). f.owner) at2) (inr (sym (ap (λ (f : Func). f.id) at2))) refl

  caller-same : SameProcs s.kernel s1.kernel
  caller-same =
      let k = s.kernel in
      let w = wake-SameProcs (s.funcs q).owner k in
      let z =
        sleep-SameProcs (wake (s.funcs q).owner k).current (set_eax 0 (wake (s.funcs q).owner k)) in
      record {
        pid = λ a. z.pid a ∙ w.pid a;
        addrspace = λ a. z.addrspace a ∙ w.addrspace a;
        defunc = λ a. z.defunc a ∙ w.defunc a;
      }

  -- A process calls the only function of its owner; the owner, when it runs, polls, and then returns.
  -- Each of the three calls returns 0. The poll gives the owner the address of the function, the
  -- parameters up to their size and the number of the caller, also where older calls wait. The return
  -- writes the result in the address space of the caller, where the caller asked for it, and the
  -- caller is awake after it.
  pub call_return-poll-call :
      (any result : ℕ) (answers : List ℕ)
      → let c = s.kernel.current in
        let f = s.funcs q in
        let s3 = returned q made s2 in
        (call f.id params ret ret_params error s
          ≡ some (
            0,
            (if error == 0 then [] else Write.int_at s.kernel.curpd error 1 ∷ []),
            called q made s,
          ))
        × (poll any s1
            ≡ some (
              0,
              some (record {
                func_ptr = f.func;
                params = take f.params_size params;
                caller = (s.kernel.procs c).pid;
              }),
              s2,
            ))
        × (call_return f.id result answers s2
            ≡ some (0, answer (s.kernel.procs c).addrspace f.params_size made result answers, s3))
        × ((s3.kernel.procs c).is_sleeping ≡ false)
  call_return-poll-call any result answers = (
    call-ok (s.funcs q).id params ret ret_params error s q ne_q (find-by_id q s o ne_id),
    poll-ok any s1 q made (s.funcs q).calls ne_q called-find (ap (λ (f : Func). f.calls) at1)
        ∙ ap
            (λ n. some (
              0,
              some (record {
                func_ptr = n;
                params = made.params;
                caller = (s1.kernel.procs made.caller).pid;
              }),
              s2,
            ))
            (ap (λ (f : Func). f.func) at1)
        ∙ ap
            (λ n. some (
              0,
              some (record { func_ptr = (s.funcs q).func; params = made.params; caller = n }),
              s2,
            ))
            (caller-same.pid s.kernel.current),
    return-ok (s.funcs q).id result answers s2 q made ne_q serving-find
          (ap (λ (f : Func). f.current) at2)
        ∙ ap
            (λ n. some (
              0,
              answer (s1.kernel.procs made.caller).addrspace n made result answers,
              returned q made s2,
            ))
            (ap (λ (f : Func). f.params_size) at2)
        ∙ ap
            (λ n.
              some (0, answer n (s.funcs q).params_size made result answers, returned q made s2))
            (caller-same.addrspace s.kernel.current),
    wake-awake s.kernel.current _,
  )
