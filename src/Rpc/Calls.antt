-- ===== src/Rpc/Calls.antt =====
-- The calls of kernel2/rpc.c that call a function, serve the call and list the functions.
use mein_os.Prelude.{
  ℕ, ◌+◌, true, false, ◌||◌, Option, none, some, List, [], ◌∷◌, ◌==◌, if◌then◌else◌, length, take,
}
use mein_os.Llist.Seq
use mein_os.Procm.Sched.{wake, sleep, load_addrspace}
use mein_os.Procm.Lookup.{current_proc}
use mein_os.Ipc.State.{einval, minus_one, put}
use mein_os.Rpc.{
  Call, Rpc, Write, int_at, bytes_at, by_id, find, set_func, with_found, copy_name, set_eax,
}

-- The state after the call `c` to the function at `q`: the owner is awake, and the caller sleeps.
abbrev pub called : (q : ℕ) → Call → Rpc → Rpc
called q c s =
    let k = set_eax 0 (wake (s.funcs q).owner s.kernel) in
    record s {
      funcs = put s.funcs q (record (s.funcs q) { calls = c ∷ (s.funcs q).calls });
      kernel = sleep k.current k;
    }

abbrev pub new_call : (size : ℕ) (params : List ℕ) (ret ret_params error : ℕ) → Rpc → Call
new_call size params ret ret_params error s = record {
  caller = s.kernel.current;
  params = take size params;
  ret = ret;
  ret_params = ret_params;
  error = error;
}

-- `rpc_function_call`. `params` are the bytes at the address of the parameters.
unfoldable pub call :
    (id : ℕ) (params : List ℕ) (ret ret_params error : ℕ) → Rpc → Option (ℕ × List Write × Rpc)
call id params ret ret_params error s = with_found (find (by_id id) s) λ q.
    if q == 0
    then some (einval, [], s)
    else some (
      0,
      (if error == 0 then [] else int_at s.kernel.curpd error 1 ∷ []),
      called q (new_call (s.funcs q).params_size params ret ret_params error s) s,
    )

-- What `rpc_call_poll` writes through its references.
pub record Polled : Type 0 where
  pub func_ptr : ℕ
  pub params : List ℕ
  pub caller : ℕ

-- `rpc_call_poll`: it does not look at `id`. A function without a call is not found here.
unfoldable pub poll : (id : ℕ) → Rpc → Option (ℕ × Option Polled × Rpc)
poll id s =
    with_found
      (find
        (record {
          id = minus_one;
          name = none;
          owner = s.kernel.current;
          pid = 0;
          has_calls = true;
        })
        s)
      λ q. if q == 0 then some (einval, none, s) else elim (s.funcs q).calls [
        | [] ↦ none
        | c ∷ cs ↦ some (
          0,
          some (record {
            func_ptr = (s.funcs q).func;
            params = c.params;
            caller = (s.kernel.procs c.caller).pid;
          }),
          set_func q (record (s.funcs q) { calls = cs; current = some c }) s,
        )
      ]

-- The writes of a return to the caller, in its address space
abbrev pub answer : (space size : ℕ) (c : Call) (ret : ℕ) (ret_params : List ℕ) → List Write
answer space size c ret ret_params =
    let error = if c.error == 0 then [] else int_at space c.error 0 ∷ [] in
    let result = if c.ret == 0 then error else int_at space c.ret ret ∷ error in
    if c.ret_params == 0
    then result
    else bytes_at space c.ret_params (take size ret_params) ∷ result

-- The state after the return: the caller is awake, and the address space is the current one again.
abbrev pub returned : (q : ℕ) → Call → Rpc → Rpc
returned q c s = record s {
  funcs = put s.funcs q (record (s.funcs q) { current = none });
  kernel = wake c.caller (load_addrspace (current_proc s.kernel).addrspace s.kernel);
}

-- `rpc_call_return`
unfoldable pub call_return :
    (id ret : ℕ) (ret_params : List ℕ) → Rpc → Option (ℕ × List Write × Rpc)
call_return id ret ret_params s =
    with_found
      (find (record { id = id; name = none; owner = s.kernel.current; pid = 0; has_calls = false })
        s)
      λ q. if q == 0 then some (einval, [], s) else elim (s.funcs q).current [
        | none ↦ some (einval, [], s)
        | some c ↦ some (
          0,
          answer (s.kernel.procs c.caller).addrspace (s.funcs q).params_size c ret ret_params,
          returned q c s,
        )
      ]

-- `rpc_list`: the result, and the name that it writes to the buffer
unfoldable pub list : (i buf bufsize : ℕ) → Rpc → Option (ℕ × Option (List ℕ))
list i buf bufsize s =
    let q = Seq.get s.functions i in
    if q == 0 then some (0, none) else elim (s.funcs q).name [
      | none ↦ none
      | some n ↦
          if buf == 0 || bufsize == 0
          then some (length n + 1, none)
          else elim (copy_name bufsize (some n)) [
            | none ↦ none
            | some m ↦ some (length m + 1, some m)
          ]
    ]
