-- ===== src/Rpc/Tests.antt =====
-- The theorems on the calls of functions at a registry with two functions.
use mein_os.Prelude.{ℕ, ◌≡◌, refl, false, none, some, [], ◌∷◌, arith, ◌==◌, if◌then◌else◌}
use mein_os.Procm.Sample.{kernel}
use mein_os.Rpc.{Call, Func, Rpc, Write, set_func}
use mein_os.Rpc.Calls.{call, poll, returned, call_return, called}
use mein_os.Rpc.Lookup.{Only}
use mein_os.Rpc.Protocol.{as_proc, call_return-poll-call}

abbrev func : (id owner : ℕ) → Func
func id owner = record {
  id = id;
  name = some (104 ∷ 105 ∷ []);
  func = 0x5000;
  synopsis = some (33 ∷ []);
  params_size = 2;
  owner = owner;
  calls = [];
  current = none;
}

-- The function at 50 belongs to process 3, which sleeps, and the one at 60 to process 2.
abbrev registry : Rpc
registry = record {
  kernel = kernel;
  funcs = λ a. if a == 50 then func 7 3 else func 8 2;
  functions = 50 ∷ 60 ∷ [];
  lastid = 9;
}

only : Only 50 registry
only = record {
  nonnull = (omega arith, (omega arith, tt));
  listed = refl;
  ids = λ r other. ground (arith, other);
  owners = λ r other. ground (arith, other);
}

-- Process 1 calls with three bytes, of which the function takes two.
abbrev asked : Call
asked = record { caller = 1; params = 1 ∷ 2 ∷ []; ret = 0x100; ret_params = 0; error = 0x200 }

abbrev waiting : Rpc
waiting = as_proc 3 (called 50 asked registry)

abbrev serves : Rpc
serves = set_func 50 (record (waiting.funcs 50) { calls = []; current = some asked }) waiting

call_return-poll-call_example :
    (call 7 (1 ∷ 2 ∷ 3 ∷ []) 0x100 0 0x200 registry
      ≡ some (0, Write.int_at 11 0x200 1 ∷ [], called 50 asked registry))
    × (poll 0 waiting
        ≡ some (0, some (record { func_ptr = 0x5000; params = 1 ∷ 2 ∷ []; caller = 1 }), serves))
    × (call_return 7 42 (5 ∷ []) serves
        ≡ some
            (0, Write.int_at 11 0x100 42 ∷ Write.int_at 11 0x200 0 ∷ [], returned 50 asked serves))
    × (((returned 50 asked serves).kernel.procs 1).is_sleeping ≡ false)
call_return-poll-call_example =
    call_return-poll-call 50 registry only (omega arith) (omega arith) (omega arith)
      (1 ∷ 2 ∷ 3 ∷ []) 0x100 0 0x200 0 42 (5 ∷ [])

-- A second function of the same name comes before the first.
