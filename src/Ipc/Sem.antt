-- ===== src/Ipc/Sem.antt =====
-- kernel2/sem.c: sets of counting semaphores, with their creation and `ipc_sem_op`. The calls that
-- read and set them are in `Control`.
pub mod Control
pub mod Op
use mein_os.Prelude.{
  ℕ, ◌+◌, ◌-◌, ◌%◌, ◌^◌, Bool, true, false, ◌&&◌, ◌||◌, not, bit_and, List, [], ◌∷◌, ltb, leb, ◌==◌,
  if◌then◌else◌,
}
use mein_os.Perm
use mein_os.Procm.State.{Proc, Cpu, active, halted, off, Kernel}
use mein_os.Procm.Sched.{wake, sleep}
use mein_os.Ipc.Registry.{find}
use mein_os.Ipc.State.{
  ipc_private, ipc_sem, ipc_nowait, minus_one, eacces, eexist, einval, enospc, int_lt, int_le,
  int_neg, int_add, IpcObj, Sleeper, Sem, SemSet, Ipc, put, current_proc, wake_all, after_null,
}

-- `ipc_sem_find`
abbrev pub sem_find : (key id : ℕ) → Ipc → ℕ
sem_find key id s = find key id ipc_sem s

-- `ipc_sem_permcheck`: the owner's process number stands in the place of its user.
unfoldable pub permcheck : (q op : ℕ) → Ipc → Bool
permcheck q op s =
    Perm.check owner.pid owner.gid (current_proc s).uid (current_proc s).gid (s.headers q).mode op
    || (current_proc s).uid == creator.uid
  where
    owner : Proc
    owner = s.kernel.procs (s.headers q).owner

    creator : Proc
    creator = s.kernel.procs (s.headers q).creator

-- `ipc_sem_get`
unfoldable pub get : (key : ℕ) → Ipc → ℕ
get key s =
    if sem_find key minus_one s == 0 then einval else (s.headers (sem_find key minus_one s)).id

abbrev pub new_sem : Sem
new_sem = record { val = 0; lopid = 0; waitn = []; waitz = [] }

abbrev pub created : (fresh key nsems mode time : ℕ) → Ipc → Ipc
created fresh key nsems mode time s = record s {
  lastid = int_add s.lastid 1;
  objects = fresh ∷ s.objects;
  headers = put s.headers fresh (record {
    kind = ipc_sem;
    id = s.lastid;
    key = key;
    owner = s.kernel.current;
    creator = s.kernel.current;
    mode = mode;
  });
  semsets =
      put s.semsets fresh (record { num = nsems; sems = λ i. new_sem; otime = 0; ctime = time });
}

-- `ipc_sem_create`
unfoldable pub create : (fresh key nsems mode time : ℕ) → Ipc → ℕ × Ipc
create fresh key nsems mode time s =
    let old = if key == ipc_private then 0 else sem_find key minus_one s in
    if old == 0
    then if fresh == 0 then (enospc, s) else (s.lastid, created fresh key nsems mode time s)
    else (eexist, s)

-- `ipc_sem_op_t`, with `op` as the `int` that it is promoted to
pub record SemOp : Type 0 where
  pub num : ℕ
  pub op : ℕ
  pub flags : ℕ

-- The state with `x` as semaphore `n` of the set at `q`.
abbrev pub set_sem : (q n : ℕ) → Sem → Ipc → Ipc
set_sem q n x s = record s {
  semsets = put s.semsets q (record (s.semsets q) { sems = put (s.semsets q).sems n x });
}

abbrev pub set_kernel : Kernel → Ipc → Ipc
set_kernel k s = record s { kernel = k }

-- The loop over `waitn`: each sleeper is taken off, and woken if it waits for less than the value.
unfoldable pub wake_fit : (val : ℕ) → List Sleeper → Kernel → Kernel
wake_fit val [] k = k
wake_fit val (w ∷ ws) k = wake_fit val ws (if int_lt w.val val then wake w.proc k else k)

-- What follows each operation that went on: those who wait for zero are woken at zero, the others at
-- a positive value.
unfoldable pub wake_waiters : (q n : ℕ) → Ipc → Ipc
wake_waiters q n s =
    let x = (s.semsets q).sems n in
    if x.val == 0
    then set_sem q n (record x { waitz = after_null x.waitz })
        (set_kernel (wake_all x.waitz s.kernel) s)
    else if int_lt 0 x.val
    then set_sem q n (record x { waitn = [] }) (set_kernel (wake_fit x.val x.waitn s.kernel) s)
    else s

-- How one operation of the array ends: the loop goes on, the call returns, or it does not return
-- since the processor was halted.
pub data Outcome : Type 0 where
  next : Ipc → Outcome
  return : ℕ → Ipc → Outcome
  idle : Ipc → Outcome

-- The semaphore with the marks that each operation leaves on it and its set.
abbrev pub touched : (q n time : ℕ) → Ipc → Ipc
touched q n time s = record s {
  semsets = put s.semsets q (record (s.semsets q) {
    otime = time;
    sems =
        put (s.semsets q).sems n (record ((s.semsets q).sems n) { lopid = (current_proc s).pid });
  });
}

-- The value of the semaphore changes by `op`.
abbrev pub add_val : (q n op : ℕ) → Ipc → Ipc
add_val q n op s =
    let x = (s.semsets q).sems n in set_sem q n (record x { val = int_add x.val op }) s

-- `op < 0`: the value is taken, or the call returns at once, or the process is put to sleep.
unfoldable pub op_negative : (q i : ℕ) → SemOp → Ipc → Outcome
unfolding wake_waiters
op_negative q i o s =
    let x = (s.semsets q).sems o.num in
    if int_le (int_neg o.op) x.val
    then next (wake_waiters q o.num (add_val q o.num o.op s))
    else if not (bit_and o.flags ipc_nowait == 0)
    then return 0 s
    else return i (
        set_kernel (sleep s.kernel.current s.kernel) (
          set_sem q o.num
            (record x { waitn = record { val = int_neg o.op; proc = s.kernel.current } ∷ x.waitn })
            s))

-- `op == 0`: the process is put to sleep on `waitz`, and the loop goes on if another runs.
unfoldable pub op_zero : (q : ℕ) → SemOp → Ipc → Outcome
unfolding wake_waiters
op_zero q o s =
    let x = (s.semsets q).sems o.num in
    let s' =
      set_kernel (sleep s.kernel.current s.kernel)
        (set_sem q o.num (record x { waitz = s.kernel.current ∷ x.waitz }) s) in
    elim s'.kernel.cpu [ active ↦ next (wake_waiters q o.num s') | _ ↦ idle s' ]

-- One round of the loop of `ipc_sem_op`.
unfoldable pub op_step : (id i : ℕ) → SemOp → (time : ℕ) → Ipc → Outcome
unfolding op_negative op_zero wake_waiters
op_step id i o time s =
    let q = sem_find minus_one id s in
    if q == 0
    then return einval s
    else if leb (s.semsets q).num o.num
    then return minus_one s
    else let s' = touched q o.num time s in
      if int_lt o.op 0
      then op_negative q i o s'
      else if int_lt 0 o.op
      then next (wake_waiters q o.num (add_val q o.num o.op s'))
      else op_zero q o s'

-- The loop goes on from `next` only.
abbrev pub and_then : Outcome → (Ipc → Outcome) → Outcome
and_then (next s) f = f s
and_then (return r s) f = return r s
and_then (idle s) f = idle s

-- The rounds from index `i` on.
unfoldable pub op_from : (id i : ℕ) → List SemOp → (time : ℕ) → Ipc → Outcome
op_from id i [] time s = return 0 s
op_from id i (o ∷ os) time s =
    and_then (op_step id i o time s) (λ s'. op_from id (i + 1) os time s')

-- `ipc_sem_op`
unfoldable pub sem_op : (id : ℕ) → List SemOp → (time : ℕ) → Ipc → Outcome
unfolding op_from
sem_op id ops time s = op_from id 0 ops time s
