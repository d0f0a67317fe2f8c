-- ===== src/Ipc/Msg/Deny.antt =====
-- Who may use a message queue of kernel2/msg.c.
use mein_os.Prelude.{ℕ, ◌≡◌, refl, ◌≢◌, true, false, List, arith}
use mein_os.Llist.Mem.{eq_of_ne}
use mein_os.Perm
use mein_os.Perm.{op_mode}
use mein_os.Ipc.State.{Ipc, minus_one, eacces, ipc_msg}
use mein_os.Ipc.Registry.{find, find_in-here}
use mein_os.Ipc.Msg.{msg_find, permcheck, create, created, send, sent}

-- The state with process `c` as the current one.
abbrev pub as_proc : ℕ → Ipc → Ipc
as_proc c s = record s { kernel = record s.kernel { current = c } }

-- No bit of a mode 0 grants anything, and who is not root has no other way.
check_zero : (ou og au ag op : ℕ) → au ≢ 1 → ag ≢ 1 → Perm.check ou og au ag 0 op ≡ false
unfolding Perm.check
check_zero ou og au ag op nu ng = ground arith

-- A queue of mode 0 whose owner is not root lets nobody in.
permcheck-zero :
    (q op : ℕ) (s : Ipc)
    → (s.queues q).mode ≡ 0
    → (s.kernel.procs (s.headers q).owner).uid ≢ 1
    → (s.kernel.procs (s.headers q).owner).gid ≢ 1
    → permcheck q op s ≡ false
unfolding permcheck
permcheck-zero q op s m nu ng = rw m (check_zero _ _ _ _ op nu ng)

create-ok :
    (fresh key mode time : ℕ) (s : Ipc)
    → fresh ≢ 0
    → msg_find key minus_one s ≡ 0
    → create fresh key mode time s ≡ (s.lastid, created fresh key mode time s)
unfolding create
create-ok fresh key mode time s ne free = ground arith

send-denied :
    (fresh id : ℕ) (bytes : List ℕ) (msgsz kind flags time : ℕ) (s : Ipc) (q : ℕ)
    → q ≢ 0
    → msg_find minus_one id s ≡ q
    → permcheck q Perm.perm_w s ≡ false
    → send fresh id bytes msgsz kind flags time s ≡ (eacces, s)
unfolding send
send-denied fresh id bytes msgsz kind flags time s q ne e denied = rw (e, eq_of_ne q 0 ne, denied)

-- The identifier of a new queue finds it, whichever process asks.
created-find :
    (fresh key mode time c : ℕ) (s : Ipc)
    → fresh ≢ 0
    → msg_find minus_one s.lastid (as_proc c (created fresh key mode time s)) ≡ fresh
unfolding find
created-find fresh key mode time c s ne =
    find_in-here (created fresh key mode time s).headers minus_one s.lastid ipc_msg fresh s.objects
      ne (ground arith)

-- `ipc_msg_create` with a key that no queue has registers a queue. By the queue's mode, which is 0,
-- every process is then denied to send to it, unless root created it.
pub create-denies :
    (fresh key mode time : ℕ) (s : Ipc) (c fresh' : ℕ) (bytes : List ℕ) (msgsz kind flags time' : ℕ)
    → fresh ≢ 0
    → msg_find key minus_one s ≡ 0
    → (s.kernel.procs s.kernel.current).uid ≢ 1
    → (s.kernel.procs s.kernel.current).gid ≢ 1
    → let s' = as_proc c (create fresh key mode time s).1 in
      ((create fresh key mode time s).0 ≡ s.lastid)
      × (send fresh' s.lastid bytes msgsz kind flags time' s' ≡ (eacces, s'))
create-denies fresh key mode time s c fresh' bytes msgsz kind flags time' ne free nu ng =
    rw (create-ok fresh key mode time s ne free) (
      refl,
      send-denied fresh' s.lastid bytes msgsz kind flags time' _ fresh ne
          (created-find fresh key mode time c s ne) denied,
    )
  where
    denied : permcheck fresh Perm.perm_w (as_proc c (created fresh key mode time s)) ≡ false
    denied = permcheck-zero fresh Perm.perm_w _ (ground arith) (ground arith) (ground arith)

permcheck-root :
    (q op : ℕ) (s : Ipc) → (s.kernel.procs (s.headers q).owner).uid ≡ 1 → permcheck q op s ≡ true
unfolding permcheck Perm.check
permcheck-root q op s e = rw e

-- A queue that root created with any mode, 0 included, and a key that no queue had takes messages from
-- every process.
pub create-opens :
    (fresh key mode time : ℕ) (s : Ipc) (c fresh' : ℕ) (bytes : List ℕ) (msgsz kind flags time' : ℕ)
    → fresh ≢ 0
    → msg_find key minus_one s ≡ 0
    → (s.kernel.procs s.kernel.current).uid ≡ 1
    → let s' = as_proc c (create fresh key mode time s).1 in
      send fresh' s.lastid bytes msgsz kind flags time' s'
      ≡ (0, sent fresh fresh' bytes msgsz kind flags time' s')
unfolding send
create-opens fresh key mode time s c fresh' bytes msgsz kind flags time' ne free root = rw (
  create-ok fresh key mode time s ne free,
  created-find fresh key mode time c s ne,
  eq_of_ne fresh 0 ne,
  permcheck-root fresh Perm.perm_w (as_proc c (created fresh key mode time s)) (ground arith),
)
