-- ===== src/Ipc/Msg.antt =====
-- kernel2/msg.c: message queues. Each call returns its result beside the new state. `fresh` is the
-- address that `malloc` gives for a new object.
pub mod Admin
pub mod Deny
pub mod Transfer
use mein_os.Prelude.{
  ℕ, ◌+◌, ◌-◌, ◌%◌, ◌^◌, Bool, true, false, ◌&&◌, ◌||◌, not, bit_and, Option, none, some, List, [],
  ◌∷◌, ltb, ◌==◌, if◌then◌else◌, length, take,
}
use mein_os.Llist.Seq
use mein_os.Perm
use mein_os.Procm.State.{Proc, Kernel}
use mein_os.Procm.Sched.{wake, sleep}
use mein_os.Ipc.Registry.{find}
use mein_os.Ipc.State.{
  ipc_private, ipc_msg, ipc_nowait, minus_one, eacces, einval, enomsg, int_lt, int_le, int_neg,
  int_add, IpcObj, MsgQueue, Message, Ipc, put, current_proc, wake_all, after_null,
}

-- `ipc_msg_find`
abbrev pub msg_find : (key id : ℕ) → Ipc → ℕ
msg_find key id s = find key id ipc_msg s

-- The check of the calls: the current process stands in the place of the owner, and the owner of
-- the queue in the place of the process that asks.
unfoldable pub permcheck : (q op : ℕ) → Ipc → Bool
permcheck q op s =
    Perm.check (current_proc s).pid (current_proc s).gid owner.uid owner.gid (s.queues q).mode op
  where
    owner : Proc
    owner = s.kernel.procs (s.headers q).owner

-- `ipc_msg_get`
unfoldable pub get : (key : ℕ) → Ipc → ℕ
get key s =
    if msg_find key minus_one s == 0 then minus_one else (s.headers (msg_find key minus_one s)).id

abbrev pub new_queue : (time : ℕ) → MsgQueue
new_queue time = record {
  msgs = [];
  waiting = [];
  mode = 0;
  lrpid = 0;
  lspid = 0;
  stime = 0;
  rtime = 0;
  ctime = time;
}

-- The state with the new queue registered. The mode goes to the header, and the queue's own mode
-- stays 0 from `memset`.
abbrev pub created : (fresh key mode time : ℕ) → Ipc → Ipc
created fresh key mode time s = record s {
  lastid = int_add s.lastid 1;
  objects = fresh ∷ s.objects;
  headers = put s.headers fresh (record {
    kind = ipc_msg;
    id = s.lastid;
    key = key;
    owner = s.kernel.current;
    creator = s.kernel.current;
    mode = mode;
  });
  queues = put s.queues fresh (new_queue time);
}

-- `ipc_msg_create`
unfoldable pub create : (fresh key mode time : ℕ) → Ipc → ℕ × Ipc
create fresh key mode time s =
    let old = if key == ipc_private then 0 else msg_find key minus_one s in
    if old == 0 && not (fresh == 0) then (s.lastid, created fresh key mode time s) else (einval, s)

-- The message that `ipc_msg_send` makes: `memcpy` takes the first `msgsz` bytes.
abbrev pub new_message : (q sender : ℕ) (bytes : List ℕ) (msgsz kind flags : ℕ) → Message
new_message q sender bytes msgsz kind flags = record {
  queue = q;
  bytes = take msgsz bytes;
  size = msgsz;
  kind = kind;
  flags = flags;
  sender = sender;
}

-- The sender is to sleep until the message is taken.
abbrev pub waits : (flags : ℕ) → Bool
waits flags = not (bit_and flags ipc_nowait == flags)

-- The state after a message was sent to the queue at `q`.
abbrev pub sent : (q fresh : ℕ) (bytes : List ℕ) (msgsz kind flags time : ℕ) → Ipc → Ipc
sent q fresh bytes msgsz kind flags time s =
    let old = s.queues q in
    let k = wake_all old.waiting s.kernel in
    record s {
      messages =
          put s.messages fresh (some (new_message q s.kernel.current bytes msgsz kind flags));
      queues = put s.queues q (record old {
        msgs = fresh ∷ old.msgs;
        waiting = after_null old.waiting;
        lspid = (current_proc s).pid;
        stime = time;
      });
      kernel = if waits flags then sleep k.current k else k;
    }

-- `ipc_msg_send`
unfoldable pub send : (fresh id : ℕ) (bytes : List ℕ) (msgsz kind flags time : ℕ) → Ipc → ℕ × Ipc
send fresh id bytes msgsz kind flags time s =
    let q = msg_find minus_one id s in
    if q == 0
    then (einval, s)
    else if permcheck q Perm.perm_w s
    then (0, sent q fresh bytes msgsz kind flags time s)
    else (eacces, s)

-- Whether a message of this type is one that the receiver asks for.
unfoldable pub wanted : (kind sought : ℕ) → Bool
wanted kind sought =
    (kind == sought) || ((sought == 0) || (int_lt sought 0 && int_le kind (int_neg sought)))

-- The first message on the list that is wanted, NULL where there is none, and a fault where the
-- loop reads a message that was freed.
unfoldable pub search_msg : (ℕ → Option Message) → List ℕ → ℕ → Option ℕ
search_msg f [] sought = some 0
search_msg f (p ∷ ps) sought = if p == 0 then some 0 else elim (f p) [
  | none ↦ none
  | some m ↦ if wanted m.kind sought then some p else search_msg f ps sought
]

-- What `ipc_msg_recv` does with the message `m` at `p`: its result, the bytes it writes to the
-- buffer, and the state. The message is freed and stays on the list of the queue.
unfoldable pub take_msg : (q p : ℕ) (m : Message) (msgsz flags time : ℕ) → Ipc → ℕ × List ℕ × Ipc
take_msg q p m msgsz flags time s =
    let count = if ltb m.size msgsz then m.size else msgsz in
    (
      count,
      take count m.bytes,
      record s {
        messages = put s.messages p none;
        queues =
            put s.queues q (record (s.queues q) { lrpid = (current_proc s).pid; rtime = time });
        kernel = if bit_and m.flags ipc_nowait == flags then wake m.sender s.kernel else s.kernel;
      },
    )

-- With no such message the receiver waits in the queue's list, or is told so.
unfoldable pub wait_msg : (q flags : ℕ) → Ipc → ℕ × List ℕ × Ipc
wait_msg q flags s =
    if bit_and flags ipc_nowait == 0
    then (
      0,
      [],
      record s {
        queues =
            put s.queues q
              (record (s.queues q) { waiting = s.kernel.current ∷ (s.queues q).waiting });
        kernel = sleep s.kernel.current s.kernel;
      },
    )
    else (enomsg, [], s)

-- `ipc_msg_recv`, `none` for a fault
unfoldable pub recv : (id msgsz kind flags time : ℕ) → Ipc → Option (ℕ × List ℕ × Ipc)
recv id msgsz kind flags time s =
    let q = msg_find minus_one id s in
    if q == 0
    then some (einval, [], s)
    else if permcheck q Perm.perm_r s
    then elim (search_msg s.messages (s.queues q).msgs kind) [
      | none ↦ none
      | some p ↦ if p == 0 then some (wait_msg q flags s) else elim (s.messages p) [
        | none ↦ none
        | some m ↦ some (take_msg q p m msgsz flags time s)
      ]
    ]
    else some (eacces, [], s)
