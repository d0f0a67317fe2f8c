-- ===== src/Ipc/Tests.antt =====
-- The theorems on the IPC calls at a registry with a message queue and a semaphore set.
use mein_os.Prelude.{ℕ, ◌≡◌, refl, true, Option, none, some, [], ◌∷◌, arith}
use mein_os.Perm
use mein_os.Procm.Sample.{kernel, proc}
use mein_os.Ipc.State.{
  Ipc, IpcObj, MsgQueue, Message, SemSet, Shm, minus_one, ipc_msg, ipc_sem, ipc_shm, put,
}
use mein_os.Ipc.Registry.{find}
use mein_os.Ipc.Msg.{send, recv, search_msg, wanted, permcheck}
use mein_os.Ipc.Msg.Transfer.{recv-send}
use mein_os.Ipc.Sem
use mein_os.Ipc.Sem.{sem_op}
use mein_os.Ipc.Sem.Op.{Returned, Given, sem_op-gives}

-- A queue at 20 with the number 7 and a set at 30 with the number 8, both with every permission and
-- made by process 1, which is current. The queue has one message, at 40.
abbrev header : (kind id : ℕ) → IpcObj
header kind id = record { kind = kind; id = id; key = id; owner = 1; creator = 1; mode = 0x1FF }

abbrev queue : MsgQueue
queue = record {
  msgs = 40 ∷ [];
  waiting = [];
  mode = 0x1FF;
  lrpid = 0;
  lspid = 0;
  stime = 0;
  rtime = 0;
  ctime = 0;
}

abbrev message : Message
message = record { queue = 20; bytes = 9 ∷ 8 ∷ []; size = 2; kind = 1; flags = 0; sender = 2 }

abbrev sem_set : SemSet
sem_set = record {
  num = 2;
  sems = λ i. record { val = 4; lopid = 0; waitn = record { val = 5; proc = 3 } ∷ []; waitz = [] };
  otime = 0;
  ctime = 0;
}

-- An object of two pages, attached nowhere.
abbrev shm : Shm
shm = record {
  size = 5000;
  num_pages = 2;
  phys = 0x8000 ∷ 0x9000 ∷ [];
  atts = [];
  lopid = 0;
  atime = 0;
  dtime = 0;
  ctime = 0;
}

abbrev ipc : Ipc
ipc = record {
  kernel = kernel;
  objects = 20 ∷ 30 ∷ [];
  lastid = 9;
  headers = put (λ a. header ipc_sem 8) 20 (header ipc_msg 7);
  queues = λ a. queue;
  messages = put {A = Option Message} (λ a. none) 40 (some message);
  semsets = λ a. sem_set;
  shms = λ a. shm;
}

-- The same with a process that is not root.
abbrev guest : Ipc
guest = record ipc {
  kernel = record kernel { procs = λ a. record (proc a 1) { uid = 5; gid = 5 } };
}

-- The same with the object of shared memory, at 50, with the number 6.
abbrev shared : Ipc
shared = record ipc { objects = 20 ∷ 30 ∷ 50 ∷ []; headers = put ipc.headers 50 (header ipc_shm 6) }

found_msg : find minus_one 7 ipc_msg ipc ≡ 20
unfolding find
found_msg = refl

found_sem : find minus_one 8 ipc_sem ipc ≡ 30
unfolding find
found_sem = refl

msg_free : find 11 minus_one ipc_msg ipc ≡ 0
unfolding find
msg_free = refl

guest_free : find 11 minus_one ipc_msg guest ≡ 0
unfolding find
guest_free = refl

may_msg : (op : ℕ) → permcheck 20 op ipc ≡ true
unfolding permcheck Perm.check
may_msg op = refl

may_sem : (op : ℕ) → Sem.permcheck 30 op ipc ≡ true
unfolding Sem.permcheck Perm.check
may_sem op = refl

found_40 : search_msg ipc.messages (40 ∷ []) 1 ≡ some 40
unfolding search_msg wanted
found_40 = refl

wanted_2 : wanted 2 0 ≡ true
unfolding wanted
wanted_2 = refl

recv-send_example :
    let (r, s') = send 60 7 (1 ∷ 2 ∷ 3 ∷ []) 3 2 0 4 ipc in
    (r ≡ 0) × ((s'' : Ipc) × (recv 7 2 0 0 5 s' ≡ some (2, 1 ∷ 2 ∷ [], s'')))
recv-send_example =
    recv-send 60 7 (1 ∷ 2 ∷ 3 ∷ []) 3 2 0 4 2 0 0 5 ipc 20 (omega arith) (omega arith) found_msg
      (may_msg Perm.perm_w) (may_msg Perm.perm_r) refl wanted_2

-- The sleeper that needs 5 is woken at 6 but, with the next theorem's state, not at 5.
sem_op-gives_example :
    Returned 0 (Given 30 1 2 ipc) (sem_op 8 (record { num = 1; op = 2; flags = 0 } ∷ []) 6 ipc)
sem_op-gives_example =
    sem_op-gives 8 1 2 0 6 30 ipc (omega arith) found_sem (omega arith) (omega arith) (omega arith)
