-- ===== src/Ipc/State.antt =====
-- The state of the IPC calls: the registry `ipc_objects`, the objects at their addresses, and the
-- kernel's processes. An `int`, `long` or `id_t` is its pattern of 32 bits, so -1 is 2 ^ 32 - 1.
use mein_os.Prelude.{
  ℕ, ◌+◌, ◌-◌, ◌%◌, ◌^◌, Bool, Option, List, [], ◌∷◌, ltb, leb, ◌==◌, if◌then◌else◌,
}
use mein_os.Procm.State.{Proc, Kernel}
use mein_os.Procm.Sched.{wake}

-- The constants of kernel2/include/ipc.h
abbrev pub ipc_private : ℕ
ipc_private = 0

abbrev pub ipc_msg : ℕ
ipc_msg = 2

abbrev pub ipc_sem : ℕ
ipc_sem = 3

abbrev pub ipc_shm : ℕ
ipc_shm = 4

abbrev pub ipc_nowait : ℕ
ipc_nowait = 0x203

-- -1, as a wildcard or a result, and the error results.
abbrev pub minus_one : ℕ
minus_one = 2 ^ 32 - 1

abbrev pub eacces : ℕ
eacces = 2 ^ 32 - 2

abbrev pub eexist : ℕ
eexist = 2 ^ 32 - 20

abbrev pub einval : ℕ
einval = 2 ^ 32 - 28

abbrev pub enomsg : ℕ
enomsg = 2 ^ 32 - 50

abbrev pub enospc : ℕ
enospc = 2 ^ 32 - 52

-- `a < b`, `a <= b` and `-a` on `int`
abbrev pub int_lt : ℕ → ℕ → Bool
int_lt a b = ltb ((a + 2 ^ 31) % 2 ^ 32) ((b + 2 ^ 31) % 2 ^ 32)

abbrev pub int_le : ℕ → ℕ → Bool
int_le a b = leb ((a + 2 ^ 31) % 2 ^ 32) ((b + 2 ^ 31) % 2 ^ 32)

abbrev pub int_neg : ℕ → ℕ
int_neg a = (2 ^ 32 - a) % 2 ^ 32

abbrev pub int_add : ℕ → ℕ → ℕ
int_add a b = (a + b) % 2 ^ 32

-- `ipc_obj_t`. The field `type` of the source is `kind`.
pub record IpcObj : Type 0 where
  pub kind : ℕ
  pub id : ℕ
  pub key : ℕ
  pub owner : ℕ
  pub creator : ℕ
  pub mode : ℕ

-- `ipc_msg_t` behind its header. It has a `mode` of its own.
pub record MsgQueue : Type 0 where
  pub msgs : List ℕ
  pub waiting : List ℕ
  pub mode : ℕ
  pub lrpid : ℕ
  pub lspid : ℕ
  pub stime : ℕ
  pub rtime : ℕ
  pub ctime : ℕ

-- `ipc_msg_msg_t`. The field `data` of the source is `bytes`.
pub record Message : Type 0 where
  pub queue : ℕ
  pub bytes : List ℕ
  pub size : ℕ
  pub kind : ℕ
  pub flags : ℕ
  pub sender : ℕ

-- `ipc_sem_sleepn_t`
pub record Sleeper : Type 0 where
  pub val : ℕ
  pub proc : ℕ

-- `ipc_sem_sem_t`
pub record Sem : Type 0 where
  pub val : ℕ
  pub lopid : ℕ
  pub waitn : List Sleeper
  pub waitz : List ℕ

-- `struct ipc_sem_S` behind its header. The array is a function of the index.
pub record SemSet : Type 0 where
  pub num : ℕ
  pub sems : ℕ → Sem
  pub otime : ℕ
  pub ctime : ℕ

-- `ipc_shm_att_t`, without the pointer back to the object
pub record Att : Type 0 where
  pub proc : ℕ
  pub virt : ℕ
  pub readonly : ℕ

-- `ipc_shm_t` behind its header. `phys` has the addresses of the pages.
pub record Shm : Type 0 where
  pub size : ℕ
  pub num_pages : ℕ
  pub phys : List ℕ
  pub atts : List Att
  pub lopid : ℕ
  pub atime : ℕ
  pub dtime : ℕ
  pub ctime : ℕ

-- A message that was freed is `none`: reading it is a fault.
pub record Ipc : Type 0 where
  pub kernel : Kernel
  pub objects : List ℕ
  pub lastid : ℕ
  pub headers : ℕ → IpcObj
  pub queues : ℕ → MsgQueue
  pub messages : ℕ → Option Message
  pub semsets : ℕ → SemSet
  pub shms : ℕ → Shm

-- The map `f` with `v` at `p`.
abbrev pub put : {A : Type 0} → (ℕ → A) → ℕ → A → ℕ → A
put f p v a = if a == p then v else f a

-- The structure that `proc_current` points to.
abbrev pub current_proc : Ipc → Proc
current_proc s = s.kernel.procs s.kernel.current

-- `while ((proc = llist_pop(list))!=NULL) proc_wake(proc);` on the kernel, with what stays on the
-- list.
unfoldable pub wake_all : List ℕ → Kernel → Kernel
wake_all [] k = k
wake_all (p ∷ ps) k = if p == 0 then k else wake_all ps (wake p k)

unfoldable pub after_null : List ℕ → List ℕ
after_null [] = []
after_null (p ∷ ps) = if p == 0 then ps else after_null ps
