-- ===== src/Ipc/Msg/Admin.antt =====
-- `ipc_msg_destroy`, `msg_stat` and `msg_set` of kernel2/msg.c.
use mein_os.Prelude.{
  ℕ, ◌≡◌, refl, ◌∙◌, ap, ◌≢◌, ◌⊎◌, inl, inr, true, false, ◌||◌, Option, none, some, List, [], ◌∷◌,
  arith, ◌==◌, if◌then◌else◌, Bool-cases, ==_iff, length, contains,
}
use mein_os.Llist.Mem.{eq_of_ne, eq_self}
use mein_os.Llist.Seq
use mein_os.Llist.Seq.{NoNull}
use mein_os.Perm
use mein_os.Procm.State.{Kernel}
use mein_os.Procm.Sched.{wake}
use mein_os.Ipc.State.{minus_one, eacces, einval, Message, Ipc, put, current_proc, wake_all}
use mein_os.Ipc.Msg.{msg_find, permcheck, waits, recv, take_msg, search_msg}
use mein_os.Ipc.Msg.Transfer.{recv-ok, permcheck-same, find-same, after_take}

-- The loop of `ipc_msg_destroy` over the messages: a sender that waits is woken and the message is
-- freed. Reading a message that was freed is a fault.
unfoldable pub free_msgs :
    List ℕ → (ℕ → Option Message) → Kernel → Option ((ℕ → Option Message) × Kernel)
free_msgs [] f k = some (f, k)
free_msgs (p ∷ ps) f k = if p == 0 then some (f, k) else elim (f p) [
  | none ↦ none
  | some m ↦ free_msgs ps (put f p none) (if waits m.flags then wake m.sender k else k)
]

abbrev pub destroyed : (q : ℕ) (f : ℕ → Option Message) (k : Kernel) → Ipc → Ipc
destroyed q f k s = record s {
  objects = Seq.erase s.objects q;
  messages = f;
  kernel = wake_all (s.queues q).waiting k;
}

-- `ipc_msg_destroy`, `none` for a fault
unfoldable pub destroy : (id : ℕ) → Ipc → Option (ℕ × Ipc)
destroy id s =
    let q = msg_find minus_one id s in
    if q == 0
    then some (einval, s)
    else if permcheck q Perm.perm_w s
    then elim (free_msgs (s.queues q).msgs s.messages s.kernel) [
      | none ↦ none
      | some r ↦ some (0, destroyed q r.0 r.1 s)
    ]
    else some (eacces, s)

-- What `msg_stat` writes through its references.
pub record MsgStat : Type 0 where
  pub uid : ℕ
  pub gid : ℕ
  pub cuid : ℕ
  pub cgid : ℕ
  pub mode : ℕ
  pub num : ℕ
  pub lspid : ℕ
  pub lrpid : ℕ
  pub stime : ℕ
  pub rtime : ℕ
  pub ctime : ℕ

-- `msg_stat`: it asks for no permission.
unfoldable pub msg_stat : (id : ℕ) → Ipc → ℕ × Option MsgStat
msg_stat id s =
    let q = msg_find minus_one id s in
    let o = s.headers q in
    let m = s.queues q in
    if q == 0 then (einval, none) else (
      0,
      some (record {
        uid = (s.kernel.procs o.owner).uid;
        gid = (s.kernel.procs o.owner).gid;
        cuid = (s.kernel.procs o.creator).uid;
        cgid = (s.kernel.procs o.creator).gid;
        mode = m.mode;
        num = length m.msgs;
        lspid = m.lspid;
        lrpid = m.lrpid;
        stime = m.stime;
        rtime = m.rtime;
        ctime = m.ctime;
      }),
    )

-- The state with the mode of the queue at `q` set.
abbrev pub moded : (q mode time : ℕ) → Ipc → Ipc
moded q mode time s = record s {
  queues = put s.queues q (record (s.queues q) { mode = mode; ctime = time });
}

-- `msg_set`: the owner's identifiers are not used, and a process that may not is told 0 as well.
unfoldable pub msg_set : (id uid gid mode time : ℕ) → Ipc → ℕ × Ipc
msg_set id uid gid mode time s =
    let q = msg_find minus_one id s in
    if q == 0
    then (einval, s)
    else if permcheck q Perm.perm_w s || s.kernel.current == (s.headers q).creator
    then (0, moded q mode time s)
    else (0, s)

-- The creator of a queue may set its mode whatever the mode is now. From then on the check for `op`
-- on the queue is that of `perm_check` with the new mode, and the call returns 0.
pub msg_set-permits :
    (id uid gid mode time op : ℕ) (s : Ipc) (q : ℕ)
    → q ≢ 0
    → msg_find minus_one id s ≡ q
    → s.kernel.current ≡ (s.headers q).creator
    → ((msg_set id uid gid mode time s).0 ≡ 0)
      × (permcheck q op (msg_set id uid gid mode time s).1
          ≡ Perm.check
              (current_proc s).pid
              (current_proc s).gid
              (s.kernel.procs (s.headers q).owner).uid
              (s.kernel.procs (s.headers q).owner).gid
              mode
              op)
unfolding msg_set permcheck
msg_set-permits id uid gid mode time op s q ne e creator =
    rw (e, eq_of_ne q 0 ne, may) (refl, rw (eq_self q) refl)
  where
    may : (permcheck q Perm.perm_w s || s.kernel.current == (s.headers q).creator) ≡ true
    may = rw (creator, eq_self (s.headers q).creator) (ground arith)

put-none : (f : ℕ → Option Message) (x p : ℕ) → f p ≡ none → put f x none p ≡ none
put-none f x p e = elim (Bool-cases (p == x)) [ inl t ↦ rw t refl | inr t ↦ rw t e ]

free_msgs-some :
    (x : ℕ) (ps : List ℕ) (f : ℕ → Option Message) (k : Kernel) (m : Message)
    → x ≢ 0
    → f x ≡ some m
    → free_msgs (x ∷ ps) f k
      ≡ free_msgs ps (put f x none) (if waits m.flags then wake m.sender k else k)
unfolding free_msgs
free_msgs-some x ps f k m ne e = rw (eq_of_ne x 0 ne, e)

free_msgs-none :
    (x : ℕ) (ps : List ℕ) (f : ℕ → Option Message) (k : Kernel)
    → x ≢ 0
    → f x ≡ none
    → free_msgs (x ∷ ps) f k ≡ none
unfolding free_msgs
free_msgs-none x ps f k ne e = rw (eq_of_ne x 0 ne, e)

Option-cases : (o : Option Message) → (o ≡ none) ⊎ ((m : Message) × (o ≡ some m))
Option-cases none = inl refl
Option-cases (some m) = inr (m, refl)

contains-later :
    (x p : ℕ) (ps : List ℕ) → (x == p) ≡ false → contains p (x ∷ ps) ≡ true → contains p ps ≡ true
contains-later x p ps e on = ground arith

-- A message that was freed stops the loop, also behind others.
free_msgs-freed :
    (ps : List ℕ) (f : ℕ → Option Message) (k : Kernel) (p : ℕ)
    → NoNull ps
    → contains p ps ≡ true
    → f p ≡ none
    → free_msgs ps f k ≡ none
free_msgs-freed [] f k p nn on freed = ground arith
free_msgs-freed (x ∷ ps) f k p nn on freed = elim (Bool-cases (x == p)) [
  | inl t ↦ free_msgs-none x ps f k nn.0 (ap f ((==_iff x p).0 t) ∙ freed)
  | inr t ↦ elim (Option-cases (f x)) [
    | inl e ↦ free_msgs-none x ps f k nn.0 e
    | inr (m, e) ↦
        free_msgs-some x ps f k m nn.0 e
        ∙ free_msgs-freed ps (put f x none) (if waits m.flags then wake m.sender k else k) p nn.1
            (contains-later x p ps t on) (put-none f x p freed)
  ]
]

destroy-fault :
    (id : ℕ) (s : Ipc) (q : ℕ)
    → q ≢ 0
    → msg_find minus_one id s ≡ q
    → permcheck q Perm.perm_w s ≡ true
    → free_msgs (s.queues q).msgs s.messages s.kernel ≡ none
    → destroy id s ≡ none
unfolding destroy
destroy-fault id s q ne e may fault = rw (e, eq_of_ne q 0 ne, may, fault)

-- What the search finds is on the list.
search-contains :
    (f : ℕ → Option Message) (ps : List ℕ) (sought p : ℕ)
    → p ≢ 0
    → search_msg f ps sought ≡ some p
    → contains p ps ≡ true
unfolding search_msg
search-contains f [] sought p ne e = ground arith
search-contains f (x ∷ ps) sought p ne e = ground (arith, search-contains f ps sought p ne)

-- After one `ipc_msg_recv` that took a message, `ipc_msg_destroy` of the queue reads that message,
-- which was freed, and does not return.
pub destroy-recv :
    (id msgsz sought flags time : ℕ) (s : Ipc) (q p : ℕ) (m : Message)
    → q ≢ 0
    → msg_find minus_one id s ≡ q
    → permcheck q Perm.perm_r s ≡ true
    → permcheck q Perm.perm_w s ≡ true
    → NoNull (s.queues q).msgs
    → search_msg s.messages (s.queues q).msgs sought ≡ some p
    → p ≢ 0
    → s.messages p ≡ some m
    → let s' = (take_msg q p m msgsz flags time s).2 in
      (recv id msgsz sought flags time s ≡ some (take_msg q p m msgsz flags time s))
      × (destroy id s' ≡ none)
destroy-recv id msgsz sought flags time s q p m ne e may_r may_w nn found ne_p at =
    let s' = (take_msg q p m msgsz flags time s).2 in
    let kept = after_take q p m msgsz flags time s in
    (
      recv-ok id msgsz sought flags time s q p m ne e may_r found ne_p at,
      destroy-fault id s' q ne (find-same minus_one id 2 s s' kept.1 kept.2 ∙ e)
          (permcheck-same q Perm.perm_w s s' kept.0 kept.1 kept.3 ∙ may_w)
          (rw (kept.4, kept.5)
            (free_msgs-freed (s.queues q).msgs (put s.messages p none) s'.kernel p nn
              (search-contains s.messages (s.queues q).msgs sought p ne_p found) (rw (eq_self p)))),
    )
