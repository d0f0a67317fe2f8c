-- ===== src/Ipc/Msg/Transfer.antt =====
-- What `ipc_msg_send` and `ipc_msg_recv` pass from one process to another.
use mein_os.Prelude.{
  ℕ, ◌≡◌, refl, ◌∙◌, ap, ◌≢◌, inl, inr, true, false, zero, suc, ◌≤◌, ◌<◌, min, List, [], ◌∷◌,
  Option, none, some, arith, ltb, ◌==◌, if◌then◌else◌, Bool-cases, bit_and, take,
}
use mein_os.Llist.Mem.{eq_of_ne, eq_self}
use mein_os.Perm
use mein_os.Procm.State.{Kernel}
use mein_os.Procm.Sched.{wake}
use mein_os.Ipc.State.{Ipc, Message, put, wake_all, minus_one, ipc_nowait}
use mein_os.Ipc.Registry.{find}
use mein_os.Ipc.Msg.{
  msg_find, permcheck, send, sent, recv, search_msg, take_msg, wanted, waits, new_message,
}

-- What waking leaves alone: who the processes are, and which is current.
pub record SameIds (k k' : Kernel) : Type 0 where
  pub pid : (q : ℕ) → (k'.procs q).pid ≡ (k.procs q).pid
  pub uid : (q : ℕ) → (k'.procs q).uid ≡ (k.procs q).uid
  pub gid : (q : ℕ) → (k'.procs q).gid ≡ (k.procs q).gid
  pub current : k'.current ≡ k.current

wake-ids : (p : ℕ) (k : Kernel) → SameIds k (wake p k)
unfolding wake
wake-ids p k = record {
  pid = λ q. ground arith;
  uid = λ q. ground arith;
  gid = λ q. ground arith;
  current = ground arith;
}

wake_all-ids : (ps : List ℕ) (k : Kernel) → SameIds k (wake_all ps k)
unfolding wake_all
wake_all-ids [] k = record { pid = λ q. refl; uid = λ q. refl; gid = λ q. refl; current = refl }
wake_all-ids (p ∷ ps) k = elim (Bool-cases (p == 0)) [
  | inl e ↦ rw e (record { pid = λ q. refl; uid = λ q. refl; gid = λ q. refl; current = refl })
  | inr e ↦
      let a = wake-ids p k in
      let b = wake_all-ids ps (wake p k) in
      rw e (record {
        pid = λ q. b.pid q ∙ a.pid q;
        uid = λ q. b.uid q ∙ a.uid q;
        gid = λ q. b.gid q ∙ a.gid q;
        current = b.current ∙ a.current;
      })
]

-- The check reads only who the processes are, the headers and the mode of the queue.
pub permcheck-same :
    (q op : ℕ) (s s' : Ipc)
    → SameIds s.kernel s'.kernel
    → s'.headers ≡ s.headers
    → (s'.queues q).mode ≡ (s.queues q).mode
    → permcheck q op s' ≡ permcheck q op s
unfolding permcheck
permcheck-same q op s s' i h m =
    let c = s.kernel.current in
    let o = (s.headers q).owner in rw (h, m, i.current, i.pid c, i.gid c, i.uid o, i.gid o)

pub find-same :
    (key id kind : ℕ) (s s' : Ipc)
    → s'.headers ≡ s.headers
    → s'.objects ≡ s.objects
    → find key id kind s' ≡ find key id kind s
unfolding find
find-same key id kind s s' h o = rw (h, o)

-- A freed message, once reached, is a fault.
search-freed :
    (f : ℕ → Option Message) (ps : List ℕ) (sought p : ℕ)
    → p ≢ 0
    → search_msg f ps sought ≡ some p
    → search_msg (put f p none) ps sought ≡ none
unfolding search_msg
search-freed f [] sought p ne e = ground arith
search-freed f (x ∷ ps) sought p ne e = ground (arith, search-freed f ps sought p ne)

pub recv-ok :
    (id msgsz sought flags time : ℕ) (s : Ipc) (q p : ℕ) (m : Message)
    → q ≢ 0
    → msg_find minus_one id s ≡ q
    → permcheck q Perm.perm_r s ≡ true
    → search_msg s.messages (s.queues q).msgs sought ≡ some p
    → p ≢ 0
    → s.messages p ≡ some m
    → recv id msgsz sought flags time s ≡ some (take_msg q p m msgsz flags time s)
unfolding recv
recv-ok id msgsz sought flags time s q p m ne e allowed found ne_p at =
    rw (e, eq_of_ne q 0 ne, allowed, found, eq_of_ne p 0 ne_p, at)
      (ap (λ r. some (take_msg r p m msgsz flags time s)) e)

recv-fault :
    (id msgsz sought flags time : ℕ) (s : Ipc) (q : ℕ)
    → q ≢ 0
    → msg_find minus_one id s ≡ q
    → permcheck q Perm.perm_r s ≡ true
    → search_msg s.messages (s.queues q).msgs sought ≡ none
    → recv id msgsz sought flags time s ≡ none
unfolding recv
recv-fault id msgsz sought flags time s q ne e allowed found =
    rw (e, eq_of_ne q 0 ne, allowed, found)

-- The state after a message was taken, as far as the checks and the search see it.
pub after_take :
    (q p : ℕ) (m : Message) (msgsz flags time : ℕ) (s : Ipc)
    → let s' = (take_msg q p m msgsz flags time s).2 in
      SameIds s.kernel s'.kernel
      × (s'.headers ≡ s.headers)
      × (s'.objects ≡ s.objects)
      × ((s'.queues q).mode ≡ (s.queues q).mode)
      × ((s'.queues q).msgs ≡ (s.queues q).msgs)
      × (s'.messages ≡ put s.messages p none)
unfolding take_msg
after_take q p m msgsz flags time s = (
  elim (Bool-cases (bit_and m.flags ipc_nowait == flags)) [
    | inl e ↦ rw e (wake-ids m.sender s.kernel)
    | inr e ↦ rw e (record { pid = λ q. refl; uid = λ q. refl; gid = λ q. refl; current = refl })
  ],
  refl,
  refl,
  rw (eq_self q),
  rw (eq_self q),
  refl,
)

-- A message that `ipc_msg_recv` has taken and freed stays on the list of its queue: the next call of
-- the same process that asks for the same type reads the freed message. This holds where the process
-- may read the queue and the first message of the type is there.
pub recv_again_faults :
    (id msgsz sought flags time msgsz' flags' time' : ℕ) (s : Ipc) (q p : ℕ) (m : Message)
    → q ≢ 0
    → msg_find minus_one id s ≡ q
    → permcheck q Perm.perm_r s ≡ true
    → search_msg s.messages (s.queues q).msgs sought ≡ some p
    → p ≢ 0
    → s.messages p ≡ some m
    → let s' = (take_msg q p m msgsz flags time s).2 in
      (recv id msgsz sought flags time s ≡ some (take_msg q p m msgsz flags time s))
      × (recv id msgsz' sought flags' time' s' ≡ none)
recv_again_faults id msgsz sought flags time msgsz' flags' time' s q p m ne e allowed found ne_p
      at =
    let s' = (take_msg q p m msgsz flags time s).2 in
    let kept = after_take q p m msgsz flags time s in
    (
      recv-ok id msgsz sought flags time s q p m ne e allowed found ne_p at,
      recv-fault id msgsz' sought flags' time' s' q ne
          (find-same minus_one id 2 s s' kept.1 kept.2 ∙ e)
          (permcheck-same q Perm.perm_r s s' kept.0 kept.1 kept.3 ∙ allowed)
          (rw (kept.4, kept.5) (search-freed s.messages (s.queues q).msgs sought p ne_p found)),
    )

search-front :
    (f : ℕ → Option Message) (ps : List ℕ) (sought p : ℕ) (m : Message)
    → p ≢ 0
    → f p ≡ some m
    → wanted m.kind sought ≡ true
    → search_msg f (p ∷ ps) sought ≡ some p
unfolding search_msg
search-front f ps sought p m ne e w = rw (eq_of_ne p 0 ne, e, w)

-- The state after a message was sent without waiting, as far as the checks see it.
after_send :
    (q fresh : ℕ) (bytes : List ℕ) (msgsz kind flags time : ℕ) (s : Ipc)
    → waits flags ≡ false
    → let s' = sent q fresh bytes msgsz kind flags time s in
      SameIds s.kernel s'.kernel × ((s'.queues q).mode ≡ (s.queues q).mode)
after_send q fresh bytes msgsz kind flags time s w =
    (rw w (wake_all-ids (s.queues q).waiting s.kernel), rw (eq_self q))

pub take-take : (a b : ℕ) (xs : List ℕ) → a ≤ b → take a (take b xs) ≡ take a xs
take-take zero b xs h = refl
take-take (suc a) zero xs h = absurd (omega arith)
take-take (suc a) (suc b) [] h = refl
take-take (suc a) (suc b) (x ∷ xs) h = rw (take-take a b xs (omega arith))

min_cases : (a b : ℕ) → (if ltb a b then a else b) ≡ min a b
min_cases a b = elim (Bool-cases (ltb a b)) [
  | inl e ↦ rw e (let h : a < b = ground arith in omega arith)
  | inr e ↦ rw e (let h : b ≤ a = ground arith in omega arith)
]

-- The count and the bytes that the receiver gets.
taken :
    (q p : ℕ) (m : Message) (bufsz flags time : ℕ) (s : Ipc) (bytes : List ℕ) (msgsz : ℕ)
    → m.size ≡ msgsz
    → m.bytes ≡ take msgsz bytes
    → ◌≡◌ {A = Option (ℕ × List ℕ × Ipc)} (some (take_msg q p m bufsz flags time s)) (
        some (min msgsz bufsz, take (min msgsz bufsz) bytes, (take_msg q p m bufsz flags time s).2))
unfolding take_msg
taken q p m bufsz flags time s bytes msgsz e e' =
    rw (e, e', min_cases msgsz bufsz, take-take (min msgsz bufsz) msgsz bytes (omega arith))

-- After a send that does not wait, by a process that may write and read the queue, the next call of
-- `ipc_msg_recv` by it that wants the type gets the message just sent, also where others were there
-- before: its result is the smaller of the two sizes, and the buffer gets that many of the bytes.
pub recv-send :
    (fresh id : ℕ) (bytes : List ℕ) (msgsz kind flags time bufsz sought flags' time' : ℕ) (s : Ipc)
    (q : ℕ)
    → q ≢ 0
    → fresh ≢ 0
    → msg_find minus_one id s ≡ q
    → permcheck q Perm.perm_w s ≡ true
    → permcheck q Perm.perm_r s ≡ true
    → waits flags ≡ false
    → wanted kind sought ≡ true
    → let (r, s') = send fresh id bytes msgsz kind flags time s in
      (r ≡ 0)
      × ((s'' : Ipc) × (recv id bufsz sought flags' time' s'
            ≡ some (min msgsz bufsz, take (min msgsz bufsz) bytes, s'')))
unfolding send
recv-send fresh id bytes msgsz kind flags time bufsz sought flags' time' s q ne ne_f e may_w may_r w
      k =
    let s' = sent q fresh bytes msgsz kind flags time s in
    let m = new_message q s.kernel.current bytes msgsz kind flags in
    let kept = after_send q fresh bytes msgsz kind flags time s w in
    rw (e, eq_of_ne q 0 ne, may_w)
      (
        refl,
        (
          (take_msg q fresh m bufsz flags' time' s').2,
          recv-ok id bufsz sought flags' time' s' q fresh m ne
                (find-same minus_one id 2 s s' refl refl ∙ e)
                (permcheck-same q Perm.perm_r s s' kept.0 refl kept.1 ∙ may_r)
                (rw (eq_self q) (
                  search-front s'.messages (s.queues q).msgs sought fresh m ne_f
                    (rw (eq_self fresh)) k))
                ne_f (rw (eq_self fresh))
              ∙ taken q fresh m bufsz flags' time' s' bytes msgsz refl refl,
        ),
      )
