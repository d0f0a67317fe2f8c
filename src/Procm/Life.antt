-- ===== src/Procm/Life.antt =====
-- The life of a process: created, ended, waited for.
use mein_os.Prelude.{
  ℕ, suc, ◌+◌, ◌^◌, ◌<◌, ◌≡◌, refl, sym, ◌∙◌, ap, ◌≢◌, inl, inr, Bool, true, false, ◌&&◌, not, List,
  ◌∷◌, arith, ◌==◌, if◌then◌else◌, Bool-cases, length, contains,
}
use mein_os.Llist.Mem.{eq_of_ne, eq_self}
use mein_os.Llist.Seq
use mein_os.Llist.Seq.{NoNull, delete, erase_lem}
use mein_os.Llist.Delete.{contains-delete_sub, NoNull-delete, Distinct-delete, length-delete_le}
use mein_os.Procm.State.{Proc, Kernel, store}
use mein_os.Procm.Lookup.{find, find_from, find_from-here, current_proc}
use mein_os.Procm.Calls.{new_proc, add_child, create, exit, tell_parent, waits_for}
use mein_os.Procm.Inv.{IsValid, SameLists, IsValid-same, wake-IsValid}

add_child-same : (parent fresh : ℕ) (k : Kernel) → SameLists k (add_child parent fresh k)
add_child-same parent fresh k = record {
  running = ground arith;
  sleeping = ground arith;
  flags = λ q. ground arith;
}

-- A structure with the flag of its list, put on the list.
enter-IsValid :
    (fresh : ℕ) (x : Proc) (running : Bool) (k k' : Kernel)
    → IsValid k
    → fresh ≢ 0
    → contains fresh k.running ≡ false
    → contains fresh k.sleeping ≡ false
    → suc (length k.running + length k.sleeping) < 2 ^ 30
    → x.is_sleeping ≡ not running
    → k'.procs ≡ store k.procs fresh x
    → k'.running ≡ (if running then fresh ∷ k.running else k.running)
    → k'.sleeping ≡ (if running then k.sleeping else fresh ∷ k.sleeping)
    → IsValid k'
enter-IsValid fresh x true k k' v ne off_r off_s room flag p r s = record {
  running_nonnull = rw r (ne, v.running_nonnull);
  sleeping_nonnull = rw s v.sleeping_nonnull;
  running_distinct = rw r (off_r, v.running_distinct);
  sleeping_distinct = rw s v.sleeping_distinct;
  awake = λ q h. let h' = ap (contains q) (sym r) ∙ h in rw p (ground (arith, v.awake q));
  asleep = λ q h. let h' = ap (contains q) (sym s) ∙ h in rw p (ground (arith, v.asleep q));
  room = rw (r, s) (omega arith);
}
enter-IsValid fresh x false k k' v ne off_r off_s room flag p r s = record {
  running_nonnull = rw r v.running_nonnull;
  sleeping_nonnull = rw s (ne, v.sleeping_nonnull);
  running_distinct = rw r v.running_distinct;
  sleeping_distinct = rw s (off_s, v.sleeping_distinct);
  awake = λ q h. let h' = ap (contains q) (sym r) ∙ h in rw p (ground (arith, v.awake q));
  asleep = λ q h. let h' = ap (contains q) (sym s) ∙ h in rw p (ground (arith, v.asleep q));
  room = rw (r, s) (omega arith);
}

-- `proc_create` of a running or a sleeping process keeps the invariant, at an address that is on no
-- list. This holds where the running and the sleeping processes are fewer than 2 ^ 30 - 1.
pub create-IsValid :
    (fresh : ℕ) (raw : Proc) (space : ℕ) (name : List ℕ) (uid gid parent : ℕ) (running : Bool)
    (system : ℕ) (k : Kernel)
    → IsValid k
    → fresh ≢ 0
    → contains fresh k.running ≡ false
    → contains fresh k.sleeping ≡ false
    → suc (length k.running + length k.sleeping) < 2 ^ 30
    → IsValid (create fresh raw space name uid gid parent running system k)
unfolding create
create-IsValid fresh raw space name uid gid parent running system k v ne off_r off_s room =
    let k' = add_child parent fresh k in
    let same = add_child-same parent fresh k in
    enter-IsValid fresh (new_proc raw space k.next_pid name uid gid parent running system) running
      k' (create fresh raw space name uid gid parent running system k) (IsValid-same k k' same v) ne
      (rw same.running off_r) (rw same.sleeping off_s) (rw (same.running, same.sleeping) room) refl
      refl (rw same.running refl) (rw same.sleeping refl)

add_child-current : (parent fresh : ℕ) (k : Kernel) → (add_child parent fresh k).current ≡ k.current
add_child-current parent fresh k = ground arith

add_child-pid :
    (parent fresh : ℕ) (k : Kernel) (q : ℕ)
    → ((add_child parent fresh k).procs q).pid ≡ (k.procs q).pid
add_child-pid parent fresh k q = ground arith

find-other :
    (pid : ℕ) (k : Kernel)
    → ((current_proc k).pid == pid) ≡ false
    → find pid k ≡ find_from k.procs k.all pid
unfolding find
find-other pid k e = rw e

-- A process that is current and has another number finds a new process by the number it was given.
pub find-create :
    (fresh : ℕ) (raw : Proc) (space : ℕ) (name : List ℕ) (uid gid parent : ℕ) (running : Bool)
    (system : ℕ) (k : Kernel)
    → fresh ≢ 0
    → k.current ≢ fresh
    → (current_proc k).pid ≢ k.next_pid
    → find k.next_pid (create fresh raw space name uid gid parent running system k) ≡ fresh
unfolding create
find-create fresh raw space name uid gid parent running system k ne cur other =
    let k' = create fresh raw space name uid gid parent running system k in
    find-other k.next_pid k' elsewhere
    ∙ find_from-here k'.procs fresh k.all k.next_pid ne (rw (eq_self fresh) (eq_self k.next_pid))
  where
    child : Kernel
    child = add_child parent fresh k

    elsewhere :
        ((current_proc (create fresh raw space name uid gid parent running system k)).pid
          == k.next_pid)
        ≡ false
    elsewhere =
        rw
          (
            add_child-current parent fresh k,
            eq_of_ne k.current fresh cur,
            add_child-pid parent fresh k,
          )
          (eq_of_ne (current_proc k).pid k.next_pid other)

-- Taking the current process off the running list at its end.
leave-IsValid :
    (p : ℕ) (k k' : Kernel)
    → IsValid k
    → k'.running ≡ delete p k.running
    → k'.sleeping ≡ k.sleeping
    → ((q : ℕ) → (k'.procs q).is_sleeping ≡ (k.procs q).is_sleeping)
    → IsValid k'
leave-IsValid p k k' v r s flags = record {
  running_nonnull = rw r (NoNull-delete p k.running v.running_nonnull);
  sleeping_nonnull = rw s v.sleeping_nonnull;
  running_distinct = rw r (Distinct-delete p k.running v.running_distinct);
  sleeping_distinct = rw s v.sleeping_distinct;
  awake =
      λ q h. flags q ∙ v.awake q (contains-delete_sub q p k.running (ap (contains q) (sym r) ∙ h));
  asleep = λ q h. flags q ∙ v.asleep q (ap (contains q) (sym s) ∙ h);
  room = rw (r, s) (omega (arith, length-delete_le p k.running, v.room));
}

-- What `tell_parent` does before it wakes the parent.
told_same :
    (q : ℕ) (k k' : Kernel) (y : Proc)
    → y.is_sleeping ≡ (k.procs q).is_sleeping
    → k'.procs ≡ store k.procs q y
    → k'.running ≡ k.running
    → k'.sleeping ≡ k.sleeping
    → SameLists k k'
told_same q k k' y flag p r s = record {
  running = r;
  sleeping = s;
  flags = λ a. rw p (ground arith);
}

tell_parent-IsValid :
    (q : ℕ) (k : Kernel)
    → IsValid k
    → q ≢ 0
    → suc (length k.running + length k.sleeping) < 2 ^ 30
    → IsValid (tell_parent q k)
unfolding tell_parent
tell_parent-IsValid q k v ne room = elim (Bool-cases ((k.procs q).wait_stat == 0)) [
  | inl e ↦
      rw e (wake-IsValid q _ (IsValid-same k _ (told_same q k _ _ refl refl refl refl) v) ne room)
  | inr e ↦
      rw e (wake-IsValid q _ (IsValid-same k _ (told_same q k _ _ refl refl refl refl) v) ne room)
]

-- The end of a process, after its parent was told or not.
ended-IsValid :
    (p ret : ℕ) (k k' : Kernel)
    → IsValid k
    → k'.running ≡ Seq.erase k.running p
    → k'.sleeping ≡ k.sleeping
    → k'.procs ≡ store k.procs p (record (k.procs p) { ret = ret; defunc = true })
    → IsValid k'
ended-IsValid p ret k k' v r s f =
    leave-IsValid p k k' v (r ∙ (erase_lem k.running p v.running_nonnull (omega (arith, v.room))).0)
      s (λ q. rw f (ground arith))

-- `proc_exit` keeps the invariant, whether the parent waits or not. This holds where the running and
-- the sleeping processes are fewer than 2 ^ 30 - 1.
pub exit-IsValid :
    (ret : ℕ) (k : Kernel)
    → IsValid k
    → suc (length k.running + length k.sleeping) < 2 ^ 30
    → IsValid (exit ret k).1
unfolding exit
exit-IsValid ret k v room =
    let q = (current_proc k).parent in
    elim (Bool-cases (not (q == 0) && waits_for (k.procs q) (current_proc k))) [
      | inl e ↦ rw e (
          ended-IsValid k.current ret (tell_parent q k) _
            (tell_parent-IsValid q k v (ground arith) room) refl refl refl)
      | inr e ↦ rw e (ended-IsValid k.current ret k _ v refl refl refl)
    ]
