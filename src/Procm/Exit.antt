-- ===== src/Procm/Exit.antt =====
-- What the parent of a process learns of its end, by `proc_exit` or by `proc_waitpid`.
use mein_os.Prelude.{
  ℕ, ◌≡◌, refl, sym, ◌∙◌, ap, ◌≢◌, inl, inr, true, false, ◌&&◌, not, none, some, List, [], ◌∷◌,
  arith, ◌==◌, if◌then◌else◌, Bool-cases,
}
use mein_os.Llist.Mem.{eq_of_ne, eq_self}
use mein_os.Procm.State.{Proc, Kernel, store}
use mein_os.Procm.Sched.{wake}
use mein_os.Procm.Lookup.{find, find_from, current_proc}
use mein_os.Procm.Calls.{exit, tell_parent, waits_for, waitpid, is_pos}

-- The state with process `p` as the current one.
abbrev pub run_as : ℕ → Kernel → Kernel
run_as p k = record k { current = p }

-- `proc_current->parent`
abbrev pub parent : Kernel → ℕ
parent k = (current_proc k).parent

-- What the parent at `q` finds after the process at `c` has ended with the value `ret`.
pub record Told (q c ret : ℕ) (k k' : Kernel) : Type 0 where
  pub result : (k'.procs q).registers.eax ≡ (k.procs c).pid
  pub awake : (k'.procs q).is_sleeping ≡ false
  pub served : (k'.procs q).wait ≡ false
  pub ended : (k'.procs c).defunc ≡ true
  pub value : (k'.procs c).ret ≡ ret
  pub left : k'.current ≡ 0

tell_parent-lem :
    (q : ℕ) (k : Kernel)
    → (((tell_parent q k).procs q).registers.eax ≡ (current_proc k).pid)
      × (((tell_parent q k).procs q).is_sleeping ≡ false)
      × (((tell_parent q k).procs q).wait ≡ false)
unfolding tell_parent wake
tell_parent-lem q k = (ground arith, ground arith, ground arith)

exit-told :
    (ret : ℕ) (k : Kernel)
    → (not ((current_proc k).parent == 0)
        && waits_for (k.procs (current_proc k).parent) (current_proc k))
      ≡ true
    → let q = (current_proc k).parent in
      let t = tell_parent q k in
      ((exit ret k).0
        ≡ (if not ((k.procs q).wait_stat == 0) then some ((k.procs q).wait_stat, ret) else none))
      × ((exit ret k).1.procs
          ≡ store t.procs k.current (record (t.procs k.current) { ret = ret; defunc = true }))
      × ((exit ret k).1.current ≡ 0)
unfolding exit
exit-told ret k e = rw e (refl, refl, refl)

exit-ended :
    (ret : ℕ) (k : Kernel)
    → (((exit ret k).1.procs k.current).defunc ≡ true)
      × (((exit ret k).1.procs k.current).ret ≡ ret)
unfolding exit
exit-ended ret k = (rw (eq_self k.current), rw (eq_self k.current))

store-other :
    (p q : ℕ) (f : ℕ → Proc) (ret : ℕ)
    → q ≢ p
    → store f p (record (f p) { ret = ret; defunc = true }) q ≡ f q
store-other p q f ret ne = rw (eq_of_ne q p ne)

-- Where the parent of the current process waits for it, `proc_exit` leaves the parent awake and done
-- with its wait, with the number of the process as the result of its call, writes the value where
-- the parent asked for it, and only there, and leaves no process current. This holds for a parent
-- that is another process.
pub exit-Told :
    (ret : ℕ) (k : Kernel)
    → parent k ≢ 0
    → parent k ≢ k.current
    → waits_for (k.procs (parent k)) (current_proc k) ≡ true
    → ((exit ret k).0 ≡ (
        if not ((k.procs (parent k)).wait_stat == 0)
        then some ((k.procs (parent k)).wait_stat, ret)
        else none))
      × Told (parent k) k.current ret k (exit ret k).1
exit-Told ret k ne other waiting =
    let e = exit-told ret k (rw (eq_of_ne (parent k) 0 ne, waiting)) in
    let t = tell_parent-lem (parent k) k in
    let at = store-other k.current (parent k) (tell_parent (parent k) k).procs ret other in
    (
      e.0,
      record {
        result =
            ap (λ (f : ℕ → Proc). (f (parent k)).registers.eax) e.1
            ∙ ap (λ (x : Proc). x.registers.eax) at
            ∙ t.0;
        awake =
            ap (λ (f : ℕ → Proc). (f (parent k)).is_sleeping) e.1
            ∙ ap (λ (x : Proc). x.is_sleeping) at
            ∙ t.1;
        served =
            ap (λ (f : ℕ → Proc). (f (parent k)).wait) e.1 ∙ ap (λ (x : Proc). x.wait) at ∙ t.2;
        ended = (exit-ended ret k).0;
        value = (exit-ended ret k).1;
        left = e.2;
      },
    )

find_from-same :
    (f f' : ℕ → Proc) (ps : List ℕ) (pid : ℕ)
    → ((q : ℕ) → (f' q).pid ≡ (f q).pid)
    → find_from f' ps pid ≡ find_from f ps pid
unfolding find_from
find_from-same f f' [] pid same = refl
find_from-same f f' (p ∷ ps) pid same = rw (same p, find_from-same f f' ps pid same)

-- The numbers of the processes and the list of all of them after an end.
tell_parent-pid : (q : ℕ) (k : Kernel) (a : ℕ) → ((tell_parent q k).procs a).pid ≡ (k.procs a).pid
unfolding tell_parent wake
tell_parent-pid q k a = ground arith

tell_parent-all : (q : ℕ) (k : Kernel) → (tell_parent q k).all ≡ k.all
unfolding tell_parent wake
tell_parent-all q k = ground arith

ended-pid :
    (f g : ℕ → Proc) (p ret a : ℕ)
    → ((b : ℕ) → (g b).pid ≡ (f b).pid)
    → (store g p (record (g p) { ret = ret; defunc = true }) a).pid ≡ (f a).pid
ended-pid f g p ret a same = ground (arith, same a)

exit-pid : (ret : ℕ) (k : Kernel) (a : ℕ) → ((exit ret k).1.procs a).pid ≡ (k.procs a).pid
unfolding exit
exit-pid ret k a =
    let q = (current_proc k).parent in
    elim (Bool-cases (not (q == 0) && waits_for (k.procs q) (current_proc k))) [
      | inl e ↦
          rw e (ended-pid k.procs (tell_parent q k).procs k.current ret a (tell_parent-pid q k))
      | inr e ↦ rw e (ended-pid k.procs k.procs k.current ret a (λ b. refl))
    ]

exit-all : (ret : ℕ) (k : Kernel) → (exit ret k).1.all ≡ k.all
unfolding exit
exit-all ret k =
    let q = (current_proc k).parent in
    elim (Bool-cases (not (q == 0) && waits_for (k.procs q) (current_proc k))) [
      | inl e ↦ rw e (tell_parent-all q k)
      | inr e ↦ rw e
    ]

find-listed :
    (pid p : ℕ) (k : Kernel)
    → (k.procs p).pid ≢ pid
    → find pid (run_as p k) ≡ find_from k.procs k.all pid
unfolding find
find-listed pid p k other = rw (eq_of_ne (k.procs p).pid pid other)

waitpid-defunc :
    (pid stat_loc : ℕ) (k : Kernel) (c : ℕ)
    → is_pos pid ≡ true
    → find pid k ≡ c
    → c ≢ 0
    → (k.procs c).defunc ≡ true
    → waitpid pid stat_loc k ≡ (pid, some (k.procs c).ret, k)
unfolding waitpid
waitpid-defunc pid stat_loc k c pos e ne d = rw (pos, e, eq_of_ne c 0 ne, d)

-- After a process has ended with a value, `proc_waitpid` by another process for its number, which is
-- positive as an `int` and finds it, returns the number at once, with the value, and changes nothing.
pub waitpid-exit :
    (ret stat_loc : ℕ) (k : Kernel) (p : ℕ)
    → k.current ≢ 0
    → is_pos (current_proc k).pid ≡ true
    → (k.procs p).pid ≢ (current_proc k).pid
    → find_from k.procs k.all (current_proc k).pid ≡ k.current
    → let k' = run_as p (exit ret k).1 in
      waitpid (current_proc k).pid stat_loc k' ≡ ((current_proc k).pid, some ret, k')
waitpid-exit ret stat_loc k p ne pos other found =
    let pid = (current_proc k).pid in
    let after = (exit ret k).1 in
    waitpid-defunc pid stat_loc (run_as p after) k.current pos
      (find-listed pid p after (λ e. other (sym (exit-pid ret k p) ∙ e))
        ∙ ap (λ ps. find_from after.procs ps pid) (exit-all ret k)
        ∙ find_from-same k.procs after.procs k.all pid (exit-pid ret k)
        ∙ found)
      ne (exit-ended ret k).0
    ∙ ap (λ v. (pid, some v, run_as p after)) (exit-ended ret k).1
