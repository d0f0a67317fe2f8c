-- ===== src/Ipc/Sem/Op.antt =====
-- What one operation of `ipc_sem_op` does to the value, the waiting lists and the processes.
use mein_os.Prelude.{
  ℕ, ◌+◌, ◌-◌, ◌^◌, ◌<◌, ◌≤◌, ◌≡◌, refl, sym, ◌∙◌, ap, ◌≢◌, inl, inr, Bool, true, false, ◌&&◌, ◌||◌,
  List, [], ◌∷◌, arith, leb, ◌==◌, if◌then◌else◌, Bool-cases, bit_and,
}
use mathlib.Core.Path.{subst}
use mein_os.Llist.Mem.{eq_of_ne, eq_self}
use mein_os.Procm.State.{Kernel}
use mein_os.Procm.Sched.{wake, sleep}
use mein_os.Ipc.State.{
  Ipc, Sem, SemSet, Sleeper, put, current_proc, wake_all, minus_one, ipc_nowait, int_lt, int_le,
  int_neg, int_add,
}
use mein_os.Ipc.Sem.{
  sem_find, SemOp, Outcome, next, return, set_sem, set_kernel, touched, add_val, wake_fit,
  wake_waiters, op_negative, op_step, op_from, sem_op, and_then,
}

-- The signed tests at values of half the range.
pos_lt : (n : ℕ) → 0 < n → n < 2 ^ 31 → int_lt 0 n ≡ true
pos_lt n h k = ground arith

pos_not_lt : (n : ℕ) → n < 2 ^ 31 → int_lt n 0 ≡ false
pos_not_lt n k = ground arith

neg_lt : (n : ℕ) → 0 < n → n < 2 ^ 31 → int_lt (int_neg n) 0 ≡ true
neg_lt n h k = ground arith

neg_neg : (n : ℕ) → 0 < n → n < 2 ^ 31 → int_neg (int_neg n) ≡ n
neg_neg n h k = omega arith

le_true : (a b : ℕ) → a ≤ b → b < 2 ^ 31 → int_le a b ≡ true
le_true a b h k = ground arith

le_false : (a b : ℕ) → b < a → a < 2 ^ 31 → int_le a b ≡ false
le_false a b h k = ground arith

add_neg : (v n : ℕ) → 0 < n → n ≤ v → v < 2 ^ 31 → int_add v (int_neg n) ≡ v - n
add_neg v n p h k = omega arith

add_pos : (v n : ℕ) → v + n < 2 ^ 31 → int_add v n ≡ v + n
add_pos v n h = omega arith

-- The process sleeps on for less than the value: one of the sleepers that are woken.
abbrev pub fits : (p val : ℕ) → List Sleeper → Bool
fits p val [] = false
fits p val (w ∷ ws) = (w.proc == p && int_lt w.val val) || fits p val ws

wake-flag :
    (p q : ℕ) (k : Kernel)
    → ((wake p k).procs q).is_sleeping ≡ (if p == q then false else (k.procs q).is_sleeping)
unfolding wake
wake-flag p q k = ground arith

-- The branches of the flag, with the tests as variables.
flag_branches :
    (mine low later : Bool) (b : Bool)
    → (if later then false else (if low then (if mine then false else b) else b))
      ≡ (if (mine && low) || later then false else b)
flag_branches mine low later b = ground arith

wake_if-flag :
    (low : Bool) (p q : ℕ) (k : Kernel)
    → ((if low then wake p k else k).procs q).is_sleeping ≡ (
        if low
        then (if p == q then false else (k.procs q).is_sleeping)
        else (k.procs q).is_sleeping)
wake_if-flag true p q k = wake-flag p q k
wake_if-flag false p q k = refl

wake_fit-flag :
    (val : ℕ) (ws : List Sleeper) (k : Kernel) (q : ℕ)
    → ((wake_fit val ws k).procs q).is_sleeping
      ≡ (if fits q val ws then false else (k.procs q).is_sleeping)
unfolding wake_fit
wake_fit-flag val [] k q = refl
wake_fit-flag val (w ∷ ws) k q =
    wake_fit-flag val ws (if int_lt w.val val then wake w.proc k else k) q
    ∙ ap (λ b. if fits q val ws then false else b) (wake_if-flag (int_lt w.val val) w.proc q k)
    ∙ flag_branches (w.proc == q) (int_lt w.val val) (fits q val ws) (k.procs q).is_sleeping

-- The call returned `r` in a state that satisfies `P`.
abbrev pub Returned : ℕ → (Ipc → Type 0) → Outcome → Type 0
Returned r P (return r' s) = (r' ≡ r) × P s
Returned r P _ = ⊥

-- Semaphore `n` of the set at `q`.
abbrev pub sem_at : (q n : ℕ) → Ipc → Sem
sem_at q n s = (s.semsets q).sems n

put_self : {A : Type 0} (f : ℕ → A) (p : ℕ) (v : A) → put f p v p ≡ v
put_self f p v = rw (eq_self p)

sem_at-set : (q n : ℕ) (x : Sem) (s : Ipc) → sem_at q n (set_sem q n x s) ≡ x
sem_at-set q n x s =
    ap (λ (y : SemSet). y.sems n) (put_self s.semsets q _) ∙ put_self (s.semsets q).sems n x

-- What a positive operation leaves: the sum, nobody on `waitn`, and the mark of a sleeping process
-- exactly on those that had it and did not wait there for less than the new value.
abbrev pub Given : (q n by : ℕ) (s s' : Ipc) → Type 0
Given q n by s s' =
    ((sem_at q n s').val ≡ (sem_at q n s).val + by)
    × ((sem_at q n s').waitn ≡ [])
    × ((p : ℕ)
        → (s'.kernel.procs p).is_sleeping ≡ (
            if fits p ((sem_at q n s).val + by) (sem_at q n s).waitn
            then false
            else (s.kernel.procs p).is_sleeping))

wake_waiters-Given :
    (q n v : ℕ) (s : Ipc)
    → (sem_at q n s).val ≡ v
    → 0 < v
    → v < 2 ^ 31
    → ((sem_at q n (wake_waiters q n s)).val ≡ v)
      × ((sem_at q n (wake_waiters q n s)).waitn ≡ [])
      × ((p : ℕ)
          → ((wake_waiters q n s).kernel.procs p).is_sleeping
            ≡ (if fits p v (sem_at q n s).waitn then false else (s.kernel.procs p).is_sleeping))
unfolding wake_waiters
wake_waiters-Given q n v s e pos small =
    rw (e, eq_of_ne v 0 (omega arith), pos_lt v pos small)
      (
        ap (λ (y : Sem). y.val) kept,
        ap (λ (y : Sem). y.waitn) kept,
        λ p. wake_fit-flag v _ s.kernel p,
      )
  where
    x : Sem
    x = record (sem_at q n s) { val = v; waitn = [] }

    kept : sem_at q n (set_sem q n x (set_kernel (wake_fit v (sem_at q n s).waitn s.kernel) s)) ≡ x
    kept = sem_at-set q n x (set_kernel (wake_fit v (sem_at q n s).waitn s.kernel) s)

sem_at-touched :
    (q n time : ℕ) (s : Ipc)
    → sem_at q n (touched q n time s) ≡ record (sem_at q n s) { lopid = (current_proc s).pid }
sem_at-touched q n time s =
    ap (λ (y : SemSet). y.sems n) (put_self s.semsets q _) ∙ put_self (s.semsets q).sems n _

sem_at-add :
    (q n op time : ℕ) (s : Ipc)
    → sem_at q n (add_val q n op (touched q n time s))
      ≡ record (sem_at q n s) { val = int_add (sem_at q n s).val op; lopid = (current_proc s).pid }
sem_at-add q n op time s =
    sem_at-set q n _ (touched q n time s)
    ∙ ap (λ (y : Sem). record y { val = int_add y.val op }) (sem_at-touched q n time s)

wake_waiters-val : (q n : ℕ) (s : Ipc) → (sem_at q n (wake_waiters q n s)).val ≡ (sem_at q n s).val
unfolding wake_waiters
wake_waiters-val q n s = elim (Bool-cases ((sem_at q n s).val == 0)) [
  | inl e ↦ rw e (
      ap (λ (y : Sem). y.val)
        (sem_at-set q n _ (set_kernel (wake_all (sem_at q n s).waitz s.kernel) s)))
  | inr e ↦ elim (Bool-cases (int_lt 0 (sem_at q n s).val)) [
    | inl f ↦
        rw (e, f)
          (ap (λ (y : Sem). y.val)
            (sem_at-set q n _
              (set_kernel (wake_fit (sem_at q n s).val (sem_at q n s).waitn s.kernel) s)))
    | inr f ↦ rw (e, f) refl
  ]
]

-- The state of a process that waits for the value.
abbrev waiting : (q n need : ℕ) → Ipc → Ipc
waiting q n need s = set_kernel (sleep s.kernel.current s.kernel) (
    set_sem q n
      (record (sem_at q n s) {
        waitn = record { val = need; proc = s.kernel.current } ∷ (sem_at q n s).waitn;
      })
      s)

negative_takes :
    (q i : ℕ) (o : SemOp) (s : Ipc)
    → int_le (int_neg o.op) (sem_at q o.num s).val ≡ true
    → op_negative q i o s ≡ next (wake_waiters q o.num (add_val q o.num o.op s))
unfolding op_negative
negative_takes q i o s e = rw e

negative_waits :
    (q i : ℕ) (o : SemOp) (s : Ipc)
    → int_le (int_neg o.op) (sem_at q o.num s).val ≡ false
    → bit_and o.flags ipc_nowait ≡ 0
    → op_negative q i o s ≡ return i (waiting q o.num (int_neg o.op) s)
unfolding op_negative
negative_waits q i o s e may = rw (e, may)

-- One operation alone is the whole call.
op_one :
    (id : ℕ) (o : SemOp) (time : ℕ) (s s' : Ipc)
    → op_step id 0 o time s ≡ next s'
    → sem_op id (o ∷ []) time s ≡ return 0 s'
unfolding sem_op op_from
op_one id o time s s' e = ap (λ r. and_then r (λ t. op_from id 1 [] time t)) e

op_ends :
    (id : ℕ) (o : SemOp) (os : List SemOp) (time r : ℕ) (s s' : Ipc)
    → op_step id 0 o time s ≡ return r s'
    → sem_op id (o ∷ os) time s ≡ return r s'
unfolding sem_op op_from
op_ends id o os time r s s' e = ap (λ t. and_then t (λ u. op_from id 1 os time u)) e

-- Where the set is found and the number is in range, an operation works on the touched set.
module _ (id n op flags time q : ℕ) (s : Ipc) (ne : q ≢ 0) (e : sem_find minus_one id s ≡ q)
    (range : n < (s.semsets q).num) where
  abbrev o : SemOp
  o = record { num = n; op = op; flags = flags }

  in_range : leb (s.semsets q).num n ≡ false
  in_range = ground arith

  step_negative :
      int_lt op 0 ≡ true → op_step id 0 o time s ≡ op_negative q 0 o (touched q n time s)
  unfolding op_step
  step_negative neg = rw (e, eq_of_ne q 0 ne, in_range, neg)

  step_positive :
      int_lt op 0 ≡ false
      → int_lt 0 op ≡ true
      → op_step id 0 o time s ≡ next (wake_waiters q n (add_val q n op (touched q n time s)))
  unfolding op_step
  step_positive not_neg pos = rw (e, eq_of_ne q 0 ne, in_range, not_neg, pos)

  -- A positive operation alone returns 0. The value has grown by it, and `waitn` is empty. A process
  -- is marked as sleeping afterwards exactly where it was before and did not wait on `waitn` with a need
  -- below the new value; so one whose need is the new value stays marked. This holds for a value and
  -- an operation whose sum is an `int`.
  pub sem_op-gives :
      0 < op
      → (sem_at q n s).val + op < 2 ^ 31
      → Returned 0 (Given q n op s) (sem_op id (o ∷ []) time s)
  sem_op-gives pos small =
      subst (Returned 0 (Given q n op s)) (sym (op_one id o time s _ gone)) (refl, given)
    where
      s' : Ipc
      s' = add_val q n op (touched q n time s)

      gone : op_step id 0 o time s ≡ next (wake_waiters q n s')
      gone = step_positive (pos_not_lt op (omega arith)) (pos_lt op pos (omega arith))

      given : Given q n op s (wake_waiters q n s')
      given =
          let at = sem_at-add q n op time s in
          let g =
            wake_waiters-Given q n ((sem_at q n s).val + op) s'
              (ap (λ (y : Sem). y.val) at ∙ add_pos (sem_at q n s).val op small) (omega arith)
              small in
          (
            g.0,
            g.1,
            λ p.
                g.2 p
                ∙ ap
                    (λ (ws : List Sleeper).
                      if fits p ((sem_at q n s).val + op) ws
                      then false
                      else (s.kernel.procs p).is_sleeping)
                    (ap (λ (y : Sem). y.waitn) at),
          )

  -- An operation by less than nothing that the value does not cover and that may wait returns the
  -- index 0 of the operation: the value is as it was, the process is on `waitn` with its need, and it
  -- is put to sleep. This holds for a need that is a positive `int` and a value that is not negative.
  pub sem_op-waits :
      (need : ℕ)
      → 0 < need
      → need < 2 ^ 31
      → op ≡ int_neg need
      → (sem_at q n s).val < need
      → bit_and flags ipc_nowait ≡ 0
      → Returned 0
          (λ s'.
            ((sem_at q n s').val ≡ (sem_at q n s).val)
            × ((sem_at q n s').waitn
                ≡ record { val = need; proc = s.kernel.current } ∷ (sem_at q n s).waitn)
            × (s'.kernel ≡ sleep s.kernel.current s.kernel))
          (sem_op id (o ∷ []) time s)
  sem_op-waits need pos small is_op low may =
      subst
        (Returned 0 (λ s'.
          ((sem_at q n s').val ≡ (sem_at q n s).val)
          × ((sem_at q n s').waitn
              ≡ record { val = need; proc = s.kernel.current } ∷ (sem_at q n s).waitn)
          × (s'.kernel ≡ sleep s.kernel.current s.kernel)))
        (sym (op_ends id o [] time 0 s _ ends))
        (
          refl,
          (
            ap (λ (y : Sem). y.val) there ∙ ap (λ (y : Sem). y.val) at,
            ap (λ (y : Sem). y.waitn) there
                ∙ ap (λ (y : Sem). record { val = int_neg op; proc = s.kernel.current } ∷ y.waitn)
                    at
                ∙ ap (λ x. record { val = x; proc = s.kernel.current } ∷ (sem_at q n s).waitn)
                    negated,
            refl,
          ),
        )
    where
      s' : Ipc
      s' = touched q n time s

      negated : int_neg op ≡ need
      negated = ap (λ x. int_neg x) is_op ∙ neg_neg need pos small

      is_neg : int_lt op 0 ≡ true
      is_neg = ap (λ x. int_lt x 0) is_op ∙ neg_lt need pos small

      at : sem_at q n s' ≡ record (sem_at q n s) { lopid = (current_proc s).pid }
      at = sem_at-touched q n time s

      too_much : int_le (int_neg op) (sem_at q n s').val ≡ false
      too_much =
          ap (λ x. int_le x (sem_at q n s').val) negated
          ∙ ap (λ (y : Sem). int_le need y.val) at
          ∙ le_false need (sem_at q n s).val low small

      after : Sem
      after = record (sem_at q n s') {
        waitn = record { val = int_neg op; proc = s.kernel.current } ∷ (sem_at q n s').waitn;
      }

      there : sem_at q n (waiting q n (int_neg op) s') ≡ after
      there = sem_at-set q n after s'

      ends : op_step id 0 o time s ≡ return 0 (waiting q n (int_neg op) s')
      ends = step_negative is_neg ∙ negative_waits q 0 o s' too_much may

  -- An operation by less than nothing that the value covers returns 0 and takes its part of the
  -- value, whoever waits.
  pub sem_op-takes :
      (need : ℕ)
      → 0 < need
      → op ≡ int_neg need
      → need ≤ (sem_at q n s).val
      → (sem_at q n s).val < 2 ^ 31
      → Returned 0
          (λ s'. (sem_at q n s').val ≡ (sem_at q n s).val - need)
          (sem_op id (o ∷ []) time s)
  sem_op-takes need pos is_op enough small =
      subst (Returned 0 (λ s'. (sem_at q n s').val ≡ (sem_at q n s).val - need))
        (sym (op_one id o time s _ goes_on))
        (
          refl,
          wake_waiters-val q n (add_val q n op s')
              ∙ ap (λ (y : Sem). y.val) (sem_at-add q n op time s)
              ∙ ap (λ x. int_add (sem_at q n s).val x) is_op
              ∙ add_neg (sem_at q n s).val need pos enough small,
        )
    where
      s' : Ipc
      s' = touched q n time s

      low : need < 2 ^ 31
      low = omega arith

      at : (sem_at q n s').val ≡ (sem_at q n s).val
      at = ap (λ (y : Sem). y.val) (sem_at-touched q n time s)

      negated : int_neg op ≡ need
      negated = ap (λ x. int_neg x) is_op ∙ neg_neg need pos low

      covers : int_le (int_neg op) (sem_at q n s').val ≡ true
      covers =
          ap (λ x. int_le x (sem_at q n s').val) negated
          ∙ ap (λ x. int_le need x) at
          ∙ le_true need (sem_at q n s).val enough small

      is_neg : int_lt op 0 ≡ true
      is_neg = ap (λ x. int_lt x 0) is_op ∙ neg_lt need pos low

      goes_on : op_step id 0 o time s ≡ next (wake_waiters q n (add_val q n op s'))
      goes_on = step_negative is_neg ∙ negative_takes q 0 o s' covers
