-- ===== src/Procm/Fair.antt =====
-- `proc_shedule` called again and again: every process on the running list gets its turn.
use mein_os.Prelude.{
  ℕ, zero, suc, ◌+◌, ◌*◌, ◌≤◌, ◌<◌, ◌≡◌, sym, inl, inr, true, List, ◌∷◌, arith, ◌==◌, ==_iff,
  Bool-cases, length, contains,
}
use mein_os.Llist.Seq.{NoNull}
use mein_os.Procm.State.{Kernel}
use mein_os.Procm.Sched.{shedule}
use mein_os.Procm.Turn.{time, left, left-le-length, left_pos, Shares, turn, shedule-Shares, fewer}

abbrev pub shedule_times : ℕ → Kernel → Kernel
shedule_times zero k = k
shedule_times (suc n) k = shedule_times n (shedule k)

-- The process `q` runs after some calls, at most `bound` of them.
abbrev pub Runs : (bound q : ℕ) → Kernel → Type 0
Runs bound q k = (j : ℕ) × (j ≤ bound) × ((shedule_times j k).current ≡ q)

module _ (p : ℕ) (ps : List ℕ) (n : NoNull (p ∷ ps)) (q : ℕ) (on : contains q (p ∷ ps) ≡ true) where
  some_left : (k : Kernel) → Shares (p ∷ ps) k → 0 < left (time k) (p ∷ ps)
  some_left k s = left_pos (time k) (p ∷ ps) k.current s.on_list s.has_time

  later : (m : ℕ) (k : Kernel) → Runs m q (shedule k) → Runs (suc m) q k
  later m k r = (suc r.0, omega (arith, r.1), r.2)

  -- With time left, the process runs in this round.
  this_round :
      (m : ℕ) (k : Kernel)
      → Shares (p ∷ ps) k
      → left (time k) (p ∷ ps) ≤ m
      → time k q ≡ 1
      → Runs m q k
  this_round zero k s few mine = absurd (omega (arith, some_left k s, few))
  this_round (suc m) k s few mine = elim (Bool-cases (q == k.current)) [
    | inl e ↦ (0, omega arith, sym ((==_iff q k.current).0 e))
    | inr e ↦ elim (turn p ps n k s) [
      | inl t ↦ later m k (
          this_round m (shedule k) (shedule-Shares p ps n k s)
            (omega (arith, fewer p ps n k s t, few)) (ground (arith, t.used q, e, mine)))
      | inr t ↦
          let none = t.spent q (λ z. ground (arith, z, e)) on in absurd (omega (arith, none, mine))
    ]
  ]

  -- Without it, the process runs when the round is over.
  next_round :
      (m : ℕ) (k : Kernel)
      → Shares (p ∷ ps) k
      → left (time k) (p ∷ ps) ≤ m
      → Runs (m + length (p ∷ ps)) q k
  next_round zero k s few = absurd (omega (arith, some_left k s, few))
  next_round (suc m) k s few = elim (turn p ps n k s) [
    | inl t ↦
        let r = later (m + length (p ∷ ps)) k (
          next_round m (shedule k) (shedule-Shares p ps n k s)
            (omega (arith, fewer p ps n k s t, few))) in
        (r.0, omega (arith, r.1), r.2)
    | inr t ↦
        let r = later (length (p ∷ ps)) k (
          this_round (length (p ∷ ps)) (shedule k) (shedule-Shares p ps n k s)
            (left-le-length (time (shedule k)) (p ∷ ps)) (t.new_time q on)) in
        (r.0, omega (arith, r.1), r.2)
  ]

  -- The process that runs is on the running list and has time left, no process of the list has
  -- more than one tick left, and there is no NULL on the list. Then each process of the list runs
  -- after some calls of `proc_shedule`, at most twice as many as there are processes.
  pub shedule-Runs : (k : Kernel) → Shares (p ∷ ps) k → Runs (2 * length (p ∷ ps)) q k
  shedule-Runs k s =
      let r = next_round (length (p ∷ ps)) k s (left-le-length (time k) (p ∷ ps)) in
      (r.0, omega (arith, r.1), r.2)
