-- ===== src/Procm/Inv.antt =====
-- The invariant of the process lists, and that sleeping, waking and scheduling keep it.
use mein_os.Prelude.{
  ℕ, suc, ◌+◌, ◌^◌, ◌<◌, ◌≡◌, refl, sym, ◌∙◌, ap, ◌≢◌, inl, inr, true, false, List, [], ◌∷◌, arith,
  ◌==◌, Bool-cases, length, contains,
}
use mein_os.Llist.Seq
use mein_os.Llist.Seq.{NoNull, delete, erase_lem}
use mein_os.Llist.Delete.{
  Distinct, contains-delete, NoNull-delete, Distinct-delete, length-delete_le,
}
use mein_os.Procm.State.{Proc, Kernel, store}
use mein_os.Procm.Sched.{
  pick, refill, shedule_on, choose, switch_from, shedule, sleep, wake, charge, regs_save,
}

-- Each list holds distinct structures, and the flag of a structure tells the list that it is on.
pub record IsValid (k : Kernel) : Type 0 where
  pub running_nonnull : NoNull k.running
  pub sleeping_nonnull : NoNull k.sleeping
  pub running_distinct : Distinct k.running
  pub sleeping_distinct : Distinct k.sleeping
  pub awake : (p : ℕ) → contains p k.running ≡ true → (k.procs p).is_sleeping ≡ false
  pub asleep : (p : ℕ) → contains p k.sleeping ≡ true → (k.procs p).is_sleeping ≡ true
  pub room : length k.running + length k.sleeping < 2 ^ 30

-- `proc_wake` of a process keeps the invariant, whether it sleeps or not. This holds where the
-- running and the sleeping processes are fewer than 2 ^ 30 - 1.
pub wake-IsValid :
    (p : ℕ) (k : Kernel)
    → IsValid k
    → p ≢ 0
    → suc (length k.running + length k.sleeping) < 2 ^ 30
    → IsValid (wake p k)
unfolding wake
wake-IsValid p k v ne room = elim (Bool-cases (k.procs p).is_sleeping) [
  | inr e ↦ rw e v
  | inl e ↦
      let lem = (erase_lem k.sleeping p v.sleeping_nonnull (omega arith)).0 in
      rw (e, lem)
        (record {
          running_nonnull = (ne, v.running_nonnull);
          sleeping_nonnull = NoNull-delete p k.sleeping v.sleeping_nonnull;
          running_distinct = (ground (arith, v.awake p), v.running_distinct);
          sleeping_distinct = Distinct-delete p k.sleeping v.sleeping_distinct;
          awake = λ q h. ground (arith, v.awake q);
          asleep =
              λ q h. ground (arith, v.asleep q, contains-delete q p k.sleeping v.sleeping_distinct);
          room = omega (arith, length-delete_le p k.sleeping);
        })
]

-- What scheduling leaves alone: the lists, and the flags of all processes.
pub record SameLists (k k' : Kernel) : Type 0 where
  pub running : k'.running ≡ k.running
  pub sleeping : k'.sleeping ≡ k.sleeping
  pub flags : (q : ℕ) → (k'.procs q).is_sleeping ≡ (k.procs q).is_sleeping

pub IsValid-same : (k k' : Kernel) → SameLists k k' → IsValid k → IsValid k'
IsValid-same k k' s v = record {
  running_nonnull = rw s.running v.running_nonnull;
  sleeping_nonnull = rw s.sleeping v.sleeping_nonnull;
  running_distinct = rw s.running v.running_distinct;
  sleeping_distinct = rw s.sleeping v.sleeping_distinct;
  awake = λ q h. s.flags q ∙ v.awake q (ap (contains q) (sym s.running) ∙ h);
  asleep = λ q h. s.flags q ∙ v.asleep q (ap (contains q) (sym s.sleeping) ∙ h);
  room = rw (s.running, s.sleeping) v.room;
}

SameLists-trans : (a b c : Kernel) → SameLists a b → SameLists b c → SameLists a c
SameLists-trans a b c s t = record {
  running = t.running ∙ s.running;
  sleeping = t.sleeping ∙ s.sleeping;
  flags = λ q. t.flags q ∙ s.flags q;
}

refill-flag : (ps : List ℕ) (f : ℕ → Proc) (q : ℕ) → (refill ps f q).is_sleeping ≡ (f q).is_sleeping
unfolding refill
refill-flag [] f q = refl
refill-flag (p ∷ ps) f q = elim (Bool-cases (p == 0)) [
  | inl e ↦ rw e
  | inr e ↦ rw e (refill-flag ps _ q ∙ ground arith)
]

charge-same : (k : Kernel) → SameLists k (charge k)
charge-same k = record {
  running = ground arith;
  sleeping = ground arith;
  flags = λ q. ground arith;
}

choose-same : (k : Kernel) → SameLists k (choose k)
unfolding choose
choose-same k = elim (Bool-cases (pick k.procs k.running k.current == 0)) [
  | inl e ↦ rw e (record { running = refl; sleeping = refl; flags = refill-flag k.running k.procs })
  | inr e ↦ rw e (record { running = refl; sleeping = refl; flags = λ q. refl })
]

regs_save-same : (p : ℕ) (k : Kernel) → SameLists k (regs_save p k)
unfolding regs_save
regs_save-same p k = record { running = refl; sleeping = refl; flags = λ q. ground arith }

switch_from-same : (old : ℕ) (k : Kernel) → SameLists k (switch_from old k)
unfolding switch_from
switch_from-same old k = record {
  running = ground arith;
  sleeping = ground arith;
  flags = λ q. ground arith;
}

shedule_on-same : (rs ss : List ℕ) (k : Kernel) → SameLists k (shedule_on rs ss k)
unfolding shedule_on
shedule_on-same [] [] k = record { running = refl; sleeping = refl; flags = λ q. refl }
shedule_on-same [] (p ∷ ps) k =
    let s = regs_save-same k.current k in
    record { running = s.running; sleeping = s.sleeping; flags = s.flags }
shedule_on-same (p ∷ ps) ss k = SameLists-trans k (charge k) _ (charge-same k) (
    SameLists-trans (charge k) (choose (charge k)) _ (choose-same (charge k))
      (switch_from-same k.current (choose (charge k))))

pub shedule-same : (k : Kernel) → SameLists k (shedule k)
unfolding shedule
shedule-same k = shedule_on-same k.running k.sleeping k

-- `proc_shedule` keeps the invariant.
pub shedule-IsValid : (k : Kernel) → IsValid k → IsValid (shedule k)
shedule-IsValid k v = IsValid-same k (shedule k) (shedule-same k) v

abbrev pub put_to_sleep : ℕ → Kernel → Kernel
put_to_sleep p k = record k {
  running = Seq.erase k.running p;
  sleeping = p ∷ k.sleeping;
  procs = store k.procs p (record (k.procs p) { is_sleeping = true });
}

put_to_sleep-IsValid :
    (p : ℕ) (k : Kernel)
    → IsValid k
    → p ≢ 0
    → suc (length k.running + length k.sleeping) < 2 ^ 30
    → (k.procs p).is_sleeping ≡ false
    → IsValid (put_to_sleep p k)
put_to_sleep-IsValid p k v ne room e =
    rw (erase_lem k.running p v.running_nonnull (omega arith)).0 (record {
      running_nonnull = NoNull-delete p k.running v.running_nonnull;
      sleeping_nonnull = (ne, v.sleeping_nonnull);
      running_distinct = Distinct-delete p k.running v.running_distinct;
      sleeping_distinct = (ground (arith, v.asleep p), v.sleeping_distinct);
      awake = λ q h. ground (arith, v.awake q, contains-delete q p k.running v.running_distinct);
      asleep = λ q h. ground (arith, v.asleep q);
      room = omega (arith, length-delete_le p k.running);
    })

-- `proc_sleep` of a process keeps the invariant, also where it is the current one and another is
-- scheduled. This holds where the running and the sleeping processes are fewer than 2 ^ 30 - 1.
pub sleep-IsValid :
    (p : ℕ) (k : Kernel)
    → IsValid k
    → p ≢ 0
    → suc (length k.running + length k.sleeping) < 2 ^ 30
    → IsValid (sleep p k)
unfolding sleep
sleep-IsValid p k v ne room = elim (Bool-cases (k.procs p).is_sleeping) [
  | inl e ↦ rw e v
  | inr e ↦
      let v' = put_to_sleep-IsValid p k v ne room e in
      rw e (elim (Bool-cases (p == k.current)) [
        | inl c ↦ rw c (shedule-IsValid (put_to_sleep p k) v')
        | inr c ↦ rw c v'
      ])
]
