-- ===== src/Procm/Keep.antt =====
-- What sleeping, waking and scheduling leave of each process: who it is and where its memory is.
use mein_os.Prelude.{
  ℕ, ◌≡◌, refl, ◌∙◌, List, [], ◌∷◌, inl, inr, arith, ◌==◌, Bool-cases, true, false,
}
use mein_os.Procm.State.{Proc, Kernel, store}
use mein_os.Procm.Sched.{
  pick, refill, charge, choose, switch_from, shedule_on, shedule, sleep, wake, regs_save, regs_load,
}
use mein_os.Procm.Inv.{put_to_sleep}

pub record SameProcs (k k' : Kernel) : Type 0 where
  pub pid : (q : ℕ) → (k'.procs q).pid ≡ (k.procs q).pid
  pub addrspace : (q : ℕ) → (k'.procs q).addrspace ≡ (k.procs q).addrspace
  pub defunc : (q : ℕ) → (k'.procs q).defunc ≡ (k.procs q).defunc

trans : (a b c : Kernel) → SameProcs a b → SameProcs b c → SameProcs a c
trans a b c s t = record {
  pid = λ q. t.pid q ∙ s.pid q;
  addrspace = λ q. t.addrspace q ∙ s.addrspace q;
  defunc = λ q. t.defunc q ∙ s.defunc q;
}

refill-same :
    (ps : List ℕ) (f : ℕ → Proc) (q : ℕ)
    → ((refill ps f q).pid ≡ (f q).pid)
      × ((refill ps f q).addrspace ≡ (f q).addrspace)
      × ((refill ps f q).defunc ≡ (f q).defunc)
unfolding refill
refill-same [] f q = (refl, refl, refl)
refill-same (p ∷ ps) f q = elim (Bool-cases (p == 0)) [
  | inl e ↦ rw e (refl, refl, refl)
  | inr e ↦
      let rest = refill-same ps (store f p (record (f p) { ticks_rem = 1 })) q in
      rw e (rest.0 ∙ ground arith, rest.1 ∙ ground arith, rest.2 ∙ ground arith)
]

charge-SameProcs : (k : Kernel) → SameProcs k (charge k)
charge-SameProcs k = record {
  pid = λ q. ground arith;
  addrspace = λ q. ground arith;
  defunc = λ q. ground arith;
}

choose-SameProcs : (k : Kernel) → SameProcs k (choose k)
unfolding choose
choose-SameProcs k = elim (Bool-cases (pick k.procs k.running k.current == 0)) [
  | inl e ↦ rw e (record {
    pid = λ q. (refill-same k.running k.procs q).0;
    addrspace = λ q. (refill-same k.running k.procs q).1;
    defunc = λ q. (refill-same k.running k.procs q).2;
  })
  | inr e ↦ rw e (record { pid = λ q. refl; addrspace = λ q. refl; defunc = λ q. refl })
]

regs_save-SameProcs : (p : ℕ) (k : Kernel) → SameProcs k (regs_save p k)
unfolding regs_save
regs_save-SameProcs p k = record {
  pid = λ q. ground arith;
  addrspace = λ q. ground arith;
  defunc = λ q. ground arith;
}

switch_from-SameProcs : (old : ℕ) (k : Kernel) → SameProcs k (switch_from old k)
unfolding switch_from regs_save regs_load
switch_from-SameProcs old k = record {
  pid = λ q. ground arith;
  addrspace = λ q. ground arith;
  defunc = λ q. ground arith;
}

shedule_on-SameProcs : (rs ss : List ℕ) (k : Kernel) → SameProcs k (shedule_on rs ss k)
unfolding shedule_on
shedule_on-SameProcs [] [] k = record { pid = λ q. refl; addrspace = λ q. refl; defunc = λ q. refl }
shedule_on-SameProcs [] (p ∷ ps) k =
    let s = regs_save-SameProcs k.current k in
    record { pid = s.pid; addrspace = s.addrspace; defunc = s.defunc }
shedule_on-SameProcs (p ∷ ps) ss k = trans k (charge k) _ (charge-SameProcs k) (
    trans (charge k) (choose (charge k)) _ (choose-SameProcs (charge k))
      (switch_from-SameProcs k.current (choose (charge k))))

pub shedule-SameProcs : (k : Kernel) → SameProcs k (shedule k)
unfolding shedule
shedule-SameProcs k = shedule_on-SameProcs k.running k.sleeping k

flag-SameProcs :
    (p : ℕ) (k k' : Kernel)
    → k'.procs ≡ store k.procs p (record (k.procs p) { is_sleeping = true })
    → SameProcs k k'
flag-SameProcs p k k' e = record {
  pid = λ q. rw e (ground arith);
  addrspace = λ q. rw e (ground arith);
  defunc = λ q. rw e (ground arith);
}

pub sleep-SameProcs : (p : ℕ) (k : Kernel) → SameProcs k (sleep p k)
unfolding sleep
sleep-SameProcs p k = elim (Bool-cases (k.procs p).is_sleeping) [
  | inl e ↦ rw e (record { pid = λ q. refl; addrspace = λ q. refl; defunc = λ q. refl })
  | inr e ↦ elim (Bool-cases (p == k.current)) [
    | inl c ↦
        rw (e, c)
          (trans k (put_to_sleep p k) _ (flag-SameProcs p k _ refl)
            (shedule-SameProcs (put_to_sleep p k)))
    | inr c ↦ rw (e, c) (flag-SameProcs p k _ refl)
  ]
]

pub wake-SameProcs : (p : ℕ) (k : Kernel) → SameProcs k (wake p k)
unfolding wake
wake-SameProcs p k = record {
  pid = λ q. ground arith;
  addrspace = λ q. ground arith;
  defunc = λ q. ground arith;
}

-- After waking, the process does not sleep.
pub wake-awake : (p : ℕ) (k : Kernel) → ((wake p k).procs p).is_sleeping ≡ false
unfolding wake
wake-awake p k = ground arith
