-- ===== src/Procm/Switch.antt =====
-- What `proc_shedule` chooses, and the context that it leaves.
use mein_os.Prelude.{
  ℕ, ◌<◌, ◌≡◌, refl, sym, ◌∙◌, ap, ◌≢◌, ◌⊎◌, inl, inr, true, false, List, [], ◌∷◌, arith, ltb, ◌==◌,
  if◌then◌else◌, Bool-cases, contains,
}
use mathlib.Core.Path.{subst}
use mein_os.Llist.Seq
use mein_os.Llist.Seq.{NoNull}
use mein_os.Procm.State.{Proc, Kernel, halted, store, nice2ticks}
use mein_os.Procm.Sched.{
  pick, refill, choose, charge, switch_from, shedule_on, shedule, regs_save, regs_load,
}

pub pick-cons :
    (f : ℕ → Proc) (p : ℕ) (ps : List ℕ) (c : ℕ)
    → p ≢ 0
    → pick f (p ∷ ps) c ≡ pick f ps (if ltb 0 (f p).ticks_rem then p else c)
unfolding pick
pick-cons f p ps c ne = ground arith

-- A process that the search finds is on the list and has time left.
abbrev pub Found : (ℕ → Proc) → List ℕ → ℕ → Type 0
Found f ps q = (contains q ps ≡ true) × (0 < (f q).ticks_rem)

Found-cons : (f : ℕ → Proc) (p q : ℕ) (ps : List ℕ) → Found f ps q → Found f (p ∷ ps) q
Found-cons f p q ps h = ground arith

pub pick-nil : (f : ℕ → Proc) (c : ℕ) → pick f [] c ≡ c
unfolding pick
pick-nil f c = refl

pub pick-cases :
    (f : ℕ → Proc) (ps : List ℕ) (c : ℕ) → NoNull ps → (pick f ps c ≡ c) ⊎ Found f ps (pick f ps c)
pick-cases f [] c n = inl (pick-nil f c)
pick-cases f (p ∷ ps) c n = elim (Bool-cases (ltb 0 (f p).ticks_rem)) [
  | inl e ↦
      subst Goal (sym (step ∙ ap (λ b. pick f ps (if b then p else c)) e))
        (elim (pick-cases f ps p n.1) [
          | inl same ↦ inr (subst (Found f (p ∷ ps)) (sym same) (ground arith))
          | inr found ↦ inr (Found-cons f p _ ps found)
        ])
  | inr e ↦
      subst Goal (sym (step ∙ ap (λ b. pick f ps (if b then p else c)) e))
        (elim (pick-cases f ps c n.1) [
          | inl same ↦ inl same
          | inr found ↦ inr (Found-cons f p _ ps found)
        ])
]
  where
    Goal : ℕ → Type 0
    Goal r = (r ≡ c) ⊎ Found f (p ∷ ps) r

    step : pick f (p ∷ ps) c ≡ pick f ps (if ltb 0 (f p).ticks_rem then p else c)
    step = pick-cons f p ps c n.0

pub refill-ticks :
    (ps : List ℕ) (f : ℕ → Proc) (q : ℕ)
    → NoNull ps
    → (refill ps f q).ticks_rem ≡ (if contains q ps then 1 else (f q).ticks_rem)
unfolding refill
refill-ticks [] f q n = refl
refill-ticks (p ∷ ps) f q n = rw p_test (refill-ticks ps _ q n.1 ∙ ground arith)
  where
    p_test : (p == 0) ≡ false
    p_test = ground (arith, n.0)

-- The process chosen from a list that is not empty is on it, and has time left.
pub record Chosen (rs : List ℕ) (k : Kernel) : Type 0 where
  pub on_list : contains k.current rs ≡ true
  pub has_time : 0 < (k.procs k.current).ticks_rem

choose-Chosen :
    (p : ℕ) (ps : List ℕ) (k : Kernel)
    → k.running ≡ p ∷ ps
    → NoNull (p ∷ ps)
    → k.current ≡ 0
    → Chosen (p ∷ ps) (choose k)
unfolding choose Seq.get
choose-Chosen p ps k e n idle =
    rw (e, idle)
      (elim (Bool-cases (pick k.procs (p ∷ ps) 0 == 0)) [
        | inl none_left ↦ rw none_left (record {
          on_list = ground arith;
          has_time = rw (refill-ticks (p ∷ ps) k.procs p n) (ground arith);
        })
        | inr one_left ↦ rw one_left (elim (pick-cases k.procs (p ∷ ps) 0 n) [
          | inl same ↦ absurd (ground arith)
          | inr found ↦ record { on_list = found.0; has_time = found.1 }
        ])
      ])

pub charge-current : (k : Kernel) → (charge k).current ≡ 0
charge-current k = ground arith

pub charge-running : (k : Kernel) → (charge k).running ≡ k.running
charge-running k = ground arith

pub shedule-cons :
    (p : ℕ) (ps : List ℕ) (k : Kernel)
    → k.running ≡ p ∷ ps
    → shedule k ≡ switch_from k.current (choose (charge k))
unfolding shedule shedule_on
shedule-cons p ps k e = ap (λ r. shedule_on r k.sleeping k) e

switch_from-Chosen :
    (rs : List ℕ) (old : ℕ) (k : Kernel) → Chosen rs k → Chosen rs (switch_from old k)
unfolding switch_from regs_save
switch_from-Chosen rs old k c = record { on_list = ground arith; has_time = ground arith }

-- With a process on the running list, and no NULL on it, the process that is current after `proc_shedule` is on the
-- list and has time left in its slice.
pub shedule-Chosen :
    (p : ℕ) (ps : List ℕ) (k : Kernel)
    → k.running ≡ p ∷ ps
    → NoNull (p ∷ ps)
    → Chosen (p ∷ ps) (shedule k)
shedule-Chosen p ps k e n = subst (Chosen (p ∷ ps)) (sym (shedule-cons p ps k e)) (
    switch_from-Chosen (p ∷ ps) k.current (choose (charge k))
      (choose-Chosen p ps (charge k) (charge-running k ∙ e) n (charge-current k)))

-- What choosing leaves alone: the contexts of all processes and of the processor.
record SameContext (k k' : Kernel) : Type 0 where
  registers : (q : ℕ) → (k'.procs q).registers ≡ (k.procs q).registers
  addrspace : (q : ℕ) → (k'.procs q).addrspace ≡ (k.procs q).addrspace
  curregs : k'.curregs ≡ k.curregs
  curpd : k'.curpd ≡ k.curpd

refill-context :
    (ps : List ℕ) (f : ℕ → Proc) (q : ℕ)
    → ((refill ps f q).registers ≡ (f q).registers) × ((refill ps f q).addrspace ≡ (f q).addrspace)
unfolding refill
refill-context [] f q = (refl, refl)
refill-context (p ∷ ps) f q =
    let g = store f p (record (f p) { ticks_rem = nice2ticks (f p).nice }) in
    let rest = refill-context ps g q in
    elim (Bool-cases (p == 0)) [
      | inl e ↦ rw e (refl, refl)
      | inr e ↦ rw e (rest.0 ∙ ground arith, rest.1 ∙ ground arith)
    ]

charge-context : (k : Kernel) → SameContext k (charge k)
charge-context k = record {
  registers = λ q. ground arith;
  addrspace = λ q. ground arith;
  curregs = ground arith;
  curpd = ground arith;
}

choose-context : (k : Kernel) → SameContext k (choose k)
unfolding choose
choose-context k = elim (Bool-cases (pick k.procs k.running k.current == 0)) [
  | inl e ↦ rw e (record {
    registers = λ q. (refill-context k.running k.procs q).0;
    addrspace = λ q. (refill-context k.running k.procs q).1;
    curregs = refl;
    curpd = refl;
  })
  | inr e ↦
      rw e (record { registers = λ q. refl; addrspace = λ q. refl; curregs = refl; curpd = refl })
]

-- The context after a switch from `old`: the registers of the interrupted context are saved for
-- `old`, those of the process that runs now are loaded, and so is its address space.
pub record Switched (old : ℕ) (k k' : Kernel) : Type 0 where
  pub saved : (k'.procs old).registers ≡ k.curregs
  pub loaded : k'.curregs ≡ (k.procs k'.current).registers
  pub addrspace : k'.curpd ≡ (k.procs k'.current).addrspace
  pub others : (q : ℕ) → q ≢ old → (k'.procs q).registers ≡ (k.procs q).registers

switch_from-Switched :
    (old : ℕ) (k : Kernel) → old ≢ 0 → old ≢ k.current → Switched old k (switch_from old k)
unfolding switch_from regs_save regs_load
switch_from-Switched old k ne differs = record {
  saved = ground arith;
  loaded = ground arith;
  addrspace = ground arith;
  others = λ q h. ground arith;
}

Switched-after :
    (old : ℕ) (k k' k'' : Kernel) → SameContext k k' → Switched old k' k'' → Switched old k k''
Switched-after old k k' k'' c s = record {
  saved = s.saved ∙ c.curregs;
  loaded = s.loaded ∙ c.registers k''.current;
  addrspace = s.addrspace ∙ c.addrspace k''.current;
  others = λ q h. s.others q h ∙ c.registers q;
}

pub switch_from-current : (old : ℕ) (k : Kernel) → (switch_from old k).current ≡ k.current
unfolding switch_from regs_save regs_load
switch_from-current old k = ground arith

-- Where `proc_shedule` takes the processor from one process and gives it to another, the context of
-- the first is saved, that of the second is loaded, and the saved registers of no other process
-- change.
pub shedule-Switched :
    (p : ℕ) (ps : List ℕ) (k : Kernel)
    → k.running ≡ p ∷ ps
    → k.current ≢ 0
    → k.current ≢ (shedule k).current
    → Switched k.current k (shedule k)
shedule-Switched p ps k e ne differs =
    let mid = choose (charge k) in
    let same = shedule-cons p ps k e in
    subst (Switched k.current k) (sym same) (
      Switched-after k.current k (charge k) (switch_from k.current mid) (charge-context k) (
        Switched-after k.current (charge k) mid (switch_from k.current mid)
          (choose-context (charge k))
          (switch_from-Switched k.current mid ne λ h. differs (
            h
            ∙ sym (switch_from-current k.current mid)
            ∙ ap (λ (j : Kernel). j.current) (sym same)))))

-- With no process on the running list but one asleep, `proc_shedule` leaves none current, halts the
-- processor, and saves the registers at the address `proc_current`, also where that is NULL.
pub shedule_idle :
    (k : Kernel) (q : ℕ) (qs : List ℕ)
    → k.running ≡ []
    → k.sleeping ≡ q ∷ qs
    → ((shedule k).cpu ≡ halted)
      × ((shedule k).current ≡ 0)
      × (((shedule k).procs k.current).registers ≡ k.curregs)
unfolding shedule shedule_on regs_save
shedule_idle k q qs e e' =
    subst (λ r. Idle (shedule_on r k.sleeping k)) (sym e)
      (subst (λ r. Idle (shedule_on [] r k)) (sym e') (refl, refl, ground arith))
  where
    Idle : Kernel → Type 0
    Idle j = (j.cpu ≡ halted) × (j.current ≡ 0) × ((j.procs k.current).registers ≡ k.curregs)
