-- ===== src/Procm/Turn.antt =====
-- One call of `proc_shedule` among processes that share the time: the turn passes on, or a new round
-- begins.
use mein_os.Prelude.{
  ℕ, ◌+◌, ◌≤◌, ◌<◌, ◌≡◌, sym, ◌∙◌, ap, ◌≢◌, ◌⊎◌, inl, inr, true, List, [], ◌∷◌, arith, ltb, ◌==◌,
  ==_iff, if◌then◌else◌, Bool-cases, length, contains,
}
use mathlib.Core.Path.{subst}
use mein_os.Llist.Mem.{eq_of_ne}
use mein_os.Llist.Seq
use mein_os.Llist.Seq.{NoNull}
use mein_os.Procm.State.{Proc, Kernel}
use mein_os.Procm.Sched.{pick, refill, choose, charge, switch_from, shedule, regs_save, regs_load}
use mein_os.Procm.Switch.{
  shedule-Chosen, shedule-cons, pick-cons, pick-nil, refill-ticks, charge-running,
}

-- The time that a process has left
abbrev pub time : Kernel → ℕ → ℕ
time k q = (k.procs q).ticks_rem

-- The processes of a list that have time left
abbrev pub left : (ℕ → ℕ) → List ℕ → ℕ
left t [] = 0
left t (p ∷ ps) = (if ltb 0 (t p) then 1 else 0) + left t ps

pub left-le-length : (t : ℕ → ℕ) (ps : List ℕ) → left t ps ≤ length ps
left-le-length t [] = omega arith
left-le-length t (p ∷ ps) = ground (arith, left-le-length t ps)

pub left_pos : (t : ℕ → ℕ) (ps : List ℕ) (c : ℕ) → contains c ps ≡ true → 0 < t c → 0 < left t ps
left_pos t [] c on h = ground (arith, on)
left_pos t (p ∷ ps) c on h = elim (Bool-cases (p == c)) [
  | inl e ↦ ground (arith, (==_iff p c).0 e, h)
  | inr e ↦ let rest : contains c ps ≡ true = rw e at on in ground (arith, left_pos t ps c rest h)
]

-- `u` is `t` but for the time of `c`, which is used up.
abbrev Used : (c : ℕ) (t u : ℕ → ℕ) → Type 0
Used c t u = (q : ℕ) → u q ≡ (if q == c then 0 else t q)

left-Used_le : (c : ℕ) (t u : ℕ → ℕ) (ps : List ℕ) → Used c t u → left u ps ≤ left t ps
left-Used_le c t u [] h = omega arith
left-Used_le c t u (p ∷ ps) h = ground (arith, h p, left-Used_le c t u ps h)

left-Used :
    (c : ℕ) (t u : ℕ → ℕ) (ps : List ℕ)
    → Used c t u
    → 0 < t c
    → contains c ps ≡ true
    → left u ps < left t ps
left-Used c t u [] h pos on = ground (arith, on)
left-Used c t u (p ∷ ps) h pos on = elim (Bool-cases (p == c)) [
  | inl e ↦ ground (arith, h p, left-Used_le c t u ps h, (==_iff p c).0 e, pos)
  | inr e ↦
      let rest : contains c ps ≡ true = rw e at on in
      ground (arith, h p, left-Used c t u ps h pos rest)
]

pick-none :
    (f : ℕ → Proc) (ps : List ℕ) (c : ℕ)
    → NoNull ps
    → pick f ps c ≡ 0
    → (c ≡ 0) × ((q : ℕ) → contains q ps ≡ true → (f q).ticks_rem ≡ 0)
pick-none f [] c n e = (sym (pick-nil f c) ∙ e, λ q on. ground (arith, on))
pick-none f (p ∷ ps) c n e =
    let rest =
      pick-none f ps (if ltb 0 (f p).ticks_rem then p else c) n.1
        (sym (pick-cons f p ps c n.0) ∙ e) in
    (ground (arith, rest.0, n.0), λ q on. ground (arith, rest.0, n.0, on, rest.1 q))

switch_from-time : (old : ℕ) (k : Kernel) (q : ℕ) → time (switch_from old k) q ≡ time k q
unfolding switch_from regs_save regs_load
switch_from-time old k q = ground arith

switch_from-running : (old : ℕ) (k : Kernel) → (switch_from old k).running ≡ k.running
unfolding switch_from regs_save regs_load
switch_from-running old k = ground arith

choose-running : (k : Kernel) → (choose k).running ≡ k.running
unfolding choose
choose-running k = ground arith

-- A process of the list runs, and no slice is longer than one tick, which is what each gets.
pub record Shares (rs : List ℕ) (k : Kernel) : Type 0 where
  pub running : k.running ≡ rs
  pub on_list : contains k.current rs ≡ true
  pub has_time : 0 < time k k.current
  pub slices : (q : ℕ) → contains q rs ≡ true → time k q ≤ 1

-- The turn passes on: the process that ran has used up its time.
pub record Passed (rs : List ℕ) (k k' : Kernel) : Type 0 where
  pub used : (q : ℕ) → time k' q ≡ (if q == k.current then 0 else time k q)

-- A new round begins: nobody had time left but the process that ran, and now all have.
pub record Refilled (rs : List ℕ) (k k' : Kernel) : Type 0 where
  pub spent : (q : ℕ) → q ≢ k.current → contains q rs ≡ true → time k q ≡ 0
  pub new_time : (q : ℕ) → contains q rs ≡ true → time k' q ≡ 1

contains-ne : (q : ℕ) (ps : List ℕ) → NoNull ps → contains q ps ≡ true → q ≢ 0
contains-ne q [] n on = ground (arith, on)
contains-ne q (p ∷ ps) n on = λ e. elim (Bool-cases (p == q)) [
  | inl t ↦ n.0 ((==_iff p q).0 t ∙ e)
  | inr t ↦ contains-ne q ps n.1 (rw t at on) e
]

charge-time :
    (k : Kernel)
    → k.current ≢ 0
    → time k k.current ≡ 1
    → (q : ℕ) → time (charge k) q ≡ (if q == k.current then 0 else time k q)
charge-time k ne one q = ground (arith, ne, one)

choose-found :
    (k : Kernel)
    → pick k.procs k.running k.current ≢ 0
    → choose k ≡ record k { current = pick k.procs k.running k.current }
unfolding choose
choose-found k ne = rw (eq_of_ne (pick k.procs k.running k.current) 0 ne)

choose-refill :
    (k : Kernel)
    → pick k.procs k.running k.current ≡ 0
    → choose k ≡ record k { procs = refill k.running k.procs; current = Seq.get k.running 0 }
unfolding choose
choose-refill k e = rw e

module _ (p : ℕ) (ps : List ℕ) (n : NoNull (p ∷ ps)) (k : Kernel) (s : Shares (p ∷ ps) k) where
  abbrev rs : List ℕ
  rs = p ∷ ps

  current-ne : k.current ≢ 0
  current-ne = contains-ne k.current rs n s.on_list

  one_tick : time k k.current ≡ 1
  one_tick = omega (arith, s.has_time, s.slices k.current s.on_list)

  shedule-time : (q : ℕ) → time (shedule k) q ≡ time (choose (charge k)) q
  shedule-time q =
      ap (λ (j : Kernel). time j q) (shedule-cons p ps k s.running)
      ∙ switch_from-time k.current (choose (charge k)) q

  shedule-running : (shedule k).running ≡ rs
  shedule-running =
      ap (λ (j : Kernel). j.running) (shedule-cons p ps k s.running)
      ∙ switch_from-running k.current (choose (charge k))
      ∙ choose-running (charge k)
      ∙ charge-running k
      ∙ s.running

  same_list : (charge k).running ≡ rs
  same_list = charge-running k ∙ s.running

  refilled :
      pick (charge k).procs (charge k).running (charge k).current ≡ 0 → Refilled rs k (shedule k)
  refilled e =
      let nobody =
        pick-none (charge k).procs rs (charge k).current n
          (ap (λ l. pick (charge k).procs l (charge k).current) (sym same_list) ∙ e) in
      record {
        spent =
            λ q other on. ground (arith, other, charge-time k current-ne one_tick q, nobody.1 q on);
        new_time = λ q on.
            shedule-time q
            ∙ ap (λ (j : Kernel). time j q) (choose-refill (charge k) e)
            ∙ refill-ticks (charge k).running (charge k).procs q (subst NoNull (sym same_list) n)
            ∙ ap (λ l. if contains q l then 1 else time (charge k) q) same_list
            ∙ rw on;
      }

  pub turn : Passed rs k (shedule k) ⊎ Refilled rs k (shedule k)
  turn = elim (Bool-cases (pick (charge k).procs (charge k).running (charge k).current == 0)) [
    | inl e ↦ inr (refilled ((==_iff _ 0).0 e))
    | inr e ↦ inl (record {
      used = λ q.
          shedule-time q
          ∙ ap (λ (j : Kernel). time j q) (choose-found (charge k) (λ z. ground (arith, z, e)))
          ∙ charge-time k current-ne one_tick q;
    })
  ]

  slices-turn :
      Passed rs k (shedule k) ⊎ Refilled rs k (shedule k)
      → (q : ℕ) → contains q rs ≡ true
      → time (shedule k) q ≤ 1
  slices-turn (inl t) q on = ground (arith, t.used q, s.slices q on)
  slices-turn (inr t) q on = omega (arith, t.new_time q on)

  pub shedule-Shares : Shares rs (shedule k)
  shedule-Shares =
      let c = shedule-Chosen p ps k s.running n in
      record {
        running = shedule-running;
        on_list = c.on_list;
        has_time = c.has_time;
        slices = slices-turn turn;
      }

  -- With less time left in the list after the turn passed on
  pub fewer : Passed rs k (shedule k) → left (time (shedule k)) rs < left (time k) rs
  fewer t = left-Used k.current (time k) (time (shedule k)) rs t.used s.has_time s.on_list
