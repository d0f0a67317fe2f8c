-- ===== src/Signal/Send.antt =====
-- What a signal leaves: the frame of its handler on the stack of the process.
use mein_os.Prelude.{
  ℕ, ◌≡◌, refl, sym, ◌∙◌, ap, ◌≢◌, inl, inr, true, false, [], ◌∷◌, arith, ◌==◌, Bool-cases,
}
use mathlib.Core.Path.{subst}
use mein_os.Llist.Mem.{eq_of_ne, eq_self}
use mein_os.Procm.State.{Registers, Kernel}
use mein_os.Procm.Sched.{wake}
use mein_os.Procm.Keep.{wake-awake}
use mein_os.Procm.Upcall.{
  Machine, poke, registers_of, set_registers, below, push_int, push_all, load_on, load_back, go_to,
  upcall,
}
use mein_os.Signal.{sigcont, send}

set_registers-own : (p : ℕ) (r : Registers) (k : Kernel) → registers_of p (set_registers p r k) ≡ r
set_registers-own p r k = elim (Bool-cases (k.current == p)) [
  | inl e ↦ rw (e, e)
  | inr e ↦ rw (e, e, eq_self p)
]

set_registers-rest :
    (p : ℕ) (r : Registers) (k : Kernel)
    → ((set_registers p r k).curpd ≡ k.curpd) × ((set_registers p r k).current ≡ k.current)
set_registers-rest p r k = elim (Bool-cases (k.current == p)) [
  | inl e ↦ rw e (refl, refl)
  | inr e ↦ rw e (refl, refl)
]

wake-registers : (p : ℕ) (k : Kernel) → registers_of p (wake p k) ≡ registers_of p k
unfolding wake
wake-registers p k = ground arith

push-registers :
    (p val : ℕ) (m : Machine)
    → registers_of p (push_int p val m).kernel
      ≡ record (registers_of p m.kernel) { esp = below (registers_of p m.kernel).esp }
unfolding push_int
push-registers p val m = set_registers-own p _ m.kernel

push-curpd : (p val : ℕ) (m : Machine) → (push_int p val m).kernel.curpd ≡ m.kernel.curpd
unfolding push_int
push-curpd p val m = (set_registers-rest p _ m.kernel).0

push-memory :
    (p val : ℕ) (m : Machine)
    → (push_int p val m).memory
      ≡ poke m.kernel.curpd (below (registers_of p m.kernel).esp) val m.memory
unfolding push_int
push-memory p val m = rw ((set_registers-rest p _ m.kernel).0)

load_back-registers :
    (p : ℕ) (m : Machine) → registers_of p (load_back m).kernel ≡ registers_of p m.kernel
load_back-registers p m = ground arith

load_back-memory : (m : Machine) → (load_back m).memory ≡ m.memory
load_back-memory m = ground arith

go_to-registers :
    (p func : ℕ) (m : Machine)
    → registers_of p (go_to p func m).kernel ≡ record (registers_of p m.kernel) { eip = func }
go_to-registers p func m =
    wake-registers p (set_registers p (record (registers_of p m.kernel) { eip = func }) m.kernel)
    ∙ set_registers-own p _ m.kernel

-- The state that a process is in when it starts on a handler with one parameter
pub record Entered (p handler val : ℕ) (m m' : Machine) : Type 0 where
  pub registers : registers_of p m'.kernel ≡ record (registers_of p m.kernel) {
    eip = handler;
    esp = below (below (registers_of p m.kernel).esp);
  }
  pub memory :
      m'.memory
      ≡ poke
          (m.kernel.procs p).addrspace
          (below (below (registers_of p m.kernel).esp))
          (registers_of p m.kernel).eip
          (poke (m.kernel.procs p).addrspace (below (registers_of p m.kernel).esp) val m.memory)
  pub awake : (m'.kernel.procs p).is_sleeping ≡ false

module _ (p handler val : ℕ) (m : Machine) where
  abbrev space : ℕ
  space = (m.kernel.procs p).addrspace

  abbrev own : Registers
  own = registers_of p m.kernel

  -- With the parameter pushed, and then the address to return to
  abbrev m1 : Machine
  m1 = push_int p val (load_on space m)

  abbrev m2 : Machine
  m2 = push_int p own.eip m1

  registers1 : registers_of p m1.kernel ≡ record own { esp = below own.esp }
  registers1 = push-registers p val (load_on space m)

  registers2 : registers_of p m2.kernel ≡ record own { esp = below (below own.esp) }
  registers2 =
      push-registers p own.eip m1
      ∙ ap (λ (r : Registers). record r { esp = below r.esp }) registers1

  memory2 :
      m2.memory
      ≡ poke space (below (below own.esp)) own.eip (poke space (below own.esp) val m.memory)
  memory2 =
      push-memory p own.eip m1
      ∙ ap (λ s. poke s (below (registers_of p m1.kernel).esp) own.eip m1.memory)
          (push-curpd p val (load_on space m))
      ∙ ap (λ (r : Registers). poke space (below r.esp) own.eip m1.memory) registers1
      ∙ ap (λ f. poke space (below (below own.esp)) own.eip f) (push-memory p val (load_on space m))

  pub upcall-Entered :
      (m.kernel.procs p).defunc ≡ false → Entered p handler val m (upcall p handler (val ∷ []) m)
  unfolding upcall push_all
  upcall-Entered alive = rw alive (record {
    registers =
        go_to-registers p handler (load_back m2)
        ∙ ap (λ (r : Registers). record r { eip = handler })
            (load_back-registers p m2 ∙ registers2);
    memory = load_back-memory m2 ∙ memory2;
    awake = wake-awake p _;
  })

wake-own :
    (p : ℕ) (k : Kernel)
    → (((wake p k).procs p).signal ≡ (k.procs p).signal)
      × (((wake p k).procs p).defunc ≡ (k.procs p).defunc)
      × (((wake p k).procs p).addrspace ≡ (k.procs p).addrspace)
unfolding wake
wake-own p k = (ground arith, ground arith, ground arith)

-- SIGCONT wakes the process first.
abbrev woken : (p : ℕ) → Machine → Machine
woken p m = record m { kernel = wake p m.kernel }

send-woken :
    (p sig : ℕ) (m : Machine)
    → (sig == sigcont) ≡ true
    → (m.kernel.procs p).signal ≢ 0
    → send p sig m ≡ upcall p (m.kernel.procs p).signal (sig ∷ []) (woken p m)
unfolding send
send-woken p sig m e ne = rw (e, (wake-own p m.kernel).0, eq_of_ne _ 0 ne)

send-plain :
    (p sig : ℕ) (m : Machine)
    → (sig == sigcont) ≡ false
    → (m.kernel.procs p).signal ≢ 0
    → send p sig m ≡ upcall p (m.kernel.procs p).signal (sig ∷ []) m
unfolding send
send-plain p sig m e ne = rw (e, eq_of_ne _ 0 ne)

-- A process that is woken first enters its handler in the same state.
Entered-woken :
    (p handler val : ℕ) (m m' : Machine)
    → Entered p handler val (woken p m) m'
    → Entered p handler val m m'
Entered-woken p handler val m m' x = record {
  registers =
      x.registers
      ∙ ap (λ (r : Registers). record r { eip = handler; esp = below (below r.esp) })
          (wake-registers p m.kernel);
  memory =
      x.memory
      ∙ ap
          (λ (r : Registers).
            poke ((wake p m.kernel).procs p).addrspace (below (below r.esp)) r.eip
              (poke ((wake p m.kernel).procs p).addrspace (below r.esp) val m.memory))
          (wake-registers p m.kernel)
      ∙ ap
          (λ s.
            poke s (below (below (registers_of p m.kernel).esp)) (registers_of p m.kernel).eip
              (poke s (below (registers_of p m.kernel).esp) val m.memory))
          (wake-own p m.kernel).2;
  awake = x.awake;
}

-- A process with a handler that has not ended gets a signal. It goes on at the handler, and is awake.
-- Two words lie on its stack in its own address space, the signal and below it the address at which the
-- process was; its other registers and the rest of the memory are as before.
pub send-Entered :
    (p sig : ℕ) (m : Machine)
    → (m.kernel.procs p).signal ≢ 0
    → (m.kernel.procs p).defunc ≡ false
    → Entered p (m.kernel.procs p).signal sig m (send p sig m)
send-Entered p sig m handled alive = elim (Bool-cases (sig == sigcont)) [
  | inl e ↦ subst (Entered p (m.kernel.procs p).signal sig m) (sym (send-woken p sig m e handled)) (
      Entered-woken p (m.kernel.procs p).signal sig m _ (
        upcall-Entered p (m.kernel.procs p).signal sig (woken p m)
          ((wake-own p m.kernel).1 ∙ alive)))
  | inr e ↦
      subst (Entered p (m.kernel.procs p).signal sig m) (sym (send-plain p sig m e handled))
        (upcall-Entered p (m.kernel.procs p).signal sig m alive)
]
