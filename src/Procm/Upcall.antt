-- ===== src/Procm/Upcall.antt =====
-- The calls of kernel2/procm.c that make a process run a function: they write to its stack.
use mein_os.Prelude.{ℕ, ◌+◌, ◌-◌, ◌%◌, ◌^◌, List, [], ◌∷◌, ◌==◌, ◌&&◌, if◌then◌else◌}
use mathlib.Core.List.{reverse}
use mein_os.Procm.State.{Registers, Kernel, store}
use mein_os.Procm.Sched.{wake, load_addrspace}
use mein_os.Procm.Lookup.{current_proc}

-- The kernel, and the `int` at each address of each address space
pub record Machine : Type 0 where
  pub kernel : Kernel
  pub memory : (space addr : ℕ) → ℕ

-- The memory with an `int` written. Every address of the stack is mapped.
abbrev pub poke : (space addr value : ℕ) → (ℕ → ℕ → ℕ) → ℕ → ℕ → ℕ
poke space addr value f s a = if s == space && a == addr then value else f s a

-- The registers that `proc` runs with: the interrupted context where it is the current process
abbrev pub registers_of : ℕ → Kernel → Registers
registers_of p k = if k.current == p then k.curregs else (k.procs p).registers

abbrev pub set_registers : ℕ → Registers → Kernel → Kernel
set_registers p r k =
    if k.current == p
    then record k { curregs = r }
    else record k { procs = store k.procs p (record (k.procs p) { registers = r }) }

-- Four bytes below, and four above
abbrev pub below : ℕ → ℕ
below a = (a + 2 ^ 32 - 4) % 2 ^ 32

abbrev pub above : ℕ → ℕ
above a = (a + 4) % 2 ^ 32

-- `proc_push`, to the address space that is loaded
unfoldable pub push_int : (proc val : ℕ) → Machine → Machine
push_int p val m =
    let r = registers_of p m.kernel in
    let k = set_registers p (record r { esp = below r.esp }) m.kernel in
    record { kernel = k; memory = poke k.curpd (below r.esp) val m.memory }

-- `proc_pop`
unfoldable pub pop_int : (proc : ℕ) → Machine → ℕ × Machine
pop_int p m =
    let r = (m.kernel.procs p).registers in
    (
      m.memory m.kernel.curpd r.esp,
      record m {
        kernel = record m.kernel {
          procs =
              store m.kernel.procs p
                (record (m.kernel.procs p) { registers = record r { esp = above r.esp } });
        };
      },
    )

unfoldable pub push_all : (proc : ℕ) (vals : List ℕ) → Machine → Machine
push_all p [] m = m
push_all p (v ∷ vs) m = push_all p vs (push_int p v m)

abbrev pub load_on : ℕ → Machine → Machine
load_on space m = record m { kernel = load_addrspace space m.kernel }

-- The address space of the current process, where there is one
abbrev pub load_back : Machine → Machine
load_back m = if m.kernel.current == 0 then m else load_on (current_proc m.kernel).addrspace m

-- The process goes on at `func`, and is awake.
abbrev pub go_to : (proc func : ℕ) → Machine → Machine
go_to p func m = record m {
  kernel = wake p (set_registers p (record (registers_of p m.kernel) { eip = func }) m.kernel);
}

-- `proc_call`
unfoldable pub upcall : (proc func : ℕ) (params : List ℕ) → Machine → Machine
upcall p func params m =
    if (m.kernel.procs p).defunc
    then m
    else let eip = (registers_of p m.kernel).eip in
      go_to p func (
        load_back
          (push_int p eip (push_all p (reverse params) (load_on (m.kernel.procs p).addrspace m))))
