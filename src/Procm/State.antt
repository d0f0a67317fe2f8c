-- ===== src/Procm/State.antt =====
-- The state that kernel2/procm.c keeps: the process structures at their addresses, the three lists
-- of processes, the current process, the registers of the interrupted context, and what the
-- processor does. An `int`, `pid_t` or `clock_t` is its pattern of 32 bits.
use mein_os.Prelude.{ℕ, ◌-◌, ◌^◌, Bool, List, ◌==◌, if◌then◌else◌}

-- `struct proc_registers`
pub record Registers : Type 0 where
  pub eax : ℕ
  pub ebx : ℕ
  pub ecx : ℕ
  pub edx : ℕ
  pub esi : ℕ
  pub edi : ℕ
  pub ebp : ℕ
  pub esp : ℕ
  pub eip : ℕ
  pub efl : ℕ
  pub cs : ℕ
  pub ds : ℕ
  pub es : ℕ
  pub fs : ℕ
  pub gs : ℕ
  pub ss : ℕ

-- `struct vm86_segmentregs`
pub record SegmentRegs : Type 0 where
  pub es : ℕ
  pub ds : ℕ
  pub fs : ℕ
  pub gs : ℕ

-- `struct proc_S`. A pointer is its address; a name is its bytes without the terminator.
pub record Proc : Type 0 where
  pub pid : ℕ
  pub uid : ℕ
  pub euid : ℕ
  pub suid : ℕ
  pub gid : ℕ
  pub egid : ℕ
  pub sgid : ℕ
  pub system : ℕ
  pub name : List ℕ
  pub parent : ℕ
  pub children : List ℕ
  pub registers : Registers
  pub addrspace : ℕ
  pub nice : ℕ
  pub ticks_rem : ℕ
  pub is_sleeping : Bool
  pub var : ℕ
  pub defunc : Bool
  pub ret : ℕ
  pub signal : ℕ
  pub is_vm86 : Bool
  pub wait : Bool
  pub wait_pid : ℕ
  pub wait_stat : ℕ
  pub vm86_segregs : SegmentRegs

-- The processor goes on after a call, waits for an interrupt in `proc_idle`, or is off. The calls
-- that halt it do not return.
pub data Cpu : Type 0 where
  active halted off : Cpu

-- `curregs` is what the pointers of `interrupt_curregs` lead to, `curpd` the loaded address space.
pub record Kernel : Type 0 where
  pub procs : ℕ → Proc
  pub all : List ℕ
  pub running : List ℕ
  pub sleeping : List ℕ
  pub next_pid : ℕ
  pub current : ℕ
  pub curregs : Registers
  pub cur_segregs : SegmentRegs
  pub curpd : ℕ
  pub cpu : Cpu

-- The structures with `v` at `p`.
abbrev pub store : (ℕ → Proc) → ℕ → Proc → ℕ → Proc
store f p v a = if a == p then v else f a

-- `NICE2TICKS`
abbrev pub nice2ticks : ℕ → ℕ
nice2ticks nice = 1

-- A negative `int`
abbrev pub minus : ℕ → ℕ
minus n = 2 ^ 32 - n
