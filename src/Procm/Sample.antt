-- ===== src/Procm/Sample.antt =====
-- A kernel with two running processes, at 1 and 2, and one that sleeps, at 3.
use mein_os.Prelude.{ℕ, ◌+◌, true, false, [], ◌∷◌}
use mein_os.Procm.State.{Registers, SegmentRegs, Proc, active, Kernel, store}

abbrev pub regs : ℕ → Registers
regs n = record {
  eax = n;
  ebx = 0;
  ecx = 0;
  edx = 0;
  esi = 0;
  edi = 0;
  ebp = 0;
  esp = 0;
  eip = n;
  efl = 0;
  cs = 0;
  ds = 0;
  es = 0;
  fs = 0;
  gs = 0;
  ss = 0;
}

abbrev pub segs : SegmentRegs
segs = record { es = 0; ds = 0; fs = 0; gs = 0 }

abbrev pub proc : ℕ → ℕ → Proc
proc id ticks = record {
  pid = id;
  uid = 1;
  euid = 1;
  suid = 1;
  gid = 1;
  egid = 1;
  sgid = 1;
  system = 1;
  name = [];
  parent = 0;
  children = [];
  registers = regs id;
  addrspace = 10 + id;
  nice = 0;
  ticks_rem = ticks;
  is_sleeping = false;
  var = 0;
  defunc = false;
  ret = 0;
  signal = 0;
  is_vm86 = false;
  wait = false;
  wait_pid = 0;
  wait_stat = 0;
  vm86_segregs = segs;
}

abbrev pub kernel : Kernel
kernel = record {
  procs = store (store (λ a. proc a 1) 1 (proc 1 1)) 3 (record (proc 3 0) { is_sleeping = true });
  all = 3 ∷ 2 ∷ 1 ∷ [];
  running = 2 ∷ 1 ∷ [];
  sleeping = 3 ∷ [];
  next_pid = 4;
  current = 1;
  curregs = regs 77;
  cur_segregs = segs;
  curpd = 11;
  cpu = active;
}
