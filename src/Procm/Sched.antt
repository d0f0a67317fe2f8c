-- ===== src/Procm/Sched.antt =====
-- `proc_sleep`, `proc_wake`, `proc_shedule` and the saving and loading of registers.
use mein_os.Prelude.{ℕ, ◌+◌, ◌-◌, ◌%◌, ◌^◌, true, false, List, [], ◌∷◌, ltb, ◌==◌, if◌then◌else◌}
use mein_os.Llist.Seq
use mein_os.Procm.State.{Registers, Proc, halted, off, Kernel, store, nice2ticks}

-- `proc_regs_save`, which copies field by field
unfoldable pub regs_save : ℕ → Kernel → Kernel
regs_save p k = record k { procs = store k.procs p saved }
  where
    open k use {curregs}

    saved : Proc
    saved = record (k.procs p) {
      registers = record {
        eax = curregs.eax;
        ebx = curregs.ebx;
        ecx = curregs.ecx;
        edx = curregs.edx;
        esi = curregs.esi;
        edi = curregs.edi;
        ebp = curregs.ebp;
        esp = curregs.esp;
        eip = curregs.eip;
        efl = curregs.efl;
        cs = curregs.cs;
        ds = curregs.ds;
        es = curregs.es;
        fs = curregs.fs;
        gs = curregs.gs;
        ss = curregs.ss;
      };
      vm86_segregs = if (k.procs p).is_vm86 then k.cur_segregs else (k.procs p).vm86_segregs;
    }

-- `proc_regs_load`
unfoldable pub regs_load : ℕ → Kernel → Kernel
regs_load p k = record k {
  curregs = record {
    eax = r.eax;
    ebx = r.ebx;
    ecx = r.ecx;
    edx = r.edx;
    esi = r.esi;
    edi = r.edi;
    ebp = r.ebp;
    esp = r.esp;
    eip = r.eip;
    efl = r.efl;
    cs = r.cs;
    ds = r.ds;
    es = r.es;
    fs = r.fs;
    gs = r.gs;
    ss = r.ss;
  };
  cur_segregs = if (k.procs p).is_vm86 then (k.procs p).vm86_segregs else k.cur_segregs;
}
  where
    r : Registers
    r = (k.procs p).registers

-- `memuser_load_addrspace`; an address space stands for its page directory.
abbrev pub load_addrspace : ℕ → Kernel → Kernel
load_addrspace a k = record k { curpd = a }

-- The time slice of the process that runs till now is used up.
abbrev pub charge : Kernel → Kernel
charge k = if k.current == 0 then k else record k {
  procs = store k.procs k.current (record (k.procs k.current) {
    ticks_rem = ((k.procs k.current).ticks_rem + 2 ^ 32 - 1) % 2 ^ 32;
  });
  current = 0;
}

-- The search for a process with time left: the last one of the list that has some.
unfoldable pub pick : (ℕ → Proc) → List ℕ → ℕ → ℕ
pick f [] found = found
pick f (p ∷ ps) found =
    if p == 0 then found else pick f ps (if ltb 0 (f p).ticks_rem then p else found)

-- The slices of all processes of the list are filled again.
unfoldable pub refill : List ℕ → (ℕ → Proc) → ℕ → Proc
refill [] f = f
refill (p ∷ ps) f =
    if p == 0 then f else refill ps (store f p (record (f p) { ticks_rem = nice2ticks (f p).nice }))

-- The process to run next, with the slices filled again if no process has time left.
unfoldable pub choose : Kernel → Kernel
unfolding pick refill Seq.get
choose k =
    let p = pick k.procs k.running k.current in
    if p == 0
    then record k { procs = refill k.running k.procs; current = Seq.get k.running 0 }
    else record k { current = p }

-- The registers of `old` are saved and those of the current process loaded, if they differ.
unfoldable pub switch_from : ℕ → Kernel → Kernel
unfolding regs_save regs_load
switch_from old k =
    if old == k.current
    then k
    else let saved = if old == 0 then k else regs_save old k in
      load_addrspace (saved.procs saved.current).addrspace (regs_load saved.current saved)

-- The branches of `proc_shedule`: with no running process the processor is halted, or turned off.
unfoldable pub shedule_on : (running sleeping : List ℕ) → Kernel → Kernel
unfolding choose switch_from
shedule_on [] [] k = record k { cpu = off }
shedule_on [] (p ∷ ps) k = record (regs_save k.current k) { current = 0; cpu = halted }
shedule_on (p ∷ ps) qs k = switch_from k.current (choose (charge k))

-- `proc_shedule`
unfoldable pub shedule : Kernel → Kernel
unfolding shedule_on
shedule k = shedule_on k.running k.sleeping k

-- `proc_sleep`
unfoldable pub sleep : ℕ → Kernel → Kernel
unfolding shedule Seq.erase
sleep p k =
    if (k.procs p).is_sleeping
    then k
    else let k' = record k {
      running = Seq.erase k.running p;
      sleeping = p ∷ k.sleeping;
      procs = store k.procs p (record (k.procs p) { is_sleeping = true });
    } in
      if p == k.current then shedule k' else k'

-- `proc_wake`
unfoldable pub wake : ℕ → Kernel → Kernel
unfolding Seq.erase
wake p k =
    if (k.procs p).is_sleeping
    then record k {
      sleeping = Seq.erase k.sleeping p;
      running = p ∷ k.running;
      procs = store k.procs p (record (k.procs p) { is_sleeping = false });
    }
    else k
