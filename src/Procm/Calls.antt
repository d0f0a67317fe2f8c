-- ===== src/Procm/Calls.antt =====
-- The calls of kernel2/procm.c that create, change, wait for and end processes.
use mein_os.Prelude.{
  ℕ, ◌+◌, ◌%◌, ◌^◌, Bool, true, false, ◌&&◌, ◌||◌, not, Option, none, some, List, [], ◌∷◌, ltb, leb,
  ◌==◌, if◌then◌else◌,
}
use mein_os.Llist.Seq
use mein_os.Procm.State.{Registers, Proc, halted, Kernel, store, nice2ticks, minus}
use mein_os.Procm.Sched.{wake, sleep, load_addrspace}
use mein_os.Procm.Lookup.{find, current_proc}

-- The state with `p` changed.
abbrev pub set_proc : ℕ → Proc → Kernel → Kernel
set_proc p x k = record k { procs = store k.procs p x }

-- The registers of a new process, all 0 but the flags and the segments of user code and data.
abbrev pub new_registers : Registers
new_registers = record {
  eax = 0;
  ebx = 0;
  ecx = 0;
  edx = 0;
  esi = 0;
  edi = 0;
  ebp = 0;
  esp = 0;
  eip = 0;
  efl = 0x202;
  cs = 27;
  ds = 35;
  es = 35;
  fs = 35;
  gs = 35;
  ss = 35;
}

-- The structure that `proc_create` fills; the fields that it leaves are those of `raw`. `space` is
-- the new address space.
abbrev pub new_proc :
    (raw : Proc) (space pid : ℕ) (name : List ℕ) (uid gid parent : ℕ) (running : Bool) (system : ℕ)
    → Proc
new_proc raw space pid name uid gid parent running system = record raw {
  pid = pid;
  uid = uid;
  euid = uid;
  suid = uid;
  gid = gid;
  egid = gid;
  sgid = gid;
  name = name;
  system = system;
  parent = parent;
  children = [];
  registers = new_registers;
  addrspace = space;
  nice = 0;
  ticks_rem = nice2ticks 0;
  var = minus 1;
  defunc = false;
  is_sleeping = not running;
  signal = 0;
  is_vm86 = false;
}

-- The parent lists the new process.
abbrev pub add_child : (parent fresh : ℕ) → Kernel → Kernel
add_child parent fresh k =
    if parent == 0
    then k
    else set_proc parent (record (k.procs parent) { children = fresh ∷ (k.procs parent).children })
        k

-- `proc_create`, with the structure at `fresh`. It returns `fresh`.
unfoldable pub create :
    (fresh : ℕ) (raw : Proc) (space : ℕ) (name : List ℕ) (uid gid parent : ℕ) (running : Bool)
    (system : ℕ)
    → Kernel
    → Kernel
create fresh raw space name uid gid parent running system k =
    let k' = add_child parent fresh k in
    record k' {
      procs =
          store k'.procs fresh (new_proc raw space k.next_pid name uid gid parent running system);
      next_pid = (k.next_pid + 1) % 2 ^ 32;
      all = fresh ∷ k.all;
      running = if running then fresh ∷ k.running else k.running;
      sleeping = if running then k.sleeping else fresh ∷ k.sleeping;
    }

-- `while ((child = llist_pop(proc->children))) child->parent = proc->parent;`
unfoldable pub give_children : List ℕ → (parent : ℕ) → (ℕ → Proc) → ℕ → Proc
give_children [] parent f = f
give_children (c ∷ cs) parent f =
    if c == 0 then f else give_children cs parent (store f c (record (f c) { parent = parent }))

-- `proc_destroy`. The structure is freed, so nothing reads it from then on.
unfoldable pub destroy : ℕ → Kernel → Kernel
unfolding Seq.erase Seq.remove Seq.find give_children
destroy p k =
    let parent = (k.procs p).parent in
    let f = give_children (k.procs p).children parent k.procs in
    let out = Seq.remove k.running (Seq.find k.running p) in
    record k {
      procs =
          if parent == 0
          then f
          else store f parent (record (f parent) { children = Seq.erase (f parent).children p });
      all = Seq.erase k.all p;
      running = out.1;
      sleeping = if out.0 == p then k.sleeping else Seq.erase k.sleeping p;
    }

-- `proc_create_syscall`
unfoldable pub create_syscall :
    (fresh : ℕ) (raw : Proc) (space : ℕ) (name : List ℕ) (uid gid parent_pid : ℕ)
    → Kernel
    → ℕ × Kernel
unfolding create
create_syscall fresh raw space name uid gid parent_pid k =
    let parent = find parent_pid k in
    if not ((current_proc k).system == 0) && not (parent == 0)
    then (k.next_pid, create fresh raw space name uid gid parent false 0 k)
    else (minus 1, k)

-- `proc_destroy_syscall`
unfoldable pub destroy_syscall : (pid : ℕ) → Kernel → ℕ × Kernel
unfolding destroy
destroy_syscall pid k =
    let p = find pid k in
    if not ((current_proc k).system == 0) && (not (p == 0) && not (p == k.current))
    then (0, destroy p k)
    else (minus 1, k)

-- `proc_setuid` and `proc_setgid`
unfoldable pub setuid : (id uid : ℕ) → Kernel → Kernel
setuid id uid k =
    let x = current_proc k in
    if id == 1
    then set_proc k.current (record x { uid = uid }) k
    else if id == 2
    then set_proc k.current (record x { euid = uid }) k
    else if id == 3
    then set_proc k.current (record x { suid = uid }) k
    else k

unfoldable pub setgid : (id gid : ℕ) → Kernel → Kernel
setgid id gid k =
    let x = current_proc k in
    if id == 1
    then set_proc k.current (record x { gid = gid }) k
    else if id == 2
    then set_proc k.current (record x { egid = gid }) k
    else if id == 3
    then set_proc k.current (record x { sgid = gid }) k
    else k

-- `proc_setname`: the result is -1 on every path.
unfoldable pub setname : (pid : ℕ) (name : List ℕ) → Kernel → ℕ × Kernel
setname pid name k =
    let p = find pid k in
    if not ((current_proc k).system == 0) && (not (p == 0) && not (p == k.current))
    then (minus 1, set_proc p (record (k.procs p) { name = name }) k)
    else (minus 1, k)

-- `proc_setvar`
unfoldable pub setvar : (pid var : ℕ) → Kernel → Kernel
setvar pid var k =
    let p = find pid k in if p == 0 then k else set_proc p (record (k.procs p) { var = var }) k

-- `proc_system`
unfoldable pub set_system : (pid system : ℕ) → Kernel → ℕ × Kernel
set_system pid system k =
    let p = find pid k in
    if not ((current_proc k).system == 0)
      && (not (p == 0) && (system == 1 || (k.current == (k.procs p).parent || k.current == p)))
    then (0, set_proc p (record (k.procs p) { system = system }) k)
    else (minus 1, k)

-- `proc_jump`
unfoldable pub jump : (pid dest : ℕ) → Kernel → ℕ × Kernel
jump pid dest k =
    let p = find pid k in
    let x = k.procs p in
    if not ((current_proc k).system == 0) && not (p == 0)
    then (0, set_proc p (record x { registers = record x.registers { eip = dest } }) k)
    else (minus 1, k)

-- The path of `proc_waitpid` that waits for a process to end.
abbrev pub await : (pid stat_loc : ℕ) → Kernel → Kernel
await pid stat_loc k = sleep k.current (
    set_proc k.current
      (record (current_proc k) { wait_pid = pid; wait_stat = stat_loc; wait = true }) k)

-- `0 < pid` as `pid_t`
abbrev pub is_pos : ℕ → Bool
is_pos pid = ltb 0 pid && ltb pid (2 ^ 31)

-- `proc_waitpid`: the result, what it writes to `*stat_loc`, and the state
unfoldable pub waitpid : (pid stat_loc : ℕ) → Kernel → ℕ × Option ℕ × Kernel
waitpid pid stat_loc k =
    let p = find pid k in
    if is_pos pid
    then (if p == 0
        then (minus 1, none, k)
        else if (k.procs p).defunc
        then (pid, some (k.procs p).ret, k)
        else (minus 1, none, await pid stat_loc k))
    else (minus 1, none, await pid stat_loc k)

-- Whether the parent `y` waits for the process `x`.
abbrev pub waits_for : (y x : Proc) → Bool
waits_for y x =
    y.wait
    && (y.wait_pid == minus 1
        || (y.wait_pid == x.pid
            || ((y.wait_pid == 0 && x.gid == y.gid)
                || (leb (2 ^ 31) y.wait_pid
                    && (ltb y.wait_pid (minus 1) && minus y.wait_pid == x.gid)))))

-- The parent `q` gets the number of the process in `eax` and goes on. The address space that is
-- loaded to write the status is left for that of the process again.
unfoldable pub tell_parent : (q : ℕ) → Kernel → Kernel
unfolding wake
tell_parent q k =
    let y = k.procs q in
    let told = record y { registers = record y.registers { eax = (current_proc k).pid } } in
    let k' = set_proc q (record told { wait = false }) k in
    wake q (if y.wait_stat == 0 then k' else load_addrspace (current_proc k).addrspace k')

-- `proc_exit`, and `proc_abort` with the value 1: the state in which the processor waits, and the
-- address and value that are written in the address space of the parent.
unfoldable pub exit : (ret : ℕ) → Kernel → Option (ℕ × ℕ) × Kernel
unfolding tell_parent Seq.erase
exit ret k =
    let q = (current_proc k).parent in
    let told = not (q == 0) && waits_for (k.procs q) (current_proc k) in
    let k' = if told then tell_parent q k else k in
    (
      if told && not ((k.procs q).wait_stat == 0) then some ((k.procs q).wait_stat, ret) else none,
      record k' {
        procs = store k'.procs k.current (record (k'.procs k.current) { ret = ret; defunc = true });
        running = Seq.erase k'.running k.current;
        current = 0;
        cpu = halted;
      },
    )

-- `proc_stop`
abbrev pub stop : Kernel → Kernel
stop k = sleep k.current k
