-- ===== src/Signal.antt =====
-- kernel2/signal.c: signals that processes send to each other.
pub mod Send
mod Tests
use mein_os.Prelude.{ℕ, ◌==◌, ◌||◌, [], ◌∷◌, if◌then◌else◌}
use mein_os.Procm.State.{Proc, Kernel, store}
use mein_os.Procm.Sched.{wake}
use mein_os.Procm.Lookup.{find, current_proc}
use mein_os.Procm.Upcall.{Machine, upcall}

-- `SIGCONT`, and the user and the group of root
abbrev pub sigcont : ℕ
sigcont = 18

abbrev pub root : ℕ
root = 1

-- `signal_setup`
unfoldable pub setup : (handler : ℕ) → Kernel → Kernel
setup handler k = record k {
  procs = store k.procs k.current (record (current_proc k) { signal = handler });
}

-- `signal_send`
unfoldable pub send : (proc sig : ℕ) → Machine → Machine
send p sig m =
    let m' : Machine = if sig == sigcont then record m { kernel = wake p m.kernel } else m in
    let handler = (m'.kernel.procs p).signal in
    if handler == 0 then m' else upcall p handler (sig ∷ []) m'

-- `signal_send_syscall`
unfoldable pub send_syscall : (pid sig : ℕ) → Machine → Machine
send_syscall pid sig m =
    let p = find pid m.kernel in
    let to = m.kernel.procs p in
    let from = current_proc m.kernel in
    let sent = send p sig m in
    if p == 0
    then m
    else if to.uid == from.uid || (to.gid == from.gid || (from.uid == root || from.gid == root))
    then sent
    else m
