-- ===== src/Signal/Tests.antt =====
-- A signal to a process that sleeps, and what its handler finds on the stack.
use mein_os.Prelude.{◌≡◌, refl, arith, true}
use mein_os.Procm.State.{store}
use mein_os.Procm.Sample.{kernel, proc, regs}
use mein_os.Procm.Upcall.{Machine, upcall, push_int, push_all}
use mein_os.Procm.Sched.{wake}
use mein_os.Signal.{send}
use mein_os.Signal.Send.{Entered, send-Entered}

-- Process 3 sleeps and has a handler; its stack ends at 1000.
abbrev machine : Machine
machine = record {
  kernel = record kernel {
    procs = store kernel.procs 3 (record (proc 3 0) {
      is_sleeping = true;
      signal = 0x7000;
      registers = record (regs 3) { esp = 1000 };
    });
  };
  memory = λ space addr. 0;
}

send-Entered_example : Entered 3 0x7000 18 machine (send 3 18 machine)
send-Entered_example = send-Entered 3 18 machine (omega arith) refl

-- The handler finds the signal above the address to return to.
frame : (send 3 18 machine).memory 13 996 ≡ 18
unfolding send wake upcall push_int push_all
frame = refl
