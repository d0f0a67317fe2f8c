-- ===== src/Procm/Tests.antt =====
-- The theorems on the processes at the sample kernel.
use mathlib.Core.Path.{subst}
use mein_os.Procm.Turn.{Shares, time}
use mein_os.Procm.Fair.{Runs, shedule-Runs}
use mein_os.Prelude.{
  some, ◌==◌, ==_iff, contains, Bool-cases, ℕ, ◌≤◌, inl, inr, ◌≡◌, refl, true, [], ◌∷◌, arith,
}
use mein_os.Procm.State.{store, Kernel}
use mein_os.Procm.Sample.{proc, kernel}
use mein_os.Procm.Sched.{shedule, sleep, wake}
use mein_os.Procm.Lookup.{find_from}
use mein_os.Procm.Calls.{create, exit, waitpid}
use mein_os.Procm.Life.{create-IsValid, exit-IsValid}
use mein_os.Procm.Exit.{Told, run_as, exit-Told, waitpid-exit}
use mein_os.Procm.Inv.{IsValid, wake-IsValid, sleep-IsValid}
use mein_os.Procm.Switch.{Switched, shedule-Switched}

kernel-IsValid : IsValid kernel
kernel-IsValid = record {
  running_nonnull = (omega arith, (omega arith, tt));
  sleeping_nonnull = (omega arith, tt);
  running_distinct = (refl, (refl, tt));
  sleeping_distinct = (refl, tt);
  awake = λ p h. ground arith;
  asleep = λ p h. ground arith;
  room = omega arith;
}

wake-IsValid_example : IsValid (wake 3 kernel)
wake-IsValid_example = wake-IsValid 3 kernel kernel-IsValid (omega arith) (omega arith)

sleep-IsValid_example : IsValid (sleep 1 kernel)
sleep-IsValid_example = sleep-IsValid 1 kernel kernel-IsValid (omega arith) (omega arith)

-- The process that ran gives way to the other one.
current_after : (shedule kernel).current ≡ 2
unfolding shedule
current_after = refl

shedule-Switched_example : Switched 1 kernel (shedule kernel)
unfolding shedule
shedule-Switched_example = shedule-Switched 2 (1 ∷ []) kernel refl (omega arith) (omega arith)

abbrev idle : Kernel
idle = record kernel { running = []; current = 0 }

create-IsValid_example : IsValid (create 9 (proc 0 0) 50 (104 ∷ []) 7 8 2 true 0 kernel)
create-IsValid_example =
    create-IsValid 9 (proc 0 0) 50 (104 ∷ []) 7 8 2 true 0 kernel kernel-IsValid (omega arith) refl
      refl (omega arith)

exit-IsValid_example : IsValid (exit 5 kernel).1
exit-IsValid_example = exit-IsValid 5 kernel kernel-IsValid (omega arith)

-- Process 3 is the parent of process 1 and waits for it.
abbrev family : Kernel
family = record kernel {
  procs =
      store (store kernel.procs 1 (record (proc 1 1) { parent = 3 })) 3
        (record (proc 3 0) { is_sleeping = true; wait = true; wait_pid = 1; wait_stat = 500 });
}

exit-Told_example : ((exit 5 family).0 ≡ some (500, 5)) × Told 3 1 5 family (exit 5 family).1
exit-Told_example = exit-Told 5 family (omega arith) (omega arith) refl

listed : find_from family.procs (3 ∷ 2 ∷ 1 ∷ []) 1 ≡ 1
unfolding find_from
listed = refl

waitpid-exit_example : let k' = run_as 2 (exit 5 family).1 in waitpid 1 600 k' ≡ (1, some 5, k')
waitpid-exit_example = waitpid-exit 5 600 family 2 (omega arith) refl (omega arith) listed

slices : (q : ℕ) → contains q (2 ∷ 1 ∷ []) ≡ true → time kernel q ≤ 1
slices q h = elim (Bool-cases (2 == q)) [
  | inl e ↦ subst (λ x. time kernel x ≤ 1) ((==_iff 2 q).0 e) (omega arith)
  | inr e ↦ elim (Bool-cases (1 == q)) [
    | inl e' ↦ subst (λ x. time kernel x ≤ 1) ((==_iff 1 q).0 e') (omega arith)
    | inr e' ↦ absurd (ground (arith, h, e, e'))
  ]
]

kernel-Shares : Shares (2 ∷ 1 ∷ []) kernel
kernel-Shares = record { running = refl; on_list = refl; has_time = omega arith; slices = slices }

shedule-Runs_example : Runs 4 2 kernel
shedule-Runs_example =
    shedule-Runs 2 (1 ∷ []) (omega arith, (omega arith, tt)) 2 refl kernel kernel-Shares
