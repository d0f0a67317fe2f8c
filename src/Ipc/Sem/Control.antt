-- ===== src/Ipc/Sem/Control.antt =====
-- The calls of kernel2/sem.c that read, set and destroy a semaphore set.
pub mod Values
use mein_os.Prelude.{
  ℕ, zero, suc, ◌+◌, ◌-◌, ◌%◌, ◌^◌, Bool, true, false, ◌&&◌, not, Option, none, some, List, [], ◌∷◌,
  ltb, ◌==◌, if◌then◌else◌, length, take,
}
use mein_os.Llist.Seq
use mein_os.Perm
use mein_os.Procm.State.{Proc, Kernel}
use mein_os.Ipc.State.{minus_one, eacces, einval, int_add, IpcObj, Sem, SemSet, Ipc, put, wake_all}
use mein_os.Ipc.Sem.{sem_find, permcheck, set_sem, wake_fit}

-- The two tests that the calls have in common: where the object is not there, -EINVAL, and where the
-- check does not allow the call, -EACCES.
abbrev pub answer : (there allowed : Bool) → (result : ℕ) → ℕ
answer there allowed result = if there then (if allowed then result else eacces) else einval

abbrev pub change : (there allowed : Bool) (s' s : Ipc) → ℕ × Ipc
change there allowed s' s =
    if there then (if allowed then (0, s') else (eacces, s)) else (einval, s)

abbrev pub in_set : (q num : ℕ) → Ipc → Bool
in_set q num s = not (q == 0) && ltb num (s.semsets q).num

-- `ipc_sem_getval`
unfoldable pub getval : (id num : ℕ) → Ipc → ℕ
getval id num s =
    let q = sem_find minus_one id s in
    answer (in_set q num s) (permcheck q Perm.perm_r s) ((s.semsets q).sems num).val

-- `ipc_sem_setval`
unfoldable pub setval : (id num val time : ℕ) → Ipc → ℕ × Ipc
setval id num val time s =
    let q = sem_find minus_one id s in
    change (in_set q num s) (permcheck q Perm.perm_w s) (valued q num val time s) s
  where
    valued : (q num val time : ℕ) → Ipc → Ipc
    valued q num val time s = record s {
      semsets = put s.semsets q (record (s.semsets q) {
        sems = put (s.semsets q).sems num (record ((s.semsets q).sems num) { val = val });
        ctime = time;
      });
    }

-- `ipc_sem_getpid`
unfoldable pub getpid : (id num : ℕ) → Ipc → ℕ
getpid id num s =
    let q = sem_find minus_one id s in
    answer (in_set q num s) (permcheck q Perm.perm_r s) ((s.semsets q).sems num).lopid

-- `'z'`
abbrev pub char_z : ℕ
char_z = 122

-- `ipc_sem_getcnt`
unfoldable pub getcnt : (id num type : ℕ) → Ipc → ℕ
getcnt id num type s =
    let q = sem_find minus_one id s in
    let x = (s.semsets q).sems num in
    answer (in_set q num s) (permcheck q Perm.perm_r s)
      (if type == char_z then length x.waitz else length x.waitn)

-- An `int` to a `short`, and back with its sign.
abbrev pub to_short : ℕ → ℕ
to_short v = v % 2 ^ 16

abbrev pub of_short : ℕ → ℕ
of_short v = if ltb v (2 ^ 15) then v else v + (2 ^ 32 - 2 ^ 16)

-- The loop that copies the values of the semaphores from number `i` on.
unfoldable pub read_vals : (sems : ℕ → Sem) (i count : ℕ) → List ℕ
read_vals sems i zero = []
read_vals sems i (suc count) = to_short (sems i).val ∷ read_vals sems (i + 1) count

-- `ipc_sem_getall`: the result and what it writes to the buffer
unfoldable pub getall : (id : ℕ) → Ipc → ℕ × List ℕ
getall id s =
    let q = sem_find minus_one id s in
    if q == 0
    then (einval, [])
    else if permcheck q Perm.perm_r s
    then (0, read_vals (s.semsets q).sems 0 (s.semsets q).num)
    else (eacces, [])

-- The loop that sets the semaphores from number `i` on to the values of the buffer.
unfoldable pub write_vals : (i : ℕ) → List ℕ → (ℕ → Sem) → ℕ → Sem
write_vals i [] sems = sems
write_vals i (v ∷ vs) sems =
    write_vals (i + 1) vs (put sems i (record (sems i) { val = of_short v }))

-- `ipc_sem_setall`
unfoldable pub setall : (id : ℕ) (buf : List ℕ) (time : ℕ) → Ipc → ℕ × Ipc
setall id buf time s =
    let q = sem_find minus_one id s in
    change (not (q == 0)) (permcheck q Perm.perm_w s)
      (record s {
        semsets = put s.semsets q (record (s.semsets q) {
          sems = write_vals 0 (take (s.semsets q).num buf) (s.semsets q).sems;
          ctime = time;
        });
      })
      s

-- What `ipc_sem_stat` writes through its references.
pub record SemStat : Type 0 where
  pub uid : ℕ
  pub gid : ℕ
  pub cuid : ℕ
  pub cgid : ℕ
  pub mode : ℕ
  pub nsems : ℕ
  pub otime : ℕ
  pub ctime : ℕ

-- `ipc_sem_stat`
unfoldable pub stat : (id : ℕ) → Ipc → ℕ × Option SemStat
stat id s =
    let q = sem_find minus_one id s in
    let o = s.headers q in
    let x = s.semsets q in
    if q == 0
    then (einval, none)
    else if permcheck q Perm.perm_r s
    then (
      0,
      some (record {
        uid = (s.kernel.procs o.owner).uid;
        gid = (s.kernel.procs o.owner).gid;
        cuid = (s.kernel.procs o.creator).uid;
        cgid = (s.kernel.procs o.creator).gid;
        mode = o.mode;
        nsems = x.num;
        otime = x.otime;
        ctime = x.ctime;
      }),
    )
    else (eacces, none)

-- `ipc_sem_set`: the owner's identifiers are not used.
unfoldable pub set : (id uid gid mode time : ℕ) → Ipc → ℕ × Ipc
set id uid gid mode time s =
    let q = sem_find minus_one id s in
    change (not (q == 0)) (permcheck q Perm.perm_w s)
      (record s {
        headers = put s.headers q (record (s.headers q) { mode = mode });
        semsets = put s.semsets q (record (s.semsets q) { ctime = time });
      })
      s

-- The loop of `ipc_sem_destroy` over the semaphores from number `i` on.
unfoldable pub wake_sems : (sems : ℕ → Sem) (i count : ℕ) → Kernel → Kernel
wake_sems sems i zero k = k
wake_sems sems i (suc count) k =
    wake_sems sems (i + 1) count (wake_fit (sems i).val (sems i).waitn (wake_all (sems i).waitz k))

-- `ipc_sem_destroy`: it falls through to -EINVAL where the set was destroyed.
unfoldable pub destroy : (id : ℕ) → Ipc → ℕ × Ipc
destroy id s =
    let q = sem_find minus_one id s in
    if q == 0
    then (einval, s)
    else if permcheck q Perm.perm_w s
    then (
      einval,
      record s {
        objects = Seq.erase s.objects q;
        kernel = wake_sems (s.semsets q).sems 0 (s.semsets q).num s.kernel;
      },
    )
    else (eacces, s)
