-- ===== src/Ipc/Sem/Control/Values.antt =====
-- The values that the calls of kernel2/sem.c set, read back.
use mein_os.Prelude.{
  ℕ, ◌+◌, ◌^◌, ◌<◌, ◌≡◌, refl, ◌∙◌, ap, ◌≢◌, true, List, [], ◌∷◌, arith, length, take,
}
use mein_os.Llist.Mem.{eq_of_ne, eq_self}
use mein_os.Llist.Seq.{NoNull, delete, erase_lem}
use mein_os.Perm
use mein_os.Ipc.State.{Ipc, Sem, SemSet, put, minus_one, einval}
use mein_os.Ipc.Registry.{find}
use mein_os.Ipc.Sem.{sem_find, permcheck}
use mein_os.Ipc.Sem.Control.{to_short, of_short, read_vals, write_vals, getall, setall, destroy}

-- Every value fits in a `short`.
abbrev pub AreShort : List ℕ → Type 0
AreShort [] = Unit
AreShort (v ∷ vs) = (v < 2 ^ 16) × AreShort vs

to_short-of_short : (v : ℕ) → v < 2 ^ 16 → to_short (of_short v) ≡ v
to_short-of_short v h = ground arith

-- The semaphores before the first one that is written keep their values.
write_vals-before :
    (i : ℕ) (vs : List ℕ) (sems : ℕ → Sem) (j : ℕ) → j < i → write_vals i vs sems j ≡ sems j
unfolding write_vals
write_vals-before i [] sems j h = refl
write_vals-before i (v ∷ vs) sems j h =
    write_vals-before (i + 1) vs _ j (omega arith) ∙ rw (eq_of_ne j i (omega arith))

read_vals-write_vals :
    (i : ℕ) (vs : List ℕ) (sems : ℕ → Sem)
    → AreShort vs
    → read_vals (write_vals i vs sems) i (length vs) ≡ vs
unfolding read_vals write_vals
read_vals-write_vals i [] sems h = refl
read_vals-write_vals i (v ∷ vs) sems (small, h) =
    let sems' = put sems i (record (sems i) { val = of_short v }) in
    rw (
      write_vals-before (i + 1) vs sems' i (omega arith),
      read_vals-write_vals (i + 1) vs sems' h,
      eq_self i,
      to_short-of_short v small,
    )

-- The permission and the place of a set do not depend on what the sets hold.
permcheck-sets :
    (q op : ℕ) (s : Ipc) (f : ℕ → SemSet)
    → permcheck q op (record s { semsets = f }) ≡ permcheck q op s
unfolding permcheck
permcheck-sets q op s f = refl

sem_find-sets :
    (key id : ℕ) (s : Ipc) (f : ℕ → SemSet)
    → sem_find key id (record s { semsets = f }) ≡ sem_find key id s
unfolding find
sem_find-sets key id s f = refl

take-all : {A : Type 0} (xs : List A) → take (length xs) xs ≡ xs
take-all [] = refl
take-all (x ∷ xs) = ap (λ ys. x ∷ ys) (take-all xs)

-- A process that may write and read a set gets back with `ipc_sem_getall` what it gave to
-- `ipc_sem_setall`, one value for each semaphore.
pub getall-setall :
    (id : ℕ) (buf : List ℕ) (time : ℕ) (s : Ipc) (q : ℕ)
    → q ≢ 0
    → sem_find minus_one id s ≡ q
    → permcheck q Perm.perm_w s ≡ true
    → permcheck q Perm.perm_r s ≡ true
    → length buf ≡ (s.semsets q).num
    → AreShort buf
    → ((setall id buf time s).0 ≡ 0) × (getall id (setall id buf time s).1 ≡ (0, buf))
unfolding getall setall
getall-setall id buf time s q ne e may_w may_r all_of_them short =
    rw (e, eq_of_ne q 0 ne, may_w)
      (
        refl,
        rw (
          sem_find-sets minus_one id s _,
          e,
          eq_of_ne q 0 ne,
          permcheck-sets q Perm.perm_r s _,
          may_r,
          eq_self q,
          ← all_of_them,
          take-all buf,
          read_vals-write_vals 0 buf (s.semsets q).sems short,
        ),
      )

-- `ipc_sem_destroy` by a process that may write takes the set off the registry, all other objects
-- in their order, and returns the error -EINVAL. This holds where the registry has no NULL and is of
-- a size below 2 ^ 31.
pub destroy-reports :
    (id : ℕ) (s : Ipc) (q : ℕ)
    → q ≢ 0
    → sem_find minus_one id s ≡ q
    → permcheck q Perm.perm_w s ≡ true
    → NoNull s.objects
    → length s.objects < 2 ^ 31
    → ((destroy id s).0 ≡ einval) × ((destroy id s).1.objects ≡ delete q s.objects)
unfolding destroy
destroy-reports id s q ne e may nn h =
    rw (e, eq_of_ne q 0 ne, may) (refl, (erase_lem s.objects q nn h).0)
