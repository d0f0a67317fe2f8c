-- ===== src/Procm/Lookup.antt =====
-- The calls of kernel2/procm.c that look a process up and read from it. In each of them a process is
-- current, so `proc_current` is not NULL.
use mein_os.Prelude.{
  ℕ, ◌≡◌, refl, sym, ◌≢◌, ◌⊎◌, inl, inr, Bool, true, false, ◌&&◌, ◌||◌, not, List, [], ◌∷◌, arith,
  ◌==◌, ==_iff, if◌then◌else◌, Bool-cases, contains,
}
use mathlib.Core.Path.{subst}
use mein_os.Llist.Mem.{eq_of_ne}
use mein_os.Llist.Seq
use mein_os.Llist.Seq.{NoNull}
use mein_os.Procm.State.{Proc, Kernel, minus}

-- The structure that `proc_current` points to.
abbrev pub current_proc : Kernel → Proc
current_proc k = k.procs k.current

unfoldable pub find_from : (ℕ → Proc) → List ℕ → (pid : ℕ) → ℕ
find_from f [] pid = 0
find_from f (p ∷ ps) pid = if p == 0 then 0 else if (f p).pid == pid then p else find_from f ps pid

-- `proc_find`
unfoldable pub find : (pid : ℕ) → Kernel → ℕ
unfolding find_from
find pid k = if (current_proc k).pid == pid then k.current else find_from k.procs k.all pid

-- `proc_ischild`
unfoldable pub ischild : (children : List ℕ) (proc : ℕ) → Bool
ischild [] proc = false
ischild (c ∷ cs) proc = if c == 0 then false else if proc == c then true else ischild cs proc

-- `proc_getpid`
abbrev pub getpid : Kernel → ℕ
getpid k = (current_proc k).pid

-- `proc_getparent`
unfoldable pub getparent : (pid : ℕ) → Kernel → ℕ
getparent pid k =
    let p = find pid k in
    if p == 0 then 0 else if (k.procs p).parent == 0 then 0 else (k.procs (k.procs p).parent).pid

-- `proc_getchild`
unfoldable pub getchild : (pid i : ℕ) → Kernel → ℕ
getchild pid i k =
    let p = find pid k in
    let child = Seq.get (k.procs p).children i in
    if p == 0 then 0 else if child == 0 then minus 1 else (k.procs child).pid

-- `proc_getuid` and `proc_getgid`
unfoldable pub getuid : (id : ℕ) → Kernel → ℕ
getuid id k =
    if id == 1
    then (current_proc k).uid
    else if id == 2
    then (current_proc k).euid
    else if id == 3
    then (current_proc k).suid
    else 0

unfoldable pub getgid : (id : ℕ) → Kernel → ℕ
getgid id k =
    if id == 1
    then (current_proc k).gid
    else if id == 2
    then (current_proc k).egid
    else if id == 3
    then (current_proc k).sgid
    else 0

-- `strcmp(a,b)==0`
unfoldable pub same_name : List ℕ → List ℕ → Bool
same_name [] [] = true
same_name [] (b ∷ bs) = false
same_name (a ∷ xs) [] = false
same_name (a ∷ xs) (b ∷ bs) = a == b && same_name xs bs

-- `proc_getpidbyname`
unfoldable pub getpidbyname : (ℕ → Proc) → List ℕ → (name : List ℕ) → ℕ
getpidbyname f [] name = minus 1
getpidbyname f (p ∷ ps) name =
    if p == 0
    then minus 1
    else if same_name (f p).name name
    then (f p).pid
    else getpidbyname f ps name

-- `proc_getvar`
unfoldable pub getvar : (pid : ℕ) → Kernel → ℕ
getvar pid k =
    let p = find pid k in
    if not (p == 0) && (not ((current_proc k).system == 0) || k.current == p)
    then (k.procs p).var
    else minus 1

-- `r` is a listed process with the identifier, or it is NULL and no listed process has it.
abbrev pub Known : (ℕ → Proc) → List ℕ → (pid r : ℕ) → Type 0
Known f ps pid r =
    (r ≡ 0) × ((q : ℕ) → (contains q ps && (f q).pid == pid) ≡ false)
    ⊎ (contains r ps ≡ true) × ((f r).pid ≡ pid)

pub find_from-here :
    (f : ℕ → Proc) (p : ℕ) (ps : List ℕ) (pid : ℕ)
    → p ≢ 0
    → ((f p).pid == pid) ≡ true
    → find_from f (p ∷ ps) pid ≡ p
unfolding find_from
find_from-here f p ps pid ne e = rw (eq_of_ne p 0 ne, e)

find_from-later :
    (f : ℕ → Proc) (p : ℕ) (ps : List ℕ) (pid : ℕ)
    → p ≢ 0
    → ((f p).pid == pid) ≡ false
    → find_from f (p ∷ ps) pid ≡ find_from f ps pid
unfolding find_from
find_from-later f p ps pid ne e = rw (eq_of_ne p 0 ne, e)

find_from-nil : (f : ℕ → Proc) (pid : ℕ) → find_from f [] pid ≡ 0
unfolding find_from
find_from-nil f pid = refl

Known-later :
    (f : ℕ → Proc) (p r : ℕ) (ps : List ℕ) (pid : ℕ)
    → ((f p).pid == pid) ≡ false
    → Known f ps pid r
    → Known f (p ∷ ps) pid r
Known-later f p r ps pid e (inl (z, rest)) = inl (
  z,
  λ q. elim (Bool-cases (p == q)) [
    | inl same ↦ rw (same, ← (==_iff p q).0 same) e
    | inr other ↦ rw other (rest q)
  ],
)
Known-later f p r ps pid e (inr (on, fits)) = inr (rw on (ground arith), fits)

pub find_from-Known :
    (f : ℕ → Proc) (ps : List ℕ) (pid : ℕ) → NoNull ps → Known f ps pid (find_from f ps pid)
find_from-Known f [] pid n = inl (find_from-nil f pid, λ q. refl)
find_from-Known f (p ∷ ps) pid n = elim (Bool-cases ((f p).pid == pid)) [
  | inl e ↦
      subst (Known f (p ∷ ps) pid) (sym (find_from-here f p ps pid n.0 e))
        (inr (ground arith, (==_iff _ pid).0 e))
  | inr e ↦
      subst (Known f (p ∷ ps) pid) (sym (find_from-later f p ps pid n.0 e))
        (Known-later f p _ ps pid e (find_from-Known f ps pid n.1))
]

-- With no NULL among the processes `proc_find` returns the current process where it has the
-- identifier, else a process of the list that has it, or NULL where there is none.
pub find-Known :
    (pid : ℕ) (k : Kernel)
    → NoNull k.all
    → ((find pid k ≡ k.current) × ((current_proc k).pid ≡ pid))
      ⊎ Known k.procs k.all pid (find pid k)
unfolding find
find-Known pid k n = elim (Bool-cases ((current_proc k).pid == pid)) [
  | inl e ↦ rw e (inl (refl, (==_iff _ pid).0 e))
  | inr e ↦ rw e (inr (find_from-Known k.procs k.all pid n))
]
