-- ===== src/Memphys/Pages.antt =====
-- The stack of free pages: what is pushed is popped, and the branch that gives a page of the stack back.
use mein_os.Prelude.{
  ℕ, ◌+◌, ◌-◌, ◌≤◌, ◌<◌, ◌≡◌, refl, sym, ap, ==_iff, ◌∙◌, ◌≢◌, inl, inr, Bool, true, false, Option,
  none, some, arith, ◌==◌, Bool-cases, ltb,
}
use mathlib.Core.Path.{subst}
use mein_os.Llist.Mem.{eq_of_ne, eq_self}
use mein_os.Ipc.State.{put}
use mein_os.Memphys.{PageStack, page_size, push, pop, memleft}

-- The stack ends inside the memory that is mapped for it.
abbrev pub IsMapped : PageStack → Type 0
IsMapped s = s.ptr ≤ s.end

-- The stack without its last page
abbrev pub popped : PageStack → PageStack
popped s = record s { ptr = s.ptr - 1 }

pop-some : (s : PageStack) → IsMapped s → 0 < s.ptr → pop s ≡ some (s.slots (s.ptr - 1), popped s)
unfolding pop
pop-some s m h = rw (within, above)
  where
    within : ltb 0 s.ptr ≡ true
    within = ground arith

    above : ltb (s.end + page_size) s.ptr ≡ false
    above = ground arith

push-room :
    (mapped : Bool) (addr : ℕ) (s : PageStack)
    → addr ≢ 0
    → s.ptr ≢ s.end
    → push mapped addr s ≡ some (record s { slots = put s.slots s.ptr addr; ptr = s.ptr + 1 })
unfolding push
push-room mapped addr s ne room = rw (eq_of_ne addr 0 ne, eq_of_ne s.ptr s.end room)

push-full :
    (addr : ℕ) (s : PageStack)
    → addr ≢ 0
    → s.ptr ≡ s.end
    → push true addr s ≡ some (record s { end = s.end + 1024 })
unfolding push
push-full addr s ne full = rw (eq_of_ne addr 0 ne, full, eq_self s.end)

push-none : (addr : ℕ) (s : PageStack) → addr ≢ 0 → s.ptr ≡ s.end → push false addr s ≡ none
unfolding push
push-none addr s ne full = rw (eq_of_ne addr 0 ne, full, eq_self s.end)

push-null : (mapped : Bool) (s : PageStack) → push mapped 0 s ≡ some s
unfolding push
push-null mapped s = refl

pop-empty : (s : PageStack) → s.ptr ≡ 0 → pop s ≡ none
unfolding pop
pop-empty s e = rw e

-- Is what an operation gives mapped, where it gives a stack?
abbrev AllMapped : Option PageStack → Type 0
AllMapped none = Unit
AllMapped (some s) = IsMapped s

push-IsMapped :
    (mapped : Bool) (addr : ℕ) (s : PageStack) → IsMapped s → AllMapped (push mapped addr s)
push-IsMapped mapped addr s m = elim (Bool-cases (addr == 0)) [
  | inl e ↦
      subst (λ a. AllMapped (push mapped a s)) (sym ((==_iff addr 0).0 e))
        (rw (push-null mapped s) m)
  | inr e ↦
      let ne : addr ≢ 0 = λ z. ground (arith, e, z) in
      elim (Bool-cases (s.ptr == s.end)) [
        | inl f ↦ at_end mapped ne ((==_iff s.ptr s.end).0 f)
        | inr f ↦
            let room : s.ptr ≢ s.end = λ z. ground (arith, f, z) in
            rw (push-room mapped addr s ne room) (omega (arith, m, room))
      ]
]
  where
    at_end : (mapped : Bool) → addr ≢ 0 → s.ptr ≡ s.end → AllMapped (push mapped addr s)
    at_end true ne full = rw (push-full addr s ne full) (omega (arith, m))
    at_end false ne full = rw (push-none addr s ne full) tt

-- The stacks that the kernel comes to
pub data Reachable : PageStack → Type 0 where
  start :
      (base : ℕ) (slots : ℕ → ℕ)
      → Reachable (record { base = base; slots = slots; ptr = 0; end = 0 })
  after_push :
      (mapped : Bool) (addr : ℕ) (s s' : PageStack)
      → Reachable s
      → push mapped addr s ≡ some s'
      → Reachable s'
  after_pop : (page : ℕ) (s s' : PageStack) → Reachable s → pop s ≡ some (page, s') → Reachable s'

abbrev stack_of : PageStack → Option (ℕ × PageStack) → PageStack
stack_of d none = d
stack_of d (some r) = r.1

Reachable-IsMapped : {s : PageStack} → Reachable s → IsMapped s
Reachable-IsMapped (start base slots) = omega arith
Reachable-IsMapped (after_push mapped addr s0 t r e) =
    subst AllMapped e (push-IsMapped mapped addr s0 (Reachable-IsMapped r))
Reachable-IsMapped (after_pop page s0 t r e) =
    let m = Reachable-IsMapped r in
    elim (Bool-cases (s0.ptr == 0)) [
      | inl z ↦ let empty = pop-empty s0 ((==_iff s0.ptr 0).0 z) in cc (e, empty)
      | inr z ↦
          let some_left = pop-some s0 m (ground (arith, z)) in
          subst IsMapped (ap (stack_of s0) (sym some_left ∙ e)) (omega (arith, m))
    ]

-- In every stack that pushes and pops lead to from an empty one, each pop gives the page at the top, until
-- the stack is empty. So the branch that gives a page of the stack itself back never runs.
pub Reachable-pop :
    (s : PageStack)
    → Reachable s
    → 0 < s.ptr
    → (pop s ≡ some (s.slots (s.ptr - 1), popped s)) × (s.ptr ≤ s.end)
Reachable-pop s r h = (pop-some s (Reachable-IsMapped r) h, Reachable-IsMapped r)

-- A page is pushed where the stack has room: the memory that is left grows by the page, and the next pop
-- gives it and leaves the stack as high as it was.
pub pop-push_page :
    (mapped : Bool) (addr : ℕ) (s : PageStack)
    → IsMapped s
    → addr ≢ 0
    → s.ptr ≢ s.end
    → let s' : PageStack = record s { slots = put s.slots s.ptr addr; ptr = s.ptr + 1 } in
      (push mapped addr s ≡ some s')
      × (memleft s' ≡ memleft s + page_size)
      × (pop s' ≡ some (addr, record s' { ptr = s.ptr }))
unfolding memleft
pop-push_page mapped addr s m ne room =
    let back : s.ptr + 1 - 1 ≡ s.ptr = omega arith in
    (
      push-room mapped addr s ne room,
      omega arith,
      pop-some _ (omega (arith, m, room)) (omega arith) ∙ rw (back, eq_self s.ptr),
    )

-- A page that is pushed where the stack is full becomes a part of the stack: no memory is gained, and
-- the next pop gives the page that was at the top before.
pub pop-push_full :
    (addr : ℕ) (s : PageStack)
    → addr ≢ 0
    → s.ptr ≡ s.end
    → 0 < s.ptr
    → let s' : PageStack = record s { end = s.end + 1024 } in
      (push true addr s ≡ some s')
      × (memleft s' ≡ memleft s)
      × (pop s' ≡ some (s.slots (s.ptr - 1), popped s'))
unfolding memleft
pop-push_full addr s ne full h =
    (push-full addr s ne full, refl, pop-some _ (omega (arith, full)) h)
