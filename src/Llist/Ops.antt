-- ===== src/Llist/Ops.antt =====
-- The functions of lib/libmeinos/llist.c on the heap of `Mem`. A `size_t` and an `int` have 32 bits.
-- The loops of `llist_destroy`, `llist_find` and `llist_copy` run on fuel.
use mein_os.Prelude.{
  ℕ, zero, suc, ◌+◌, ◌-◌, ◌%◌, ◌^◌, ◌<◌, ◌≡◌, arith, ltb, ◌==◌, if◌then◌else◌, List, [], ◌∷◌,
}
use mein_os.Llist.Mem.{
  Node, Header, M, no_fuel, pure, ◌>>=◌, ◌>>◌, null, load_node, load_header, set_value, set_next,
  set_anchor, set_size, malloc_node, malloc_header, free_node, free_header,
}

-- `size + 1` and `size - 1` as `size_t`
abbrev pub incr : ℕ → ℕ
incr k = (k + 1) % 2 ^ 32

abbrev pub decr : ℕ → ℕ
decr k = (k + 2 ^ 32 - 1) % 2 ^ 32

-- Below 2 ^ 31 neither of them wraps.
pub incr_lem : (k : ℕ) → k < 2 ^ 31 → incr k ≡ suc k
incr_lem k h = omega arith

pub decr_lem : (k : ℕ) → suc k < 2 ^ 31 → decr (suc k) ≡ k
decr_lem k h = omega arith

unfoldable pub create : (fresh : ℕ) (raw : Header) → M ℕ
create fresh raw = do
  list ← malloc_header fresh raw
  set_anchor list null
  set_size list 0
  pure list

unfoldable pub size : ℕ → M ℕ
size list =
    if list == null
    then pure 0
    else do h ← load_header list; if h.anchor == null then pure 0 else pure h.size

unfoldable pub push : (fresh : ℕ) (raw : Node) (list value : ℕ) → M ℕ
push fresh raw list value = if list == null then pure null else do
  node ← malloc_node fresh raw
  set_value node value
  h ← load_header list
  set_next node h.anchor
  set_anchor list node
  set_size list (incr h.size)
  pure list

-- The node that is taken off is freed, and the count goes down.
unfoldable pub pop : ℕ → M ℕ
pop list = if list == null then pure null else do
  h ← load_header list
  if h.anchor == null then pure null else do
    n ← load_node h.anchor
    set_anchor list n.next
    free_node h.anchor
    set_size list (decr h.size)
    pure n.value

-- `while (llist_pop(list)!=NULL);`
unfoldable pub pop_all : ℕ → ℕ → M (Unit {0})
pop_all zero list = λ _. no_fuel
pop_all (suc fuel) list = do v ← pop list; if v == null then pure tt else pop_all fuel list

unfoldable pub destroy : ℕ → ℕ → M (Unit {0})
destroy fuel list = pop_all fuel list >> free_header list

-- `while (n--) { current = current->next; if (!current) return NULL; }`
unfoldable pub walk : ℕ → ℕ → M ℕ
walk zero current = pure current
walk (suc n) current = do c ← load_node current; if c.next == null then pure null else walk n c.next

-- `n` is the index as an `int`: the same number below 2 ^ 31, and a list that long has no room.
unfoldable pub get_node_at : ℕ → ℕ → M ℕ
unfolding walk
get_node_at list index = if list == null then pure null else do
  h ← load_header list
  if h.anchor == null
      then pure null
      else if ltb (decr h.size) index
      then pure null
      else walk index h.anchor

unfoldable pub get : ℕ → ℕ → M ℕ
get list index = do
  node ← get_node_at list index
  if node == null then pure null else do n ← load_node node; pure n.value

-- The new node is taken from `malloc` before the list and the index are checked.
unfoldable pub insert : (fresh : ℕ) (raw : Node) (list index value : ℕ) → M ℕ
insert fresh raw list index value = do
  new ← malloc_node fresh raw
  set_value new value
  if list == null
      then pure null
      else if index == 0
      then (do
        h ← load_header list
        set_next new h.anchor
        set_anchor list new
        set_size list (incr h.size)
        pure list)
      else do
        prev ← get_node_at list (index - 1)
        if prev == null then pure null else do
          n ← load_node prev
          set_next new n.next
          set_next prev new
          h ← load_header list
          set_size list (incr h.size)
          pure list

unfoldable pub remove : ℕ → ℕ → M ℕ
remove list index =
    if list == null
    then pure null
    else if index == 0
    then (do
      h ← load_header list
      if h.anchor == null then pure null else do
        n ← load_node h.anchor
        set_anchor list n.next
        free_node h.anchor
        set_size list (decr h.size)
        pure n.value)
    else do
      prev ← get_node_at list (index - 1)
      if prev == null then pure null else do
        p ← load_node prev
        if p.next == null then pure null else do
          n ← load_node p.next
          set_next prev n.next
          free_node p.next
          h ← load_header list
          set_size list (decr h.size)
          pure n.value

-- `for (i=0; (element = llist_get(list,i)); i++)`
unfoldable pub find_from : ℕ → ℕ → ℕ → ℕ → M ℕ
find_from zero list sought i = λ _. no_fuel
find_from (suc fuel) list sought i = do
  element ← get list i
  if element == null
      then pure (2 ^ 32 - 1)
      else if element == sought
      then pure i
      else find_from fuel list sought (i + 1)

unfoldable pub find : ℕ → ℕ → ℕ → M ℕ
unfolding find_from
find fuel list sought = find_from fuel list sought 0

-- One address of a new node for each element that is copied.
unfoldable pub copy_from : List ℕ → Node → ℕ → ℕ → ℕ → M ℕ
copy_from [] raw list new i = λ _. no_fuel
copy_from (fresh ∷ rest) raw list new i = do
  element ← get list i
  if element == null
      then pure new
      else do _ ← push fresh raw new element; copy_from rest raw list new (i + 1)

unfoldable pub copy : (fresh : ℕ) (raw : Header) → List ℕ → Node → ℕ → M ℕ
unfolding copy_from
copy fresh raw cells raw_node list = do new ← create fresh raw; copy_from cells raw_node list new 0
