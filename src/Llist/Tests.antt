-- ===== src/Llist/Tests.antt =====
-- A heap with one list of two nodes, and the theorems on lists at it.
use mein_os.Prelude.{◌≡◌, refl, none, some, [], ◌∷◌, arith}
use mein_os.Llist.Mem.{Node, Header, Mem, update}
use mein_os.Llist.Ops.{push, insert, remove}
use mein_os.Llist.Chain.{Cells, IsList, SameElse, Returns}
use mein_os.Llist.Stack.{push_refines}
use mein_os.Llist.Relink.{insert_cell}
use mein_os.Llist.Edit.{insert_refines}
use mein_os.Llist.Remove.{Removed, remove_refines}

abbrev raw : Node
raw = record { value = 99; next = 98 }

abbrev raw_header : Header
raw_header = record { anchor = 97; size = 96 }

-- Header at 1, the nodes at 2 and 3.
abbrev heap : Mem
heap = record {
  nodes =
      update (update (λ _. none) 2 (some (record { value = 20; next = 3 }))) 3
        (some (record { value = 30; next = 0 }));
  lists = update (λ _. none) 1 (some (record { anchor = 2; size = 2 }));
}

abbrev cells : Cells
cells = (2, 20) ∷ (3, 30) ∷ []

heap-IsList : IsList heap 1 cells
heap-IsList = record {
  ne_null = omega arith;
  header = refl;
  chain = (omega arith, refl, refl, (omega arith, refl, refl, tt));
  short = omega arith;
}

push_refines_example :
    Returns
      (λ r m'. (r ≡ 1) × IsList m' 1 ((4, 10) ∷ cells) × SameElse 1 ((4, 10) ∷ []) heap m')
      (push 4 raw 1 10 heap)
push_refines_example =
    push_refines heap 4 raw 1 10 cells heap-IsList (omega arith) refl (omega arith)

insert_refines_example :
    Returns
      (λ r m'.
        (r ≡ 1) × IsList m' 1 (insert_cell cells 1 (4, 25)) × SameElse 1 ((4, 25) ∷ cells) heap m')
      (insert 4 raw 1 1 25 heap)
insert_refines_example =
    insert_refines heap 4 raw 1 1 25 cells heap-IsList (omega arith) refl (omega arith)
      (omega arith)

remove_refines_example : Returns (Removed 1 1 cells heap) (remove 1 1 heap)
remove_refines_example = remove_refines heap 1 1 cells heap-IsList (omega arith)
