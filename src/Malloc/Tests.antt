-- ===== src/Malloc/Tests.antt =====
-- The heap at an arena with a page that is partly in use, and another page to come.
use mein_os.Prelude.{◌≡◌, refl, some, [], ◌∷◌, arith}
use mein_os.Malloc.{Heap, put_size, get_free, malloc, free}
use mein_os.Malloc.Serve.{block}
use mein_os.Malloc.Arena.{Arena, IsSound, with_block, start, next, gets, here}
use mein_os.Malloc.Sound.{Served, malloc-Served, Reaches-IsSound, GivenBack, free-malloc}
use mein_os.Malloc.Enough.{IsSome, malloc-IsSome}
use mein_os.Malloc.Realloc.{Shrunk, realloc, realloc-Shrunk}

abbrev before : Heap
before = record { free = block 4196 3996 ∷ []; size_of = put_size (λ _. 0) 4096 100 }

abbrev first : Arena
first = record { heap = before; pages = 8192 ∷ []; used = block 4096 100 ∷ [] }

first-IsSound : IsSound first
first-IsSound = record {
  are_pages = (omega arith, (omega arith, tt));
  apart = (omega arith, ((omega arith, omega arith), tt));
  once = λ x. ground arith;
  are_used = ((omega arith, omega arith), (refl, tt));
}

malloc-Served_example : Served first 5000 (malloc 5000 first.pages first.heap)
malloc-Served_example = malloc-Served first 5000 first-IsSound (omega arith)

-- The block behind the first one is split.
abbrev after : Heap
after = record { free = block 4228 3964 ∷ []; size_of = put_size before.size_of 4196 32 }

malloc_run : malloc 20 (8192 ∷ []) before ≡ some (4208, 8192 ∷ [], after)
unfolding malloc get_free
malloc_run = refl

free-malloc_example : GivenBack first (8192 ∷ []) (free 4208 after)
free-malloc_example =
    free-malloc first 20 4208 (8192 ∷ []) after first-IsSound (omega arith) malloc_run

Reaches-IsSound_example : IsSound (with_block first 20 (8192 ∷ []) after 4208)
Reaches-IsSound_example = Reaches-IsSound first-IsSound (
    next first (with_block first 20 (8192 ∷ []) after 4208) start
      (gets 20 4208 (8192 ∷ []) first after (omega arith) malloc_run))

malloc-IsSome_example : IsSome (malloc 4072 first.pages before)
malloc-IsSome_example = malloc-IsSome first 4072 8192 [] first-IsSound refl (omega arith)

realloc-Shrunk_example : Shrunk first (block 4096 100) 40 [] (realloc 4108 40 first.pages before)
realloc-Shrunk_example =
    realloc-Shrunk first (block 4096 100) 40 [] first-IsSound (here []) (omega arith) (omega arith)
