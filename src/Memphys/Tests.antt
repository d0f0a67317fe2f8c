-- ===== src/Memphys/Tests.antt =====
-- The theorems on pages at a bitmap with taken pages and a stack with one page.
use mein_os.Prelude.{ℕ, ◌*◌, ◌≤◌, ◌≡◌, refl, Bool, true, some, arith, ltb, ◌==◌, ◌||◌}
use mein_os.Ipc.State.{put}
use mein_os.Memphys.{PageStack, page_size, push, pop, dma_alloc, scan}
use mein_os.Memphys.Bitmap.{Allocated, dma_alloc-Allocated}
use mein_os.Memphys.Pages.{Reachable, start, after_push, popped, Reachable-pop}

-- Pages 0 to 4 and page 7 are taken.
abbrev bitmap : ℕ → Bool
bitmap i = ltb i 5 || i == 7

-- Pages 5 and 6 are not enough for three.
third : (dma_alloc 3 bitmap).0 ≡ 8 * page_size
unfolding dma_alloc scan
third = refl

dma_alloc-Allocated_example : Allocated 3 bitmap (dma_alloc 3 bitmap)
dma_alloc-Allocated_example = dma_alloc-Allocated 3 bitmap (omega arith)

abbrev empty : PageStack
empty = record { base = 0x300000; slots = λ i. 0; ptr = 0; end = 0 }

-- The first page that is pushed holds the stack, and the second is on it.
abbrev grown : PageStack
grown = record empty { end = 1024 }

abbrev holding : PageStack
holding = record grown { slots = put (λ i. 0) 0 0x500000; ptr = 1 }

reachable : Reachable holding
unfolding push
reachable =
    after_push true 0x500000 grown holding
      (after_push true 0x400000 empty grown (start 0x300000 (λ i. 0)) refl) refl

Reachable-pop_example : (pop holding ≡ some (0x500000, popped holding)) × (1 ≤ 1024)
Reachable-pop_example = Reachable-pop holding reachable (omega arith)

-- A stack that is full up to its end
abbrev crowded : PageStack
crowded = record grown { slots = λ i. i; ptr = 1024 }
