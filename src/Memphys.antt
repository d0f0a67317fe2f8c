-- ===== src/Memphys.antt =====
-- kernel2/memphys.c: the stack of free pages, and the bitmap of the pages for DMA. `panic` ends the
-- kernel, which is `none`.
pub mod Bitmap
pub mod Pages
mod Tests
use mein_os.Prelude.{
  ℕ, zero, suc, ◌+◌, ◌-◌, ◌*◌, ◌/◌, ◌%◌, ◌^◌, Bool, true, false, Option, none, some, ◌==◌,
  if◌then◌else◌, ltb,
}
use mein_os.Ipc.State.{put}

-- `PAGE_SIZE`, and the pages below `MEMPHYS_DMALIMIT`
abbrev pub page_size : ℕ
page_size = 4096

abbrev pub dma_pages : ℕ
dma_pages = 4096

-- `memphys_stackbase`, `memphys_stackptr` and `memphys_stackend`. The last two are counted in elements
-- from the base.
pub record PageStack : Type 0 where
  pub base : ℕ
  pub slots : ℕ → ℕ
  pub ptr : ℕ
  pub end : ℕ

-- `memphys_push`. `mapped` says whether `paging_map` succeeds.
unfoldable pub push : (mapped : Bool) (addr : ℕ) → PageStack → Option PageStack
push mapped addr s =
    if addr == 0
    then some s
    else if s.ptr == s.end
    then (if mapped then some (record s { end = s.end + 1024 }) else none)
    else some (record s { slots = put s.slots s.ptr addr; ptr = s.ptr + 1 })

-- `memphys_pop`
unfoldable pub pop : PageStack → Option (ℕ × PageStack)
pop s =
    if ltb 0 s.ptr
    then if ltb (s.end + page_size) s.ptr
      then some (
        (s.base + 4 * s.end + 2 ^ 32 - 4 * page_size) % 2 ^ 32,
        record s { end = s.end - page_size },
      )
      else some (s.slots (s.ptr - 1), record s { ptr = s.ptr - 1 })
    else none

-- `memphys_memleft`
unfoldable pub memleft : PageStack → ℕ
memleft s = 4 * s.ptr * page_size / 4

-- `memphys_dma_bitmap`: whether the bit of a page is set, which is bit i % 32 of the word i / 32.
-- The loop of `memphys_dma_alloc` that sets the bits
unfoldable pub mark : (count j : ℕ) → (ℕ → Bool) → ℕ → Bool
mark zero j b = b
mark (suc n) j b = mark n (j + 1) (put b j true)

-- The loop that looks for pages, at page `i` with `left` pages to go
unfoldable pub scan : (left i found pages : ℕ) → (ℕ → Bool) → Option ℕ
scan zero i found pages b = none
scan (suc left) i found pages b =
    let found' = if b i then 0 else found + 1 in
    let rest = scan left (i + 1) found' pages b in
    if found' == pages then some (i + 1 - found') else rest

-- `memphys_dma_alloc`
unfoldable pub dma_alloc : (pages : ℕ) → (ℕ → Bool) → ℕ × (ℕ → Bool)
dma_alloc pages b = elim (scan dma_pages 0 0 pages b) [
  | none ↦ (0, b)
  | some start ↦ (start * page_size, mark pages start b)
]

-- `memphys_dma_free`
unfoldable pub dma_free : (addr : ℕ) → (ℕ → Bool) → ℕ → Bool
dma_free addr b = put b (addr / page_size) false
