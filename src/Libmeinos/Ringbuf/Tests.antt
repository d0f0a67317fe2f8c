-- ===== src/Libmeinos/Ringbuf/Tests.antt =====
-- The theorems on ring buffers at a buffer of five bytes, and what is lost of five bytes in it.
use mein_os.Prelude.{ℕ, ◌≡◌, refl, some, List, [], ◌∷◌, arith}
use mein_os.Libmeinos.Ringbuf.{Ringbuf, copy_out, read, write, store, copy_in, room}
use mein_os.Libmeinos.Ringbuf.Transfer.{IsValid, contents}
use mein_os.Libmeinos.Ringbuf.Exchange.{read-write}

abbrev bytes : List ℕ
bytes = 1 ∷ 2 ∷ 3 ∷ []

-- The block has 9, 8, 7, 6 and 5.
abbrev buffer : (rpos wpos : ℕ) → Ringbuf
buffer rpos wpos = record { buf = 9 ∷ 8 ∷ 7 ∷ 6 ∷ 5 ∷ []; size = 5; rpos = rpos; wpos = wpos }

valid : IsValid (buffer 3 1)
valid = record { block = refl; reads = omega arith; writes = omega arith; small = omega arith }

empty : IsValid (buffer 3 3)
empty = record { block = refl; reads = omega arith; writes = omega arith; small = omega arith }

ahead : IsValid (buffer 0 4)
ahead = record { block = refl; reads = omega arith; writes = omega arith; small = omega arith }

-- The read goes past the end of the block and starts over.
read-write_example :
    (block : List ℕ) × (write bytes (buffer 3 3) ≡ some (3, record (buffer 3 1) { buf = block }))
    × (read 3 (record (buffer 3 1) { buf = block })
        ≡ some (bytes, record (buffer 1 1) { buf = block }))
    × (contents (record (buffer 1 1) { buf = block }) ≡ [])
read-write_example = read-write bytes (buffer 3 3) empty refl (omega arith) (omega arith)

-- The block is filled, and then nothing waits.
lost :
    write (1 ∷ 2 ∷ 3 ∷ 4 ∷ 5 ∷ []) (buffer 0 0)
    ≡ some (5, record (buffer 0 0) { buf = 1 ∷ 2 ∷ 3 ∷ 4 ∷ 5 ∷ [] })
unfolding write store copy_out copy_in room
lost = refl
