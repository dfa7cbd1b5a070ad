-- ===== src/Source/Parallel.antt =====
-- `parallelReadAt` and its settings (geotiff/parallel_read.go).
pub mod Settings
pub mod Order
pub mod Agreement
use gedtm30api.Base.{
  ℕ, zero, suc, ◌+◌, ◌-◌, ◌*◌, Bool, true, false, ◌||◌, Option, none, some, List, [], ◌∷◌, ◌++◌,
  length, replicate, min, leb, ltb, if◌then◌else◌,
}
use gedtm30api.Base.Int.{ℤ, pos, negsuc, add64, ltb_ℤ}
use gedtm30api.Base.Run.{Error, eof, text, external, wrap, unexpected_eof, Run, ok}
use gedtm30api.Base.Io.{Io, ◌>>=◌, pure}
use gedtm30api.Source.Reader.{Read, Reader}

-- `tileFetchConcurrency` and `tileFetchChunkSize`.
pub record FetchSettings : Type 0 where
  pub concurrency : ℕ
  pub chunk_size : ℕ

abbrev pub default_settings : FetchSettings
default_settings = record { concurrency = 4; chunk_size = 2 * 1024 * 1024 }

to_positive : ℤ → ℕ
to_positive (pos n) = if ltb n 1 then 1 else n
to_positive (negsuc n) = 1

-- `SetTileFetchConcurrency`
pub set_tile_fetch_concurrency : ℤ → FetchSettings → FetchSettings
set_tile_fetch_concurrency n c = record c { concurrency = to_positive n }

-- `SetTileFetchChunkSize`
pub set_tile_fetch_chunk_size : ℤ → FetchSettings → FetchSettings
set_tile_fetch_chunk_size (pos n) c = if leb 1 n then record c { chunk_size = n } else c
set_tile_fetch_chunk_size (negsuc n) c = c

-- What a read leaves in the buffer, and what it returns.
pub record Fill : Type 0 where
  pub buf : List ℕ
  pub count : ℕ
  pub error : Option Error

-- The range of one goroutine in the buffer: from `lo` up to `hi`.
pub record Chunk : Type 0 where
  pub lo : ℕ
  pub hi : ℕ

-- The loop that starts the goroutines. A round moves on by at least one byte, so `n` rounds are
-- enough.
pub chunks : ℕ → ℕ → ℕ → ℕ → List Chunk
chunks zero start size n = []
chunks (suc fuel) start size n =
    let hi = min (start + size) n in
    let rest = chunks fuel (start + size) size n in
    if ltb start n then record { lo = start; hi = hi } ∷ rest else []

-- `copy` into the buffer from index `at` on; what does not fit is dropped.
unfoldable pub write : List ℕ → ℕ → List ℕ → List ℕ
write buf at [] = buf
write [] at (b ∷ bs) = []
write (x ∷ buf) zero (b ∷ bs) = b ∷ write buf zero bs
write (x ∷ buf) (suc at) (b ∷ bs) = x ∷ write buf at (b ∷ bs)

-- The error that a chunk reports: io.EOF counts for none.
chunk_error : Option Error → Option Error
chunk_error none = none
chunk_error (some eof) = none
chunk_error (some e) = some e

first_error : Option Error → Option Error → Option Error
first_error (some e) new = some e
first_error none new = new

-- The goroutines, in the order in which their reads are done.
pub run_chunks : {S : Type 0} → Reader S → ℤ → List Chunk → List ℕ → Option Error → Io S Fill
run_chunks r off [] buf first = pure (record { buf = buf; count = 0; error = first })
run_chunks r off (c ∷ cs) buf first = do
  read ← r.read_at (add64 off (pos c.lo)) (c.hi - c.lo)
  run_chunks r off cs (write buf c.lo read.bytes) (first_error first (chunk_error read.error))

returned_count : ℕ → Option Error → ℕ
returned_count n none = n
returned_count n (some e) = 0

finish : ℕ → Fill → Fill
finish n f = record f { count = returned_count n f.error }

-- What `ReadAt` leaves in a zeroed buffer of `n` bytes.
pub direct : ℕ → Read → Fill
direct n read = record {
  buf = write (replicate n 0) 0 read.bytes;
  count = length read.bytes;
  error = read.error;
}

-- `parallelReadAt` of `n` bytes; `order` is the order in which the chunks are done.
pub parallel_read_at :
    {S : Type 0} → FetchSettings → (List Chunk → List Chunk) → Reader S → ℤ → ℕ → Io S Fill
parallel_read_at c order r off n =
    if leb c.concurrency 1 || leb n c.chunk_size
    then (do read ← r.read_at off n; pure (direct n read))
    else (do
      f ← run_chunks r off (order (chunks n 0 c.chunk_size n)) (replicate n 0) none
      pure (finish n f))
