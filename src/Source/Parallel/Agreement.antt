-- ===== src/Source/Parallel/Agreement.antt =====
-- What `parallelReadAt` returns over a reader that serves a file.
use mathlib.Core.List.{Permᴰ}
use gedtm30api.Base.{
  ℕ, zero, suc, ◌+◌, ◌-◌, ◌≤◌, ◌<◌, ◌≡◌, refl, ap, inl, inr, ◌||◌, none, List, [], ◌∷◌, arith,
  length, slice, replicate, length-slice, length-replicate, leb, All, Bool-cases, gt→leb,
}
use gedtm30api.Base.Int.{pos, two63, add64_small}
use gedtm30api.Base.Run.{ok}
use gedtm30api.Source.Reader.{Reader}
use gedtm30api.Source.Memory.{file_read_at}
use gedtm30api.Source.Serves.{Serves, IsInside, AnyRange, file_read_at_within}
use gedtm30api.Source.Parallel.{
  FetchSettings, Fill, Chunk, chunks, write, run_chunks, chunk_error, first_error, finish,
  returned_count, direct, parallel_read_at,
}
use gedtm30api.Source.Parallel.Settings.{IsUsable}
use gedtm30api.Source.Parallel.Order.{
  IsWithin, IsFilling, IsFilling-nil, IsFilling-write, Covered-Permᴰ, chunks-Covered,
  chunks-IsWithin, All-Permᴰ,
}

-- The order in which a scheduler lets the chunks be done: some permutation of them.
abbrev pub IsSchedule : (List Chunk → List Chunk) → Type 0
IsSchedule order = (cs : List Chunk) → Permᴰ cs (order cs)

write_all : (buf bs : List ℕ) → length bs ≡ length buf → write buf 0 bs ≡ bs
unfolding write
write_all [] [] h = refl
write_all (x ∷ buf) [] h = absurd (omega arith)
write_all [] (b ∷ bs) h = absurd (omega arith)
write_all (x ∷ buf) (b ∷ bs) h = ap (◌∷◌ b) (write_all buf bs (omega arith))

module _ {S : Type 0} (r : Reader S) {P : S → Type 0} (file : List ℕ)
    (serves : Serves r P file (IsInside file)) (k n : ℕ) (inside : k + n ≤ length file)
    (small : length file < two63) where
  run_chunks-fill :
      (cs : List Chunk) (buf : List ℕ) (s : S)
      → P s
      → All (IsWithin n) cs
      → IsFilling file k n inside cs buf
      → (s' : S) × (run_chunks r (pos k) cs buf none s
          ≡ (ok (record { buf = slice file k n; count = 0; error = none }), s'))
        × P s'
  unfolding run_chunks first_error chunk_error
  run_chunks-fill [] buf s p within filling = (
    s,
    ap (λ b. (ok (record { buf = b; count = 0; error = none }), s))
        (IsFilling-nil file k n inside buf filling),
    p,
  )
  run_chunks-fill (c ∷ cs) buf s p within filling =
      let (s1, read, p1) = serves.reads (k + c.lo) (c.hi - c.lo) s p (omega arith) (omega arith) in
      let there = file_read_at_within file (k + c.lo) (c.hi - c.lo) (omega arith) in
      let next = IsFilling-write file k n inside c cs buf within.0 filling in
      let (s2, rest, p2) = run_chunks-fill cs _ s1 p1 within.1 next in
      (s2, rw (add64_small k c.lo (omega arith), read, there) rest, p2)

  -- Over a reader that serves the ranges of a file, with at least one request at a time and
  -- one byte per chunk: parallelReadAt of a range that the file has, below the end of int64,
  -- fills the buffer with the bytes of the range and returns their number and no error, in
  -- whatever order the chunks are done, as one ReadAt does.
  pub parallel_read_at-slice :
      (c : FetchSettings) (order : List Chunk → List Chunk) (s : S)
      → IsUsable c
      → IsSchedule order
      → P s
      → (s' : S) × (parallel_read_at c order r (pos k) n s
          ≡ (ok (record { buf = slice file k n; count = n; error = none }), s'))
        × P s'
  unfolding parallel_read_at direct finish returned_count
  parallel_read_at-slice c order s usable sched p =
      elim (Bool-cases (leb c.concurrency 1 || leb n c.chunk_size)) [
        | inl one ↦
            let (s1, read, p1) = serves.reads k n s p inside (omega arith) in
            let there = file_read_at_within file k n inside in
            let size = length-slice file k n inside in
            let zeros : List ℕ = replicate n 0 in
            let full : length (slice file k n) ≡ length zeros =
              omega (arith, size, length-replicate {A = ℕ} n 0) in
            let whole = write_all zeros (slice file k n) full in
            (
              s1,
              rw (one, read, there, size)
                  (ap (λ b. (ok (record { buf = b; count = n; error = none }), s1)) whole),
              p1,
            )
        | inr many ↦
            let cs = chunks n 0 c.chunk_size n in
            let (s1, run, p1) =
              run_chunks-fill (order cs) (replicate n 0) s p
                (All-Permᴰ n (sched cs) (chunks-IsWithin n 0 c.chunk_size n))
                (
                  length-replicate n 0,
                  λ i h. inl (
                      Covered-Permᴰ i (sched cs) (
                        chunks-Covered n 0 c.chunk_size n i usable.chunk_size (omega arith)
                          (omega arith) h)),
                ) in
            (s1, rw (many, run), p1)
      ]

-- A chunk that meets the end of the file reports no error.
chunk_error-file_read_at :
    (file : List ℕ) (k n : ℕ) → chunk_error (file_read_at file (pos k) n).error ≡ none
unfolding chunk_error file_read_at
chunk_error-file_read_at file k zero = refl
chunk_error-file_read_at file k (suc n) = ground arith

module _ {S : Type 0} (r : Reader S) {P : S → Type 0} (file : List ℕ)
    (serves : Serves r P file AnyRange) (k n : ℕ) (range : k + n < two63) where
  run_chunks-no_error :
      (cs : List Chunk) (buf : List ℕ) (s : S)
      → P s
      → All (IsWithin n) cs
      → (f : Fill) × (s' : S) × (run_chunks r (pos k) cs buf none s ≡ (ok f, s')) × (f.error ≡ none)
  unfolding run_chunks first_error
  run_chunks-no_error [] buf s p within =
      (record { buf = buf; count = 0; error = none }, s, refl, refl)
  run_chunks-no_error (c ∷ cs) buf s p within =
      let (s1, read, p1) = serves.reads (k + c.lo) (c.hi - c.lo) s p tt (omega arith) in
      let quiet = chunk_error-file_read_at file (k + c.lo) (c.hi - c.lo) in
      let buf' = write buf c.lo (file_read_at file (pos (k + c.lo)) (c.hi - c.lo)).bytes in
      let (f, s2, rest, e) = run_chunks-no_error cs buf' s1 p1 within.1 in
      (f, s2, rw (add64_small k c.lo (omega arith), read, quiet) rest, e)

  -- Over a reader that serves every range as ReadAt of the file does: a read that is split
  -- returns the size of the buffer and no error wherever the file ends, also where the range
  -- lies past its end and one ReadAt returns io.EOF.
  pub parallel_read_at-past_end :
      (c : FetchSettings) (order : List Chunk → List Chunk) (s : S)
      → 1 < c.concurrency
      → c.chunk_size < n
      → IsSchedule order
      → P s
      → (f : Fill) × (s' : S) × (parallel_read_at c order r (pos k) n s ≡ (ok f, s'))
        × (f.count ≡ n)
        × (f.error ≡ none)
  unfolding parallel_read_at finish
  parallel_read_at-past_end c order s conc split sched p =
      let cs = chunks n 0 c.chunk_size n in
      let within = All-Permᴰ n (sched cs) (chunks-IsWithin n 0 c.chunk_size n) in
      let (f, s1, run, e) = run_chunks-no_error (order cs) (replicate n 0) s p within in
      (
        finish n f,
        s1,
        rw (gt→leb c.concurrency 1 conc, gt→leb n c.chunk_size split, run),
        unfold returned_count in rw e,
        e,
      )
