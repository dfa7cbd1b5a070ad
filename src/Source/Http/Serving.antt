-- ===== src/Source/Http/Serving.antt =====
-- What an HTTPRangeReader serves, over a server that honours range requests.
use gedtm30api.Base.{
  ℕ, zero, suc, ◌+◌, ◌-◌, ◌≤◌, ◌<◌, ◌≡◌, ap, sym, ◌∙◌, true, false, none, List, length, slice,
  arith, ◌==◌, le→leb, length-slice, take_of_length-le,
}
use gedtm30api.Base.Int.{pos, two63, add64, sub64, add64_small, sub64_small, ltb_ℤ, leb_ℤ}
use gedtm30api.Base.Run.{ok}
use gedtm30api.Source.Memory.{file_read_at}
use gedtm30api.Source.Serves.{Serves, IsInside, file_read_at_within}
use gedtm30api.Source.Http.{
  Client, HttpRangeReader, http_read_at, http_reader, response_read, read_body,
}

-- A server that answers each range of the file with 206 and the bytes of the range.
abbrev pub IsHonoured : Client → List ℕ → Type 0
IsHonoured client file =
    (k n : ℕ)
    → k + suc n ≤ length file
    → client.get (pos k) (pos (k + n)) ≡ ok (record { status = 206; body = slice file k (suc n) })

-- The reader knows the size of the file.
abbrev pub IsSized : List ℕ → HttpRangeReader → Type 0
IsSized file h = h.size ≡ pos (length file)

module _ (client : Client) (file : List ℕ) (small : length file < two63)
    (honoured : IsHonoured client file) where
  body_read :
      (k n : ℕ)
      → k + suc n ≤ length file
      → response_read (suc n) (client.get (pos k) (pos (k + n)))
        ≡ ok (record { bytes = slice file k (suc n); error = none })
  unfolding response_read read_body
  body_read k n inside =
      let size : length (slice file k (suc n)) ≡ suc n = length-slice file k (suc n) inside in
      rw (honoured k n inside, le→leb (suc n) (length (slice file k (suc n))) (omega (arith, size)))
        (ap (λ b. ok (record { bytes = b; error = none }))
          (take_of_length-le (suc n) (slice file k (suc n)) (omega (arith, size))))

  last_byte :
      (k n : ℕ) → k + suc n < two63 → sub64 (add64 (pos k) (pos (suc n))) (pos 1) ≡ pos (k + n)
  last_byte k n h =
      rw (add64_small k (suc n) h)
        (sub64_small (k + suc n) 1 (omega arith) h ∙ ap pos (omega arith))

  read_inside :
      (k n : ℕ) (h : HttpRangeReader)
      → IsSized file h
      → k + suc n ≤ length file
      → http_read_at client (pos k) (suc n) h
        ≡ (ok (record { bytes = slice file k (suc n); error = none }), h)
  unfolding http_read_at
  read_inside k n h sized inside =
      let sum : add64 (pos k) (pos (suc n)) ≡ pos (k + suc n) =
        add64_small k (suc n) (omega arith) in
      let whole : ltb_ℤ (pos (length file)) (pos (k + suc n)) ≡ false = ground arith in
      let below : leb_ℤ (pos (length file)) (pos k) ≡ false = ground arith in
      let last : sub64 (pos (k + suc n)) (pos 1) ≡ pos (k + n) =
        ap (λ e. sub64 e (pos 1)) (sym sum) ∙ last_byte k n (omega arith) in
      rw (sized, sum, whole, below, sum, last, body_read k n inside) (ground arith)

  serve :
      (k n : ℕ) (h : HttpRangeReader)
      → IsSized file h
      → k + n ≤ length file
      → (h' : HttpRangeReader) × (http_read_at client (pos k) n h
          ≡ (ok (file_read_at file (pos k) n), h'))
        × IsSized file h'
  unfolding http_read_at
  serve k zero h sized inside = (h, rw (file_read_at_within file k 0 inside), sized)
  serve k (suc n) h sized inside = (
    h,
    read_inside k n h sized inside
        ∙ ap (λ r. (ok r, h)) (sym (file_read_at_within file k (suc n) inside)),
    sized,
  )

  -- Over a server that answers each range of a file with its bytes, the reader serves the file: ReadAt
  -- of a range that the file has returns its bytes and no error.
  pub http_reader-Serves : Serves (http_reader client) (IsSized file) file (IsInside file)
  unfolding http_reader
  http_reader-Serves = record { reads = λ k n h sized inside range. serve k n h sized inside }

  -- Over a server that answers each range of a file with its bytes: a range that starts in the
  -- file and ends behind it yields the bytes that are there with no error, where io.ReaderAt
  -- wants one.
  pub http_read_at-short :
      (k n : ℕ) (h : HttpRangeReader)
      → IsSized file h
      → k < length file
      → length file < k + n
      → k + n < two63
      → http_read_at client (pos k) n h
        ≡ (ok (record { bytes = slice file k (length file - k); error = none }), h)
  unfolding http_read_at
  http_read_at-short k zero h sized from past range = absurd (omega arith)
  http_read_at-short k (suc n) h sized from past range =
      let m = length file - k - 1 in
      let left : sub64 (pos (length file)) (pos k) ≡ pos (suc m) =
        sub64_small (length file) k (omega arith) small ∙ ap pos (omega arith) in
      let sum : add64 (pos k) (pos (suc n)) ≡ pos (k + suc n) = add64_small k (suc n) range in
      let cut : ltb_ℤ (pos (length file)) (pos (k + suc n)) ≡ true = ground arith in
      let below : leb_ℤ (pos (length file)) (pos k) ≡ false = ground arith in
      let last = last_byte k m (omega arith) in
      let some_bytes : (suc n == 0) ≡ false = ground arith in
      let from_start : ltb_ℤ (pos k) (pos 0) ≡ false = ground arith in
      rw (sized, sum, cut, left, below, last, body_read k m (omega arith), some_bytes, from_start)
        (ap
          (λ j. (
            ok (record { bytes = slice file k j; error = none }),
            record { size = pos (length file); offset = h.offset },
          ))
          {x = suc m} (omega arith))
