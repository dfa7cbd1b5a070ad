-- ===== src/Source/Memory.antt =====
-- Go's bytes.Reader: a file in memory, the IFD block that the tag parser reads, and the file that
-- every other reader is measured by.
use gedtm30api.Base.{
  ℕ, zero, suc, ◌+◌, ◌^◌, ◌≤◌, ◌<◌, ◌≡◌, sym, ap, subst, ◌∙◌, none, some, List, [], ◌++◌, arith,
  length, take, drop, slice, leb, if◌then◌else◌, length-take, length-drop, drop-drop,
  take-length_append, drop-length_append, length-append, gt→leb,
}
use gedtm30api.Base.Int.{ℤ, pos, negsuc, add64}
use gedtm30api.Base.Run.{eof, text, Run, ok, err}
use gedtm30api.Bytes.{ByteOrder, put_uint, uint-put_uint, length-put_uint}
use gedtm30api.Source.Reader.{Read, Reader, Whence, read_full, binary_read}

pub record Memory : Type 0 where
  pub contents : List ℕ
  pub offset : ℕ

-- `ReadAt`: the bytes of the range that are there, and io.EOF if some are not.
unfoldable pub file_read_at : List ℕ → ℤ → ℕ → Read
file_read_at file off zero = record { bytes = []; error = none }
file_read_at file (negsuc k) (suc n) = record { bytes = []; error = some (text "negative offset") }
file_read_at file (pos off) (suc n) = record {
  bytes = slice file off (suc n);
  error = if leb (off + suc n) (length file) then none else some eof;
}

unfoldable pub memory_read : Memory → ℕ → Read × Memory
memory_read m n =
    if leb (length m.contents) m.offset
    then (record { bytes = []; error = some eof }, m)
    else let bytes = slice m.contents m.offset n in
      (record { bytes = bytes; error = none }, record m { offset = m.offset + length bytes })

position : Memory → ℤ → Whence → ℤ
position m off Whence.start = off
position m off Whence.current = add64 (pos m.offset) off
position m off Whence.end = add64 (pos (length m.contents)) off
position m off (Whence.other w) = negsuc 0

memory_seek_to : Memory → ℤ → Run ℤ × Memory
memory_seek_to m (pos p) = (ok (pos p), record m { offset = p })
memory_seek_to m (negsuc p) = (err (text "negative position"), m)

unfoldable pub memory_seek : Memory → ℤ → Whence → Run ℤ × Memory
unfolding position memory_seek_to
memory_seek m off whence = memory_seek_to m (position m off whence)

unfoldable pub memory : Reader Memory
unfolding memory_read memory_seek file_read_at
memory = record {
  read = λ n m. let (c, m') = memory_read m n in (ok c, m');
  seek = λ off whence m. memory_seek m off whence;
  read_at = λ off n m. (ok (file_read_at m.contents off n), m);
}

-- A read of bytes that are there returns them and moves past them.
pub read_full-memory :
    (n : ℕ) (m : Memory)
    → m.offset + n ≤ length m.contents
    → read_full memory n m ≡ (ok (slice m.contents m.offset n), record m { offset = m.offset + n })
unfolding read_full memory
read_full-memory zero m h = ground arith
read_full-memory (suc n) m h =
    ground (arith, length-take (suc n) (drop m.offset m.contents), length-drop m.offset m.contents)

module _ (o : ByteOrder) (n v : ℕ) (file rest : List ℕ) (p : ℕ) where
  -- What follows a number that stands at `p`.
  pub drop-put_uint : drop p file ≡ put_uint o n v ++ rest → drop (p + n) file ≡ rest
  drop-put_uint h =
      sym (drop-drop n p file)
      ∙ ap (drop n) h
      ∙ subst (λ k. drop k (put_uint o n v ++ rest) ≡ rest) (length-put_uint o n v)
          (drop-length_append (put_uint o n v) rest)

  pub take-put_uint : drop p file ≡ put_uint o n v ++ rest → slice file p n ≡ put_uint o n v
  take-put_uint at =
      ap (take n) at
      ∙ subst (λ k. take k (put_uint o n v ++ rest) ≡ put_uint o n v) (length-put_uint o n v)
          (take-length_append (put_uint o n v) rest)

  pub put_uint-fits : 0 < n → drop p file ≡ put_uint o n v ++ rest → p + n ≤ length file
  put_uint-fits h at = omega (
    arith,
    ap length at,
    length-append (put_uint o n v) rest,
    length-put_uint o n v,
    length-drop p file,
  )

  pub memory_read-put_uint :
      0 < n
      → drop p file ≡ put_uint o n v ++ rest
      → memory_read (record { contents = file; offset = p }) n ≡ (
        record { bytes = put_uint o n v; error = none },
        record { contents = file; offset = p + n },
      )
  unfolding memory_read
  memory_read-put_uint h at = rw (
    gt→leb (length file) p (omega (arith, put_uint-fits h at)),
    take-put_uint at,
    length-put_uint o n v,
  )

  pub binary_read-put_uint :
      0 < n
      → v < 256 ^ n
      → drop p file ≡ put_uint o n v ++ rest
      → binary_read memory o n (record { contents = file; offset = p })
        ≡ (ok v, record { contents = file; offset = p + n })
  unfolding binary_read
  binary_read-put_uint h small at =
      rw
        (
          read_full-memory n (record { contents = file; offset = p }) (put_uint-fits h at),
          take-put_uint at,
        )
        (ap (λ w. (ok w, record { contents = file; offset = p + n })) (uint-put_uint o n v small))
