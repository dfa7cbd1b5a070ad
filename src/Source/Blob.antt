-- ===== src/Source/Blob.antt =====
-- `BlobReader` (geotiff/blob_reader.go): an object in a bucket, its size learnt from the first read.
pub mod Serving
use gedtm30api.Base.{
  ℕ, Bool, true, false, Option, none, some, List, [], length, take, ltb, leb, ◌==◌, if◌then◌else◌,
}
use gedtm30api.Base.Int.{ℤ, pos, negsuc, pos_part, add64, sub64, ltb_ℤ, leb_ℤ, eqb_ℤ}
use gedtm30api.Base.Run.{Error, eof, text, wrap, Run, ok, err, panic, hang}
use gedtm30api.Base.Io.{Io, ◌>>=◌, pure}
use gedtm30api.Source.Reader.{Read, Reader, Whence}

-- A range reader of gocloud.dev/blob: the object's whole size, and the bytes that come.
pub record RangeReader : Type 0 where
  pub size : ℤ
  pub body : List ℕ

-- The object in its bucket: `Attributes` for its size, and `NewRangeReader` of an offset and a
-- length.
pub record Bucket : Type 0 where
  pub attributes : Run ℤ
  pub new_range_reader : ℤ → ℕ → Run RangeReader

-- `size` is -1 until it is known; `resolved` is `resolveOnce`.
pub record BlobReader : Type 0 where
  pub size : ℤ
  pub resolved : Bool
  pub resolve_err : Option Error
  pub offset : ℤ

-- `NewBlobReader`
pub new_blob_reader : BlobReader
new_blob_reader = record { size = negsuc 0; resolved = false; resolve_err = none; offset = pos 0 }

-- `CompareAndSwap(-1, n)` on the size.
learn_size : ℤ → BlobReader → BlobReader
learn_size n b = if eqb_ℤ b.size (negsuc 0) then record b { size = n } else b

module _ (bucket : Bucket) where
  -- The function that `resolveOnce` runs.
  resolve : Run ℤ → BlobReader → Run (Unit {0}) × BlobReader
  resolve (ok n) b = (ok tt, learn_size n (record b { resolved = true }))
  resolve (err e) b = (
    ok tt,
    record b { resolved = true; resolve_err = some (wrap "failed to get attributes for key: " e) },
  )
  resolve panic b = (panic, record b { resolved = true })
  resolve hang b = (hang, b)

  resolve_once : Io BlobReader (Unit {0})
  resolve_once b = if b.resolved then (ok tt, b) else resolve bucket.attributes b

  size_or_error : Io BlobReader ℤ
  size_or_error b = elim b.resolve_err [ some e ↦ (err e, b) | none ↦ (ok b.size, b) ]

  -- `knownSize`
  pub known_size : Io BlobReader ℤ
  known_size b =
      if leb_ℤ (pos 0) b.size then (ok b.size, b) else (resolve_once >>= λ _. size_or_error) b

failed : Error → Read
failed e = record { bytes = []; error = some e }

-- io.ReadFull of `n` bytes from a body; a short read is io.EOF.
read_range : ℕ → List ℕ → Read
read_range n body =
    if leb n (length body)
    then record { bytes = take n body; error = none }
    else record { bytes = body; error = some eof }

-- The length of `p` once a known size has cut it.
cut_length : BlobReader → ℤ → ℕ → ℕ
cut_length b off n =
    if leb_ℤ (pos 0) b.size
    then (if ltb_ℤ b.size (add64 off (pos n)) then pos_part (sub64 b.size off) else n)
    else n

module _ (bucket : Bucket) where
  range_read : ℕ → Run RangeReader → Io BlobReader Read
  range_read n (ok rr) b = (ok (read_range n rr.body), learn_size rr.size b)
  range_read n (err e) b = (ok (failed (wrap "failed to create range reader: " e)), b)
  range_read n panic b = (panic, b)
  range_read n hang b = (hang, b)

  -- `readAt`
  pub blob_read_at : ℤ → ℕ → Io BlobReader Read
  blob_read_at off n b =
      let m = cut_length b off n in
      let answer = range_read m (bucket.new_range_reader off m) b in
      if n == 0
      then (ok (record { bytes = []; error = none }), b)
      else if ltb_ℤ off (pos 0)
      then (ok (failed (text "blob.readAt: invalid offset ")), b)
      else if leb_ℤ (pos 0) b.size
      then (if leb_ℤ b.size off then (ok (failed eof), b) else answer)
      else answer

  moved : Read → Io BlobReader Read
  moved read b =
      if ltb 0 (length read.bytes)
      then (ok read, record b { offset = add64 b.offset (pos (length read.bytes)) })
      else (ok read, b)

  read_below : ℕ → ℤ → Io BlobReader Read
  read_below n size b =
      if leb_ℤ size b.offset then (ok (failed eof), b) else (blob_read_at b.offset n >>= moved) b

  -- `Read`; an error of `knownSize` is returned with no bytes.
  error_read : Run ℤ × BlobReader → (ℤ → Io BlobReader Read) → Run Read × BlobReader
  error_read (ok size, b) f = f size b
  error_read (err e, b) f = (ok (failed e), b)
  error_read (panic, b) f = (panic, b)
  error_read (hang, b) f = (hang, b)

  pub blob_read : ℕ → Io BlobReader Read
  blob_read n b = error_read (known_size bucket b) (read_below n)

  seek_position : ℤ → Whence → Io BlobReader ℤ
  seek_position off Whence.start b = (ok off, b)
  seek_position off Whence.current b = (ok (add64 b.offset off), b)
  seek_position off Whence.end b = (known_size bucket >>= λ size. pure (add64 size off)) b
  seek_position off (Whence.other w) b = (err (text "invalid whence"), b)

  seek_to : ℤ → Io BlobReader ℤ
  seek_to (pos off) b = (ok (pos off), record b { offset = pos off })
  seek_to (negsuc off) b = (err (text "cannot seek to negative offset"), b)

  -- `Seek`
  pub blob_seek : ℤ → Whence → Io BlobReader ℤ
  blob_seek off whence = seek_position off whence >>= seek_to

  pub blob_reader : Reader BlobReader
  blob_reader = record { read = blob_read; seek = blob_seek; read_at = blob_read_at }
