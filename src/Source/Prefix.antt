-- ===== src/Source/Prefix.antt =====
-- `prefixReader` (geotiff/prefix_reader.go): the front of a file and further extents of it served
-- from memory, all else from the reader inside.
pub mod Transparent
pub mod Extents
pub mod Sequential
pub mod Opening
use gedtm30api.Base.{
  ℕ, zero, suc, ◌+◌, ◌-◌, Bool, true, false, ◌&&◌, ◌||◌, Option, none, some, List, [], ◌∷◌, ◌++◌,
  length, take, slice, replicate, leb, ltb, if◌then◌else◌,
}
use gedtm30api.Base.Int.{ℤ, pos, negsuc, add64, sub64, leb_ℤ, ltb_ℤ}
use gedtm30api.Base.Run.{Error, eof, text, Run, ok, err, panic}
use gedtm30api.Base.Io.{Io, ◌>>=◌, pure, throw, continue}
use gedtm30api.Source.Reader.{Read, Reader, Whence}
use gedtm30api.Source.Parallel.{FetchSettings, Fill, Chunk, parallel_read_at}

-- `prefixExtent`
pub record Extent : Type 0 where
  pub off : ℤ
  pub bytes : List ℕ

-- `inner` is the state of the reader inside.
pub record PrefixReader (S : Type 0) : Type 0 where
  pub inner : S
  pub prefix : List ℕ
  pub size : ℤ
  pub extra : List Extent
  pub off : ℤ
  pub fallbacks : ℕ

-- `SetHeaderPrefetchSize`, on the setting.
unfoldable pub set_header_prefetch_size : ℤ → ℤ → ℤ
set_header_prefetch_size n setting = if leb_ℤ (pos 1) n then n else setting

module _ {S : Type 0} where
  -- `addExtent`
  pub add_extent : ℤ → List ℕ → PrefixReader S → PrefixReader S
  add_extent off [] p = p
  add_extent off (b ∷ bs) p = record p {
    extra = p.extra ++ record { off = off; bytes = b ∷ bs } ∷ [];
  }

-- Whether `[start, stop)` lies in the extent; the sum is one of int64.
unfoldable pub in_extent : Extent → ℤ → ℤ → Bool
in_extent e start stop = leb_ℤ e.off start && leb_ℤ stop (add64 e.off (pos (length e.bytes)))

unfoldable pub in_some_extent : List Extent → ℤ → ℤ → Bool
in_some_extent [] start stop = false
in_some_extent (e ∷ es) start stop = in_extent e start stop || in_some_extent es start stop

unfoldable pub in_prefix : List ℕ → ℤ → ℤ → Bool
in_prefix prefix start stop = leb_ℤ (pos 0) start && leb_ℤ stop (pos (length prefix))

-- `covers`
unfoldable pub covers : {S : Type 0} → PrefixReader S → ℤ → ℤ → Bool
covers p start stop = in_prefix p.prefix start stop || in_some_extent p.extra start stop

-- `xs[lo:hi]`; bounds that do not fit panic.
pub go_slice : List ℕ → ℤ → ℤ → Run (List ℕ)
go_slice xs (pos lo) (pos hi) =
    if leb lo hi && leb hi (length xs) then ok (slice xs lo (hi - lo)) else panic
go_slice xs _ _ = panic

copied : Run (List ℕ) → Run Read
copied (ok bs) = ok (record { bytes = bs; error = none })
copied _ = panic

read_extent : Extent → ℤ → ℕ → Run Read
read_extent e off n =
    let start = sub64 off e.off in copied (go_slice e.bytes start (add64 start (pos n)))

-- The first extent that holds the range.
from_extents : List Extent → ℤ → ℕ → Option (Run Read)
from_extents [] off n = none
from_extents (e ∷ es) off n =
    if in_extent e off (add64 off (pos n))
    then some (read_extent e off n)
    else from_extents es off n

module _ {S : Type 0} (r : Reader S) where
  -- The read of the reader inside, counted.
  fall_back : ℤ → ℕ → Io (PrefixReader S) Read
  fall_back off n p =
      let (read, s) = r.read_at off n p.inner in
      (read, record p { inner = s; fallbacks = p.fallbacks + 1 })

  or_fall_back : Option (Run Read) → ℤ → ℕ → Io (PrefixReader S) Read
  or_fall_back (some read) off n p = (read, p)
  or_fall_back none off n p = fall_back off n p

  -- `ReadAt`
  pub prefix_read_at : ℤ → ℕ → Io (PrefixReader S) Read
  prefix_read_at off n p =
      let stop = add64 off (pos n) in
      if in_prefix p.prefix off stop
      then (copied (go_slice p.prefix off stop), p)
      else or_fall_back (from_extents p.extra off n) off n p

  advance : Read → Io (PrefixReader S) Read
  advance read p = (ok read, record p { off = add64 p.off (pos (length read.bytes)) })

  -- `Read`
  pub prefix_read : ℕ → Io (PrefixReader S) Read
  prefix_read n p =
      if leb_ℤ p.size p.off
      then (ok (record { bytes = []; error = some eof }), p)
      else (do read ← prefix_read_at p.off n; advance read) p

  seek_position : PrefixReader S → ℤ → Whence → Run ℤ
  seek_position p offset Whence.start = ok offset
  seek_position p offset Whence.current = ok (add64 p.off offset)
  seek_position p offset Whence.end = ok (add64 p.size offset)
  seek_position p offset (Whence.other w) = err (text "invalid whence")

  seek_to : ℤ → Io (PrefixReader S) ℤ
  seek_to (pos abs) p = (ok (pos abs), record p { off = pos abs })
  seek_to (negsuc abs) p = (err (text "negative position"), p)

  -- `Seek`
  pub prefix_seek : ℤ → Whence → Io (PrefixReader S) ℤ
  prefix_seek offset whence p = continue (seek_position p offset whence) seek_to p

  pub prefix_reader : Reader (PrefixReader S)
  prefix_reader = record { read = prefix_read; seek = prefix_seek; read_at = prefix_read_at }

eof_is_success : Error → List ℕ → Run (List ℕ)
eof_is_success eof bs = ok bs
eof_is_success e bs = err e

-- `buf[:read]` of the first fetch; io.EOF counts for success.
fetched : Fill → Run (List ℕ)
fetched f = elim f.error [
  | none ↦ ok (take f.count f.buf)
  | some e ↦ eof_is_success e (take f.count f.buf)
]

clip : List ℕ → ℤ → Run (List ℕ)
clip prefix size =
    if ltb_ℤ size (pos (length prefix)) then go_slice prefix (pos 0) size else ok prefix

module _ {S : Type 0} (c : FetchSettings) (order : List Chunk → List Chunk) (r : Reader S) where
  -- The header prefetch, of a setting that is positive.
  fetch_prefix : ℤ → Io S (List ℕ)
  fetch_prefix (negsuc n) s = (ok [], s)
  fetch_prefix (pos zero) s = (ok [], s)
  fetch_prefix (pos (suc n)) s =
      (do f ← parallel_read_at c order r (pos 0) (suc n); λ s'. (fetched f, s')) s

  -- `newPrefixReader`
  pub new_prefix_reader : ℤ → Io S (PrefixReader S)
  new_prefix_reader prefetch_size = do
    bytes ← fetch_prefix prefetch_size
    size ← r.seek (pos 0) Whence.end
    prefix ← (λ s. (clip bytes size, s))
    λ s. (
      ok (record {
        inner = s;
        prefix = prefix;
        size = size;
        extra = [];
        off = pos 0;
        fallbacks = 0;
      }),
      s,
    )
