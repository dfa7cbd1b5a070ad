-- ===== src/Tiff/Prefetch/Fetched.antt =====
-- After `prefetchMissingRanges` over a reader of a file, the missing values are in memory.
use gedtm30api.Base.{ℕ, ◌-◌, List, slice}
use gedtm30api.Base.Int.{pos_part}
use gedtm30api.Source.Reader.{Reader}
use gedtm30api.Source.Serves.{Serves}
use gedtm30api.Source.Prefix.{Extent}
use gedtm30api.Tiff.Prefetch.{ByteRange}

module _ (file : List ℕ) where
  -- The bytes of a range.
  abbrev bytes_of : ByteRange → List ℕ
  bytes_of g = slice file (pos_part g.start) (pos_part g.stop - pos_part g.start)

  abbrev with_bytes : ByteRange → ByteRange × List ℕ
  with_bytes g = (g, bytes_of g)

  abbrev extent_of : ByteRange → Extent
  extent_of g = record { off = g.start; bytes = bytes_of g }
