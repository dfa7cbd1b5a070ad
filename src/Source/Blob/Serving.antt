-- ===== src/Source/Blob/Serving.antt =====
-- What a BlobReader serves, over a bucket that holds the object.
use gedtm30api.Base.{ℕ, ◌+◌, ◌≤◌, ◌<◌, ◌≡◌, ◌⊎◌, List, length, slice}
use gedtm30api.Base.Int.{pos, negsuc, two63}
use gedtm30api.Base.Run.{ok}
use gedtm30api.Source.Serves.{Serves}
use gedtm30api.Source.Blob.{Bucket, BlobReader, learn_size}

-- A bucket that opens each range of the object with its bytes and with the size of the whole.
abbrev pub IsStored : Bucket → List ℕ → Type 0
IsStored bucket file =
    (k n : ℕ)
    → k + n ≤ length file
    → bucket.new_range_reader (pos k) n
      ≡ ok (record { size = pos (length file); body = slice file k n })

-- The size is not known yet, or it is that of the object.
abbrev pub IsSizedOrNew : List ℕ → BlobReader → Type 0
IsSizedOrNew file b = (b.size ≡ negsuc 0) ⊎ (b.size ≡ pos (length file))

module _ (bucket : Bucket) (file : List ℕ) (small : length file < two63)
    (stored : IsStored bucket file) where
  learnt : BlobReader → BlobReader
  learnt b = learn_size (pos (length file)) b
