-- ===== src/Cog/Open/Serving.antt =====
-- The reader of an opened GeoTIFF serves the file.
use gedtm30api.Base.{ℕ, ◌+◌, ◌<◌, ◌≡◌, ap, List, length}
use gedtm30api.Base.Int.{pos, two63}
use gedtm30api.Base.Run.{ok}
use gedtm30api.Source.Memory.{file_read_at}
use gedtm30api.Source.Reader.{Reader}
use gedtm30api.Source.Serves.{Serves, Ranges}
use gedtm30api.Source.Prefix.Transparent.{IsFaithful, prefix_reader-Serves}
use gedtm30api.Cog.Open.{Opened, prefixed, raw, in_prefixed, in_raw, opened_reader, opened_read_at}

-- What is known of the reader below, and that what is kept in memory is what the file holds.
abbrev pub IsOpened : {S : Type 0} → (S → Type 0) → List ℕ → Opened S → Type 0
IsOpened P file (prefixed p) = IsFaithful P file p
IsOpened P file (raw s) = P s

module _ {S : Type 0} (r : Reader S) {P : S → Type 0} (file : List ℕ) (small : length file < two63)
    (R : Ranges) (serves : Serves r P file R) where
  opened_read_at-file :
      (k n : ℕ) (s : Opened S)
      → IsOpened P file s
      → R k n
      → k + n < two63
      → (s' : Opened S) × (opened_read_at r (pos k) n s ≡ (ok (file_read_at file (pos k) n), s'))
        × IsOpened P file s'
  unfolding opened_read_at
  opened_read_at-file k n (prefixed p) is_open wanted range =
      let (p', run, kept) =
        (prefix_reader-Serves r file small R serves).reads k n p is_open wanted range in
      (prefixed p', ap in_prefixed run, kept)
  opened_read_at-file k n (raw s) is_open wanted range =
      let (s', run, kept) = serves.reads k n s is_open wanted range in (raw s', ap in_raw run, kept)

  pub opened_reader-Serves : Serves (opened_reader r) (IsOpened P file) file R
  unfolding opened_reader
  opened_reader-Serves = record { reads = opened_read_at-file }
