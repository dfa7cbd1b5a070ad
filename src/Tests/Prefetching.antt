-- ===== src/Tests/Prefetching.antt =====
-- A directory with two values behind the prefix.
use mathlib.Core.List.Permᴰ
use gedtm30api.Base.{ℕ, ◌≡◌, refl, List, [], ◌∷◌, arith}
use gedtm30api.Base.Int.{pos}
use gedtm30api.Source.Memory.{Memory, memory}
use gedtm30api.Source.Serves.{memory-Serves, AnyRange-Serves}
use gedtm30api.Source.Parallel.{FetchSettings}
use gedtm30api.Source.Reader.{read_full}
use gedtm30api.Source.Memory.{file_read_at}
use gedtm30api.Source.Prefix.{PrefixReader, prefix_reader}
use gedtm30api.Source.Prefix.Sequential.{full_read, StandsAt, read_full-full_read}
use gedtm30api.Tiff.Entry.{IfdEntry}
use gedtm30api.Tiff.Prefetch.{ByteRange}

abbrev twelve_bytes : List ℕ
twelve_bytes = 0 ∷ 1 ∷ 2 ∷ 3 ∷ 4 ∷ 5 ∷ 6 ∷ 7 ∷ 8 ∷ 9 ∷ 10 ∷ 11 ∷ []

abbrev two_in_memory : PrefixReader Memory
two_in_memory = record {
  inner = record { contents = twelve_bytes; offset = 0 };
  prefix = 0 ∷ 1 ∷ [];
  size = pos 12;
  extra = [];
  off = pos 0;
  fallbacks = 0;
}

-- Three shorts, a byte that is inline, and four bytes.
abbrev directory : List IfdEntry
directory =
    record { tag = 258; f_type = 3; count = 3; value_offset = 4; value_bytes = [] }
    ∷ record { tag = 259; f_type = 1; count = 1; value_offset = 1; value_bytes = 1 ∷ [] }
    ∷ record { tag = 700; f_type = 1; count = 4; value_offset = 8; value_bytes = [] }
    ∷ []

abbrev wanted : List ByteRange
wanted = record { start = pos 4; stop = pos 10 } ∷ record { start = pos 8; stop = pos 12 } ∷ []

abbrev in_turn : FetchSettings
in_turn = record { concurrency = 2; chunk_size = 3 }

read_full-full_read_example :
    (p' : PrefixReader Memory) × (read_full (prefix_reader memory) 5 two_in_memory
      ≡ (full_read twelve_bytes 0 5, p'))
    × StandsAt (λ m. m.contents ≡ twelve_bytes) twelve_bytes 5 p'
unfolding file_read_at
read_full-full_read_example =
    read_full-full_read memory twelve_bytes (omega arith)
      (AnyRange-Serves memory (λ m. m.contents ≡ twelve_bytes) twelve_bytes _
        (memory-Serves twelve_bytes))
      0 5 two_in_memory
      (record {
        faithful = record { inner = refl; prefix_inside = omega arith; prefix = refl; extra = tt };
        size = refl;
        off = refl;
      })
      (omega arith)
