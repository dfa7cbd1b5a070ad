-- ===== src/Tests/Readers.antt =====
-- Readers of a file of eight bytes.
use mathlib.Core.List.Permᴰ
use gedtm30api.Base.{ℕ, ◌≡◌, refl, none, List, [], ◌∷◌, slice, arith}
use gedtm30api.Base.Int.{pos}
use gedtm30api.Base.Run.{ok}
use gedtm30api.Source.Memory.{Memory, memory}
use gedtm30api.Source.Serves.{Serves, IsInside, AnyRange-Serves, memory-Serves}
use gedtm30api.Source.Parallel.{FetchSettings, Chunk, Fill, parallel_read_at}
use gedtm30api.Source.Parallel.Agreement.{
  IsSchedule, parallel_read_at-slice, parallel_read_at-past_end,
}
use gedtm30api.Source.Prefix.{PrefixReader, new_prefix_reader}
use gedtm30api.Source.Prefix.Opening.{memory-FindsEnd, new_prefix_reader-IsFaithful}
use gedtm30api.Source.Prefix.Transparent.{IsFaithful}

abbrev eight_bytes : List ℕ
eight_bytes = 10 ∷ 11 ∷ 12 ∷ 13 ∷ 14 ∷ 15 ∷ 16 ∷ 17 ∷ []

abbrev eight_bytes_reader : Memory
eight_bytes_reader = record { contents = eight_bytes; offset = 0 }

abbrev Kept : Memory → Type 0
Kept m = m.contents ≡ eight_bytes

abbrev two_by_three : FetchSettings
two_by_three = record { concurrency = 2; chunk_size = 3 }

abbrev in_order : List Chunk → List Chunk
in_order cs = cs

in_order-IsSchedule : IsSchedule in_order
in_order-IsSchedule cs = Permᴰ.refl cs

parallel_read_at-slice_example :
    (m : Memory) × (parallel_read_at two_by_three in_order memory (pos 0) 7 eight_bytes_reader
      ≡ (ok (record { buf = slice eight_bytes 0 7; count = 7; error = none }), m))
    × Kept m
parallel_read_at-slice_example =
    parallel_read_at-slice memory eight_bytes
      (AnyRange-Serves memory Kept eight_bytes (IsInside eight_bytes) (memory-Serves eight_bytes)) 0
      7 (omega arith) (omega arith) two_by_three in_order eight_bytes_reader
      (record { concurrency = omega arith; chunk_size = omega arith }) in_order-IsSchedule refl

parallel_read_at-past_end_example :
    (f : Fill) × (m : Memory) × (parallel_read_at two_by_three in_order memory
        (pos 20)
        7
        eight_bytes_reader
      ≡ (ok f, m))
    × (f.count ≡ 7)
    × (f.error ≡ none)
parallel_read_at-past_end_example =
    parallel_read_at-past_end memory eight_bytes (memory-Serves eight_bytes) 20 7 (omega arith)
      two_by_three in_order eight_bytes_reader (omega arith) (omega arith) in_order-IsSchedule refl

new_prefix_reader-IsFaithful_example :
    (p : PrefixReader Memory) × (m : Memory) × (new_prefix_reader two_by_three in_order memory
        (pos 5)
        eight_bytes_reader
      ≡ (ok p, m))
    × (p.prefix ≡ 10 ∷ 11 ∷ 12 ∷ 13 ∷ 14 ∷ [])
    × (p.size ≡ pos 8)
    × IsFaithful Kept eight_bytes p
new_prefix_reader-IsFaithful_example =
    new_prefix_reader-IsFaithful memory eight_bytes (omega arith)
      (AnyRange-Serves memory Kept eight_bytes (IsInside eight_bytes) (memory-Serves eight_bytes))
      two_by_three in_order (record { concurrency = omega arith; chunk_size = omega arith })
      in_order-IsSchedule 4 eight_bytes_reader (memory-FindsEnd eight_bytes (omega arith)) refl
      (omega arith)
