-- ===== src/Tests/Remotes.antt =====
-- Remote files: HTTP, libtiff handles and prefetched ranges.
use gedtm30api.Base.{
  ℕ, zero, suc, ◌+◌, ◌≤◌, ◌<◌, ◌≡◌, ◌≢◌, refl, ap, subst, ◌-◌, Bool, none, some, List, [], ◌∷◌,
  slice, All, arith, length,
}
use gedtm30api.Base.Int.{ℤ, pos, pos_part}
use gedtm30api.Base.Run.{ok}
use gedtm30api.Base.Io.{Io}
use gedtm30api.Source.Reader.{Read}
use gedtm30api.Source.Memory.{file_read_at}
use gedtm30api.Source.Serves.{Serves, IsInside}
use gedtm30api.Source.Http.{Client, HttpRangeReader, http_reader, http_read_at}
use gedtm30api.Source.Http.Serving.{IsHonoured, IsSized, http_reader-Serves, http_read_at-short}
use gedtm30api.Source.Blob.{Bucket}
use gedtm30api.Registry.{Registry, RemoteEntry, register_remote_reader, go_remote_read}
use gedtm30api.Registry.Remote.{IsBacked, Reads, register_remote_reader-fresh, go_remote_read-slice}
use gedtm30api.Tiff.Prefetch.{ByteRange, groups, sort}
use gedtm30api.Tiff.Prefetch.Cover.{IsCovered, groups-covers}

abbrev five_bytes : List ℕ
five_bytes = 1 ∷ 2 ∷ 3 ∷ 4 ∷ 5 ∷ []

abbrev five_bytes_client : Client
five_bytes_client = record {
  head = ok (record { status = 200; accepts_ranges = Bool.true; content_length = pos 5 });
  get = λ first last. ok (record {
    status = 206;
    body = slice five_bytes (pos_part first) (suc (pos_part last) - pos_part first);
  });
}

five_bytes-IsHonoured : IsHonoured five_bytes_client five_bytes
five_bytes-IsHonoured k n h =
    ap (λ m. ok (record { status = 206; body = slice five_bytes k m })) {x = suc (k + n) - k}
      {y = suc n} (omega arith)

http_reader-Serves_example :
    Serves (http_reader five_bytes_client) (IsSized five_bytes) five_bytes (IsInside five_bytes)
http_reader-Serves_example =
    http_reader-Serves five_bytes_client five_bytes (omega arith) five_bytes-IsHonoured

abbrev at_start : HttpRangeReader
at_start = record { size = pos 5; offset = pos 0 }

http_read_at-short_example :
    http_read_at five_bytes_client (pos 3) 4 at_start
    ≡ (ok (record { bytes = 4 ∷ 5 ∷ []; error = none }), at_start)
http_read_at-short_example =
    http_read_at-short five_bytes_client five_bytes (omega arith) five_bytes-IsHonoured 3 4 at_start
      refl (omega arith) (omega arith) (omega arith)

abbrev five_bytes_bucket : Bucket
five_bytes_bucket = record {
  attributes = ok (pos 5);
  new_range_reader =
      λ off n. ok (record { size = pos 5; body = slice five_bytes (pos_part off) n });
}

-- One reader, of the five bytes.
abbrev five_bytes_read_at : Unit {0} → ℤ → ℕ → Io ℕ Read
five_bytes_read_at u off n calls = (ok (file_read_at five_bytes off n), suc calls)

abbrev AnyState : ℕ → Type 0
AnyState calls = Unit

five_bytes-Reads : Reads five_bytes_read_at AnyState five_bytes (omega arith) tt
five_bytes-Reads k n calls p inside = (suc calls, refl, tt)

abbrev buffered : RemoteEntry (Unit {0})
buffered = record { reader = tt; buf = some (2 ∷ 3 ∷ 4 ∷ []); base = pos 1 }

buffered-IsBacked : IsBacked five_bytes buffered
buffered-IsBacked = record {
  backed = λ buf h.
      let same : 2 ∷ 3 ∷ 4 ∷ [] ≡ buf = cc in
      subst
        (λ b.
          (at : ℕ) × (pos 1 ≡ pos at)
          × (at + length b ≤ length five_bytes)
          × (b ≡ slice five_bytes at (length b)))
        same (1, refl, omega arith, refl);
}

abbrev one_handle : Registry (Unit {0})
one_handle = record {
  entries = λ i. elim i [ zero ↦ none | suc j ↦ (elim j [ zero ↦ some buffered | suc k ↦ none ]) ];
  id_counter = 1;
}

go_remote_read-slice_example :
    (calls : ℕ) × (go_remote_read five_bytes_read_at one_handle 1 (pos 2) 2 0
      ≡ (ok (record { bytes = 3 ∷ 4 ∷ []; count = pos 2 }), calls))
    × Unit {0}
go_remote_read-slice_example =
    go_remote_read-slice five_bytes_read_at AnyState five_bytes (omega arith) one_handle 1 buffered
      2 2 0 refl buffered-IsBacked five_bytes-Reads tt (omega arith)

one_handle-above : (i : ℕ) → 1 < i → one_handle.entries i ≡ none
one_handle-above zero h = absurd (omega arith)
one_handle-above (suc zero) h = absurd (omega arith)
one_handle-above (suc (suc k)) h = refl

register_remote_reader-fresh_example :
    let (id, g') = register_remote_reader tt one_handle in
    (one_handle.entries id ≡ none)
    × (g'.entries id ≡ some (record { reader = tt; buf = none; base = pos 0 }))
    × ((i : ℕ) → i ≢ id → g'.entries i ≡ one_handle.entries i)
    × ((i : ℕ) → g'.id_counter < i → g'.entries i ≡ none)
register_remote_reader-fresh_example =
    register_remote_reader-fresh one_handle tt
      (record { above = one_handle-above; room = omega arith })

abbrev three_ranges : List ByteRange
three_ranges =
    record { start = pos 900; stop = pos 950 }
    ∷ record { start = pos 9000000; stop = pos 9000040 }
    ∷ record { start = pos 100; stop = pos 800 }
    ∷ []

groups-covers_example : All (IsCovered (groups (sort three_ranges))) three_ranges
groups-covers_example = groups-covers three_ranges
