-- ===== src/Tiff/Prefetch.antt =====
-- `prefetchMissingRanges` (geotiff/geotiff.go): the values that lie outside what is in memory are
-- fetched in as few reads as possible.
pub mod Cover
pub mod Ranges
pub mod Fetched
use gedtm30api.Base.{
  ℕ, zero, suc, ◌+◌, ◌*◌, ◌^◌, Bool, true, false, Option, none, some, List, [], ◌∷◌, length, take,
  ltb, leb, if◌then◌else◌,
}
use gedtm30api.Base.Int.{ℤ, pos, negsuc, int64, add64, sub64, mul64, leb_ℤ, ltb_ℤ}
use gedtm30api.Base.Run.{Error, eof, Run, ok, err, panic, hang, ◌>>=◌}
use gedtm30api.Base.Io
use gedtm30api.Base.Io.{Io}
use gedtm30api.Source.Reader.{Reader}
use gedtm30api.Source.Parallel.{FetchSettings, Fill, Chunk, parallel_read_at}
use gedtm30api.Source.Prefix.{PrefixReader, covers, add_extent}
use gedtm30api.Tiff.FieldType.{bytes}
use gedtm30api.Tiff.Entry.{IfdEntry}
use gedtm30api.Tiff.Value.{max_alloc}

-- `byteRange`
pub record ByteRange : Type 0 where
  pub start : ℤ
  pub stop : ℤ

abbrev pub max_merge_span : ℤ
max_merge_span = pos (4 * 1024 * 1024)

module _ {S : Type 0} (p : PrefixReader S) where
  abbrev range_of_length : ℤ → ℤ → Option ByteRange
  range_of_length start length =
      let stop = add64 start length in
      if leb_ℤ length (pos 0)
      then none
      else if covers p start stop
      then none
      else some (record { start = start; stop = stop })

  -- The range that an entry's value still wants, if it wants one.
  abbrev missing_range : IfdEntry → Run (Option ByteRange)
  missing_range e =
      if ltb 0 (length e.value_bytes)
      then ok none
      else bytes e.f_type >>= λ size.
          ok (range_of_length (int64 e.value_offset) (mul64 (pos size) (int64 e.count)))

  unfoldable pub missing_ranges : List IfdEntry → Run (List ByteRange)
  missing_ranges [] = ok []
  missing_ranges (e ∷ es) = missing_range e >>= λ m.
      missing_ranges es >>= λ ms. ok (elim m [ none ↦ ms | some r ↦ r ∷ ms ])

-- sort.Slice by start; ranges that start together may come in another order there.
insert : ByteRange → List ByteRange → List ByteRange
insert r [] = r ∷ []
insert r (m ∷ ms) = let rest = insert r ms in if leb_ℤ r.start m.start then r ∷ m ∷ ms else m ∷ rest

pub sort : List ByteRange → List ByteRange
sort [] = []
sort (r ∷ rs) = insert r (sort rs)

extend : ByteRange → ByteRange → ByteRange
extend last m = if ltb_ℤ last.stop m.stop then record last { stop = m.stop } else last

-- The loop that merges the sorted ranges; `last` is the group at the end of the list so far. The
-- source keeps the groups in the front of the array that it ranges over, behind what it has read.
pub merge : ByteRange → List ByteRange → List ByteRange
merge last [] = last ∷ []
merge last (m ∷ ms) =
    let same = merge (extend last m) ms in
    let next = last ∷ merge m ms in
    if leb_ℤ (sub64 m.stop last.start) max_merge_span then same else next

pub groups : List ByteRange → List ByteRange
groups [] = []
groups (m ∷ ms) = merge m ms

fetch_result : Fill → List ℕ
fetch_result f = elim f.error [
  | none ↦ take f.count f.buf
  | some e ↦ (elim e [ eof ↦ take f.count f.buf | _ ↦ [] ])
]

module _ {S : Type 0} where
  add_extents : List (ByteRange × List ℕ) → PrefixReader S → PrefixReader S
  add_extents [] p = p
  add_extents ((g, bytes) ∷ rest) p = add_extents rest (add_extent g.start bytes p)

  added : Run (List (ByteRange × List ℕ)) × S → Io (PrefixReader S) (Unit {0})
  added (ok results, s) p = (ok tt, add_extents results (record p { inner = s }))
  added (err e, s) p = (err e, record p { inner = s })
  added (panic, s) p = (panic, record p { inner = s })
  added (hang, s) p = (hang, record p { inner = s })

module _ {S : Type 0} (c : FetchSettings) (order : List Chunk → List Chunk) (r : Reader S) where
  -- `make` of the buffer of a group, and its read; a failed read leaves nothing.
  fetch_sized : ByteRange → ℤ → Io S (List ℕ)
  fetch_sized g (negsuc n) s = (panic, s)
  fetch_sized g (pos n) s =
      let (f, s') = parallel_read_at c order r g.start n s in
      if ltb max_alloc n then (panic, s) else (f >>= λ fill. ok (fetch_result fill), s')

  fetch_group : ByteRange → Io S (List ℕ)
  fetch_group g = fetch_sized g (sub64 g.stop g.start)

  -- The groups are fetched by goroutines of their own, and their extents added afterwards; a
  -- reader whose ReadAt is stateless serves them in any order alike.
  fetch_groups : List ByteRange → Io S (List (ByteRange × List ℕ))
  fetch_groups [] s = (ok [], s)
  fetch_groups (g ∷ gs) s =
      Io.◌>>=◌ (fetch_group g)
        (λ bytes. Io.◌>>=◌ (fetch_groups gs) (λ rest. Io.pure ((g, bytes) ∷ rest))) s

  prefetched : Run (List ByteRange) → Io (PrefixReader S) (Unit {0})
  prefetched (ok missing) p = added (fetch_groups (groups (sort missing)) p.inner) p
  prefetched (err e) p = (err e, p)
  prefetched panic p = (panic, p)
  prefetched hang p = (hang, p)

  pub prefetch_missing_ranges : List IfdEntry → Io (PrefixReader S) (Unit {0})
  prefetch_missing_ranges entries p = prefetched (missing_ranges p entries) p
