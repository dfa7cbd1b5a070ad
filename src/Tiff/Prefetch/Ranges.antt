-- ===== src/Tiff/Prefetch/Ranges.antt =====
-- The groups of ranges of a file are ranges of the file.
use gedtm30api.Base.{
  ℕ, ◌≤◌, ◌<◌, ◌≡◌, inl, inr, true, List, [], ◌∷◌, length, All, arith, Bool-cases,
}
use gedtm30api.Base.Int.{pos, pos_part, sub64, leb_ℤ, ltb_ℤ}
use gedtm30api.Tiff.Prefetch.{ByteRange, max_merge_span, sort, extend, merge, groups}
use gedtm30api.Tiff.Prefetch.Cover.{All-sort}

-- At least one byte, all of them in the file.
abbrev pub IsFileRange : List ℕ → ByteRange → Type 0
IsFileRange file r =
    (r.start ≡ pos (pos_part r.start))
    × (r.stop ≡ pos (pos_part r.stop))
    × (pos_part r.start < pos_part r.stop)
    × (pos_part r.stop ≤ length file)

module _ (file : List ℕ) where
  longer :
      (last m : ByteRange)
      → IsFileRange file last
      → IsFileRange file m
      → ltb_ℤ last.stop m.stop ≡ true
      → pos_part last.start < pos_part m.stop
  longer last m h k more = ground arith

  extend-IsFileRange :
      (last m : ByteRange)
      → IsFileRange file last
      → IsFileRange file m
      → IsFileRange file (extend last m)
  unfolding extend
  extend-IsFileRange last m h k = elim (Bool-cases (ltb_ℤ last.stop m.stop)) [
    | inl more ↦ rw more (h.0, k.1, longer last m h k more, k.3)
    | inr less ↦ rw less h
  ]

  merge-IsFileRange :
      (last : ByteRange) (ms : List ByteRange)
      → IsFileRange file last
      → All (IsFileRange file) ms
      → All (IsFileRange file) (merge last ms)
  unfolding merge
  merge-IsFileRange last [] h all = (h, tt)
  merge-IsFileRange last (m ∷ ms) h all =
      elim (Bool-cases (leb_ℤ (sub64 m.stop last.start) max_merge_span)) [
        | inl near ↦
            rw near (merge-IsFileRange (extend last m) ms (extend-IsFileRange last m h all.0) all.1)
        | inr far ↦ rw far (h, merge-IsFileRange m ms all.0 all.1)
      ]

  groups-IsFileRange :
      (ms : List ByteRange) → All (IsFileRange file) ms → All (IsFileRange file) (groups ms)
  unfolding groups
  groups-IsFileRange [] all = tt
  groups-IsFileRange (m ∷ ms) all = merge-IsFileRange m ms all.0 all.1

  pub groups-sort-IsFileRange :
      (ms : List ByteRange) → All (IsFileRange file) ms → All (IsFileRange file) (groups (sort ms))
  groups-sort-IsFileRange ms all = groups-IsFileRange (sort ms) (All-sort (IsFileRange file) ms all)
