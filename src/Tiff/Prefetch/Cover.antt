-- ===== src/Tiff/Prefetch/Cover.antt =====
-- The groups that `prefetchMissingRanges` fetches.
use gedtm30api.Base.{
  ℕ, suc, ◌≡◌, refl, sym, subst, inl, inr, true, false, some, List, [], ◌∷◌, get_elem?, All, arith,
  Bool-cases,
}
use gedtm30api.Base.Int.{ℤ, sub64, leb_ℤ, ltb_ℤ, ◌≤ℤ◌}
use gedtm30api.Tiff.Prefetch.{ByteRange, max_merge_span, insert, sort, extend, merge, groups}

abbrev pub Within : ByteRange → ByteRange → Type 0
Within r g = (g.start ≤ℤ r.start) × (r.stop ≤ℤ g.stop)

-- Some group holds the whole range.
abbrev pub IsCovered : List ByteRange → ByteRange → Type 0
IsCovered gs r = (i : ℕ) × (g : ByteRange) × (get_elem? gs i ≡ some g) × Within r g

abbrev Sorted : List ByteRange → Type 0
Sorted [] = Unit
Sorted (m ∷ ms) = All (λ r. m.start ≤ℤ r.start) ms × Sorted ms

≤ℤ-total : (a b : ℤ) → leb_ℤ a b ≡ false → b ≤ℤ a
≤ℤ-total a b h = ground arith

≤ℤ-of : (a b : ℤ) → leb_ℤ a b ≡ true → a ≤ℤ b
≤ℤ-of a b h = ground arith

≤ℤ-trans : (a b c : ℤ) → a ≤ℤ b → b ≤ℤ c → a ≤ℤ c
≤ℤ-trans a b c h k = omega arith

All-from :
    (a b : ℤ) (ms : List ByteRange)
    → a ≤ℤ b
    → All (λ r. b ≤ℤ r.start) ms
    → All (λ r. a ≤ℤ r.start) ms
All-from a b [] h all = tt
All-from a b (m ∷ ms) h all = (≤ℤ-trans a b m.start h all.0, All-from a b ms h all.1)

insert-front :
    (r m : ByteRange) (ms : List ByteRange)
    → leb_ℤ r.start m.start ≡ true
    → insert r (m ∷ ms) ≡ r ∷ m ∷ ms
unfolding insert
insert-front r m ms h = rw h

insert-behind :
    (r m : ByteRange) (ms : List ByteRange)
    → leb_ℤ r.start m.start ≡ false
    → insert r (m ∷ ms) ≡ m ∷ insert r ms
unfolding insert
insert-behind r m ms h = rw h

merge-near :
    (last m : ByteRange) (ms : List ByteRange)
    → leb_ℤ (sub64 m.stop last.start) max_merge_span ≡ true
    → merge last (m ∷ ms) ≡ merge (extend last m) ms
unfolding merge
merge-near last m ms h = rw h

merge-far :
    (last m : ByteRange) (ms : List ByteRange)
    → leb_ℤ (sub64 m.stop last.start) max_merge_span ≡ false
    → merge last (m ∷ ms) ≡ last ∷ merge m ms
unfolding merge
merge-far last m ms h = rw h

module _ {κ} (P : ByteRange → Type κ) where
  All-insert : (r : ByteRange) (ms : List ByteRange) → P r → All P ms → All P (insert r ms)
  unfolding insert
  All-insert r [] h all = (h, tt)
  All-insert r (m ∷ ms) h all = elim (Bool-cases (leb_ℤ r.start m.start)) [
    | inl front ↦ rw front (h, all)
    | inr behind ↦ rw behind (all.0, All-insert r ms h all.1)
  ]

  pub All-sort : (ms : List ByteRange) → All P ms → All P (sort ms)
  unfolding sort
  All-sort [] all = tt
  All-sort (m ∷ ms) all = All-insert m (sort ms) all.0 (All-sort ms all.1)

  insert-All : (r : ByteRange) (ms : List ByteRange) → All P (insert r ms) → P r × All P ms
  insert-All r [] all = (unfold insert in (all.0, tt))
  insert-All r (m ∷ ms) all = elim (Bool-cases (leb_ℤ r.start m.start)) [
    | inl front ↦
        let there : All P (r ∷ m ∷ ms) = subst (All P) (insert-front r m ms front) all in
        (there.0, there.1)
    | inr behind ↦
        let there : All P (m ∷ insert r ms) = subst (All P) (insert-behind r m ms behind) all in
        let (here, rest) = insert-All r ms there.1 in (here, (there.0, rest))
  ]

  sort-All : (ms : List ByteRange) → All P (sort ms) → All P ms
  unfolding sort
  sort-All [] all = tt
  sort-All (m ∷ ms) all = let (here, rest) = insert-All m (sort ms) all in (here, sort-All ms rest)

insert-Sorted : (r : ByteRange) (ms : List ByteRange) → Sorted ms → Sorted (insert r ms)
unfolding insert
insert-Sorted r [] sorted = (tt, tt)
insert-Sorted r (m ∷ ms) sorted = elim (Bool-cases (leb_ℤ r.start m.start)) [
  | inl front ↦
      let first = ≤ℤ-of r.start m.start front in
      rw front ((first, All-from r.start m.start ms first sorted.0), sorted)
  | inr behind ↦ rw behind (
    All-insert (λ q. m.start ≤ℤ q.start) r ms (≤ℤ-total r.start m.start behind) sorted.0,
    insert-Sorted r ms sorted.1,
  )
]

sort-Sorted : (ms : List ByteRange) → Sorted (sort ms)
unfolding sort
sort-Sorted [] = tt
sort-Sorted (m ∷ ms) = insert-Sorted m (sort ms) (sort-Sorted ms)

extend-start : (last m : ByteRange) → (extend last m).start ≡ last.start
unfolding extend
extend-start last m = elim (Bool-cases (ltb_ℤ last.stop m.stop)) [
  | inl more ↦ rw more
  | inr less ↦ rw less
]

extend-stop :
    (last m : ByteRange) → (last.stop ≤ℤ (extend last m).stop) × (m.stop ≤ℤ (extend last m).stop)
unfolding extend
extend-stop last m = elim (Bool-cases (ltb_ℤ last.stop m.stop)) [
  | inl more ↦ rw more (omega (arith, ltb_ℤ-le last.stop m.stop more), omega arith)
  | inr less ↦ rw less (omega arith, ltb_ℤ-ge last.stop m.stop less)
]
  where
    ltb_ℤ-le : (a b : ℤ) → ltb_ℤ a b ≡ true → a ≤ℤ b
    ltb_ℤ-le a b h = ground arith

    ltb_ℤ-ge : (a b : ℤ) → ltb_ℤ a b ≡ false → b ≤ℤ a
    ltb_ℤ-ge a b h = ground arith

later :
    (g : ByteRange) (gs : List ByteRange) (r : ByteRange) → IsCovered gs r → IsCovered (g ∷ gs) r
later g gs r (i, h, at, within) = (suc i, h, at, within)

-- What the group at the end holds stays covered.
merge-keeps :
    (last : ByteRange) (ms : List ByteRange) (r : ByteRange)
    → Within r last
    → IsCovered (merge last ms) r
unfolding merge
merge-keeps last [] r h = (0, last, refl, h)
merge-keeps last (m ∷ ms) r h = elim (Bool-cases (leb_ℤ (sub64 m.stop last.start) max_merge_span)) [
  | inl near ↦
      let grown = (extend-stop last m).0 in
      rw near (
        merge-keeps (extend last m) ms r
          (rw (extend-start last m) h.0, ≤ℤ-trans r.stop last.stop (extend last m).stop h.1 grown))
  | inr far ↦ rw far (0, last, refl, h)
]

All-later :
    (g : ByteRange) (gs ms : List ByteRange) → All (IsCovered gs) ms → All (IsCovered (g ∷ gs)) ms
All-later g gs [] all = tt
All-later g gs (m ∷ ms) all = (later g gs m all.0, All-later g gs ms all.1)

merge-covers :
    (last : ByteRange) (ms : List ByteRange)
    → All (λ r. last.start ≤ℤ r.start) ms
    → Sorted ms
    → All (IsCovered (merge last ms)) ms
merge-covers last [] from sorted = tt
merge-covers last (m ∷ ms) from sorted =
    elim (Bool-cases (leb_ℤ (sub64 m.stop last.start) max_merge_span)) [
      | inl near ↦
          let start = extend-start last m in
          subst (λ gs. All (IsCovered gs) (m ∷ ms)) (sym (merge-near last m ms near))
            (
              merge-keeps (extend last m) ms m (rw start from.0, (extend-stop last m).1),
              merge-covers (extend last m) ms (rw start from.1) sorted.1,
            )
      | inr far ↦
          subst (λ gs. All (IsCovered gs) (m ∷ ms)) (sym (merge-far last m ms far))
            (
              later last (merge m ms) m (merge-keeps m ms m (omega arith, omega arith)),
              All-later last (merge m ms) ms (merge-covers m ms sorted.0 sorted.1),
            )
    ]

groups-Sorted : (ms : List ByteRange) → Sorted ms → All (IsCovered (groups ms)) ms
unfolding groups
groups-Sorted [] sorted = tt
groups-Sorted (m ∷ ms) sorted =
    (merge-keeps m ms m (omega arith, omega arith), merge-covers m ms sorted.0 sorted.1)

-- Whatever ranges are missing, in whatever order the directory names them: each lies whole inside one of
-- the groups that are fetched.
pub groups-covers : (missing : List ByteRange) → All (IsCovered (groups (sort missing))) missing
groups-covers missing =
    sort-All (IsCovered (groups (sort missing))) missing
      (groups-Sorted (sort missing) (sort-Sorted missing))
