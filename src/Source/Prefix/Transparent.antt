-- ===== src/Source/Prefix/Transparent.antt =====
-- A prefixReader over a reader of a file is a reader of that file.
use gedtm30api.Base.{
  ℕ, ◌+◌, ◌-◌, ◌≤◌, ◌<◌, ◌≡◌, refl, ap, sym, ◌∙◌, subst, inl, inr, true, Option, none, some, List,
  [], ◌∷◌, arith, length, take, slice, All, Bool-cases, le→leb, slice-take, slice-slice,
}
use gedtm30api.Base.Int.{pos, two63, add64, add64_small, sub64_small}
use gedtm30api.Base.Run.{Run, ok}
use gedtm30api.Source.Reader.{Read, Reader}
use gedtm30api.Source.Memory.{file_read_at}
use gedtm30api.Source.Serves.{Serves, Ranges, file_read_at_within}
use gedtm30api.Source.Prefix.{
  Extent, PrefixReader, in_extent, in_prefix, go_slice, copied, read_extent, from_extents,
  fall_back, or_fall_back, prefix_read_at, prefix_reader,
}

-- The extent holds the bytes of the file from `at` on.
pub record IsPiece (file : List ℕ) (e : Extent) : Type 0 where
  pub at : ℕ
  pub off : e.off ≡ pos at
  pub inside : at + length e.bytes ≤ length file
  pub bytes : e.bytes ≡ slice file at (length e.bytes)

-- What is kept in memory is what the file holds.
pub record IsFaithful {S : Type 0} (P : S → Type 0) (file : List ℕ) (p : PrefixReader S)
    : Type 0 where
  pub inner : P p.inner
  pub prefix_inside : length p.prefix ≤ length file
  pub prefix : p.prefix ≡ take (length p.prefix) file
  pub extra : All (IsPiece file) p.extra

copied-go_slice :
    (xs : List ℕ) (k n : ℕ)
    → k + n ≤ length xs
    → copied (go_slice xs (pos k) (pos (k + n)))
      ≡ ok (record { bytes = slice xs k n; error = none })
unfolding copied go_slice
copied-go_slice xs k n h =
    rw (le→leb k (k + n) (omega arith), le→leb (k + n) (length xs) h)
      (ap (λ m. ok (record { bytes = slice xs k m; error = none })) (omega arith))

in_prefix-le :
    (prefix : List ℕ) (k m : ℕ) → in_prefix prefix (pos k) (pos m) ≡ true → m ≤ length prefix
unfolding in_prefix
in_prefix-le prefix k m h = ground arith

module _ (file : List ℕ) (small : length file < two63) (k n : ℕ) (range : k + n < two63) where
  abbrev file_bytes : Read
  file_bytes = record { bytes = slice file k n; error = none }

  -- An extent that starts at `at` and is said to hold the range.
  read_extent-slice :
      (at : ℕ) (bytes : List ℕ)
      → at + length bytes ≤ length file
      → bytes ≡ slice file at (length bytes)
      → let e : Extent = record { off = pos at; bytes = bytes } in
        in_extent e (pos k) (pos (k + n)) ≡ true
        → (read_extent e (pos k) n ≡ ok file_bytes) × (k + n ≤ length file)
  unfolding in_extent read_extent
  read_extent-slice at bytes inside same hit =
      let total : add64 (pos at) (pos (length bytes)) ≡ pos (at + length bytes) =
        add64_small at (length bytes) (omega arith) in
      let hit' : (at ≤ k) × (k + n ≤ at + length bytes) = ground (arith, total, hit) in
      let cut : slice bytes (k - at) n ≡ slice file k n =
        ap (λ b. slice b (k - at) n) same
        ∙ slice-slice file at (length bytes) (k - at) n (omega arith)
        ∙ ap (λ j. slice file j n) (omega arith) in
      (
        rw
            (
              sub64_small k at hit'.0 (omega arith),
              add64_small (k - at) n (omega arith),
              copied-go_slice bytes (k - at) n (omega arith),
            )
            (ap (λ b. ok (record { bytes = b; error = none })) cut),
        omega arith,
      )

  read_extent-IsPiece :
      (e : Extent)
      → IsPiece file e
      → in_extent e (pos k) (pos (k + n)) ≡ true
      → (read_extent e (pos k) n ≡ ok file_bytes) × (k + n ≤ length file)
  read_extent-IsPiece e piece =
      subst
        (λ o.
          let e' : Extent = record { off = o; bytes = e.bytes } in
          in_extent e' (pos k) (pos (k + n)) ≡ true
          → (read_extent e' (pos k) n ≡ ok file_bytes) × (k + n ≤ length file))
        (sym piece.off) (read_extent-slice piece.at e.bytes piece.inside piece.bytes)

  from_extents-IsPiece :
      (es : List Extent)
      → All (IsPiece file) es
      → (read : Run Read) → from_extents es (pos k) n ≡ some read
      → (read ≡ ok file_bytes) × (k + n ≤ length file)
  unfolding from_extents
  from_extents-IsPiece [] all read h = cc
  from_extents-IsPiece (e ∷ es) all read h =
      let stop = add64_small k n range in
      elim (Bool-cases (in_extent e (pos k) (pos (k + n)))) [
        | inl hit ↦
            let (found, inside) = read_extent-IsPiece e all.0 hit in
            (ground (arith, stop, hit, found, h), inside)
        | inr miss ↦ from_extents-IsPiece es all.1 read (ground (arith, stop, miss, h))
      ]

module _ {S : Type 0} (r : Reader S) {P : S → Type 0} (file : List ℕ) (small : length file < two63)
    (R : Ranges) (serves : Serves r P file R) where
  or_fall_back-IsFaithful :
      (k n : ℕ) (p : PrefixReader S) (hit : Option (Run Read))
      → R k n
      → k + n < two63
      → IsFaithful P file p
      → from_extents p.extra (pos k) n ≡ hit
      → (p' : PrefixReader S) × (or_fall_back r hit (pos k) n p
          ≡ (ok (file_read_at file (pos k) n), p'))
        × IsFaithful P file p'
  unfolding or_fall_back fall_back
  or_fall_back-IsFaithful k n p none wanted range h miss =
      let (s, read, inner) = serves.reads k n p.inner h.inner wanted range in
      (
        record p { inner = s; fallbacks = p.fallbacks + 1 },
        rw read,
        record {
          inner = inner;
          prefix_inside = h.prefix_inside;
          prefix = h.prefix;
          extra = h.extra;
        },
      )
  or_fall_back-IsFaithful k n p (some read) wanted range h hit =
      let (found, inside) = from_extents-IsPiece file small k n range p.extra h.extra read hit in
      (p, rw (found, file_read_at_within file k n inside), h)

  pub prefix_reader-Serves : Serves (prefix_reader r) (IsFaithful P file) file R
  unfolding prefix_reader prefix_read_at
  prefix_reader-Serves = record {
    reads = λ k n p h wanted range. elim (Bool-cases (in_prefix p.prefix (pos k) (pos (k + n)))) [
      | inl hit ↦
          let below = in_prefix-le p.prefix k (k + n) hit in
          let cut : slice p.prefix k n ≡ slice file k n =
            ap (λ b. slice b k n) h.prefix ∙ slice-take file k n (length p.prefix) below in
          let inside : k + n ≤ length file = omega (arith, h.prefix_inside) in
          (
            p,
            rw
                (
                  add64_small k n range,
                  hit,
                  copied-go_slice p.prefix k n below,
                  file_read_at_within file k n inside,
                )
                (ap (λ b. (ok (record { bytes = b; error = none }), p)) cut),
            h,
          )
      | inr miss ↦
          let (p', read, h') =
            or_fall_back-IsFaithful k n p (from_extents p.extra (pos k) n) wanted range h refl in
          (p', rw (add64_small k n range, miss) read, h')
    ];
  }
