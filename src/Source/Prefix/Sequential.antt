-- ===== src/Source/Prefix/Sequential.antt =====
-- Sequential reads of a prefixReader: what `io.ReadFull` and `binary.Read` of the tag parser get.
use gedtm30api.Base.{
  ℕ, zero, suc, ◌+◌, ◌≤◌, ◌<◌, ◌≡◌, refl, ap, ap₂, subst, ◌∙◌, inl, inr, true, false, Option, none,
  some, List, [], ◌∷◌, length, slice, leb, if◌then◌else◌, arith, Bool-cases, leb→le, leb→gt, gt→leb,
  le→leb, length-take, length-drop, drop,
}
use gedtm30api.Base.Int.{ℤ, pos, two63, add64, add64_small, leb_ℤ}
use gedtm30api.Base.Run.{Run, ok, err, eof, unexpected_eof}
use gedtm30api.Source.Reader.{Read, Reader, read_full, short_error}
use gedtm30api.Source.Memory.{file_read_at}
use gedtm30api.Source.Serves.{Serves, AnyRange}
use gedtm30api.Source.Prefix.{
  PrefixReader, advance, prefix_read, prefix_read_at, prefix_reader, or_fall_back, fall_back,
  from_extents, in_prefix,
}
use gedtm30api.Source.Prefix.Transparent.{IsFaithful, prefix_reader-Serves}

-- io.ReadFull of `n` bytes of a file from `k` on.
pub full_read : List ℕ → ℕ → ℕ → Run (List ℕ)
full_read file k zero = ok []
full_read file k (suc n) =
    if leb (k + suc n) (length file)
    then ok (slice file k (suc n))
    else err (if leb (length file) k then eof else unexpected_eof)

length-file_read_at : (file : List ℕ) (k n : ℕ) → length (file_read_at file (pos k) n).bytes ≤ n
unfolding file_read_at
length-file_read_at file k zero = omega arith
length-file_read_at file k (suc n) = omega (arith, length-take (suc n) (drop k file))

short_error-some : (bs : List ℕ) → 0 < length bs → short_error bs eof ≡ unexpected_eof
short_error-some [] h = absurd (omega arith)
short_error-some (b ∷ bs) h = refl

module _ {S : Type 0} (r : Reader S) where
  or_fall_back-position :
      (hit : Option (Run Read)) (off : ℤ) (n : ℕ) (p : PrefixReader S)
      → ((or_fall_back r hit off n p).1.off ≡ p.off)
        × ((or_fall_back r hit off n p).1.size ≡ p.size)
  unfolding or_fall_back fall_back
  or_fall_back-position none off n p = (refl, refl)
  or_fall_back-position (some read) off n p = (refl, refl)

  -- ReadAt leaves the place of Read alone.
  prefix_read_at-position :
      (off : ℤ) (n : ℕ) (p : PrefixReader S)
      → ((prefix_read_at r off n p).1.off ≡ p.off) × ((prefix_read_at r off n p).1.size ≡ p.size)
  unfolding prefix_read_at
  prefix_read_at-position off n p = elim (Bool-cases (in_prefix p.prefix off (add64 off (pos n)))) [
    | inl hit ↦ rw hit (refl, refl)
    | inr miss ↦ rw miss (or_fall_back-position (from_extents p.extra off n) off n p)
  ]

module _ {S : Type 0} (P : S → Type 0) (file : List ℕ) where
  -- A prefixReader of the file that stands at `k`.
  pub record StandsAt (k : ℕ) (p : PrefixReader S) : Type 0 where
    pub faithful : IsFaithful P file p
    pub size : p.size ≡ pos (length file)
    pub off : p.off ≡ pos k

module _ {S : Type 0} (r : Reader S) {P : S → Type 0} (file : List ℕ) (small : length file < two63)
    (serves : Serves r P file AnyRange) where
  prefix_read-past_end :
      (k n : ℕ) (p : PrefixReader S)
      → StandsAt P file k p
      → length file ≤ k
      → prefix_read r n p ≡ (ok (record { bytes = []; error = some eof }), p)
  unfolding prefix_read
  prefix_read-past_end k n p h past =
      let test : leb_ℤ p.size p.off ≡ true = ap₂ leb_ℤ h.size h.off ∙ ground arith in rw test

  prefix_read-inside :
      (k n : ℕ) (p : PrefixReader S)
      → StandsAt P file k p
      → k < length file
      → k + n < two63
      → (p' : PrefixReader S) × (prefix_read r n p ≡ (ok (file_read_at file (pos k) n), p'))
        × StandsAt P file (k + length (file_read_at file (pos k) n).bytes) p'
  unfolding prefix_read advance
  prefix_read-inside k n p h before range =
      let test : leb_ℤ p.size p.off ≡ false = ap₂ leb_ℤ h.size h.off ∙ ground arith in
      let read = file_read_at file (pos k) n in
      let size : length read.bytes ≤ n = length-file_read_at file k n in
      let (p', run, faithful) =
        (prefix_reader-Serves r file small AnyRange serves).reads k n p h.faithful tt range in
      let here : prefix_read_at r p.off n p ≡ (ok read, p') =
        ap (λ o. prefix_read_at r o n p) h.off ∙ unfold prefix_reader in run in
      let kept : (p'.off ≡ p.off) × (p'.size ≡ p.size) =
        subst (λ q. (q.1.off ≡ p.off) × (q.1.size ≡ p.size)) here
          (prefix_read_at-position r p.off n p) in
      (
        record p' { off = add64 p'.off (pos (length read.bytes)) },
        rw (test, here),
        record {
          faithful = record {
            inner = faithful.inner;
            prefix_inside = faithful.prefix_inside;
            prefix = faithful.prefix;
            extra = faithful.extra;
          };
          size = kept.1 ∙ h.size;
          off =
              ap (λ o. add64 o (pos (length read.bytes))) (kept.0 ∙ h.off)
              ∙ add64_small k (length read.bytes) (omega arith);
        },
      )

  -- Over a reader that serves a file: io.ReadFull through a prefixReader that holds what the file
  -- holds, from any place on and for any number of bytes, comes to an end. It returns the bytes of
  -- the file and stands behind them, or reports io.EOF where none is left and io.ErrUnexpectedEOF
  -- where some are.
  pub read_full-full_read :
      (k n : ℕ) (p : PrefixReader S)
      → StandsAt P file k p
      → k + n < two63
      → (p' : PrefixReader S) × (read_full (prefix_reader r) n p ≡ (full_read file k n, p'))
        × StandsAt P file (k + length (file_read_at file (pos k) n).bytes) p'
  unfolding read_full full_read prefix_reader file_read_at
  read_full-full_read k zero p h range =
      (p, refl, record { faithful = h.faithful; size = h.size; off = h.off ∙ ap pos (omega arith) })
  read_full-full_read k (suc n) p h range =
      let bytes = slice file k (suc n) in
      let left = length-take (suc n) (drop k file) in
      let rest = length-drop k file in
      elim (Bool-cases (leb (length file) k)) [
        | inl past ↦
            let none_left = leb→le (length file) k past in
            (
              p,
              rw (
                prefix_read-past_end k (suc n) p h none_left,
                gt→leb (k + suc n) (length file) (omega arith),
                past,
                gt→leb (suc n) 0 (omega arith),
              ),
              record {
                faithful = h.faithful;
                size = h.size;
                off = h.off ∙ ap pos (omega (arith, left, rest));
              },
            )
        | inr before ↦
            let some_left = leb→gt (length file) k before in
            let (p', read, stands) = prefix_read-inside k (suc n) p h some_left range in
            elim (Bool-cases (leb (k + suc n) (length file))) [
              | inl fits ↦
                  let all : leb (suc n) (length bytes) ≡ true =
                    le→leb (suc n) (length bytes)
                      (omega (arith, left, rest, leb→le (k + suc n) (length file) fits)) in
                  (p', rw (read, fits, all), stands)
              | inr short ↦
                  let gap = leb→gt (k + suc n) (length file) short in
                  let some_only : leb (suc n) (length bytes) ≡ false =
                    gt→leb (suc n) (length bytes) (omega (arith, left, rest)) in
                  (
                    p',
                    rw (
                      read,
                      short,
                      some_only,
                      before,
                      short_error-some bytes (omega (arith, left, rest)),
                    ),
                    stands,
                  )
            ]
      ]
