-- ===== src/Registry/Remote.antt =====
-- Handles of the registry, and the reads of libtiff through them.
use gedtm30api.Base.{
  ℕ, suc, ◌+◌, ◌-◌, ◌%◌, ◌^◌, ◌≤◌, ◌<◌, ◌≡◌, ◌≢◌, refl, ap, ◌∙◌, inl, inr, true, ◌&&◌, Option, none,
  some, List, length, slice, arith, Bool-cases, le→leb, ne→==, slice-slice, length-slice,
}
use gedtm30api.Base.Int.{ℤ, pos, two63, add64, add64_small, sub64_small, leb_ℤ}
use gedtm30api.Base.Run.{ok}
use gedtm30api.Base.Io.{Io}
use gedtm30api.Source.Reader.{Read}
use gedtm30api.Source.Memory.{file_read_at}
use gedtm30api.Source.Serves.{file_read_at_within}
use gedtm30api.Registry.{
  RemoteEntry, Registry, register_remote_reader, Answer, from_buffer, answer_error, answer,
  from_reader, in_buffer, from_entry, from_registered, go_remote_read,
}

module _ {A : Type 0} where
  -- No handle has an id above the counter, and the counter has room.
  pub record IsNumbered (g : Registry A) : Type 0 where
    pub above : (i : ℕ) → g.id_counter < i → g.entries i ≡ none
    pub room : g.id_counter + 1 < 2 ^ 64

  pub register_remote_reader_id :
      (g : Registry A) (reader : A)
      → g.id_counter + 1 < 2 ^ 64
      → (register_remote_reader reader g).0 ≡ suc g.id_counter
  unfolding register_remote_reader
  register_remote_reader_id g reader room = omega arith

  -- registerRemoteReader, before the counter wraps, returns an id that no open handle has, puts the
  -- reader under it without a buffer, and touches no other handle.
  pub register_remote_reader-fresh :
      (g : Registry A) (reader : A)
      → IsNumbered g
      → let (id, g') = register_remote_reader reader g in
        (g.entries id ≡ none)
        × (g'.entries id ≡ some (record { reader = reader; buf = none; base = pos 0 }))
        × ((i : ℕ) → i ≢ id → g'.entries i ≡ g.entries i)
        × ((i : ℕ) → g'.id_counter < i → g'.entries i ≡ none)
  unfolding register_remote_reader
  register_remote_reader-fresh g reader h =
      let next : suc g.id_counter % 2 ^ 64 ≡ suc g.id_counter = omega (arith, h.room) in
      rw next (
        h.above (suc g.id_counter) (omega arith),
        ground arith,
        (λ i other. rw (ne→== i (suc g.id_counter) other)),
        (λ i above. rw (ne→== i (suc g.id_counter) (omega arith)) (h.above i (omega arith))),
      )

  -- The buffer of a handle, if it has one, holds the bytes of the file from its base on.
  pub record IsBacked (file : List ℕ) (e : RemoteEntry A) : Type 0 where
    pub backed :
        (buf : List ℕ)
        → e.buf ≡ some buf
        → (at : ℕ) × (e.base ≡ pos at)
          × (at + length buf ≤ length file)
          × (buf ≡ slice file at (length buf))

module _ {A S : Type 0} (read_at : A → ℤ → ℕ → Io S Read) (P : S → Type 0) (file : List ℕ)
    (small : length file < two63) where
  -- A reader that returns, from a state with P, the bytes of the file, and keeps P.
  abbrev pub Reads : A → Type 0
  Reads reader =
      (k n : ℕ) (s : S)
      → P s
      → k + n ≤ length file
      → (s' : S) × (read_at reader (pos k) n s ≡ (ok (file_read_at file (pos k) n), s')) × P s'

  whole : ℕ → ℕ → Answer
  whole k n = record { bytes = slice file k n; count = pos n }

  from_reader-whole :
      (reader : A) (k n : ℕ) (s : S)
      → Reads reader
      → P s
      → k + n ≤ length file
      → (s' : S) × (from_reader read_at reader (pos k) n s ≡ (ok (whole k n), s')) × P s'
  unfolding from_reader answer answer_error whole
  from_reader-whole reader k n s reads p inside =
      let (s', run, p') = reads k n s p inside in
      let there = file_read_at_within file k n inside in
      (
        s',
        rw (run, there)
            (ap (λ m. (ok (record { bytes = slice file k n; count = pos m }), s'))
              (length-slice file k n inside)),
        p',
      )

  from_buffer-whole :
      (buf : List ℕ) (at k n : ℕ)
      → at ≤ k
      → k + n ≤ at + length buf
      → buf ≡ slice file at (length buf)
      → from_buffer buf (pos (k - at)) n ≡ ok (whole k n)
  unfolding from_buffer whole
  from_buffer-whole buf at k n from room held =
      let cut : slice buf (k - at) n ≡ slice file k n =
        ap (λ b. slice b (k - at) n) held
        ∙ slice-slice file at (length buf) (k - at) n (omega arith)
        ∙ ap (λ i. slice file i n) (omega arith) in
      rw (le→leb (k - at + n) (length buf) (omega arith))
        (ap (λ b. ok (record { bytes = b; count = pos n })) cut)

  hit-range :
      (buf : List ℕ) (at k n : ℕ)
      → (leb_ℤ (pos at) (pos k) && leb_ℤ (pos (k + n)) (pos (at + length buf))) ≡ true
      → (at ≤ k) × (k + n ≤ at + length buf)
  hit-range buf at k n hit = ground arith

  module _ (e : RemoteEntry A) (reads : Reads e.reader) (k n : ℕ)
      (inside : k + n ≤ length file) where
    -- A read inside the buffer; the sums of int64 do not wrap.
    from_held :
        (buf : List ℕ) (at : ℕ) (s : S)
        → P s
        → e.base ≡ pos at
        → at + length buf ≤ length file
        → buf ≡ slice file at (length buf)
        → (s' : S) × (from_entry read_at e (some buf) (pos k) n s ≡ (ok (whole k n), s')) × P s'
    unfolding from_entry in_buffer
    from_held buf at s p base fits held =
        let end_read : add64 (pos k) (pos n) ≡ pos (k + n) = add64_small k n (omega arith) in
        let end_buf : add64 (pos at) (pos (length buf)) ≡ pos (at + length buf) =
          add64_small at (length buf) (omega arith) in
        elim (Bool-cases (leb_ℤ (pos at) (pos k) && leb_ℤ (pos (k + n)) (pos (at + length buf)))) [
          | inl hit ↦
              let (from, room) = hit-range buf at k n hit in
              (
                s,
                rw (base, end_read, end_buf, hit, sub64_small k at from (omega arith))
                    (ap (λ r. (r, s)) (from_buffer-whole buf at k n from room held)),
                p,
              )
          | inr miss ↦
              let (s', run, p') = from_reader-whole e.reader k n s reads p inside in
              (s', rw (base, end_read, end_buf, miss) run, p')
        ]

    from_entry-whole :
        (b : Option (List ℕ)) (s : S)
        → P s
        → IsBacked file e
        → e.buf ≡ b
        → (s' : S) × (from_entry read_at e b (pos k) n s ≡ (ok (whole k n), s')) × P s'
    from_entry-whole none s p backed h =
        unfold from_entry in from_reader-whole e.reader k n s reads p inside
    from_entry-whole (some buf) s p backed h =
        let (at, base, fits, held) = backed.backed buf h in from_held buf at s p base fits held

  -- A read of libtiff through an open handle, whose reader returns the bytes of a file and
  -- whose buffer, if there is one, holds bytes of that file: a range that the file has is
  -- returned with its length, whether the buffer holds all of it, some of it or none, and
  -- whether there is a buffer.
  pub go_remote_read-slice :
      (g : Registry A) (id : ℕ) (e : RemoteEntry A) (k n : ℕ) (s : S)
      → g.entries id ≡ some e
      → IsBacked file e
      → Reads e.reader
      → P s
      → k + n ≤ length file
      → (s' : S) × (go_remote_read read_at g id (pos k) n s
          ≡ (ok (record { bytes = slice file k n; count = pos n }), s'))
        × P s'
  unfolding go_remote_read from_registered whole
  go_remote_read-slice g id e k n s found backed reads p inside =
      let (s', run, p') = from_entry-whole e reads k n inside e.buf s p backed refl in
      (s', rw found run, p')
