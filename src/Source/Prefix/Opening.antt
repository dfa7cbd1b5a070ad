-- ===== src/Source/Prefix/Opening.antt =====
-- What `newPrefixReader` makes of a reader of a file.
use gedtm30api.Base.{
  ℕ, suc, ◌≤◌, ◌<◌, ◌≡◌, refl, ap, sym, ◌∙◌, false, List, [], length, take, take-take, length-take,
  arith,
}
use gedtm30api.Base.Int.{pos, two63, ltb_ℤ, add64, add64_small}
use gedtm30api.Base.Run.{ok}
use gedtm30api.Source.Reader.{Reader, Whence}
use gedtm30api.Source.Memory.{memory, memory_seek}
use gedtm30api.Source.Serves.{Serves, IsInside}
use gedtm30api.Source.Parallel.{FetchSettings, Chunk}
use gedtm30api.Source.Parallel.Settings.{IsUsable}
use gedtm30api.Source.Parallel.Agreement.{IsSchedule, parallel_read_at-slice}
use gedtm30api.Source.Prefix.{PrefixReader, fetched, clip, fetch_prefix, new_prefix_reader}
use gedtm30api.Source.Prefix.Transparent.{IsFaithful}

-- Seeking the end of the file returns its size.
abbrev pub FindsEnd : {S : Type 0} → Reader S → (S → Type 0) → List ℕ → Type 0
FindsEnd {S} r P file =
    (s : S) → P s → (s' : S) × (r.seek (pos 0) Whence.end s ≡ (ok (pos (length file)), s')) × P s'

pub memory-FindsEnd :
    (file : List ℕ) → length file < two63 → FindsEnd memory (λ m. m.contents ≡ file) file
unfolding memory memory_seek
memory-FindsEnd file small m h =
    let end : add64 (pos (length m.contents)) (pos 0) ≡ pos (length file) =
      add64_small (length m.contents) 0 (omega (arith, ap length h, small))
      ∙ ap pos (omega (arith, ap length h)) in
    (record m { offset = length file }, rw end, h)

module _ {S : Type 0} (r : Reader S) {P : S → Type 0} (file : List ℕ) (small : length file < two63)
    (serves : Serves r P file (IsInside file)) (c : FetchSettings) (order : List Chunk → List Chunk)
    (usable : IsUsable c) (sched : IsSchedule order) where
  fetch_prefix-take :
      (n : ℕ) (s : S)
      → P s
      → suc n ≤ length file
      → (s' : S) × (fetch_prefix c order r (pos (suc n)) s ≡ (ok (take (suc n) file), s')) × P s'
  unfolding fetch_prefix fetched
  fetch_prefix-take n s p inside =
      let (s', run, p') =
        parallel_read_at-slice r file serves 0 (suc n) (omega arith) small c order s usable sched
          p in
      (s', rw run (ap (λ b. (ok b, s')) (take-take (suc n) (suc n) file (omega arith))), p')

  clip-take : (n : ℕ) → n ≤ length file → clip (take n file) (pos (length file)) ≡ ok (take n file)
  unfolding clip
  clip-take n inside =
      let below : ltb_ℤ (pos (length file)) (pos (length (take n file))) ≡ false =
        ground (arith, length-take n file) in
      rw below

  -- Over a reader that serves the ranges of a file and finds its end: newPrefixReader, with a header
  -- prefetch that is not longer than the file, succeeds, and the prefixReader holds the first bytes
  -- of the file as its prefix, so that nothing that it answers from memory differs from the file.
  pub new_prefix_reader-IsFaithful :
      (n : ℕ) (s : S)
      → FindsEnd r P file
      → P s
      → suc n ≤ length file
      → (p : PrefixReader S) × (s' : S) × (new_prefix_reader c order r (pos (suc n)) s ≡ (ok p, s'))
        × (p.prefix ≡ take (suc n) file)
        × (p.size ≡ pos (length file))
        × IsFaithful P file p
  unfolding new_prefix_reader
  new_prefix_reader-IsFaithful n s ends holds inside =
      let (s1, fetch, holds1) = fetch_prefix-take n s holds inside in
      let (s2, end, holds2) = ends s1 holds1 in
      let size : length (take (suc n) file) ≡ suc n = omega (arith, length-take (suc n) file) in
      (
        record {
          inner = s2;
          prefix = take (suc n) file;
          size = pos (length file);
          extra = [];
          off = pos 0;
          fallbacks = 0;
        },
        s2,
        rw (fetch, end, clip-take (suc n) inside),
        refl,
        refl,
        record {
          inner = holds2;
          prefix_inside = omega (arith, size);
          prefix = ap (λ m. take m file) (sym size);
          extra = tt;
        },
      )
