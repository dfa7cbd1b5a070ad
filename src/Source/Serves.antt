-- ===== src/Source/Serves.antt =====
-- What a reader promises: its `ReadAt` returns the bytes of one file.
use gedtm30api.Base.{ℕ, zero, suc, ◌+◌, ◌≤◌, ◌<◌, ◌≡◌, refl, ap, none, List, length, slice, le→leb}
use gedtm30api.Base.Int.{pos, two63}
use gedtm30api.Base.Run.{ok}
use gedtm30api.Source.Reader.{Reader}
use gedtm30api.Source.Memory.{memory, file_read_at}

-- The ranges that a promise is about: from `k` on, `n` bytes.
abbrev pub Ranges : Type 1
Ranges = ℕ → ℕ → Type 0

abbrev pub AnyRange : Ranges
AnyRange k n = Unit

-- The ranges that the file has.
abbrev pub IsInside : List ℕ → Ranges
IsInside file k n = k + n ≤ length file

-- From a state with `P`, every read of a range of `R`, below the end of int64, returns what ReadAt
-- of the file returns, and the new state has `P`.
pub record Serves {S : Type 0} (r : Reader S) (P : S → Type 0) (file : List ℕ) (R : Ranges)
    : Type 0 where
  pub reads :
      (k n : ℕ) (s : S)
      → P s
      → R k n
      → k + n < two63
      → (s' : S) × (r.read_at (pos k) n s ≡ (ok (file_read_at file (pos k) n), s')) × P s'

-- A read of bytes that are there.
pub file_read_at_within :
    (file : List ℕ) (k n : ℕ)
    → k + n ≤ length file
    → file_read_at file (pos k) n ≡ record { bytes = slice file k n; error = none }
unfolding file_read_at
file_read_at_within file k zero h = refl
file_read_at_within file k (suc n) h = rw (le→leb (k + suc n) (length file) h)

-- A bytes.Reader over the file serves it.
pub memory-Serves : (file : List ℕ) → Serves memory (λ m. m.contents ≡ file) file AnyRange
unfolding memory
memory-Serves file = record {
  reads = λ k n m h wanted range. (m, ap (λ f. (ok (file_read_at f (pos k) n), m)) h, h);
}

pub AnyRange-Serves :
    {S : Type 0} (r : Reader S) (P : S → Type 0) (file : List ℕ) (R : Ranges)
    → Serves r P file AnyRange
    → Serves r P file R
AnyRange-Serves r P file R h = record { reads = λ k n s p wanted range. h.reads k n s p tt range }
