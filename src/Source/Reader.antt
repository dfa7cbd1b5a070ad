-- ===== src/Source/Reader.antt =====
-- Go's io.Reader, io.Seeker and io.ReaderAt as the package uses them, and io.ReadFull.
use gedtm30api.Base.{
  ℕ, zero, suc, ◌-◌, Option, none, some, List, [], ◌∷◌, ◌++◌, length, leb, if◌then◌else◌,
}
use gedtm30api.Base.Int.{ℤ}
use gedtm30api.Base.Run.{Error, eof, unexpected_eof, ok, err, hang}
use gedtm30api.Base.Io.{Io, ◌>>=◌, pure, continue}
use gedtm30api.Bytes.{ByteOrder, uint}

-- What `Read` and `ReadAt` return: the bytes put at the front of the buffer, and the error.
pub record Read : Type 0 where
  pub bytes : List ℕ
  pub error : Option Error

-- `whence` of Seek.
pub data Whence : Type 0 where
  start current end : Whence
  other : ℕ → Whence

-- An io.ReadSeeker that is an io.ReaderAt, with its state.
pub record Reader (S : Type 0) : Type 0 where
  pub read : ℕ → Io S Read
  pub seek : ℤ → Whence → Io S ℤ
  pub read_at : ℤ → ℕ → Io S Read

-- io.ReadFull's error after `got` bytes.
abbrev pub short_error : List ℕ → Error → Error
short_error [] e = e
short_error (b ∷ bs) eof = unexpected_eof
short_error (b ∷ bs) e = e

-- The loop of io.ReadFull: `want` more bytes after `got`. A reader that returns neither bytes nor
-- an error keeps it running for ever.
unfoldable pub read_full_loop : {S : Type 0} → Reader S → ℕ → List ℕ → ℕ → Io S (List ℕ)
read_full_loop r zero got want s = (hang, s)
read_full_loop r (suc fuel) got want s =
    continue (r.read want s).0
      (λ c s'.
        let more = read_full_loop r fuel (got ++ c.bytes) (want - length c.bytes) s' in
        if leb want (length c.bytes)
        then (ok (got ++ c.bytes), s')
        else elim c.error [ none ↦ more | some e ↦ (err (short_error (got ++ c.bytes) e), s') ])
      (r.read want s).1

-- Each round that goes on without bytes is a round that the Go loop spins in; `want` rounds with
-- bytes suffice.
unfoldable pub read_full : {S : Type 0} → Reader S → ℕ → Io S (List ℕ)
unfolding read_full_loop
read_full r zero s = (ok [], s)
read_full r (suc n) s = read_full_loop r (suc n) [] (suc n) s

-- binary.Read of one unsigned integer of `n` bytes.
unfoldable pub binary_read : {S : Type 0} → Reader S → ByteOrder → ℕ → Io S ℕ
binary_read r o n = do bs ← read_full r n; pure (uint o bs)
