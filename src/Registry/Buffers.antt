-- ===== src/Registry/Buffers.antt =====
-- Which handles of the registry have a prefetched buffer.
use gedtm30api.Base.{ℕ, ◌≡◌, ◌≢◌, [], ==_iff, refl, Option, none, some, List, arith}
use gedtm30api.Base.Int.{ℤ, pos, negsuc}
use gedtm30api.Base.Run.{ok}
use gedtm30api.Base.Io.{Io}
use gedtm30api.Source.Reader.{Read}
use gedtm30api.Registry.{
  RemoteEntry, Registry, register_remote_reader, unregister_remote_reader, set_remote_buffer,
  clear_remote_buffer, with_buffer, go_remote_read, from_registered,
}

module _ {A : Type 0} where
  -- No open handle has a buffer.
  abbrev pub NoBuffers : Registry A → Type 0
  NoBuffers g = (i : ℕ) (e : RemoteEntry A) → g.entries i ≡ some e → e.buf ≡ none

  pub register_remote_reader-NoBuffers :
      (reader : A) (g : Registry A) → NoBuffers g → NoBuffers (register_remote_reader reader g).1
  unfolding register_remote_reader
  register_remote_reader-NoBuffers reader g h i e found = ground (arith, h i e)

  pub unregister_remote_reader-NoBuffers :
      (id : ℕ) (g : Registry A) → NoBuffers g → NoBuffers (unregister_remote_reader id g)
  unfolding unregister_remote_reader
  unregister_remote_reader-NoBuffers id g h i e found = ground (arith, h i e)

  pub clear_remote_buffer-NoBuffers :
      (id : ℕ) (buf : Option (List ℕ)) (base : ℤ) (g : Registry A)
      → NoBuffers g
      → NoBuffers (clear_remote_buffer id (set_remote_buffer id buf base g))
  unfolding clear_remote_buffer set_remote_buffer with_buffer
  clear_remote_buffer-NoBuffers id buf base g h i e found = ground (arith, h i e)

  -- The entry of a handle, with its buffer set and cleared.
  pub entry-set_remote_buffer :
      (id : ℕ) (buf : Option (List ℕ)) (base : ℤ) (g : Registry A) (e : RemoteEntry A)
      → g.entries id ≡ some e
      → (set_remote_buffer id buf base g).entries id ≡ some (record e { buf = buf; base = base })
  unfolding set_remote_buffer with_buffer
  entry-set_remote_buffer id buf base g e found = ground arith

  pub entry-clear_remote_buffer :
      (id : ℕ) (g : Registry A) (e : RemoteEntry A)
      → g.entries id ≡ some e
      → (clear_remote_buffer id g).entries id ≡ some (record e { buf = none; base = pos 0 })
  unfolding clear_remote_buffer with_buffer
  entry-clear_remote_buffer id g e found = ground arith

  -- An id that was unregistered: libtiff's reads fail, and other ids keep their entries.
  pub entry-unregister_remote_reader :
      (id i : ℕ) (g : Registry A) → i ≢ id → (unregister_remote_reader id g).entries i ≡ g.entries i
  unfolding unregister_remote_reader
  entry-unregister_remote_reader id i g other = ground arith

  pub go_remote_read-unregistered :
      {S : Type 0} (read_at : A → ℤ → ℕ → Io S Read) (id : ℕ) (g : Registry A) (off : ℤ) (n : ℕ)
      (s : S)
      → go_remote_read read_at (unregister_remote_reader id g) id off n s
        ≡ (ok (record { bytes = []; count = negsuc 0 }), s)
  unfolding go_remote_read unregister_remote_reader from_registered
  go_remote_read-unregistered read_at id g off n s = rw ((==_iff id id).1 refl)
