-- ===== src/Registry.antt =====
-- The readers behind open libtiff handles (geotiff/libtiff_export.go). libtiff itself is C.
pub mod Remote
pub mod Buffers
use gedtm30api.Base.{
  ℕ, zero, suc, ◌+◌, ◌-◌, ◌%◌, ◌^◌, Bool, true, false, ◌&&◌, Option, none, some, List, [], ◌∷◌,
  length, take, drop, leb, ◌==◌, if◌then◌else◌,
}
use gedtm30api.Base.Int.{ℤ, pos, negsuc, add64, leb_ℤ, sub64}
use gedtm30api.Base.Run.{Error, eof, Run, ok, err, panic, hang}
use gedtm30api.Base.Io.{Io}
use gedtm30api.Source.Reader.{Read}

-- `remoteEntry`. The reader is an address of `A`; `buf` is nil or the bytes.
pub record RemoteEntry (A : Type 0) : Type 0 where
  pub reader : A
  pub buf : Option (List ℕ)
  pub base : ℤ

-- `remoteRegistry` and `remoteIDCounter`, a 64-bit word.
pub record Registry (A : Type 0) : Type 0 where
  pub entries : ℕ → Option (RemoteEntry A)
  pub id_counter : ℕ

abbrev pub put : {V : Type 0} → (ℕ → Option V) → ℕ → Option V → ℕ → Option V
put m id v i = if i == id then v else m i

module _ {A : Type 0} where
  unfoldable pub empty_registry : Registry A
  empty_registry = record { entries = λ i. none; id_counter = 0 }

  -- `registerRemoteReader`
  pub register_remote_reader : A → Registry A → ℕ × Registry A
  register_remote_reader reader g =
      let id = suc g.id_counter % 2 ^ 64 in
      (
        id,
        record {
          entries = put g.entries id (some (record { reader = reader; buf = none; base = pos 0 }));
          id_counter = id;
        },
      )

  -- `unregisterRemoteReader`
  pub unregister_remote_reader : ℕ → Registry A → Registry A
  unregister_remote_reader id g = record g { entries = put g.entries id none }

  with_buffer : Option (List ℕ) → ℤ → Option (RemoteEntry A) → Option (RemoteEntry A)
  with_buffer buf base none = none
  with_buffer buf base (some e) = some (record e { buf = buf; base = base })

  -- `setRemoteBuffer` and `clearRemoteBuffer`
  pub set_remote_buffer : ℕ → Option (List ℕ) → ℤ → Registry A → Registry A
  set_remote_buffer id buf base g = record g {
    entries = put g.entries id (with_buffer buf base (g.entries id));
  }

  pub clear_remote_buffer : ℕ → Registry A → Registry A
  clear_remote_buffer id g = record g {
    entries = put g.entries id (with_buffer none (pos 0) (g.entries id));
  }

-- What a read gives libtiff: the bytes at the front of its buffer, and the number returned.
pub record Answer : Type 0 where
  pub bytes : List ℕ
  pub count : ℤ

abbrev failed : Answer
failed = record { bytes = []; count = negsuc 0 }

-- `start:start+n` of the buffer; the bounds were tested.
from_buffer : List ℕ → ℤ → ℕ → Run Answer
from_buffer buf (pos start) n =
    if leb (start + n) (length buf)
    then ok (record { bytes = take n (drop start buf); count = pos n })
    else panic
from_buffer buf (negsuc start) n = panic

answer_error : Option Error → List ℕ → Answer
answer_error none bytes = record { bytes = bytes; count = pos (length bytes) }
answer_error (some eof) bytes = record { bytes = bytes; count = pos (length bytes) }
answer_error (some e) bytes = record { bytes = bytes; count = negsuc 0 }

answer : Run Read → Run Answer
answer (ok c) = ok (answer_error c.error c.bytes)
answer (err e) = ok failed
answer panic = panic
answer hang = hang

module _ {A S : Type 0} (read_at : A → ℤ → ℕ → Io S Read) where
  from_reader : A → ℤ → ℕ → Io S Answer
  from_reader reader off n s = let (r, s') = read_at reader off n s in (answer r, s')

  in_buffer : RemoteEntry A → ℤ → ℕ → List ℕ → Bool
  in_buffer e off n buf =
      leb_ℤ e.base off && leb_ℤ (add64 off (pos n)) (add64 e.base (pos (length buf)))

  from_entry : RemoteEntry A → Option (List ℕ) → ℤ → ℕ → Io S Answer
  from_entry e none off n s = from_reader e.reader off n s
  from_entry e (some buf) off n s =
      if in_buffer e off n buf
      then (from_buffer buf (sub64 off e.base) n, s)
      else from_reader e.reader off n s

  from_registered : Option (RemoteEntry A) → ℤ → ℕ → Io S Answer
  from_registered none off n s = (ok failed, s)
  from_registered (some e) off n s = from_entry e e.buf off n s

  -- `goRemoteRead`, for a size that is not negative. Every registered reader is there.
  pub go_remote_read : Registry A → ℕ → ℤ → ℕ → Io S Answer
  go_remote_read g id off n = from_registered (g.entries id) off n
