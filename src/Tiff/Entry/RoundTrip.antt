-- ===== src/Tiff/Entry/RoundTrip.antt =====
-- The first pass of `readTags` reads back the entries that a writer put.
use gedtm30api.Base.{
  ℕ, zero, suc, ◌+◌, ◌≤◌, ◌<◌, ◌≡◌, ◌≢◌, refl, Bool, Option, none, some, List, [], ◌∷◌, ◌++◌, arith,
  drop, if◌then◌else◌, length, ap, ne→==, subst, ◌==◌, All, ◌∙◌,
}
use gedtm30api.Base.Run.{ok, ◌>>=◌}
use gedtm30api.Base.Int.{two63}
use gedtm30api.Bytes.{ByteOrder, put_uint}
use gedtm30api.Source.Memory.{Memory, drop-put_uint, put_uint-fits}
use gedtm30api.Tiff.FieldType
use gedtm30api.Tiff.Entry.{
  IfdEntry, read_entry, read_entries, put_entry, entry_len, inline_data_size, entry_of_size,
  known_entry, add_entry,
}
use gedtm30api.Tiff.Entry.Fields.{
  read_count_offset-put, at_offset, read_or_zero-put_uint, RawEntry, Fits, field_bytes, entry_of,
  inline_value-field_bytes, read_entry_lem, known_entry_lem, entry_len_lem, unknown_entry_lem,
  inline_data_size_pos, parsed, put_raw,
}

-- One entry, at `p`.
module _ (o : ByteOrder) (big : Bool) (e : RawEntry) (fits : Fits big e) (file rest : List ℕ)
    (p : ℕ) (at : drop p file ≡ put_raw o big e rest) where
  w : ℕ
  w = inline_data_size big

  tail3 : List ℕ
  unfolding w
  tail3 = put_uint o w e.count ++ (put_uint o w e.field ++ rest)

  at1 : drop p file ≡ put_uint o 2 e.tag ++ (put_uint o 2 e.f_type ++ tail3)
  unfolding put_entry tail3
  at1 = at

  at2 : drop (p + 2) file ≡ put_uint o 2 e.f_type ++ tail3
  at2 = drop-put_uint o 2 e.tag file _ p at1

  at3 : drop (p + 2 + 2) file ≡ tail3
  at3 = drop-put_uint o 2 e.f_type file tail3 (p + 2) at2

  ends : p + 2 + 2 + w + w ≡ p + entry_len big
  unfolding w
  ends = omega (arith, entry_len_lem big)

  read_entry-rest : drop (p + entry_len big) file ≡ rest
  unfolding w tail3
  read_entry-rest =
      let at4 = drop-put_uint o w e.count file (put_uint o w e.field ++ rest) (p + 2 + 2) at3 in
      subst (λ q. drop q file ≡ rest) ends (drop-put_uint o w e.field file rest (p + 2 + 2 + w) at4)

  read_entry-start :
      read_entry o big (at_offset file p)
      ≡ entry_of_size o big e.tag e.f_type (FieldType.bytes e.f_type) (at_offset file (p + 2 + 2))
  read_entry-start =
      read_entry_lem o big (at_offset file p)
      ∙ rw (
        read_or_zero-put_uint o 2 e.tag file _ p (omega arith) fits.tag at1,
        read_or_zero-put_uint o 2 e.f_type file tail3 (p + 2) (omega arith) fits.f_type at2,
      )

  known_entry-put_entry :
      (size : ℕ)
      → known_entry o big e.tag e.f_type size (at_offset file (p + 2 + 2))
        ≡ (ok (some (entry_of o big size e)), at_offset file (p + entry_len big))
  unfolding tail3 w
  known_entry-put_entry size =
      rw
        (
          known_entry_lem o big e.tag e.f_type size e.count e.field (field_bytes o big e.field)
              (at_offset file (p + 2 + 2)) (at_offset file (p + 2 + 2 + w + w))
              (read_count_offset-put o e.count e.field file rest (p + 2 + 2) big fits.count
                fits.field at3),
          inline_value-field_bytes o big size e,
        )
        (ap (λ q. (ok (some (entry_of o big size e)), at_offset file q)) ends)

  within_file : p + entry_len big ≤ length file
  unfolding w tail3
  within_file =
      let at4 = drop-put_uint o w e.count file (put_uint o w e.field ++ rest) (p + 2 + 2) at3 in
      let end =
        put_uint-fits o w e.field file rest (p + 2 + 2 + w) (inline_data_size_pos big) at4 in
      omega (arith, ends)

  entry_of_size-put_entry :
      (size : ℕ)
      → p + entry_len big < two63
      → entry_of_size o big e.tag e.f_type (ok size) (at_offset file (p + 2 + 2)) ≡ (
        ok (if size == 0 then none else some (entry_of o big size e)),
        at_offset file (p + entry_len big),
      )
  unfolding entry_of_size
  entry_of_size-put_entry zero room = unknown_entry_lem big file p room
  entry_of_size-put_entry (suc n) room =
      rw (ne→== (suc n) 0 (omega arith)) (known_entry-put_entry (suc n))

  read_entry-put_entry :
      e.f_type ≢ 19
      → p + entry_len big < two63
      → read_entry o big (at_offset file p)
        ≡ (ok (parsed o big e), at_offset file (p + entry_len big))
  read_entry-put_entry h room =
      rw (read_entry-start, FieldType.bytes-size_of e.f_type h)
        (entry_of_size-put_entry (FieldType.size_of e.f_type) room)

-- The entries of a directory, one after the other.
unfoldable pub put_entries : ByteOrder → Bool → List RawEntry → List ℕ → List ℕ
put_entries o big [] rest = rest
put_entries o big (e ∷ es) rest = put_raw o big e (put_entries o big es rest)

pub parsed_entries : ByteOrder → Bool → List RawEntry → List IfdEntry
parsed_entries o big [] = []
parsed_entries o big (e ∷ es) = add_entry (parsed o big e) (parsed_entries o big es)

abbrev pub IsReadable : Bool → RawEntry → Type 0
IsReadable big e = Fits big e × (e.f_type ≢ 19)

read_entries_lem :
    (o : ByteOrder) (big : Bool) (n : ℕ) (m : Memory) (found : Option IfdEntry) (m' : Memory)
    → read_entry o big m ≡ (ok found, m')
    → read_entries o big (suc n) m ≡ (read_entries o big n m' >>= λ es. ok (add_entry found es))
unfolding read_entries
read_entries_lem o big n m found m' h = rw h

-- The first pass over a directory block of n entries, in either byte order and format, whose
-- fields fit their width and whose field types are not 19, returns in order the entries whose
-- field type has a size, each with its tag, type, count and offset, and with its value if that
-- fits the value field, and skips the others.
pub read_entries-put_entries :
    (o : ByteOrder) (big : Bool) (es : List RawEntry) (file rest : List ℕ) (p : ℕ)
    → All (IsReadable big) es
    → length file < two63
    → drop p file ≡ put_entries o big es rest
    → read_entries o big (length es) (record { contents = file; offset = p })
      ≡ ok (parsed_entries o big es)
unfolding put_entries parsed_entries
read_entries-put_entries o big [] file rest p all room at = unfold read_entries in refl
read_entries-put_entries o big (e ∷ es) file rest p all room at =
    let rest' = put_entries o big es rest in
    let fits = all.0.0 in
    let inside : p + entry_len big < two63 =
      omega (arith, within_file o big e fits file rest' p at) in
    let step = read_entry-put_entry o big e fits file rest' p at all.0.1 inside in
    let at' = read_entry-rest o big e fits file rest' p at in
    rw (
      read_entries_lem o big (length es) _ _ _ step,
      read_entries-put_entries o big es file rest (p + entry_len big) all.1 room at',
    )
