-- ===== src/Source/Prefix/Extents.antt =====
-- Extents that are added to a prefixReader.
use gedtm30api.Base.{
  ℕ, zero, suc, subst, ap, ◌∙◌, ◌+◌, ◌<◌, ◌≤◌, ◌≡◌, refl, true, some, List, [], ◌∷◌, ◌++◌, length,
  get_elem?, arith,
}
use gedtm30api.Base.Int.{ℤ, pos, two63, add64, add64_small}
use gedtm30api.Source.Prefix.{Extent, PrefixReader, add_extent, in_extent, in_some_extent, covers}

pub add_extent-append :
    {S : Type 0} (off : ℤ) (bs : List ℕ) (p : PrefixReader S)
    → 0 < length bs
    → add_extent off bs p ≡ record p { extra = p.extra ++ record { off = off; bytes = bs } ∷ [] }
unfolding add_extent
add_extent-append off [] p h = absurd (omega arith)
add_extent-append off (b ∷ bs) p h = refl

in_some_extent-append_right :
    (es fs : List Extent) (start stop : ℤ)
    → in_some_extent fs start stop ≡ true
    → in_some_extent (es ++ fs) start stop ≡ true
unfolding in_some_extent
in_some_extent-append_right [] fs start stop h = h
in_some_extent-append_right (e ∷ es) fs start stop h =
    ground (arith, in_some_extent-append_right es fs start stop)

in_some_extent-at :
    (es : List Extent) (i : ℕ) (e : Extent) (start stop : ℤ)
    → get_elem? es i ≡ some e
    → in_extent e start stop ≡ true
    → in_some_extent es start stop ≡ true
unfolding in_some_extent
in_some_extent-at [] i e start stop at h = cc
in_some_extent-at (f ∷ es) zero e start stop at h =
    let same : e ≡ f = cc in let hit = subst (λ x. in_extent x start stop ≡ true) same h in rw hit
in_some_extent-at (f ∷ es) (suc i) e start stop at h =
    ground (arith, in_some_extent-at es i e start stop at h)

-- A range that one of the added extents holds is served from memory.
pub covers-added :
    {S : Type 0} (p : PrefixReader S) (es : List Extent) (i : ℕ) (e : Extent) (start stop : ℤ)
    → get_elem? es i ≡ some e
    → in_extent e start stop ≡ true
    → covers (record p { extra = p.extra ++ es }) start stop ≡ true
unfolding covers
covers-added p es i e start stop at h =
    let there =
      in_some_extent-append_right p.extra es start stop
        (in_some_extent-at es i e start stop at h) in
    ground (arith, there)

-- A range that lies inside an extent; its end is below the end of int64.
pub in_extent-within :
    (e : Extent) (a k m : ℕ)
    → e.off ≡ pos a
    → a + length e.bytes < two63
    → a ≤ k
    → m ≤ a + length e.bytes
    → in_extent e (pos k) (pos m) ≡ true
unfolding in_extent
in_extent-within e a k m off small from up_to =
    let stop : add64 e.off (pos (length e.bytes)) ≡ pos (a + length e.bytes) =
      ap (λ o. add64 o (pos (length e.bytes))) off ∙ add64_small a (length e.bytes) small in
    rw (stop, off) (ground arith)
