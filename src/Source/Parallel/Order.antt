-- ===== src/Source/Parallel/Order.antt =====
-- In whatever order the chunks are done, the buffer is filled as by one read.
use mathlib.Core.List.{Permᴰ}
use native.Mathlib.Decide.{dec_lt}
use gedtm30api.Base.{
  ℕ, zero, suc, ◌+◌, ◌-◌, ◌≤◌, ◌<◌, ◌≡◌, refl, ap, ◌⊎◌, inl, inr, List, [], ◌∷◌, arith, length,
  get_elem?, slice, get_elem?-slice, length-slice, ext_get_elem?, All, ltb, leb, lt→ltb, ge→ltb,
  subst, if◌then◌else◌, ◌&&◌,
}
use gedtm30api.Source.Parallel.{Chunk, chunks, write}

length-write : (buf : List ℕ) (at : ℕ) (bs : List ℕ) → length (write buf at bs) ≡ length buf
unfolding write
length-write buf at [] = refl
length-write [] at (b ∷ bs) = refl
length-write (x ∷ buf) zero (b ∷ bs) = ap suc (length-write buf zero bs)
length-write (x ∷ buf) (suc at) (b ∷ bs) = ap suc (length-write buf at (b ∷ bs))

get_elem?-write :
    (buf : List ℕ) (at : ℕ) (bs : List ℕ) (i : ℕ)
    → at + length bs ≤ length buf
    → get_elem? (write buf at bs) i
      ≡ (if leb at i && ltb i (at + length bs) then get_elem? bs (i - at) else get_elem? buf i)
unfolding write
get_elem?-write buf at [] i h = ground arith
get_elem?-write [] at (b ∷ bs) i h = absurd (omega arith)
get_elem?-write (x ∷ buf) zero (b ∷ bs) zero h = ground arith
get_elem?-write (x ∷ buf) zero (b ∷ bs) (suc i) h = ground (arith, get_elem?-write buf zero bs i)
get_elem?-write (x ∷ buf) (suc at) (b ∷ bs) zero h = ground arith
get_elem?-write (x ∷ buf) (suc at) (b ∷ bs) (suc i) h =
    ground (arith, get_elem?-write buf at (b ∷ bs) i)

-- Index `i` lies in one of the chunks.
abbrev pub Covered : ℕ → List Chunk → Type 0
Covered i [] = ⊥
Covered i (c ∷ cs) = ((c.lo ≤ i) × (i < c.hi)) ⊎ Covered i cs

pub Covered-Permᴰ : (i : ℕ) {cs ds : List Chunk} → Permᴰ cs ds → Covered i cs → Covered i ds
Covered-Permᴰ i Permᴰ.nil h = h
Covered-Permᴰ i (Permᴰ.cons c p) h = ground (arith, Covered-Permᴰ i p)
Covered-Permᴰ i (Permᴰ.swap c d) h = ground arith
Covered-Permᴰ i (Permᴰ.trans p q) h = Covered-Permᴰ i q (Covered-Permᴰ i p h)

-- The chunks cover the buffer.
pub chunks-Covered :
    (fuel start size n i : ℕ)
    → 1 ≤ size
    → n ≤ start + fuel
    → start ≤ i
    → i < n
    → Covered i (chunks fuel start size n)
unfolding chunks
chunks-Covered zero start size n i h f p q = absurd (omega arith)
chunks-Covered (suc fuel) start size n i h f p q =
    rw (lt→ltb start n (omega arith)) (elim (dec_lt i (start + size)) [
      | yes near ↦ inl (p, omega arith)
      | no far ↦ inr (chunks-Covered fuel (start + size) size n i h (omega arith) (omega arith) q)
    ])

abbrev pub IsWithin : ℕ → Chunk → Type 0
IsWithin n c = (c.lo ≤ c.hi) × (c.hi ≤ n)

pub All-Permᴰ :
    (n : ℕ) {cs ds : List Chunk} → Permᴰ cs ds → All (IsWithin n) cs → All (IsWithin n) ds
All-Permᴰ n Permᴰ.nil h = h
All-Permᴰ n (Permᴰ.cons {a = a} {b = b} e p) h = (subst (IsWithin n) e h.0, All-Permᴰ n p h.1)
All-Permᴰ n (Permᴰ.swap e f) h = (subst (IsWithin n) f h.1.0, (subst (IsWithin n) e h.0, h.1.1))
All-Permᴰ n (Permᴰ.trans p q) h = All-Permᴰ n q (All-Permᴰ n p h)

pub chunks-IsWithin : (fuel start size n : ℕ) → All (IsWithin n) (chunks fuel start size n)
unfolding chunks
chunks-IsWithin zero start size n = tt
chunks-IsWithin (suc fuel) start size n = elim (dec_lt start n) [
  | yes p ↦
      rw (lt→ltb start n p) ((omega arith, omega arith), chunks-IsWithin fuel (start + size) size n)
  | no p ↦ rw (ge→ltb start n (omega arith)) tt
]

-- The writes of the chunks, the file's bytes `k` to `k + n` being there.
module _ (file : List ℕ) (k n : ℕ) (inside : k + n ≤ length file) where
  -- Each index is still to come, or holds the file's byte.
  abbrev pub IsFilling : List Chunk → List ℕ → Type 0
  IsFilling cs buf =
      (length buf ≡ n)
      × ((i : ℕ) → i < n → Covered i cs ⊎ (get_elem? buf i ≡ get_elem? (slice file k n) i))

  pub IsFilling-nil : (buf : List ℕ) → IsFilling [] buf → buf ≡ slice file k n
  IsFilling-nil buf h =
      ext_get_elem? buf (slice file k n) (omega (arith, length-slice file k n inside, h.0))
        (λ i p. ground (arith, h.0, h.1 i))

  pub IsFilling-write :
      (c : Chunk) (cs : List Chunk) (buf : List ℕ)
      → IsWithin n c
      → IsFilling (c ∷ cs) buf
      → IsFilling cs (write buf c.lo (slice file (k + c.lo) (c.hi - c.lo)))
  IsFilling-write c cs buf w h =
      let bytes = slice file (k + c.lo) (c.hi - c.lo) in
      let size = length-slice file (k + c.lo) (c.hi - c.lo) (omega arith) in
      (
        omega (arith, length-write buf c.lo bytes, h.0),
        λ i p. ground (
          arith,
          h.0,
          h.1 i p,
          size,
          get_elem?-write buf c.lo bytes i (omega (arith, h.0, size)),
          get_elem?-slice file (k + c.lo) (c.hi - c.lo) (i - c.lo),
          get_elem?-slice file k n i p,
        ),
      )
