-- ===== src/Profile/Visited.antt =====
-- Pixels that were visited, and lists without a repeated pixel.
use gedtm30api.Base.{
  ◌≡◌, refl, ap, ap₂, sym, ◌∙◌, inl, inr, Bool, true, false, ◌&&◌, List, [], ◌∷◌, ◌++◌, All, arith,
  Bool-cases,
}
use gedtm30api.Base.Int.{ℤ, pos, negsuc, eqb_ℤ}
use gedtm30api.Profile.{same_pixel, is_visited}

pub eqb_ℤ→eq : (a b : ℤ) → eqb_ℤ a b ≡ true → a ≡ b
eqb_ℤ→eq (pos m) (pos n) h = ap pos (ground arith)
eqb_ℤ→eq (pos m) (negsuc n) h = absurd (ground arith)
eqb_ℤ→eq (negsuc m) (pos n) h = absurd (ground arith)
eqb_ℤ→eq (negsuc m) (negsuc n) h = ap negsuc (ground arith)

pub and-true : (a b : Bool) → (a && b) ≡ true → (a ≡ true) × (b ≡ true)
and-true true b h = (refl, h)
and-true false b h = cc

pub same_pixel→eq : (p q : ℤ × ℤ) → same_pixel p q ≡ true → p ≡ q
same_pixel→eq (a, b) (c, d) h =
    let (first, second) = and-true (eqb_ℤ a c) (eqb_ℤ b d) h in
    ap₂ (λ x y. (x, y)) (eqb_ℤ→eq a c first) (eqb_ℤ→eq b d second)

pub eqb_ℤ_refl : (a : ℤ) → eqb_ℤ a a ≡ true
eqb_ℤ_refl (pos n) = ground arith
eqb_ℤ_refl (negsuc n) = ground arith

pub same_pixel_refl : (p : ℤ × ℤ) → same_pixel p p ≡ true
same_pixel_refl (a, b) = rw (eqb_ℤ_refl a, eqb_ℤ_refl b)

-- No pixel stands twice in a list.
abbrev pub NoRepeat : List (ℤ × ℤ) → Type 0
NoRepeat [] = Unit
NoRepeat (p ∷ ps) = All (λ q. same_pixel p q ≡ false) ps × NoRepeat ps

pub All-snoc {κ} :
    {A : Type 0} (P : A → Type κ) (ys : List A) (y : A) → All P ys → P y → All P (ys ++ (y ∷ []))
All-snoc P [] y all h = (h, tt)
All-snoc P (x ∷ ys) y all h = (all.0, All-snoc P ys y all.1 h)

pub NoRepeat-snoc :
    (ps : List (ℤ × ℤ)) (p : ℤ × ℤ)
    → NoRepeat ps
    → All (λ q. same_pixel q p ≡ false) ps
    → NoRepeat (ps ++ (p ∷ []))
NoRepeat-snoc [] p h new = (tt, tt)
NoRepeat-snoc (q ∷ ps) p h new =
    (All-snoc (λ r. same_pixel q r ≡ false) ps p h.0 new.0, NoRepeat-snoc ps p h.1 new.1)

pub unvisited-new :
    (visited ps : List (ℤ × ℤ)) (p : ℤ × ℤ)
    → is_visited p visited ≡ false
    → All (λ q. is_visited q visited ≡ true) ps
    → All (λ q. same_pixel q p ≡ false) ps
unvisited-new visited [] p h all = tt
unvisited-new visited (q ∷ ps) p h all = (
  elim (Bool-cases (same_pixel q p)) [
    | inl e ↦
        let both : true ≡ false =
          sym all.0 ∙ ap (λ r. is_visited r visited) (same_pixel→eq q p e) ∙ h in
        cc
    | inr e ↦ e
  ],
  unvisited-new visited ps p h all.1,
)

pub still_visited :
    (visited ps : List (ℤ × ℤ)) (p : ℤ × ℤ)
    → All (λ q. is_visited q visited ≡ true) ps
    → All (λ q. is_visited q (p ∷ visited) ≡ true) ps
unfolding is_visited
still_visited visited [] p all = tt
still_visited visited (q ∷ ps) p all = (
  elim (Bool-cases (same_pixel q p)) [ inl e ↦ rw e | inr e ↦ rw e all.0 ],
  still_visited visited ps p all.1,
)

pub visited-here : (visited : List (ℤ × ℤ)) (p : ℤ × ℤ) → is_visited p (p ∷ visited) ≡ true
unfolding is_visited
visited-here visited p = rw (same_pixel_refl p)
