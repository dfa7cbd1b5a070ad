-- ===== src/Vrt/Handles/Lookup.antt =====
-- Moving an open source to the front changes no lookup.
use gedtm30api.Base.{
  ◌≡◌, refl, sym, ap, ◌∙◌, inl, inr, false, some, List, [], ◌∷◌, Bool-cases, Option-cases,
}
use gedtm30api.Vrt.{Text}
use gedtm30api.Vrt.Text.{same, same→eq}
use gedtm30api.Vrt.Handles.{SourceEntry}
use gedtm30api.Vrt.Handles.Spec.{lookup, without, touch}

module _ {Q : Type 0} where
  lookup-without :
      (s t : Text) (es : List (SourceEntry Q))
      → same t s ≡ false
      → lookup t (without s es) ≡ lookup t es
  lookup-without s t [] apart = refl
  lookup-without s t (e ∷ es) apart = elim (Bool-cases (same s e.filename)) [
    | inl here ↦
        let away : same t e.filename ≡ false =
          ap (same t) (sym (same→eq s e.filename here)) ∙ apart in
        rw (here, away)
    | inr there ↦ rw (there, lookup-without s t es apart)
  ]

  pub lookup-touch : (s t : Text) (es : List (SourceEntry Q)) → lookup t (touch s es) ≡ lookup t es
  lookup-touch s t es = elim (Option-cases (lookup s es)) [
    | inl missing ↦ rw missing
    | inr (q, found) ↦ elim (Bool-cases (same t s)) [
      | inl eq ↦
          let known : lookup t es ≡ some q = ap (λ k. lookup k es) (same→eq t s eq) ∙ found in
          rw (found, eq, known)
      | inr apart ↦ rw (found, apart, lookup-without s t es apart)
    ]
  ]
