-- ===== src/Vrt/Handles/Pull.antt =====
-- Where the map and the list of the opened sources agree on a name.
use gedtm30api.Base.{
  All-at, ℕ, suc, ◌≡◌, ◌≢◌, refl, ap, sym, ◌∙◌, inl, inr, true, false, none, some, List, [], ◌∷◌,
  get_elem?, All, if◌then◌else◌, arith, ne→==, ◌==◌, Bool-cases,
}
use gedtm30api.Vrt.{Text}
use gedtm30api.Vrt.Text.{same, same_refl, same→eq}
use gedtm30api.Vrt.Handles.{SourceEntry, remove, is_in}
use gedtm30api.Vrt.Handles.Spec.{
  lookup, without, Element, addresses, values, find, drop_name, Apart, Distinct,
}

module _ {Q : Type 0} where
  pub All-drop_name {κ} :
      (P : Element Q → Type κ) (s : Text) (xs : List (Element Q))
      → All P xs
      → All P (drop_name s xs)
  All-drop_name P s [] all = tt
  All-drop_name P s (x ∷ xs) all = elim (Bool-cases (same s x.1.filename)) [
    | inl here ↦ rw here all.1
    | inr there ↦ rw there (all.0, All-drop_name P s xs all.1)
  ]

  pub values-drop_name :
      (s : Text) (xs : List (Element Q)) → values (drop_name s xs) ≡ without s (values xs)
  values-drop_name s [] = refl
  values-drop_name s (x ∷ xs) = elim (Bool-cases (same s x.1.filename)) [
    | inl here ↦ rw here
    | inr there ↦ rw there (ap (◌∷◌ x.1) (values-drop_name s xs))
  ]

  -- The element with a name, taken out of the list.
  pub record Pulled (s : Text) (xs : List (Element Q)) : Type 0 where
    pub el : ℕ
    pub entry : SourceEntry Q
    pub found : find s xs ≡ some el
    pub name : entry.filename ≡ s
    pub value : lookup s (values xs) ≡ some entry.geo
    pub at : ℕ
    pub is_at : get_elem? xs at ≡ some (el, entry)
    pub member : is_in el (addresses xs) ≡ true
    pub rest : remove el (addresses xs) ≡ addresses (drop_name s xs)
    pub apart : All (Apart (el, entry)) (drop_name s xs)
    pub distinct : Distinct (drop_name s xs)
    pub finds : (t : Text) → find t ((el, entry) ∷ drop_name s xs) ≡ find t xs

  find-swap :
      (t : Text) (x y : Element Q) (xs : List (Element Q))
      → Apart x y
      → find t (y ∷ x ∷ xs) ≡ find t (x ∷ y ∷ xs)
  find-swap t x y xs apart = elim (Bool-cases (same t x.1.filename)) [
    | inl first ↦ elim (Bool-cases (same t y.1.filename)) [
      | inl second ↦
          absurd (apart.1 (sym (same→eq t y.1.filename second) ∙ same→eq t x.1.filename first))
      | inr second ↦ rw (first, second)
    ]
    | inr first ↦ rw first
  ]

  pull_head :
      (s : Text) (x : Element Q) (xs : List (Element Q))
      → same s x.1.filename ≡ true
      → Distinct (x ∷ xs)
      → Pulled s (x ∷ xs)
  pull_head s x xs here d = record {
    el = x.0;
    entry = x.1;
    found = rw here;
    name = sym (same→eq s x.1.filename here);
    value = rw here;
    at = 0;
    is_at = refl;
    member = ground arith;
    rest = rw here (ground arith);
    apart = rw here d.0;
    distinct = rw here d.1;
    finds = λ t. rw here;
  }

  pull_tail :
      (s : Text) (x : Element Q) (xs : List (Element Q))
      → same s x.1.filename ≡ false
      → Distinct (x ∷ xs)
      → Pulled s xs
      → Pulled s (x ∷ xs)
  pull_tail s x xs there d p =
      let away : Apart x (p.el, p.entry) = All-at (Apart x) xs p.at (p.el, p.entry) d.0 p.is_at in
      let other : (x.0 == p.el) ≡ false = ne→== x.0 p.el (λ e. away.0 (sym e)) in
      record {
        el = p.el;
        entry = p.entry;
        found = rw there p.found;
        name = p.name;
        value = rw there p.value;
        at = suc p.at;
        is_at = p.is_at;
        member = rw other p.member;
        rest = rw (other, there) (ap (◌∷◌ x.0) p.rest);
        apart = rw there ((λ e. away.0 (sym e), λ e. away.1 (sym e)), p.apart);
        distinct = rw there (All-drop_name (Apart x) s xs d.0, p.distinct);
        finds = λ t. rw there (
            find-swap t x (p.el, p.entry) (drop_name s xs) away
            ∙ ap (λ r. if same t x.1.filename then some x.0 else r) (p.finds t));
      }

  -- A name that the map knows.
  pub pull :
      (s : Text) (xs : List (Element Q)) (el : ℕ) → Distinct xs → find s xs ≡ some el → Pulled s xs
  pull s [] el d h = cc
  pull s (x ∷ xs) el d h = elim (Bool-cases (same s x.1.filename)) [
    | inl here ↦ pull_head s x xs here d
    | inr there ↦ pull_tail s x xs there d (pull s xs el d.1 (sym (rw there) ∙ h))
  ]

  -- A name that the map does not know.
  pub find-none-lookup :
      (s : Text) (xs : List (Element Q)) → find s xs ≡ none → lookup s (values xs) ≡ none
  find-none-lookup s [] h = refl
  find-none-lookup s (x ∷ xs) h = elim (Bool-cases (same s x.1.filename)) [
    | inl here ↦ cc
    | inr there ↦ rw there (find-none-lookup s xs (sym (rw there) ∙ h))
  ]

  pub find-none-names :
      (s : Text) (xs : List (Element Q)) → find s xs ≡ none → All (λ x. x.1.filename ≢ s) xs
  find-none-names s [] h = tt
  find-none-names s (x ∷ xs) h = elim (Bool-cases (same s x.1.filename)) [
    | inl here ↦ cc
    | inr there ↦ (
      (λ e. ground (arith, there, ap (same s) e, same_refl s)),
      find-none-names s xs (sym (rw there) ∙ h),
    )
  ]
