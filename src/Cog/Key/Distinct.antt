-- ===== src/Cog/Key/Distinct.antt =====
-- Files that share a tile cache do not meet in it.
use mathlib.Core.List.{append_assoc, append_cancel_left}
use gedtm30api.Base.{
  ℕ, zero, suc, ◌+◌, ◌-◌, ◌*◌, ◌/◌, ◌%◌, ◌≤◌, ◌<◌, ◌≡◌, ◌≢◌, refl, ap, sym, subst, ◌∙◌, inl, inr,
  List, [], ◌∷◌, ◌++◌, All, arith, ltb, ltb→lt, ltb→ge, get_or, drop, Bool-cases,
}
use gedtm30api.Base.Int.{pos}
use gedtm30api.Cog.Key.{decimal_loop, decimal, itoa, cache_key}

-- The number that decimal digits stand for, behind the digits of `acc`.
abbrev number : List ℕ → ℕ → ℕ
number [] acc = acc
number (d ∷ ds) acc = number ds (acc * 10 + (d - 48))

decimal_loop-last :
    (fuel n : ℕ) (ds : List ℕ) → n < 10 → decimal_loop (suc fuel) n ds ≡ (48 + n % 10) ∷ ds
unfolding decimal_loop
decimal_loop-last fuel n ds h = ground arith

decimal_loop-more :
    (fuel n : ℕ) (ds : List ℕ)
    → 10 ≤ n
    → decimal_loop (suc fuel) n ds ≡ decimal_loop fuel (n / 10) ((48 + n % 10) ∷ ds)
unfolding decimal_loop
decimal_loop-more fuel n ds h = ground arith

number-decimal_loop :
    (fuel n : ℕ) (ds : List ℕ) → n < fuel → number (decimal_loop fuel n ds) 0 ≡ number ds n
number-decimal_loop zero n ds h = absurd (omega arith)
number-decimal_loop (suc fuel) n ds h = elim (Bool-cases (ltb n 10)) [
  | inl last ↦
      ap (λ xs. number xs 0) (decimal_loop-last fuel n ds (ltb→lt n 10 last))
      ∙ ap (number ds) (omega (arith, ltb→lt n 10 last))
  | inr more ↦
      let large = ltb→ge n 10 more in
      ap (λ xs. number xs 0) (decimal_loop-more fuel n ds large)
      ∙ number-decimal_loop fuel (n / 10) ((48 + n % 10) ∷ ds) (omega arith)
      ∙ ap (number ds) (omega arith)
]

number-decimal : (n : ℕ) → number (decimal n) 0 ≡ n
unfolding decimal
number-decimal n = number-decimal_loop (suc n) n [] (omega arith)

abbrev pub hash : ℕ
hash = b'#'

abbrev NoHash : List ℕ → Type 0
NoHash ds = All (λ d. d ≢ hash) ds

decimal_loop-NoHash : (fuel n : ℕ) (ds : List ℕ) → NoHash ds → NoHash (decimal_loop fuel n ds)
decimal_loop-NoHash zero n ds h = unfold decimal_loop in h
decimal_loop-NoHash (suc fuel) n ds h =
    let here : NoHash ((48 + n % 10) ∷ ds) = (λ e. omega arith, h) in
    elim (Bool-cases (ltb n 10)) [
      | inl last ↦ subst NoHash (sym (decimal_loop-last fuel n ds (ltb→lt n 10 last))) here
      | inr more ↦
          subst NoHash (sym (decimal_loop-more fuel n ds (ltb→ge n 10 more)))
            (decimal_loop-NoHash fuel (n / 10) ((48 + n % 10) ∷ ds) here)
    ]

decimal-NoHash : (n : ℕ) → NoHash (decimal n)
unfolding decimal
decimal-NoHash n = decimal_loop-NoHash (suc n) n [] tt

no_hash : (b e : List ℕ) → NoHash (b ++ (hash ∷ e)) → hash ≢ hash
no_hash [] e h = h.0
no_hash (c ∷ b) e h = no_hash b e h.1

-- The last hash of a text splits it in one way.
split-hash :
    (a b d e : List ℕ)
    → NoHash d
    → NoHash e
    → (a ++ (hash ∷ d)) ≡ (b ++ (hash ∷ e))
    → (a ≡ b) × (d ≡ e)
split-hash [] [] d e h k same = (refl, ap (drop 1) same)
split-hash [] (c ∷ b) d e h k same =
    let rest : d ≡ b ++ (hash ∷ e) = ap (drop 1) same in
    absurd (no_hash b e (subst NoHash rest h) refl)
split-hash (c ∷ a) [] d e h k same =
    let rest : a ++ (hash ∷ d) ≡ e = ap (drop 1) same in
    absurd (no_hash a d (subst NoHash (sym rest) k) refl)
split-hash (c ∷ a) (f ∷ b) d e h k same =
    let (front, back) = split-hash a b d e h k (ap (drop 1) same) in
    (ap (λ x. x ∷ a) (ap (λ xs. get_or xs 0 0) same) ∙ ap (◌∷◌ f) front, back)

-- The sources of a mosaic put their tiles into one cache under the key of a name, a hash and the
-- number of the tile. The key tells both: two tiles with the same key are the same tile of the
-- same file, also where a name holds hashes and digits.
pub cache_key_inj :
    (a b : List ℕ) (m n : ℕ)
    → cache_key (a ++ (hash ∷ [])) (pos m) ≡ cache_key (b ++ (hash ∷ [])) (pos n)
    → (a ≡ b) × (m ≡ n)
unfolding cache_key itoa
cache_key_inj a b m n same =
    let (names, digits) =
      split-hash a b (decimal m) (decimal n) (decimal-NoHash m) (decimal-NoHash n) (
        sym (append_assoc a (hash ∷ []) (decimal m))
        ∙ same
        ∙ append_assoc b (hash ∷ []) (decimal n)) in
    (names, sym (number-decimal m) ∙ ap (λ ds. number ds 0) digits ∙ number-decimal n)

-- In one file the key tells the number of the tile.
pub cache_key_number : (a : List ℕ) (m n : ℕ) → cache_key a (pos m) ≡ cache_key a (pos n) → m ≡ n
unfolding cache_key itoa
cache_key_number a m n same =
    sym (number-decimal m)
    ∙ ap (λ ds. number ds 0) (append_cancel_left a (decimal m) (decimal n) same)
    ∙ number-decimal n
