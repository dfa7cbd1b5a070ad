-- ===== src/Geo/Floats.antt =====
-- Go's float64 and float32, taken as types with their operations: antt has no floating point.
use gedtm30api.Base.{ℕ, Bool}
use gedtm30api.Base.Int.{ℤ, pos, ◌+ℤ◌, ◌-ℤ◌, ◌*ℤ◌, quot_ℤ, ltb_ℤ, leb_ℤ}
use gedtm30api.Base.{if◌then◌else◌}

-- `F` is float64 and `G` is float32. `floor`, `ceil` and `round` are math's; `to_int` is the
-- conversion to int.
pub record Floats (F G : Type 0) : Type 0 where
  pub add : F → F → F
  pub sub : F → F → F
  pub mul : F → F → F
  pub div : F → F → F
  pub neg : F → F
  pub abs : F → F
  pub min : F → F → F
  pub max : F → F → F
  pub round : F → F
  pub ceil : F → F
  pub le : F → F → Bool
  pub lt : F → F → Bool
  pub of_int : ℤ → F
  pub to_int : F → ℤ
  pub from_bits : ℕ → F
  pub float32_from_bits : ℕ → G
  pub tenth_of_int32 : ℤ → G
  pub float64_of : G → F
  pub float32_of : F → G

-- Whole numbers in place of floats, for runs of the model.
abbrev pub whole_numbers : Floats ℤ ℤ
whole_numbers = record {
  add = ◌+ℤ◌;
  sub = ◌-ℤ◌;
  mul = ◌*ℤ◌;
  div = quot_ℤ;
  neg = λ a. pos 0 -ℤ a;
  abs = λ a. if ltb_ℤ a (pos 0) then pos 0 -ℤ a else a;
  min = λ a b. if leb_ℤ a b then a else b;
  max = λ a b. if leb_ℤ a b then b else a;
  round = λ a. a;
  ceil = λ a. a;
  le = leb_ℤ;
  lt = ltb_ℤ;
  of_int = λ a. a;
  to_int = λ a. a;
  from_bits = pos;
  float32_from_bits = pos;
  tenth_of_int32 = λ a. quot_ℤ a (pos 10);
  float64_of = λ a. a;
  float32_of = λ a. a;
}
