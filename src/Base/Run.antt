-- ===== src/Base/Run.antt =====
-- How a Go call ends: with a value, with a returned error, with a run-time panic, or not at all.
-- The numbers and names that the source formats into a message are left out of it.
use Prim.Native.String.{String}
use mathlib.Core.Bool.{Bool, true, false}
use mathlib.Core.Option.{Option, none, some}

-- `wrap` is `fmt.Errorf("…: %w", err)`; `external` comes from code outside the repository.
pub data Error : Type 0 where
  eof unexpected_eof : Error
  text : String → Error
  external : String → Error
  wrap : String → Error → Error

pub data Run {ℓ} (A : Type ℓ) : Type ℓ where
  ok : A → Run A
  err : Error → Run A
  panic hang : Run A

infixl 5 ◌>>=◌
abbrev pub ◌>>=◌ {ℓ κ} : {A : Type ℓ} {B : Type κ} → Run A → (A → Run B) → Run B
ok a >>= k = k a
panic >>= k = panic
hang >>= k = hang
err e >>= k = err e

infixl 5 ◌>>◌
abbrev pub ◌>>◌ {ℓ} : {B : Type ℓ} → Run (Unit {0}) → Run B → Run B
m >> next = m >>= λ _. next

-- `if bad { return err }`
abbrev pub fail_if : Bool → Error → Run (Unit {0})
fail_if true e = err e
fail_if false e = ok tt

abbrev pub panic_if : Bool → Run (Unit {0})
panic_if true = panic
panic_if false = ok tt

abbrev pub or_error {ℓ} : {A : Type ℓ} → Option A → Error → Run A
or_error (some a) e = ok a
or_error none e = err e

-- An index or a pointer that is not there.
abbrev pub or_panic {ℓ} : {A : Type ℓ} → Option A → Run A
or_panic (some a) = ok a
or_panic none = panic

abbrev pub wrap_error {ℓ} : {A : Type ℓ} → String → Run A → Run A
wrap_error s (err e) = err (wrap s e)
wrap_error s r = r
