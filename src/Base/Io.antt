-- ===== src/Base/Io.antt =====
-- Calls that change a state, whether they return, fail or panic: what was changed stays changed.
use Prim.Native.String.{String}
use mathlib.Core.Bool.{Bool}
use gedtm30api.Base.Run.{
  Error, Run, ok, err, panic, hang, fail_if as fail_if_run, wrap_error as wrap_run,
}

abbrev pub Io {ℓ} : Type ℓ → Type ℓ → Type ℓ
Io S A = S → Run A × S

module _ {ℓ} {S A : Type ℓ} where
  abbrev pub pure : A → Io S A
  pure a s = (ok a, s)

  abbrev pub throw : Error → Io S A
  throw e s = (err e, s)

  abbrev pub lift : Run A → Io S A
  lift r s = (r, s)

  abbrev pub wrap_error : String → Io S A → Io S A
  wrap_error t m s = let (r, s') = m s in (wrap_run t r, s')

module _ {ℓ} {S : Type ℓ} {A B : Type ℓ} where
  abbrev pub continue : Run A → (A → Io S B) → Io S B
  continue (ok a) f s = f a s
  continue (err e) f s = (err e, s)
  continue panic f s = (panic, s)
  continue hang f s = (hang, s)

  infixl 5 ◌>>=◌
  abbrev pub ◌>>=◌ : Io S A → (A → Io S B) → Io S B
  ◌>>=◌ m f s = let (r, s') = m s in continue r f s'

infixl 5 ◌>>◌
abbrev pub ◌>>◌ : {S B : Type 0} → Io S (Unit {0}) → Io S B → Io S B
m >> k = m >>= λ _. k

abbrev pub fail_if : {S : Type 0} → Bool → Error → Io S (Unit {0})
fail_if b e s = (fail_if_run b e, s)
