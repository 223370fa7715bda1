-- ===== src/Schedules/Handler.antt =====
-- A handler of the API: it reads and changes the state, and a call of it that ends with an error
-- keeps the changes that were made before.
use mathlib.Core.Path.{◌≡◌, refl}
use migration_platform.Prelude.{ok, err}
use migration_platform.Api.{ApiError, ApiResult}

module _ {S : Type 0} where
  abbrev pub lift : {A : Type 0} → ApiResult A → S → ApiResult A × S
  lift r s = (r, s)

  abbrev pub change : (S → S) → S → ApiResult (Unit {0}) × S
  change f s = (ok tt, f s)

  infixl 5 ◌>>=◌ ◌>>◌
  abbrev pub go_on : {A B : Type 0} → (A → S → ApiResult B × S) → ApiResult A × S → ApiResult B × S
  go_on k (ok a, s) = k a s
  go_on k (err e, s) = (err e, s)

  abbrev pub ◌>>=◌ :
      {A B : Type 0} → (S → ApiResult A × S) → (A → S → ApiResult B × S) → S → ApiResult B × S
  ◌>>=◌ m k s = go_on k (m s)

  abbrev pub ◌>>◌ :
      {B : Type 0} → (S → ApiResult (Unit {0}) × S) → (S → ApiResult B × S) → S → ApiResult B × S
  ◌>>◌ m k s = go_on (λ u. k) (m s)

  -- A check either ends the call at once, or the call goes on.
  pub lift-cases :
      {A B : Type 0} (P : ApiResult B × S → Type 0) (r : ApiResult A) (k : A → S → ApiResult B × S)
      (s : S)
      → ((e : ApiError) → P (err e, s))
      → ((a : A) → r ≡ ok a → P (k a s))
      → P (go_on k (r, s))
  lift-cases P (ok a) k s no_way way = way a refl
  lift-cases P (err e) k s no_way way = no_way e
