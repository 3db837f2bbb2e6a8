-- ===== src/Outcome.antt =====
-- What a call gives: a value, an `APIError`, or a panic (`unwrap`, `expect`, `panic!`, `todo!`).
use f1r3fly_rgb_lightning_no.Common.{Bool, true, false, Option, none, some}
use f1r3fly_rgb_lightning_no.Error.{ApiError}

pub data Outcome {ℓ} (A : Type ℓ) : Type ℓ where
  ok : A → Outcome A
  err : ApiError → Outcome A
  panicked : Outcome A

infixl 5 ◌>>=◌ ◌>>◌
abbrev pub ◌>>=◌ {ℓ κ} : {A : Type ℓ} {B : Type κ} → Outcome A → (A → Outcome B) → Outcome B
ok a >>= f = f a
err e >>= f = err e
panicked >>= f = panicked

abbrev pub ◌>>◌ {ℓ} : {B : Type ℓ} → Outcome (Unit {0}) → Outcome B → Outcome B
m >> k = m >>= λ _. k

-- `if c { return Err(e) }`
abbrev pub err_if : Bool → ApiError → Outcome (Unit {0})
err_if true e = err e
err_if false e = ok tt

-- `o.ok_or(e)?`
abbrev pub or_err {ℓ} : {A : Type ℓ} → Option A → ApiError → Outcome A
or_err none e = err e
or_err (some a) e = ok a
