-- ===== src/Node/Monad.antt =====
-- A step of the unlocked node: it may fail or panic, and what was written stays written.
use f1r3fly_rgb_lightning_no.Common.{ℕ, ◌+◌, ◌≡◌, ap, Bool, true, false, Option, none, some, ◌∷◌}
use f1r3fly_rgb_lightning_no.Error.{ApiError}
use f1r3fly_rgb_lightning_no.Outcome.{Outcome, ok, err, panicked}
use f1r3fly_rgb_lightning_no.Node.State.{UnlockedAppState, LibraryCall}

abbrev pub Action : Type 0 → Type 0
Action A = UnlockedAppState → Outcome A × UnlockedAppState

module _ {A : Type 0} where
  abbrev pub pure : A → Action A
  pure a s = (ok a, s)

  abbrev pub fail : ApiError → Action A
  fail e s = (err e, s)

  abbrev pub panic : Action A
  panic s = (panicked, s)

  abbrev pub gets : (UnlockedAppState → A) → Action A
  gets f s = (ok (f s), s)

  -- `o.unwrap()`
  abbrev pub unwrap : Option A → Action A
  unwrap none = panic
  unwrap (some a) = pure a

  -- `o.ok_or(e)?`
  abbrev pub or_fail : Option A → ApiError → Action A
  or_fail none e = fail e
  or_fail (some a) _ = pure a

  -- `r?` on a result that needs no state.
  abbrev pub lift : Outcome A → Action A
  lift o s = (o, s)

infixl 5 ◌>>=◌ ◌>>◌
abbrev pub ◌>>=◌ : {A B : Type 0} → Action A → (A → Action B) → Action B
◌>>=◌ m f s =
    let (r, s') = m s in elim r [ ok a ↦ f a s' | err e ↦ (err e, s') | panicked ↦ (panicked, s') ]

abbrev pub ◌>>◌ : {A B : Type 0} → Action A → Action B → Action B
m >> k = m >>= λ _. k

-- `if c { return Err(e) }`
abbrev pub fail_if : Bool → ApiError → Action (Unit {0})
fail_if true e = fail e
fail_if false e = pure tt

abbrev pub modify : (UnlockedAppState → UnlockedAppState) → Action (Unit {0})
modify f s = (ok tt, f s)

-- A write to the file store, unwrapped.
abbrev pub write_store : (UnlockedAppState → UnlockedAppState) → Action (Unit {0})
write_store f s = elim s.write_fails [ true ↦ (panicked, s) | false ↦ (ok tt, f s) ]

-- `get_current_timestamp` (src/utils.rs): one more reading of the clock.
unfoldable pub get_current_timestamp : Action ℕ
get_current_timestamp s = (ok (s.clock s.ticks), record s { ticks = s.ticks + 1 })

abbrev pub call : LibraryCall → Action (Unit {0})
call c = modify (λ s. record s { calls = c ∷ s.calls })

-- A step that returns goes on with its value, in its state.
pub bind-ok :
    {A B : Type 0} (m : Action A) (f : A → Action B) {s s' : UnlockedAppState} {a : A}
    → m s ≡ (ok a, s')
    → (m >>= f) s ≡ f a s'
bind-ok m f {s} e = ap (λ r. ((λ _. r) >>= f) s) e

pub bind-err :
    {A B : Type 0} (m : Action A) (f : A → Action B) {s s' : UnlockedAppState} {e : ApiError}
    → m s ≡ (err e, s')
    → (m >>= f) s ≡ (err e, s')
bind-err m f {s} q = ap (λ r. ((λ _. r) >>= f) s) q

pub bind-panicked :
    {A B : Type 0} (m : Action A) (f : A → Action B) {s s' : UnlockedAppState}
    → m s ≡ (panicked, s')
    → (m >>= f) s ≡ (panicked, s')
bind-panicked m f {s} q = ap (λ r. ((λ _. r) >>= f) s) q
