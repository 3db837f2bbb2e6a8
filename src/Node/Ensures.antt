-- ===== src/Node/Ensures.antt =====
-- What holds of the value and the state of a step that returns.
use f1r3fly_rgb_lightning_no.Common.{◌≡◌, refl, Bool, true, false, Option, none, some}
use f1r3fly_rgb_lightning_no.Error.{ApiError}
use f1r3fly_rgb_lightning_no.Outcome.{Outcome, ok, err, panicked}
use f1r3fly_rgb_lightning_no.Node.State.{UnlockedAppState}
use f1r3fly_rgb_lightning_no.Node.Monad.{Action, pure, unwrap, or_fail, fail_if, ◌>>=◌}

abbrev pub OkWith :
    {A : Type 0} → (A → UnlockedAppState → Type 0) → Outcome A × UnlockedAppState → Type 0
OkWith P (ok a, s) = P a s
OkWith P (err _, s) = Unit
OkWith P (panicked, s) = Unit

pub record Ensures {A : Type 0} (m : Action A) (P : A → UnlockedAppState → Type 0) : Type 0 where
  pub apply : (s : UnlockedAppState) → OkWith P (m s)

bind-OkWith :
    {A B : Type 0} (Q : A → Type 0) (P : B → UnlockedAppState → Type 0)
    (r : Outcome A × UnlockedAppState) (f : A → Action B)
    → OkWith (λ a _. Q a) r
    → ((a : A) → Q a → Ensures (f a) P)
    → OkWith P (((λ _. r) >>= f) r.1)
bind-OkWith Q P (ok a, s) f h k = (k a h).apply s
bind-OkWith Q P (err e, s) f h k = tt
bind-OkWith Q P (panicked, s) f h k = tt

pub bind-Ensures :
    {A B : Type 0} {P : B → UnlockedAppState → Type 0} (Q : A → Type 0) (m : Action A)
    (f : A → Action B)
    → Ensures m (λ a _. Q a)
    → ((a : A) → Q a → Ensures (f a) P)
    → Ensures (m >>= f) P
bind-Ensures Q m f hm hf = record { apply = λ s. bind-OkWith Q _ (m s) f (hm.apply s) hf }

pure-OkWith :
    {A B : Type 0} (P : B → UnlockedAppState → Type 0) (r : Outcome A × UnlockedAppState) (b : B)
    → OkWith (λ _ s. P b s) r
    → OkWith P (((λ _. r) >>= (λ _. pure b)) r.1)
pure-OkWith P (ok a, s) b h = h
pure-OkWith P (err e, s) b h = tt
pure-OkWith P (panicked, s) b h = tt

-- A step followed by a value.
pub pure-Ensures :
    {A B : Type 0} (P : B → UnlockedAppState → Type 0) (m : Action A) (b : B)
    → Ensures m (λ _ s. P b s)
    → Ensures (m >>= (λ _. pure b)) P
pure-Ensures P m b hm = record { apply = λ s. pure-OkWith P (m s) b (hm.apply s) }

pub fail_if-Ensures : (c : Bool) (e : ApiError) → Ensures (fail_if c e) (λ _ _. c ≡ false)
fail_if-Ensures true e = record { apply = λ s. tt }
fail_if-Ensures false e = record { apply = λ s. refl }

pub or_fail-Ensures :
    {A : Type 0} (o : Option A) (e : ApiError) → Ensures (or_fail o e) (λ a _. o ≡ some a)
or_fail-Ensures none e = record { apply = λ s. tt }
or_fail-Ensures (some a) e = record { apply = λ s. refl }

pub unwrap-Ensures : {A : Type 0} (o : Option A) → Ensures (unwrap o) (λ a _. o ≡ some a)
unwrap-Ensures none = record { apply = λ s. tt }
unwrap-Ensures (some a) = record { apply = λ s. refl }

weaken-OkWith :
    {A : Type 0} (P Q : A → UnlockedAppState → Type 0) (r : Outcome A × UnlockedAppState)
    → OkWith P r
    → ((a : A) (s : UnlockedAppState) → P a s → Q a s)
    → OkWith Q r
weaken-OkWith P Q (ok a, s) h k = k a s h
weaken-OkWith P Q (err e, s) h k = tt
weaken-OkWith P Q (panicked, s) h k = tt

pub weaken-Ensures :
    {A : Type 0} (P Q : A → UnlockedAppState → Type 0) (m : Action A)
    → Ensures m P
    → ((a : A) (s : UnlockedAppState) → P a s → Q a s)
    → Ensures m Q
weaken-Ensures P Q m hm k = record { apply = λ s. weaken-OkWith P Q (m s) (hm.apply s) k }

-- The same from a condition on the state that the step starts in.
pub record Leads {A : Type 0} (R : UnlockedAppState → Type 0) (m : Action A)
    (P : A → UnlockedAppState → Type 0) : Type 0 where
  pub apply : (s : UnlockedAppState) → R s → OkWith P (m s)

then-OkWith :
    {A B : Type 0} (Q : A → UnlockedAppState → Type 0) (P : B → UnlockedAppState → Type 0)
    (r : Outcome A × UnlockedAppState) (f : A → Action B)
    → OkWith Q r
    → ((a : A) → Leads (Q a) (f a) P)
    → OkWith P (((λ _. r) >>= f) r.1)
then-OkWith Q P (ok a, s) f h k = (k a).apply s h
then-OkWith Q P (err e, s) f h k = tt
then-OkWith Q P (panicked, s) f h k = tt

pub bind-Leads :
    {A B : Type 0} {R : UnlockedAppState → Type 0} {P : B → UnlockedAppState → Type 0}
    (Q : A → UnlockedAppState → Type 0) (m : Action A) (f : A → Action B)
    → Leads R m Q
    → ((a : A) → Leads (Q a) (f a) P)
    → Leads R (m >>= f) P
bind-Leads Q m f hm hf = record { apply = λ s h. then-OkWith Q _ (m s) f (hm.apply s h) hf }

pub then-Ensures :
    {A B : Type 0} {P : B → UnlockedAppState → Type 0} (Q : A → UnlockedAppState → Type 0)
    (m : Action A) (f : A → Action B)
    → Ensures m Q
    → ((a : A) → Leads (Q a) (f a) P)
    → Ensures (m >>= f) P
then-Ensures Q m f hm hf = record { apply = λ s. then-OkWith Q _ (m s) f (hm.apply s) hf }

skip-OkWith :
    {A B : Type 0} (P : B → UnlockedAppState → Type 0) (r : Outcome A × UnlockedAppState)
    (f : A → Action B)
    → ((a : A) → Ensures (f a) P)
    → OkWith P (((λ _. r) >>= f) r.1)
skip-OkWith P (ok a, s) f k = (k a).apply s
skip-OkWith P (err e, s) f k = tt
skip-OkWith P (panicked, s) f k = tt

-- A first step of which nothing is needed.
pub skip-Ensures :
    {A B : Type 0} {P : B → UnlockedAppState → Type 0} (m : Action A) (f : A → Action B)
    → ((a : A) → Ensures (f a) P)
    → Ensures (m >>= f) P
skip-Ensures m f hf = record { apply = λ s. skip-OkWith _ (m s) f hf }

-- A test and an unwrapping leave the state as it is.
pub fail_if-Leads :
    (R : UnlockedAppState → Type 0) (c : Bool) (e : ApiError)
    → Leads R (fail_if c e) (λ _ s. (c ≡ false) × R s)
fail_if-Leads R true e = record { apply = λ s h. tt }
fail_if-Leads R false e = record { apply = λ s h. (refl, h) }

pub unwrap-Leads :
    {A : Type 0} (R : UnlockedAppState → Type 0) (o : Option A)
    → Leads R (unwrap o) (λ a s. (o ≡ some a) × R s)
unwrap-Leads R none = record { apply = λ s h. tt }
unwrap-Leads R (some a) = record { apply = λ s h. (refl, h) }
