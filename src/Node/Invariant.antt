-- ===== src/Node/Invariant.antt =====
-- The invariant of the unlocked node: the store holds what the maps hold, and every swap in status
-- `Pending` has the time at which it was initiated. A step that does not panic keeps it.
use f1r3fly_rgb_lightning_no.Common.{
  ℕ, ◌≡◌, Option, none, some, Bool, true, false, if◌then◌else◌, AllValues,
}
use f1r3fly_rgb_lightning_no.Error.{ApiError}
use f1r3fly_rgb_lightning_no.Outcome.{Outcome, ok, err, panicked}
use f1r3fly_rgb_lightning_no.Swap.{SwapStatus, SwapData}
use f1r3fly_rgb_lightning_no.Node.State.{UnlockedAppState, LibraryCall}
use f1r3fly_rgb_lightning_no.Node.Monad.{
  Action, pure, fail, panic, gets, unwrap, or_fail, fail_if, lift, call, ◌>>=◌,
  get_current_timestamp,
}

abbrev pub HasStart : SwapStatus → Option ℕ → Type 0
HasStart SwapStatus.pending none = ⊥
HasStart _ _ = Unit

abbrev pub IsInitiated : SwapData → Type 0
IsInitiated d = HasStart d.status d.initiated_at

pub record IsSound (s : UnlockedAppState) : Type 0 where
  pub maker_saved : s.fs_store.maker_swaps ≡ s.maker_swaps
  pub taker_saved : s.fs_store.taker_swaps ≡ s.taker_swaps
  pub inbound_saved : s.fs_store.inbound_payments ≡ s.inbound_payments
  pub outbound_saved : s.fs_store.outbound_payments ≡ s.outbound_payments
  pub channel_ids_saved : s.fs_store.channel_ids ≡ s.channel_ids_map
  pub maker_initiated : AllValues IsInitiated s.maker_swaps
  pub taker_initiated : AllValues IsInitiated s.taker_swaps

-- The state after a step, unless it panicked.
abbrev pub SoundAfter : {A : Type 0} → Outcome A × UnlockedAppState → Type 0
SoundAfter (ok _, s) = IsSound s
SoundAfter (err _, s) = IsSound s
SoundAfter (panicked, s) = Unit

pub record Keeps {A : Type 0} (m : Action A) : Type 0 where
  pub apply : (s : UnlockedAppState) → IsSound s → SoundAfter (m s)

module _ {A : Type 0} where
  pub pure-Keeps : (a : A) → Keeps (pure a)
  pure-Keeps a = record { apply = λ s h. h }

  pub fail-Keeps : (e : ApiError) → Keeps {A = A} (fail e)
  fail-Keeps e = record { apply = λ s h. h }

  pub panic-Keeps : Keeps {A = A} panic
  panic-Keeps = record { apply = λ s h. tt }

  pub gets-Keeps : (f : UnlockedAppState → A) → Keeps (gets f)
  gets-Keeps f = record { apply = λ s h. h }

  pub unwrap-Keeps : (o : Option A) → Keeps (unwrap o)
  unwrap-Keeps none = panic-Keeps
  unwrap-Keeps (some a) = pure-Keeps a

  pub or_fail-Keeps : (o : Option A) (e : ApiError) → Keeps (or_fail o e)
  or_fail-Keeps none e = fail-Keeps e
  or_fail-Keeps (some a) e = pure-Keeps a

  outcome-SoundAfter : (o : Outcome A) (s : UnlockedAppState) → IsSound s → SoundAfter (o, s)
  outcome-SoundAfter (ok _) s h = h
  outcome-SoundAfter (err _) s h = h
  outcome-SoundAfter panicked s h = tt

  pub lift-Keeps : (o : Outcome A) → Keeps (lift o)
  lift-Keeps o = record { apply = outcome-SoundAfter o }

pub fail_if-Keeps : (c : Bool) (e : ApiError) → Keeps (fail_if c e)
fail_if-Keeps true e = fail-Keeps e
fail_if-Keeps false e = pure-Keeps tt

pub call-Keeps : (c : LibraryCall) → Keeps (call c)
call-Keeps c = record {
  apply = λ s h. record {
    maker_saved = h.maker_saved;
    taker_saved = h.taker_saved;
    inbound_saved = h.inbound_saved;
    outbound_saved = h.outbound_saved;
    channel_ids_saved = h.channel_ids_saved;
    maker_initiated = h.maker_initiated;
    taker_initiated = h.taker_initiated;
  };
}

pub get_current_timestamp-Keeps : Keeps get_current_timestamp
unfolding get_current_timestamp
get_current_timestamp-Keeps = record {
  apply = λ s h. record {
    maker_saved = h.maker_saved;
    taker_saved = h.taker_saved;
    inbound_saved = h.inbound_saved;
    outbound_saved = h.outbound_saved;
    channel_ids_saved = h.channel_ids_saved;
    maker_initiated = h.maker_initiated;
    taker_initiated = h.taker_initiated;
  };
}

bind-SoundAfter :
    {A B : Type 0} (r : Outcome A × UnlockedAppState) (f : A → Action B)
    → SoundAfter r
    → ((a : A) → Keeps (f a))
    → SoundAfter (((λ _. r) >>= f) r.1)
bind-SoundAfter (ok a, s) f h k = (k a).apply s h
bind-SoundAfter (err e, s) f h k = h
bind-SoundAfter (panicked, s) f h k = tt

pub bind-Keeps :
    {A B : Type 0} (m : Action A) (f : A → Action B)
    → Keeps m
    → ((a : A) → Keeps (f a))
    → Keeps (m >>= f)
bind-Keeps m f hm hf = record { apply = λ s h. bind-SoundAfter (m s) f (hm.apply s h) hf }

pub if-Keeps :
    {A : Type 0} (c : Bool) {m k : Action A} → Keeps m → Keeps k → Keeps (if c then m else k)
if-Keeps true hm hk = hm
if-Keeps false hm hk = hk

-- A step whose value, if it returns one, satisfies a predicate.
abbrev pub SoundWith : {A : Type 0} → (A → Type 0) → Outcome A × UnlockedAppState → Type 0
SoundWith P (ok a, s) = P a × IsSound s
SoundWith P (err _, s) = IsSound s
SoundWith P (panicked, s) = Unit

pub record Returns {A : Type 0} (P : A → Type 0) (m : Action A) : Type 0 where
  pub apply : (s : UnlockedAppState) → IsSound s → SoundWith P (m s)

bind-SoundWith :
    {A B : Type 0} (P : A → Type 0) (r : Outcome A × UnlockedAppState) (f : A → Action B)
    → SoundWith P r
    → ((a : A) → P a → Keeps (f a))
    → SoundAfter (((λ _. r) >>= f) r.1)
bind-SoundWith P (ok a, s) f h k = (k a h.0).apply s h.1
bind-SoundWith P (err e, s) f h k = h
bind-SoundWith P (panicked, s) f h k = tt

pub bind-Returns :
    {A B : Type 0} (P : A → Type 0) (m : Action A) (f : A → Action B)
    → Returns P m
    → ((a : A) → P a → Keeps (f a))
    → Keeps (m >>= f)
bind-Returns P m f hm hf = record { apply = λ s h. bind-SoundWith P (m s) f (hm.apply s h) hf }
