-- ===== src/Routes/Channels/Steady.antt =====
-- The steps of `open_channel` that leave the lock of the asset's transfer as it is.
use f1r3fly_rgb_lightning_no.Common.{
  ℕ, ◌≡◌, refl, ◌∙◌, Bool, true, false, Option, none, some, Bytes,
}
use f1r3fly_rgb_lightning_no.Error.{ApiError}
use f1r3fly_rgb_lightning_no.Outcome.{Outcome, ok, err, panicked}
use f1r3fly_rgb_lightning_no.Node.{
  UnlockedAppState, LibraryCall, Action, pure, fail, gets, unwrap, or_fail, fail_if, lift, call,
  ◌>>=◌,
}
use f1r3fly_rgb_lightning_no.Node.Funding.{AssetSchema, check_schema}
use f1r3fly_rgb_lightning_no.Peers.{PeerCodec}
use f1r3fly_rgb_lightning_no.Routes.Library.{Library}
use f1r3fly_rgb_lightning_no.Routes.Channels.{ChannelLibrary, RgbResult, gives, refuses, rgb_try}
use f1r3fly_rgb_lightning_no.Routes.Channels.Open.{
  OpenChannelRequest, check_temporary, check_colored, check_capacity, check_open, reserve_asset,
}

-- A step that leaves the lock as it is.
pub record Steady {A : Type 0} (m : Action A) : Type 0 where
  pub apply : (s : UnlockedAppState) → (m s).1.rgb_send_lock ≡ s.rgb_send_lock

bind-lock :
    {A B : Type 0} (b : Bool) (r : Outcome A × UnlockedAppState) (f : A → Action B)
    → r.1.rgb_send_lock ≡ b
    → ((a : A) → Steady (f a))
    → (((λ _. r) >>= f) r.1).1.rgb_send_lock ≡ b
bind-lock b (ok a, s) f h k = (k a).apply s ∙ h
bind-lock b (err e, s) f h k = h
bind-lock b (panicked, s) f h k = h

bind-Steady :
    {A B : Type 0} (m : Action A) (f : A → Action B)
    → Steady m
    → ((a : A) → Steady (f a))
    → Steady (m >>= f)
bind-Steady m f hm hf = record { apply = λ s. bind-lock s.rgb_send_lock (m s) f (hm.apply s) hf }

module _ {A : Type 0} where
  pure-Steady : (a : A) → Steady (pure a)
  pure-Steady a = record { apply = λ s. refl }

  fail-Steady : (e : ApiError) → Steady {A = A} (fail e)
  fail-Steady e = record { apply = λ s. refl }

  lift-Steady : (o : Outcome A) → Steady (lift o)
  lift-Steady o = record { apply = λ s. refl }

  gets-Steady : (f : UnlockedAppState → A) → Steady (gets f)
  gets-Steady f = record { apply = λ s. refl }

  or_fail-Steady : (o : Option A) (e : ApiError) → Steady (or_fail o e)
  or_fail-Steady none e = fail-Steady e
  or_fail-Steady (some a) e = pure-Steady a

  unwrap-Steady : (o : Option A) → Steady (unwrap o)
  unwrap-Steady none = record { apply = λ s. refl }
  unwrap-Steady (some a) = pure-Steady a

  rgb_try-Steady : (r : RgbResult A) → Steady (rgb_try r)
  unfolding rgb_try
  rgb_try-Steady (gives a) = pure-Steady a
  rgb_try-Steady (refuses e) = fail-Steady _

fail_if-Steady : (c : Bool) (e : ApiError) → Steady (fail_if c e)
fail_if-Steady true e = fail-Steady e
fail_if-Steady false e = pure-Steady tt

call-Steady : (c : LibraryCall) → Steady (call c)
call-Steady c = record { apply = λ s. refl }

check_schema-Steady : (x : AssetSchema) → Steady (check_schema x)
unfolding check_schema
check_schema-Steady AssetSchema.nia = pure-Steady tt
check_schema-Steady AssetSchema.cfa = pure-Steady tt
check_schema-Steady AssetSchema.uda = pure-Steady tt
check_schema-Steady AssetSchema.ifa = record { apply = λ s. refl }

ruleset steady_rules = (
  bind-Steady, pure-Steady, fail-Steady, lift-Steady, gets-Steady, or_fail-Steady, unwrap-Steady,
  rgb_try-Steady, fail_if-Steady, call-Steady, check_schema-Steady,
)

check_temporary-Steady : (o : Option Bytes) → Steady (check_temporary o)
unfolding check_temporary
check_temporary-Steady none = pure-Steady none
check_temporary-Steady (some text) = search steady_rules depth 8

check_colored-Steady :
    (f : Bytes → Option Bytes) (a : Option Bytes) (n : Option ℕ) → Steady (check_colored f a n)
unfolding check_colored
check_colored-Steady f (some a) (some n) = search steady_rules depth 8
check_colored-Steady f (some a) none = fail-Steady _
check_colored-Steady f none (some n) = fail-Steady _
check_colored-Steady f none none = pure-Steady none

check_capacity-Steady : (c : Bool) (r : OpenChannelRequest) → Steady (check_capacity c r)
unfolding check_capacity
check_capacity-Steady c r = search steady_rules depth 10

pub reserve_asset-Steady :
    (l : ChannelLibrary) (o : Option (Bytes × ℕ)) → Steady (reserve_asset l o)
unfolding reserve_asset
reserve_asset-Steady l none = pure-Steady tt
reserve_asset-Steady l (some (c, n)) = search steady_rules depth 12

ruleset check_rules =
    (check_temporary-Steady, check_colored-Steady, check_capacity-Steady, steady_rules)

module _ (lib : Library) (codec : PeerCodec) (r : OpenChannelRequest) where
  pub check_open-Steady : Steady (check_open lib codec r)
  unfolding check_open
  check_open-Steady = search check_rules depth 14

  pub check_open_locked :
      (s : UnlockedAppState)
      → s.rgb_send_lock ≡ true
      → check_open lib codec r s ≡ (err ApiError.open_channel_in_progress, s)
  unfolding check_open
  check_open_locked s h = rw h refl
