-- ===== src/Routes/Channels/Bounds.antt =====
-- What a channel that `open_channel` opens fits.
use mathlib.Core.Path.{subst}
use f1r3fly_rgb_lightning_no.Common.{
  ℕ, ◌≤◌, ◌≡◌, true, false, Option, none, some, is_some, Bytes, ltb, if◌then◌else◌, arith,
}
use f1r3fly_rgb_lightning_no.Error.{ApiError}
use f1r3fly_rgb_lightning_no.Outcome.{Outcome, ok, err, panicked}
use f1r3fly_rgb_lightning_no.Node.{
  UnlockedAppState, LibraryCall, Action, call, unwrap, fail_if, ◌>>=◌, ◌>>◌,
}
use f1r3fly_rgb_lightning_no.Node.Ensures.{Ensures, OkWith, bind-Ensures, fail_if-Ensures}
use f1r3fly_rgb_lightning_no.Node.Funding.{check_schema}
use f1r3fly_rgb_lightning_no.Peers.{PeerCodec, PeerStore}
use f1r3fly_rgb_lightning_no.Peers.Connections.{PeerManager}
use f1r3fly_rgb_lightning_no.Routes.Library.{Library}
use f1r3fly_rgb_lightning_no.Routes.Channels.{ChannelLibrary, RgbResult, gives, refuses, rgb_try}
use f1r3fly_rgb_lightning_no.Routes.Channels.Open.{
  OpenChannelRequest, Opening, Opened, check_open, reserve_asset, open_reserved, create_opened,
  after_connection, after_checks, open_channel,
}
use f1r3fly_rgb_lightning_no.Routes.Channels.Checked.{
  FitsCapacity, ColorOf, Checked, Passed, not-false, check_open-Ensures,
}

-- The amount is covered by the balance that the RGB library reports.
abbrev pub IsCovered : RgbResult ℕ → ℕ → Type 0
IsCovered (gives spendable) amount = amount ≤ spendable
IsCovered (refuses _) amount = ⊥

pub record FitsAsset (lib : Library) (channels : ChannelLibrary) (r : OpenChannelRequest)
    (asset : Bytes) (amount : ℕ) : Type 0 where
  pub contract : Bytes
  pub parses : lib.codec.contract_from_str asset ≡ some contract
  pub positive : 1 ≤ amount
  pub covered : IsCovered (channels.rgb_get_asset_balance contract) amount
  pub capacity : 30010 ≤ r.capacity_sat
  pub anchors : r.with_anchors ≡ true

-- The asset and the amount are given together.
abbrev pub FitsColor :
    Library → ChannelLibrary → OpenChannelRequest → Option Bytes → Option ℕ → Type 0
FitsColor lib channels r (some asset) (some amount) = FitsAsset lib channels r asset amount
FitsColor lib channels r none none = Unit
FitsColor lib channels r (some _) none = ⊥
FitsColor lib channels r none (some _) = ⊥

pub record Fits (lib : Library) (channels : ChannelLibrary) (r : OpenChannelRequest) : Type 0 where
  pub capacity : FitsCapacity r
  pub color : FitsColor lib channels r r.asset_id r.asset_amount

any-Ensures : {A : Type 0} {P : Type 0} (m : Action A) → P → Ensures m (λ _ _. P)
any-Ensures {A} {P} m h = record { apply = λ s. any-OkWith (m s) }
  where
    any-OkWith : (r : Outcome A × UnlockedAppState) → OkWith (λ _ _. P) r
    any-OkWith (ok a, s) = h
    any-OkWith (err e, s) = tt
    any-OkWith (panicked, s) = tt

enough-Ensures :
    (spendable n : ℕ) (f : Unit {0} → Action (Unit {0}))
    → Ensures (fail_if (ltb spendable n) ApiError.insufficient_assets >>= f) (λ _ _. n ≤ spendable)
enough-Ensures spendable n f =
    bind-Ensures {P = λ _ _. n ≤ spendable} (λ _. ltb spendable n ≡ false)
      (fail_if (ltb spendable n) ApiError.insufficient_assets) f
      (fail_if-Ensures (ltb spendable n) ApiError.insufficient_assets)
      (λ u enough. any-Ensures (f u) (ground arith))

IsCovered-amount :
    (x : RgbResult ℕ) (n : ℕ) (f : Unit {0} → Action (Unit {0}))
    → Ensures
        (rgb_try x >>= (λ spendable. fail_if (ltb spendable n) ApiError.insufficient_assets >>= f))
        (λ _ _. IsCovered x n)
unfolding rgb_try
IsCovered-amount (gives spendable) n f = record {
  apply = λ s. (enough-Ensures spendable n f).apply s;
}
IsCovered-amount (refuses e) n f = record { apply = λ s. tt }

-- What the reservation ensures.
abbrev Reserved : ChannelLibrary → Option (Bytes × ℕ) → Type 0
Reserved l none = Unit
Reserved l (some (contract, amount)) = IsCovered (l.rgb_get_asset_balance contract) amount

reserve_asset-Ensures :
    (l : ChannelLibrary) (o : Option (Bytes × ℕ))
    → Ensures (reserve_asset l o) (λ _ _. Reserved l o)
unfolding reserve_asset
reserve_asset-Ensures l none = record { apply = λ s. tt }
reserve_asset-Ensures l (some (c, n)) = IsCovered-amount (l.rgb_get_asset_balance c) n λ _. do
  unwrap (if l.proxy_is_transport then some tt else none)
  schema ← rgb_try (l.rgb_get_asset_schema c)
  check_schema schema
  call (LibraryCall.rgb_send_begin c n)
  rgb_try (l.rgb_send_begin c n)

color_fits :
    (lib : Library) (l : ChannelLibrary) (r : OpenChannelRequest) (asset : Option Bytes)
    (amount : Option ℕ) (c : Option (Bytes × ℕ))
    → ColorOf lib.codec.contract_from_str asset amount c
    → Checked (is_some c) r
    → Reserved l c
    → FitsColor lib l r asset amount
color_fits lib l r (some a) (some n) (some (c, m)) color checked reserved = record {
  contract = c;
  parses = color.0;
  positive = color.2;
  covered = subst (IsCovered (l.rgb_get_asset_balance c)) color.1 reserved;
  capacity = let lower = checked.colored_lower in ground arith;
  anchors = not-false r.with_anchors checked.anchored;
}
color_fits lib l r (some a) (some n) none color checked reserved = absurd color
color_fits lib l r (some a) none c color checked reserved = absurd color
color_fits lib l r none (some n) c color checked reserved = absurd color
color_fits lib l r none none c color checked reserved = tt

create_opened-Ensures :
    (lib : Library) (l : ChannelLibrary) (r : OpenChannelRequest) (o : Opening)
    → Passed lib r o
    → Ensures (create_opened l r o) (λ _ _. Fits lib l r)
unfolding create_opened
create_opened-Ensures lib l r o passed =
    bind-Ensures {P = λ _ _. Fits lib l r} (λ _. Reserved l o.colored_info)
      (reserve_asset l o.colored_info) (λ _. open_reserved l r o)
      (reserve_asset-Ensures l o.colored_info)
      λ _ reserved. any-Ensures (open_reserved l r o) (record {
        capacity = passed.checked.capacity;
        color =
            color_fits lib l r r.asset_id r.asset_amount passed.colored passed.color passed.checked
              (subst (Reserved l) passed.is_colored reserved);
      })

-- What holds of the request if a channel is opened.
abbrev pub IfOpened : Type 0 → Option Opened → Type 0
IfOpened P none = Unit
IfOpened P (some (ok _, _, _)) = P
IfOpened P (some (err _, _, _)) = Unit
IfOpened P (some (panicked, _, _)) = Unit

if_ok :
    (P : Type 0) (r : Outcome Bytes × UnlockedAppState) (store : PeerStore)
    → OkWith (λ _ _. P) r
    → IfOpened P (some (r.0, r.1, store))
if_ok P (ok _, s) store h = h
if_ok P (err _, s) store h = tt
if_ok P (panicked, s) store h = tt

module _ (lib : Library) (codec : PeerCodec) (channels : ChannelLibrary) (fuel : ℕ)
    (manager : PeerManager) where
  after_connection-IfOpened :
      (r : OpenChannelRequest) (o : Opening) (s : UnlockedAppState)
      (reached : Option (Outcome (Unit {0}) × PeerStore))
      → Passed lib r o
      → IfOpened (Fits lib channels r) (after_connection channels r o s reached)
  unfolding after_connection
  after_connection-IfOpened r o s none passed = tt
  after_connection-IfOpened r o s (some (ok _, store)) passed =
      if_ok (Fits lib channels r) (create_opened channels r o s) store
        ((create_opened-Ensures lib channels r o passed).apply s)
  after_connection-IfOpened r o s (some (err e, store)) passed = tt
  after_connection-IfOpened r o s (some (panicked, store)) passed = tt

  after_checks-IfOpened :
      (r : OpenChannelRequest) (checked : Outcome Opening × UnlockedAppState) (store : PeerStore)
      → OkWith (λ o _. Passed lib r o) checked
      → IfOpened
          (Fits lib channels r)
          (after_checks lib codec channels fuel manager r checked store)
  unfolding after_checks
  after_checks-IfOpened r (ok o, s) store h = after_connection-IfOpened r o s _ h
  after_checks-IfOpened r (err e, s) store h = tt
  after_checks-IfOpened r (panicked, s) store h = tt

  -- A channel that `open_channel` opens has a capacity of 5506 to 16777215 sats, and at most that capacity is pushed to the
  -- peer; an asset and its amount are given both or neither; and with them, the asset's id parses, the amount is positive and
  -- covered by the spendable balance, the capacity is at least 30010 sats, and the channel has anchors.
  pub open_channel-Fits :
      (r : OpenChannelRequest) (s : UnlockedAppState) (store : PeerStore)
      → IfOpened (Fits lib channels r) (open_channel lib codec channels fuel manager r s store)
  unfolding open_channel
  open_channel-Fits r s store =
      after_checks-IfOpened r (check_open lib codec r s) store
        ((check_open-Ensures lib codec r).apply s)
