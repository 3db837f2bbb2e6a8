-- ===== src/Routes/Channels/Keeps.antt =====
-- The opening of a channel keeps the invariant of the unlocked node.
use f1r3fly_rgb_lightning_no.Common.{ℕ, Bool, Option, none, some, Bytes, arith}
use f1r3fly_rgb_lightning_no.Outcome.{Outcome, ok, err, panicked}
use f1r3fly_rgb_lightning_no.Node.{UnlockedAppState}
use f1r3fly_rgb_lightning_no.Node.Invariant.{
  IsSound, Keeps, SoundAfter, bind-Keeps, pure-Keeps, fail-Keeps, gets-Keeps, unwrap-Keeps,
  or_fail-Keeps, fail_if-Keeps, lift-Keeps, call-Keeps, if-Keeps,
}
use f1r3fly_rgb_lightning_no.Node.Funding.Keeps.{check_schema-Keeps}
use f1r3fly_rgb_lightning_no.Peers.{PeerCodec, PeerStore}
use f1r3fly_rgb_lightning_no.Peers.Connections.{PeerManager}
use f1r3fly_rgb_lightning_no.Routes.Library.{Library}
use f1r3fly_rgb_lightning_no.Routes.Channels.{
  ChannelLibrary, LdkApiError, Created, RgbResult, created, not_created, gives, refuses, rgb_try,
}
use f1r3fly_rgb_lightning_no.Routes.Channels.Open.{
  OpenChannelRequest, Opening, Opened, check_temporary, check_colored, check_capacity, check_open,
  reserve_asset, set_rgb_send_lock, commitment_tx_fee, creation_error, created_channel,
  write_rgb_channel_info, write_infos, open_reserved, create_opened, after_connection, after_checks,
  open_channel,
}

rgb_try-Keeps : {A : Type 0} (r : RgbResult A) → Keeps (rgb_try r)
unfolding rgb_try
rgb_try-Keeps (gives a) = pure-Keeps a
rgb_try-Keeps (refuses e) = fail-Keeps _

set_rgb_send_lock-Keeps : (b : Bool) → Keeps (set_rgb_send_lock b)
unfolding set_rgb_send_lock
set_rgb_send_lock-Keeps b = record { apply = λ s h. ground arith }

ruleset opening_rules = (
  bind-Keeps, pure-Keeps, fail-Keeps, gets-Keeps, unwrap-Keeps, or_fail-Keeps, fail_if-Keeps,
  lift-Keeps, call-Keeps, rgb_try-Keeps, check_schema-Keeps, set_rgb_send_lock-Keeps,
)

check_temporary-Keeps : (o : Option Bytes) → Keeps (check_temporary o)
unfolding check_temporary
check_temporary-Keeps none = pure-Keeps none
check_temporary-Keeps (some text) = search opening_rules depth 8

check_colored-Keeps :
    (f : Bytes → Option Bytes) (a : Option Bytes) (n : Option ℕ) → Keeps (check_colored f a n)
unfolding check_colored
check_colored-Keeps f (some a) (some n) = search opening_rules depth 8
check_colored-Keeps f (some a) none = fail-Keeps _
check_colored-Keeps f none (some n) = fail-Keeps _
check_colored-Keeps f none none = pure-Keeps none

check_capacity-Keeps : (c : Bool) (r : OpenChannelRequest) → Keeps (check_capacity c r)
unfolding check_capacity
check_capacity-Keeps c r = search opening_rules depth 10

reserve_asset-Keeps : (l : ChannelLibrary) (o : Option (Bytes × ℕ)) → Keeps (reserve_asset l o)
unfolding reserve_asset
reserve_asset-Keeps l none = pure-Keeps tt
reserve_asset-Keeps l (some (c, n)) = search opening_rules depth 12

commitment_tx_fee-Keeps : (o : Option Bytes) → Keeps (commitment_tx_fee o)
unfolding commitment_tx_fee
commitment_tx_fee-Keeps none = pure-Keeps 0
commitment_tx_fee-Keeps (some digits) = unwrap-Keeps _

creation_error-Keeps : (l : ChannelLibrary) (e : LdkApiError) → Keeps (creation_error l e)
unfolding creation_error
creation_error-Keeps l (LdkApiError.api_misuse_error e) =
    if-Keeps (l.is_fee_error e) (search (commitment_tx_fee-Keeps, opening_rules) depth 4)
      (fail-Keeps _)
creation_error-Keeps l (LdkApiError.other e) = fail-Keeps _

created_channel-Keeps : (l : ChannelLibrary) (c : Created) → Keeps (created_channel l c)
unfolding created_channel
created_channel-Keeps l (created id) = pure-Keeps id
created_channel-Keeps l (not_created e) = search (creation_error-Keeps, opening_rules) depth 4

write_infos-Keeps :
    (l : ChannelLibrary) (id : Bytes) (o : Option (Bytes × ℕ)) → Keeps (write_infos l id o)
unfolding write_infos write_rgb_channel_info
write_infos-Keeps l id none = pure-Keeps tt
write_infos-Keeps l id (some (c, n)) = search opening_rules depth 8

create_opened-Keeps :
    (l : ChannelLibrary) (r : OpenChannelRequest) (o : Opening) → Keeps (create_opened l r o)
unfolding create_opened open_reserved
create_opened-Keeps l r o =
    search (reserve_asset-Keeps, created_channel-Keeps, write_infos-Keeps, opening_rules) depth 12

check_open-Keeps :
    (lib : Library) (codec : PeerCodec) (r : OpenChannelRequest) → Keeps (check_open lib codec r)
unfolding check_open
check_open-Keeps lib codec r =
    search (check_temporary-Keeps, check_colored-Keeps, check_capacity-Keeps, opening_rules) depth
      14

-- The state after an opening that did not panic; one that still waits has changed nothing.
abbrev pub SoundOpened : Option Opened → Type 0
SoundOpened none = Unit
SoundOpened (some (out, s, store)) = SoundAfter (out, s)

after_connection-SoundOpened :
    (l : ChannelLibrary) (r : OpenChannelRequest) (o : Opening) (s : UnlockedAppState)
    (reached : Option (Outcome (Unit {0}) × PeerStore))
    → IsSound s
    → SoundOpened (after_connection l r o s reached)
unfolding after_connection
after_connection-SoundOpened l r o s none h = tt
after_connection-SoundOpened l r o s (some (ok _, store)) h = (create_opened-Keeps l r o).apply s h
after_connection-SoundOpened l r o s (some (err e, store)) h = h
after_connection-SoundOpened l r o s (some (panicked, store)) h = tt

module _ (lib : Library) (codec : PeerCodec) (l : ChannelLibrary) (fuel : ℕ)
    (manager : PeerManager) where
  after_checks-SoundOpened :
      (r : OpenChannelRequest) (checked : Outcome Opening × UnlockedAppState) (store : PeerStore)
      → SoundAfter checked
      → SoundOpened (after_checks lib codec l fuel manager r checked store)
  unfolding after_checks
  after_checks-SoundOpened r (ok o, s) store h = after_connection-SoundOpened l r o s _ h
  after_checks-SoundOpened r (err e, s) store h = h
  after_checks-SoundOpened r (panicked, s) store h = tt

  pub open_channel-SoundOpened :
      (r : OpenChannelRequest) (s : UnlockedAppState) (store : PeerStore)
      → IsSound s
      → SoundOpened (open_channel lib codec l fuel manager r s store)
  unfolding open_channel
  open_channel-SoundOpened r s store h =
      after_checks-SoundOpened r (check_open lib codec r s) store
        ((check_open-Keeps lib codec r).apply s h)
