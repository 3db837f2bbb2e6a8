-- ===== src/Tests/Channels.antt =====
-- The opening of a concrete colored channel.
use f1r3fly_rgb_lightning_no.Common.{refl, true, false, none, some, [], ◌∷◌, str, arith}
use f1r3fly_rgb_lightning_no.Node.Ensures.{OkWith}
use f1r3fly_rgb_lightning_no.Node.Funding.{AssetSchema}
use f1r3fly_rgb_lightning_no.Node.Events.{Event, handle_ldk_events}
use f1r3fly_rgb_lightning_no.Routes.Channels.{
  ChannelLibrary, LdkApiError, created, not_created, gives,
}
use f1r3fly_rgb_lightning_no.Routes.Channels.Open.{OpenChannelRequest, open_channel}
use f1r3fly_rgb_lightning_no.Routes.Channels.Locked.{LocksIfOpened, open_channel-LocksIfOpened}
use f1r3fly_rgb_lightning_no.Routes.Channels.Bounds.{Fits, IfOpened, open_channel-Fits}
use f1r3fly_rgb_lightning_no.Routes.Channels.Named.{Names, channel_pending-Names}
use f1r3fly_rgb_lightning_no.Tests.Crossed.{crossing}
use f1r3fly_rgb_lightning_no.Tests.Peers.{plain, store, manager, bob_text}
use f1r3fly_rgb_lightning_no.Tests.Data.{hash, asset, library, empty_state}

abbrev channels : ChannelLibrary
channels = record {
  close_channel = λ c p. none;
  force_close_channel = λ c p. none;
  peer_address = λ p. none;
  rgb_get_asset_balance = λ c. gives 100;
  rgb_get_asset_schema = λ c. gives AssetSchema.nia;
  rgb_send_begin = λ c n. gives tt;
  proxy_is_transport = true;
  create_channel = λ p c n t. created hash;
  is_fee_error = λ e. true;
  misuse_print = λ e. e;
  captured_fee = λ e. some (str "12");
  writes_info = λ id pending. true;
}

-- A library that refuses every channel for its fee.
abbrev refusing : ChannelLibrary
refusing = record channels {
  create_channel = λ p c n t. not_created (LdkApiError.api_misuse_error []);
}

abbrev request : OpenChannelRequest
request = record {
  peer_pubkey_and_opt_addr = bob_text;
  capacity_sat = 40000;
  push_msat = 1000;
  asset_id = some (b'r' ∷ 49 ∷ 50 ∷ []);
  asset_amount = some 60;
  with_anchors = true;
  temporary_channel_id = none;
}

open_channel-LocksIfOpened_example :
    LocksIfOpened refusing request false
      (open_channel library plain refusing 3 manager request empty_state store)
open_channel-LocksIfOpened_example =
    open_channel-LocksIfOpened library plain refusing 3 manager request empty_state store

open_channel-Fits_example :
    IfOpened
      (Fits library channels request)
      (open_channel library plain channels 3 manager request empty_state store)
open_channel-Fits_example =
    open_channel-Fits library plain channels 3 manager request empty_state store

channel_pending-Names_example :
    OkWith
      (λ _ s. Names hash asset (some true) s)
      (handle_ldk_events crossing []
        (Event.channel_pending (some hash) asset (some true) true)
        empty_state)
channel_pending-Names_example =
    (channel_pending-Names hash asset (omega arith) refl crossing [] (some true) true).apply
      empty_state
