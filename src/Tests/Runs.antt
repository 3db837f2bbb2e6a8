-- ===== src/Tests/Runs.antt =====
-- A run of two events from the state of a maker.
use f1r3fly_rgb_lightning_no.Common.{◌≡◌, refl, true, some, [], ◌∷◌, insert, remove, bytes_eq}
use f1r3fly_rgb_lightning_no.Node.{UnlockedAppState}
use f1r3fly_rgb_lightning_no.Node.Invariant.{IsSound}
use f1r3fly_rgb_lightning_no.Node.Channels.{
  add_channel_id, save_channel_ids_map, delete_channel_id, find_temporary, forget_temporary,
}
use f1r3fly_rgb_lightning_no.Node.Funding.{unlock_rgb_send}
use f1r3fly_rgb_lightning_no.Node.Events.{Event, finish_funding, handle_ldk_events}
use f1r3fly_rgb_lightning_no.Routes.Runs.{Request, Reaches, serve, Reaches-IsSound}
use f1r3fly_rgb_lightning_no.Tests.Crossed.{crossing}
use f1r3fly_rgb_lightning_no.Tests.Data.{hash, asset, maker_state, maker_state-IsSound}

abbrev pending : Request
pending = Request.event crossing [] (Event.channel_pending (some hash) asset (some true) true)

abbrev discarded : Request
discarded = Request.event crossing [] (Event.discard_funding asset)

abbrev named_state : UnlockedAppState
named_state = record maker_state {
  channel_ids_map = (hash, asset) ∷ [];
  fs_store = record maker_state.fs_store { channel_ids = (hash, asset) ∷ [] };
}

is_named : serve pending maker_state ≡ some named_state
unfolding handle_ldk_events add_channel_id save_channel_ids_map finish_funding unlock_rgb_send
    insert
is_named = refl

is_discarded : serve discarded named_state ≡ some maker_state
unfolding handle_ldk_events delete_channel_id find_temporary forget_temporary save_channel_ids_map
    unlock_rgb_send remove bytes_eq
is_discarded = refl

Reaches-IsSound_example : IsSound maker_state
Reaches-IsSound_example =
    Reaches-IsSound maker_state maker_state maker_state-IsSound
      (Reaches.next (Reaches.next Reaches.start pending is_named) discarded is_discarded)
