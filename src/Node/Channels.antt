-- ===== src/Node/Channels.antt =====
-- The map from temporary channel ids to channel ids (src/ldk.rs).
use f1r3fly_rgb_lightning_no.Common.{
  Option, none, some, [], ◌∷◌, Bytes, Map, insert, remove, bytes_eq, if◌then◌else◌,
}
use f1r3fly_rgb_lightning_no.Node.Monad.{Action, pure, gets, modify, write_store, ◌>>=◌, ◌>>◌}

unfoldable pub save_channel_ids_map : Action (Unit {0})
save_channel_ids_map =
    write_store λ s. record s { fs_store = record s.fs_store { channel_ids = s.channel_ids_map } }

unfoldable pub add_channel_id : Bytes → Bytes → Action (Unit {0})
unfolding save_channel_ids_map
add_channel_id temporary channel = do
  modify (λ s. record s { channel_ids_map = insert temporary channel s.channel_ids_map })
  save_channel_ids_map

-- The `find_map` of `delete_channel_id`.
unfoldable pub find_temporary : Bytes → Map Bytes → Option Bytes
find_temporary channel [] = none
find_temporary channel ((temporary, c) ∷ rest) =
    if bytes_eq c channel then some temporary else find_temporary channel rest

-- The removal of the temporary id that was found.
unfoldable pub forget_temporary : Option Bytes → Action (Unit {0})
unfolding save_channel_ids_map
forget_temporary none = pure tt
forget_temporary (some temporary) = do
  modify (λ s. record s { channel_ids_map = remove temporary s.channel_ids_map })
  save_channel_ids_map

unfoldable pub delete_channel_id : Bytes → Action (Unit {0})
unfolding forget_temporary find_temporary
delete_channel_id channel = do
  found ← gets (λ s. find_temporary channel s.channel_ids_map)
  forget_temporary found
