-- ===== src/Tests/Peers.antt =====
-- A peer file with concrete keys and addresses.
use mathlib.Core.Option
use f1r3fly_rgb_lightning_no.Common.{
  ℕ, suc, ◌≡◌, refl, true, false, none, some, List, [], ◌∷◌, Bytes, Map, NodupKeys, All, lookup,
  bytes_eq, contains, split, ◌==◌, if◌then◌else◌, arith,
}
use f1r3fly_rgb_lightning_no.Hex.{hex_str, hex_digit, hex_str_to_vec, hex_str_to_compressed_pubkey}
use f1r3fly_rgb_lightning_no.Hex.Laws.{hex_str_to_vec-hex_str}
use f1r3fly_rgb_lightning_no.Outcome.{Outcome, ok}
use f1r3fly_rgb_lightning_no.Peers.{
  PeerCodec, PeerStore, persist_channel_peer, parse_peer_info, parse_parts, parse_address,
  replace_file, read_channel_peer_data, peer_line,
}
use f1r3fly_rgb_lightning_no.Peers.Bodies.{IsPeer, body}
use f1r3fly_rgb_lightning_no.Peers.Views.{Works, Holds, Op, IsOp, run, replay, read-run}
use f1r3fly_rgb_lightning_no.Peers.Connections.{
  Poll, PeerManager, do_connect_peer, connect_peer, disconnect_peer,
}
use f1r3fly_rgb_lightning_no.Peers.Connected.{
  Answers, do_connect_peer-Ends, connect_peer_remembers, disconnect_peer_forgets,
}

-- Every key is read, and an address is its own text.
abbrev pub plain : PeerCodec
plain = record {
  pubkey_from_slice = λ k. some k;
  pubkey_from_str = hex_str_to_vec;
  to_socket_addr = λ a. some a;
  addr_to_string = λ a. a;
}

-- A key of 33 bytes by its first.
abbrev key_of : ℕ → Bytes
key_of b =
    b ∷ 2 ∷ 3 ∷ 4 ∷ 5 ∷ 6 ∷ 7 ∷ 8 ∷ 9 ∷ 10 ∷ 11 ∷ 12 ∷ 13 ∷ 14 ∷ 15 ∷ 16 ∷ 17 ∷ 18 ∷ 19 ∷ 20 ∷ 21
    ∷ 22 ∷ 23 ∷ 24 ∷ 25 ∷ 26 ∷ 27 ∷ 28 ∷ 29 ∷ 30 ∷ 31 ∷ 32 ∷ 255 ∷ []

abbrev alice : Bytes
alice = key_of 2

abbrev pub bob : Bytes
bob = key_of 3

-- `1.2:9`
abbrev pub home : Bytes
home = 49 ∷ 46 ∷ 50 ∷ 58 ∷ 57 ∷ []

alice-IsPeer : IsPeer plain (alice, home)
alice-IsPeer = record {
  key_bytes = omega arith;
  key_length = refl;
  key_read = refl;
  address_read = refl;
  address_visible = omega arith;
  address_free = omega arith;
}

bob-IsPeer : IsPeer plain (bob, home)
bob-IsPeer = record {
  key_bytes = omega arith;
  key_length = refl;
  key_read = refl;
  address_read = refl;
  address_visible = omega arith;
  address_free = omega arith;
}

abbrev peers : Map Bytes
peers = (alice, home) ∷ []

abbrev pub store : PeerStore
store = record {
  file = some (body plain peers);
  read_error = none;
  write_error = none;
  rename_error = none;
}

store-Works : Works store
store-Works = record { reads = refl; writes = refl; renames = refl }

one_address : NodupKeys peers
unfolding lookup
one_address = (refl, tt)

store-Holds : Holds plain peers store
store-Holds = record { stored = refl; are_peers = (alice-IsPeer, tt); distinct = one_address }

abbrev ops : List (Op plain)
ops = Op.persist bob home ∷ Op.delete alice ∷ []

ops-IsOp : All (IsOp plain) ops
ops-IsOp = (bob-IsPeer, (omega arith, tt))

read-run_example :
    (m : Map Bytes) × (read_channel_peer_data plain (run plain ops store) ≡ ok m)
    × ((j : Bytes) → lookup j m ≡ replay plain ops (λ i. lookup i peers) j)
read-run_example = read-run plain ops peers store ops-IsOp store-Works store-Holds

-- The peer is known at the third turn.
abbrev polls : ℕ → Poll
polls n = if n == 2 then Poll.slept true else Poll.slept false

abbrev pub manager : PeerManager
manager = record { list_peers = []; connect_outbound = λ key address. some polls }

do_connect_peer-Ends_example :
    (r : Outcome (Unit {0})) × (do_connect_peer (suc 2) manager bob home ≡ some r) × Answers polls r
do_connect_peer-Ends_example = do_connect_peer-Ends manager bob home polls 2 refl tt

abbrev after_connection : PeerStore
after_connection = (persist_channel_peer plain bob home store).1

abbrev pub bob_text : Bytes
bob_text = peer_line plain bob home

pub bob_is_parsed : parse_peer_info plain bob_text ≡ ok (bob, some home)
unfolding parse_peer_info parse_parts parse_address peer_line hex_str hex_digit
    hex_str_to_compressed_pubkey hex_str_to_vec split Option.bind
bob_is_parsed = refl

bob_is_connected : connect_peer plain 3 manager bob_text store ≡ some (ok tt, after_connection)
unfolding connect_peer persist_channel_peer replace_file contains parse_peer_info parse_parts
    parse_address peer_line hex_str hex_digit hex_str_to_compressed_pubkey hex_str_to_vec split
    Option.bind
bob_is_connected = refl

connect_peer_remembers_example :
    (m : Map Bytes) × (read_channel_peer_data plain after_connection ≡ ok m)
    × ((j : Bytes) → lookup j m ≡ (if bytes_eq bob j then some home else lookup j peers))
connect_peer_remembers_example =
    connect_peer_remembers plain 3 manager bob_text bob home peers store after_connection
      store-Works store-Holds bob-IsPeer bob_is_parsed bob_is_connected

alice_is_read : hex_str_to_vec (hex_str alice) ≡ some alice
alice_is_read = hex_str_to_vec-hex_str alice (omega arith)

no_channels : contains [] alice ≡ false
unfolding contains
no_channels = refl

disconnect_peer_forgets_example :
    (m : Map Bytes) × (read_channel_peer_data plain
        (disconnect_peer plain [] manager (hex_str alice) store).1
      ≡ ok m)
    × ((j : Bytes) → lookup j m ≡ (if bytes_eq alice j then none else lookup j peers))
disconnect_peer_forgets_example =
    disconnect_peer_forgets plain [] manager alice peers store store-Works store-Holds (omega arith)
      refl alice_is_read no_channels
