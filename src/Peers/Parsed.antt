-- ===== src/Peers/Parsed.antt =====
-- The reading of a peer file, line by line.
use mathlib.Core.Option
use mathlib.Core.Path.{subst}
use f1r3fly_rgb_lightning_no.Common.{
  ◌*◌, ◌≡◌, refl, inl, inr, ◌==◌, true, Option, none, some, List, [], ◌∷◌, map, Bytes, IsBytes, Map,
  NodupKeys, insert, lookup, lookup-insert, split-append, split_free, IsFree, bytes_eq,
  bytes_eq_iff, length, Bool-cases, arith,
}
use f1r3fly_rgb_lightning_no.Hex.{hex_digit, hex_str, hex_str_to_compressed_pubkey}
use f1r3fly_rgb_lightning_no.Hex.Laws.{length-hex_str, hex_str_to_vec-hex_str}
use f1r3fly_rgb_lightning_no.Lines.{strip_cr}
use f1r3fly_rgb_lightning_no.Lines.Laws.{strip_cr_visible}
use f1r3fly_rgb_lightning_no.Outcome.{ok}
use f1r3fly_rgb_lightning_no.Peers.{
  PeerCodec, peer_line, parse_address, parse_parts, parse_peer_info, insert_peer, read_lines,
}
use f1r3fly_rgb_lightning_no.Peers.Bodies.{IsPeer, ArePeers, line_of, line-IsVisible}

hex_str-no_at : (k : Bytes) → IsFree b'@' (hex_str k)
unfolding hex_str hex_digit
hex_str-no_at [] = tt
hex_str-no_at (x ∷ k) = (ground arith, (ground arith, hex_str-no_at k))

module _ (codec : PeerCodec) where
  read_key :
      (k : Bytes)
      → IsBytes k
      → length k ≡ 33
      → hex_str_to_compressed_pubkey codec.pubkey_from_slice (hex_str k) ≡ codec.pubkey_from_slice k
  unfolding hex_str_to_compressed_pubkey Option.bind
  read_key k hk len =
      let long : (length (hex_str k) == 33 * 2) ≡ true = ground (arith, length-hex_str k) in
      rw (long, hex_str_to_vec-hex_str k hk) refl

  parse_address-read :
      (text a : Bytes) (rest : List Bytes)
      → codec.to_socket_addr text ≡ some a
      → parse_address codec (text ∷ rest) ≡ ok (some a)
  unfolding parse_address
  parse_address-read text a rest e = rw (e, parse_address) refl

  pub parse-line :
      (peer : Bytes × Bytes)
      → IsPeer codec peer
      → parse_peer_info codec (strip_cr (line_of codec peer)) ≡ ok (peer.0, some peer.1)
  unfolding parse_peer_info parse_parts peer_line
  parse-line peer h =
      rw
        (
          strip_cr_visible (line_of codec peer) (line-IsVisible codec peer h),
          split-append b'@' (hex_str peer.0) (codec.addr_to_string peer.1) (hex_str-no_at peer.0),
          split_free b'@' (codec.addr_to_string peer.1) h.address_free,
          parse_address-read (codec.addr_to_string peer.1) peer.1 [] h.address_read,
          read_key peer.0 h.key_bytes h.key_length,
          h.key_read,
        )
        refl

  -- The map that the loop of the reading builds.
  abbrev pub collect : Map Bytes → Map Bytes → Map Bytes
  collect [] acc = acc
  collect ((k, a) ∷ peers) acc = collect peers (insert k a acc)

  pub read_lines-body :
      (peers acc : Map Bytes)
      → ArePeers codec peers
      → read_lines codec (map (line_of codec) peers) acc ≡ ok (collect peers acc)
  unfolding read_lines insert_peer
  read_lines-body [] acc h = refl
  read_lines-body ((k, a) ∷ peers) acc h =
      rw (parse-line (k, a) h.0) (read_lines-body peers (insert k a acc) h.1)

  -- The first of two lookups that finds something.
  abbrev pub or_else : Option Bytes → Option Bytes → Option Bytes
  or_else none o = o
  or_else (some a) o = some a

  pub or_else-none : (o : Option Bytes) → or_else o none ≡ o
  or_else-none none = refl
  or_else-none (some a) = refl

  pub lookup-collect :
      (peers acc : Map Bytes) (j : Bytes)
      → NodupKeys peers
      → lookup j (collect peers acc) ≡ or_else (lookup j peers) (lookup j acc)
  unfolding lookup
  lookup-collect [] acc j u = refl
  lookup-collect ((k, a) ∷ peers) acc j (fresh, u) =
      rw (lookup-collect peers (insert k a acc) j u, lookup-insert k j a acc)
        (elim (Bool-cases (bytes_eq k j)) [
          | inl same ↦
              let gone : lookup j peers ≡ none =
                subst (λ i. lookup i peers ≡ none) ((bytes_eq_iff k j).0 same) fresh in
              rw (same, gone) refl
          | inr differ ↦ rw differ refl
        ])
