-- ===== src/Peers/Bodies.antt =====
-- The text of the peer file: its lines are the peers that were put in.
use mathlib.Core.List.{append_assoc}
use mathlib.Core.Option.{some-injective}
use f1r3fly_rgb_lightning_no.Common.{
  ◌≤◌, ◌≡◌, ◌≢◌, refl, sym, ap, ◌∙◌, inl, inr, false, some, List, [], ◌∷◌, ◌++◌, map, Bytes,
  IsBytes, Map, All, All-append, All-map, remove, split, IsFree, split-append, split_free, bytes_eq,
  bytes_eq_iff, length, is_empty, Bool-cases, arith,
}
use f1r3fly_rgb_lightning_no.Hex.{hex_str, hex_str_to_vec}
use f1r3fly_rgb_lightning_no.Hex.Laws.{length-hex_str, hex_str_to_vec-hex_str, hex_str-IsPrintable}
use f1r3fly_rgb_lightning_no.Lines.{drop_last_empty, lines, starts_with}
use f1r3fly_rgb_lightning_no.Lines.Laws.{
  IsVisible, trim_visible, split_cons, drop_last_empty-cons, starts_with-append,
}
use f1r3fly_rgb_lightning_no.Peers.{PeerCodec, peer_line, kept_lines, join, add_line}

module _ (codec : PeerCodec) where
  -- A compressed key that the library reads, and an address that is read back from its text.
  pub record IsPeer (peer : Bytes × Bytes) : Type 0 where
    pub key_bytes : IsBytes peer.0
    pub key_length : length peer.0 ≡ 33
    pub key_read : codec.pubkey_from_slice peer.0 ≡ some peer.0
    pub address_read : codec.to_socket_addr (codec.addr_to_string peer.1) ≡ some peer.1
    pub address_visible : IsVisible (codec.addr_to_string peer.1)
    pub address_free : IsFree b'@' (codec.addr_to_string peer.1)

  abbrev pub ArePeers : Map Bytes → Type 0
  ArePeers = All IsPeer

  abbrev pub line_of : Bytes × Bytes → Bytes
  line_of peer = peer_line codec peer.0 peer.1

  -- The text that holds a list of peers.
  unfoldable pub body : Map Bytes → Bytes
  unfolding join
  body peers = join (map line_of peers)

  pub line-IsVisible : (peer : Bytes × Bytes) → IsPeer peer → IsVisible (line_of peer)
  unfolding peer_line
  line-IsVisible peer h =
      All-append (λ b. 33 ≤ b) (hex_str peer.0) (b'@' ∷ codec.addr_to_string peer.1)
        (All-map (λ b. b'0' ≤ b) (λ b. 33 ≤ b) (λ b q. omega arith) (hex_str peer.0)
          (hex_str-IsPrintable peer.0))
        (omega arith, h.address_visible)

  line-IsFree : (peer : Bytes × Bytes) → IsPeer peer → IsFree 10 (line_of peer)
  line-IsFree peer h =
      All-map (λ b. 33 ≤ b) (λ b. b ≢ 10) (λ b q. omega arith) (line_of peer)
        (line-IsVisible peer h)

  line_filled : (peer : Bytes × Bytes) → is_empty (line_of peer) ≡ false
  unfolding peer_line hex_str
  line_filled ([], a) = refl
  line_filled (x ∷ k, a) = refl

  lines_nil : lines [] ≡ []
  unfolding lines drop_last_empty split
  lines_nil = refl

  lines_one : (l : Bytes) → IsFree 10 l → is_empty l ≡ false → lines l ≡ l ∷ []
  unfolding lines drop_last_empty
  lines_one l free filled = rw (split_free 10 l free, drop_last_empty, filled) refl

  lines_more : (l rest : Bytes) → IsFree 10 l → lines (l ++ (10 ∷ rest)) ≡ l ∷ lines rest
  unfolding lines
  lines_more l rest free =
      let (p, ps, e) = split_cons 10 rest in
      rw (split-append 10 l rest free) (drop_last_empty-cons l (split 10 rest) ps p e)

  pub lines-body : (peers : Map Bytes) → ArePeers peers → lines (body peers) ≡ map line_of peers
  unfolding body join
  lines-body [] h = lines_nil
  lines-body (p ∷ []) h = lines_one (line_of p) (line-IsFree p h.0) (line_filled p)
  lines-body (p ∷ q ∷ peers) h =
      lines_more (line_of p) (body (q ∷ peers)) (line-IsFree p h.0)
      ∙ ap (λ ls. line_of p ∷ ls) (lines-body (q ∷ peers) h.1)

  hex_str_injective : (k j : Bytes) → IsBytes k → IsBytes j → hex_str k ≡ hex_str j → k ≡ j
  hex_str_injective k j hk hj e =
      some-injective k j
        (sym (hex_str_to_vec-hex_str k hk) ∙ ap hex_str_to_vec e ∙ hex_str_to_vec-hex_str j hj)

  bytes_eq-hex_str :
      (k j : Bytes) → IsBytes k → IsBytes j → bytes_eq (hex_str k) (hex_str j) ≡ bytes_eq j k
  bytes_eq-hex_str k j hk hj =
      ground
        (arith, bytes_eq_iff (hex_str k) (hex_str j), bytes_eq_iff j k, hex_str_injective k j hk hj)

  -- The line of a peer begins with a key exactly if the peer has that key.
  starts_with-line :
      (k : Bytes) (peer : Bytes × Bytes)
      → IsBytes k
      → length k ≡ 33
      → IsPeer peer
      → starts_with (hex_str k) (line_of peer) ≡ bytes_eq peer.0 k
  unfolding peer_line
  starts_with-line k peer hk len h =
      starts_with-append (hex_str k) (hex_str peer.0) (b'@' ∷ codec.addr_to_string peer.1)
        (omega (arith, length-hex_str k, length-hex_str peer.0, h.key_length, len))
      ∙ bytes_eq-hex_str k peer.0 hk h.key_bytes

  pub kept_lines-body :
      (k : Bytes) (peers : Map Bytes)
      → IsBytes k
      → length k ≡ 33
      → ArePeers peers
      → kept_lines (hex_str k) (map line_of peers) ≡ map line_of (remove k peers)
  unfolding kept_lines remove
  kept_lines-body k [] hk len h = refl
  kept_lines-body k ((j, a) ∷ peers) hk len h =
      let rest = kept_lines-body k peers hk len h.1 in
      let here = starts_with-line k (j, a) hk len h.0 in
      elim (Bool-cases (bytes_eq j k)) [
        | inl same ↦ rw (trim_visible (line_of (j, a)) (line-IsVisible (j, a) h.0), here, same) rest
        | inr differ ↦
            rw (trim_visible (line_of (j, a)) (line-IsVisible (j, a) h.0), here, differ)
              (ap (λ ls. line_of (j, a) ∷ ls) rest)
      ]

  -- One more line at the end.
  join-snoc :
      (m l : Bytes) (ls : List Bytes) → join (m ∷ ls) ++ (10 ∷ l) ≡ join ((m ∷ ls) ++ (l ∷ []))
  unfolding join
  join-snoc m l [] = refl
  join-snoc m l (n ∷ ls) =
      append_assoc m (10 ∷ join (n ∷ ls)) (10 ∷ l)
      ∙ ap (λ (r : Bytes). m ++ (10 ∷ r)) (join-snoc n l ls)

  append_filled : (m r : Bytes) → is_empty m ≡ false → is_empty (m ++ r) ≡ false
  append_filled [] r h = cc
  append_filled (x ∷ m) r h = refl

  join_filled :
      (m : Bytes) (ls : List Bytes) → is_empty m ≡ false → is_empty (join (m ∷ ls)) ≡ false
  unfolding join
  join_filled m [] h = h
  join_filled m (n ∷ ls) h = append_filled m (10 ∷ join (n ∷ ls)) h

  map-append_one :
      (peers : Map Bytes) (peer : Bytes × Bytes)
      → map line_of (peers ++ (peer ∷ [])) ≡ map line_of peers ++ (line_of peer ∷ [])
  map-append_one [] peer = refl
  map-append_one (q ∷ peers) peer = ap (λ ls. line_of q ∷ ls) (map-append_one peers peer)

  pub add_line-body :
      (peers : Map Bytes) (peer : Bytes × Bytes)
      → add_line (body peers) (line_of peer) ≡ body (peers ++ (peer ∷ []))
  unfolding body add_line join
  add_line-body [] peer = refl
  add_line-body (q ∷ peers) peer =
      rw (join_filled (line_of q) (map line_of peers) (line_filled q)) (
        join-snoc (line_of q) (line_of peer) (map line_of peers)
        ∙ ap join (sym (map-append_one (q ∷ peers) peer)))

  pub remove-ArePeers : (k : Bytes) (peers : Map Bytes) → ArePeers peers → ArePeers (remove k peers)
  unfolding remove
  remove-ArePeers k [] h = tt
  remove-ArePeers k ((j, a) ∷ peers) h = elim (Bool-cases (bytes_eq j k)) [
    | inl same ↦ rw same (remove-ArePeers k peers h.1)
    | inr differ ↦ rw differ (h.0, remove-ArePeers k peers h.1)
  ]
