-- ===== src/Peers/Connected.antt =====
-- What the two handlers leave of the peer file, and the end of the waiting loop.
use mathlib.Core.Path.{subst}
use mathlib.Core.Option.{some-injective}
use f1r3fly_rgb_lightning_no.Common.{
  ℕ, zero, suc, ◌+◌, ◌≡◌, ◌⊎◌, refl, ap, inl, inr, Bool, true, false, Option, none, some, List, [],
  ◌∷◌, Bytes, IsBytes, Map, lookup, contains, bytes_eq, length, if◌then◌else◌, arith,
}
use f1r3fly_rgb_lightning_no.Hex.{hex_str}
use f1r3fly_rgb_lightning_no.Error.{ApiError}
use f1r3fly_rgb_lightning_no.Outcome.{Outcome, ok, err, panicked}
use f1r3fly_rgb_lightning_no.Peers.{
  PeerCodec, PeerStore, persist_channel_peer, delete_channel_peer, parse_peer_info,
  read_channel_peer_data,
}
use f1r3fly_rgb_lightning_no.Peers.Bodies.{IsPeer}
use f1r3fly_rgb_lightning_no.Peers.Views.{Works, Holds, Op, read-run}
use f1r3fly_rgb_lightning_no.Peers.Connections.{
  Poll, PeerManager, await_peer, do_connect_peer, connected, connect_parsed, connect_peer,
  disconnect_known, disconnect_parsed, disconnect_peer,
}

-- A turn that ends the loop.
abbrev pub Ends : Poll → Type 0
Ends Poll.closed = Unit
Ends (Poll.slept true) = Unit
Ends (Poll.slept false) = ⊥

Poll-cases : (p : Poll) → (p ≡ Poll.closed) ⊎ ((p ≡ Poll.slept true) ⊎ (p ≡ Poll.slept false))
Poll-cases Poll.closed = inl refl
Poll-cases (Poll.slept true) = inr (inl refl)
Poll-cases (Poll.slept false) = inr (inr refl)

-- The loop answers by the turn that ended it.
abbrev pub Answers : (ℕ → Poll) → Outcome (Unit {0}) → Type 0
Answers polls r =
    ((r ≡ ok tt) × (i : ℕ) × (polls i ≡ Poll.slept true))
    ⊎ ((r ≡ err ApiError.failed_peer_connection) × (i : ℕ) × (polls i ≡ Poll.closed))

await-Ends :
    (polls : ℕ → Poll) (k n m : ℕ)
    → n + k ≡ m
    → Ends (polls m)
    → (r : Outcome (Unit {0})) × (await_peer (suc k) polls n ≡ some r) × Answers polls r
unfolding await_peer
await-Ends polls zero n m e h = elim (Poll-cases (polls n)) [
  | inl closes ↦
      (err ApiError.failed_peer_connection, rw (closes, await_peer) refl, inr (refl, n, closes))
  | inr (inl knows) ↦ (ok tt, rw (knows, await_peer) refl, inl (refl, n, knows))
  | inr (inr sleeps) ↦
      let here : m ≡ n = omega arith in
      absurd (subst Ends sleeps (subst (λ i. Ends (polls i)) here h))
]
await-Ends polls (suc k) n m e h = elim (Poll-cases (polls n)) [
  | inl closes ↦
      (err ApiError.failed_peer_connection, rw (closes, await_peer) refl, inr (refl, n, closes))
  | inr (inl knows) ↦ (ok tt, rw (knows, await_peer) refl, inl (refl, n, knows))
  | inr (inr sleeps) ↦
      let (r, q, a) = await-Ends polls k (suc n) m (omega arith) h in
      (r, rw (sleeps, await_peer) q, a)
]

-- A connection that is waited for is answered as soon as one turn sees it closed or the peer known: with `Ok`
-- only if a turn saw the peer, and with a failed connection only if a turn saw it closed.
pub do_connect_peer-Ends :
    (manager : PeerManager) (pubkey address : Bytes) (polls : ℕ → Poll) (k : ℕ)
    → manager.connect_outbound pubkey address ≡ some polls
    → Ends (polls k)
    → (r : Outcome (Unit {0})) × (do_connect_peer (suc k) manager pubkey address ≡ some r)
      × Answers polls r
unfolding do_connect_peer
do_connect_peer-Ends manager pubkey address polls k started ends =
    let (r, e, a) = await-Ends polls k 0 k (omega arith) ends in
    (r, rw (started, do_connect_peer) e, a)

module _ (codec : PeerCodec) where
  connected_ok :
      (o : Option (Outcome (Unit {0}))) (s t : PeerStore)
      (k : PeerStore → Outcome (Unit {0}) × PeerStore)
      → connected o s k ≡ some (ok tt, t)
      → k s ≡ (ok tt, t)
  connected_ok none s t k h = cc
  connected_ok (some (ok _)) s t k h = some-injective (k s) (ok tt, t) h
  connected_ok (some (err e)) s t k h = cc
  connected_ok (some panicked) s t k h = cc

  -- When `connect_peer` succeeds for a peer that is read from the request, on a working peer file that holds some peers,
  -- the file is read back afterwards with the address of the request for that peer, and as before for every other.
  pub connect_peer_remembers :
      (fuel : ℕ) (manager : PeerManager) (text k a : Bytes) (peers : Map Bytes) (s t : PeerStore)
      → Works s
      → Holds codec peers s
      → IsPeer codec (k, a)
      → parse_peer_info codec text ≡ ok (k, some a)
      → connect_peer codec fuel manager text s ≡ some (ok tt, t)
      → (m : Map Bytes) × (read_channel_peer_data codec t ≡ ok m)
        × ((j : Bytes) → lookup j m ≡ (if bytes_eq k j then some a else lookup j peers))
  unfolding connect_peer connect_parsed
  connect_peer_remembers fuel manager text k a peers s t w held peer parsed done =
      let persisted : persist_channel_peer codec k a s ≡ (ok tt, t) =
        connected_ok _ s t (persist_channel_peer codec k a) (rw parsed at done) in
      let (m, reads, views) = read-run codec (Op.persist k a ∷ []) peers s (peer, tt) w held in
      (m, subst (λ u. read_channel_peer_data codec u ≡ ok m) (ap (λ r. r.1) persisted) reads, views)

  disconnect_known-store :
      (b : Bool) (k : Bytes) (r : Outcome (Unit {0}) × PeerStore)
      → (disconnect_known codec b k r).1 ≡ r.1
  unfolding disconnect_known
  disconnect_known-store true k (ok _, s) = refl
  disconnect_known-store false k (ok _, s) = refl
  disconnect_known-store true k (err e, s) = refl
  disconnect_known-store false k (err e, s) = refl
  disconnect_known-store true k (panicked, s) = refl
  disconnect_known-store false k (panicked, s) = refl

  disconnect_parsed-store :
      (channel_peers : List Bytes) (manager : PeerManager) (text k : Bytes) (s : PeerStore)
      → contains channel_peers k ≡ false
      → (disconnect_parsed codec channel_peers manager text (some k) s).1
        ≡ (delete_channel_peer text s).1
  unfolding disconnect_parsed
  disconnect_parsed-store channel_peers manager text k s free =
      rw (free, disconnect_parsed)
        (disconnect_known-store (contains manager.list_peers k) k (delete_channel_peer text s))

  -- On a working peer file that holds some peers, a request to disconnect a peer with which there is no channel, by the
  -- lower-case text of its key of 33 bytes, which parses, leaves a file that is read back without that peer, and with every
  -- other as before, whether or not the peer is connected.
  pub disconnect_peer_forgets :
      (channel_peers : List Bytes) (manager : PeerManager) (k : Bytes) (peers : Map Bytes)
      (s : PeerStore)
      → Works s
      → Holds codec peers s
      → IsBytes k
      → length k ≡ 33
      → codec.pubkey_from_str (hex_str k) ≡ some k
      → contains channel_peers k ≡ false
      → (m : Map Bytes) × (read_channel_peer_data codec
            (disconnect_peer codec channel_peers manager (hex_str k) s).1
          ≡ ok m)
        × ((j : Bytes) → lookup j m ≡ (if bytes_eq k j then none else lookup j peers))
  unfolding disconnect_peer
  disconnect_peer_forgets channel_peers manager k peers s w held bytes len read free =
      let (m, reads, views) = read-run codec (Op.delete k ∷ []) peers s ((bytes, len), tt) w held in
      (
        m,
        rw (read, disconnect_parsed-store channel_peers manager (hex_str k) k s free) reads,
        views,
      )
