-- ===== src/Peers/Views.antt =====
-- The peer file as a map from keys to addresses: every run of the file's operations reads as the same run
-- on functions.
use mathlib.Core.Path.{fun_ext}
use f1r3fly_rgb_lightning_no.Common.{
  ◌≡◌, refl, sym, ap, ◌∙◌, inl, inr, Option, none, some, List, [], ◌∷◌, ◌++◌, Bytes, IsBytes, Map,
  All, All-append, NodupKeys, remove, lookup, lookup-remove, bytes_eq, bytes_eq_iff, length,
  Bool-cases, Option-cases, if◌then◌else◌, arith,
}
use f1r3fly_rgb_lightning_no.Hex.{hex_str}
use f1r3fly_rgb_lightning_no.Outcome.{ok}
use f1r3fly_rgb_lightning_no.Peers.{
  PeerCodec, PeerStore, replace_file, persist_over, persist_channel_peer, read_channel_peer_data,
  delete_from, delete_channel_peer,
}
use f1r3fly_rgb_lightning_no.Peers.Bodies.{
  IsPeer, ArePeers, body, lines-body, kept_lines-body, add_line-body, remove-ArePeers,
}
use f1r3fly_rgb_lightning_no.Peers.Parsed.{collect, read_lines-body, or_else-none, lookup-collect}

abbrev update : (Bytes → Option Bytes) → Bytes → Option Bytes → Bytes → Option Bytes
update f k o j = if bytes_eq k j then o else f j

-- No operation on the file fails.
pub record Works (s : PeerStore) : Type 0 where
  pub reads : s.read_error ≡ none
  pub writes : s.write_error ≡ none
  pub renames : s.rename_error ≡ none

lookup-append_one :
    (m : Map Bytes) (k j : Bytes) (a : Bytes)
    → lookup k m ≡ none
    → lookup j (m ++ ((k, a) ∷ [])) ≡ (if bytes_eq k j then some a else lookup j m)
unfolding lookup
lookup-append_one [] k j a h = refl
lookup-append_one ((i, b) ∷ m) k j a h =
    ground (arith, lookup-append_one m k j a, bytes_eq_iff i k, bytes_eq_iff i j, bytes_eq_iff k j)

remove_gone : (k : Bytes) (m : Map Bytes) → lookup k (remove k m) ≡ none
remove_gone k m = rw (lookup-remove k k m) (ground (arith, bytes_eq_iff k k))

remove-NodupKeys : (k : Bytes) (m : Map Bytes) → NodupKeys m → NodupKeys (remove k m)
unfolding remove
remove-NodupKeys k [] u = tt
remove-NodupKeys k ((j, a) ∷ m) (fresh, u) =
    ground (arith, remove-NodupKeys k m u, lookup-remove k j m)

append_one-NodupKeys :
    (m : Map Bytes) (k a : Bytes) → NodupKeys m → lookup k m ≡ none → NodupKeys (m ++ ((k, a) ∷ []))
unfolding lookup
append_one-NodupKeys [] k a u h = (refl, tt)
append_one-NodupKeys ((j, b) ∷ m) k a (fresh, u) h = elim (Bool-cases (bytes_eq j k)) [
  | inl same ↦ cc (rw same at h)
  | inr differ ↦
      let fresh_key : lookup k m ≡ none = rw differ at h in
      ground (
        arith,
        lookup-append_one m k j a fresh_key,
        append_one-NodupKeys m k a u fresh_key,
        bytes_eq_iff k j,
        bytes_eq_iff j k,
      )
]

module _ (codec : PeerCodec) where
  abbrev clean : Bytes → PeerStore
  clean t = record { file = some t; read_error = none; write_error = none; rename_error = none }

  -- A store holds the peers of a list, with one address for a key.
  pub record Holds (peers : Map Bytes) (s : PeerStore) : Type 0 where
    pub stored : s.file ≡ some (body codec peers)
    pub are_peers : ArePeers codec peers
    pub distinct : NodupKeys peers

  abbrev put_in : Bytes → Bytes → Map Bytes → Map Bytes
  put_in k a peers = remove k peers ++ ((k, a) ∷ [])

  lookup-put_in :
      (k a j : Bytes) (peers : Map Bytes)
      → lookup j (put_in k a peers) ≡ update (λ i. lookup i peers) k (some a) j
  lookup-put_in k a j peers =
      lookup-append_one (remove k peers) k j a (remove_gone k peers)
      ∙ ground (arith, lookup-remove k j peers)

  persist-Holds :
      (k a : Bytes) (peers : Map Bytes) (s : PeerStore)
      → IsPeer codec (k, a)
      → Works s
      → Holds peers s
      → (persist_channel_peer codec k a s).1
        ≡ record s { file = some (body codec (put_in k a peers)) }
  unfolding persist_channel_peer persist_over replace_file body
  persist-Holds k a peers s h w held =
      rw
        (
          held.stored,
          w.reads,
          w.writes,
          w.renames,
          lines-body codec peers held.are_peers,
          kept_lines-body codec k peers h.key_bytes h.key_length held.are_peers,
        )
        (ap (λ (t : Bytes). clean t) (add_line-body codec (remove k peers) (k, a)))

  persist_ok :
      (k a : Bytes) (s : PeerStore) → Works s → (persist_channel_peer codec k a s).0 ≡ ok tt
  unfolding persist_channel_peer persist_over replace_file
  persist_ok k a s w = elim (Option-cases s.file) [
    | inl missing ↦ rw (missing, w.writes, w.renames) refl
    | inr (t, found) ↦ rw (found, w.reads, w.writes, w.renames) refl
  ]

  put_in-Holds :
      (k a : Bytes) (peers : Map Bytes) (s : PeerStore)
      → IsPeer codec (k, a)
      → Holds peers s
      → Holds (put_in k a peers) (record s { file = some (body codec (put_in k a peers)) })
  put_in-Holds k a peers s h held = record {
    stored = refl;
    are_peers =
        All-append (IsPeer codec) (remove k peers) ((k, a) ∷ [])
          (remove-ArePeers codec k peers held.are_peers) (h, tt);
    distinct =
        append_one-NodupKeys (remove k peers) k a (remove-NodupKeys k peers held.distinct)
          (remove_gone k peers);
  }

  delete-Holds :
      (k : Bytes) (peers : Map Bytes) (s : PeerStore)
      → IsBytes k
      → length k ≡ 33
      → Works s
      → Holds peers s
      → (delete_channel_peer (hex_str k) s).1
        ≡ record s { file = some (body codec (remove k peers)) }
  unfolding delete_channel_peer delete_from replace_file body
  delete-Holds k peers s hk len w held =
      rw
        (
          held.stored,
          w.reads,
          w.writes,
          w.renames,
          lines-body codec peers held.are_peers,
          kept_lines-body codec k peers hk len held.are_peers,
        )
        refl

  remove-Holds :
      (k : Bytes) (peers : Map Bytes) (s : PeerStore)
      → Holds peers s
      → Holds (remove k peers) (record s { file = some (body codec (remove k peers)) })
  remove-Holds k peers s held = record {
    stored = refl;
    are_peers = remove-ArePeers codec k peers held.are_peers;
    distinct = remove-NodupKeys k peers held.distinct;
  }

  -- The operations of the handlers on the file, by their keys.
  pub data Op : Type 0 where
    persist : Bytes → Bytes → Op
    delete : Bytes → Op

  abbrev pub IsOp : Op → Type 0
  IsOp (Op.persist k a) = IsPeer codec (k, a)
  IsOp (Op.delete k) = IsBytes k × (length k ≡ 33)

  abbrev pub run : List Op → PeerStore → PeerStore
  run [] s = s
  run (Op.persist k a ∷ ops) s = run ops (persist_channel_peer codec k a s).1
  run (Op.delete k ∷ ops) s = run ops (delete_channel_peer (hex_str k) s).1

  -- The same operations on a function from keys to addresses.
  abbrev pub replay : List Op → (Bytes → Option Bytes) → Bytes → Option Bytes
  replay [] f = f
  replay (Op.persist k a ∷ ops) f = replay ops (update f k (some a))
  replay (Op.delete k ∷ ops) f = replay ops (update f k none)

  run-Holds :
      (ops : List Op) (peers : Map Bytes) (s : PeerStore)
      → All IsOp ops
      → Works s
      → Holds peers s
      → (peers' : Map Bytes) × Holds peers' (run ops s)
        × Works (run ops s)
        × ((λ j. lookup j peers') ≡ replay ops (λ j. lookup j peers))
  run-Holds [] peers s good w held = (peers, held, w, refl)
  run-Holds (Op.persist k a ∷ ops) peers s good w held =
      rw (persist-Holds k a peers s good.0 w held, sym (fun_ext (λ j. lookup-put_in k a j peers)))
        (run-Holds ops (put_in k a peers) (record s { file = some (body codec (put_in k a peers)) })
          good.1 (record { reads = w.reads; writes = w.writes; renames = w.renames })
          (put_in-Holds k a peers s good.0 held))
  run-Holds (Op.delete k ∷ ops) peers s good w held =
      rw
        (
          delete-Holds k peers s good.0.0 good.0.1 w held,
          sym (fun_ext (λ j. lookup-remove k j peers)),
        )
        (run-Holds ops (remove k peers) (record s { file = some (body codec (remove k peers)) })
          good.1 (record { reads = w.reads; writes = w.writes; renames = w.renames })
          (remove-Holds k peers s held))

  read-Holds :
      (peers : Map Bytes) (s : PeerStore)
      → Works s
      → Holds peers s
      → (m : Map Bytes) × (read_channel_peer_data codec s ≡ ok m)
        × ((j : Bytes) → lookup j m ≡ lookup j peers)
  unfolding read_channel_peer_data lookup
  read-Holds peers s w held = (
    collect codec peers [],
    rw (held.stored, w.reads, lines-body codec peers held.are_peers)
        (read_lines-body codec peers [] held.are_peers),
    λ j. lookup-collect codec peers [] j held.distinct ∙ or_else-none codec (lookup j peers),
  )

  -- From a file that holds some peers, with one address for a key, and while no operation of the file system fails, every run of
  -- additions and deletions leaves a file that is read without error, and as the map that the same run makes of the map
  -- of those peers.
  pub read-run :
      (ops : List Op) (peers : Map Bytes) (s : PeerStore)
      → All IsOp ops
      → Works s
      → Holds peers s
      → (m : Map Bytes) × (read_channel_peer_data codec (run ops s) ≡ ok m)
        × ((j : Bytes) → lookup j m ≡ replay ops (λ i. lookup i peers) j)
  read-run ops peers s good w held =
      let (peers', held', w', same) = run-Holds ops peers s good w held in
      let (m, reads, views) = read-Holds peers' (run ops s) w' held' in
      (m, reads, λ j. views j ∙ ap (λ (f : Bytes → Option Bytes). f j) same)
