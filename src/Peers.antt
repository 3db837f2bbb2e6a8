-- ===== src/Peers.antt =====
-- The peers of the node's channels: their file (src/disk.rs), the parsing of a peer and the connection to
-- it (src/utils.rs), and the handlers `connect_peer` and `disconnect_peer` (src/routes.rs).
pub mod Bodies
pub mod Parsed
pub mod Views
pub mod Connections
pub mod Connected
use mathlib.Core.Option
use f1r3fly_rgb_lightning_no.Common.{
  ℕ, Bool, true, false, not, Option, none, some, is_some, List, [], ◌∷◌, ◌++◌, Bytes, Map, insert,
  str, split, contains, is_empty, if◌then◌else◌,
}
use f1r3fly_rgb_lightning_no.Hex.{hex_str, hex_str_to_compressed_pubkey}
use f1r3fly_rgb_lightning_no.Lines.{trim, lines, strip_cr, starts_with}
use f1r3fly_rgb_lightning_no.Error.{ApiError}
use f1r3fly_rgb_lightning_no.Outcome.{Outcome, ok, err, panicked, ◌>>=◌, ◌>>◌, err_if, or_err}

-- The parsers and printers of the libraries. A public key and a socket address are their bytes.
pub record PeerCodec : Type 0 where
  pub pubkey_from_slice : Bytes → Option Bytes
  -- `PublicKey::from_str`
  pub pubkey_from_str : Bytes → Option Bytes
  -- `to_socket_addrs`, its first address
  pub to_socket_addr : Bytes → Option Bytes
  pub addr_to_string : Bytes → Bytes

-- The peer file, if it exists, and the errors of its reading, its writing under another name, and its
-- renaming.
pub record PeerStore : Type 0 where
  pub file : Option Bytes
  pub read_error : Option Bytes
  pub write_error : Option Bytes
  pub rename_error : Option Bytes

-- An operation of the file system that may fail, with `?`.
abbrev pub no_io_error : Option Bytes → Outcome (Unit {0})
no_io_error none = ok tt
no_io_error (some e) = err (ApiError.io e)

-- The `filter` and the `map` on the lines.
unfoldable pub kept_lines : Bytes → List Bytes → List Bytes
unfolding trim starts_with
kept_lines pubkey [] = []
kept_lines pubkey (line ∷ rest) =
    let kept = kept_lines pubkey rest in
    if starts_with pubkey (trim line) then kept else trim line ∷ kept

-- `join("\n")`
unfoldable pub join : List Bytes → Bytes
join [] = []
join (line ∷ []) = line
join (line ∷ next ∷ rest) = line ++ (10 ∷ join (next ∷ rest))

-- The write of the new text under another name, and the renaming.
unfoldable pub replace_file : Bytes → PeerStore → Outcome (Unit {0}) × PeerStore
replace_file text s =
    let written = no_io_error s.write_error >> no_io_error s.rename_error in
    elim written [
      | ok _ ↦ (ok tt, record s { file = some text })
      | err e ↦ (err e, s)
      | panicked ↦ (panicked, s)
    ]

-- The text after `pubkey@address` is added to the lines of other peers.
unfoldable pub add_line : Bytes → Bytes → Bytes
add_line kept entry = if is_empty kept then entry else kept ++ (10 ∷ entry)

-- The new text is written, unless the old one could not be read.
abbrev pub replace_after : Option Bytes → Bytes → PeerStore → Outcome (Unit {0}) × PeerStore
replace_after none text s = replace_file text s
replace_after (some e) text s = (err (ApiError.io e), s)

module _ (codec : PeerCodec) where
  -- `format!("{pubkey}@{address}")`
  unfoldable pub peer_line : Bytes → Bytes → Bytes
  peer_line pubkey address = hex_str pubkey ++ (b'@' ∷ codec.addr_to_string address)

  -- From the existence of the file on.
  unfoldable pub persist_over :
      Option Bytes → Bytes → Bytes → PeerStore → Outcome (Unit {0}) × PeerStore
  unfolding peer_line add_line kept_lines join lines replace_file
  persist_over none pubkey address s = replace_file (peer_line pubkey address) s
  persist_over (some text) pubkey address s =
      replace_after s.read_error
        (add_line (join (kept_lines (hex_str pubkey) (lines text))) (peer_line pubkey address)) s

  unfoldable pub persist_channel_peer : Bytes → Bytes → PeerStore → Outcome (Unit {0}) × PeerStore
  unfolding persist_over
  persist_channel_peer pubkey address s = persist_over s.file pubkey address s

  -- The address of `parse_peer_info`: none, or one that the libraries can parse.
  unfoldable pub parse_address : List Bytes → Outcome (Option Bytes)
  parse_address [] = ok none
  parse_address (text ∷ _) = elim (codec.to_socket_addr text) [
    | none ↦
        err
          (ApiError.invalid_peer_info (str "couldn't parse pubkey@host:port into a socket address"))
    | some address ↦ ok (some address)
  ]

  -- The parts of the text between the `@`, of which there is one at least.
  unfoldable pub parse_parts : List Bytes → Outcome (Bytes × Option Bytes)
  unfolding parse_address hex_str_to_compressed_pubkey
  parse_parts [] = panicked
  parse_parts (pubkey ∷ rest) = do
    address ← parse_address rest
    key ←
        or_err (hex_str_to_compressed_pubkey codec.pubkey_from_slice pubkey)
          (ApiError.invalid_peer_info (str "unable to parse given pubkey for node"))
    ok (key, address)

  unfoldable pub parse_peer_info : Bytes → Outcome (Bytes × Option Bytes)
  unfolding parse_parts
  parse_peer_info text = parse_parts (split b'@' text)

  -- `socket_addr.expect(…)`
  unfoldable pub insert_peer : Bytes × Option Bytes → Map Bytes → Outcome (Map Bytes)
  insert_peer (key, none) peers = panicked
  insert_peer (key, some address) peers = ok (insert key address peers)

  -- The loop of `read_channel_peer_data`.
  unfoldable pub read_lines : List Bytes → Map Bytes → Outcome (Map Bytes)
  unfolding parse_peer_info insert_peer strip_cr
  read_lines [] peers = ok peers
  read_lines (line ∷ rest) peers = do
    peer ← parse_peer_info (strip_cr line)
    peers' ← insert_peer peer peers
    read_lines rest peers'

  -- `File::open` fails if the file cannot be read.
  unfoldable pub read_channel_peer_data : PeerStore → Outcome (Map Bytes)
  unfolding read_lines lines
  read_channel_peer_data s = elim s.file [
    | none ↦ ok []
    | some text ↦ do no_io_error s.read_error; read_lines (lines text) []
  ]

-- From the existence of the file on; the key is a text.
unfoldable pub delete_from : Option Bytes → Bytes → PeerStore → Outcome (Unit {0}) × PeerStore
unfolding kept_lines join lines replace_file
delete_from none pubkey s = (ok tt, s)
delete_from (some text) pubkey s =
    replace_after s.read_error (join (kept_lines pubkey (lines text))) s

unfoldable pub delete_channel_peer : Bytes → PeerStore → Outcome (Unit {0}) × PeerStore
unfolding delete_from
delete_channel_peer pubkey s = delete_from s.file pubkey s
