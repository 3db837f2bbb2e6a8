-- ===== src/Tests/Data.antt =====
-- Concrete libraries, offers and states for the tests.
use f1r3fly_rgb_lightning_no.Common.{
  ap, ◌+◌, ◌-◌, ◌≡◌, refl, false, Option, none, some, [], ◌∷◌, Bytes, IsFree, bytes_eq, str, ◌==◌,
  if◌then◌else◌, arith,
}
use f1r3fly_rgb_lightning_no.Hex.{hex_str}
use f1r3fly_rgb_lightning_no.Swap.{Codec, IsLawful, SwapInfo, SwapData, SwapString, SwapStatus}
use f1r3fly_rgb_lightning_no.Node.{UnlockedAppState, FsStore, PaymentInfo, HtlcStatus}
use f1r3fly_rgb_lightning_no.Node.Invariant.{IsSound}
use f1r3fly_rgb_lightning_no.Routes.Library.{Library, ChannelDetails, RouteHop}

-- A contract id is printed as `r` and its bytes, moved past the slash.
abbrev raised : Bytes → Bytes
raised [] = []
raised (b ∷ bs) = (b + 48) ∷ raised bs

abbrev lowered : Bytes → Bytes
lowered [] = []
lowered (b ∷ bs) = (b - 48) ∷ lowered bs

abbrev read_contract : Bytes → Option Bytes
read_contract [] = none
read_contract (c ∷ cs) = if c == b'r' then some (lowered cs) else none

abbrev pub codec : Codec
codec = record {
  contract_from_str = read_contract;
  contract_to_string = λ k. b'r' ∷ raised k;
  show_payment_hash = hex_str;
}

lowered-raised : (k : Bytes) → lowered (raised k) ≡ k
lowered-raised [] = refl
lowered-raised (b ∷ bs) = ground (arith, lowered-raised bs)

raised-IsFree : (k : Bytes) → IsFree b'/' (raised k)
raised-IsFree [] = tt
raised-IsFree (b ∷ bs) = (omega arith, raised-IsFree bs)

starts_with_r : (k : Bytes) → bytes_eq (b'r' ∷ k) (str "btc") ≡ false
unfolding bytes_eq str
starts_with_r k = refl

pub codec-IsLawful : IsLawful codec
codec-IsLawful = record {
  from_str-to_string = λ k. ap some (lowered-raised k);
  no_slash = λ k. (omega arith, raised-IsFree k);
  not_btc = λ k. starts_with_r (raised k);
  hash_hex = λ h. refl;
}

-- A hash, and a secret, of 32 bytes.
abbrev pub hash : Bytes
hash =
    1 ∷ 2 ∷ 3 ∷ 4 ∷ 5 ∷ 6 ∷ 7 ∷ 8 ∷ 9 ∷ 10 ∷ 11 ∷ 12 ∷ 13 ∷ 14 ∷ 15 ∷ 16 ∷ 17 ∷ 18 ∷ 19 ∷ 20 ∷ 21
    ∷ 22 ∷ 23 ∷ 24 ∷ 25 ∷ 26 ∷ 27 ∷ 28 ∷ 29 ∷ 30 ∷ 31 ∷ 255 ∷ []

abbrev pub asset : Bytes
asset = 1 ∷ 2 ∷ []

abbrev pub info : SwapInfo
info = record {
  qty_from = 5000;
  qty_to = 10;
  from_asset = none;
  to_asset = some asset;
  expiry = 1060;
}

abbrev pub offer : SwapString
offer = record { swap_info = info; payment_hash = hash }

abbrev pub waiting_swap : SwapData
waiting_swap = record {
  swap_info = info;
  status = SwapStatus.waiting;
  requested_at = 1000;
  initiated_at = none;
  completed_at = none;
}

abbrev pub empty_store : FsStore
empty_store = record {
  maker_swaps = [];
  taker_swaps = [];
  inbound_payments = [];
  outbound_payments = [];
  channel_ids = [];
}

abbrev pub empty_state : UnlockedAppState
empty_state = record {
  maker_swaps = [];
  taker_swaps = [];
  inbound_payments = [];
  outbound_payments = [];
  channel_ids_map = [];
  rgb_send_lock = false;
  fs_store = empty_store;
  write_fails = false;
  clock = λ n. 1000 + n;
  ticks = 0;
  calls = [];
}

-- The state of a maker that has made the offer, and has a pending payment.
abbrev pub payment : PaymentInfo
payment = record {
  preimage = none;
  secret = none;
  status = HtlcStatus.pending;
  amt_msat = some 3000000;
  created_at = 990;
  updated_at = 990;
  payee_pubkey = asset;
}

abbrev pub maker_state : UnlockedAppState
maker_state = record empty_state {
  maker_swaps = (hash, waiting_swap) ∷ [];
  outbound_payments = (hash, payment) ∷ [];
  fs_store = record empty_store {
    maker_swaps = (hash, waiting_swap) ∷ [];
    outbound_payments = (hash, payment) ∷ [];
  };
}

pub maker_state-IsSound : IsSound maker_state
maker_state-IsSound = record {
  maker_saved = refl;
  taker_saved = refl;
  inbound_saved = refl;
  outbound_saved = refl;
  channel_ids_saved = refl;
  maker_initiated = (tt, tt);
  taker_initiated = tt;
}

abbrev pub channel : ChannelDetails
channel = record {
  channel_id = hash;
  counterparty_node_id = asset;
  forwarding_info =
      some (record { cltv_expiry_delta = 40; fee_base_msat = 1; fee_proportional_millionths = 0 });
  short_channel_id = some 7;
  not_shutting_down = some tt;
}

abbrev pub hop : RouteHop
hop = record { short_channel_id = 7; fee_msat = 100; rgb_payment = none }

abbrev pub library : Library
library = record {
  codec = codec;
  pubkey_from_str = λ k. some k;
  pubkey_from_slice = λ k. some k;
  our_node_id = asset;
  list_channels = channel ∷ [];
  list_usable_channels = channel ∷ [];
  rgb_channel_info = λ _. some (record { contract_id = asset; local_rgb_amount = 20 });
  find_route = λ _. some ((hop ∷ []) ∷ []);
  get_payment_preimage = λ h s. some h;
  create_inbound_payment = λ a t. some (hash, hash);
  send_spontaneous_payment = λ hops p h. some (str "duplicate");
  is_swap_scid = 1024;
}
