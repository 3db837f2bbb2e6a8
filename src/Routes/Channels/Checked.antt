-- ===== src/Routes/Channels/Checked.antt =====
-- What the checks of `open_channel` ensure.
use f1r3fly_rgb_lightning_no.Common.{
  ℕ, ◌≤◌, ◌*◌, ◌≡◌, refl, Bool, true, false, ◌&&◌, not, Option, none, some, is_some, Bytes, ltb,
  inl, inr, Bool-cases, arith,
}
use f1r3fly_rgb_lightning_no.Error.{ApiError}
use f1r3fly_rgb_lightning_no.Node.{pure, gets, lift, fail_if, or_fail, ◌>>=◌, ◌>>◌}
use f1r3fly_rgb_lightning_no.Node.Ensures.{
  Ensures, bind-Ensures, skip-Ensures, weaken-Ensures, or_fail-Ensures,
}
use f1r3fly_rgb_lightning_no.Peers.{PeerCodec, parse_peer_info}
use f1r3fly_rgb_lightning_no.Routes.Library.{Library}
use f1r3fly_rgb_lightning_no.Routes.Channels.Open.{
  OpenChannelRequest, Opening, check_temporary, check_colored, check_capacity, check_open,
}

-- The bounds of the capacity, for an uncolored and for a colored channel.
pub record FitsCapacity (r : OpenChannelRequest) : Type 0 where
  pub lower : 5506 ≤ r.capacity_sat
  pub upper : r.capacity_sat ≤ 16777215
  pub push : r.push_msat ≤ r.capacity_sat * 1000

-- What the check of the asset returns.
abbrev pub ColorOf : (Bytes → Option Bytes) → Option Bytes → Option ℕ → Option (Bytes × ℕ) → Type 0
ColorOf f (some asset) (some amount) (some (contract, n)) =
    (f asset ≡ some contract) × (n ≡ amount) × (1 ≤ amount)
ColorOf f none none none = Unit
ColorOf f _ _ _ = ⊥

asset_parsed :
    (f : Bytes → Option Bytes) (asset : Bytes) (amount : ℕ)
    → 1 ≤ amount
    → Ensures
        (or_fail (f asset) (ApiError.invalid_asset_id asset)
          >>= (λ contract. pure (some (contract, amount))))
        (λ c _. ColorOf f (some asset) (some amount) c)
asset_parsed f asset amount positive =
    bind-Ensures {P = λ c _. ColorOf f (some asset) (some amount) c} (λ c. f asset ≡ some c)
      (or_fail (f asset) (ApiError.invalid_asset_id asset))
      (λ contract. pure (some (contract, amount)))
      (or_fail-Ensures (f asset) (ApiError.invalid_asset_id asset))
      (λ c parsed. record { apply = λ s. (parsed, refl, positive) })

check_colored-Ensures :
    (f : Bytes → Option Bytes) (a : Option Bytes) (n : Option ℕ)
    → Ensures (check_colored f a n) (λ c _. ColorOf f a n c)
unfolding check_colored
check_colored-Ensures f (some a) (some n) = elim (Bool-cases (ltb n 1)) [
  | inl low ↦ record { apply = λ s. rw low tt }
  | inr enough ↦ rw enough (asset_parsed f a n (ground arith))
]
check_colored-Ensures f (some a) none = record { apply = λ s. tt }
check_colored-Ensures f none (some n) = record { apply = λ s. tt }
check_colored-Ensures f none none = record { apply = λ s. tt }

-- What the check of the capacity ensures.
pub record Checked (colored : Bool) (r : OpenChannelRequest) : Type 0 where
  pub capacity : FitsCapacity r
  pub colored_lower : (colored && ltb r.capacity_sat 30010) ≡ false
  pub anchored : (colored && not r.with_anchors) ≡ false

-- Five guards.
record AllFalse (a b c d e : Bool) : Type 0 where
  first : a ≡ false
  second : b ≡ false
  third : c ≡ false
  fourth : d ≡ false
  fifth : e ≡ false

module _ (p q u v w : ApiError) where
  guards-Ensures :
      (a b c d e : Bool)
      → Ensures
          (fail_if a p >> (fail_if b q >> (fail_if c u >> (fail_if d v >> fail_if e w))))
          (λ _ _. AllFalse a b c d e)
  guards-Ensures true _ _ _ _ = record { apply = λ s. tt }
  guards-Ensures false true _ _ _ = record { apply = λ s. tt }
  guards-Ensures false false true _ _ = record { apply = λ s. tt }
  guards-Ensures false false false true _ = record { apply = λ s. tt }
  guards-Ensures false false false false true = record { apply = λ s. tt }
  guards-Ensures false false false false false = record {
    apply = λ s. record { first = refl; second = refl; third = refl; fourth = refl; fifth = refl };
  }

check_capacity-Ensures :
    (colored : Bool) (r : OpenChannelRequest)
    → Ensures (check_capacity colored r) (λ _ _. Checked colored r)
unfolding check_capacity
check_capacity-Ensures colored r =
    weaken-Ensures
      (λ _ _.
        AllFalse (colored && ltb r.capacity_sat 30010) (ltb r.capacity_sat 5506)
          (ltb 16777215 r.capacity_sat) (ltb (r.capacity_sat * 1000) r.push_msat)
          (colored && not r.with_anchors))
      (λ _ _. Checked colored r) (check_capacity colored r) (guards-Ensures _ _ _ _ _ _ _ _ _ _)
      λ _ _ h.
        let below = h.second in
        let above = h.third in
        let pushed = h.fourth in
        record {
          capacity = record { lower = ground arith; upper = ground arith; push = ground arith };
          colored_lower = h.first;
          anchored = h.fifth;
        }

pub not-false : (b : Bool) → not b ≡ false → b ≡ true
not-false true h = refl
not-false false h = cc

-- What the checks of the handler return.
pub record Passed (lib : Library) (r : OpenChannelRequest) (o : Opening) : Type 0 where
  pub colored : Option (Bytes × ℕ)
  pub is_colored : o.colored_info ≡ colored
  pub color : ColorOf lib.codec.contract_from_str r.asset_id r.asset_amount colored
  pub checked : Checked (is_some colored) r

abbrev opening : Option Bytes → Option (Bytes × ℕ) → Bytes × Option Bytes → Opening
opening temporary colored peer = record {
  temporary_channel_id = temporary;
  colored_info = colored;
  peer_pubkey = peer.0;
  peer_addr = peer.1;
}

pub check_open-Ensures :
    (lib : Library) (codec : PeerCodec) (r : OpenChannelRequest)
    → Ensures (check_open lib codec r) (λ o _. Passed lib r o)
unfolding check_open
check_open-Ensures lib codec r = skip-Ensures (gets (λ s. s.rgb_send_lock)) _ λ locked.
    skip-Ensures (fail_if locked ApiError.open_channel_in_progress) _ λ _.
      skip-Ensures (check_temporary r.temporary_channel_id) _ λ temporary.
        bind-Ensures (λ c. ColorOf lib.codec.contract_from_str r.asset_id r.asset_amount c)
          (check_colored lib.codec.contract_from_str r.asset_id r.asset_amount) _
          (check_colored-Ensures lib.codec.contract_from_str r.asset_id r.asset_amount)
          λ c color.
            bind-Ensures (λ _. Checked (is_some c) r) (check_capacity (is_some c) r) _
              (check_capacity-Ensures (is_some c) r)
              λ _ checked.
                skip-Ensures (lift (parse_peer_info codec r.peer_pubkey_and_opt_addr))
                  (λ peer. pure (opening temporary c peer))
                  λ peer. record {
                    apply = λ s. record {
                      colored = c;
                      is_colored = refl;
                      color = color;
                      checked = checked;
                    };
                  }
