-- ===== src/Routes/Channels/Locked.antt =====
-- The lock of the asset's transfer, `rgb_send_lock`, over `open_channel`.
use mathlib.Core.Path.{subst}
use f1r3fly_rgb_lightning_no.Common.{
  ℕ, ◌≡◌, refl, ◌∙◌, sym, ◌⊎◌, Bool, true, false, Option, none, some, ◌∷◌, Bytes, inl, inr,
  Bool-cases,
}
use f1r3fly_rgb_lightning_no.Decimal.{parse_u64}
use f1r3fly_rgb_lightning_no.Hex.{hex_str}
use f1r3fly_rgb_lightning_no.Error.{ApiError}
use f1r3fly_rgb_lightning_no.Outcome.{Outcome, ok, err, panicked}
use f1r3fly_rgb_lightning_no.Node.{
  UnlockedAppState, LibraryCall, Action, pure, fail, unwrap, ◌>>=◌, ◌>>◌,
}
use f1r3fly_rgb_lightning_no.Peers.{PeerCodec, PeerStore}
use f1r3fly_rgb_lightning_no.Peers.Connections.{PeerManager}
use f1r3fly_rgb_lightning_no.Routes.Library.{Library}
use f1r3fly_rgb_lightning_no.Routes.Channels.{
  ChannelLibrary, LdkApiError, Created, created, not_created,
}
use f1r3fly_rgb_lightning_no.Routes.Channels.Open.{
  OpenChannelRequest, Opening, Opened, check_open, reserve_asset, set_rgb_send_lock,
  commitment_tx_fee, creation_error, created_channel, write_rgb_channel_info, write_infos,
  open_reserved, create_opened, after_connection, after_checks, open_channel,
}
use f1r3fly_rgb_lightning_no.Routes.Channels.Steady.{
  Steady, reserve_asset-Steady, check_open-Steady, check_open_locked,
}

abbrev pub is_ok : {A : Type 0} → Outcome A → Bool
is_ok (ok _) = true
is_ok (err _) = false
is_ok panicked = false

-- A panic that leaves the lock taken: the channel was created, and a write of its RGB data failed.
pub record LeavesTaken (l : ChannelLibrary) (r : OpenChannelRequest) (s : UnlockedAppState)
    : Type 0 where
  pub peer : Bytes
  pub temporary : Option Bytes
  pub id : Bytes
  pub is_created : l.create_channel peer r.capacity_sat r.push_msat temporary ≡ created id
  pub pending : Bool
  pub unwritten : l.writes_info (hex_str id) pending ≡ false
  pub taken : s.rgb_send_lock ≡ true

module _ (l : ChannelLibrary) (r : OpenChannelRequest) where
  -- The lock after an answer, from what it was before.
  abbrev pub Locks : Bool → Outcome Bytes × UnlockedAppState → Type 0
  Locks b (ok _, s) = s.rgb_send_lock ≡ true
  Locks b (err _, s) = s.rgb_send_lock ≡ b
  Locks b (panicked, s) = (s.rgb_send_lock ≡ b) ⊎ LeavesTaken l r s

  -- The steps of the handler, from a free lock.
  record Ends (m : Action Bytes) : Type 0 where
    apply : (s : UnlockedAppState) → s.rgb_send_lock ≡ false → Locks false (m s)

  bind-end :
      {A : Type 0} (x : Outcome A × UnlockedAppState) (f : A → Action Bytes)
      → x.1.rgb_send_lock ≡ false
      → ((a : A) → Ends (f a))
      → Locks false (((λ _. x) >>= f) x.1)
  bind-end (ok a, s) f h k = (k a).apply s h
  bind-end (err e, s) f h k = h
  bind-end (panicked, s) f h k = inl h

  bind-Ends :
      {A : Type 0} (m : Action A) (f : A → Action Bytes)
      → Steady m
      → ((a : A) → Ends (f a))
      → Ends (m >>= f)
  bind-Ends m f hm hf = record { apply = λ s h. bind-end (m s) f (hm.apply s ∙ h) hf }

  -- The end of the handler, from a lock that is taken.
  record Settles (m : Action Bytes) : Type 0 where
    apply : (s : UnlockedAppState) → s.rgb_send_lock ≡ true → Locks false (m s)

  written-Settles :
      (peer : Bytes) (temporary : Option Bytes) (id : Bytes) (o : Option (Bytes × ℕ))
      → l.create_channel peer r.capacity_sat r.push_msat temporary ≡ created id
      → Settles (write_infos l (hex_str id) o >> pure (hex_str id))
  unfolding write_infos write_rgb_channel_info
  written-Settles peer temporary id none made = record { apply = λ s h. h }
  written-Settles peer temporary id (some (c, n)) made =
      elim (Bool-cases (l.writes_info (hex_str id) true)) [
        | inr bad ↦ record {
          apply = λ s h. rw bad (
              inr (record {
                peer = peer;
                temporary = temporary;
                id = id;
                is_created = made;
                pending = true;
                unwritten = bad;
                taken = h;
              }));
        }
        | inl good ↦ elim (Bool-cases (l.writes_info (hex_str id) false)) [
          | inl good' ↦ record { apply = λ s h. rw (good, good') h }
          | inr bad ↦ record {
            apply = λ s h.
                rw (good, bad)
                  (inr (record {
                    peer = peer;
                    temporary = temporary;
                    id = id;
                    is_created = made;
                    pending = false;
                    unwritten = bad;
                    taken = h;
                  }));
          }
        ]
      ]

-- Whatever the text of the error, there is no channel.
record Fails {A : Type 0} (m : Action A) : Type 0 where
  apply :
      (s : UnlockedAppState) → (is_ok (m s).0 ≡ false) × ((m s).1.rgb_send_lock ≡ s.rgb_send_lock)

unwrapped-Fails :
    (o : Option ℕ)
    → Fails {A = Bytes} (unwrap o >>= (λ fee. fail (ApiError.insufficient_capacity fee)))
unwrapped-Fails none = record { apply = λ s. (refl, refl) }
unwrapped-Fails (some n) = record { apply = λ s. (refl, refl) }

fee-Fails :
    (o : Option Bytes)
    → Fails {A = Bytes} (commitment_tx_fee o >>= (λ fee. fail (ApiError.insufficient_capacity fee)))
unfolding commitment_tx_fee
fee-Fails none = record { apply = λ s. (refl, refl) }
fee-Fails (some digits) = unwrapped-Fails (parse_u64 digits)

creation_error-Fails : (l : ChannelLibrary) (e : LdkApiError) → Fails (creation_error l e)
unfolding creation_error
creation_error-Fails l (LdkApiError.api_misuse_error e) = elim (Bool-cases (l.is_fee_error e)) [
  | inl fee ↦ rw fee (fee-Fails (l.captured_fee e))
  | inr differs ↦ rw differs (record { apply = λ s. (refl, refl) })
]
creation_error-Fails l (LdkApiError.other e) = record { apply = λ s. (refl, refl) }

module _ (l : ChannelLibrary) (r : OpenChannelRequest) where
  failed-end :
      (x : Outcome Bytes × UnlockedAppState) (f : Bytes → Action Bytes)
      → is_ok x.0 ≡ false
      → x.1.rgb_send_lock ≡ false
      → Locks l r false (((λ _. x) >>= f) x.1)
  failed-end (ok a, s) f bad h = cc
  failed-end (err e, s) f bad h = h
  failed-end (panicked, s) f bad h = inl h

  created_channel-Settles :
      (c : Created) (f : Bytes → Action Bytes)
      → ((id : Bytes) → c ≡ created id → Settles l r (f id))
      → Settles l r (created_channel l c >>= f)
  unfolding created_channel set_rgb_send_lock
  created_channel-Settles (created id) f k = k id refl
  created_channel-Settles (not_created e) f k = record {
    apply = λ s _.
        let s' : UnlockedAppState = record s { rgb_send_lock = false } in
        let h = (creation_error-Fails l e).apply s' in failed-end (creation_error l e s') f h.0 h.1;
  }

  open_reserved-Ends : (o : Opening) → Ends l r (open_reserved l r o)
  unfolding open_reserved set_rgb_send_lock
  open_reserved-Ends o = record {
    apply = λ s _.
        (created_channel-Settles
            (l.create_channel o.peer_pubkey r.capacity_sat r.push_msat o.temporary_channel_id)
            (λ id. write_infos l (hex_str id) o.colored_info >> pure (hex_str id))
            (λ id made.
              written-Settles l r o.peer_pubkey o.temporary_channel_id id o.colored_info
                made)).apply
          (record s {
            rgb_send_lock = true;
            calls = LibraryCall.create_channel o.peer_pubkey ∷ s.calls;
          })
          refl;
  }

  create_opened-Ends : (o : Opening) → Ends l r (create_opened l r o)
  unfolding create_opened
  create_opened-Ends o =
      bind-Ends l r (reserve_asset l o.colored_info) (λ _. open_reserved l r o)
        (reserve_asset-Steady l o.colored_info) (λ _. open_reserved-Ends o)

  -- The answer and the lock of an `open_channel` that is not left waiting.
  abbrev pub LocksIfOpened : Bool → Option Opened → Type 0
  LocksIfOpened b none = Unit
  LocksIfOpened b (some (out, s, store)) = Locks l r b (out, s)

  after_connection-LocksIfOpened :
      (o : Opening) (s : UnlockedAppState) (reached : Option (Outcome (Unit {0}) × PeerStore))
      → s.rgb_send_lock ≡ false
      → LocksIfOpened false (after_connection l r o s reached)
  unfolding after_connection
  after_connection-LocksIfOpened o s none h = tt
  after_connection-LocksIfOpened o s (some (ok _, store)) h = (create_opened-Ends o).apply s h
  after_connection-LocksIfOpened o s (some (err e, store)) h = h
  after_connection-LocksIfOpened o s (some (panicked, store)) h = inl h

module _ (lib : Library) (codec : PeerCodec) (channels : ChannelLibrary) (fuel : ℕ)
    (manager : PeerManager) where
  after_checks-LocksIfOpened :
      (r : OpenChannelRequest) (checked : Outcome Opening × UnlockedAppState) (store : PeerStore)
      → checked.1.rgb_send_lock ≡ false
      → LocksIfOpened channels r false
          (after_checks lib codec channels fuel manager r checked store)
  unfolding after_checks
  after_checks-LocksIfOpened r (ok o, s) store h = after_connection-LocksIfOpened channels r o s _ h
  after_checks-LocksIfOpened r (err e, s) store h = h
  after_checks-LocksIfOpened r (panicked, s) store h = inl h

  -- After an `open_channel` that is not still waiting for its peer: if it answers with a channel, the lock of the asset's
  -- transfer is taken; if it answers with an error, the lock is as it was; and if it panics, the lock is as it was, or
  -- else it is taken, the channel was created, and a write of its RGB data failed.
  pub open_channel-LocksIfOpened :
      (r : OpenChannelRequest) (s : UnlockedAppState) (store : PeerStore)
      → LocksIfOpened channels r s.rgb_send_lock
          (open_channel lib codec channels fuel manager r s store)
  unfolding open_channel after_checks
  open_channel-LocksIfOpened r s store = elim (Bool-cases s.rgb_send_lock) [
    | inl taken ↦ rw (check_open_locked lib codec r s taken, taken) refl
    | inr free ↦
        subst
          (λ b. LocksIfOpened channels r b (open_channel lib codec channels fuel manager r s store))
          (sym free)
          (after_checks-LocksIfOpened r (check_open lib codec r s) store
            ((check_open-Steady lib codec r).apply s ∙ free))
  ]
