-- ===== src/Routes/Channels/Named.antt =====
-- The channel of a temporary id, from its event on (src/ldk.rs, src/routes.rs).
use f1r3fly_rgb_lightning_no.Common.{
  ◌≡◌, refl, ◌∙◌, ap, Bool, true, false, Option, none, some, List, Bytes, length, lookup,
  lookup-insert, bytes_eq_refl, IsBytes, inl, inr, Bool-cases,
}
use f1r3fly_rgb_lightning_no.Hex.{hex_str}
use f1r3fly_rgb_lightning_no.Hex.Laws.{hex_str_to_vec-hex_str}
use f1r3fly_rgb_lightning_no.Outcome.{ok}
use f1r3fly_rgb_lightning_no.Node.{UnlockedAppState, pure, gets, lift, or_fail, ◌>>=◌, bind-ok}
use f1r3fly_rgb_lightning_no.Error.{ApiError}
use f1r3fly_rgb_lightning_no.Node.Ensures.{Ensures, Leads, then-Ensures}
use f1r3fly_rgb_lightning_no.Node.Channels.{add_channel_id, save_channel_ids_map}
use f1r3fly_rgb_lightning_no.Node.Intercepted.{Crossing}
use f1r3fly_rgb_lightning_no.Node.Funding.{unlock_rgb_send}
use f1r3fly_rgb_lightning_no.Node.Events.{Event, PaymentFile, finish_funding, handle_ldk_events}
use f1r3fly_rgb_lightning_no.Routes.Channels.{check_decoded, check_channel_id, get_channel_id}

-- The state in which a temporary id names a channel; the lock is free once the funding is published.
pub record Names (temporary channel : Bytes) (funded : Option Bool) (s : UnlockedAppState)
    : Type 0 where
  pub found : get_channel_id (hex_str temporary) s ≡ (ok (hex_str channel), s)
  pub released : funded ≡ some true → s.rgb_send_lock ≡ false

check_channel_id-hex_str :
    (id : Bytes) → IsBytes id → length id ≡ 32 → check_channel_id (hex_str id) ≡ ok id
unfolding check_channel_id check_decoded
check_channel_id-hex_str id bytes len =
    ap check_decoded (hex_str_to_vec-hex_str id bytes) ∙ rw len refl

get_channel_id_found :
    (temporary channel : Bytes) (s : UnlockedAppState)
    → IsBytes temporary
    → length temporary ≡ 32
    → lookup temporary s.channel_ids_map ≡ some channel
    → get_channel_id (hex_str temporary) s ≡ (ok (hex_str channel), s)
unfolding get_channel_id
get_channel_id_found temporary channel s bytes len found =
    bind-ok (lift (check_channel_id (hex_str temporary)))
      (λ id.
        gets (λ s'. lookup id s'.channel_ids_map)
        >>= (λ o. or_fail o ApiError.unknown_temporary_channel_id >>= (λ c. pure (hex_str c))))
      (ap (λ o. (o, s)) (check_channel_id-hex_str temporary bytes len))
    ∙ rw found refl

module _ (temporary channel : Bytes) (bytes : IsBytes temporary) (len : length temporary ≡ 32) where
  named_lem :
      (funded : Option Bool) (s : UnlockedAppState)
      → lookup temporary s.channel_ids_map ≡ some channel
      → (funded ≡ some true → s.rgb_send_lock ≡ false)
      → Names temporary channel funded s
  named_lem funded s found free = record {
    found = get_channel_id_found temporary channel s bytes len found;
    released = free;
  }

  finish_funding-Names :
      (funded : Option Bool) (saved : Bool)
      → Leads
          (λ s. lookup temporary s.channel_ids_map ≡ some channel)
          (finish_funding funded saved)
          (λ _ s. Names temporary channel funded s)
  unfolding finish_funding unlock_rgb_send
  finish_funding-Names (some true) saved = record {
    apply = λ s h. named_lem (some true) (record s { rgb_send_lock = false }) h (λ _. refl);
  }
  finish_funding-Names (some false) saved = record {
    apply = λ s h. named_lem (some false) s h (λ e. cc);
  }
  finish_funding-Names none true = record { apply = λ s h. named_lem none s h (λ e. cc) }
  finish_funding-Names none false = record { apply = λ s h. tt }

  add_channel_id-Names :
      Ensures
        (add_channel_id temporary channel)
        (λ _ s. lookup temporary s.channel_ids_map ≡ some channel)
  unfolding add_channel_id save_channel_ids_map
  add_channel_id-Names = record {
    apply = λ s. elim (Bool-cases s.write_fails) [
      | inl bad ↦ rw bad tt
      | inr good ↦
          rw
            (
              good,
              lookup-insert temporary temporary channel s.channel_ids_map,
              bytes_eq_refl temporary,
            )
            refl
    ];
  }

  -- Once the `ChannelPending` event of a channel is handled, `get_channel_id` answers the text of its temporary id, of 32
  -- bytes, with the text of the channel's id; and if the node has published the funding, the lock of the asset's transfer
  -- is free.
  pub channel_pending-Names :
      (lib : Crossing) (files : List PaymentFile) (funded : Option Bool) (saved : Bool)
      → Ensures
          (handle_ldk_events lib files
            (Event.channel_pending (some temporary) channel funded saved))
          (λ _ s. Names temporary channel funded s)
  unfolding handle_ldk_events
  channel_pending-Names lib files funded saved =
      then-Ensures (λ _ s. lookup temporary s.channel_ids_map ≡ some channel)
        (add_channel_id temporary channel) (λ _. finish_funding funded saved) add_channel_id-Names
        (λ _. finish_funding-Names funded saved)
