-- ===== src/Routes/Maker/Execute/Outcomes.antt =====
-- `maker_execute`: what an expired offer and a payment that is made, refused or too dear leave behind.
use mathlib.Core.Option
use f1r3fly_rgb_lightning_no.Common.{
  ℕ, ◌+◌, ◌≡◌, refl, ap, true, false, Option, none, some, List, ◌∷◌, ◌++◌, Bytes, str, lookup,
  lookup-insert, bytes_eq_refl, ltb, leb,
}
use f1r3fly_rgb_lightning_no.Error.{ApiError}
use f1r3fly_rgb_lightning_no.Outcome.{Outcome, ok, err, panicked}
use f1r3fly_rgb_lightning_no.Decimal.{show_nat}
use f1r3fly_rgb_lightning_no.Hex.{hex_str_to_vec}
use f1r3fly_rgb_lightning_no.Swap.{SwapData, SwapString, SwapStatus, from_str, Parsed, to_array32}
use f1r3fly_rgb_lightning_no.Node.{
  Action, ◌>>◌, bind-ok, bind-err, bind-panicked, UnlockedAppState, LibraryCall, fail, call,
  get_current_timestamp,
}
use f1r3fly_rgb_lightning_no.Node.Swaps.{update_maker_swap_status}
use f1r3fly_rgb_lightning_no.Node.Swaps.Moves.{moved, with_maker, update_maker_swap_status_lem}
use f1r3fly_rgb_lightning_no.Routes.Library.{Library, RouteHop}
use f1r3fly_rgb_lightning_no.Routes.Amounts.{max_swap_fee_msat}
use f1r3fly_rgb_lightning_no.Routes.Maker.Path.{total_fee}
use f1r3fly_rgb_lightning_no.Routes.Maker.Execute.{
  MakerExecuteRequest, parsed_offer, expire_offer, note_rgb_payment, settle_send, send_swap,
  execute_offer, maker_execute,
}

-- The stored status of a maker swap.
abbrev pub maker_status : Bytes → UnlockedAppState → Option SwapStatus
maker_status h s = Option.map (λ (d : SwapData). d.status) (lookup h s.maker_swaps)

expire_known :
    (h : Bytes) (d : SwapData) (s : UnlockedAppState)
    → lookup h s.maker_swaps ≡ some d
    → s.write_fails ≡ false
    → expire_offer h true s ≡ (
      err ApiError.expired_swap_offer,
      with_maker h
          (moved SwapStatus.expired (s.clock s.ticks) d)
          (record s { ticks = s.ticks + 1 }),
    )
unfolding expire_offer
expire_known h d s found w =
    bind-ok (update_maker_swap_status h SwapStatus.expired) (λ _. fail ApiError.expired_swap_offer)
      (update_maker_swap_status_lem h SwapStatus.expired s d found (λ e. cc) w)

update_unknown :
    (h : Bytes) (s : UnlockedAppState)
    → lookup h s.maker_swaps ≡ none
    → update_maker_swap_status h SwapStatus.expired s ≡ (panicked, s)
unfolding update_maker_swap_status
update_unknown h s found = rw found refl

expire_unknown :
    (h : Bytes) (s : UnlockedAppState)
    → lookup h s.maker_swaps ≡ none
    → expire_offer h true s ≡ (panicked, s)
unfolding expire_offer
expire_unknown h s found =
    bind-panicked (update_maker_swap_status h SwapStatus.expired)
      (λ _. fail ApiError.expired_swap_offer) (update_unknown h s found)

module _ (lib : Library) (r : MakerExecuteRequest) (o : SwapString) (secret pk : Bytes) where
  -- The request is read: its swap string, its payment secret, and its public key.
  abbrev pub IsRead : Type 0
  IsRead =
      (from_str lib.codec r.swapstring ≡ Parsed.ok o)
      × (Option.bind (hex_str_to_vec r.payment_secret) to_array32 ≡ some secret)
      × (lib.pubkey_from_str r.taker_pubkey ≡ some pk)

  -- A request for an offer that has expired is refused; if the swap is known and the store takes the
  -- write, it is stored as expired, with the time, and the library is not called.
  pub maker_execute_expired :
      (d : SwapData) (s : UnlockedAppState)
      → IsRead
      → ltb o.swap_info.expiry (s.clock s.ticks) ≡ true
      → lookup o.payment_hash s.maker_swaps ≡ some d
      → s.write_fails ≡ false
      → maker_execute lib r s ≡ (
        err ApiError.expired_swap_offer,
        with_maker o.payment_hash
            (moved SwapStatus.expired (s.clock (s.ticks + 1)) d)
            (record s { ticks = s.ticks + 1 + 1 }),
      )
  unfolding maker_execute parsed_offer get_current_timestamp
  maker_execute_expired d s h late found w =
      rw (h.0, h.1, h.2, late)
        (bind-err (expire_offer o.payment_hash true) (λ _. execute_offer lib o secret pk)
          (expire_known o.payment_hash d (record s { ticks = s.ticks + 1 }) found w))

  -- A request for an offer that has expired and that the maker never made panics.
  pub maker_execute_expired_unknown :
      (s : UnlockedAppState)
      → IsRead
      → ltb o.swap_info.expiry (s.clock s.ticks) ≡ true
      → lookup o.payment_hash s.maker_swaps ≡ none
      → (maker_execute lib r s).0 ≡ panicked
  unfolding maker_execute parsed_offer get_current_timestamp
  maker_execute_expired_unknown s h late found =
      rw (h.0, h.1, h.2, late)
        (ap (λ (x : Outcome (Unit {0}) × UnlockedAppState). x.0)
          (bind-panicked (expire_offer o.payment_hash true) (λ _. execute_offer lib o secret pk)
            (expire_unknown o.payment_hash (record s { ticks = s.ticks + 1 }) found)))

-- What the library's answer to the payment makes of the swap.
abbrev pub Settled : Bytes → Option Bytes → Outcome (Unit {0}) × UnlockedAppState → Type 0
Settled h none (r, s) = (r ≡ ok tt) × (maker_status h s ≡ some SwapStatus.pending)
Settled h (some e) (r, s) =
    (r ≡ err (ApiError.failed_payment e)) × (maker_status h s ≡ some SwapStatus.failed)

stored :
    (h : Bytes) (d : SwapData) (s : UnlockedAppState)
    → maker_status h (with_maker h d s) ≡ some d.status
stored h d s = rw (lookup-insert h h d s.maker_swaps, bytes_eq_refl h) refl

settle_send-Settled :
    (h : Bytes) (answer : Option Bytes) (d : SwapData) (s : UnlockedAppState)
    → lookup h s.maker_swaps ≡ some d
    → d.status ≡ SwapStatus.pending
    → s.write_fails ≡ false
    → Settled h answer (settle_send h answer s)
unfolding settle_send
settle_send-Settled h none d s found p w = (refl, rw found (ap some p))
settle_send-Settled h (some e) d s found p w =
    rw
      (bind-ok (update_maker_swap_status h SwapStatus.failed)
        (λ _. fail (ApiError.failed_payment e))
        (update_maker_swap_status_lem h SwapStatus.failed s d found (λ q. cc) w))
      (
        refl,
        stored h (moved SwapStatus.failed (s.clock s.ticks) d) (record s { ticks = s.ticks + 1 }),
      )

abbrev start_and_pay : Bytes → Option Bytes → Action (Unit {0})
start_and_pay h answer = do
  update_maker_swap_status h SwapStatus.pending
  call (LibraryCall.send_spontaneous_payment h)
  settle_send h answer

start_and_pay-Settled :
    (h : Bytes) (answer : Option Bytes) (d : SwapData) (s : UnlockedAppState)
    → lookup h s.maker_swaps ≡ some d
    → s.write_fails ≡ false
    → Settled h answer (start_and_pay h answer s)
start_and_pay-Settled h answer d s found w =
    let d' = moved SwapStatus.pending (s.clock s.ticks) d in
    let s' = with_maker h d' (record s { ticks = s.ticks + 1 }) in
    rw
      (bind-ok (update_maker_swap_status h SwapStatus.pending)
        (λ _. call (LibraryCall.send_spontaneous_payment h) >> settle_send h answer)
        (update_maker_swap_status_lem h SwapStatus.pending s d found (λ q. cc) w))
      (settle_send-Settled h answer d'
        (record s' { calls = LibraryCall.send_spontaneous_payment h ∷ s'.calls })
        (rw (lookup-insert h h d' s.maker_swaps, bytes_eq_refl h) refl) refl w)

noted-Settled :
    (h : Bytes) (asset : Option Bytes) (qty : ℕ) (answer : Option Bytes) (d : SwapData)
    (s : UnlockedAppState)
    → lookup h s.maker_swaps ≡ some d
    → s.write_fails ≡ false
    → Settled h answer ((note_rgb_payment h asset qty >> start_and_pay h answer) s)
unfolding note_rgb_payment
noted-Settled h none qty answer d s found w = start_and_pay-Settled h answer d s found w
noted-Settled h (some a) qty answer d s found w =
    start_and_pay-Settled h answer d
      (record s { calls = LibraryCall.write_rgb_payment_info_file h a qty true false ∷ s.calls })
      found w

-- A swap payment whose fee is below the limit, for a known swap and with a store that takes writes,
-- is given to the library: if the library accepts it, the swap is stored as pending; if the library
-- refuses it, its error is returned and the swap is stored as failed, whatever its status was.
pub send_swap_settles :
    (lib : Library) (o : SwapString) (preimage : Bytes) (hops : List RouteHop) (d : SwapData)
    (s : UnlockedAppState)
    → leb max_swap_fee_msat (total_fee hops) ≡ false
    → lookup o.payment_hash s.maker_swaps ≡ some d
    → s.write_fails ≡ false
    → Settled o.payment_hash
        (lib.send_spontaneous_payment hops preimage o.payment_hash)
        (send_swap lib o preimage hops s)
unfolding send_swap
send_swap_settles lib o preimage hops d s cheap found w = rw cheap (
    noted-Settled o.payment_hash o.swap_info.to_asset o.swap_info.qty_to
      (lib.send_spontaneous_payment hops preimage o.payment_hash) d s found w)

-- A payment goes to the library only if its fee is below the limit: `send_swap` with a fee at the
-- limit or above changes nothing, in the maps, in the store or in the library, and says the fee.
pub send_swap_too_dear :
    (lib : Library) (o : SwapString) (preimage : Bytes) (hops : List RouteHop)
    (s : UnlockedAppState)
    → leb max_swap_fee_msat (total_fee hops) ≡ true
    → send_swap lib o preimage hops s
      ≡ (err (ApiError.failed_payment (str "Fee too high: " ++ show_nat (total_fee hops))), s)
unfolding send_swap
send_swap_too_dear lib o preimage hops s dear = rw dear refl
