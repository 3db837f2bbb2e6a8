-- ===== src/Routes/Runs.antt =====
-- The runs of the unlocked node: requests (src/routes.rs) and events of the Lightning library (src/ldk.rs), one after the other.
use mathlib.Core.Path.{subst}
use f1r3fly_rgb_lightning_no.Common.{ℕ, ◌≡◌, Bool, Option, none, some, List, Bytes}
use f1r3fly_rgb_lightning_no.Outcome.{Outcome, ok, err, panicked}
use f1r3fly_rgb_lightning_no.Swap.{Codec}
use f1r3fly_rgb_lightning_no.Node.{UnlockedAppState, Action}
use f1r3fly_rgb_lightning_no.Node.Invariant.{
  IsSound, Keeps, SoundAfter, bind-Keeps, gets-Keeps, or_fail-Keeps,
}
use f1r3fly_rgb_lightning_no.Node.Intercepted.{Crossing}
use f1r3fly_rgb_lightning_no.Node.Events.{PaymentFile, Event, handle_ldk_events}
use f1r3fly_rgb_lightning_no.Node.Events.Keeps.{handle_ldk_events-Keeps}
use f1r3fly_rgb_lightning_no.Peers.{PeerCodec, PeerStore}
use f1r3fly_rgb_lightning_no.Peers.Connections.{PeerManager}
use f1r3fly_rgb_lightning_no.Routes.Library.{Library}
use f1r3fly_rgb_lightning_no.Routes.Swaps.{list_swaps, get_swap}
use f1r3fly_rgb_lightning_no.Routes.Swaps.Reported.{map_swap-Keeps, list_swaps-Keeps}
use f1r3fly_rgb_lightning_no.Routes.Maker.{MakerInitRequest, maker_init}
use f1r3fly_rgb_lightning_no.Routes.Maker.Execute.{MakerExecuteRequest, maker_execute, taker}
use f1r3fly_rgb_lightning_no.Routes.Maker.Execute.Keeps.{
  maker_init-Keeps, maker_execute-Keeps, taker-Keeps,
}
use f1r3fly_rgb_lightning_no.Routes.Payments.{PaymentLibrary}
use f1r3fly_rgb_lightning_no.Routes.Payments.Keysend.{KeysendRequest, keysend}
use f1r3fly_rgb_lightning_no.Routes.Payments.Send.{SendPaymentRequest, send_payment}
use f1r3fly_rgb_lightning_no.Routes.Payments.Invoices.{LnInvoiceRequest, ln_invoice}
use f1r3fly_rgb_lightning_no.Routes.Payments.Keeps.{
  keysend-Keeps, send_payment-Keeps, ln_invoice-Keeps,
}
use f1r3fly_rgb_lightning_no.Routes.Channels.{ChannelLibrary}
use f1r3fly_rgb_lightning_no.Routes.Channels.Open.{OpenChannelRequest, Opened, open_channel}
use f1r3fly_rgb_lightning_no.Routes.Channels.Keeps.{SoundOpened, open_channel-SoundOpened}

-- A request or an event, with the libraries' answers to it.
pub data Request : Type 0 where
  for_maker_init : Library → MakerInitRequest → Request
  for_maker_execute : Library → MakerExecuteRequest → Request
  for_taker : Library → Bytes → Request
  for_list_swaps : Codec → Request
  for_get_swap : Codec → Bytes → Bool → Request
  for_send_payment : PaymentLibrary → SendPaymentRequest → Request
  for_keysend : PaymentLibrary → KeysendRequest → Request
  for_ln_invoice : PaymentLibrary → LnInvoiceRequest → Request
  for_open_channel :
      Library
      → PeerCodec
      → ChannelLibrary
      → ℕ
      → PeerManager
      → PeerStore
      → OpenChannelRequest
      → Request
  event : Crossing → List PaymentFile → Event → Request

-- The state after a step, unless it panicked.
abbrev left : {A : Type 0} → Outcome A × UnlockedAppState → Option UnlockedAppState
left (ok _, s) = some s
left (err _, s) = some s
left (panicked, s) = none

-- An opening that waits for its peer has changed nothing.
abbrev left_open : UnlockedAppState → Option Opened → Option UnlockedAppState
left_open s none = some s
left_open s (some (out, t, store)) = left (out, t)

-- The handler of each request.
abbrev pub serve : Request → UnlockedAppState → Option UnlockedAppState
serve (Request.for_maker_init lib r) s = left (maker_init lib r s)
serve (Request.for_maker_execute lib r) s = left (maker_execute lib r s)
serve (Request.for_taker lib text) s = left (taker lib text s)
serve (Request.for_list_swaps codec) s = left (list_swaps codec s)
serve (Request.for_get_swap codec hash is_taker) s = left (get_swap codec hash is_taker s)
serve (Request.for_send_payment lib r) s = left (send_payment lib r s)
serve (Request.for_keysend lib r) s = left (keysend lib r s)
serve (Request.for_ln_invoice lib r) s = left (ln_invoice lib r s)
serve (Request.for_open_channel lib codec channels fuel manager store r) s =
    left_open s (open_channel lib codec channels fuel manager r s store)
serve (Request.event lib files e) s = left (handle_ldk_events lib files e s)

-- The states that a run without a panic reaches.
pub data Reaches (s : UnlockedAppState) : UnlockedAppState → Type 0 where
  start : Reaches s s
  next : {t u : UnlockedAppState} → Reaches s t → (r : Request) → serve r t ≡ some u → Reaches s u

get_swap-Keeps :
    (codec : Codec) (hash : Bytes) (is_taker : Bool) → Keeps (get_swap codec hash is_taker)
unfolding get_swap
get_swap-Keeps codec hash is_taker =
    search (bind-Keeps, gets-Keeps, or_fail-Keeps, map_swap-Keeps) depth 8

abbrev IfSound : Option UnlockedAppState → Type 0
IfSound none = Unit
IfSound (some s) = IsSound s

left-IfSound : {A : Type 0} (r : Outcome A × UnlockedAppState) → SoundAfter r → IfSound (left r)
left-IfSound (ok _, s) h = h
left-IfSound (err _, s) h = h
left-IfSound (panicked, s) h = tt

left_open-IfSound :
    (s : UnlockedAppState) (o : Option Opened) → IsSound s → SoundOpened o → IfSound (left_open s o)
left_open-IfSound s none h k = h
left_open-IfSound s (some (out, t, store)) h k = left-IfSound (out, t) k

kept :
    {A : Type 0} (m : Action A) (s : UnlockedAppState) → Keeps m → IsSound s → IfSound (left (m s))
kept m s k h = left-IfSound (m s) (k.apply s h)

serve-IfSound : (r : Request) (s : UnlockedAppState) → IsSound s → IfSound (serve r s)
serve-IfSound (Request.for_maker_init lib r) s h =
    kept (maker_init lib r) s (maker_init-Keeps lib r) h
serve-IfSound (Request.for_maker_execute lib r) s h =
    kept (maker_execute lib r) s (maker_execute-Keeps lib r) h
serve-IfSound (Request.for_taker lib text) s h = kept (taker lib text) s (taker-Keeps lib text) h
serve-IfSound (Request.for_list_swaps codec) s h =
    kept (list_swaps codec) s (list_swaps-Keeps codec) h
serve-IfSound (Request.for_get_swap codec hash is_taker) s h =
    kept (get_swap codec hash is_taker) s (get_swap-Keeps codec hash is_taker) h
serve-IfSound (Request.for_send_payment lib r) s h =
    kept (send_payment lib r) s (send_payment-Keeps lib r) h
serve-IfSound (Request.for_keysend lib r) s h = kept (keysend lib r) s (keysend-Keeps lib r) h
serve-IfSound (Request.for_ln_invoice lib r) s h =
    kept (ln_invoice lib r) s (ln_invoice-Keeps lib r) h
serve-IfSound (Request.for_open_channel lib codec channels fuel manager store r) s h =
    left_open-IfSound s (open_channel lib codec channels fuel manager r s store) h
      (open_channel-SoundOpened lib codec channels fuel manager r s store h)
serve-IfSound (Request.event lib files e) s h =
    kept (handle_ldk_events lib files e) s (handle_ldk_events-Keeps lib files e) h

-- Whatever requests and events the node serves without a panic, from a state in which the store holds what the maps hold and
-- every pending swap has its start, it reaches only such states.
pub Reaches-IsSound : (s t : UnlockedAppState) → IsSound s → Reaches s t → IsSound t
Reaches-IsSound s _ h Reaches.start = h
Reaches-IsSound s u h (Reaches.next {t} before r e) =
    subst IfSound e (serve-IfSound r t (Reaches-IsSound s t h before))
