-- ===== src/Routes/Maker/Execute/Keeps.antt =====
-- The swap handlers that write to the maps: `maker_init`, `maker_execute` and `taker`.
use f1r3fly_rgb_lightning_no.Common.{ℕ, Bool, true, false, Option, none, some, List, Bytes}
use f1r3fly_rgb_lightning_no.Swap.{SwapInfo, SwapString, Parsed, create_from_swap_info}
use f1r3fly_rgb_lightning_no.Node.Invariant.{
  Keeps, bind-Keeps, pure-Keeps, fail-Keeps, unwrap-Keeps, or_fail-Keeps, fail_if-Keeps, call-Keeps,
  get_current_timestamp-Keeps,
}
use f1r3fly_rgb_lightning_no.Node.Swaps.Status.{
  update_maker_swap_status-Keeps, add_taker_swap-Keeps, add_maker_swap-Keeps,
}
use f1r3fly_rgb_lightning_no.Node.Swaps.{add_taker_swap}
use f1r3fly_rgb_lightning_no.Routes.Maker.{
  MakerInitRequest, parse_asset, check_balance, publish_offer, make_offer, maker_init,
}
use f1r3fly_rgb_lightning_no.Routes.Library.{Library, RouteHop, Route}
use f1r3fly_rgb_lightning_no.Routes.Maker.Execute.{
  MakerExecuteRequest, parsed_offer, expire_offer, both_legs, swap_path, note_rgb_payment,
  settle_send, send_swap, execute_offer, maker_execute, taker,
}

parsed_offer-Keeps : (t : Bytes) (p : Parsed) → Keeps (parsed_offer t p)
unfolding parsed_offer
parsed_offer-Keeps t (Parsed.ok s) = pure-Keeps s
parsed_offer-Keeps t (Parsed.err e) = fail-Keeps _

expire_offer-Keeps : (h : Bytes) (b : Bool) → Keeps (expire_offer h b)
unfolding expire_offer
expire_offer-Keeps h true = bind-Keeps _ _ (update_maker_swap_status-Keeps h _) (λ _. fail-Keeps _)
expire_offer-Keeps h false = pure-Keeps tt

both_legs-Keeps : (f s : Option Route) → Keeps (both_legs f s)
unfolding both_legs
both_legs-Keeps (some f) (some s) = pure-Keeps (f, s)
both_legs-Keeps _ _ = fail-Keeps _

ruleset keep_rules = (
  bind-Keeps, pure-Keeps, fail-Keeps, unwrap-Keeps, or_fail-Keeps, fail_if-Keeps, call-Keeps,
  get_current_timestamp-Keeps, update_maker_swap_status-Keeps, parsed_offer-Keeps,
  expire_offer-Keeps, both_legs-Keeps,
)

swap_path-Keeps : (n : ℕ) (i : SwapInfo) (f s : Route) → Keeps (swap_path n i f s)
unfolding swap_path
swap_path-Keeps n i f s = search keep_rules depth 12

note_rgb_payment-Keeps : (h : Bytes) (o : Option Bytes) (n : ℕ) → Keeps (note_rgb_payment h o n)
unfolding note_rgb_payment
note_rgb_payment-Keeps h none n = pure-Keeps tt
note_rgb_payment-Keeps h (some asset) n = call-Keeps _

settle_send-Keeps : (h : Bytes) (r : Option Bytes) → Keeps (settle_send h r)
unfolding settle_send
settle_send-Keeps h none = pure-Keeps tt
settle_send-Keeps h (some e) =
    bind-Keeps _ _ (update_maker_swap_status-Keeps h _) (λ _. fail-Keeps _)

parse_asset-Keeps : (lib : Library) (o : Option Bytes) → Keeps (parse_asset lib o)
unfolding parse_asset
parse_asset-Keeps lib none = pure-Keeps none
parse_asset-Keeps lib (some a) = bind-Keeps _ _ (or_fail-Keeps _ _) (λ c. pure-Keeps _)

check_balance-Keeps : (lib : Library) (o : Option Bytes) (n : ℕ) → Keeps (check_balance lib o n)
unfolding check_balance
check_balance-Keeps lib none n = pure-Keeps tt
check_balance-Keeps lib (some a) n = fail_if-Keeps _ _

ruleset route_rules = (
  keep_rules, swap_path-Keeps, note_rgb_payment-Keeps, settle_send-Keeps, parse_asset-Keeps,
  check_balance-Keeps,
)

send_swap-Keeps :
    (lib : Library) (s : SwapString) (p : Bytes) (hops : List RouteHop)
    → Keeps (send_swap lib s p hops)
unfolding send_swap
send_swap-Keeps lib s p hops = search route_rules depth 16

-- `maker_execute`, whatever the library answers and on every path that does not panic, keeps the
-- invariant: the store holds what the maps hold, and a pending swap has its start.
pub maker_execute-Keeps : (lib : Library) (r : MakerExecuteRequest) → Keeps (maker_execute lib r)
unfolding maker_execute execute_offer
maker_execute-Keeps lib r = search (send_swap-Keeps, route_rules) depth 40

added_taker-Keeps :
    (h : Bytes) (i : SwapInfo) (t : ℕ) → Keeps (add_taker_swap h (create_from_swap_info t i))
unfolding create_from_swap_info
added_taker-Keeps h i t = add_taker_swap-Keeps h _ tt

-- `taker`, whatever the library answers and on every path that does not panic, keeps the invariant.
pub taker-Keeps : (lib : Library) (t : Bytes) → Keeps (taker lib t)
unfolding taker
taker-Keeps lib t = search (added_taker-Keeps, route_rules) depth 40

publish_offer-Keeps :
    (lib : Library) (i : SwapInfo) (t n : ℕ)
    → Keeps (publish_offer lib i (create_from_swap_info t i) n)
unfolding publish_offer create_from_swap_info
publish_offer-Keeps lib i t n =
    bind-Keeps _ _ (unwrap-Keeps _)
      (λ p. bind-Keeps _ _ (add_maker_swap-Keeps p.0 _ tt) (λ _. pure-Keeps _))

-- `maker_init`, whatever the library answers and on every path that does not panic, keeps the
-- invariant.
pub maker_init-Keeps : (lib : Library) (r : MakerInitRequest) → Keeps (maker_init lib r)
unfolding maker_init make_offer
maker_init-Keeps lib r = search (publish_offer-Keeps, route_rules) depth 40
