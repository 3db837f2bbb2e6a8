-- ===== src/Node/Funding/Keeps.antt =====
-- The funding of a channel keeps the invariant of the unlocked node.
use f1r3fly_rgb_lightning_no.Common.{ℕ, Bool, true, false, Option, none, some, Bytes, arith}
use f1r3fly_rgb_lightning_no.Node.Monad.{Action}
use f1r3fly_rgb_lightning_no.Node.Invariant.{
  Keeps, bind-Keeps, pure-Keeps, panic-Keeps, unwrap-Keeps, call-Keeps,
}
use f1r3fly_rgb_lightning_no.Node.Funding.{
  AssetSchema, Handled, Funding, check_schema, expect_ok, begin_funding, answer_registered,
  register_funding, answer_posted, publish_asset, publish_funding, fund_channel, unlock_rgb_send,
}

pub unlock_rgb_send-Keeps : Keeps unlock_rgb_send
unfolding unlock_rgb_send
unlock_rgb_send-Keeps = record { apply = λ s h. ground arith }

ruleset funding_rules =
    (bind-Keeps, pure-Keeps, panic-Keeps, unwrap-Keeps, call-Keeps, unlock_rgb_send-Keeps)

expect_ok-Keeps : (b : Bool) → Keeps (expect_ok b)
expect_ok-Keeps true = pure-Keeps tt
expect_ok-Keeps false = panic-Keeps

pub check_schema-Keeps : (x : AssetSchema) → Keeps (check_schema x)
unfolding check_schema
check_schema-Keeps AssetSchema.nia = pure-Keeps tt
check_schema-Keeps AssetSchema.cfa = pure-Keeps tt
check_schema-Keeps AssetSchema.uda = pure-Keeps tt
check_schema-Keeps AssetSchema.ifa = panic-Keeps

begin_funding-Keeps : (f : Funding) (o : Option (Bytes × ℕ)) → Keeps (begin_funding f o)
unfolding begin_funding
begin_funding-Keeps f none = search (expect_ok-Keeps, funding_rules) depth 4
begin_funding-Keeps f (some (c, n)) =
    search (check_schema-Keeps, expect_ok-Keeps, funding_rules) depth 6

answer_registered-Keeps : (b : Bool) → Keeps (answer_registered b)
unfolding answer_registered
answer_registered-Keeps true = pure-Keeps _
answer_registered-Keeps false = search funding_rules depth 4

answer_posted-Keeps : (b : Bool) (k : Action Handled) → Keeps k → Keeps (answer_posted b k)
unfolding answer_posted
answer_posted-Keeps true k h = h
answer_posted-Keeps false k h = pure-Keeps _

publish_asset-Keeps :
    (f : Funding) (id : Bytes) (o : Option (Bytes × ℕ)) (k : Action Handled)
    → Keeps k
    → Keeps (publish_asset f id o k)
unfolding publish_asset
publish_asset-Keeps f id none k h = h
publish_asset-Keeps f id (some (c, n)) k h =
    search (answer_posted-Keeps, expect_ok-Keeps, funding_rules) depth 14

register_funding-Keeps : (f : Funding) → Keeps (register_funding f)
unfolding register_funding
register_funding-Keeps f = search (answer_registered-Keeps, funding_rules) depth 4

publish_funding-Keeps : (f : Funding) (o : Option (Bytes × ℕ)) → Keeps (publish_funding f o)
unfolding publish_funding
publish_funding-Keeps f o =
    search (publish_asset-Keeps, register_funding-Keeps, expect_ok-Keeps, funding_rules) depth 10

pub fund_channel-Keeps : (f : Funding) → Keeps (fund_channel f)
unfolding fund_channel
fund_channel-Keeps f =
    search (begin_funding-Keeps, publish_funding-Keeps, expect_ok-Keeps, bind-Keeps) depth 6
