-- ===== src/Node/Funding/Order.antt =====
-- The order of the steps that fund a channel.
use f1r3fly_rgb_lightning_no.Common.{
  ℕ, ◌≡◌, refl, ◌∙◌, ap, Bool, true, false, ◌&&◌, Option, none, some, List, [], ◌∷◌, ◌++◌, Bytes,
}
use f1r3fly_rgb_lightning_no.Outcome.{Outcome, ok, err, panicked}
use f1r3fly_rgb_lightning_no.Node.State.{UnlockedAppState, LibraryCall}
use f1r3fly_rgb_lightning_no.Node.Monad.{Action, unwrap, call, ◌>>=◌, ◌>>◌}
use f1r3fly_rgb_lightning_no.Node.Funding.{
  AssetSchema, Handled, Funding, check_schema, expect_ok, begin_funding, answer_registered,
  register_funding, answer_posted, publish_asset, publish_funding, fund_channel, unlock_rgb_send,
}

-- The calls that start the transaction, and those that publish the asset, the latest first.
abbrev pub beginning : Funding → Option (Bytes × ℕ) → LibraryCall
beginning f none = LibraryCall.rgb_send_btc_begin f.channel_value_satoshis
beginning f (some (contract, amount)) = LibraryCall.rgb_send_begin contract amount

abbrev pub registration : Funding → LibraryCall
registration f =
    LibraryCall.funding_transaction_generated f.temporary_channel_id f.counterparty_node_id

abbrev pub publication : Bytes → Option (Bytes × ℕ) → List LibraryCall
publication txid none = []
publication txid (some _) =
    LibraryCall.rgb_post_consignment txid
    ∷ LibraryCall.write_temp_rgb_info txid
    ∷ LibraryCall.rgb_upsert_witness txid
    ∷ []

module _ (f : Funding) (s : UnlockedAppState) where
  -- The calls before the transaction is given back.
  abbrev pub prepared : Bytes → List LibraryCall
  prepared txid =
      publication txid f.rgb_channel_info
      ++ (LibraryCall.write_psbt txid ∷ beginning f f.rgb_channel_info ∷ s.calls)

  pub record IsRegistered (t : UnlockedAppState) : Type 0 where
    pub txid : Bytes
    pub signed : f.funding_txid ≡ some txid
    pub called : t.calls ≡ registration f ∷ prepared txid
    pub lock : t.rgb_send_lock ≡ (s.rgb_send_lock && f.is_registered)

  pub record IsPostponed (t : UnlockedAppState) : Type 0 where
    pub txid : Bytes
    pub called : t.calls ≡ prepared txid
    pub unposted : f.consignment_is_posted ≡ false
    pub lock : t.rgb_send_lock ≡ s.rgb_send_lock

  abbrev pub InOrder : Outcome Handled × UnlockedAppState → Type 0
  InOrder (ok Handled.done, t) = IsRegistered t
  InOrder (ok Handled.replay, t) = IsPostponed t
  InOrder (err _, t) = ⊥
  InOrder (panicked, t) = Unit

and_true : (b : Bool) → b ≡ (b && true)
and_true true = refl
and_true false = refl

and_false : (b : Bool) → false ≡ (b && false)
and_false true = refl
and_false false = refl

abbrev after_signing : Funding → Option (Bytes × ℕ) → Bytes → Action Handled
after_signing f o txid = do
  call (LibraryCall.write_psbt txid)
  expect_ok f.psbt_is_written
  publish_asset f txid o (register_funding f)

abbrev post_consignment : Funding → Bytes → Action Handled
post_consignment f txid = do
  call (LibraryCall.rgb_post_consignment txid)
  answer_posted f.consignment_is_posted (register_funding f)

abbrev after_info : Funding → Bytes → Action Handled
after_info f txid = expect_ok f.endpoint_parses >> post_consignment f txid

abbrev after_upsert : Funding → Bytes → Action Handled
after_upsert f txid = do
  call (LibraryCall.write_temp_rgb_info txid)
  expect_ok f.info_is_written
  after_info f txid

module _ (f : Funding) (s : UnlockedAppState) where
  -- Nothing is asked of a panic.
  expected :
      (b : Bool) (k : Action Handled) (t : UnlockedAppState)
      → InOrder f s (k t)
      → InOrder f s ((expect_ok b >> k) t)
  expected true k t h = h
  expected false k t h = tt

  -- A state that differs from the first in its calls.
  record Ready (txid : Bytes) (t : UnlockedAppState) : Type 0 where
    called : t.calls ≡ prepared f s txid
    lock : t.rgb_send_lock ≡ s.rgb_send_lock

  answered-InOrder :
      (b : Bool) (txid : Bytes) (t : UnlockedAppState)
      → f.is_registered ≡ b
      → f.funding_txid ≡ some txid
      → Ready txid t
      → InOrder f s (answer_registered b (record t { calls = registration f ∷ t.calls }))
  unfolding answer_registered unlock_rgb_send
  answered-InOrder true txid t answer signed ready = record {
    txid = txid;
    signed = signed;
    called = ap (λ cs. registration f ∷ cs) ready.called;
    lock = ready.lock ∙ rw answer (and_true s.rgb_send_lock);
  }
  answered-InOrder false txid t answer signed ready = record {
    txid = txid;
    signed = signed;
    called = ap (λ cs. registration f ∷ cs) ready.called;
    lock = rw answer (and_false s.rgb_send_lock);
  }

  posted-InOrder :
      (b : Bool) (txid : Bytes) (t : UnlockedAppState)
      → f.consignment_is_posted ≡ b
      → f.funding_txid ≡ some txid
      → Ready txid t
      → InOrder f s (answer_posted b (register_funding f) t)
  unfolding answer_posted register_funding
  posted-InOrder true txid t answer signed ready =
      answered-InOrder f.is_registered txid t refl signed ready
  posted-InOrder false txid t answer signed ready = record {
    txid = txid;
    called = ready.called;
    unposted = answer;
    lock = ready.lock;
  }

  published-InOrder :
      (txid : Bytes) (o : Option (Bytes × ℕ)) (t : UnlockedAppState)
      → f.rgb_channel_info ≡ o
      → f.funding_txid ≡ some txid
      → t.calls ≡ LibraryCall.write_psbt txid ∷ beginning f o ∷ s.calls
      → t.rgb_send_lock ≡ s.rgb_send_lock
      → InOrder f s (publish_asset f txid o (register_funding f) t)
  unfolding publish_asset register_funding
  published-InOrder txid none t info signed called lock =
      answered-InOrder f.is_registered txid t refl signed
        (record { called = called ∙ rw info refl; lock = lock })
  published-InOrder txid (some (c, n)) t info signed called lock =
      expected f.witness_is_upserted (after_upsert f txid)
        (record t { calls = LibraryCall.rgb_upsert_witness txid ∷ t.calls })
        (expected f.info_is_written (after_info f txid)
          (record t {
            calls =
                LibraryCall.write_temp_rgb_info txid
                ∷ LibraryCall.rgb_upsert_witness txid
                ∷ t.calls;
          })
          (expected f.endpoint_parses (post_consignment f txid)
            (record t {
              calls =
                  LibraryCall.write_temp_rgb_info txid
                  ∷ LibraryCall.rgb_upsert_witness txid
                  ∷ t.calls;
            })
            (posted-InOrder f.consignment_is_posted txid
              (record t { calls = publication txid (some (c, n)) ++ t.calls }) refl signed
              (record {
                called = ap (λ cs. publication txid (some (c, n)) ++ cs) called ∙ rw info refl;
                lock = lock;
              }))))

  signed-InOrder :
      (x : Option Bytes) (o : Option (Bytes × ℕ)) (t : UnlockedAppState)
      → f.funding_txid ≡ x
      → f.rgb_channel_info ≡ o
      → t.calls ≡ beginning f o ∷ s.calls
      → t.rgb_send_lock ≡ s.rgb_send_lock
      → InOrder f s ((unwrap x >>= after_signing f o) t)
  signed-InOrder none o t signed info called lock = tt
  signed-InOrder (some txid) o t signed info called lock =
      expected f.psbt_is_written (publish_asset f txid o (register_funding f))
        (record t { calls = LibraryCall.write_psbt txid ∷ t.calls })
        (published-InOrder txid o (record t { calls = LibraryCall.write_psbt txid ∷ t.calls }) info
          signed (ap (λ cs. LibraryCall.write_psbt txid ∷ cs) called) lock)

  begun-InOrder :
      (o : Option (Bytes × ℕ))
      → f.rgb_channel_info ≡ o
      → InOrder f s (
          (expect_ok f.begins >> publish_funding f o)
            (record s { calls = beginning f o ∷ s.calls }))
  unfolding publish_funding
  begun-InOrder o info =
      expected f.begins (publish_funding f o) (record s { calls = beginning f o ∷ s.calls })
        (signed-InOrder f.funding_txid o (record s { calls = beginning f o ∷ s.calls }) refl info
          refl refl)

  schema-InOrder :
      (x : AssetSchema) (m : Action (Unit {0})) (k : Action Handled)
      → InOrder f s ((m >> k) s)
      → InOrder f s (((check_schema x >> m) >> k) s)
  unfolding check_schema
  schema-InOrder AssetSchema.nia m k h = h
  schema-InOrder AssetSchema.cfa m k h = h
  schema-InOrder AssetSchema.uda m k h = h
  schema-InOrder AssetSchema.ifa m k h = tt

  begin_funding-InOrder :
      (o : Option (Bytes × ℕ))
      → f.rgb_channel_info ≡ o
      → InOrder f s ((begin_funding f o >> publish_funding f o) s)
  unfolding begin_funding
  begin_funding-InOrder none info = begun-InOrder none info
  begin_funding-InOrder (some (c, n)) info =
      schema-InOrder f.schema (call (LibraryCall.rgb_send_begin c n) >> expect_ok f.begins)
        (publish_funding f (some (c, n))) (begun-InOrder (some (c, n)) info)

  -- The funding of a channel that is done has started its transaction, written it down and, for a colored channel, published
  -- its witness and posted its consignment, before the transaction is given to the Lightning library, each once and in this
  -- order; the lock is released if that library refuses it. A replay is asked for only when the consignment could not be
  -- posted, and then the transaction is not given. No error is returned.
  pub fund_channel-InOrder : InOrder f s (fund_channel f s)
  unfolding fund_channel
  fund_channel-InOrder =
      expected f.is_segwit
        (begin_funding f f.rgb_channel_info >> publish_funding f f.rgb_channel_info) s
        (begin_funding-InOrder f.rgb_channel_info refl)
