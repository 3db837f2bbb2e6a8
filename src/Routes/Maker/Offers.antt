-- ===== src/Routes/Maker/Offers.antt =====
-- `maker_init`: what an offer that is made contains, and that the taker's parser reads it back.
use f1r3fly_rgb_lightning_no.Common.{
  ℕ, ◌+◌, ◌%◌, ◌<◌, ◌≡◌, refl, ap, ◌∙◌, ◌≢◌, false, ◌&&◌, Option, none, some, Bytes, str, lookup,
  option_bytes_eq, option_bytes_eq_iff, is_none, ltb, arith,
}
use f1r3fly_rgb_lightning_no.Error.{ApiError}
use f1r3fly_rgb_lightning_no.Hex.{hex_str}
use f1r3fly_rgb_lightning_no.Decimal.{u64_bound}
use f1r3fly_rgb_lightning_no.Swap.{SwapInfo, from_swap_info, create_from_swap_info, to_string}
use f1r3fly_rgb_lightning_no.Node.{
  UnlockedAppState, pure, unwrap, or_fail, fail_if, ◌>>=◌, get_current_timestamp,
}
use f1r3fly_rgb_lightning_no.Node.Ensures.{
  Ensures, Leads, fail_if-Leads, unwrap-Leads, bind-Ensures, bind-Leads, then-Ensures,
  fail_if-Ensures, or_fail-Ensures,
}
use f1r3fly_rgb_lightning_no.Node.Swaps.{add_maker_swap}
use f1r3fly_rgb_lightning_no.Routes.Library.{Library}
use f1r3fly_rgb_lightning_no.Routes.Amounts.{wrapping_add, dust_limit_msat}
use f1r3fly_rgb_lightning_no.Routes.Maker.Timed.{
  Timed, ReadNow, read_now, read_requested, add_maker_swap-Leads,
}
use f1r3fly_rgb_lightning_no.Routes.Maker.{
  MakerInitRequest, MakerInitResponse, parse_asset, check_balance, publish_offer, make_offer,
  maker_init, get_max_local_rgb_amount,
}

module _ (lib : Library) where
  -- The asset id of a request stands for an asset.
  abbrev Denotes : Option Bytes → Option Bytes → Type 0
  Denotes none asset = asset ≡ none
  Denotes (some text) asset =
      (c : Bytes) × (lib.codec.contract_from_str text ≡ some c) × (asset ≡ some c)

  -- A channel of the node holds as much of the asset.
  abbrev pub Affords : Option Bytes → ℕ → Type 0
  Affords none qty = Unit
  Affords (some asset) qty = ltb (get_max_local_rgb_amount lib asset lib.list_channels) qty ≡ false

  -- An offer for a request: its terms are those of the request, its assets differ, the node can afford
  -- it, and it is stored, not started yet, under the payment hash.
  pub record Offer (r : MakerInitRequest) (a : MakerInitResponse) (s : UnlockedAppState)
      : Type 0 where
    pub info : SwapInfo
    pub hash : Bytes
    pub secret : Bytes
    pub qty_from : info.qty_from ≡ r.qty_from
    pub qty_to : info.qty_to ≡ r.qty_to
    pub expiry_lt : info.expiry < u64_bound
    pub from_asset : Denotes r.from_asset info.from_asset
    pub to_asset : Denotes r.to_asset info.to_asset
    pub distinct : info.from_asset ≢ info.to_asset
    pub affords : Affords info.to_asset r.qty_to
    pub created :
        lib.create_inbound_payment (some dust_limit_msat) r.timeout_sec ≡ some (hash, secret)
    pub payment_hash : a.payment_hash ≡ hex_str hash
    pub payment_secret : a.payment_secret ≡ hex_str secret
    pub swapstring : a.swapstring ≡ to_string lib.codec (from_swap_info info hash)
    pub requested_at : ℕ
    pub stored : lookup hash s.maker_swaps ≡ some (create_from_swap_info requested_at info)

  -- An offer that was just made: it expires the requested time after the first of the last two readings of the clock, added
  -- in 64 bits, and was requested at the second.
  pub record NewOffer (r : MakerInitRequest) (a : MakerInitResponse) (s : UnlockedAppState)
      : Type 0 where
    pub offer : Offer r a s
    pub reading : ℕ
    pub last_readings : s.ticks ≡ reading + 2
    pub expiry : offer.info.expiry ≡ (s.clock reading + r.timeout_sec) % u64_bound
    pub requested : offer.requested_at ≡ s.clock (reading + 1)

  parse_asset-Ensures : (o : Option Bytes) → Ensures (parse_asset lib o) (λ a _. Denotes o a)
  unfolding parse_asset
  parse_asset-Ensures none = record { apply = λ s. refl }
  parse_asset-Ensures (some text) =
      bind-Ensures (λ c. lib.codec.contract_from_str text ≡ some c)
        (or_fail (lib.codec.contract_from_str text) (ApiError.invalid_asset_id text))
        (λ c. pure (some c)) (or_fail-Ensures _ _) (λ c e. record { apply = λ s. (c, e, refl) })

  check_balance-Leads :
      (R : UnlockedAppState → Type 0) (o : Option Bytes) (qty : ℕ)
      → Leads R (check_balance lib o qty) (λ _ s. Affords o qty × R s)
  unfolding check_balance
  check_balance-Leads R none qty = record { apply = λ s h. (tt, h) }
  check_balance-Leads R (some a) qty = fail_if-Leads R _ _

  -- What is known when the offer is published.
  record Checked (r : MakerInitRequest) (now : ℕ) (info : SwapInfo) : Type 0 where
    qty_from : info.qty_from ≡ r.qty_from
    qty_to : info.qty_to ≡ r.qty_to
    expiry : info.expiry ≡ (now + r.timeout_sec) % u64_bound
    from_asset : Denotes r.from_asset info.from_asset
    to_asset : Denotes r.to_asset info.to_asset
    distinct : info.from_asset ≢ info.to_asset

  -- The stored offer, from what its steps have given.
  published :
      (r : MakerInitRequest) (now requested : ℕ) (info : SwapInfo) (p : Bytes × Bytes)
      (s : UnlockedAppState)
      → Checked r now info
      → Affords info.to_asset r.qty_to
      → lib.create_inbound_payment (some dust_limit_msat) r.timeout_sec ≡ some p
      → lookup p.0 s.maker_swaps ≡ some (create_from_swap_info requested info)
      → Timed now requested s
      → NewOffer r
          (record {
            payment_hash = hex_str p.0;
            payment_secret = hex_str p.1;
            swapstring = to_string lib.codec (from_swap_info info p.0);
          })
          s
  published r now requested info p s c paid e stored timed = record {
    offer = record {
      info = info;
      hash = p.0;
      secret = p.1;
      qty_from = c.qty_from;
      qty_to = c.qty_to;
      expiry_lt = (let q = c.expiry in omega arith);
      from_asset = c.from_asset;
      to_asset = c.to_asset;
      distinct = c.distinct;
      affords = paid;
      created = e;
      payment_hash = refl;
      payment_secret = refl;
      swapstring = refl;
      requested_at = requested;
      stored = stored;
    };
    reading = timed.reading;
    last_readings = timed.last_readings;
    expiry = c.expiry ∙ ap (λ n. (n + r.timeout_sec) % u64_bound) timed.now_read;
    requested = timed.requested_read;
  }

  -- The answer for the payment that the library gave.
  abbrev answer_for : SwapInfo → Bytes × Bytes → MakerInitResponse
  answer_for info p = record {
    payment_hash = hex_str p.0;
    payment_secret = hex_str p.1;
    swapstring = to_string lib.codec (from_swap_info info p.0);
  }

  store_offer-Leads :
      (r : MakerInitRequest) (now requested : ℕ) (info : SwapInfo) (p : Bytes × Bytes)
      → Checked r now info
      → Affords info.to_asset r.qty_to
      → Leads
          (λ s.
            (lib.create_inbound_payment (some dust_limit_msat) r.timeout_sec ≡ some p)
            × Timed now requested s)
          (add_maker_swap p.0 (create_from_swap_info requested info)
            >>= (λ _. pure (answer_for info p)))
          (NewOffer r)
  store_offer-Leads r now requested info p c paid = record {
    apply = λ s h.
        (bind-Leads {P = NewOffer r}
            (λ _ t.
              (lookup p.0 t.maker_swaps ≡ some (create_from_swap_info requested info))
              × Timed now requested t)
            (add_maker_swap p.0 (create_from_swap_info requested info))
            (λ _. pure (answer_for info p))
            (add_maker_swap-Leads now requested p.0 (create_from_swap_info requested info))
            (λ _. record {
              apply = λ t k. published r now requested info p t c paid h.0 k.0 k.1;
            })).apply
          s h.1;
  }

  publish_offer-Leads :
      (r : MakerInitRequest) (now requested : ℕ) (info : SwapInfo)
      → Checked r now info
      → Affords info.to_asset r.qty_to
      → Leads
          (Timed now requested)
          (publish_offer lib info (create_from_swap_info requested info) r.timeout_sec)
          (NewOffer r)
  unfolding publish_offer
  publish_offer-Leads r now requested info c paid =
      bind-Leads
        (λ p s.
          (lib.create_inbound_payment (some dust_limit_msat) r.timeout_sec ≡ some p)
          × Timed now requested s)
        (unwrap (lib.create_inbound_payment (some dust_limit_msat) r.timeout_sec))
        (λ p.
          add_maker_swap p.0 (create_from_swap_info requested info)
          >>= (λ _. pure (answer_for info p)))
        (unwrap-Leads (Timed now requested) _)
        (λ p. store_offer-Leads r now requested info p c paid)

  different : (a b : Option Bytes) → option_bytes_eq a b ≡ false → a ≢ b
  different a b e = ground (arith, option_bytes_eq_iff a b)

  wrapping_add_lem : (a b : ℕ) → wrapping_add a b ≡ (a + b) % u64_bound
  unfolding wrapping_add
  wrapping_add_lem a b = refl

  -- A publication from what the check of the balance has given.
  paid-Leads :
      (r : MakerInitRequest) (now requested : ℕ) (info : SwapInfo)
      → Checked r now info
      → Leads
          (λ s. Affords info.to_asset r.qty_to × Timed now requested s)
          (publish_offer lib info (create_from_swap_info requested info) r.timeout_sec)
          (NewOffer r)
  paid-Leads r now requested info c = record {
    apply = λ s h. (publish_offer-Leads r now requested info c h.0).apply s h.1;
  }

  make_offer-Ensures :
      (r : MakerInitRequest) (from to : Option Bytes)
      → Denotes r.from_asset from
      → Denotes r.to_asset to
      → Ensures (make_offer lib r from to) (NewOffer r)
  unfolding make_offer
  make_offer-Ensures r from to df dt =
      bind-Ensures (λ _. (is_none from && is_none to) ≡ false)
        (fail_if (is_none from && is_none to)
          (ApiError.invalid_swap (str "cannot swap BTC for BTC")))
        _ (fail_if-Ensures _ _)
        λ _ _.
          bind-Ensures (λ _. option_bytes_eq from to ≡ false)
            (fail_if (option_bytes_eq from to)
              (ApiError.invalid_swap (str "cannot swap the same asset")))
            _ (fail_if-Ensures _ _)
            λ _ ne. then-Ensures ReadNow get_current_timestamp _ read_now λ now.
              bind-Leads (Timed now) get_current_timestamp _ (read_requested now) λ requested.
                bind-Leads (λ _ s. Affords to r.qty_to × Timed now requested s)
                  (check_balance lib to r.qty_to) _
                  (check_balance-Leads (Timed now requested) to r.qty_to)
                  λ _.
                    paid-Leads r now requested
                      (record {
                        qty_from = r.qty_from;
                        qty_to = r.qty_to;
                        from_asset = from;
                        to_asset = to;
                        expiry = wrapping_add now r.timeout_sec;
                      })
                      (record {
                        qty_from = refl;
                        qty_to = refl;
                        expiry = wrapping_add_lem now r.timeout_sec;
                        from_asset = df;
                        to_asset = dt;
                        distinct = different from to ne;
                      })

  -- Whenever `maker_init` returns, its response is an offer for the request: the swap string is the
  -- print of the terms of the request under the payment hash that the library gave, it expires the requested time after
  -- the reading of the clock (added in 64 bits), the assets differ, the node can afford it, and it is stored under that
  -- hash, requested at the next reading and not started yet.
  pub maker_init_offer : (r : MakerInitRequest) → Ensures (maker_init lib r) (NewOffer r)
  unfolding maker_init
  maker_init_offer r =
      bind-Ensures (Denotes r.from_asset) (parse_asset lib r.from_asset)
        (λ from. parse_asset lib r.to_asset >>= (λ to. make_offer lib r from to))
        (parse_asset-Ensures _)
        λ from df.
          bind-Ensures (Denotes r.to_asset) (parse_asset lib r.to_asset)
            (λ to. make_offer lib r from to) (parse_asset-Ensures _)
            λ to dt. make_offer-Ensures r from to df dt
