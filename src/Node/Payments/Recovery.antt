-- ===== src/Node/Payments/Recovery.antt =====
-- `fail_outbound_pending_payments`: after a restart, the payments that the Lightning library no longer
-- knows are failed, and no other payment changes.
use mathlib.Core.Option
use f1r3fly_rgb_lightning_no.Common.{
  ℕ, ◌+◌, ◌≡◌, refl, ◌∙◌, sym, inl, inr, Bool, true, false, ◌&&◌, ◌||◌, not, some, List, [], ◌∷◌,
  Bytes, Map, lookup, bytes_eq, bytes_eq_iff, bytes_eq_refl, ap, contains, if◌then◌else◌,
  Bool-cases,
}
use f1r3fly_rgb_lightning_no.Outcome.{ok}
use f1r3fly_rgb_lightning_no.Node.State.{HtlcStatus, PaymentInfo, UnlockedAppState}
use f1r3fly_rgb_lightning_no.Node.Monad.{Action, pure, modify, ◌>>◌, bind-ok}
use f1r3fly_rgb_lightning_no.Node.Payments.{
  is_pending, fail_pending, save_outbound_payments, fail_outbound_pending_payments,
}

abbrev pub is_lost : List Bytes → Bytes → PaymentInfo → Bool
is_lost recent id info = is_pending info.status && not (contains recent id)

-- The status that a payment has after the recovery.
abbrev pub recovered : List Bytes → Bytes → PaymentInfo → HtlcStatus
recovered recent id info = if is_lost recent id info then HtlcStatus.failed else info.status

abbrev Statuses : List Bytes → Map PaymentInfo → Map PaymentInfo → Type 0
Statuses recent m m' =
    (j : Bytes)
    → Option.map (λ (i : PaymentInfo). i.status) (lookup j m')
      ≡ Option.map (recovered recent j) (lookup j m)

-- What a run of the loop leaves, from a state.
record Ran (recent : List Bytes) (m : Map PaymentInfo) (s : UnlockedAppState) : Type 0 where
  result : Map PaymentInfo
  failed : Bool
  time : ℕ
  runs : fail_pending recent m s ≡ (ok (result, failed), record s { ticks = time })
  statuses : Statuses recent m result
  unchanged : failed ≡ false → result ≡ m

Statuses-cons :
    (recent : List Bytes) (id : Bytes) (info info' : PaymentInfo) (m m' : Map PaymentInfo)
    → info'.status ≡ recovered recent id info
    → Statuses recent m m'
    → Statuses recent ((id, info) ∷ m) ((id, info') ∷ m')
unfolding lookup
Statuses-cons recent id info info' m m' e h j = elim (Bool-cases (bytes_eq id j)) [
  | inl same ↦
      let at : id ≡ j = (bytes_eq_iff id j).0 same in rw (← at) (rw (bytes_eq_refl id) (ap some e))
  | inr differ ↦ rw differ (h j)
]

-- The rest of the loop's round, and of the whole step, after the recursive call.
abbrev push : Bytes → PaymentInfo → Bool → Map PaymentInfo × Bool → Action (Map PaymentInfo × Bool)
push id info lost r = pure ((id, info) ∷ r.0, lost || r.1)

abbrev store_outbound : Map PaymentInfo × Bool → Action (Unit {0})
store_outbound r = do
  modify (λ s. record s { outbound_payments = r.0 })
  if r.1 then save_outbound_payments else pure tt

fail_pending-cons_kept :
    (recent : List Bytes) (id : Bytes) (info : PaymentInfo) (m : Map PaymentInfo)
    (s : UnlockedAppState)
    → is_lost recent id info ≡ false
    → Ran recent m s
    → Ran recent ((id, info) ∷ m) s
unfolding fail_pending
fail_pending-cons_kept recent id info m s kept r = record {
  result = (id, info) ∷ r.result;
  failed = r.failed;
  time = r.time;
  runs = rw kept (bind-ok (fail_pending recent m) (push id info false) r.runs);
  statuses = Statuses-cons recent id info info m r.result (rw kept) r.statuses;
  unchanged = λ e. ap (λ rest. (id, info) ∷ rest) (r.unchanged e);
}

abbrev dropped : ℕ → PaymentInfo → PaymentInfo
dropped now info = record info { status = HtlcStatus.failed; updated_at = now }

fail_pending-cons_lost :
    (recent : List Bytes) (id : Bytes) (info : PaymentInfo) (m : Map PaymentInfo)
    (s : UnlockedAppState)
    → is_lost recent id info ≡ true
    → Ran recent m (record s { ticks = s.ticks + 1 })
    → Ran recent ((id, info) ∷ m) s
unfolding fail_pending
fail_pending-cons_lost recent id info m s lost r = record {
  result = (id, dropped (s.clock s.ticks) info) ∷ r.result;
  failed = true;
  time = r.time;
  runs =
      rw lost
        (bind-ok (fail_pending recent m) (push id (dropped (s.clock s.ticks) info) true) r.runs);
  statuses =
      Statuses-cons recent id info (dropped (s.clock s.ticks) info) m r.result (rw lost) r.statuses;
  unchanged = λ e. cc;
}

fail_pending-Ran :
    (recent : List Bytes) (m : Map PaymentInfo) (s : UnlockedAppState) → Ran recent m s
unfolding fail_pending lookup
fail_pending-Ran recent [] s = record {
  result = [];
  failed = false;
  time = s.ticks;
  runs = refl;
  statuses = λ j. refl;
  unchanged = λ e. refl;
}
fail_pending-Ran recent ((id, info) ∷ m) s = elim (Bool-cases (is_lost recent id info)) [
  | inl lost ↦ fail_pending-cons_lost recent id info m s lost (fail_pending-Ran recent m _)
  | inr kept ↦ fail_pending-cons_kept recent id info m s kept (fail_pending-Ran recent m s)
]

module _ (recent : List Bytes) (s : UnlockedAppState) (r : Ran recent s.outbound_payments s) where
  outbound_some :
      r.failed ≡ true
      → s.write_fails ≡ false
      → fail_outbound_pending_payments recent s ≡ (
        ok tt,
        record s {
          ticks = r.time;
          outbound_payments = r.result;
          fs_store = record s.fs_store { outbound_payments = r.result };
        },
      )
  unfolding fail_outbound_pending_payments
  outbound_some some_lost w =
      bind-ok (fail_pending recent s.outbound_payments) store_outbound r.runs
      ∙ rw some_lost (simp w)

  outbound_none :
      r.failed ≡ false
      → fail_outbound_pending_payments recent s
        ≡ (ok tt, record s { ticks = r.time; outbound_payments = r.result })
  unfolding fail_outbound_pending_payments
  outbound_none none_lost =
      bind-ok (fail_pending recent s.outbound_payments) store_outbound r.runs ∙ rw none_lost

-- From a sound state whose store takes writes, the recovery succeeds: every pending payment that is
-- not among the recent ones is failed, every other payment keeps its status, and the store holds the
-- new map. The other maps are as before.
pub fail_outbound_pending_payments_lem :
    (recent : List Bytes) (s : UnlockedAppState)
    → s.fs_store.outbound_payments ≡ s.outbound_payments
    → s.write_fails ≡ false
    → let (r, s') = fail_outbound_pending_payments recent s in
      (r ≡ ok tt)
      × ((j : Bytes)
          → Option.map (λ (i : PaymentInfo). i.status) (lookup j s'.outbound_payments)
            ≡ Option.map (recovered recent j) (lookup j s.outbound_payments))
      × (s'.fs_store.outbound_payments ≡ s'.outbound_payments)
      × (s'.inbound_payments ≡ s.inbound_payments)
      × (s'.maker_swaps ≡ s.maker_swaps)
fail_outbound_pending_payments_lem recent s saved w =
    let r = fail_pending-Ran recent s.outbound_payments s in
    elim (Bool-cases r.failed) [
      | inl some_lost ↦
          rw (outbound_some recent s r some_lost w) (refl, r.statuses, refl, refl, refl)
      | inr none_lost ↦
          rw (outbound_none recent s r none_lost)
            (refl, r.statuses, saved ∙ sym (r.unchanged none_lost), refl, refl)
    ]
