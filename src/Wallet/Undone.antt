-- ===== src/Wallet/Undone.antt =====
-- The locking of an output and its release.
use f1r3fly_rgb_lightning_no.Common.{
  ℕ, ◌+◌, ◌%◌, ◌≡◌, refl, sym, ap, ◌∙◌, none, Bytes, Map, insert, remove, lookup, bytes_eq,
  if◌then◌else◌, arith, option_bytes_eq,
}
use f1r3fly_rgb_lightning_no.Decimal.{u64_bound}
use f1r3fly_rgb_lightning_no.Wallet.{
  Answer, LockedUtxo, LockedData, Json, LockedStore, utxo_key, amount_of, release_locked_utxo,
  get_locked_amount,
}
use f1r3fly_rgb_lightning_no.Wallet.Tracked.{
  IsJson, Holds, IsUndone, total, total-insert, total-remove, entry, with_data, written-Holds,
  track_held, release_held, get_locked_amount-Holds,
}

amount_of-entry :
    (contract other : Bytes) (amount : ℕ)
    → amount_of other (entry contract amount) ≡ (if bytes_eq contract other then amount else 0)
unfolding amount_of option_bytes_eq
amount_of-entry contract other amount = refl

abbrev answered : Answer ℕ → ℕ
answered (Answer.done n) = n
answered (Answer.refused _) = 0
answered Answer.panicked = 0

sum_after : (n t a x : ℕ) → n ≡ t % u64_bound → x ≡ t + a → x % u64_bound ≡ (n + a) % u64_bound
sum_after n t a x e f = omega arith

module _ (json : Json) (law : IsJson json) (contract txid : Bytes) (vout amount : ℕ)
    (m : Map LockedUtxo) (s : LockedStore) (h : Holds json m s)
    (fresh : lookup (utxo_key txid vout) m ≡ none) where
  abbrev key : Bytes
  key = utxo_key txid vout

  abbrev m' : Map LockedUtxo
  m' = insert key (entry contract amount) m

  tracked_amount :
      (other : Bytes) (n : ℕ)
      → get_locked_amount json other s ≡ Answer.done n
      → get_locked_amount json other (with_data json (LockedData.object m') s)
        ≡ Answer.done ((n + (if bytes_eq contract other then amount else 0)) % u64_bound)
  tracked_amount other n e =
      let before : n ≡ total other m % u64_bound =
        ap answered (sym e ∙ get_locked_amount-Holds json other m s h) in
      let more : total other m' ≡ total other m + (if bytes_eq contract other then amount else 0) =
        total-insert other key (entry contract amount) m fresh
        ∙ ap (λ a. total other m + a) (amount_of-entry contract other amount) in
      get_locked_amount-Holds json other m' (with_data json (LockedData.object m') s)
        (written-Holds json m' s law h.reads h.writes)
      ∙ ap Answer.done (
          sum_after n (total other m) (if bytes_eq contract other then amount else 0)
            (total other m') before more)

  restored_amount :
      (other : Bytes)
      → get_locked_amount json other (with_data json (LockedData.object (remove key m')) s)
        ≡ get_locked_amount json other s
  restored_amount other =
      get_locked_amount-Holds json other (remove key m')
        (with_data json (LockedData.object (remove key m')) s)
        (written-Holds json (remove key m') s law h.reads h.writes)
      ∙ ap (λ t. Answer.done (t % u64_bound))
          (total-remove other key (entry contract amount) m fresh)
      ∙ sym (get_locked_amount-Holds json other m s h)

  -- On a working file of locked outputs, or before there is one, and with a JSON library that reads back what it prints,
  -- locking an output that is not in the file raises the locked amount of its contract by its amount, wrapped around as in a
  -- release build, and of no other; and releasing it again gives every contract the amount that it had before.
  pub track_locked_utxo-IsUndone : IsUndone json contract txid vout amount s
  track_locked_utxo-IsUndone =
      let after = track_held json contract txid vout amount m s h in
      let undone = release_held json txid vout m' s law h.reads h.writes in
      record {
        tracked = ap (λ r. r.0) after;
        sums = λ other n e.
            ap (λ r. get_locked_amount json other r.1) after ∙ tracked_amount other n e;
        released =
            ap (λ r. (release_locked_utxo json txid vout r.1).0) after ∙ ap (λ r. r.0) undone;
        restored = λ other.
            ap (λ r. get_locked_amount json other (release_locked_utxo json txid vout r.1).1) after
            ∙ ap (λ r. get_locked_amount json other r.1) undone
            ∙ restored_amount other;
      }
