-- ===== src/Wallet/Balances.antt =====
-- The balances of the wallet's assets: `get_asset_balance` and `list_assets`.
use f1r3fly_rgb_lightning_no.Common.{ℕ, ◌-◌, List, [], ◌∷◌, Bytes, str, ◌++◌}
use f1r3fly_rgb_lightning_no.Wallet.{Answer, Json, LockedStore, get_locked_amount}

pub record Balance : Type 0 where
  pub settled : ℕ
  pub future : ℕ
  pub spendable : ℕ

-- The wallet manager: its contracts, the id in the data of one, and what it holds of one.
pub record WalletManager : Type 0 where
  pub list_assets : Answer (List Bytes)
  pub get_asset_info : Bytes → Answer Bytes
  pub get_asset_balance : Bytes → Answer ℕ

-- `unwrap_or(0)`
unfoldable pub or_zero : Answer ℕ → ℕ
or_zero (Answer.done n) = n
or_zero (Answer.refused _) = 0
or_zero Answer.panicked = 0

unfoldable pub whole_balance : Answer ℕ → Answer Balance
whole_balance (Answer.done total) =
    Answer.done (record { settled = total; future = total; spendable = total })
whole_balance (Answer.refused e) = Answer.refused (str "Failed to get balance: " ++ e)
whole_balance Answer.panicked = Answer.panicked

unfoldable pub get_asset_balance : WalletManager → Bytes → Answer Balance
unfolding whole_balance
get_asset_balance w contract = whole_balance (w.get_asset_balance contract)

-- A listed asset's id and balance, from its data, what is held and what is locked; `saturating_sub` is `-`.
unfoldable pub listed_asset : Answer Bytes → Answer ℕ → ℕ → Answer (Bytes × Balance)
listed_asset (Answer.refused e) held locked = Answer.refused (str "Failed to get asset info: " ++ e)
listed_asset Answer.panicked held locked = Answer.panicked
listed_asset (Answer.done id) (Answer.done total) locked =
    Answer.done (id, record { settled = total; future = total; spendable = total - locked })
listed_asset (Answer.done id) (Answer.refused e) locked =
    Answer.refused (str "Failed to get balance: " ++ e)
listed_asset (Answer.done id) Answer.panicked locked = Answer.panicked

-- An asset before those that follow it in the list.
unfoldable pub push_asset :
    Answer (Bytes × Balance) → Answer (List (Bytes × Balance)) → Answer (List (Bytes × Balance))
push_asset (Answer.done a) (Answer.done rest) = Answer.done (a ∷ rest)
push_asset (Answer.done a) (Answer.refused e) = Answer.refused e
push_asset (Answer.done a) Answer.panicked = Answer.panicked
push_asset (Answer.refused e) rest = Answer.refused e
push_asset Answer.panicked rest = Answer.panicked

module _ (json : Json) (w : WalletManager) (s : LockedStore) where
  unfoldable pub list_each : List Bytes → Answer (List (Bytes × Balance))
  unfolding listed_asset or_zero push_asset
  list_each [] = Answer.done []
  list_each (c ∷ cs) =
      push_asset
        (listed_asset (w.get_asset_info c) (w.get_asset_balance c)
          (or_zero (get_locked_amount json c s)))
        (list_each cs)

  unfoldable pub list_from : Answer (List Bytes) → Answer (List (Bytes × Balance))
  unfolding list_each
  list_from (Answer.done cs) = list_each cs
  list_from (Answer.refused e) = Answer.refused (str "Failed to list assets: " ++ e)
  list_from Answer.panicked = Answer.panicked

  unfoldable pub list_assets : Answer (List (Bytes × Balance))
  unfolding list_from
  list_assets = list_from w.list_assets
