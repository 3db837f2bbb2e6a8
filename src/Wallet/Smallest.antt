-- ===== src/Wallet/Smallest.antt =====
-- The output that is taken for a claim.
use mathlib.Core.List.{Memᴰ}
use mathlib.Core.Path.{subst}
use f1r3fly_rgb_lightning_no.Common.{
  ℕ, ◌≤◌, ◌≡◌, refl, sym, Bool, true, false, ◌&&◌, Option, none, some, List, [], ◌∷◌, Bytes,
  is_empty, leb, inl, inr, Bool-cases, arith,
}
use f1r3fly_rgb_lightning_no.Wallet.{Answer, utxo_key}
use f1r3fly_rgb_lightning_no.Wallet.Claims.{
  Unspent, Utxos, is_claim_sized, smaller, smallest, claim_text, claim_from, get_claim_utxo, after,
}

record IsLeast (us : List Unspent) (v : Unspent) : Type 0 where
  listed : Memᴰ v us
  sized : is_claim_sized v ≡ true
  least : (w : Unspent) → Memᴰ w us → is_claim_sized w ≡ true → v.btc_amount ≤ w.btc_amount

-- What the search gives.
abbrev Finds : List Unspent → Option Unspent → Type 0
Finds us none = (w : Unspent) → Memᴰ w us → is_claim_sized w ≡ false
Finds us (some v) = IsLeast us v

-- A bound of the first and of the others.
bound_cons :
    (n : ℕ) (u : Unspent) (us : List Unspent)
    → (is_claim_sized u ≡ true → n ≤ u.btc_amount)
    → ((w : Unspent) → Memᴰ w us → is_claim_sized w ≡ true → n ≤ w.btc_amount)
    → (w : Unspent) → Memᴰ w (u ∷ us)
    → is_claim_sized w ≡ true
    → n ≤ w.btc_amount
bound_cons n u us here there w (Memᴰ.head e) sized =
    subst (λ x. n ≤ x.btc_amount) (sym e) (here (subst (λ x. is_claim_sized x ≡ true) e sized))
bound_cons n u us here there w (Memᴰ.tail h) sized = there w h sized

none_cons :
    (u : Unspent) (us : List Unspent)
    → is_claim_sized u ≡ false
    → ((w : Unspent) → Memᴰ w us → is_claim_sized w ≡ false)
    → (w : Unspent) → Memᴰ w (u ∷ us)
    → is_claim_sized w ≡ false
none_cons u us out f w (Memᴰ.head e) = subst (λ x. is_claim_sized x ≡ false) (sym e) out
none_cons u us out f w (Memᴰ.tail h) = f w h

keep-Finds :
    (u : Unspent) (us : List Unspent) (o : Option Unspent)
    → is_claim_sized u ≡ false
    → Finds us o
    → Finds (u ∷ us) o
keep-Finds u us none out f = none_cons u us out f
keep-Finds u us (some v) out f = record {
  listed = Memᴰ.tail f.listed;
  sized = f.sized;
  least = bound_cons v.btc_amount u us (λ fits. cc) f.least;
}

smaller-Finds :
    (u : Unspent) (us : List Unspent) (o : Option Unspent)
    → is_claim_sized u ≡ true
    → Finds us o
    → Finds (u ∷ us) (smaller u o)
unfolding smaller
smaller-Finds u us none fits f = record {
  listed = Memᴰ.head refl;
  sized = fits;
  least = bound_cons u.btc_amount u us (λ _. omega arith) (λ w h sized. let unsized = f w h in cc);
}
smaller-Finds u us (some v) fits f = elim (Bool-cases (leb u.btc_amount v.btc_amount)) [
  | inl below ↦ rw below (record {
    listed = Memᴰ.head refl;
    sized = fits;
    least =
        bound_cons u.btc_amount u us (λ _. omega arith)
          (λ w h sized. let least = f.least w h sized in ground arith);
  })
  | inr above ↦ rw above (record {
    listed = Memᴰ.tail f.listed;
    sized = f.sized;
    least = bound_cons v.btc_amount u us (λ _. ground arith) f.least;
  })
]

smallest-Finds : (us : List Unspent) → Finds us (smallest us)
unfolding smallest
smallest-Finds [] = λ w h. elim h [ ]
smallest-Finds (u ∷ us) = elim (Bool-cases (is_claim_sized u)) [
  | inl fits ↦ rw fits (smaller-Finds u us (smallest us) fits (smallest-Finds us))
  | inr out ↦ rw out (keep-Finds u us (smallest us) out (smallest-Finds us))
]

-- The output of the answer.
pub record IsClaimOutput (us : List Unspent) (answer : Answer Bytes) : Type 0 where
  pub output : Unspent
  pub answered : answer ≡ Answer.done (utxo_key output.txid output.vout)
  pub listed : Memᴰ output us
  pub empty : output.rgb_allocations ≡ []
  pub small : output.btc_amount ≤ 2000
  pub least :
      (w : Unspent)
      → Memᴰ w us
      → w.rgb_allocations ≡ []
      → w.btc_amount ≤ 2000
      → output.btc_amount ≤ w.btc_amount

empty_and : (l : List Bytes) (b : Bool) → (is_empty l && b) ≡ true → (l ≡ []) × (b ≡ true)
empty_and [] b h = (refl, h)
empty_and (x ∷ l) b h = cc

and_empty : (l : List Bytes) (b : Bool) → l ≡ [] → b ≡ true → (is_empty l && b) ≡ true
and_empty [] b e h = h
and_empty (x ∷ l) b e h = cc

small_amount : (n : ℕ) → leb n 2000 ≡ true → n ≤ 2000
small_amount n h = ground arith

amount_small : (n : ℕ) → n ≤ 2000 → leb n 2000 ≡ true
amount_small n h = ground arith

least-IsClaimOutput :
    (w : Utxos) (us : List Unspent) (v : Unspent)
    → IsLeast us v
    → IsClaimOutput us (claim_from w (some v))
unfolding claim_from claim_text is_claim_sized
least-IsClaimOutput w us v l =
    let parts = empty_and v.rgb_allocations (leb v.btc_amount 2000) l.sized in
    record {
      output = v;
      answered = refl;
      listed = l.listed;
      empty = parts.0;
      small = small_amount v.btc_amount parts.1;
      least = λ x listed bare small. l.least x listed (
          and_empty x.rgb_allocations (leb x.btc_amount 2000) bare
            (amount_small x.btc_amount small));
    }

found-IsClaimOutput :
    (w : Utxos) (us : List Unspent) (o : Option Unspent) (u : Unspent)
    → Finds us o
    → Memᴰ u us
    → is_claim_sized u ≡ true
    → IsClaimOutput us (claim_from w o)
found-IsClaimOutput w us none u f listed sized = let out = f u listed in cc
found-IsClaimOutput w us (some v) u f listed sized = least-IsClaimOutput w us v f

-- If the wallet lists an output without assets and of 2000 sats at most, `get_claim_utxo` answers with such an output of the
-- list, of which none is smaller.
pub get_claim_utxo-IsClaimOutput :
    (w : Utxos) (us : List Unspent) (u : Unspent)
    → w.list_unspents ≡ Answer.done us
    → Memᴰ u us
    → u.rgb_allocations ≡ []
    → u.btc_amount ≤ 2000
    → IsClaimOutput us (get_claim_utxo w)
unfolding get_claim_utxo is_claim_sized
get_claim_utxo-IsClaimOutput w us u lists listed bare small =
    subst (λ a. IsClaimOutput us (after a (λ unspents. claim_from w (smallest unspents))))
      (sym lists)
      (found-IsClaimOutput w us (smallest us) u (smallest-Finds us) listed (
        and_empty u.rgb_allocations (leb u.btc_amount 2000) bare (amount_small u.btc_amount small)))
