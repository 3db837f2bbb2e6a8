-- ===== src/Routes/Payments/Found.antt =====
-- What `get_payment`, `list_payments` and `invoice_status` find.
use mathlib.Core.Option
use mathlib.Core.Path.{subst}
use mathlib.Core.List.{Memᴰ}
use f1r3fly_rgb_lightning_no.Common.{
  ◌≡◌, refl, Bool, true, false, Option, none, some, List, [], ◌∷◌, ◌++◌, Bytes, bytes_eq,
  bytes_eq_iff, Map, lookup, sym, ◌⊎◌, Option-cases, inl, inr, Bool-cases, arith,
}
use mathlib.Core.Option.{some-injective}
use f1r3fly_rgb_lightning_no.Error.{ApiError}
use f1r3fly_rgb_lightning_no.Outcome.{Outcome, ok, err}
use f1r3fly_rgb_lightning_no.Hex.{hex_str_to_vec}
use f1r3fly_rgb_lightning_no.Swap.{to_array32}
use f1r3fly_rgb_lightning_no.Node.{or_fail, ◌>>=◌, gets, PaymentInfo, UnlockedAppState}
use f1r3fly_rgb_lightning_no.Routes.Payments.{PaymentLibrary}
use f1r3fly_rgb_lightning_no.Routes.Payments.Query.{
  Payment, show_payment, show_payments, list_payments, find_payment, find_either, get_payment,
}

module _ (lib : PaymentLibrary) where
  -- A loop of `get_payment` finds what the map holds under the hash.
  find_payment-lookup :
      (inbound : Bool) (h : Bytes) (m : Map PaymentInfo)
      → find_payment lib inbound h m
        ≡ Option.map (λ (p : PaymentInfo). show_payment lib inbound h p) (lookup h m)
  unfolding find_payment lookup
  find_payment-lookup inbound h [] = refl
  find_payment-lookup inbound h ((k, p) ∷ m) =
      ground (arith, bytes_eq_iff k h, find_payment-lookup inbound h m)

  -- The answer for a payment hash: the inbound payment of that hash, or else the outbound one.
  abbrev pub answer_for : Bytes → Bytes → Option PaymentInfo → Option PaymentInfo → Outcome Payment
  answer_for text h (some p) _ = ok (show_payment lib true h p)
  answer_for text h none (some p) = ok (show_payment lib false h p)
  answer_for text h none none = err (ApiError.payment_not_found text)

  -- `get_payment` for the text of a 32-byte hash gives the inbound payment of that hash if there is
  -- one, or else the outbound payment of that id, or else the error that names the text; it changes
  -- nothing.
  pub get_payment_finds :
      (text h : Bytes) (s : UnlockedAppState)
      → Option.bind (hex_str_to_vec text) to_array32 ≡ some h
      → get_payment lib text s
        ≡ (answer_for text h (lookup h s.inbound_payments) (lookup h s.outbound_payments), s)
  unfolding get_payment find_either
  get_payment_finds text h s parses = elim (Option-cases (lookup h s.inbound_payments)) [
    | inl new ↦ elim (Option-cases (lookup h s.outbound_payments)) [
      | inl unknown ↦
          rw (parses, find_payment-lookup true h s.inbound_payments, new)
            (rw (find_payment-lookup false h s.outbound_payments, unknown) refl)
      | inr (q, known) ↦
          rw (parses, find_payment-lookup true h s.inbound_payments, new)
            (rw (find_payment-lookup false h s.outbound_payments, known) refl)
    ]
    | inr (p, found) ↦ rw (parses, find_payment-lookup true h s.inbound_payments, found) refl
  ]

  find_payment-Mem :
      (inbound : Bool) (h : Bytes) (m : Map PaymentInfo) (p : Payment)
      → find_payment lib inbound h m ≡ some p
      → Memᴰ p (show_payments lib inbound m)
  unfolding find_payment show_payments
  find_payment-Mem inbound h [] p e = cc
  find_payment-Mem inbound h ((k, q) ∷ m) p e = elim (Bool-cases (bytes_eq k h)) [
    | inl same ↦ Memᴰ.head (sym (some-injective _ _ (rw same at e)))
    | inr differ ↦ Memᴰ.tail (find_payment-Mem inbound h m p (rw differ at e))
  ]

Mem-append-left : {A : Type 0} (a : A) (xs ys : List A) → Memᴰ a xs → Memᴰ a (xs ++ ys)
Mem-append-left a [] ys h = elim h [ ]
Mem-append-left a (x ∷ xs) ys (Memᴰ.head e) = Memᴰ.head e
Mem-append-left a (x ∷ xs) ys (Memᴰ.tail h) = Memᴰ.tail (Mem-append-left a xs ys h)

Mem-append-right : {A : Type 0} (a : A) (xs ys : List A) → Memᴰ a ys → Memᴰ a (xs ++ ys)
Mem-append-right a [] ys h = h
Mem-append-right a (x ∷ xs) ys h = Memᴰ.tail (Mem-append-right a xs ys h)

either_found :
    (a b : Option Payment) (p : Payment)
    → elim a [ some q ↦ some q | none ↦ b ] ≡ some p
    → (a ≡ some p) ⊎ (b ≡ some p)
either_found none b p e = inr e
either_found (some q) b p e = inl e

find_either-Mem :
    (lib : PaymentLibrary) (h : Bytes) (s : UnlockedAppState) (p : Payment)
    → find_either lib h s ≡ some p
    → Memᴰ p
        (show_payments lib true s.inbound_payments ++ show_payments lib false s.outbound_payments)
unfolding find_either
find_either-Mem lib h s p e =
    elim (either_found (find_payment lib true h s.inbound_payments)
      (find_payment lib false h s.outbound_payments) p e) [
        | inl found ↦ Mem-append-left p _ _ (find_payment-Mem lib true h s.inbound_payments p found)
        | inr found ↦
            Mem-append-right p _ _ (find_payment-Mem lib false h s.outbound_payments p found)
      ]

found_in :
    (o : Option Payment) (e : ApiError) (s : UnlockedAppState) (p : Payment)
    → (or_fail o e s).0 ≡ ok p
    → o ≡ some p
found_in none e s p h = cc
found_in (some q) e s p h = cc

got_either :
    (lib : PaymentLibrary) (text : Bytes) (o : Option Bytes) (s : UnlockedAppState) (p : Payment)
    → ((or_fail o (ApiError.invalid_payment_hash text) >>= (λ h.
          gets (find_either lib h) >>= (λ f. or_fail f (ApiError.payment_not_found text))))
        s).0
      ≡ ok p
    → (h : Bytes) × (find_either lib h s ≡ some p)
got_either lib text none s p e = cc
got_either lib text (some h) s p e =
    (h, found_in (find_either lib h s) (ApiError.payment_not_found text) s p e)

-- Every payment that `get_payment` gives is in the list that `list_payments` gives.
pub get_payment_listed :
    (lib : PaymentLibrary) (text : Bytes) (s : UnlockedAppState) (p : Payment) (ps : List Payment)
    → (get_payment lib text s).0 ≡ ok p
    → (list_payments lib s).0 ≡ ok ps
    → Memᴰ p ps
unfolding get_payment list_payments
get_payment_listed lib text s p ps got all =
    let (h, found) = got_either lib text (Option.bind (hex_str_to_vec text) to_array32) s p got in
    let listed : show_payments lib true s.inbound_payments
          ++ show_payments lib false s.outbound_payments
        ≡ ps =
      cc in
    subst (Memᴰ p) listed (find_either-Mem lib h s p found)
