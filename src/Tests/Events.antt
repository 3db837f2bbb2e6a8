-- ===== src/Tests/Events.antt =====
-- The events of payments at a concrete payment, file and swap.
use f1r3fly_rgb_lightning_no.Common.{◌≡◌, refl, true, false, some, [], ◌∷◌, str, lookup, bytes_eq}
use f1r3fly_rgb_lightning_no.Hex.{hex_str}
use f1r3fly_rgb_lightning_no.Lines.{starts_with}
use f1r3fly_rgb_lightning_no.Node.Ensures.{OkWith}
use f1r3fly_rgb_lightning_no.Node.Swaps.{is_maker_swap}
use f1r3fly_rgb_lightning_no.Node.Events.{
  PaymentFile, Event, is_other_file, erase_text, contains_text, handle_ldk_events,
}
use f1r3fly_rgb_lightning_no.Node.Events.Settled.{SentAs, payment_sent_settles}
use f1r3fly_rgb_lightning_no.Tests.Crossed.{crossing}
use f1r3fly_rgb_lightning_no.Tests.Data.{hash, asset, maker_state}

-- An occurrence is left out, with what follows it kept.
erase_text_test : erase_text (str "ab") 0 (str "xabyab") ≡ (str "xy")
unfolding erase_text starts_with str
erase_text_test = refl

-- A payment file of another hash is not the one whose amount moves.
abbrev other : PaymentFile
other = record {
  file_name = str "c9.json";
  stem = str "c9";
  amount = 5;
  swap_payment = false;
  inbound = false;
}

is_other_file_test : is_other_file (str "aa") true other ≡ true
unfolding is_other_file contains_text starts_with str bytes_eq
is_other_file_test = refl

-- A swap's outbound file is not the one that a receipt moves.
swap_file_test :
    is_other_file (str "aa") true (record {
      file_name = str "c9aa";
      stem = str "c9aa";
      amount = 5;
      swap_payment = true;
      inbound = false;
    })
    ≡ true
unfolding is_other_file contains_text starts_with str bytes_eq
swap_file_test = refl

-- The payment's own file, of a channel named `c`.
abbrev own : PaymentFile
own = record {
  file_name = b'c' ∷ hex_str hash;
  stem = b'c' ∷ hex_str hash;
  amount = 5;
  swap_payment = false;
  inbound = false;
}

abbrev sent : Event
sent = Event.payment_sent asset hash (some hash)

is_known : is_maker_swap hash maker_state ≡ true
unfolding is_maker_swap lookup bytes_eq
is_known = refl

payment_sent_settles_example :
    OkWith
      (λ _ t. SentAs true hash (some hash) asset t)
      (handle_ldk_events crossing (other ∷ own ∷ []) sent maker_state)
payment_sent_settles_example =
    payment_sent_settles crossing (other ∷ own ∷ []) asset hash (some hash) true maker_state
      is_known
