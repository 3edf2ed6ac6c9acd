-- ===== src/Tests/Payments.antt =====
-- The theorems on the payments at the small market.
use gamja_market.Base.{arith, some, ◌≡◌, ◌⊎◌, refl, [], ◌∷◌}
use gamja_market.Base.Text.{number_of, Text, trim, text_eq}
use gamja_market.Schema.{TradeStatus, Payment, Trade, Db, find_first, update_many, count}
use gamja_market.Schema.Action.{ok}
use gamja_market.Schema.Rows.Laws.{HasUniqueKeys}
use gamja_market.Schema.Tables.{
  is_key_clash, update_trade, update_product, update_payment, update_payments, create_history,
  create_payment, create_ledger_entry, payment_of,
}
use gamja_market.Payments.Model.{TossPayment, serialize, key, replay, record_operation}
use gamja_market.Payments.Orders.{create_order, open_order, new_payment, participant_payment}
use gamja_market.Payments.Confirm.{ConfirmInput, check_confirm, commit_confirm, confirm}
use gamja_market.Payments.Reverse.{
  call_provider, Reversal, reverse, check_reverse, check_action, commit_reverse, as_reversed,
}
use gamja_market.Payments.Booking.{Confirmable, ApprovedBy, Booked, Refundable, Unbooked}
use gamja_market.Payments.Capture.{confirm-Captured, reverse-Reversed}
use gamja_market.Payments.Idempotency.{create_order-replay, confirm-replay, reverse-replay}
use gamja_market.Tests.Data.{
  reserved_market, paid_market, unpaid_market, no_hash, sandbox, a_key, captured, sale,
  reserved_market-IsSound,
}

abbrev payment_input : ConfirmInput
payment_input = record {
  payment_key = 1 ∷ [];
  order_id = 9;
  amount_krw = b'5' ∷ b'0' ∷ b'0' ∷ b'0' ∷ [];
}

confirm-Captured_example :
    let db' = (confirm no_hash sandbox 4 2 9 payment_input a_key reserved_market).1 in
    (db' ≡ reserved_market)
    ⊎ ((k : Text) × (existing : Payment) × (trade : Trade) × (approved : TossPayment) × (key a_key
          ≡ ok k)
        × Confirmable 2 9 payment_input existing trade reserved_market
        × ApprovedBy sandbox k 9 payment_input existing approved
        × Booked 4 existing approved reserved_market db')
confirm-Captured_example =
    confirm-Captured no_hash sandbox reserved_market 4 2 9 payment_input a_key
      reserved_market-IsSound.escrowed.keys

accepted_keys : HasUniqueKeys (λ p. p.id) (paid_market TradeStatus.accepted).payments
unfolding count
accepted_keys k = ground arith

reverse-Reversed_example :
    let db = paid_market TradeStatus.accepted in
    let db' = (reverse no_hash sandbox 5 2 9 [] a_key Reversal.cancel db).1 in
    (db' ≡ db)
    ⊎ ((k pk : Text) × (existing : Payment) × (trade : Trade) × (answer : TossPayment) × (key a_key
          ≡ ok k)
        × Refundable 5 2 9 Reversal.cancel pk existing trade db
        × (call_provider sandbox Reversal.cancel pk (trim []) k ≡ ok (some answer))
        × Unbooked 5 (trim []) Reversal.cancel existing db db')
reverse-Reversed_example =
    reverse-Reversed no_hash sandbox (paid_market TradeStatus.accepted) 5 2 9 [] a_key
      Reversal.cancel accepted_keys

-- The market after an order was made.
abbrev ordered : Db
ordered = (create_order no_hash 5 9 2 7 a_key unpaid_market).1

ordering :
    create_order no_hash 5 9 2 7 a_key unpaid_market
    ≡ (ok (serialize (new_payment 5 9 (sale TradeStatus.accepted))), ordered)
unfolding create_order open_order key trim replay find_first create_payment record_operation
    payment_of
ordering = refl

create_order-replay_example :
    create_order no_hash 6 11 2 7 a_key ordered
    ≡ (ok (serialize (new_payment 5 9 (sale TradeStatus.accepted))), ordered)
create_order-replay_example =
    create_order-replay no_hash 5 9 6 11 2 7 a_key unpaid_market ordered
      (serialize (new_payment 5 9 (sale TradeStatus.accepted))) ordering

-- The market after the order was paid.
abbrev paid : Db
paid = (confirm no_hash sandbox 4 2 9 payment_input a_key reserved_market).1

paying :
    confirm no_hash sandbox 4 2 9 payment_input a_key reserved_market
    ≡ (ok (serialize captured), paid)
unfolding confirm check_confirm number_of commit_confirm is_key_clash key trim text_eq replay
    find_first update_many count update_payments create_ledger_entry record_operation
paying = refl

-- The second request is another user's.
confirm-replay_example :
    confirm no_hash sandbox 8 3 9 payment_input a_key paid ≡ (ok (serialize captured), paid)
confirm-replay_example =
    confirm-replay no_hash sandbox sandbox 4 8 2 3 9 9 payment_input a_key reserved_market paid
      (serialize captured) paying

abbrev cancelled : Db
cancelled =
    (reverse no_hash sandbox 5 2 9 [] a_key Reversal.cancel (paid_market TradeStatus.accepted)).1

cancelling :
    reverse no_hash sandbox 5 2 9 [] a_key Reversal.cancel (paid_market TradeStatus.accepted)
    ≡ (ok (serialize (as_reversed 5 Reversal.cancel captured)), cancelled)
unfolding reverse check_reverse check_action commit_reverse participant_payment key trim replay
    find_first update_many count update_payment update_trade update_product create_history
    create_ledger_entry record_operation
cancelling = refl

reverse-replay_example :
    reverse no_hash sandbox 6 2 9 [] a_key Reversal.cancel cancelled
    ≡ (ok (serialize (as_reversed 5 Reversal.cancel captured)), cancelled)
reverse-replay_example =
    reverse-replay no_hash sandbox sandbox 5 6 2 9 [] a_key Reversal.cancel
      (paid_market TradeStatus.accepted) cancelled
      (serialize (as_reversed 5 Reversal.cancel captured)) cancelling
