-- ===== src/Payments/Orders.antt =====
-- apps/api/src/payments/payment.service.ts, `createOrder` and `detail`. The ids of the new row,
-- one of them with a random UUID in it, are arguments.
use gamja_market.Base.{ℕ, Bool, false, ◌&&◌, not, Option, none, some, ◌==◌, is_some}
use gamja_market.Base.Int.{pos}
use gamja_market.Base.Text.{Text}
use gamja_market.Schema.{
  PaymentAction, PaymentStatus, SettlementStatus, is_accepted, is_reserved, Product, Payment, Trade,
  StoredResponse, find_first,
}
use gamja_market.Schema.Action.{
  Action, pure, lift, gets, or_raise, raise_if, transaction, ◌>>=◌, ◌>>◌, not_found, conflict,
  payable_trade_not_found, payment_order_exists, trade_product_state_mismatch, payment_not_found,
}
use gamja_market.Schema.Tables.{create_payment, payment_of}
use gamja_market.Payments.Model.{
  Hash, order_payload, key, serialize, replay, or_else, record_operation,
}

-- `trade.product.status === RESERVED`; a trade has its product by a foreign key.
abbrev pub is_reserved_product : Option Product → Bool
is_reserved_product none = false
is_reserved_product (some p) = is_reserved p.status

abbrev pub new_payment : ℕ → ℕ → Trade → Payment
new_payment id order_id trade = record {
  id = id;
  trade_id = trade.id;
  order_id = order_id;
  payment_key = none;
  amount_krw = trade.price_krw;
  status = PaymentStatus.ready;
  settlement_status = SettlementStatus.hold;
  method_masked = none;
  last_webhook_sequence = pos 0;
  approved_at = none;
  cancelled_at = none;
  refunded_at = none;
  settlement_available_at = none;
  settled_at = none;
  reconciliation_checked_at = none;
  failure_code = none;
}

module _ (hash : Hash) where
  -- The transaction of `createOrder` after its look-up of the key.
  unfoldable pub open_order : ℕ → ℕ → ℕ → ℕ → Text → Action StoredResponse
  open_order id order_id user trade_id idempotency_key = do
    found ← gets λ db.
        find_first (λ t. t.id == trade_id && (t.buyer_id == user && is_accepted t.status)) db.trades
    trade ← or_raise (not_found payable_trade_not_found) found
    existing ← gets (payment_of trade_id)
    raise_if (is_some existing) (conflict payment_order_exists)
    product ← gets λ db. find_first (λ p. p.id == trade.product_id) db.products
    raise_if (not (is_reserved_product product)) (conflict trade_product_state_mismatch)
    payment ← create_payment (new_payment id order_id trade)
    record_operation payment.id idempotency_key PaymentAction.create_order
        (hash PaymentAction.create_order (order_payload trade_id user)) (serialize payment)
    pure (serialize payment)

  -- `createOrder`: the key is looked up before the transaction, and in it again.
  unfoldable pub create_order : ℕ → ℕ → ℕ → ℕ → Option Text → Action StoredResponse
  create_order id order_id user trade_id key_input = do
    idempotency_key ← lift (key key_input)
    let request_hash = hash PaymentAction.create_order (order_payload trade_id user)
    replayed ← replay idempotency_key PaymentAction.create_order request_hash
    or_else replayed (
        transaction (do
          existing ← replay idempotency_key PaymentAction.create_order request_hash
          or_else existing (open_order id order_id user trade_id idempotency_key)))

-- The payment of an order with its trade, for a participant: the look-up of `detail` and of
-- `reverse`. A payment has its trade by a foreign key.
unfoldable pub participant_payment : ℕ → ℕ → Action (Payment × Trade)
participant_payment user order_id = do
  found ← gets λ db. find_first (λ p. p.order_id == order_id) db.payments
  payment ← or_raise (not_found payment_not_found) found
  included ← gets λ db. find_first (λ t. t.id == payment.trade_id) db.trades
  trade ← or_raise (not_found payment_not_found) included
  raise_if (not (trade.buyer_id == user) && not (trade.seller_id == user))
      (not_found payment_not_found)
  pure (payment, trade)

-- `detail`
unfoldable pub detail : ℕ → ℕ → Action StoredResponse
unfolding participant_payment
detail user order_id = do
  (payment, trade) ← participant_payment user order_id
  pure (serialize payment)
