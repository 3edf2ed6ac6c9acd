-- ===== src/Trades/Transitions.antt =====
-- apps/api/src/trades/trade.service.ts: the methods that move a trade on.
use gamja_market.Base.{
  ℕ, ◌+◌, ◌*◌, Bool, true, false, ◌&&◌, ◌||◌, not, Option, none, some, ◌++◌, map, ◌==◌,
  if◌then◌else◌,
}
use gamja_market.Base.Text.{Text, trim}
use gamja_market.Schema.{
  TradeStatus, ProductStatus, SettlementStatus, PaymentStatus, is_active, is_reserved, is_requested,
  is_accepted, is_delivered, is_confirmed, is_approved, Product, Trade, TradeHistory, Payment,
  find_first, find_many,
}
use gamja_market.Schema.Action.{
  Action, Void, ok, pure, gets, or_raise, raise_if, modify, transaction, ◌>>=◌, ◌>>◌, not_found,
  conflict, trade_not_found, product_already_reserved, escrow_payment_required,
  payment_reversal_required,
}
use gamja_market.Schema.Tables.{
  update_trade, update_trades, update_product, update_products, update_payment, update_payments,
  create_history, payment_of,
}
use gamja_market.Trades.Model.{
  TradeView, serialize, is_participant, entry, day_ms, settlement_hold_ms, competing_trade_reason,
}

-- `findFirst({ where: { id, sellerId, status } })` and its variants
abbrev pub find_trade : ℕ → (Trade → Bool) → Action (Option Trade)
find_trade trade_id p = gets λ db. find_first (λ t. t.id == trade_id && p t) db.trades

-- `trade.payment?.status === 'APPROVED'`
abbrev pub is_paid : Option Payment → Bool
is_paid none = false
is_paid (some p) = is_approved p.status

-- The `data` of the updates of a trade.
abbrev pub as_accepted : Trade → Trade
as_accepted t = record t { status = TradeStatus.accepted }

abbrev pub as_rejected : ℕ → Text → Trade → Trade
as_rejected now reason t = record t {
  status = TradeStatus.rejected;
  rejected_at = some now;
  reason = some reason;
}

abbrev pub as_delivered : ℕ → Trade → Trade
as_delivered now t = record t {
  status = TradeStatus.delivered;
  delivered_at = some now;
  auto_confirm_at = some (now + 7 * day_ms);
}

abbrev pub as_confirmed : ℕ → Trade → Trade
as_confirmed now t = record t { status = TradeStatus.confirmed; confirmed_at = some now }

abbrev pub as_disputed : ℕ → Text → Trade → Trade
as_disputed now reason t = record t {
  status = TradeStatus.disputed;
  disputed_at = some now;
  reason = some reason;
}

abbrev pub as_cancelled : ℕ → Text → Trade → Trade
as_cancelled now reason t = record t {
  status = TradeStatus.cancelled;
  cancelled_at = some now;
  reason = some reason;
}

-- The `data` of the updates of a product.
abbrev pub as_reserved : Product → Product
as_reserved p = record p { status = ProductStatus.reserved }

abbrev pub as_offered : Product → Product
as_offered p = record p { status = ProductStatus.active }

abbrev pub as_sold : Product → Product
as_sold p = record p { status = ProductStatus.sold }

-- The other requests for the product of a trade that is being accepted.
abbrev pub is_competing : Trade → Trade → Bool
is_competing trade t =
    t.product_id == trade.product_id && (not (t.id == trade.id) && is_requested t.status)

-- The history row of a competing request.
abbrev pub competing_entry : ℕ → Trade → TradeHistory
competing_entry user t =
    entry t.id (some user) (some TradeStatus.requested) TradeStatus.rejected
      (some competing_trade_reason)

-- `updateManyAndReturn` and the `createMany` of `accept`: for an empty list `createMany` is not
-- called, and adds nothing.
unfoldable pub reject_competing : ℕ → ℕ → Trade → Action Void
reject_competing now user trade = do
  rejected ← gets λ db. find_many (is_competing trade) db.trades
  update_trades now (is_competing trade) (as_rejected now competing_trade_reason)
  modify λ db. record db { histories = map (competing_entry user) rejected ++ db.histories }

-- The transaction of `accept`.
unfoldable pub accept_tx : ℕ → ℕ → ℕ → Action Trade
accept_tx now user trade_id = do
  found ← find_trade trade_id (λ t. t.seller_id == user && is_requested t.status)
  trade ← or_raise (not_found trade_not_found) found
  reserved ← update_products (λ p. p.id == trade.product_id && is_active p.status) as_reserved
  raise_if (not (reserved == 1)) (conflict product_already_reserved)
  updated ← update_trade now trade_id as_accepted
  create_history (entry trade_id (some user) (some TradeStatus.requested) TradeStatus.accepted none)
  reject_competing now user trade
  pure updated

unfoldable pub accept : ℕ → ℕ → ℕ → Action TradeView
unfolding accept_tx
accept now user trade_id = do
  updated ← transaction (accept_tx now user trade_id)
  pure (serialize updated user)

-- The transaction of `reject`.
unfoldable pub reject_tx : ℕ → ℕ → ℕ → Text → Action Trade
reject_tx now user trade_id reason = do
  found ← find_trade trade_id (λ t. t.seller_id == user && is_requested t.status)
  trade ← or_raise (not_found trade_not_found) found
  updated ← update_trade now trade_id (as_rejected now (trim reason))
  create_history (
      entry trade_id (some user) (some TradeStatus.requested) TradeStatus.rejected
        (some (trim reason)))
  pure updated

unfoldable pub reject : ℕ → ℕ → ℕ → Text → Action TradeView
unfolding reject_tx
reject now user trade_id reason = do
  updated ← transaction (reject_tx now user trade_id reason)
  pure (serialize updated user)

-- The transaction of `deliver`.
unfoldable pub deliver_tx : ℕ → ℕ → ℕ → Action Trade
deliver_tx now user trade_id = do
  found ← find_trade trade_id (λ t. t.seller_id == user && is_accepted t.status)
  payment ← gets (payment_of trade_id)
  trade ← or_raise (not_found trade_not_found) found
  raise_if (not (is_paid payment)) (conflict escrow_payment_required)
  updated ← update_trade now trade_id (as_delivered now)
  create_history (entry trade_id (some user) (some TradeStatus.accepted) TradeStatus.delivered none)
  pure updated

unfoldable pub deliver : ℕ → ℕ → ℕ → Action TradeView
unfolding deliver_tx
deliver now user trade_id = do
  updated ← transaction (deliver_tx now user trade_id)
  pure (serialize updated user)

-- The settlement fields that a confirmation writes.
abbrev pub start_hold : ℕ → Payment → Payment
start_hold confirmed_at p = record p {
  settlement_available_at = some (confirmed_at + settlement_hold_ms);
  settlement_status = SettlementStatus.hold;
}

-- The transaction of `confirm`.
unfoldable pub confirm_tx : ℕ → ℕ → ℕ → Action Trade
confirm_tx now user trade_id = do
  found ← find_trade trade_id (λ t. t.buyer_id == user && is_delivered t.status)
  included ← gets (payment_of trade_id)
  trade ← or_raise (not_found trade_not_found) found
  raise_if (not (is_paid included)) (conflict escrow_payment_required)
  -- An approved payment is there: this only takes it out of its option.
  payment ← or_raise (conflict escrow_payment_required) included
  updated ← update_trade now trade_id (as_confirmed now)
  update_product trade.product_id as_sold
  update_payment payment.id (start_hold now)
  create_history
      (entry trade_id (some user) (some TradeStatus.delivered) TradeStatus.confirmed none)
  pure updated

unfoldable pub confirm : ℕ → ℕ → ℕ → Action TradeView
unfolding confirm_tx
confirm now user trade_id = do
  updated ← transaction (confirm_tx now user trade_id)
  pure (serialize updated user)

-- `status: { in: [ACCEPTED, DELIVERED, CONFIRMED] }`
abbrev pub is_disputable : TradeStatus → Bool
is_disputable s = is_accepted s || (is_delivered s || is_confirmed s)

-- The transaction of `dispute`.
unfoldable pub dispute_tx : ℕ → ℕ → ℕ → Text → Action Trade
dispute_tx now user trade_id reason = do
  found ← find_trade trade_id (λ t. is_participant user t && is_disputable t.status)
  trade ← or_raise (not_found trade_not_found) found
  updated ← update_trade now trade_id (as_disputed now (trim reason))
  update_payments (λ p. p.trade_id == trade_id)
      (λ p. record p { settlement_status = SettlementStatus.paused })
  create_history
      (entry trade_id (some user) (some trade.status) TradeStatus.disputed (some (trim reason)))
  pure updated

unfoldable pub dispute : ℕ → ℕ → ℕ → Text → Action TradeView
unfolding dispute_tx
dispute now user trade_id reason = do
  updated ← transaction (dispute_tx now user trade_id reason)
  pure (serialize updated user)

-- `status: { in: [REQUESTED, ACCEPTED] }`
abbrev pub is_cancellable : TradeStatus → Bool
is_cancellable s = is_requested s || is_accepted s

-- `status: { in: [READY, UNCONFIRMED, FAILED] }`
abbrev pub is_uncaptured : PaymentStatus → Bool
is_uncaptured PaymentStatus.ready = true
is_uncaptured PaymentStatus.unconfirmed = true
is_uncaptured PaymentStatus.failed = true
is_uncaptured _ = false

-- `if (trade.status === ACCEPTED)`: the reserved product is offered again.
unfoldable pub release_product : Trade → Action Void
release_product trade db =
    if is_accepted trade.status
    then (do
      update_products (λ p. p.id == trade.product_id && is_reserved p.status) as_offered
      pure tt)
        db
    else (ok tt, db)

abbrev pub as_voided : ℕ → Payment → Payment
as_voided now p = record p {
  status = PaymentStatus.cancelled;
  settlement_status = SettlementStatus.paused;
  cancelled_at = some now;
}

-- `if (trade.payment)`: an order that was not captured is cancelled.
unfoldable pub void_payment : ℕ → Option Payment → Action Void
void_payment now none db = (ok tt, db)
void_payment now (some payment) db =
    (do
      update_payments (λ p. p.id == payment.id && is_uncaptured p.status)
          (λ p. record p {
            status = PaymentStatus.cancelled;
            settlement_status = SettlementStatus.paused;
            cancelled_at = some now;
          })
      pure tt)
      db

-- What the transaction of `cancel` writes after its checks.
unfoldable pub close_trade : ℕ → ℕ → ℕ → Text → Trade → Option Payment → Action Trade
close_trade now user trade_id reason trade payment = do
  release_product trade
  void_payment now payment
  updated ← update_trade now trade_id (as_cancelled now (trim reason))
  create_history
      (entry trade_id (some user) (some trade.status) TradeStatus.cancelled (some (trim reason)))
  pure updated

-- The transaction of `cancel`.
unfoldable pub cancel_tx : ℕ → ℕ → ℕ → Text → Action Trade
cancel_tx now user trade_id reason = do
  found ← find_trade trade_id (λ t. is_participant user t && is_cancellable t.status)
  payment ← gets (payment_of trade_id)
  trade ← or_raise (not_found trade_not_found) found
  raise_if (is_paid payment) (conflict payment_reversal_required)
  close_trade now user trade_id reason trade payment

unfoldable pub cancel : ℕ → ℕ → ℕ → Text → Action TradeView
unfolding cancel_tx
cancel now user trade_id reason = do
  updated ← transaction (cancel_tx now user trade_id reason)
  pure (serialize updated user)
