-- ===== src/Payments/Reverse.antt =====
-- apps/api/src/payments/payment.service.ts, `reverse`, and so `cancel` and `refund`.
use gamja_market.Base.{
  ℕ, ◌+◌, ◌*◌, Bool, true, false, ◌||◌, ◌&&◌, not, Option, none, some, [], ◌∷◌, ◌==◌, ltb,
}
use gamja_market.Base.Int.{neg}
use gamja_market.Base.Text.{Text, trim}
use gamja_market.Schema.{
  PaymentAction, PaymentStatus, SettlementStatus, TradeStatus, LedgerEntryType, is_accepted,
  is_confirmed, is_disputed, is_approved, Payment, Trade, LedgerEntry, StoredResponse,
}
use gamja_market.Schema.Action.{
  Action, Void, Result, ok, pure, lift, or_raise, raise_if, transaction, ◌>>=◌, ◌>>◌, conflict,
  forbidden, payment_not_reversible, payment_cancellation_not_allowed,
  payment_cancellation_window_expired, payment_refund_not_allowed, sandbox_payment_not_found,
}
use gamja_market.Schema.Tables.{
  update_payment, update_trade, update_product, create_history, create_ledger_entry,
}
use gamja_market.Trades.Model.{entry, day_ms}
use gamja_market.Trades.Transitions.{as_cancelled, as_disputed, as_offered}
use gamja_market.Payments.Orders.{participant_payment}
use gamja_market.Payments.Model.{
  Hash, Provider, TossPayment, reverse_payload, key, serialize, replay, or_else, record_operation,
}

-- The `action` parameter, `'CANCEL' | 'REFUND'`.
pub data Reversal : Type 0 where
  cancel refund : Reversal

abbrev pub action_of : Reversal → PaymentAction
action_of Reversal.cancel = PaymentAction.cancel
action_of Reversal.refund = PaymentAction.refund

-- `!existing.approvedAt || existing.approvedAt.getTime() + 7 days < Date.now()`
abbrev pub is_window_over : ℕ → Payment → Bool
is_window_over now p = elim p.approved_at [ none ↦ true | some at ↦ ltb (at + 7 * day_ms) now ]

-- The checks that depend on the action.
unfoldable pub check_action : ℕ → ℕ → Reversal → Payment → Trade → Action Void
check_action now user Reversal.cancel existing trade = do
  raise_if (not (is_accepted trade.status) || not (trade.buyer_id == user))
      (forbidden payment_cancellation_not_allowed)
  raise_if (is_window_over now existing) (conflict payment_cancellation_window_expired)
check_action now user Reversal.refund existing trade =
    raise_if (not (is_confirmed trade.status) && not (is_disputed trade.status))
      (conflict payment_refund_not_allowed)

-- `!existing.paymentKey` holds of null and of the empty string.
abbrev pub truthy : Option Text → Option Text
truthy none = none
truthy (some []) = none
truthy (some (c ∷ cs)) = some (c ∷ cs)

-- The checks before the provider is called: the payment, its provider key and its trade.
unfoldable pub check_reverse : ℕ → ℕ → ℕ → Reversal → Action (Payment × Text × Trade)
check_reverse now user order_id action = do
  (existing, trade) ← participant_payment user order_id
  raise_if (not (is_approved existing.status)) (conflict payment_not_reversible)
  payment_key ← or_raise (conflict payment_not_reversible) (truthy existing.payment_key)
  check_action now user action existing trade
  pure (existing, payment_key, trade)

abbrev pub as_reversed : ℕ → Reversal → Payment → Payment
as_reversed now Reversal.cancel p = record p {
  status = PaymentStatus.cancelled;
  settlement_status = SettlementStatus.paused;
  cancelled_at = some now;
}
as_reversed now Reversal.refund p = record p {
  status = PaymentStatus.refunded;
  settlement_status = SettlementStatus.paused;
  refunded_at = some now;
}

abbrev pub entry_type_of : Reversal → LedgerEntryType
entry_type_of Reversal.cancel = LedgerEntryType.cancellation
entry_type_of Reversal.refund = LedgerEntryType.refund

-- The trade of a cancelled payment is cancelled, and its product is offered again.
unfoldable pub cancel_trade : ℕ → ℕ → Text → Trade → Action Void
cancel_trade now user reason trade = do
  update_trade now trade.id (as_cancelled now reason)
  update_product trade.product_id as_offered
  create_history
      (entry trade.id (some user) (some trade.status) TradeStatus.cancelled (some reason))

-- The trade of a refunded payment becomes disputed, unless it was when it was read.
unfoldable pub dispute_trade : ℕ → ℕ → Text → Trade → Action Void
dispute_trade now user reason trade db = elim (is_disputed trade.status) [
  | true ↦ (ok tt, db)
  | false ↦
      (do
        update_trade now trade.id (as_disputed now reason)
        create_history
            (entry trade.id (some user) (some trade.status) TradeStatus.disputed (some reason)))
        db
]

-- What the transaction does to the trade, by the status that was read before it.
unfoldable pub reverse_trade : ℕ → ℕ → Text → Reversal → Trade → Action Void
unfolding cancel_trade dispute_trade
reverse_trade now user reason Reversal.cancel trade = cancel_trade now user reason trade
reverse_trade now user reason Reversal.refund trade = dispute_trade now user reason trade

abbrev pub reversal_entry : Reversal → Text → Payment → LedgerEntry
reversal_entry action reason payment = record {
  transaction_id = payment.order_id;
  payment_id = payment.id;
  trade_id = payment.trade_id;
  entry_type = entry_type_of action;
  reason = reason;
  amount_krw = neg payment.amount_krw;
}

-- The transaction of `reverse`.
unfoldable pub commit_reverse :
    ℕ → ℕ → Text → Text → ℕ → Reversal → Payment → Trade → Action StoredResponse
unfolding reverse_trade
commit_reverse now user reason idempotency_key request_hash action existing trade = do
  payment ← update_payment existing.id (as_reversed now action)
  reverse_trade now user reason action trade
  create_ledger_entry (reversal_entry action reason payment)
  record_operation payment.id idempotency_key (action_of action) request_hash (serialize payment)
  pure (serialize payment)

-- `this.toss.cancel` or `this.toss.refund`
abbrev pub call_provider : Provider → Reversal → Text → Text → Text → Result (Option TossPayment)
call_provider toss Reversal.cancel = toss.cancel
call_provider toss Reversal.refund = toss.refund

module _ (hash : Hash) (toss : Provider) where
  unfoldable pub reverse : ℕ → ℕ → ℕ → Text → Option Text → Reversal → Action StoredResponse
  reverse now user order_id reason_input key_input action = do
    let reason = trim reason_input
    idempotency_key ← lift (key key_input)
    let request_hash = hash (action_of action) (reverse_payload order_id reason user)
    replayed ← replay idempotency_key (action_of action) request_hash
    or_else replayed (do
      (existing, payment_key, trade) ← check_reverse now user order_id action
      answer ← lift (call_provider toss action payment_key reason idempotency_key)
      sandbox ← or_raise (conflict sandbox_payment_not_found) answer
      transaction
          (commit_reverse now user reason idempotency_key request_hash action existing trade))
