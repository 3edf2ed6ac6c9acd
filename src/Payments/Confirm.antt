-- ===== src/Payments/Confirm.antt =====
-- apps/api/src/payments/payment.service.ts, `confirm`: the checks, the call of the provider, and
-- the transaction, which other requests may come between.
use gamja_market.Base.{ℕ, Bool, true, false, ◌||◌, ◌&&◌, not, Option, some, ◌==◌}
use gamja_market.Base.Int.{pos}
use gamja_market.Base.Text.{text, Text, text_eq, number_of}
use gamja_market.Schema.{
  p2002, PaymentAction, PaymentStatus, LedgerEntryType, is_accepted, is_ready, Payment, LedgerEntry,
  StoredResponse, find_first,
}
use gamja_market.Schema.Action.{
  Action, pure, lift, gets, or_raise, raise_if, transaction, ◌>>=◌, ◌>>◌, not_found, conflict,
  bad_gateway, p2025, order_id_mismatch, payment_not_found, payment_amount_mismatch,
  payment_not_ready, trade_product_state_mismatch, payment_provider_confirmation_mismatch,
}
use gamja_market.Schema.Tables.{is_key_clash, update_payments, create_ledger_entry}
use gamja_market.Payments.Model.{
  Hash, Provider, TossPayment, TossStatus, confirm_payload, key, serialize, replay, or_else,
  record_operation,
}
use gamja_market.Payments.Orders.{is_reserved_product}

-- `ConfirmPaymentDto`; `amountKrw` is a string of digits, which is hashed as it was sent.
pub record ConfirmInput : Type 0 where
  pub payment_key : Text
  pub order_id : ℕ
  pub amount_krw : Text

-- The checks before the provider is called. A payment has its trade by a foreign key.
unfoldable pub check_confirm : ℕ → ℕ → ConfirmInput → Action Payment
check_confirm user order_id input = do
  raise_if (not (input.order_id == order_id)) (conflict order_id_mismatch)
  found ← gets λ db. find_first (λ p. p.order_id == order_id) db.payments
  existing ← or_raise (not_found payment_not_found) found
  included ← gets λ db. find_first (λ t. t.id == existing.trade_id) db.trades
  trade ← or_raise (not_found payment_not_found) included
  raise_if (not (trade.buyer_id == user)) (not_found payment_not_found)
  raise_if (not (existing.amount_krw == number_of input.amount_krw))
      (conflict payment_amount_mismatch)
  raise_if (not (is_ready existing.status)) (conflict payment_not_ready)
  product ← gets λ db. find_first (λ p. p.id == trade.product_id) db.products
  raise_if (not (is_accepted trade.status) || not (is_reserved_product product))
      (conflict trade_product_state_mismatch)
  pure existing

-- `approved.status !== 'DONE'`
abbrev pub is_done : TossStatus → Bool
is_done TossStatus.done = true
is_done _ = false

-- Whether the provider has confirmed another payment than the one that was asked for.
abbrev pub is_mismatch : Text → ℕ → Payment → TossPayment → Bool
is_mismatch payment_key order_id existing approved =
    not (text_eq approved.payment_key payment_key)
    || (not (approved.order_id == order_id)
        || (not (approved.amount_krw == existing.amount_krw) || not (is_done approved.status)))

abbrev pub as_approved : ℕ → TossPayment → Payment → Payment
as_approved now approved p = record p {
  payment_key = some approved.payment_key;
  status = PaymentStatus.approved;
  method_masked = some approved.method_masked;
  approved_at = some now;
}

-- 'TOSS_SANDBOX_APPROVED'
abbrev pub approved_reason : Text
approved_reason = text "TOSS_SANDBOX_APPROVED"

abbrev pub capture_entry : Payment → LedgerEntry
capture_entry payment = record {
  transaction_id = payment.order_id;
  payment_id = payment.id;
  trade_id = payment.trade_id;
  entry_type = LedgerEntryType.escrow_capture;
  reason = approved_reason;
  amount_krw = pos payment.amount_krw;
}

-- The transaction of `confirm`.
unfoldable pub commit_confirm : ℕ → Text → ℕ → Payment → TossPayment → Action StoredResponse
commit_confirm now idempotency_key request_hash existing approved = do
  clash ← gets (is_key_clash approved.payment_key (λ p. p.id == existing.id && is_ready p.status))
  raise_if clash p2002
  changed ←
      update_payments (λ p. p.id == existing.id && is_ready p.status) (as_approved now approved)
  raise_if (not (changed == 1)) (conflict payment_not_ready)
  found ← gets λ db. find_first (λ p. p.id == existing.id) db.payments
  payment ← or_raise p2025 found
  create_ledger_entry (capture_entry payment)
  record_operation payment.id idempotency_key PaymentAction.confirm request_hash (serialize payment)
  pure (serialize payment)

module _ (hash : Hash) (toss : Provider) where
  unfoldable pub confirm : ℕ → ℕ → ℕ → ConfirmInput → Option Text → Action StoredResponse
  confirm now user order_id input key_input = do
    idempotency_key ← lift (key key_input)
    let request_hash =
        hash PaymentAction.confirm
          (confirm_payload input.payment_key input.order_id input.amount_krw)
    replayed ← replay idempotency_key PaymentAction.confirm request_hash
    or_else replayed (do
      existing ← check_confirm user order_id input
      approved ← lift (toss.confirm input.payment_key order_id existing.amount_krw idempotency_key)
      raise_if (is_mismatch input.payment_key order_id existing approved)
          (bad_gateway payment_provider_confirmation_mismatch)
      transaction (commit_confirm now idempotency_key request_hash existing approved))
