-- ===== src/Worker/Outbox.antt =====
-- apps/worker/src/payment-events.ts: the outbox, and the webhooks that it delivers.
pub mod Frame
pub mod Reconciled
pub mod Retry
use gamja_market.Base.{
  ℕ, ◌+◌, ◌*◌, ◌^◌, Bool, true, false, ◌&&◌, ◌||◌, not, Option, none, some, List, [], ◌∷◌, ◌==◌,
  leb, ltb, min, length, take, is_some, is_at_most, if◌then◌else◌,
}
use gamja_market.Base.Int.{◌==ℤ◌, ℤ, pos, leb_ℤ}
use gamja_market.Base.Text.{Text, text, text_eq}
use gamja_market.Schema.{
  OutboxStatus, PaymentStatus, WebhookProcessingStatus, is_approved, same_payment_status, Payment,
  PaymentWebhook, OutboxEvent, Db, find_first, find_many, sort_by,
}
use gamja_market.Schema.Action.{
  Action, Void, Error, Result, ok, err, failure, pure, lift, gets, or_raise, raise, transaction,
  modify, ◌>>=◌, ◌>>◌, p2025, payment_provider_not_configured, payment_provider_lookup_status,
}
use gamja_market.Schema.Tables.{update_payments, update_outbox, update_outbox_event, update_webhook}

-- `ProviderPayment`, and what `fetch` answers to `lookupPayment`: the response, whether it is ok
-- and its status; or an exception. `message` is the text of an exception.
pub record ProviderPayment : Type 0 where
  pub order_id : ℕ
  pub total_amount : ℤ
  pub status : Text

pub record Response : Type 0 where
  pub is_ok : Bool
  pub status : ℕ
  pub body : Result ProviderPayment

-- What the raw body of a webhook says: `data.paymentKey`, and the amount, by `data.amountKrw` when
-- that is not empty and else by `data.amount ?? 0`. The parser throws where `JSON.parse`, `BigInt`
-- or the access of a property of `undefined` do.
pub record Delivered : Type 0 where
  pub payment_key : Text
  pub amount : Result ℤ

pub record Events : Type 0 where
  pub has_secret : Bool
  pub fetch : Text → Result Response
  pub parse : Text → Result Delivered
  pub message : Error → Text

-- `lookupPayment`
abbrev pub check_lookup : Response → Result ProviderPayment
check_lookup r = if r.is_ok then r.body else err (failure (payment_provider_lookup_status r.status))

unfoldable pub lookup_payment : Events → Text → Result ProviderPayment
lookup_payment env payment_key =
    if not env.has_secret
    then err (failure payment_provider_not_configured)
    else elim (env.fetch payment_key) [ ok r ↦ check_lookup r | err e ↦ err e ]

-- `status: { in: [PENDING, FAILED] }`
abbrev pub is_waiting : OutboxStatus → Bool
is_waiting OutboxStatus.pending = true
is_waiting OutboxStatus.failed = true
is_waiting _ = false

abbrev pub is_processing : OutboxStatus → Bool
is_processing OutboxStatus.processing = true
is_processing _ = false

-- `claimedAt: { lte: Date.now() - 5 minutes }`, with the five minutes on the other side
abbrev pub is_stale : ℕ → OutboxEvent → Bool
is_stale now e =
    is_processing e.status
    && elim e.claimed_at [ none ↦ false | some at ↦ leb (at + 5 * 60 * 1000) now ]

abbrev pub as_stale : ℕ → OutboxEvent → OutboxEvent
as_stale now e = record e {
  status = OutboxStatus.failed;
  available_at = now;
  claimed_at = none;
  last_error = some (text "STALE_PROCESSING_CLAIM");
}

abbrev pub is_ready_event : ℕ → OutboxEvent → Bool
is_ready_event now e = is_waiting e.status && leb e.available_at now

-- The events that are handed to the queue: the jobs that `add` is called with, in this order.
abbrev pub job_of : OutboxEvent → ℕ × Text
job_of e = (e.id, e.type)

abbrev pub is_earlier : OutboxEvent → OutboxEvent → Bool
is_earlier a b = leb a.occurred_at b.occurred_at

unfoldable pub dispatch_outbox_jobs : ℕ → Action (List OutboxEvent)
dispatch_outbox_jobs now = do
  update_outbox (is_stale now) (as_stale now)
  gets λ db. take 100 (sort_by is_earlier (find_many (is_ready_event now) db.outbox))

abbrev pub as_claimed_event : ℕ → OutboxEvent → OutboxEvent
as_claimed_event now e = record e {
  status = OutboxStatus.processing;
  claimed_at = some now;
  attempts = e.attempts + 1;
  last_error = none;
}

abbrev pub as_processed : ℕ → OutboxEvent → OutboxEvent
as_processed now e = record e {
  status = OutboxStatus.processed;
  processed_at = some now;
  claimed_at = none;
}

-- `Math.min(3600, 2 ** Math.min(event.attempts, 10))`
unfoldable pub delay_seconds : ℕ → ℕ
delay_seconds attempts = min 3600 (2 ^ min attempts 10)

-- The `catch` of `processOutboxEvent`, by the attempts that were read.
abbrev pub as_retried : ℕ → ℕ → Text → OutboxEvent → OutboxEvent
as_retried now attempts message e = record e {
  status = if leb 10 attempts then OutboxStatus.dead_letter else OutboxStatus.failed;
  last_error = some (take 500 message);
  claimed_at = none;
  available_at = now + delay_seconds attempts * 1000;
}

abbrev pub as_finished : ℕ → WebhookProcessingStatus → Option Text → PaymentWebhook → PaymentWebhook
as_finished now status failure_code w = record w {
  processing_status = status;
  failure_code = failure_code;
  processed_at = some now;
}

-- `finish`
unfoldable pub finish : ℕ → ℕ → WebhookProcessingStatus → Text → Action Void
finish now id status failure_code = update_webhook id (as_finished now status (some failure_code))

abbrev pub is_received : WebhookProcessingStatus → Bool
is_received WebhookProcessingStatus.received = true
is_received _ = false

-- The status that the payment must have, by the status of the provider.
abbrev pub expected_status : Text → PaymentStatus → PaymentStatus
expected_status provider current =
    if text_eq provider (text "DONE")
    then PaymentStatus.approved
    else if text_eq provider (text "CANCELED") || text_eq provider (text "PARTIAL_CANCELED")
    then PaymentStatus.cancelled
    else current

abbrev pub is_lookup_mismatch : ProviderPayment → ℤ → Payment → Bool
is_lookup_mismatch verified amount payment =
    not (verified.order_id == payment.order_id)
    || (not (verified.total_amount ==ℤ pos payment.amount_krw)
        || not (amount ==ℤ pos payment.amount_krw))

abbrev pub as_reconciled : ℕ → ℤ → Payment → Payment
as_reconciled now sequence p = record p {
  last_webhook_sequence = sequence;
  reconciliation_checked_at = some now;
  failure_code = none;
}

-- The transaction of `processPaymentWebhook`: `updated.count === 1` decides the outcome.
unfoldable pub settle_webhook : ℕ → PaymentWebhook → Payment → Action Void
settle_webhook now webhook payment = do
  updated ←
      update_payments
        (λ p. p.id == payment.id && not (leb_ℤ webhook.sequence p.last_webhook_sequence))
        (as_reconciled now webhook.sequence)
  update_webhook webhook.id (
      if updated == 1
      then as_finished now WebhookProcessingStatus.processed none
      else as_finished now WebhookProcessingStatus.ignored (some (text "OUT_OF_ORDER")))

-- `processPaymentWebhook` after its look-up at the provider.
unfoldable pub check_webhook : ℕ → PaymentWebhook → Payment → ProviderPayment → ℤ → Action Void
check_webhook now webhook payment verified amount db =
    if is_lookup_mismatch verified amount payment
    then finish now webhook.id WebhookProcessingStatus.failed (text "PROVIDER_LOOKUP_MISMATCH") db
    else if not
        (same_payment_status payment.status (expected_status verified.status payment.status))
    then finish now webhook.id WebhookProcessingStatus.failed (text "PAYMENT_STATE_MISMATCH") db
    else transaction (settle_webhook now webhook payment) db

-- `processPaymentWebhook` of a received webhook of a payment.
unfoldable pub verify_payment : Events → ℕ → PaymentWebhook → Payment → Action Void
verify_payment env now webhook payment db =
    if leb_ℤ webhook.sequence payment.last_webhook_sequence
    then finish now webhook.id WebhookProcessingStatus.ignored (text "OUT_OF_ORDER") db
    else (do
      payload ← lift (env.parse webhook.raw_body)
      verified ← lift (lookup_payment env payload.payment_key)
      amount ← lift payload.amount
      check_webhook now webhook payment verified amount)
        db

-- The payment of a webhook, by `include: { payment: true }`.
unfoldable pub payment_of_webhook : PaymentWebhook → Db → Option Payment
payment_of_webhook webhook db = elim webhook.payment_id [
  | none ↦ none
  | some id ↦ find_first (λ p. p.id == id) db.payments
]

unfoldable pub process_received : Events → ℕ → PaymentWebhook → Option Payment → Action Void
process_received env now webhook none =
    finish now webhook.id WebhookProcessingStatus.failed (text "PAYMENT_NOT_FOUND")
process_received env now webhook (some payment) = verify_payment env now webhook payment

unfoldable pub process_found : Events → ℕ → Option PaymentWebhook → Action Void
process_found env now none db = (ok tt, db)
process_found env now (some webhook) db =
    if is_received webhook.processing_status
    then process_received env now webhook (payment_of_webhook webhook db) db
    else (ok tt, db)

unfoldable pub process_payment_webhook : Events → ℕ → ℕ → Action Void
process_payment_webhook env now webhook_id db =
    process_found env now (find_first (λ w. w.id == webhook_id) db.webhooks) db

-- The `try` of `processOutboxEvent`: whether the event was skipped.
unfoldable pub deliver_event : Events → ℕ → OutboxEvent → Action Void
deliver_event env now event db =
    if text_eq event.type (text "webhook.received")
    then process_payment_webhook env now event.aggregate_id db
    else (ok tt, db)

-- The `catch`: the event is kept for a retry, and the exception goes on.
unfoldable pub retry_event : Events → ℕ → OutboxEvent → Error → Action Bool
retry_event env now event e = do
  update_outbox_event event.id (as_retried now event.attempts (env.message e))
  raise e

unfoldable pub catch_event : Events → ℕ → OutboxEvent → Result Void → Action Bool
catch_event env now event (ok _) db = (ok false, db)
catch_event env now event (err e) db = retry_event env now event e db

unfoldable pub try_event : Events → ℕ → OutboxEvent → Action Bool
try_event env now event db =
    let attempt : Action Void = do
      deliver_event env now event
      update_outbox_event event.id (as_processed now)
    in let (r, db') = attempt db in catch_event env now event r db'

unfoldable pub after_event_claim : Events → ℕ → ℕ → ℕ → Action Bool
after_event_claim env now event_id claimed db =
    if claimed == 1
    then (do
      found ← gets λ db. find_first (λ e. e.id == event_id) db.outbox
      event ← or_raise p2025 found
      try_event env now event)
        db
    else (ok true, db)

unfoldable pub process_outbox_event : Events → ℕ → ℕ → Action Bool
process_outbox_event env now event_id = do
  claimed ← update_outbox (λ e. e.id == event_id && is_ready_event now e) (as_claimed_event now)
  after_event_claim env now event_id claimed
