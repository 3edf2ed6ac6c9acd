-- ===== src/Payments/Webhook.antt =====
-- apps/api/src/payments/payment.service.ts: the webhooks of the payment provider.
pub mod Frame
pub mod Once
use gamja_market.Base.{
  ℕ, ◌+◌, ◌*◌, ◌-◌, Bool, true, false, ◌&&◌, ◌||◌, not, Option, none, some, List, [], ◌∷◌, ◌==◌,
  leb, ltb, length, is_some, if◌then◌else◌,
}
use gamja_market.Base.Int.{ℤ, pos, leb_ℤ, ◌==ℤ◌}
use gamja_market.Base.Text.{Text, text, text_eq, trim}
use gamja_market.Schema.{
  OutboxStatus, PaymentStatus, WebhookProcessingStatus, same_payment_status, Payment,
  PaymentWebhook, OutboxEvent, Db, find_first,
}
use gamja_market.Schema.Action.{
  Action, Void, Error, Result, ok, err, bad_request, p2002, p2025, pure, lift, gets, or_raise,
  raise, raise_if, transaction, modify, ◌>>=◌, ◌>>◌, webhook_transmission_id_required,
  webhook_signature_required, webhook_timestamp_invalid, webhook_signature_invalid, invalid_json,
}
use gamja_market.Schema.Tables.{
  update_payments, update_webhook, create_webhook, create_outbox_event,
}
use gamja_market.Payments.Model.{Provider, TossPayment, TossStatus}

-- What the environment and `node:crypto` give to `verifyWebhook`: `value` is the time of the header
-- in milliseconds or seconds, `none` when it is no number or before 1970; the signatures are the decoded header
-- and the HMAC of the time and the body.
pub record Verifier : Type 0 where
  pub has_secret : Bool
  pub is_test : Bool
  pub is_sandbox : Bool
  pub value : Text → Option ℕ
  pub signature : Text → List ℕ
  pub hmac : Text → Text → List ℕ

-- `value < 10_000_000_000 ? value * 1000 : value`
abbrev pub transmitted_ms : ℕ → ℕ
transmitted_ms value = if ltb value 10000000000 then value * 1000 else value

-- `Math.abs(Date.now() - transmittedMs) > 5 * 60 * 1000`
abbrev pub is_off : ℕ → ℕ → Bool
is_off now at = ltb (5 * 60 * 1000) ((now - at) + (at - now))

abbrev pub is_timely : ℕ → Option ℕ → Bool
is_timely now none = false
is_timely now (some value) = not (is_off now (transmitted_ms value))

-- A header that is there and is not empty.
abbrev pub header : Option Text → Option Text
header none = none
header (some []) = none
header (some (c ∷ cs)) = some (c ∷ cs)

unfoldable pub check_signature : Verifier → ℕ → Text → Option Text → Option Text → Result Void
check_signature v now raw_body (some time) (some signature) =
    if not v.has_secret
    then err (bad_request webhook_signature_required)
    else if not (is_timely now (v.value time))
    then err (bad_request webhook_timestamp_invalid)
    else if text_eq (v.signature signature) (v.hmac time raw_body)
    then ok tt
    else err (bad_request webhook_signature_invalid)
check_signature v now raw_body _ _ = err (bad_request webhook_signature_required)

-- `verifyWebhook`
unfoldable pub verify_webhook : Verifier → ℕ → Text → Option Text → Option Text → Result Void
verify_webhook v now raw_body time signature =
    if not v.has_secret && (v.is_test || v.is_sandbox)
    then ok tt
    else check_signature v now raw_body (header time) (header signature)

-- The body of a webhook, once `JSON.parse` has read it and the fields were checked; the parser
-- gives `none` where either throws. `amount` is what `BigInt(payload.data.amountKrw)` gives.
pub record WebhookPayload : Type 0 where
  pub event_type : Text
  pub sequence : ℤ
  pub payment_key : Text
  pub order_id : ℕ
  pub amount : Result ℤ
  pub status : Text

-- The answer of `receiveWebhook`.
pub record Receipt : Type 0 where
  pub duplicate : Bool
  pub status : WebhookProcessingStatus

abbrev pub seen : PaymentWebhook → Receipt
seen w = record { duplicate = true; status = w.processing_status }

abbrev pub fresh : WebhookProcessingStatus → Receipt
fresh status = record { duplicate = false; status = status }

abbrev pub invalid_webhook : ℕ → ℕ → Text → Text → PaymentWebhook
invalid_webhook now id transmission_id raw_body = record {
  id = id;
  payment_id = none;
  transmission_id = transmission_id;
  event_type = text "INVALID";
  event_status = text "INVALID";
  sequence = pos 0;
  raw_body = raw_body;
  processing_status = WebhookProcessingStatus.failed;
  failure_code = some (text "INVALID_WEBHOOK");
  processed_at = some now;
}

abbrev pub id_of : Option Payment → Option ℕ
id_of none = none
id_of (some p) = some p.id

abbrev pub new_webhook : ℕ → Option Payment → Text → WebhookPayload → Text → PaymentWebhook
new_webhook id payment transmission_id payload raw_body = record {
  id = id;
  payment_id = id_of payment;
  transmission_id = transmission_id;
  event_type = payload.event_type;
  event_status = payload.status;
  sequence = payload.sequence;
  raw_body = raw_body;
  processing_status = WebhookProcessingStatus.received;
  failure_code = none;
  processed_at = none;
}

abbrev pub webhook_event : ℕ → ℕ → ℕ → OutboxEvent
webhook_event now id webhook_id = record {
  id = id;
  type = text "webhook.received";
  aggregate_id = webhook_id;
  status = OutboxStatus.pending;
  attempts = 0;
  available_at = now;
  claimed_at = none;
  last_error = none;
  occurred_at = now;
  processed_at = none;
}

-- The transaction of `receiveWebhook`: the webhook and its event of the outbox.
unfoldable pub store_webhook :
    ℕ → ℕ → ℕ → Option Payment → Text → WebhookPayload → Text → Action PaymentWebhook
store_webhook now id event_id payment transmission_id payload raw_body = do
  stored ← create_webhook (new_webhook id payment transmission_id payload raw_body)
  create_outbox_event (webhook_event now event_id stored.id)
  pure stored

-- The `catch` around the transaction.
unfoldable pub raced : Text → Action Receipt
raced transmission_id = do
  found ← gets λ db. find_first (λ w. text_eq w.transmission_id transmission_id) db.webhooks
  webhook ← or_raise p2025 found
  pure (seen webhook)

unfoldable pub catch_stored :
    Text → Result PaymentWebhook → (PaymentWebhook → Action Receipt) → Action Receipt
catch_stored transmission_id (ok webhook) rest db = rest webhook db
catch_stored transmission_id (err p2002) rest db = raced transmission_id db
catch_stored transmission_id (err e) rest db = (err e, db)

abbrev pub finish_fields :
    ℕ → WebhookProcessingStatus → Option Text → PaymentWebhook → PaymentWebhook
finish_fields now status failure_code w = record w {
  processing_status = status;
  failure_code = failure_code;
  processed_at = some now;
}

-- `finishWebhook`
unfoldable pub finish_webhook : ℕ → ℕ → WebhookProcessingStatus → Option Text → Action Receipt
finish_webhook now id status failure_code = do
  update_webhook id (finish_fields now status failure_code)
  pure (fresh status)

abbrev pub status_of : TossStatus → PaymentStatus
status_of TossStatus.done = PaymentStatus.approved
status_of TossStatus.canceled = PaymentStatus.cancelled
status_of TossStatus.refunded = PaymentStatus.refunded

abbrev pub status_text : TossStatus → Text
status_text TossStatus.done = text "DONE"
status_text TossStatus.canceled = text "CANCELED"
status_text TossStatus.refunded = text "REFUNDED"

-- `verified.orderId !== ... || verified.amountKrw !== ... || verified.status !== ...`
abbrev pub is_sandbox_mismatch : TossPayment → ℤ → WebhookPayload → Payment → Bool
is_sandbox_mismatch verified amount payload payment =
    not (verified.order_id == payment.order_id)
    || (not (pos verified.amount_krw ==ℤ amount)
        || not (text_eq (status_text verified.status) payload.status))

abbrev pub with_sequence : ℤ → Payment → Payment
with_sequence s p = record p { last_webhook_sequence = s }

-- `if (updated.count !== 1)` and the two returns after it.
unfoldable pub finish_applied : ℕ → ℕ → ℕ → Action Receipt
finish_applied now id updated db =
    if updated == 1
    then finish_webhook now id WebhookProcessingStatus.processed none db
    else finish_webhook now id WebhookProcessingStatus.ignored (some (text "OUT_OF_ORDER")) db

unfoldable pub apply_sequence : ℕ → ℕ → WebhookPayload → Payment → Action Receipt
apply_sequence now id payload payment = do
  updated ←
      update_payments
        (λ p. p.id == payment.id && not (leb_ℤ payload.sequence p.last_webhook_sequence))
        (with_sequence payload.sequence)
  finish_applied now id updated

unfoldable pub compare_webhook : ℕ → ℕ → WebhookPayload → Payment → TossPayment → ℤ → Action Receipt
compare_webhook now id payload payment verified amount db =
    if is_sandbox_mismatch verified amount payload payment
    then finish_webhook now id WebhookProcessingStatus.failed
        (some (text "SANDBOX_LOOKUP_MISMATCH")) db
    else if not (same_payment_status payment.status (status_of verified.status))
    then finish_webhook now id WebhookProcessingStatus.failed (some (text "PAYMENT_STATE_MISMATCH"))
        db
    else apply_sequence now id payload payment db

-- `BigInt(payload.data.amountKrw)` is read only when the order is that of the payment.
unfoldable pub look_up_webhook :
    ℕ → ℕ → WebhookPayload → Payment → Option TossPayment → Action Receipt
look_up_webhook now id payload payment none db =
    finish_webhook now id WebhookProcessingStatus.failed (some (text "SANDBOX_LOOKUP_MISMATCH")) db
look_up_webhook now id payload payment (some verified) db =
    if not (verified.order_id == payment.order_id)
    then finish_webhook now id WebhookProcessingStatus.failed
        (some (text "SANDBOX_LOOKUP_MISMATCH")) db
    else (lift payload.amount >>= λ amount. compare_webhook now id payload payment verified amount)
        db

-- The end of `receiveWebhook` under `NODE_ENV === 'test'`, where no worker runs.
unfoldable pub process_inline :
    Provider → ℕ → WebhookPayload → Option Payment → PaymentWebhook → Action Receipt
process_inline toss now payload none webhook db =
    finish_webhook now webhook.id WebhookProcessingStatus.failed (some (text "PAYMENT_NOT_FOUND"))
      db
process_inline toss now payload (some payment) webhook db =
    if leb_ℤ payload.sequence payment.last_webhook_sequence
    then finish_webhook now webhook.id WebhookProcessingStatus.ignored (some (text "OUT_OF_ORDER"))
        db
    else (do
      verified ← lift (toss.lookup payload.payment_key)
      look_up_webhook now webhook.id payload payment verified)
        db

unfoldable pub after_store :
    Verifier → Provider → ℕ → WebhookPayload → Option Payment → PaymentWebhook → Action Receipt
after_store v toss now payload payment webhook db =
    if not v.is_test
    then (ok (fresh WebhookProcessingStatus.received), db)
    else process_inline toss now payload payment webhook db

unfoldable pub receive_payload :
    Verifier → Provider → ℕ → ℕ → ℕ → Text → WebhookPayload → Text → Action Receipt
receive_payload v toss now id event_id transmission_id payload raw_body db =
    let payment = find_first (λ p. p.order_id == payload.order_id) db.payments in
    let (r, db') =
      transaction (store_webhook now id event_id payment transmission_id payload raw_body) db in
    catch_stored transmission_id r (after_store v toss now payload payment) db'

unfoldable pub receive_new :
    Verifier → Provider → ℕ → ℕ → ℕ → Text → Option WebhookPayload → Text → Action Receipt
receive_new v toss now id event_id transmission_id none raw_body = do
  create_webhook (invalid_webhook now id transmission_id raw_body)
  pure (fresh WebhookProcessingStatus.failed)
receive_new v toss now id event_id transmission_id (some payload) raw_body =
    receive_payload v toss now id event_id transmission_id payload raw_body

-- `if (duplicate) return ...`
unfoldable pub receive_once :
    Verifier
    → Provider
    → ℕ
    → ℕ
    → ℕ
    → Text
    → Option WebhookPayload
    → Text
    → Option PaymentWebhook
    → Action Receipt
receive_once v toss now id event_id transmission_id parsed raw_body (some duplicate) db =
    (ok (seen duplicate), db)
receive_once v toss now id event_id transmission_id parsed raw_body none db =
    receive_new v toss now id event_id transmission_id parsed raw_body db

-- `transmissionIdInput?.trim()`, where an empty id counts as none
abbrev pub transmission : Option Text → Option Text
transmission none = none
transmission (some t) = header (some (trim t))

module _ (v : Verifier) (parse : Text → Option WebhookPayload) (toss : Provider) where
  unfoldable pub receive_webhook :
      ℕ → ℕ → ℕ → Option Text → Text → Option Text → Option Text → Action Receipt
  receive_webhook now id event_id transmission_input raw_body time signature = do
    transmission_id ←
        or_raise (bad_request webhook_transmission_id_required) (transmission transmission_input)
    lift (verify_webhook v now raw_body time signature)
    duplicate ← gets λ db. find_first (λ w. text_eq w.transmission_id transmission_id) db.webhooks
    receive_once v toss now id event_id transmission_id (parse raw_body) raw_body duplicate
