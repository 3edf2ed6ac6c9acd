-- ===== src/Payments/Model.antt =====
-- apps/api/src/payments/payment.service.ts: the idempotency key, its replay and its record; and
-- the payment provider, which apps/api/src/payments/toss-sandbox.adapter.ts reaches.
use gamja_market.Base.{ℕ, ◌||◌, not, Option, none, some, ◌==◌, ltb, length, if◌then◌else◌}
use gamja_market.Base.Text.{Text, trim, text_eq, to_string}
use gamja_market.Schema.{
  PaymentAction, same_action, Payment, PaymentOperation, StoredResponse, find_first,
}
use gamja_market.Schema.Action.{
  Action, Void, Result, ok, err, bad_request, conflict, idempotency_key_required,
  idempotency_key_reused,
}
use gamja_market.Schema.Tables.{create_operation}

-- `TossPayment['status']`
pub data TossStatus : Type 0 where
  done canceled refunded : TossStatus

pub record TossPayment : Type 0 where
  pub payment_key : Text
  pub order_id : ℕ
  pub amount_krw : ℕ
  pub status : TossStatus
  pub method_masked : Text

-- What the provider answers to the calls of one request: a payment, `undefined`, or an
-- exception of the adapter.
pub record Provider : Type 0 where
  pub confirm : Text → ℕ → ℕ → Text → Result TossPayment
  pub cancel : Text → Text → Text → Result (Option TossPayment)
  pub refund : Text → Text → Text → Result (Option TossPayment)
  pub lookup : Text → Result (Option TossPayment)

-- The payloads that are hashed with the action.
pub data Payload : Type 0 where
  order_payload : (trade_id buyer_id : ℕ) → Payload
  confirm_payload : (payment_key : Text) (order_id : ℕ) (amount_krw : Text) → Payload
  reverse_payload : (order_id : ℕ) (reason : Text) (actor_id : ℕ) → Payload

-- `createHash('sha256')` of the action and the payload.
abbrev pub Hash : Type 0
Hash = PaymentAction → Payload → ℕ

-- `key`, on the trimmed header
unfoldable pub check_key : Text → Result Text
check_key key =
    if ltb (length key) 8 || ltb 200 (length key)
    then err (bad_request idempotency_key_required)
    else ok key

-- `key`
unfoldable pub key : Option Text → Result Text
unfolding check_key
key none = err (bad_request idempotency_key_required)
key (some value) = check_key (trim value)

-- `serialize`
unfoldable pub serialize : Payment → StoredResponse
serialize payment = record {
  id = payment.id;
  trade_id = payment.trade_id;
  order_id = payment.order_id;
  payment_key = payment.payment_key;
  amount_krw = to_string payment.amount_krw;
  status = payment.status;
  settlement_status = payment.settlement_status;
  method_masked = payment.method_masked;
  approved_at = payment.approved_at;
  cancelled_at = payment.cancelled_at;
  refunded_at = payment.refunded_at;
  settlement_available_at = payment.settlement_available_at;
  settled_at = payment.settled_at;
  failure_code = payment.failure_code;
}

-- The stored response of an operation under the same action and hash.
unfoldable pub stored : PaymentAction → ℕ → Option PaymentOperation → Result (Option StoredResponse)
stored action request_hash none = ok none
stored action request_hash (some operation) =
    if not (same_action operation.action action) || not (operation.request_hash == request_hash)
    then err (conflict idempotency_key_reused)
    else ok (some operation.response)

-- `replay`
unfoldable pub replay : Text → PaymentAction → ℕ → Action (Option StoredResponse)
unfolding stored
replay idempotency_key action request_hash db = (
  stored action request_hash
      (find_first (λ o. text_eq o.idempotency_key idempotency_key) db.operations),
  db,
)

-- `if (replay) return replay;` before the rest of a method
abbrev pub or_else : Option StoredResponse → Action StoredResponse → Action StoredResponse
or_else none rest db = rest db
or_else (some r) rest db = (ok r, db)

-- `record`
unfoldable pub record_operation : ℕ → Text → PaymentAction → ℕ → StoredResponse → Action Void
unfolding create_operation
record_operation payment_id idempotency_key action request_hash response =
    create_operation (record {
      payment_id = payment_id;
      idempotency_key = idempotency_key;
      action = action;
      request_hash = request_hash;
      response = response;
    })
