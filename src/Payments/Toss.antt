-- ===== src/Payments/Toss.antt =====
-- apps/api/src/payments/toss-sandbox.adapter.ts: the provider, by its HTTP API or by the sandbox
-- that is kept in memory.
pub mod Sandbox
use gamja_market.Base.{
  ℕ, Bool, true, false, ◌||◌, not, Option, none, some, List, [], ◌∷◌, if◌then◌else◌,
}
use gamja_market.Base.Text.{Text, text, text_eq}
use gamja_market.Schema.Action.{
  Result, ok, err, bad_gateway, service_unavailable, payment_provider_not_configured,
  payment_provider_unavailable, payment_provider_rejected, rejected_with,
}
use gamja_market.Payments.Model.{TossStatus, TossPayment, Provider}

-- `TossResponse`, with the amount that `BigInt(payment.totalAmount)` gives, or its exception.
pub record TossResponse : Type 0 where
  pub payment_key : Text
  pub order_id : ℕ
  pub total_amount : Result ℕ
  pub status : Text
  pub method : Option Text
  pub card_number : Option Text

-- What `fetch` answers: whether the response is ok, the `code` of its body when there is one, and
-- what its body is.
pub record TossReply : Type 0 where
  pub is_ok : Bool
  pub code : Option Text
  pub body : Result TossResponse

-- The calls of the HTTP API.
pub data TossCall : Type 0 where
  confirm_call : (payment_key : Text) (order_id amount_krw : ℕ) (idempotency_key : Text) → TossCall
  cancel_call : (payment_key reason idempotency_key : Text) → TossCall
  lookup_call : (payment_key : Text) → TossCall

-- The environment: `useMemorySandbox()`, whether `secretKey` is set, and the network, where `fetch`
-- gives `none` when it throws.
pub record TossEnv : Type 0 where
  pub is_sandbox : Bool
  pub has_secret : Bool
  pub fetch : TossCall → Option TossReply

abbrev pub rejection : Option Text → Result TossResponse
rejection none = err (bad_gateway payment_provider_rejected)
rejection (some code) = err (bad_gateway (rejected_with code))

abbrev pub check_reply : Option TossReply → Result TossResponse
check_reply none = err (service_unavailable payment_provider_unavailable)
check_reply (some reply) = if not reply.is_ok then rejection reply.code else reply.body

-- `request`
unfoldable pub request : TossEnv → TossCall → Result TossResponse
request env call =
    if not env.has_secret
    then err (service_unavailable payment_provider_not_configured)
    else check_reply (env.fetch call)

abbrev pub status_of : Text → TossStatus
status_of status =
    if text_eq status (text "DONE")
    then TossStatus.done
    else if text_eq status (text "CANCELED") || text_eq status (text "PARTIAL_CANCELED")
    then TossStatus.canceled
    else TossStatus.refunded

-- `payment.card?.number ?? payment.method ?? '결제수단 비공개'`
abbrev pub method_of : Option Text → Option Text → Text
method_of (some number) method = number
method_of none (some method) = method
method_of none none = text "결제수단 비공개"

abbrev pub normalized : TossResponse → Result ℕ → Result TossPayment
normalized payment (err e) = err e
normalized payment (ok amount) = ok (record {
  payment_key = payment.payment_key;
  order_id = payment.order_id;
  amount_krw = amount;
  status = status_of payment.status;
  method_masked = method_of payment.card_number payment.method;
})

-- `normalize` of what `request` gives
unfoldable pub normalize : Result TossResponse → Result TossPayment
normalize (err e) = err e
normalize (ok payment) = normalized payment payment.total_amount

-- `payments`, the map of the sandbox
abbrev pub Sandbox : Type 0
Sandbox = List (Text × TossPayment)

-- `payments.get(key)`
unfoldable pub get : Text → Sandbox → Option TossPayment
get key [] = none
get key ((k, payment) ∷ payments) = if text_eq k key then some payment else get key payments

-- `payments.set(key, payment)`
unfoldable pub set : Text → TossPayment → Sandbox → Sandbox
set key payment [] = (key, payment) ∷ []
set key payment ((k, p) ∷ payments) =
    let rest = set key payment payments in
    if text_eq k key then (k, payment) ∷ payments else (k, p) ∷ rest

abbrev pub with_status : TossStatus → TossPayment → TossPayment
with_status status payment = record payment { status = status }

abbrev pub as_some : Result TossPayment → Result (Option TossPayment)
as_some (err e) = err e
as_some (ok payment) = ok (some payment)

abbrev pub as_refunded : Result TossPayment → Result (Option TossPayment)
as_refunded (err e) = err e
as_refunded (ok payment) = ok (some (with_status TossStatus.refunded payment))

abbrev pub new_sandbox_payment : Text → ℕ → ℕ → TossPayment
new_sandbox_payment payment_key order_id amount_krw = record {
  payment_key = payment_key;
  order_id = order_id;
  amount_krw = amount_krw;
  status = TossStatus.done;
  method_masked = text "카드 ****-****-****-4242";
}

-- The sandbox branch of `confirm`, by the payment that is there.
abbrev pub confirm_in : Text → ℕ → ℕ → Option TossPayment → Sandbox → Result TossPayment × Sandbox
confirm_in payment_key order_id amount_krw (some existing) payments = (ok existing, payments)
confirm_in payment_key order_id amount_krw none payments =
    let payment = new_sandbox_payment payment_key order_id amount_krw in
    (ok payment, set payment_key payment payments)

-- The sandbox branch of `cancel` and of `refund`.
abbrev pub reverse_in :
    TossStatus → Text → Option TossPayment → Sandbox → Result (Option TossPayment) × Sandbox
reverse_in status payment_key none payments = (ok none, payments)
reverse_in status payment_key (some existing) payments =
    let reversed = with_status status existing in
    (ok (some reversed), set payment_key reversed payments)

module _ (env : TossEnv) where
  unfoldable pub confirm : Text → ℕ → ℕ → Text → Sandbox → Result TossPayment × Sandbox
  confirm payment_key order_id amount_krw idempotency_key payments =
      if env.is_sandbox
      then confirm_in payment_key order_id amount_krw (get payment_key payments) payments
      else (
        normalize (request env (confirm_call payment_key order_id amount_krw idempotency_key)),
        payments,
      )

  unfoldable pub cancel : Text → Text → Text → Sandbox → Result (Option TossPayment) × Sandbox
  cancel payment_key reason idempotency_key payments =
      if env.is_sandbox
      then reverse_in TossStatus.canceled payment_key (get payment_key payments) payments
      else (
        as_some (normalize (request env (cancel_call payment_key reason idempotency_key))),
        payments,
      )

  unfoldable pub refund : Text → Text → Text → Sandbox → Result (Option TossPayment) × Sandbox
  refund payment_key reason idempotency_key payments =
      if env.is_sandbox
      then reverse_in TossStatus.refunded payment_key (get payment_key payments) payments
      else (
        as_refunded (normalize (request env (cancel_call payment_key reason idempotency_key))),
        payments,
      )

  unfoldable pub lookup : Text → Sandbox → Result (Option TossPayment)
  lookup payment_key payments =
      if env.is_sandbox
      then ok (get payment_key payments)
      else as_some (normalize (request env (lookup_call payment_key)))

  -- The adapter as the provider of the payment service, in one state of the sandbox.
  abbrev pub provider : Sandbox → Provider
  provider payments = record {
    confirm =
        λ payment_key order_id amount_krw k. (confirm payment_key order_id amount_krw k payments).0;
    cancel = λ payment_key reason k. (cancel payment_key reason k payments).0;
    refund = λ payment_key reason k. (refund payment_key reason k payments).0;
    lookup = λ payment_key. lookup payment_key payments;
  }
