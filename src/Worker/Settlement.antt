-- ===== src/Worker/Settlement.antt =====
-- apps/worker/src/settlement-maintenance.ts.
use gamja_market.Base.{
  ℕ, zero, suc, Bool, true, false, ◌&&◌, ◌||◌, not, none, some, List, [], ◌∷◌, ◌==◌, leb, length,
  take, is_at_most, if◌then◌else◌,
}
use gamja_market.Base.Int.{neg}
use gamja_market.Base.Text.{text, Text}
use gamja_market.Schema.{
  SettlementStatus, LedgerEntryType, is_approved, is_confirmed, Payment, LedgerEntry, Db,
  find_first, find_many, sort_by,
}
use gamja_market.Schema.Action.{
  Action, Void, Error, Result, ok, err, failure, pure, lift, gets, transaction, ◌>>=◌, ◌>>◌,
  payout_provider_not_configured, payout_provider_status,
}
use gamja_market.Schema.Tables.{update_payment, update_payments, create_ledger_entry}

pub data PayoutMode : Type 0 where
  sandbox provider : PayoutMode

-- The environment of `requestPayout`, and what `fetch` answers: whether the response is ok
-- with its status, or an exception. `message` is the text of an exception.
pub record Payout : Type 0 where
  pub is_sandbox : Bool
  pub has_url : Bool
  pub has_secret : Bool
  pub post : Payment → ℕ → Result (Bool × ℕ)
  pub message : Error → Text

-- `if (!response.ok) throw`
abbrev pub check_response : Result (Bool × ℕ) → Result PayoutMode
check_response (ok (true, status)) = ok provider
check_response (ok (false, status)) = err (failure (payout_provider_status status))
check_response (err e) = err e

unfoldable pub request_payout : Payout → Payment → ℕ → Result PayoutMode
request_payout env payment seller_id =
    if env.is_sandbox
    then ok sandbox
    else if not env.has_url || not env.has_secret
    then err (failure payout_provider_not_configured)
    else check_response (env.post payment seller_id)

-- `settlementStatus: { in: [READY, FAILED] }`
abbrev pub is_claimable : SettlementStatus → Bool
is_claimable SettlementStatus.ready = true
is_claimable SettlementStatus.failed = true
is_claimable _ = false

abbrev pub is_hold : SettlementStatus → Bool
is_hold SettlementStatus.hold = true
is_hold _ = false

-- `trade: { status: CONFIRMED }`
unfoldable pub has_confirmed_trade : Db → Payment → Bool
has_confirmed_trade db p = elim (find_first (λ t. t.id == p.trade_id) db.trades) [
  | none ↦ false
  | some t ↦ is_confirmed t.status
]

unfoldable pub seller_of : Db → Payment → ℕ
seller_of db p = elim (find_first (λ t. t.id == p.trade_id) db.trades) [
  | none ↦ 0
  | some t ↦ t.seller_id
]

-- The payments whose hold is over.
abbrev pub is_held_out : ℕ → Db → Payment → Bool
is_held_out now db p =
    is_approved p.status
    && (is_hold p.settlement_status
        && (is_at_most p.settlement_available_at now && has_confirmed_trade db p))

abbrev pub is_payable : Db → Payment → Bool
is_payable db p =
    is_approved p.status && (is_claimable p.settlement_status && has_confirmed_trade db p)

abbrev pub as_settlement : SettlementStatus → Payment → Payment
as_settlement s p = record p { settlement_status = s }

abbrev pub as_claimed : Payment → Payment
as_claimed p = record p { settlement_status = SettlementStatus.processing; failure_code = none }

abbrev pub settled_status : PayoutMode → SettlementStatus
settled_status sandbox = SettlementStatus.sandbox_settled
settled_status provider = SettlementStatus.settled

abbrev pub as_settled : ℕ → PayoutMode → Payment → Payment
as_settled now mode p = record p { settlement_status = settled_status mode; settled_at = some now }

-- 'SANDBOX_SETTLEMENT_RELEASED' and 'PAYOUT_PROVIDER_CONFIRMED'
abbrev pub settled_reason : PayoutMode → Text
settled_reason sandbox = text "SANDBOX_SETTLEMENT_RELEASED"
settled_reason provider = text "PAYOUT_PROVIDER_CONFIRMED"

abbrev pub settlement_entry : PayoutMode → Payment → LedgerEntry
settlement_entry mode payment = record {
  transaction_id = payment.order_id;
  payment_id = payment.id;
  trade_id = payment.trade_id;
  entry_type = LedgerEntryType.settlement;
  reason = settled_reason mode;
  amount_krw = neg payment.amount_krw;
}

-- The transaction that releases the escrow.
unfoldable pub release : ℕ → Payment → PayoutMode → Action Void
release now payment mode = do
  create_ledger_entry (settlement_entry mode payment)
  update_payment payment.id (as_settled now mode)
  pure tt

abbrev pub as_failed : Text → Payment → Payment
as_failed message p = record p {
  settlement_status = SettlementStatus.failed;
  failure_code = some (take 200 message);
}

-- The `catch` of the loop.
unfoldable pub catch_payout : Payout → Payment → Result Void → Action Bool
catch_payout env payment (ok _) db = (ok true, db)
catch_payout env payment (err e) db =
    (do update_payment payment.id (as_failed (env.message e)); pure false) db

-- The `try` of the loop, with its `catch`: whether the payment was settled.
unfoldable pub pay_out : Payout → ℕ → Payment → ℕ → Action Bool
unfolding catch_payout
pay_out env now payment seller_id db =
    let attempt : Action Void = do
      mode ← lift (request_payout env payment seller_id)
      transaction (release now payment mode)
    in let (r, db') = attempt db in catch_payout env payment r db'

-- The body of the loop after the claim, whose `count` is the last argument.
unfoldable pub after_claim : Payout → ℕ → Payment → ℕ → ℕ → Action Bool
after_claim env now payment seller_id claimed db =
    if claimed == 1 then pay_out env now payment seller_id db else (ok false, db)

unfoldable pub settle_payment : Payout → ℕ → Payment → ℕ → Action Bool
settle_payment env now payment seller_id = do
  claimed ← update_payments (λ p. p.id == payment.id && is_claimable p.settlement_status) as_claimed
  after_claim env now payment seller_id claimed

-- `for (const payment of due)`, each with the seller that was read with it
unfoldable pub settle_loop : Payout → ℕ → List (Payment × ℕ) → ℕ → Action ℕ
settle_loop env now [] settled = pure settled
settle_loop env now ((payment, seller_id) ∷ due) settled = do
  done ← settle_payment env now payment seller_id
  settle_loop env now due (if done then suc settled else settled)

-- `orderBy: { settlementAvailableAt: 'asc' }`, which puts null last, and `take: 50`
abbrev pub is_before : Payment → Payment → Bool
is_before p q = elim p.settlement_available_at [
  | none ↦ false
  | some a ↦ elim q.settlement_available_at [ none ↦ true | some b ↦ leb a b ]
]

unfoldable pub take_due : ℕ → Db → List Payment → List (Payment × ℕ)
take_due zero db ps = []
take_due (suc n) db [] = []
take_due (suc n) db (p ∷ ps) = (p, seller_of db p) ∷ take_due n db ps

pub record Settlements : Type 0 where
  pub candidates : ℕ
  pub settled : ℕ

unfoldable pub process_due_settlements : Payout → ℕ → Action Settlements
unfolding take_due
process_due_settlements env now = do
  released ← gets (is_held_out now)
  update_payments released (as_settlement SettlementStatus.ready)
  due ← gets λ db. take_due 50 db (sort_by is_before (find_many (is_payable db) db.payments))
  settled ← settle_loop env now due 0
  pure (record { candidates = length due; settled = settled })
