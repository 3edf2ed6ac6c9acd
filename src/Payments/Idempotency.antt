-- ===== src/Payments/Idempotency.antt =====
-- The idempotency keys of apps/api/src/payments/payment.service.ts: a request that is sent again
-- is answered from its stored response.
use gamja_market.Base.{ℕ, ◌≡◌, Option, none, some, arith, Bool-cases, inl, inr}
use gamja_market.Base.Text.{Text, trim, text_eq_refl}
use gamja_market.Schema.{PaymentAction, Payment, Trade, StoredResponse, Db, find_first}
use gamja_market.Schema.Action.{ok}
use gamja_market.Schema.Action.Laws.{Result-cases}
use gamja_market.Schema.Tables.{
  create_payment, update_payments, update_payment, create_ledger_entry, update_trade,
  update_product, create_history,
}
use gamja_market.Payments.Model.{
  Hash, Provider, TossPayment, order_payload, confirm_payload, reverse_payload, key, replay,
  record_operation,
}
use gamja_market.Payments.Orders.{open_order, create_order}
use gamja_market.Payments.Confirm.{
  ConfirmInput, check_confirm, commit_confirm, confirm, is_mismatch,
}
use gamja_market.Payments.Reverse.{
  Reversal, check_reverse, commit_reverse, reverse, action_of, call_provider,
}
use gamja_market.Payments.Outcomes.{
  Replay-cases, replay_reads, check_confirm_reads, check_reverse_reads,
}

-- A recorded operation is found again by its key, under its action and its hash.
record-replay :
    (payment_id : ℕ) (k : Text) (a : PaymentAction) (h : ℕ) (v : StoredResponse) (db : Db)
    → (record_operation payment_id k a h v db).0 ≡ ok tt
    → (replay k a h (record_operation payment_id k a h v db).1).0 ≡ ok (some v)
unfolding record_operation replay find_first
record-replay payment_id k PaymentAction.create_order h v db r = ground (arith, text_eq_refl k)
record-replay payment_id k PaymentAction.confirm h v db r = ground (arith, text_eq_refl k)
record-replay payment_id k PaymentAction.cancel h v db r = ground (arith, text_eq_refl k)
record-replay payment_id k PaymentAction.refund h v db r = ground (arith, text_eq_refl k)

module _ (hash : Hash) where
  open_order-replay :
      (id order_id user trade_id : ℕ) (k : Text) (db : Db) (v : StoredResponse)
      → let a = PaymentAction.create_order in
        (open_order hash id order_id user trade_id k db).0 ≡ ok v
        → (replay k a
            (hash a (order_payload trade_id user))
            (open_order hash id order_id user trade_id k db).1).0
          ≡ ok (some v)
  unfolding open_order replay find_first record_operation create_payment
  open_order-replay id order_id user trade_id k db v r = ground (arith, text_eq_refl k)

commit_confirm-replay :
    (now : ℕ) (k : Text) (h : ℕ) (existing : Payment) (approved : TossPayment) (db : Db)
    (v : StoredResponse)
    → (commit_confirm now k h existing approved db).0 ≡ ok v
    → (replay k PaymentAction.confirm h (commit_confirm now k h existing approved db).1).0
      ≡ ok (some v)
unfolding commit_confirm replay find_first record_operation create_ledger_entry update_payments
commit_confirm-replay now k h existing approved db v r = ground (arith, text_eq_refl k)

commit_reverse-replay :
    (now user : ℕ) (reason k : Text) (h : ℕ) (action : Reversal) (existing : Payment)
    (trade : Trade) (db : Db) (v : StoredResponse)
    → (commit_reverse now user reason k h action existing trade db).0 ≡ ok v
    → (replay k
        (action_of action)
        h
        (commit_reverse now user reason k h action existing trade db).1).0
      ≡ ok (some v)
unfolding commit_reverse replay find_first record_operation create_ledger_entry update_payment
    update_trade update_product create_history
commit_reverse-replay now user reason k h Reversal.cancel existing trade db v r =
    ground (arith, text_eq_refl k)
commit_reverse-replay now user reason k h Reversal.refund existing trade db v r =
    ground (arith, text_eq_refl k)

module _ (hash : Hash) where
  -- A successful `createOrder` that is sent again with its key and its trade, by the same user,
  -- gives the same response and changes nothing, whatever ids are drawn.
  pub create_order-replay :
      (id order_id id' order_id' user trade_id : ℕ) (key_input : Option Text) (db db' : Db)
      (v : StoredResponse)
      → create_order hash id order_id user trade_id key_input db ≡ (ok v, db')
      → create_order hash id' order_id' user trade_id key_input db' ≡ (ok v, db')
  unfolding create_order
  create_order-replay id order_id id' order_id' user trade_id key_input db db' v r =
      elim (Result-cases (key key_input)) [
        | inl (e, ek) ↦ absurd (ground arith)
        | inr (k, ek) ↦
            let a = PaymentAction.create_order in
            let h = hash a (order_payload trade_id user) in
            let reads = replay_reads k a h db in
            let reads' = replay_reads k a h db' in
            elim (Replay-cases (replay k a h db).0) [
              | inr (inl (e, es)) ↦ absurd (ground arith)
              | inr (inr (x, es)) ↦ ground arith
              | inl es ↦ elim (Result-cases (open_order hash id order_id user trade_id k db).0) [
                | inl (e, eo) ↦ absurd (ground arith)
                | inr (w, eo) ↦
                    let again = open_order-replay hash id order_id user trade_id k db w eo in
                    ground arith
              ]
            ]
      ]

  -- A successful `confirm` that is sent again with its key and its input gives the same response
  -- and changes nothing, at whatever time and whatever the provider answers then.
  pub confirm-replay :
      (toss toss' : Provider) (now now' user user' order_id order_id' : ℕ) (input : ConfirmInput)
      (key_input : Option Text) (db db' : Db) (v : StoredResponse)
      → confirm hash toss now user order_id input key_input db ≡ (ok v, db')
      → confirm hash toss' now' user' order_id' input key_input db' ≡ (ok v, db')
  unfolding confirm
  confirm-replay toss toss' now now' user user' order_id order_id' input key_input db db' v r =
      elim (Result-cases (key key_input)) [
        | inl (e, ek) ↦ absurd (ground arith)
        | inr (k, ek) ↦
            let a = PaymentAction.confirm in
            let h = hash a (confirm_payload input.payment_key input.order_id input.amount_krw) in
            let reads = replay_reads k a h db in
            let reads' = replay_reads k a h db' in
            let checks = check_confirm_reads user order_id input db in
            elim (Replay-cases (replay k a h db).0) [
              | inr (inl (e, es)) ↦ absurd (ground arith)
              | inr (inr (x, es)) ↦ ground arith
              | inl es ↦ elim (Result-cases (check_confirm user order_id input db).0) [
                | inl (e, ec) ↦ absurd (ground arith)
                | inr (existing, ec) ↦
                    elim (Result-cases
                      (toss.confirm input.payment_key order_id existing.amount_krw k)) [
                        | inl (e, et) ↦ absurd (ground arith)
                        | inr (approved, et) ↦
                            elim (Bool-cases
                              (is_mismatch input.payment_key order_id existing approved)) [
                                | inl m ↦ absurd (ground arith)
                                | inr m ↦
                                    elim (Result-cases
                                      (commit_confirm now k h existing approved db).0) [
                                        | inl (e, eo) ↦ absurd (ground arith)
                                        | inr (w, eo) ↦
                                            let again =
                                              commit_confirm-replay now k h existing approved db w
                                                eo in
                                            ground arith
                                      ]
                              ]
                      ]
              ]
            ]
      ]

  -- A successful `cancel` or `refund` that is sent again with its key, its order and its reason, by
  -- the same user, gives the same response and changes nothing.
  pub reverse-replay :
      (toss toss' : Provider) (now now' user order_id : ℕ) (reason : Text) (key_input : Option Text)
      (action : Reversal) (db db' : Db) (v : StoredResponse)
      → reverse hash toss now user order_id reason key_input action db ≡ (ok v, db')
      → reverse hash toss' now' user order_id reason key_input action db' ≡ (ok v, db')
  unfolding reverse
  reverse-replay toss toss' now now' user order_id reason key_input action db db' v r =
      elim (Result-cases (key key_input)) [
        | inl (e, ek) ↦ absurd (ground arith)
        | inr (k, ek) ↦
            let a = action_of action in
            let h = hash a (reverse_payload order_id (trim reason) user) in
            let reads = replay_reads k a h db in
            let reads' = replay_reads k a h db' in
            let checks = check_reverse_reads now user order_id action db in
            elim (Replay-cases (replay k a h db).0) [
              | inr (inl (e, es)) ↦ absurd (ground arith)
              | inr (inr (x, es)) ↦ ground arith
              | inl es ↦ elim (Result-cases (check_reverse now user order_id action db).0) [
                | inl (e, ec) ↦ absurd (ground arith)
                | inr ((existing, payment_key, trade), ec) ↦
                    elim (Result-cases (call_provider toss action payment_key (trim reason) k)) [
                      | inl (e, et) ↦ absurd (ground arith)
                      | inr (none, et) ↦ absurd (ground arith)
                      | inr (some t, et) ↦
                          elim (Result-cases
                            (commit_reverse now user (trim reason) k h action existing trade
                              db).0) [
                                | inl (e, eo) ↦ absurd (ground arith)
                                | inr (w, eo) ↦
                                    let again =
                                      commit_reverse-replay now user (trim reason) k h action
                                        existing trade db w eo in
                                    ground arith
                              ]
                    ]
              ]
            ]
      ]
