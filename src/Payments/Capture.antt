-- ===== src/Payments/Capture.antt =====
-- What `confirm` and `reverse` of apps/api/src/payments/payment.service.ts have found, asked the
-- provider, and written to the payments and the ledger.
use gamja_market.Base.{arith, some, ℕ, ◌≡◌, ◌⊎◌, Option, inl, inr, ap}
use gamja_market.Base.Text.{Text, trim}
use gamja_market.Schema.{Payment, Trade, StoredResponse, Db}
use gamja_market.Schema.Action.{ok}
use gamja_market.Schema.Rows.Laws.{HasUniqueKeys}
use gamja_market.Payments.Model.{Hash, Provider, TossPayment, key}
use gamja_market.Payments.Confirm.{ConfirmInput, confirm}
use gamja_market.Payments.Reverse.{Reversal, reverse, commit_reverse, call_provider}
use gamja_market.Payments.Effects.{
  commit_confirm-Captured, Reversed, commit_cancel-Reversed, commit_refund-Reversed,
}
use gamja_market.Payments.Outcomes.{confirm-outcome, reverse-outcome, check_reverse-Reversible}
use gamja_market.Payments.Booking.{
  Confirmable, ApprovedBy, Booked, Refundable, Unbooked, check_confirm-Confirmable,
  is_mismatch-ApprovedBy, Captured-Booked, is_allowed-IsAllowed, Reversed-Unbooked,
}

commit_reverse-Reversed :
    (now user : ℕ) (reason k : Text) (h : ℕ) (action : Reversal) (existing : Payment)
    (trade : Trade) (db : Db) (v : StoredResponse)
    → (commit_reverse now user reason k h action existing trade db).0 ≡ ok v
    → (r : Payment) × Reversed now reason action existing r db
        (commit_reverse now user reason k h action existing trade db).1
commit_reverse-Reversed now user reason k h Reversal.cancel existing trade db v done =
    let (r, c, _) = commit_cancel-Reversed now user reason k h existing trade db v done in (r, c)
commit_reverse-Reversed now user reason k h Reversal.refund existing trade db v done =
    let (r, c, _) = commit_refund-Reversed now user reason k h existing trade db v done in (r, c)

module _ (hash : Hash) (toss : Provider) (db : Db) where
  -- When the ids of the payments are unique, `confirm` changes nothing, or its key is valid, its
  -- checks have found the ready payment of the order, its accepted trade and its reserved product,
  -- the provider has answered to that key and that amount with the very payment, done, and exactly
  -- that payment is approved, with one ledger entry of its whole amount.
  pub confirm-Captured :
      (now user order_id : ℕ) (input : ConfirmInput) (key_input : Option Text)
      → HasUniqueKeys (λ p. p.id) db.payments
      → let db' = (confirm hash toss now user order_id input key_input db).1 in
        (db' ≡ db)
        ⊎ ((k : Text) × (existing : Payment) × (trade : Trade) × (approved : TossPayment) × (key
                key_input
              ≡ ok k)
            × Confirmable user order_id input existing trade db
            × ApprovedBy toss k order_id input existing approved
            × Booked now existing approved db db')
  confirm-Captured now user order_id input key_input keys =
      elim (confirm-outcome hash toss now user order_id input key_input db) [
        | inl same ↦ inl same
        | inr (k, h, existing, approved, v, ec, ek, et, m, _, e) ↦
            let (trade, checked) = check_confirm-Confirmable user order_id input db existing ec in
            let (r, c) =
              commit_confirm-Captured now k h existing approved db v keys (ap (λ x. x.0) e) in
            let c' =
              Captured-Booked now user order_id input existing approved r trade db _ keys checked
                c in
            inr (
              k,
              existing,
              trade,
              approved,
              ek,
              checked,
              is_mismatch-ApprovedBy toss k order_id input existing approved et m,
              rw (ap (λ x. x.1) e) at c',
            )
      ]

  -- When the ids of the payments are unique, `cancel` and `refund` change nothing, or their key is
  -- valid, their checks have found the approved payment of the order and its trade and allow the
  -- reversal, the provider has answered with a payment, and exactly that payment is reversed, with
  -- one ledger entry of minus its whole amount, the first of its kind for the payment.
  pub reverse-Reversed :
      (now user order_id : ℕ) (reason : Text) (key_input : Option Text) (action : Reversal)
      → HasUniqueKeys (λ p. p.id) db.payments
      → let db' = (reverse hash toss now user order_id reason key_input action db).1 in
        (db' ≡ db)
        ⊎ ((k pk : Text) × (existing : Payment) × (trade : Trade) × (answer : TossPayment) × (key
                key_input
              ≡ ok k)
            × Refundable now user order_id action pk existing trade db
            × (call_provider toss action pk (trim reason) k ≡ ok (some answer))
            × Unbooked now (trim reason) action existing db db')
  reverse-Reversed now user order_id reason key_input action keys =
      elim (reverse-outcome hash toss now user order_id reason key_input action db) [
        | inl same ↦ inl same
        | inr (k, h, existing, pk, trade, v, ec, ek, (t, et), _, e) ↦
            let (c, row, participant, paid) =
              check_reverse-Reversible now user order_id action db existing pk trade ec in
            let (r, d) =
              commit_reverse-Reversed now user (trim reason) k h action existing trade db v
                (ap (λ x. x.0) e) in
            let d' =
              Reversed-Unbooked now order_id (trim reason) action existing r db _ keys row d in
            inr (
              k,
              pk,
              existing,
              trade,
              t,
              ek,
              record {
                row = row;
                captured = ground (arith, c.captured);
                paid_with = paid;
                trade_row = c.trade_row;
                participant = participant;
                allowed = is_allowed-IsAllowed now user action existing trade c.allowed;
              },
              et,
              rw (ap (λ x. x.1) e) at d',
            )
      ]
