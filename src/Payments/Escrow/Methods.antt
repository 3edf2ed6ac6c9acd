-- ===== src/Payments/Escrow/Methods.antt =====
-- Every request of apps/api/src/payments/payment.service.ts keeps the escrow invariant.
use gamja_market.Base.{ℕ, ◌≡◌, refl, true, ◌&&◌, ◌||◌, Option, arith, ◌==◌, inl, inr, ap}
use gamja_market.Base.Int.{◌+ℤ◌}
use gamja_market.Base.Text.{Text, trim}
use gamja_market.Schema.{is_ready, is_approved, Payment, Trade, StoredResponse, Db}
use gamja_market.Schema.Action.{ok}
use gamja_market.Schema.Rows.Laws.{
  has_key, find_first_holds, find_first_unique, find_first-own, find_none-weaken,
}
use gamja_market.Payments.Model.{Hash, Provider, TossPayment}
use gamja_market.Payments.Orders.{create_order, new_payment}
use gamja_market.Payments.Confirm.{ConfirmInput, confirm, as_approved, capture_entry}
use gamja_market.Payments.Reverse.{Reversal, reverse, commit_reverse, as_reversed, reversal_entry}
use gamja_market.Payments.Effects.{
  Captured, commit_confirm-Captured, Reversed, commit_cancel-Reversed, commit_refund-Reversed,
  Ordered, open_order-Ordered,
}
use gamja_market.Payments.Outcomes.{
  create_order-outcome, confirm-outcome, reverse-outcome, Reversible, check_reverse-Reversible,
}
use gamja_market.Payments.Escrow.{HasEscrow, IsConsistent, expected}
use gamja_market.Payments.Escrow.Tables.{book-IsEscrowed, new-IsEscrowed}

-- A capture adds the amount to what a ready payment holds.
capture_expected :
    (now : ℕ) (a : TossPayment) (r : Payment)
    → is_ready r.status ≡ true
    → IsConsistent r
    → (expected (as_approved now a r)
        ≡ (capture_entry (as_approved now a r)).amount_krw +ℤ expected r)
      × IsConsistent (as_approved now a r)
unfolding ◌+ℤ◌
capture_expected now a r s c = (ground arith, refl)

-- A reversal takes it off what a captured payment holds.
reverse_expected :
    (now : ℕ) (reason : Text) (action : Reversal) (r : Payment)
    → is_approved r.status ≡ true
    → IsConsistent r
    → (expected (as_reversed now action r)
        ≡ (reversal_entry action reason (as_reversed now action r)).amount_krw +ℤ expected r)
      × IsConsistent (as_reversed now action r)
unfolding ◌+ℤ◌
reverse_expected now reason Reversal.cancel r s c = (ground arith, refl)
reverse_expected now reason Reversal.refund r s c = (ground arith, ground arith)

module _ (db : Db) (h : HasEscrow db) where
  pub Captured-HasEscrow :
      (now : ℕ) (existing : Payment) (a : TossPayment) (r : Payment) (db' : Db)
      → Captured now existing a r db db'
      → HasEscrow db'
  Captured-HasEscrow now existing a r db' c =
      let holds =
        find_first_holds (λ p. p.id == existing.id && is_ready p.status) db.payments r c.found in
      rw (c.payments, c.ledger)
        (book-IsEscrowed db.payments db.ledger h existing.id (as_approved now a) r
          (capture_entry (as_approved now a r))
          (find_first_unique (λ p. p.id) existing.id (λ p. is_ready p.status) db.payments r
            (h.keys existing.id) c.found)
          (λ p. refl) (ground arith) (capture_expected now a r (ground arith)))

  keeps_id : (now : ℕ) (action : Reversal) (p : Payment) → (as_reversed now action p).id ≡ p.id
  keeps_id now Reversal.cancel p = refl
  keeps_id now Reversal.refund p = refl

  pub Reversed-HasEscrow :
      (asked now user : ℕ) (reason : Text) (action : Reversal) (existing r : Payment)
      (trade : Trade) (db' : Db)
      → Reversed now reason action existing r db db'
      → Reversible asked user action existing trade db
      → HasEscrow db'
  Reversed-HasEscrow asked now user reason action existing r trade db' c k =
      let own =
        find_first-own (λ p. p.id) (λ p. p.order_id == k.row.0) db.payments existing
          (h.keys existing.id) k.row.1 in
      let same : r ≡ existing = ground (arith, c.found) in
      let rid = keeps_id now action r in
      rw (c.payments, c.ledger)
        (book-IsEscrowed db.payments db.ledger h existing.id (as_reversed now action) r
          (reversal_entry action reason (as_reversed now action r)) c.found (keeps_id now action)
          (ground arith) (reverse_expected now reason action r (ground arith)))

  pub Ordered-HasEscrow :
      (id order_id : ℕ) (trade : Trade) (db' : Db)
      → Ordered id order_id trade db db'
      → HasEscrow db'
  Ordered-HasEscrow id order_id trade db' o =
      rw (o.payments, o.ledger)
        (new-IsEscrowed db.payments db.ledger h (new_payment id order_id trade)
          (find_none-weaken (λ p. p.id == id || (p.trade_id == trade.id || p.order_id == order_id))
            (has_key (λ p. p.id) id) db.payments (λ r e. ground arith) o.fresh)
          refl refl)

  pub commit-HasEscrow :
      (asked now user : ℕ) (reason k : Text) (request_hash : ℕ) (action : Reversal)
      (existing : Payment) (trade : Trade) (v : StoredResponse)
      → Reversible asked user action existing trade db
      → (commit_reverse now user reason k request_hash action existing trade db).0 ≡ ok v
      → HasEscrow (commit_reverse now user reason k request_hash action existing trade db).1
  commit-HasEscrow asked now user reason k request_hash Reversal.cancel existing trade v allowed
        h_ok =
      let (r, c, _) =
        commit_cancel-Reversed now user reason k request_hash existing trade db v h_ok in
      Reversed-HasEscrow asked now user reason Reversal.cancel existing r trade _ c allowed
  commit-HasEscrow asked now user reason k request_hash Reversal.refund existing trade v allowed
        h_ok =
      let (r, c, _) =
        commit_refund-Reversed now user reason k request_hash existing trade db v h_ok in
      Reversed-HasEscrow asked now user reason Reversal.refund existing r trade _ c allowed

module _ (hash : Hash) (db : Db) (h : HasEscrow db) where
  pub create_order-HasEscrow :
      (id order_id user trade_id : ℕ) (key_input : Option Text)
      → HasEscrow (create_order hash id order_id user trade_id key_input db).1
  create_order-HasEscrow id order_id user trade_id key_input =
      elim (create_order-outcome hash id order_id user trade_id key_input db) [
        | inl same ↦ rw same h
        | inr (k, v, _, e) ↦
            let (trade, found, o) =
              open_order-Ordered hash id order_id user trade_id k db v (ap (λ r. r.0) e) in
            rw (← ap (λ r. r.1) e) (Ordered-HasEscrow db h id order_id trade _ o)
      ]

  module _ (toss : Provider) where
    pub confirm-HasEscrow :
        (now user order_id : ℕ) (input : ConfirmInput) (key_input : Option Text)
        → HasEscrow (confirm hash toss now user order_id input key_input db).1
    confirm-HasEscrow now user order_id input key_input =
        elim (confirm-outcome hash toss now user order_id input key_input db) [
          | inl same ↦ rw same h
          | inr (k, rh, existing, approved, v, ec, _, _, _, _, e) ↦
              let (r, c) =
                commit_confirm-Captured now k rh existing approved db v h.keys (ap (λ r. r.0) e) in
              rw (← ap (λ r. r.1) e) (Captured-HasEscrow db h now existing approved r _ c)
        ]

    pub reverse-HasEscrow :
        (now user order_id : ℕ) (reason : Text) (key_input : Option Text) (action : Reversal)
        → HasEscrow (reverse hash toss now user order_id reason key_input action db).1
    reverse-HasEscrow now user order_id reason key_input action =
        elim (reverse-outcome hash toss now user order_id reason key_input action db) [
          | inl same ↦ rw same h
          | inr (k, rh, existing, pk, trade, v, ec, _, _, _, e) ↦
              let ok_check =
                (check_reverse-Reversible now user order_id action db existing pk trade ec).0 in
              rw (← ap (λ r. r.1) e) (
                commit-HasEscrow db h now now user (trim reason) k rh action existing trade v
                  ok_check (ap (λ r. r.0) e))
        ]
