-- ===== src/Payments/Escrow/Trades.antt =====
-- Every method of apps/api/src/trades/trade.service.ts keeps the escrow invariant: what it writes to
-- the payments leaves what they hold.
use gamja_market.Base.{
  ℕ, ◌+◌, ◌≡◌, refl, true, ◌&&◌, Option, none, some, arith, ◌==◌, inl, inr, Option-cases,
}
use gamja_market.Base.Text.{Text}
use gamja_market.Schema.{
  Trade, SettlementStatus, is_requested, is_accepted, is_delivered, is_approved, Payment, Db,
  find_first, update_many,
}
use gamja_market.Schema.Action.{ok}
use gamja_market.Schema.Action.Laws.{Result-cases}
use gamja_market.Schema.Tables.{
  update_trade, update_trades, update_product, update_products, update_payment, update_payments,
  create_history, payment_of,
}
use gamja_market.Trades.Atomic.{
  accept-atomic, reject-atomic, deliver-atomic, confirm-atomic, dispute-atomic, cancel-atomic,
  request-atomic,
}
use gamja_market.Trades.Effects.{
  released, voided, release_product_lem, void_payment_lem, request-Requested,
}
use gamja_market.Trades.Model.{TradeView, is_participant}
use gamja_market.Trades.Request.{request}
use gamja_market.Trades.Transitions.{
  close_trade, accept, reject, deliver, confirm, dispute, cancel, start_hold, as_voided,
  is_disputable, is_cancellable, is_uncaptured, reject_competing,
}
use gamja_market.Payments.Escrow.{HasEscrow, IsEscrowed}
use gamja_market.Payments.Escrow.Tables.{keep-IsEscrowed}

-- The payments and the ledger are those of before.
abbrev Untouched : Db → Db → Type 0
Untouched db db' = (db'.payments ≡ db.payments) × (db'.ledger ≡ db.ledger)

module _ (now user tid : ℕ) (db : Db) where
  accept-Untouched :
      (v : TradeView) → (accept now user tid db).0 ≡ ok v → Untouched db (accept now user tid db).1
  unfolding accept update_trade update_trades update_products create_history reject_competing
  accept-Untouched v r =
      elim (Option-cases (
        find_first (λ t. t.id == tid && (t.seller_id == user && is_requested t.status))
          db.trades)) [ inl e ↦ absurd (ground arith) | inr (t, e) ↦ (ground arith, ground arith) ]

  reject-Untouched :
      (reason : Text) (v : TradeView)
      → (reject now user tid reason db).0 ≡ ok v
      → Untouched db (reject now user tid reason db).1
  unfolding reject update_trade create_history
  reject-Untouched reason v r =
      elim (Option-cases (
        find_first (λ t. t.id == tid && (t.seller_id == user && is_requested t.status))
          db.trades)) [ inl e ↦ absurd (ground arith) | inr (t, e) ↦ (ground arith, ground arith) ]

  deliver-Untouched :
      (v : TradeView)
      → (deliver now user tid db).0 ≡ ok v
      → Untouched db (deliver now user tid db).1
  unfolding deliver update_trade create_history
  deliver-Untouched v r =
      elim (Option-cases (
        find_first (λ t. t.id == tid && (t.seller_id == user && is_accepted t.status)) db.trades)) [
          | inl e ↦ absurd (ground arith)
          | inr (t, e) ↦ (ground arith, ground arith)
        ]

  -- When `confirm` of a trade succeeds, the trade has an approved payment, whose row is put on hold
  -- for seven days; the other payments and the ledger stay.
  pub confirm-Held :
      (v : TradeView)
      → (confirm now user tid db).0 ≡ ok v
      → (p : Payment) × (payment_of tid db ≡ some p)
        × (is_approved p.status ≡ true)
        × ((confirm now user tid db).1.payments
            ≡ update_many
                (λ r. r.id == p.id)
                (λ r. record r {
                  settlement_status = SettlementStatus.hold;
                  settlement_available_at = some (now + 604800000);
                })
                db.payments)
        × ((confirm now user tid db).1.ledger ≡ db.ledger)
  unfolding confirm update_trade create_history update_product update_payment
  confirm-Held v r =
      elim (Option-cases (
        find_first (λ t. t.id == tid && (t.buyer_id == user && is_delivered t.status)) db.trades)) [
          | inl e ↦ absurd (ground arith)
          | inr (t, e) ↦ elim (Option-cases (payment_of tid db)) [
            | inl n ↦ absurd (ground arith)
            | inr (p, s) ↦ (p, s, ground arith, ground arith, ground arith)
          ]
        ]

  dispute-Paused :
      (reason : Text) (v : TradeView)
      → (dispute now user tid reason db).0 ≡ ok v
      → ((dispute now user tid reason db).1.payments
          ≡ update_many
              (λ p. p.trade_id == tid)
              (λ p. record p { settlement_status = SettlementStatus.paused })
              db.payments)
        × ((dispute now user tid reason db).1.ledger ≡ db.ledger)
  unfolding dispute update_trade create_history update_payments
  dispute-Paused reason v r =
      elim (Option-cases (
        find_first (λ t. t.id == tid && (is_participant user t && is_disputable t.status))
          db.trades)) [ inl e ↦ absurd (ground arith) | inr (t, e) ↦ (ground arith, ground arith) ]

  close_trade-Voided :
      (reason : Text) (t : Trade) (p : Option Payment) (v : Trade)
      → (close_trade now user tid reason t p db).0 ≡ ok v
      → ((close_trade now user tid reason t p db).1.payments ≡ voided now p db.payments)
        × ((close_trade now user tid reason t p db).1.ledger ≡ db.ledger)
  unfolding close_trade update_trade create_history
  close_trade-Voided reason t p v r =
      let rel = release_product_lem t db in
      let void = void_payment_lem now p (record db { products = released t db.products }) in
      elim (Option-cases (find_first (λ r. r.id == tid) db.trades)) [
        | inl e ↦ absurd (ground arith)
        | inr (u, e) ↦ (ground arith, ground arith)
      ]

  cancel-Voided :
      (reason : Text) (v : TradeView)
      → (cancel now user tid reason db).0 ≡ ok v
      → ((cancel now user tid reason db).1.payments ≡ voided now (payment_of tid db) db.payments)
        × ((cancel now user tid reason db).1.ledger ≡ db.ledger)
  unfolding cancel
  cancel-Voided reason v r =
      elim (Option-cases (
        find_first (λ t. t.id == tid && (is_participant user t && is_cancellable t.status))
          db.trades)) [
            | inl e ↦ absurd (ground arith)
            | inr (t, e) ↦
                elim (Result-cases (close_trade now user tid reason t (payment_of tid db) db).0) [
                  | inl (x, c) ↦ absurd (ground arith)
                  | inr (u, c) ↦
                      let w = close_trade-Voided reason t (payment_of tid db) u c in
                      (ground arith, ground arith)
                ]
          ]

  module _ (h : HasEscrow db) where
    pub accept-HasEscrow : HasEscrow (accept now user tid db).1
    accept-HasEscrow = elim (Result-cases (accept now user tid db).0) [
      | inl (e, r) ↦ rw (accept-atomic now user tid db e r) h
      | inr (v, r) ↦ let (ps, ls) = accept-Untouched v r in rw (ps, ls) h
    ]

    pub reject-HasEscrow : (reason : Text) → HasEscrow (reject now user tid reason db).1
    reject-HasEscrow reason = elim (Result-cases (reject now user tid reason db).0) [
      | inl (e, r) ↦ rw (reject-atomic now user tid db e reason r) h
      | inr (v, r) ↦ let (ps, ls) = reject-Untouched reason v r in rw (ps, ls) h
    ]

    pub deliver-HasEscrow : HasEscrow (deliver now user tid db).1
    deliver-HasEscrow = elim (Result-cases (deliver now user tid db).0) [
      | inl (e, r) ↦ rw (deliver-atomic now user tid db e r) h
      | inr (v, r) ↦ let (ps, ls) = deliver-Untouched v r in rw (ps, ls) h
    ]

    pub confirm-HasEscrow : HasEscrow (confirm now user tid db).1
    confirm-HasEscrow = elim (Result-cases (confirm now user tid db).0) [
      | inl (e, r) ↦ rw (confirm-atomic now user tid db e r) h
      | inr (v, r) ↦
          let (p, _, _, ps, ls) = confirm-Held v r in
          rw (ps, ls)
            (keep-IsEscrowed db.payments db.ledger h (λ r. r.id == p.id) (start_hold now)
              (λ r. refl) (λ r _ c. (refl, c)))
    ]

    pub dispute-HasEscrow : (reason : Text) → HasEscrow (dispute now user tid reason db).1
    dispute-HasEscrow reason = elim (Result-cases (dispute now user tid reason db).0) [
      | inl (e, r) ↦ rw (dispute-atomic now user tid db e reason r) h
      | inr (v, r) ↦
          let (ps, ls) = dispute-Paused reason v r in
          rw (ps, ls)
            (keep-IsEscrowed db.payments db.ledger h (λ p. p.trade_id == tid)
              (λ p. record p { settlement_status = SettlementStatus.paused }) (λ r. refl)
              (λ r _ c. (refl, c)))
    ]

    -- An order that was not captured holds nothing, and holds nothing when it is cancelled.
    voided-HasEscrow : (p : Option Payment) → IsEscrowed (voided now p db.payments) db.ledger
    voided-HasEscrow none = h
    voided-HasEscrow (some p) =
        keep-IsEscrowed db.payments db.ledger h (λ r. r.id == p.id && is_uncaptured r.status)
          (as_voided now) (λ r. refl) (λ r e c. (ground arith, refl))

    pub cancel-HasEscrow : (reason : Text) → HasEscrow (cancel now user tid reason db).1
    cancel-HasEscrow reason = elim (Result-cases (cancel now user tid reason db).0) [
      | inl (e, r) ↦ rw (cancel-atomic now user tid db e reason r) h
      | inr (v, r) ↦
          let (ps, ls) = cancel-Voided reason v r in
          rw (ps, ls) (voided-HasEscrow (payment_of tid db))
    ]

-- A request has no payment yet.
pub request-HasEscrow :
    (now trade_id room_id user product_id : ℕ) (db : Db)
    → HasEscrow db
    → HasEscrow (request now trade_id room_id user product_id db).1
request-HasEscrow now trade_id room_id user product_id db h =
    elim (Result-cases (request now trade_id room_id user product_id db).0) [
      | inl (e, r) ↦ rw (request-atomic now user product_id db e trade_id room_id r) h
      | inr (v, r) ↦
          let (p, q) = request-Requested now trade_id room_id user product_id db v r in
          rw (q.payments, q.ledger) h
    ]
