-- ===== src/Worker/Effects.antt =====
-- What a step of the loops of apps/worker/src/trade-maintenance.ts has found and written.
use gamja_market.Base.{
  is_some, true, not, is_at_most, ◌≤◌, ◌+◌, Option, ℕ, ◌≡◌, refl, ◌⊎◌, ◌&&◌, none, some, ◌∷◌, arith,
  ◌==◌, inl, inr, Option-cases,
}
use gamja_market.Base.Text.{text}
use gamja_market.Schema.{
  SettlementStatus, ProductStatus, is_delivered, is_accepted, TradeStatus, is_approved, is_reserved,
  Trade, Db, find_first, update_many, count,
}
use gamja_market.Schema.Rows.Laws.{
  has_key, HasUniqueKeys, find_first_holds, update_many-find_none, update_many-narrow, count-le,
  count-find_none, count-find_some, find_first_unique,
}
use gamja_market.Schema.Tables.{
  payment_of, touch, update_trade, update_trades, update_product, update_products, update_payments,
  create_history,
}
use gamja_market.Trades.Transitions.{as_confirmed}
use gamja_market.Worker.TradeMaintenance.{
  is_due, confirm_due_trade, is_expired, cancel_expired_trade,
}

-- The trade `t` was due, and is confirmed.
pub record Completed (now : ℕ) (trade t : Trade) (db db' : Db) : Type 0 where
  pub found : find_first (λ r. r.id == trade.id && is_due now r) db.trades ≡ some t
  pub delivered : t.status ≡ TradeStatus.delivered
  pub due : (at : ℕ) × (t.auto_confirm_at ≡ some at) × (at ≤ now)
  pub trades :
      db'.trades
      ≡ update_many
          (λ r. r.id == trade.id)
          (λ r. record r {
            status = TradeStatus.confirmed;
            confirmed_at = some now;
            updated_at = now;
          })
          db.trades
  pub products :
      db'.products
      ≡ update_many
          (λ p. p.id == trade.product_id)
          (λ p. record p { status = ProductStatus.sold })
          db.products
  pub payments :
      db'.payments
      ≡ update_many
          (λ p. p.trade_id == trade.id && is_approved p.status)
          (λ r. record r {
            settlement_status = SettlementStatus.hold;
            settlement_available_at = some (now + 604800000);
          })
          db.payments
  pub ledger : db'.ledger ≡ db.ledger
  pub histories :
      db'.histories
      ≡ record {
        trade_id = trade.id;
        actor_id = none;
        from_status = some TradeStatus.delivered;
        to_status = TradeStatus.confirmed;
        reason = some (text "AUTO_CONFIRMED_AFTER_7_DAYS");
      }
        ∷ db.histories

delivered_of : (s : TradeStatus) → is_delivered s ≡ true → s ≡ TradeStatus.delivered
delivered_of TradeStatus.delivered h = refl
delivered_of TradeStatus.requested h = absurd (ground arith)
delivered_of TradeStatus.rejected h = absurd (ground arith)
delivered_of TradeStatus.accepted h = absurd (ground arith)
delivered_of TradeStatus.confirmed h = absurd (ground arith)
delivered_of TradeStatus.disputed h = absurd (ground arith)
delivered_of TradeStatus.cancelled h = absurd (ground arith)

accepted_of : (s : TradeStatus) → is_accepted s ≡ true → s ≡ TradeStatus.accepted
accepted_of TradeStatus.accepted h = refl
accepted_of TradeStatus.requested h = absurd (ground arith)
accepted_of TradeStatus.rejected h = absurd (ground arith)
accepted_of TradeStatus.delivered h = absurd (ground arith)
accepted_of TradeStatus.confirmed h = absurd (ground arith)
accepted_of TradeStatus.disputed h = absurd (ground arith)
accepted_of TradeStatus.cancelled h = absurd (ground arith)

due_of : (o : Option ℕ) (now : ℕ) → is_at_most o now ≡ true → (at : ℕ) × (o ≡ some at) × (at ≤ now)
due_of none now h = absurd (ground arith)
due_of (some at) now h = (at, refl, ground arith)

none_of : {A : Type 0} (o : Option A) → not (is_some o) ≡ true → o ≡ none
none_of none h = refl
none_of (some a) h = absurd (ground arith)

count_due :
    (now : ℕ) (trade t : Trade) (db : Db)
    → HasUniqueKeys (λ t. t.id) db.trades
    → find_first (λ r. r.id == trade.id && is_due now r) db.trades ≡ some t
    → count (λ r. r.id == trade.id && is_due now r) db.trades ≡ 1
count_due now trade t db keys e = ground (
  arith,
  count-find_some (λ r. r.id == trade.id && is_due now r) db.trades t e,
  count-le (has_key (λ r. r.id) trade.id) (λ r. r.id == trade.id && is_due now r) db.trades
      (λ r h. ground arith),
  keys trade.id,
)

module _ (now : ℕ) (trade : Trade) (db : Db) where
  -- When the ids of the trades are unique, a round of `confirmDueTrades` changes nothing, or the trade
  -- was delivered and its time had come; then it is confirmed, its product is sold, its approved
  -- payments are on hold, the ledger stays, and the history says so.
  pub confirm_due_trade-outcome :
      HasUniqueKeys (λ t. t.id) db.trades
      → ((confirm_due_trade now trade db).1 ≡ db)
        ⊎ ((t : Trade) × Completed now trade t db (confirm_due_trade now trade db).1)
  unfolding confirm_due_trade update_trades update_product update_payments create_history
  confirm_due_trade-outcome keys =
      elim (Option-cases (find_first (λ r. r.id == trade.id && is_due now r) db.trades)) [
        | inl e ↦
            let no_row =
              update_many-find_none (λ r. r.id == trade.id && is_due now r)
                (λ r. touch now (as_confirmed now r)) db.trades e in
            let no_count = count-find_none (λ r. r.id == trade.id && is_due now r) db.trades e in
            inl (ground arith)
        | inr (t, e) ↦
            let one = count_due now trade t db keys e in
            let holds = find_first_holds (λ r. r.id == trade.id && is_due now r) db.trades t e in
            let narrow =
              update_many-narrow (λ r. r.id) trade.id (is_due now)
                (λ r. touch now (as_confirmed now r)) db.trades t (keys trade.id) e in
            elim (Option-cases (find_first (λ p. p.id == trade.product_id) db.products)) [
              | inl n ↦ inl (ground arith)
              | inr (p, s) ↦ inr (
                t,
                record {
                  found = e;
                  delivered = delivered_of t.status (ground arith);
                  due = due_of t.auto_confirm_at now (ground arith);
                  trades = ground arith;
                  products = ground arith;
                  payments = ground arith;
                  ledger = ground arith;
                  histories = ground arith;
                },
              )
            ]
      ]

-- The trade `t` was accepted and not paid in time, and is cancelled.
pub record Expired (now : ℕ) (candidate t : Trade) (db db' : Db) : Type 0 where
  pub found : find_first (λ r. r.id == candidate.id && is_expired now db r) db.trades ≡ some t
  pub accepted : t.status ≡ TradeStatus.accepted
  pub late : t.updated_at + 604800000 ≤ now
  pub unpaid : payment_of t.id db ≡ none
  pub trades :
      db'.trades
      ≡ update_many
          (λ r. r.id == t.id)
          (λ r. record r {
            status = TradeStatus.cancelled;
            cancelled_at = some now;
            reason = some (text "AUTO_CANCELLED_UNPAID_AFTER_7_DAYS");
            updated_at = now;
          })
          db.trades
  pub products :
      db'.products
      ≡ update_many
          (λ p. p.id == t.product_id && is_reserved p.status)
          (λ p. record p { status = ProductStatus.active })
          db.products
  pub payments : db'.payments ≡ db.payments
  pub ledger : db'.ledger ≡ db.ledger
  pub histories :
      db'.histories
      ≡ record {
        trade_id = t.id;
        actor_id = none;
        from_status = some TradeStatus.accepted;
        to_status = TradeStatus.cancelled;
        reason = some (text "AUTO_CANCELLED_UNPAID_AFTER_7_DAYS");
      }
        ∷ db.histories

module _ (now : ℕ) (candidate : Trade) (db : Db) where
  -- When the ids of the trades are unique, a round of `cancelExpiredUnpaidTrades` changes nothing, or
  -- the trade was accepted seven days ago or more and has no payment; then it is cancelled, its
  -- reserved product is offered, the payments and the ledger stay, and the history says so.
  pub cancel_expired_trade-outcome :
      HasUniqueKeys (λ t. t.id) db.trades
      → ((cancel_expired_trade now candidate db).1 ≡ db)
        ⊎ ((t : Trade) × Expired now candidate t db (cancel_expired_trade now candidate db).1)
  unfolding cancel_expired_trade update_trade update_products create_history
  cancel_expired_trade-outcome keys =
      elim (Option-cases
        (find_first (λ r. r.id == candidate.id && is_expired now db r) db.trades)) [
          | inl e ↦ inl (ground arith)
          | inr (t, e) ↦
              let holds =
                find_first_holds (λ r. r.id == candidate.id && is_expired now db r) db.trades t e in
              let same : candidate.id ≡ t.id = ground arith in
              let row : find_first (λ r. r.id == t.id) db.trades ≡ some t = rw same at (
                find_first_unique (λ r. r.id) candidate.id (is_expired now db) db.trades t
                  (keys candidate.id) e) in
              inr (
                t,
                record {
                  found = e;
                  accepted = accepted_of t.status (ground arith);
                  late = ground arith;
                  unpaid = none_of (payment_of t.id db) (ground arith);
                  trades = ground arith;
                  products = ground arith;
                  payments = ground arith;
                  ledger = ground arith;
                  histories = ground arith;
                },
              )
        ]
