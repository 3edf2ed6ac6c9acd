-- ===== src/Payments/Effects.antt =====
-- What the successful transactions of apps/api/src/payments/payment.service.ts have found and
-- written.
use gamja_market.Base.{
  ℕ, ◌≡◌, refl, ◌&&◌, ◌||◌, none, some, ◌∷◌, arith, ◌==◌, if◌then◌else◌, Option-cases, inl, inr,
}
use gamja_market.Base.Text.{Text}
use gamja_market.Schema.{
  is_ready, is_accepted, is_disputed, same_entry, TradeStatus, Payment, Trade, StoredResponse, Db,
  find_first, update_many,
}
use gamja_market.Schema.Action.{ok}
use gamja_market.Schema.Tables.{
  touch, update_payments, update_payment, update_trade, update_product, create_history,
  create_ledger_entry, create_payment,
}
use gamja_market.Schema.Rows.Laws.{
  has_key, HasUniqueKeys, find_first_holds, find_first_unique, find_first-update_many,
  update_many-narrow, count-find_none,
}
use gamja_market.Payments.Model.{Hash, TossPayment, record_operation}
use gamja_market.Payments.Confirm.{commit_confirm, as_approved, capture_entry}
use gamja_market.Payments.Reverse.{
  Reversal, commit_reverse, as_reversed, reversal_entry, entry_type_of,
}
use gamja_market.Payments.Orders.{open_order, new_payment}
use gamja_market.Trades.Model.{entry}
use gamja_market.Trades.Transitions.{as_cancelled, as_disputed, as_offered}

-- The payment `r` was ready, and is captured.
pub record Captured (now : ℕ) (existing : Payment) (approved : TossPayment) (r : Payment)
    (db db' : Db) : Type 0 where
  pub found : find_first (λ p. p.id == existing.id && is_ready p.status) db.payments ≡ some r
  pub payments :
      db'.payments
      ≡ update_many (has_key (λ p. p.id) existing.id) (as_approved now approved) db.payments
  pub ledger : db'.ledger ≡ capture_entry (as_approved now approved r) ∷ db.ledger
  pub trades : db'.trades ≡ db.trades
  pub products : db'.products ≡ db.products
  pub histories : db'.histories ≡ db.histories

pub commit_confirm-Captured :
    (now : ℕ) (k : Text) (request_hash : ℕ) (existing : Payment) (approved : TossPayment) (db : Db)
    (v : StoredResponse)
    → HasUniqueKeys (λ p. p.id) db.payments
    → (commit_confirm now k request_hash existing approved db).0 ≡ ok v
    → (r : Payment) × Captured now existing approved r db
        (commit_confirm now k request_hash existing approved db).1
unfolding commit_confirm update_payments create_ledger_entry record_operation
commit_confirm-Captured now k request_hash existing approved db v keys h =
    elim (Option-cases (find_first (λ p. p.id == existing.id && is_ready p.status) db.payments)) [
      | inl e ↦
          let none_ready =
            count-find_none (λ p. p.id == existing.id && is_ready p.status) db.payments e in
          absurd (ground arith)
      | inr (r, e) ↦
          let row =
            find_first_unique (λ p. p.id) existing.id (λ p. is_ready p.status) db.payments r
              (keys existing.id) e in
          let holds =
            find_first_holds (λ p. p.id == existing.id && is_ready p.status) db.payments r e in
          let after =
            find_first-update_many (λ p. p.id) existing.id
              (λ p. p.id == existing.id && is_ready p.status) (as_approved now approved) db.payments
              (λ p. refl) in
          let narrow =
            update_many-narrow (λ p. p.id) existing.id (λ p. is_ready p.status)
              (as_approved now approved) db.payments r (keys existing.id) e in
          (
            r,
            record {
              found = e;
              payments = ground arith;
              ledger = ground arith;
              trades = ground arith;
              products = ground arith;
              histories = ground arith;
            },
          )
    ]

-- The payment `r` was reversed, and the ledger says so.
pub record Reversed (now : ℕ) (reason : Text) (action : Reversal) (existing r : Payment)
    (db db' : Db) : Type 0 where
  pub found : find_first (λ p. p.id == existing.id) db.payments ≡ some r
  pub payments :
      db'.payments
      ≡ update_many (has_key (λ p. p.id) existing.id) (as_reversed now action) db.payments
  pub ledger : db'.ledger ≡ reversal_entry action reason (as_reversed now action r) ∷ db.ledger
  pub fresh :
      find_first
        (λ l. l.payment_id == r.id && same_entry l.entry_type (entry_type_of action))
        db.ledger
      ≡ none

-- The trade of a cancelled payment was cancelled, and its product is offered.
pub record TradeCancelled (now user : ℕ) (reason : Text) (trade : Trade) (db db' : Db)
    : Type 0 where
  pub trades :
      db'.trades
      ≡ update_many (λ t. t.id == trade.id) (λ t. touch now (as_cancelled now reason t)) db.trades
  pub products : db'.products ≡ update_many (λ p. p.id == trade.product_id) as_offered db.products
  pub histories :
      db'.histories
      ≡ entry trade.id (some user) (some trade.status) TradeStatus.cancelled (some reason)
        ∷ db.histories

-- The trade of a refunded payment became disputed, or was.
pub record TradeDisputed (now user : ℕ) (reason : Text) (trade : Trade) (db db' : Db) : Type 0 where
  pub products : db'.products ≡ db.products
  pub trades : db'.trades ≡ (
      if is_disputed trade.status
      then db.trades
      else update_many
          (λ t. t.id == trade.id)
          (λ t. touch now (as_disputed now reason t))
          db.trades)
  pub histories : db'.histories ≡ (
      if is_disputed trade.status
      then db.histories
      else entry trade.id (some user) (some trade.status) TradeStatus.disputed (some reason)
        ∷ db.histories)

module _ (now user : ℕ) (reason k : Text) (request_hash : ℕ) (existing : Payment) (trade : Trade)
    (db : Db) (v : StoredResponse) where
  pub commit_cancel-Reversed :
      (commit_reverse now user reason k request_hash Reversal.cancel existing trade db).0 ≡ ok v
      → let db' =
          (commit_reverse now user reason k request_hash Reversal.cancel existing trade db).1 in
        (r : Payment) × Reversed now reason Reversal.cancel existing r db db'
        × TradeCancelled now user reason trade db db'
  unfolding commit_reverse update_payment update_trade update_product create_history
      create_ledger_entry record_operation
  commit_cancel-Reversed h =
      elim (Option-cases (find_first (λ p. p.id == existing.id) db.payments)) [
        | inl e ↦ absurd (ground arith)
        | inr (r, e) ↦ (
          r,
          record {
            found = e;
            payments = ground arith;
            ledger = ground arith;
            fresh = ground arith;
          },
          record { trades = ground arith; products = ground arith; histories = ground arith },
        )
      ]

  pub commit_refund-Reversed :
      (commit_reverse now user reason k request_hash Reversal.refund existing trade db).0 ≡ ok v
      → let db' =
          (commit_reverse now user reason k request_hash Reversal.refund existing trade db).1 in
        (r : Payment) × Reversed now reason Reversal.refund existing r db db'
        × TradeDisputed now user reason trade db db'
  unfolding commit_reverse update_payment update_trade update_product create_history
      create_ledger_entry record_operation
  commit_refund-Reversed h =
      elim (Option-cases (find_first (λ p. p.id == existing.id) db.payments)) [
        | inl e ↦ absurd (ground arith)
        | inr (r, e) ↦ (
          r,
          record {
            found = e;
            payments = ground arith;
            ledger = ground arith;
            fresh = ground arith;
          },
          record { trades = ground arith; products = ground arith; histories = ground arith },
        )
      ]

-- The new payment of an order.
pub record Ordered (id order_id : ℕ) (trade : Trade) (db db' : Db) : Type 0 where
  pub fresh :
      find_first (λ p. p.id == id || (p.trade_id == trade.id || p.order_id == order_id)) db.payments
      ≡ none
  pub payments : db'.payments ≡ new_payment id order_id trade ∷ db.payments
  pub ledger : db'.ledger ≡ db.ledger
  pub trades : db'.trades ≡ db.trades
  pub products : db'.products ≡ db.products
  pub histories : db'.histories ≡ db.histories

module _ (hash : Hash) where
  pub open_order-Ordered :
      (id order_id user trade_id : ℕ) (k : Text) (db : Db) (v : StoredResponse)
      → (open_order hash id order_id user trade_id k db).0 ≡ ok v
      → (trade : Trade) × (find_first
            (λ t. t.id == trade_id && (t.buyer_id == user && is_accepted t.status))
            db.trades
          ≡ some trade)
        × Ordered id order_id trade db (open_order hash id order_id user trade_id k db).1
  unfolding open_order create_payment record_operation
  open_order-Ordered id order_id user trade_id k db v h =
      elim (Option-cases (
        find_first (λ t. t.id == trade_id && (t.buyer_id == user && is_accepted t.status))
          db.trades)) [
            | inl e ↦ absurd (ground arith)
            | inr (trade, e) ↦ (
              trade,
              e,
              record {
                fresh = ground arith;
                payments = ground arith;
                ledger = ground arith;
                trades = ground arith;
                products = ground arith;
                histories = ground arith;
              },
            )
          ]
