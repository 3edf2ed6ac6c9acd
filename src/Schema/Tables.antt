-- ===== src/Schema/Tables.antt =====
-- The queries on one table that several services make. An `update` names its row by the primary
-- key and fails when there is none; the columns marked `@updatedAt` are set by every update.
use gamja_market.Schema.{ProductImage, PaymentWebhook, OutboxEvent}
use gamja_market.Base.{◌++◌, List, is_some, ℕ, Bool, ◌&&◌, not, ◌||◌, Option, none, some, ◌∷◌, ◌==◌}
use gamja_market.Base.Text.{Text, text_eq, is_text}
use gamja_market.Schema.Enums.{same_entry}
use gamja_market.Schema.Records.{
  Db, Product, Trade, TradeHistory, Payment, LedgerEntry, PaymentOperation,
}
use gamja_market.Schema.Rows.{find_first, update_many, count}
use gamja_market.Schema.Action.{Action, Void, ok, err, p2002, p2025, value_out_of_range}
use gamja_market.Base.Int.{ℤ, pos, negsuc}
use gamja_market.Base.{true, false, ltb}

-- `@updatedAt` of `Trade`.
abbrev pub touch : ℕ → Trade → Trade
touch now t = record t { updated_at = now }

-- `tx.trade.update({ where: { id }, data })`
unfoldable pub update_trade : ℕ → ℕ → (Trade → Trade) → Action Trade
update_trade now id change db = elim (find_first (λ t. t.id == id) db.trades) [
  | none ↦ (err p2025, db)
  | some t ↦ (
    ok (touch now (change t)),
    record db { trades = update_many (λ r. r.id == id) (λ r. touch now (change r)) db.trades },
  )
]

-- `tx.trade.updateMany({ where, data })`
unfoldable pub update_trades : ℕ → (Trade → Bool) → (Trade → Trade) → Action ℕ
update_trades now p change db = (
  ok (count p db.trades),
  record db { trades = update_many p (λ r. touch now (change r)) db.trades },
)

-- `tx.trade.create({ data })`: the primary key is unique.
unfoldable pub create_trade : Trade → Action Trade
create_trade t db = elim (find_first (λ r. r.id == t.id) db.trades) [
  | some r ↦ (err p2002, db)
  | none ↦ (ok t, record db { trades = t ∷ db.trades })
]

-- `tx.product.update({ where: { id }, data })`
unfoldable pub update_product : ℕ → (Product → Product) → Action Void
update_product id change db = elim (find_first (λ p. p.id == id) db.products) [
  | none ↦ (err p2025, db)
  | some p ↦ (ok tt, record db { products = update_many (λ r. r.id == id) change db.products })
]

-- `tx.product.updateMany({ where, data })`
unfoldable pub update_products : (Product → Bool) → (Product → Product) → Action ℕ
update_products p change db =
    (ok (count p db.products), record db { products = update_many p change db.products })

-- `tx.payment.update({ where: { id }, data })`
unfoldable pub update_payment : ℕ → (Payment → Payment) → Action Payment
update_payment id change db = elim (find_first (λ p. p.id == id) db.payments) [
  | none ↦ (err p2025, db)
  | some p ↦
      (ok (change p), record db { payments = update_many (λ r. r.id == id) change db.payments })
]

-- `tx.payment.updateMany({ where, data })`
unfoldable pub update_payments : (Payment → Bool) → (Payment → Payment) → Action ℕ
update_payments p change db =
    (ok (count p db.payments), record db { payments = update_many p change db.payments })

-- The payment key is unique: an `updateMany` that writes it fails when a row is updated and
-- another row has the key.
unfoldable pub is_key_clash : Text → (Payment → Bool) → Db → Bool
is_key_clash payment_key p db =
    is_some (find_first p db.payments)
    && is_some (find_first (λ r. not (p r) && is_text r.payment_key payment_key) db.payments)

-- `tx.tradeHistory.create({ data })`
unfoldable pub create_history : TradeHistory → Action Void
create_history h db = (ok tt, record db { histories = h ∷ db.histories })

-- `include: { payment: true }` of a trade: `Payment.tradeId` is unique.
unfoldable pub payment_of : ℕ → Db → Option Payment
payment_of trade_id db = find_first (λ p. p.trade_id == trade_id) db.payments

-- `tx.payment.create({ data })`: the id, the trade and the order are unique.
unfoldable pub create_payment : Payment → Action Payment
create_payment p db =
    elim (find_first (λ r. r.id == p.id || (r.trade_id == p.trade_id || r.order_id == p.order_id))
      db.payments) [
        | some r ↦ (err p2002, db)
        | none ↦ (ok p, record db { payments = p ∷ db.payments })
      ]

-- `tx.ledgerEntry.create({ data })`: `@@unique([paymentId, entryType])`.
unfoldable pub create_ledger_entry : LedgerEntry → Action Void
create_ledger_entry l db =
    elim (find_first (λ r. r.payment_id == l.payment_id && same_entry r.entry_type l.entry_type)
      db.ledger) [ some r ↦ (err p2002, db) | none ↦ (ok tt, record db { ledger = l ∷ db.ledger }) ]

-- `tx.paymentOperation.create({ data })`: the idempotency key is unique.
unfoldable pub create_operation : PaymentOperation → Action Void
create_operation o db =
    elim (find_first (λ r. text_eq r.idempotency_key o.idempotency_key) db.operations) [
      | some r ↦ (err p2002, db)
      | none ↦ (ok tt, record db { operations = o ∷ db.operations })
    ]

-- `prisma.outboxEvent.updateMany({ where, data })` and `update({ where: { id }, data })`
unfoldable pub update_outbox : (OutboxEvent → Bool) → (OutboxEvent → OutboxEvent) → Action ℕ
update_outbox p change db =
    (ok (count p db.outbox), record db { outbox = update_many p change db.outbox })

unfoldable pub update_outbox_event : ℕ → (OutboxEvent → OutboxEvent) → Action Void
update_outbox_event id change db = elim (find_first (λ e. e.id == id) db.outbox) [
  | none ↦ (err p2025, db)
  | some e ↦ (ok tt, record db { outbox = update_many (λ r. r.id == id) change db.outbox })
]

-- `prisma.paymentWebhook.update({ where: { id }, data })`
unfoldable pub update_webhook : ℕ → (PaymentWebhook → PaymentWebhook) → Action Void
update_webhook id change db = elim (find_first (λ w. w.id == id) db.webhooks) [
  | none ↦ (err p2025, db)
  | some w ↦ (ok tt, record db { webhooks = update_many (λ r. r.id == id) change db.webhooks })
]

-- `tx.paymentWebhook.create({ data })`: the id and the transmission id are unique.
-- Whether a number fits a column of type `Int`, which has 32 bits.
abbrev pub is_int32 : ℤ → Bool
is_int32 (pos n) = ltb n 2147483648
is_int32 (negsuc n) = ltb n 2147483648

-- The client refuses a sequence number that the column cannot hold.
unfoldable pub create_webhook : PaymentWebhook → Action PaymentWebhook
create_webhook w db = elim (is_int32 w.sequence) [
  | false ↦ (err value_out_of_range, db)
  | true ↦
      elim (find_first (λ r. r.id == w.id || text_eq r.transmission_id w.transmission_id)
        db.webhooks) [
          | some r ↦ (err p2002, db)
          | none ↦ (ok w, record db { webhooks = w ∷ db.webhooks })
        ]
]

-- `tx.outboxEvent.create({ data })`
unfoldable pub create_outbox_event : OutboxEvent → Action Void
create_outbox_event e db = elim (find_first (λ r. r.id == e.id) db.outbox) [
  | some r ↦ (err p2002, db)
  | none ↦ (ok tt, record db { outbox = e ∷ db.outbox })
]

-- `prisma.product.create` with its images: the id is unique, and so are the positions, which are
-- numbered by the caller.
unfoldable pub create_product : Product → List ProductImage → Action Void
create_product p images db = elim (find_first (λ r. r.id == p.id) db.products) [
  | some r ↦ (err p2002, db)
  | none ↦ (ok tt, record db { products = p ∷ db.products; images = images ++ db.images })
]
