-- ===== src/Payments/Booking.antt =====
-- What `confirm` and `reverse` of apps/api/src/payments/payment.service.ts may find and write, spelled
-- out row by row.
use gamja_market.Base.{
  ◌+◌, ◌≤◌, ◌∷◌, ◌==◌, ◌&&◌, arith, true, some, none, Option-cases, Bool-cases, ℕ, ◌≡◌, ◌⊎◌, false,
  inl, inr,
}
use gamja_market.Base.Text.{number_of, Text, text, text_eq}
use gamja_market.Base.Int.{pos, neg}
use gamja_market.Schema.{
  Payment, Trade, Db, PaymentStatus, TradeStatus, Product, ProductStatus, LedgerEntryType,
  SettlementStatus, find_first, update_many, same_entry, is_ready, is_confirmed,
}
use gamja_market.Schema.Action.{ok}
use gamja_market.Schema.Rows.Laws.{HasUniqueKeys, find_first-own, find_first_unique}
use gamja_market.Payments.Model.{Provider, TossPayment, TossStatus, key}
use gamja_market.Payments.Confirm.{ConfirmInput, check_confirm, is_mismatch}
use gamja_market.Payments.Reverse.{Reversal}
use gamja_market.Payments.Effects.{Captured, Reversed}
use gamja_market.Payments.Outcomes.{is_allowed}

-- What the checks of `confirm` have found: the payment of the order, ready, of the amount that was
-- sent; its trade, accepted and bought by the user; and its product, reserved.
pub record Confirmable (user order_id : ℕ) (input : ConfirmInput) (existing : Payment)
    (trade : Trade) (db : Db) : Type 0 where
  pub asked : input.order_id ≡ order_id
  pub row : find_first (λ p. p.order_id == order_id) db.payments ≡ some existing
  pub ready : existing.status ≡ PaymentStatus.ready
  pub amount : number_of input.amount_krw ≡ existing.amount_krw
  pub trade_row : find_first (λ t. t.id == existing.trade_id) db.trades ≡ some trade
  pub accepted : trade.status ≡ TradeStatus.accepted
  pub buyer : trade.buyer_id ≡ user
  pub product :
      (p : Product) × (find_first (λ r. r.id == trade.product_id) db.products ≡ some p)
      × (p.status ≡ ProductStatus.reserved)

-- What the provider has answered: the very payment that was asked for, done.
pub record ApprovedBy (toss : Provider) (key : Text) (order_id : ℕ) (input : ConfirmInput)
    (existing : Payment) (approved : TossPayment) : Type 0 where
  pub answer : toss.confirm input.payment_key order_id existing.amount_krw key ≡ ok approved
  pub payment_key : text_eq approved.payment_key input.payment_key ≡ true
  pub order : approved.order_id ≡ order_id
  pub amount : approved.amount_krw ≡ existing.amount_krw
  pub done : approved.status ≡ TossStatus.done

-- What a capture writes: the row, approved, and one entry of its whole amount.
pub record Booked (now : ℕ) (existing : Payment) (approved : TossPayment) (db db' : Db)
    : Type 0 where
  pub payments :
      db'.payments
      ≡ update_many
          (λ p. p.id == existing.id)
          (λ p. record p {
            payment_key = some approved.payment_key;
            status = PaymentStatus.approved;
            method_masked = some approved.method_masked;
            approved_at = some now;
          })
          db.payments
  pub ledger :
      db'.ledger
      ≡ record {
        transaction_id = existing.order_id;
        payment_id = existing.id;
        trade_id = existing.trade_id;
        entry_type = LedgerEntryType.escrow_capture;
        reason = text "TOSS_SANDBOX_APPROVED";
        amount_krw = pos existing.amount_krw;
      }
        ∷ db.ledger
  pub trades : db'.trades ≡ db.trades
  pub products : db'.products ≡ db.products

-- When a payment may be reversed: the buyer cancels an accepted trade within seven days of the
-- capture, and a buyer or seller refunds a confirmed or disputed one.
pub IsAllowed : ℕ → ℕ → Reversal → Payment → Trade → Type 0
IsAllowed now user Reversal.cancel existing trade =
    (trade.status ≡ TradeStatus.accepted)
    × (trade.buyer_id ≡ user)
    × ((at : ℕ) × (existing.approved_at ≡ some at) × (now ≤ at + 604800000))
IsAllowed now user Reversal.refund existing trade =
    (trade.status ≡ TradeStatus.confirmed) ⊎ (trade.status ≡ TradeStatus.disputed)

-- What the checks of `reverse` have found: the payment of the order, approved, and its trade, of
-- the user.
pub record Refundable (now user order_id : ℕ) (action : Reversal) (payment_key : Text)
    (existing : Payment) (trade : Trade) (db : Db) : Type 0 where
  pub row : find_first (λ p. p.order_id == order_id) db.payments ≡ some existing
  pub captured : existing.status ≡ PaymentStatus.approved
  pub paid_with : existing.payment_key ≡ some payment_key
  pub trade_row : find_first (λ t. t.id == existing.trade_id) db.trades ≡ some trade
  pub participant : (trade.buyer_id ≡ user) ⊎ (trade.seller_id ≡ user)
  pub allowed : IsAllowed now user action existing trade

-- What a reversal writes to the row, and the type of its entry.
pub reversed_row : ℕ → Reversal → Payment → Payment
reversed_row now Reversal.cancel p = record p {
  status = PaymentStatus.cancelled;
  settlement_status = SettlementStatus.paused;
  cancelled_at = some now;
}
reversed_row now Reversal.refund p = record p {
  status = PaymentStatus.refunded;
  settlement_status = SettlementStatus.paused;
  refunded_at = some now;
}

pub reversed_type : Reversal → LedgerEntryType
reversed_type Reversal.cancel = LedgerEntryType.cancellation
reversed_type Reversal.refund = LedgerEntryType.refund

-- What a reversal writes to the payments and the ledger: an entry of minus the whole amount.
pub record Unbooked (now : ℕ) (reason : Text) (action : Reversal) (existing : Payment) (db db' : Db)
    : Type 0 where
  pub payments :
      db'.payments ≡ update_many (λ p. p.id == existing.id) (reversed_row now action) db.payments
  pub ledger :
      db'.ledger
      ≡ record {
        transaction_id = existing.order_id;
        payment_id = existing.id;
        trade_id = existing.trade_id;
        entry_type = reversed_type action;
        reason = reason;
        amount_krw = neg existing.amount_krw;
      }
        ∷ db.ledger
  pub fresh :
      find_first
        (λ l. l.payment_id == existing.id && same_entry l.entry_type (reversed_type action))
        db.ledger
      ≡ none

pub check_confirm-Confirmable :
    (user order_id : ℕ) (input : ConfirmInput) (db : Db) (existing : Payment)
    → (check_confirm user order_id input db).0 ≡ ok existing
    → (trade : Trade) × Confirmable user order_id input existing trade db
unfolding check_confirm
check_confirm-Confirmable user order_id input db existing h =
    elim (Option-cases (find_first (λ p. p.order_id == order_id) db.payments)) [
      | inl e ↦ absurd (ground arith)
      | inr (p, e) ↦ elim (Option-cases (find_first (λ t. t.id == p.trade_id) db.trades)) [
        | inl f ↦ absurd (ground arith)
        | inr (t, f) ↦ elim (Option-cases (find_first (λ r. r.id == t.product_id) db.products)) [
          | inl g ↦ absurd (ground arith)
          | inr (r, g) ↦
              let same : p ≡ existing = ground arith in
              (
                t,
                record {
                  asked = ground arith;
                  row = ground arith;
                  ready = ground arith;
                  amount = ground arith;
                  trade_row = ground arith;
                  accepted = ground arith;
                  buyer = ground arith;
                  product = (r, g, ground arith);
                },
              )
        ]
      ]
    ]

pub is_mismatch-ApprovedBy :
    (toss : Provider) (key : Text) (order_id : ℕ) (input : ConfirmInput) (existing : Payment)
    (approved : TossPayment)
    → toss.confirm input.payment_key order_id existing.amount_krw key ≡ ok approved
    → is_mismatch input.payment_key order_id existing approved ≡ false
    → ApprovedBy toss key order_id input existing approved
is_mismatch-ApprovedBy toss key order_id input existing approved t m = record {
  answer = t;
  payment_key = ground arith;
  order = ground arith;
  amount = ground arith;
  done = ground arith;
}

pub Captured-Booked :
    (now user order_id : ℕ) (input : ConfirmInput) (existing : Payment) (approved : TossPayment)
    (r : Payment) (trade : Trade) (db db' : Db)
    → HasUniqueKeys (λ p. p.id) db.payments
    → Confirmable user order_id input existing trade db
    → Captured now existing approved r db db'
    → Booked now existing approved db db'
Captured-Booked now user order_id input existing approved r trade db db' keys k c =
    let own =
      find_first-own (λ p. p.id) (λ p. p.order_id == order_id) db.payments existing
        (keys existing.id) k.row in
    let found =
      find_first_unique (λ p. p.id) existing.id (λ p. is_ready p.status) db.payments r
        (keys existing.id) c.found in
    let same : r ≡ existing = ground arith in
    record {
      payments = c.payments;
      ledger = rw same at c.ledger;
      trades = c.trades;
      products = c.products;
    }

pub is_allowed-IsAllowed :
    (now user : ℕ) (action : Reversal) (existing : Payment) (trade : Trade)
    → is_allowed now user action existing trade ≡ true
    → IsAllowed now user action existing trade
unfolding IsAllowed
is_allowed-IsAllowed now user Reversal.cancel existing trade h =
    elim (Option-cases existing.approved_at) [
      | inl e ↦ absurd (ground arith)
      | inr (at, e) ↦ (ground arith, ground arith, (at, e, ground arith))
    ]
is_allowed-IsAllowed now user Reversal.refund existing trade h =
    elim (Bool-cases (is_confirmed trade.status)) [
      | inl c ↦ inl (ground arith)
      | inr c ↦ inr (ground arith)
    ]

pub Reversed-Unbooked :
    (now order_id : ℕ) (reason : Text) (action : Reversal) (existing r : Payment) (db db' : Db)
    → HasUniqueKeys (λ p. p.id) db.payments
    → find_first (λ p. p.order_id == order_id) db.payments ≡ some existing
    → Reversed now reason action existing r db db'
    → Unbooked now reason action existing db db'
unfolding reversed_row reversed_type
Reversed-Unbooked now order_id reason Reversal.cancel existing r db db' keys row c =
    let own =
      find_first-own (λ p. p.id) (λ p. p.order_id == order_id) db.payments existing
        (keys existing.id) row in
    let same : r ≡ existing = ground (arith, c.found) in
    record { payments = c.payments; ledger = rw same at c.ledger; fresh = rw same at c.fresh }
Reversed-Unbooked now order_id reason Reversal.refund existing r db db' keys row c =
    let own =
      find_first-own (λ p. p.id) (λ p. p.order_id == order_id) db.payments existing
        (keys existing.id) row in
    let same : r ≡ existing = ground (arith, c.found) in
    record { payments = c.payments; ledger = rw same at c.ledger; fresh = rw same at c.fresh }
