-- ===== src/Trades/Effects.antt =====
-- What a successful call of each method of apps/api/src/trades/trade.service.ts has found, and
-- what it has written.
use gamja_market.Base.{
  ◌+◌, ℕ, ◌≡◌, refl, Bool, true, false, ◌&&◌, Option, none, some, List, ◌∷◌, ◌++◌, map, arith, ◌==◌,
  if◌then◌else◌, Option-cases, inl, inr,
}
use gamja_market.Base.Text.{Text, trim}
use gamja_market.Schema.{
  Product, Trade, TradeHistory, TradeStatus, is_active, is_reserved, is_requested, is_accepted,
  is_delivered, find_first, find_many, update_many, count, Db, Payment,
}
use gamja_market.Schema.Action.{ok}
use gamja_market.Schema.Action.Laws.{Result-cases}
use gamja_market.Schema.Tables.{
  touch, update_trade, update_trades, update_product, update_products, update_payment,
  update_payments, create_history, payment_of,
}
use gamja_market.Schema.Rows.Laws.{HasUniqueKeys, find_first_unique}
use gamja_market.Trades.Model.{TradeView, is_participant, entry}
use gamja_market.Trades.Request.{request, check_request, open_trade, new_trade}
use gamja_market.Trades.Transitions.{
  close_trade, accept, reject, deliver, confirm, dispute, cancel, as_accepted, as_rejected,
  as_confirmed, as_disputed, as_cancelled, is_paid, as_sold, as_offered, as_reserved, is_competing,
  competing_entry, reject_competing, is_disputable, is_cancellable, release_product, void_payment,
  as_voided, is_uncaptured,
}
use gamja_market.Trades.Model.{competing_trade_reason}

-- What `release_product` and `void_payment` write.
abbrev pub released : Trade → List Product → List Product
released t ps =
    if is_accepted t.status
    then update_many (λ p. p.id == t.product_id && is_reserved p.status) as_offered ps
    else ps

abbrev pub voided : ℕ → Option Payment → List Payment → List Payment
voided now none ps = ps
voided now (some p) ps =
    update_many (λ r. r.id == p.id && is_uncaptured r.status) (as_voided now) ps

pub release_product_lem :
    (t : Trade) (db : Db)
    → release_product t db ≡ (ok tt, record db { products = released t db.products })
unfolding release_product update_products
release_product_lem t db = ground arith

pub void_payment_lem :
    (now : ℕ) (p : Option Payment) (db : Db)
    → void_payment now p db ≡ (ok tt, record db { payments = voided now p db.payments })
unfolding void_payment update_payments
void_payment_lem now none db = refl
void_payment_lem now (some p) db = refl

-- The trade `t` was found by its id and `test`, its row was changed by `change`, and one row was
-- added to its history.
pub record Moved (tid : ℕ) (test : Trade → Bool) (change : Trade → Trade) (row : TradeHistory)
    (t : Trade) (db db' : Db) : Type 0 where
  pub found : find_first (λ r. r.id == tid && test r) db.trades ≡ some t
  pub trades : db'.trades ≡ update_many (λ r. r.id == tid) change db.trades
  pub history : db'.histories ≡ row ∷ db.histories

module _ (now user tid : ℕ) (db : Db) (keys : HasUniqueKeys (λ t. t.id) db.trades) where
  row_of :
      (test : Trade → Bool) (t : Trade)
      → find_first (λ r. r.id == tid && test r) db.trades ≡ some t
      → find_first (λ r. r.id == tid) db.trades ≡ some t
  row_of test t e = find_first_unique (λ r. r.id) tid test db.trades t (keys tid) e

  pub reject-Moved :
      (reason : Text) (v : TradeView)
      → (reject now user tid reason db).0 ≡ ok v
      → (t : Trade) × Moved tid
          (λ r. r.seller_id == user && is_requested r.status)
          (λ r. touch now (as_rejected now (trim reason) r))
          (entry tid
            (some user)
            (some TradeStatus.requested)
            TradeStatus.rejected
            (some (trim reason)))
          t
          db
          (reject now user tid reason db).1
        × ((reject now user tid reason db).1.products ≡ db.products)
  unfolding reject update_trade create_history
  reject-Moved reason v r =
      elim (Option-cases (
        find_first (λ t. t.id == tid && (t.seller_id == user && is_requested t.status))
          db.trades)) [
            | inl e ↦ absurd (ground arith)
            | inr (t, e) ↦
                let e' = row_of (λ t. t.seller_id == user && is_requested t.status) t e in
                (
                  t,
                  record { found = e; trades = ground arith; history = ground arith },
                  ground arith,
                )
          ]

  -- When the ids of the trades are unique and `deliver` succeeds, it found the accepted trade of the
  -- seller with an approved payment; the row of that trade is delivered and confirms itself after
  -- seven days, one history row is added, and the products stay.
  pub deliver-Moved :
      (v : TradeView)
      → (deliver now user tid db).0 ≡ ok v
      → (t : Trade) × Moved tid
          (λ r. r.seller_id == user && is_accepted r.status)
          (λ r. record r {
            status = TradeStatus.delivered;
            delivered_at = some now;
            auto_confirm_at = some (now + 604800000);
            updated_at = now;
          })
          (record {
            trade_id = tid;
            actor_id = some user;
            from_status = some TradeStatus.accepted;
            to_status = TradeStatus.delivered;
            reason = none;
          })
          t
          db
          (deliver now user tid db).1
        × ((deliver now user tid db).1.products ≡ db.products)
        × (is_paid (payment_of tid db) ≡ true)
  unfolding deliver update_trade create_history payment_of
  deliver-Moved v r =
      elim (Option-cases (
        find_first (λ t. t.id == tid && (t.seller_id == user && is_accepted t.status)) db.trades)) [
          | inl e ↦ absurd (ground arith)
          | inr (t, e) ↦
              let e' = row_of (λ t. t.seller_id == user && is_accepted t.status) t e in
              (
                t,
                record { found = e; trades = ground arith; history = ground arith },
                ground arith,
                ground arith,
              )
        ]

  pub confirm-Moved :
      (v : TradeView)
      → (confirm now user tid db).0 ≡ ok v
      → (t : Trade) × Moved tid
          (λ r. r.buyer_id == user && is_delivered r.status)
          (λ r. touch now (as_confirmed now r))
          (entry tid (some user) (some TradeStatus.delivered) TradeStatus.confirmed none)
          t
          db
          (confirm now user tid db).1
        × ((confirm now user tid db).1.products
            ≡ update_many (λ p. p.id == t.product_id) as_sold db.products)
        × (is_paid (payment_of tid db) ≡ true)
  unfolding confirm update_trade create_history update_product update_payment payment_of
  confirm-Moved v r =
      elim (Option-cases (
        find_first (λ t. t.id == tid && (t.buyer_id == user && is_delivered t.status)) db.trades)) [
          | inl e ↦ absurd (ground arith)
          | inr (t, e) ↦
              let e' = row_of (λ t. t.buyer_id == user && is_delivered t.status) t e in
              (
                t,
                record { found = e; trades = ground arith; history = ground arith },
                ground arith,
                ground arith,
              )
        ]

  pub dispute-Moved :
      (reason : Text) (v : TradeView)
      → (dispute now user tid reason db).0 ≡ ok v
      → (t : Trade) × Moved tid
          (λ r. is_participant user r && is_disputable r.status)
          (λ r. touch now (as_disputed now (trim reason) r))
          (entry tid (some user) (some t.status) TradeStatus.disputed (some (trim reason)))
          t
          db
          (dispute now user tid reason db).1
        × ((dispute now user tid reason db).1.products ≡ db.products)
  unfolding dispute update_trade create_history update_payments
  dispute-Moved reason v r =
      elim (Option-cases (
        find_first (λ t. t.id == tid && (is_participant user t && is_disputable t.status))
          db.trades)) [
            | inl e ↦ absurd (ground arith)
            | inr (t, e) ↦
                let e' = row_of (λ t. is_participant user t && is_disputable t.status) t e in
                (
                  t,
                  record { found = e; trades = ground arith; history = ground arith },
                  ground arith,
                )
          ]

  pub cancel-Moved :
      (reason : Text) (v : TradeView)
      → (cancel now user tid reason db).0 ≡ ok v
      → (t : Trade) × Moved tid
          (λ r. is_participant user r && is_cancellable r.status)
          (λ r. touch now (as_cancelled now (trim reason) r))
          (entry tid (some user) (some t.status) TradeStatus.cancelled (some (trim reason)))
          t
          db
          (cancel now user tid reason db).1
        × ((cancel now user tid reason db).1.products ≡ released t db.products)
        × (is_paid (payment_of tid db) ≡ false)
  unfolding cancel close_trade update_trade create_history
  cancel-Moved reason v r =
      elim (Option-cases (
        find_first (λ t. t.id == tid && (is_participant user t && is_cancellable t.status))
          db.trades)) [
            | inl e ↦ absurd (ground arith)
            | inr (t, e) ↦
                let e' = row_of (λ t. is_participant user t && is_cancellable t.status) t e in
                let r1 = release_product_lem t db in
                let r2 =
                  void_payment_lem now (payment_of tid db)
                    (record db { products = released t db.products }) in
                (
                  t,
                  record { found = e; trades = ground arith; history = ground arith },
                  ground arith,
                  ground arith,
                )
          ]

  -- The trades after `accept` has taken the request `t`.
  abbrev pub accepted_trades : Trade → List Trade
  accepted_trades t =
      update_many (is_competing t) (λ r. touch now (as_rejected now competing_trade_reason r))
        (update_many (λ r. r.id == tid) (λ r. touch now (as_accepted r)) db.trades)

  pub accept-Accepted :
      (v : TradeView)
      → (accept now user tid db).0 ≡ ok v
      → (t : Trade) × (find_first
            (λ r. r.id == tid && (r.seller_id == user && is_requested r.status))
            db.trades
          ≡ some t)
        × (count (λ p. p.id == t.product_id && is_active p.status) db.products ≡ 1)
        × ((accept now user tid db).1.trades ≡ accepted_trades t)
        × ((accept now user tid db).1.products
            ≡ update_many (λ p. p.id == t.product_id && is_active p.status) as_reserved db.products)
        × ((accept now user tid db).1.histories
            ≡ map (competing_entry user) (
                find_many
                  (is_competing t)
                  (update_many (λ r. r.id == tid) (λ r. touch now (as_accepted r)) db.trades))
              ++ entry tid (some user) (some TradeStatus.requested) TradeStatus.accepted none
                ∷ db.histories)
  unfolding accept update_trade update_trades update_products create_history reject_competing
  accept-Accepted v r =
      elim (Option-cases (
        find_first (λ t. t.id == tid && (t.seller_id == user && is_requested t.status))
          db.trades)) [
            | inl e ↦ absurd (ground arith)
            | inr (t, e) ↦
                let e' = row_of (λ t. t.seller_id == user && is_requested t.status) t e in
                (t, e, ground arith, ground arith, ground arith, ground arith)
          ]

-- The checks of `request` write nothing.
pub check_request_reads :
    (user product_id : ℕ) (db : Db) → (check_request user product_id db).1 ≡ db
unfolding check_request
check_request_reads user product_id db = ground arith

-- The new trade and its first history row.
pub record Requested (now trade_id user product_id : ℕ) (p : Product) (db db' : Db) : Type 0 where
  pub fresh : find_first (λ r. r.id == trade_id) db.trades ≡ none
  pub trades : db'.trades ≡ new_trade now trade_id product_id user p ∷ db.trades
  pub products : db'.products ≡ db.products
  pub history :
      db'.histories ≡ entry trade_id (some user) none TradeStatus.requested none ∷ db.histories
  pub payments : db'.payments ≡ db.payments
  pub ledger : db'.ledger ≡ db.ledger

open_trade-Requested :
    (now trade_id room_id user product_id : ℕ) (p : Product) (db : Db) (v : Trade × ℕ)
    → (open_trade now trade_id room_id user product_id p db).0 ≡ ok v
    → Requested now trade_id user product_id p db
        (open_trade now trade_id room_id user product_id p db).1
unfolding open_trade
open_trade-Requested now trade_id room_id user product_id p db v r = record {
  fresh = ground arith;
  trades = ground arith;
  products = ground arith;
  history = ground arith;
  payments = ground arith;
  ledger = ground arith;
}

-- What a successful `request` has written.
pub request-Requested :
    (now trade_id room_id user product_id : ℕ) (db : Db) (v : TradeView × ℕ)
    → (request now trade_id room_id user product_id db).0 ≡ ok v
    → (p : Product) × Requested now trade_id user product_id p db
        (request now trade_id room_id user product_id db).1
unfolding request
request-Requested now trade_id room_id user product_id db v r =
    elim (Result-cases (check_request user product_id db).0) [
      | inl (e, c) ↦ absurd (ground (arith, check_request_reads user product_id db))
      | inr (p, c) ↦
          let same = check_request_reads user product_id db in
          elim (Result-cases (open_trade now trade_id room_id user product_id p db).0) [
            | inl (e, o) ↦ absurd (ground arith)
            | inr (w, o) ↦
                let q = open_trade-Requested now trade_id room_id user product_id p db w o in
                (
                  p,
                  record {
                    fresh = q.fresh;
                    trades = ground (arith, q.trades);
                    products = ground (arith, q.products);
                    history = ground (arith, q.history);
                    payments = ground (arith, q.payments);
                    ledger = ground (arith, q.ledger);
                  },
                )
          ]
    ]
