-- ===== src/Payments/Keeps.antt =====
-- Every request of apps/api/src/payments/payment.service.ts keeps the reservation and the audit
-- invariants of the trades.
use gamja_market.Base.{ℕ, ◌≡◌, refl, true, Option, some, arith, ◌==◌, inl, inr, ap, Bool-cases}
use gamja_market.Base.Text.{Text, trim}
use gamja_market.Schema.{
  TradeStatus, is_accepted, is_disputed, Payment, Trade, StoredResponse, Db, find_first,
}
use gamja_market.Schema.Action.{ok}
use gamja_market.Schema.Rows.Laws.{find_first_holds, find_first-no_test}
use gamja_market.Schema.Tables.{touch}
use gamja_market.Payments.Model.{Hash, Provider}
use gamja_market.Payments.Orders.{create_order}
use gamja_market.Payments.Confirm.{ConfirmInput, confirm}
use gamja_market.Payments.Reverse.{Reversal, reverse, commit_reverse}
use gamja_market.Payments.Effects.{
  TradeCancelled, TradeDisputed, commit_confirm-Captured, commit_cancel-Reversed,
  commit_refund-Reversed, open_order-Ordered,
}
use gamja_market.Payments.Outcomes.{
  create_order-outcome, confirm-outcome, reverse-outcome, Reversible, check_reverse-Reversible,
}
use gamja_market.Payments.Escrow.{HasEscrow}
use gamja_market.Trades.Model.{entry}
use gamja_market.Trades.Transitions.{as_cancelled, as_disputed, as_offered}
use gamja_market.Trades.Exclusive.{IsReserved}
use gamja_market.Trades.Exclusive.Tables.{move-IsExclusive, release-IsExclusive}
use gamja_market.Trades.Exclusive.Methods.{links}
use gamja_market.Trades.Audit.{HasAudit}
use gamja_market.Trades.Audit.Tables.{move-IsAudited}

-- The trade of a payment that may be reversed has the id that the payment names.
own_trade :
    (asked user : ℕ) (action : Reversal) (existing : Payment) (trade : Trade) (db : Db)
    → Reversible asked user action existing trade db
    → find_first (λ t. t.id == trade.id) db.trades ≡ some trade
own_trade asked user action existing trade db k =
    let e : existing.trade_id ≡ trade.id =
      ground
        (arith, find_first_holds (λ t. t.id == existing.trade_id) db.trades trade k.trade_row) in
    rw e at k.trade_row

module _ (asked now user : ℕ) (reason : Text) (existing : Payment) (trade : Trade)
    (db db' : Db) where
  cancelled-IsReserved :
      IsReserved db
      → Reversible asked user Reversal.cancel existing trade db
      → TradeCancelled now user reason trade db db'
      → IsReserved db'
  cancelled-IsReserved h k c =
      let accepted : is_accepted trade.status ≡ true = ground (arith, k.allowed) in
      rw (c.products, c.trades)
        (release-IsExclusive db.products db.trades h trade.id (λ _. true)
          (λ t. touch now (as_cancelled now reason t)) trade (λ p. p.id == trade.product_id)
          as_offered (links (λ r. refl) (λ r. refl))
          (rw (find_first-no_test (λ t. t.id == trade.id) db.trades)
            (own_trade asked user Reversal.cancel existing trade db k))
          (ground arith) refl (λ r. refl) (λ r e. ground arith))

  cancelled-HasAudit :
      HasAudit db
      → Reversible asked user Reversal.cancel existing trade db
      → TradeCancelled now user reason trade db db'
      → HasAudit db'
  cancelled-HasAudit h k c =
      let accepted : is_accepted trade.status ≡ true = ground (arith, k.allowed) in
      rw (c.histories, c.trades)
        (move-IsAudited db.trades db.histories h trade.id
          (λ t. touch now (as_cancelled now reason t)) trade
          (entry trade.id (some user) (some trade.status) TradeStatus.cancelled (some reason))
          (own_trade asked user Reversal.cancel existing trade db k) (λ r. refl) refl refl refl
          (ground arith))

  disputed-IsReserved :
      IsReserved db
      → Reversible asked user Reversal.refund existing trade db
      → TradeDisputed now user reason trade db db'
      → IsReserved db'
  disputed-IsReserved h k c = elim (Bool-cases (is_disputed trade.status)) [
    | inl was ↦ rw (c.products, c.trades, was) h
    | inr fresh ↦
        rw (c.products, c.trades, fresh)
          (move-IsExclusive db.products db.trades h trade.id (λ _. true)
            (λ t. touch now (as_disputed now reason t)) trade (links (λ r. refl) (λ r. refl))
            (rw (find_first-no_test (λ t. t.id == trade.id) db.trades)
              (own_trade asked user Reversal.refund existing trade db k))
            (λ x. ground (arith, k.allowed)))
  ]

  disputed-HasAudit :
      HasAudit db
      → Reversible asked user Reversal.refund existing trade db
      → TradeDisputed now user reason trade db db'
      → HasAudit db'
  disputed-HasAudit h k c = elim (Bool-cases (is_disputed trade.status)) [
    | inl was ↦ rw (c.histories, c.trades, was) h
    | inr fresh ↦
        rw (c.histories, c.trades, fresh)
          (move-IsAudited db.trades db.histories h trade.id
            (λ t. touch now (as_disputed now reason t)) trade
            (entry trade.id (some user) (some trade.status) TradeStatus.disputed (some reason))
            (own_trade asked user Reversal.refund existing trade db k) (λ r. refl) refl refl refl
            (ground (arith, k.allowed)))
  ]

module _ (hash : Hash) (db : Db) (h : IsReserved db) (a : HasAudit db) (m : HasEscrow db) where
  pub create_order-keeps :
      (id order_id user trade_id : ℕ) (key_input : Option Text)
      → let db' = (create_order hash id order_id user trade_id key_input db).1 in
        IsReserved db' × HasAudit db'
  create_order-keeps id order_id user trade_id key_input =
      elim (create_order-outcome hash id order_id user trade_id key_input db) [
        | inl same ↦ rw same (h, a)
        | inr (k, v, _, e) ↦
            let (trade, found, o) =
              open_order-Ordered hash id order_id user trade_id k db v (ap (λ r. r.0) e) in
            rw (← ap (λ r. r.1) e, o.products, o.trades, o.histories) (h, a)
      ]

  pub commit-keeps :
      (asked now user : ℕ) (reason k : Text) (rh : ℕ) (action : Reversal) (existing : Payment)
      (trade : Trade) (v : StoredResponse)
      → Reversible asked user action existing trade db
      → (commit_reverse now user reason k rh action existing trade db).0 ≡ ok v
      → let db' = (commit_reverse now user reason k rh action existing trade db).1 in
        IsReserved db' × HasAudit db'
  commit-keeps asked now user reason k rh Reversal.cancel existing trade v allowed done =
      let (_, _, c) = commit_cancel-Reversed now user reason k rh existing trade db v done in
      (
        cancelled-IsReserved asked now user reason existing trade db _ h allowed c,
        cancelled-HasAudit asked now user reason existing trade db _ a allowed c,
      )
  commit-keeps asked now user reason k rh Reversal.refund existing trade v allowed done =
      let (_, _, c) = commit_refund-Reversed now user reason k rh existing trade db v done in
      (
        disputed-IsReserved asked now user reason existing trade db _ h allowed c,
        disputed-HasAudit asked now user reason existing trade db _ a allowed c,
      )

  module _ (toss : Provider) where
    pub confirm-keeps :
        (now user order_id : ℕ) (input : ConfirmInput) (key_input : Option Text)
        → let db' = (confirm hash toss now user order_id input key_input db).1 in
          IsReserved db' × HasAudit db'
    confirm-keeps now user order_id input key_input =
        elim (confirm-outcome hash toss now user order_id input key_input db) [
          | inl same ↦ rw same (h, a)
          | inr (k, rh, existing, approved, v, ec, _, _, _, _, e) ↦
              let (r, c) =
                commit_confirm-Captured now k rh existing approved db v m.keys (ap (λ r. r.0) e) in
              rw (← ap (λ r. r.1) e, c.products, c.trades, c.histories) (h, a)
        ]

    pub reverse-keeps :
        (now user order_id : ℕ) (reason : Text) (key_input : Option Text) (action : Reversal)
        → let db' = (reverse hash toss now user order_id reason key_input action db).1 in
          IsReserved db' × HasAudit db'
    reverse-keeps now user order_id reason key_input action =
        elim (reverse-outcome hash toss now user order_id reason key_input action db) [
          | inl same ↦ rw same (h, a)
          | inr (k, rh, existing, pk, trade, v, ec, _, _, _, e) ↦
              let allowed =
                (check_reverse-Reversible now user order_id action db existing pk trade ec).0 in
              rw (← ap (λ r. r.1) e) (
                commit-keeps now now user (trim reason) k rh action existing trade v allowed
                  (ap (λ r. r.0) e))
        ]
