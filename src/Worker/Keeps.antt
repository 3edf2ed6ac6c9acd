-- ===== src/Worker/Keeps.antt =====
-- The loops of apps/worker/src/trade-maintenance.ts keep the reservation, the audit and the escrow
-- invariants, whatever rows they are given.
use gamja_market.Base.{
  ℕ, ◌≡◌, refl, ◌&&◌, none, some, List, [], ◌∷◌, arith, ◌==◌, inl, inr, suc, if◌then◌else◌,
}
use gamja_market.Schema.{
  TradeStatus, is_approved, is_reserved, Trade, Db, find_first, find_many, update_many,
}
use gamja_market.Schema.Action.Laws.{bind-keeps}
use gamja_market.Schema.Rows.Laws.{find_first_holds, find_first_unique}
use gamja_market.Schema.Tables.{touch}
use gamja_market.Trades.Model.{entry}
use gamja_market.Trades.Transitions.{as_confirmed, as_cancelled, as_sold, as_offered, start_hold}
use gamja_market.Trades.Exclusive.Tables.{
  move-IsExclusive, withdraw-IsExclusive, release-IsExclusive,
}
use gamja_market.Trades.Exclusive.Methods.{links}
use gamja_market.Trades.Audit.Tables.{move-IsAudited}
use gamja_market.Payments.Escrow.Tables.{keep-IsEscrowed}
use gamja_market.Sound.{IsSound}
use gamja_market.Worker.TradeMaintenance.{
  is_due, confirm_due_trade, confirm_loop, confirm_due_trades, auto_confirmed_reason, is_expired,
  cancel_expired_trade, cancel_loop, cancel_expired_unpaid_trades, auto_cancelled_reason,
}
use gamja_market.Worker.Effects.{
  Completed, confirm_due_trade-outcome, Expired, cancel_expired_trade-outcome,
}

module _ (now : ℕ) (trade : Trade) (db : Db) (h : IsSound db) where
  Completed-IsSound : (t : Trade) (db' : Db) → Completed now trade t db db' → IsSound db'
  Completed-IsSound t db' c =
      let holds = find_first_holds (λ r. r.id == trade.id && is_due now r) db.trades t c.found in
      record {
        reserved =
            rw (c.products, c.trades)
              (move-IsExclusive (update_many (λ p. p.id == trade.product_id) as_sold db.products)
                db.trades
                (withdraw-IsExclusive db.products db.trades h.reserved
                  (λ p. p.id == trade.product_id) as_sold (λ r. refl) (λ r. refl))
                trade.id (is_due now) (λ r. touch now (as_confirmed now r)) t
                (links (λ r. refl) (λ r. refl)) c.found (λ x. ground arith));
        audited =
            rw (c.histories, c.trades)
              (move-IsAudited db.trades db.histories h.audited trade.id
                (λ r. touch now (as_confirmed now r)) t
                (entry trade.id none (some TradeStatus.delivered) TradeStatus.confirmed
                  (some auto_confirmed_reason))
                (find_first_unique (λ r. r.id) trade.id (is_due now) db.trades t
                  (h.audited.keys trade.id) c.found)
                (λ r. refl) refl (ground arith) refl refl);
        escrowed =
            rw (c.payments, c.ledger)
              (keep-IsEscrowed db.payments db.ledger h.escrowed
                (λ p. p.trade_id == trade.id && is_approved p.status) (start_hold now) (λ r. refl)
                (λ r _ k. (refl, k)));
      }

  pub confirm_due_trade-IsSound : IsSound (confirm_due_trade now trade db).1
  confirm_due_trade-IsSound = elim (confirm_due_trade-outcome now trade db h.audited.keys) [
    | inl same ↦ rw same h
    | inr (t, c) ↦ Completed-IsSound t (confirm_due_trade now trade db).1 c
  ]

  Expired-IsSound : (t : Trade) (db' : Db) → Expired now trade t db db' → IsSound db'
  Expired-IsSound t db' c =
      let holds =
        find_first_holds (λ r. r.id == trade.id && is_expired now db r) db.trades t c.found in
      let same : trade.id ≡ t.id = ground arith in
      let found : find_first (λ r. r.id == t.id && is_expired now db r) db.trades ≡ some t =
        rw same at c.found in
      record {
        reserved =
            rw (c.products, c.trades)
              (release-IsExclusive db.products db.trades h.reserved t.id (is_expired now db)
                (λ r. touch now (as_cancelled now auto_cancelled_reason r)) t
                (λ p. p.id == t.product_id && is_reserved p.status) as_offered
                (links (λ r. refl) (λ r. refl)) found (ground arith) refl (λ r. refl)
                (λ r e. ground arith));
        audited =
            rw (c.histories, c.trades)
              (move-IsAudited db.trades db.histories h.audited t.id
                (λ r. touch now (as_cancelled now auto_cancelled_reason r)) t
                (entry t.id none (some TradeStatus.accepted) TradeStatus.cancelled
                  (some auto_cancelled_reason))
                (find_first_unique (λ r. r.id) t.id (is_expired now db) db.trades t
                  (h.audited.keys t.id) found)
                (λ r. refl) refl (ground arith) refl refl);
        escrowed = rw (c.payments, c.ledger) h.escrowed;
      }

  pub cancel_expired_trade-IsSound : IsSound (cancel_expired_trade now trade db).1
  cancel_expired_trade-IsSound = elim (cancel_expired_trade-outcome now trade db h.audited.keys) [
    | inl same ↦ rw same h
    | inr (t, c) ↦ Expired-IsSound t (cancel_expired_trade now trade db).1 c
  ]

confirm_loop-IsSound :
    (now : ℕ) (due : List Trade) (n : ℕ) (db : Db)
    → IsSound db
    → IsSound (confirm_loop now due n db).1
unfolding confirm_loop
confirm_loop-IsSound now [] n db h = h
confirm_loop-IsSound now (trade ∷ due) n db h =
    let next = confirm_due_trade-IsSound now trade db h in
    bind-keeps IsSound (confirm_due_trade now trade)
      (λ changed. confirm_loop now due (if changed then suc n else n)) db next
      (λ changed.
        confirm_loop-IsSound now due (if changed then suc n else n)
          (confirm_due_trade now trade db).1 next)

pub confirm_due_trades-IsSound :
    (now : ℕ) (db : Db) → IsSound db → IsSound (confirm_due_trades now db).1
unfolding confirm_due_trades
confirm_due_trades-IsSound now db h =
    confirm_loop-IsSound now (find_many (is_due now) db.trades) 0 db h

cancel_loop-IsSound :
    (now : ℕ) (due : List Trade) (n : ℕ) (db : Db)
    → IsSound db
    → IsSound (cancel_loop now due n db).1
unfolding cancel_loop
cancel_loop-IsSound now [] n db h = h
cancel_loop-IsSound now (trade ∷ due) n db h =
    let next = cancel_expired_trade-IsSound now trade db h in
    bind-keeps IsSound (cancel_expired_trade now trade)
      (λ changed. cancel_loop now due (if changed then suc n else n)) db next
      (λ changed.
        cancel_loop-IsSound now due (if changed then suc n else n)
          (cancel_expired_trade now trade db).1 next)

pub cancel_expired_unpaid_trades-IsSound :
    (now : ℕ) (db : Db) → IsSound db → IsSound (cancel_expired_unpaid_trades now db).1
unfolding cancel_expired_unpaid_trades
cancel_expired_unpaid_trades-IsSound now db h =
    cancel_loop-IsSound now (find_many (is_expired now db) db.trades) 0 db h
