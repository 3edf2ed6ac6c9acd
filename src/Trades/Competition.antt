-- ===== src/Trades/Competition.antt =====
-- The competing requests of a product, when one of them is accepted.
use gamja_market.Base.{ℕ, ◌≡◌, ◌&&◌, some, arith, ◌==◌}
use gamja_market.Schema.{Trade, Db, is_active, is_requested, find_first, update_many, count}
use gamja_market.Schema.Action.{ok}
use gamja_market.Schema.Rows.Laws.{HasUniqueKeys, count-update_clear}
use gamja_market.Schema.Tables.{touch}
use gamja_market.Trades.Effects.{accept-Accepted}
use gamja_market.Trades.Model.{TradeView, competing_trade_reason}
use gamja_market.Trades.Transitions.{accept, as_accepted, as_rejected, as_reserved, is_competing}

-- When the ids of the trades are unique and `accept` succeeds, it took an open request of the seller
-- for a product that was offered once; then no other request for the product is open, and the
-- product is not offered.
pub accept-no_competing :
    (now user tid : ℕ) (db : Db) (v : TradeView)
    → HasUniqueKeys (λ t. t.id) db.trades
    → (accept now user tid db).0 ≡ ok v
    → let db' = (accept now user tid db).1 in
      (t : Trade) × (find_first
          (λ r. r.id == tid && (r.seller_id == user && is_requested r.status))
          db.trades
        ≡ some t)
      × (count (λ p. p.id == t.product_id && is_active p.status) db.products ≡ 1)
      × (count (is_competing t) db'.trades ≡ 0)
      × (count (λ p. p.id == t.product_id && is_active p.status) db'.products ≡ 0)
accept-no_competing now user tid db v keys r =
    let (t, found, one, ts, ps, _) = accept-Accepted now user tid db keys v r in
    (
      t,
      found,
      one,
      rw ts (
          count-update_clear (is_competing t) (is_competing t)
            (λ r. touch now (as_rejected now competing_trade_reason r))
            (update_many (λ r. r.id == tid) (λ r. touch now (as_accepted r)) db.trades)
            (λ r e. ground arith) (λ r e. e)),
      rw ps (
          count-update_clear (λ p. p.id == t.product_id && is_active p.status)
            (λ p. p.id == t.product_id && is_active p.status) as_reserved db.products
            (λ r e. ground arith) (λ r e. e)),
    )
