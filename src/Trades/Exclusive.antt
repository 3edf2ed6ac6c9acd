-- ===== src/Trades/Exclusive.antt =====
-- The reservation of a product: at most one of its trades is selected, and none while the
-- product is offered. The statuses that select are those of
-- packages/database/prisma/migrations/20260723153000_competing_trade_cleanup/migration.sql.
pub mod Tables
pub mod Methods
use gamja_market.Base.{
  ℕ, ◌≤◌, Bool, true, false, ◌&&◌, ◌||◌, Option, none, some, List, ◌==◌, if◌then◌else◌,
}
use gamja_market.Schema.{
  TradeStatus, is_accepted, is_delivered, is_confirmed, is_disputed, is_active, Product, Trade, Db,
  find_first, count,
}
use gamja_market.Schema.Rows.Laws.{has_key, HasUniqueKeys}

-- `selected."status" IN ('ACCEPTED', 'DELIVERED', 'CONFIRMED', 'DISPUTED')`
abbrev pub is_selected : TradeStatus → Bool
is_selected s = is_accepted s || (is_delivered s || (is_confirmed s || is_disputed s))

abbrev pub selects : ℕ → Trade → Bool
selects product_id t = t.product_id == product_id && is_selected t.status

-- How many selected trades a product may have: none while it is offered.
abbrev pub capacity : Option Product → ℕ
capacity none = 0
capacity (some p) = if is_active p.status then 0 else 1

pub record IsExclusive (products : List Product) (trades : List Trade) : Type 0 where
  pub trade_keys : HasUniqueKeys (λ t. t.id) trades
  pub product_keys : HasUniqueKeys (λ p. p.id) products
  pub one_selected :
      (p : ℕ) → count (selects p) trades ≤ capacity (find_first (has_key (λ x. x.id) p) products)

abbrev pub IsReserved : Db → Type 0
IsReserved db = IsExclusive db.products db.trades
