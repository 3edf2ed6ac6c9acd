-- ===== src/Trades/Model.antt =====
-- apps/api/src/trades/trade.service.ts: the constants, the view that every method returns, and
-- the tests that the queries share.
use gamja_market.Base.{ℕ, ◌*◌, Bool, ◌||◌, Option, ◌==◌, if◌then◌else◌}
use gamja_market.Base.Text.{text, Text, to_string}
use gamja_market.Schema.{
  TradeStatus, is_requested, is_accepted, is_delivered, is_disputed, Trade, TradeHistory,
}

-- `ACTIVE_TRADE_STATUSES`
abbrev pub is_active_trade : TradeStatus → Bool
is_active_trade s = is_requested s || (is_accepted s || (is_delivered s || is_disputed s))

abbrev pub day_ms : ℕ
day_ms = 24 * 60 * 60 * 1000

abbrev pub settlement_hold_ms : ℕ
settlement_hold_ms = 7 * day_ms

-- 'PRODUCT_RESERVED_BY_ANOTHER_TRADE'
abbrev pub competing_trade_reason : Text
competing_trade_reason = text "PRODUCT_RESERVED_BY_ANOTHER_TRADE"

pub data Role : Type 0 where
  buyer seller : Role

pub record TradeView : Type 0 where
  pub trade : Trade
  pub price_krw : Text
  pub role : Role

-- `serialize`
unfoldable pub serialize : Trade → ℕ → TradeView
serialize trade user_id = record {
  trade = trade;
  price_krw = to_string trade.price_krw;
  role = if trade.buyer_id == user_id then buyer else seller;
}

-- The test of `OR: [{ buyerId: userId }, { sellerId: userId }]`.
abbrev pub is_participant : ℕ → Trade → Bool
is_participant user_id t = t.buyer_id == user_id || t.seller_id == user_id

-- `data` of a `tradeHistory.create`
abbrev pub entry : ℕ → Option ℕ → Option TradeStatus → TradeStatus → Option Text → TradeHistory
entry trade_id actor_id from to reason = record {
  trade_id = trade_id;
  actor_id = actor_id;
  from_status = from;
  to_status = to;
  reason = reason;
}
