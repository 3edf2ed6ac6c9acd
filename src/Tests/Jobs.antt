-- ===== src/Tests/Jobs.antt =====
-- The theorems on the maintenance of trades at the small market.
use gamja_market.Base.{◌≡◌, ◌⊎◌, arith}
use gamja_market.Schema.{TradeStatus, Trade, count}
use gamja_market.Schema.Rows.Laws.{HasUniqueKeys}
use gamja_market.Worker.TradeMaintenance.{confirm_due_trade, cancel_expired_trade}
use gamja_market.Worker.Effects.{
  Completed, confirm_due_trade-outcome, Expired, cancel_expired_trade-outcome,
}
use gamja_market.Tests.Data.{paid_market, unpaid_market, sale}

delivered_keys : HasUniqueKeys (λ t. t.id) (paid_market TradeStatus.delivered).trades
unfolding count
delivered_keys k = ground arith

confirm_due_trade-outcome_example :
    ((confirm_due_trade 100 (sale TradeStatus.delivered) (paid_market TradeStatus.delivered)).1
      ≡ paid_market TradeStatus.delivered)
    ⊎ ((t : Trade) × Completed 100
          (sale TradeStatus.delivered)
          t
          (paid_market TradeStatus.delivered)
          (confirm_due_trade 100
            (sale TradeStatus.delivered)
            (paid_market TradeStatus.delivered)).1)
confirm_due_trade-outcome_example =
    confirm_due_trade-outcome 100 (sale TradeStatus.delivered) (paid_market TradeStatus.delivered)
      delivered_keys

unpaid_keys : HasUniqueKeys (λ t. t.id) unpaid_market.trades
unfolding count
unpaid_keys k = ground arith

cancel_expired_trade-outcome_example :
    ((cancel_expired_trade 700000000 (sale TradeStatus.accepted) unpaid_market).1 ≡ unpaid_market)
    ⊎ ((t : Trade) × Expired 700000000
          (sale TradeStatus.accepted)
          t
          unpaid_market
          (cancel_expired_trade 700000000 (sale TradeStatus.accepted) unpaid_market).1)
cancel_expired_trade-outcome_example =
    cancel_expired_trade-outcome 700000000 (sale TradeStatus.accepted) unpaid_market unpaid_keys
