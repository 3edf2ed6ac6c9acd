-- ===== src/Trades/Reads.antt =====
-- apps/api/src/trades/trade.service.ts: `list`, `detail`, and `processDueAutoConfirmations`.
use gamja_market.Base.{
  ℕ, suc, Bool, true, false, ◌&&◌, not, is_at_most, Option, none, some, List, [], ◌∷◌, map, ◌==◌,
  leb, if◌then◌else◌,
}
use gamja_market.Base.Text.{text}
use mathlib.Core.List.{reverse}
use gamja_market.Schema.{
  TradeStatus, is_delivered, is_approved, Product, Payment, Trade, TradeHistory, Db, find_first,
  find_many, sort_by,
}
use gamja_market.Schema.Action.{
  Action, ok, pure, gets, or_raise, transaction, ◌>>=◌, ◌>>◌, not_found, trade_not_found,
}
use gamja_market.Schema.Tables.{
  update_trades, update_product, update_payments, create_history, payment_of,
}
use gamja_market.Trades.Model.{TradeView, serialize, is_participant, entry}
use gamja_market.Trades.Transitions.{as_confirmed, as_sold, start_hold}

-- A trade with the rows that are included, whole: the answer has some of their columns.
pub record TradeSummary : Type 0 where
  pub trade : TradeView
  pub product : Option Product
  pub payment : Option Payment

pub record TradeDetail : Type 0 where
  pub summary : TradeSummary
  pub history : List TradeHistory

unfoldable pub summary_of : ℕ → Db → Trade → TradeSummary
summary_of user db trade = record {
  trade = serialize trade user;
  product = find_first (λ p. p.id == trade.product_id) db.products;
  payment = payment_of trade.id db;
}

-- `participantTrade`, without its includes
unfoldable pub participant_trade : ℕ → ℕ → Action Trade
participant_trade id user = do
  found ← gets λ db. find_first (λ t. t.id == id && is_participant user t) db.trades
  or_raise (not_found trade_not_found) found

abbrev pub is_newer : Trade → Trade → Bool
is_newer a b = leb b.updated_at a.updated_at

unfoldable pub list : ℕ → Action (List TradeSummary)
list user =
    gets
      λ db. map (summary_of user db) (sort_by is_newer (find_many (is_participant user) db.trades))

-- The history is the newest row first in the table, and the oldest first in the answer.
unfoldable pub detail : ℕ → ℕ → Action TradeDetail
detail user trade_id = do
  trade ← participant_trade trade_id user
  gets λ db. record {
    summary = summary_of user db trade;
    history = reverse (find_many (λ h. h.trade_id == trade_id) db.histories);
  }

-- `processDueAutoConfirmations` is the loop of `confirmDueTrades` of the worker, once more.
abbrev pub is_confirmable : ℕ → Trade → Bool
is_confirmable now t = is_delivered t.status && is_at_most t.auto_confirm_at now

unfoldable pub complete_auto_confirmation : ℕ → Trade → ℕ → Action Bool
complete_auto_confirmation now item updated db =
    if not (updated == 1)
    then (ok false, db)
    else (do
      update_product item.product_id as_sold
      update_payments (λ p. p.trade_id == item.id && is_approved p.status) (start_hold now)
      create_history (
          entry item.id none (some TradeStatus.delivered) TradeStatus.confirmed
            (some (text "AUTO_CONFIRMED_AFTER_7_DAYS")))
      pure true)
        db

unfoldable pub auto_confirm : ℕ → Trade → Action Bool
auto_confirm now item = transaction (do
  updated ← update_trades now (λ t. t.id == item.id && is_confirmable now t) (as_confirmed now)
  complete_auto_confirmation now item updated)

unfoldable pub auto_confirm_loop : ℕ → List Trade → ℕ → Action ℕ
auto_confirm_loop now [] confirmed = pure confirmed
auto_confirm_loop now (item ∷ due) confirmed = do
  changed ← auto_confirm now item
  auto_confirm_loop now due (if changed then suc confirmed else confirmed)

unfoldable pub process_due_auto_confirmations : ℕ → Action ℕ
process_due_auto_confirmations now = do
  due ← gets λ db. find_many (is_confirmable now) db.trades
  auto_confirm_loop now due 0
