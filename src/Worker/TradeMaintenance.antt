-- ===== src/Worker/TradeMaintenance.antt =====
-- apps/worker/src/trade-maintenance.ts. The processes run beside the API: each transaction sees
-- what the others have committed, so the due rows are looked up again by its own conditions.
use gamja_market.Base.{
  ℕ, suc, ◌+◌, ◌*◌, Bool, true, false, ◌&&◌, not, Option, none, some, List, [], ◌∷◌, ◌==◌, leb,
  is_some, is_at_most, if◌then◌else◌,
}
use gamja_market.Base.Text.{text, Text}
use gamja_market.Schema.{
  TradeStatus, is_accepted, is_delivered, is_approved, is_reserved, Trade, Db, find_first,
  find_many,
}
use gamja_market.Schema.Action.{Action, ok, pure, gets, transaction, ◌>>=◌, ◌>>◌}
use gamja_market.Schema.Tables.{
  update_trade, update_trades, update_product, update_products, update_payments, create_history,
  payment_of,
}
use gamja_market.Trades.Model.{entry, day_ms}
use gamja_market.Trades.Transitions.{as_confirmed, as_cancelled, as_sold, as_offered, start_hold}

abbrev pub unpaid_acceptance_timeout_ms : ℕ
unpaid_acceptance_timeout_ms = 7 * day_ms

-- 'AUTO_CONFIRMED_AFTER_7_DAYS'
abbrev pub auto_confirmed_reason : Text
auto_confirmed_reason = text "AUTO_CONFIRMED_AFTER_7_DAYS"

-- 'AUTO_CANCELLED_UNPAID_AFTER_7_DAYS'
abbrev pub auto_cancelled_reason : Text
auto_cancelled_reason = text "AUTO_CANCELLED_UNPAID_AFTER_7_DAYS"

-- `status: DELIVERED, autoConfirmAt: { lte: now }`
abbrev pub is_due : ℕ → Trade → Bool
is_due now t = is_delivered t.status && is_at_most t.auto_confirm_at now

-- The transaction of the loop after its `updateMany`, whose `count` is the last argument.
unfoldable pub complete_confirmation : ℕ → Trade → ℕ → Action Bool
complete_confirmation now trade updated db =
    if updated == 1
    then (do
      update_product trade.product_id as_sold
      update_payments (λ p. p.trade_id == trade.id && is_approved p.status) (start_hold now)
      create_history (
          entry trade.id none (some TradeStatus.delivered) TradeStatus.confirmed
            (some auto_confirmed_reason))
      pure true)
        db
    else (ok false, db)

unfoldable pub confirm_due_trade : ℕ → Trade → Action Bool
unfolding complete_confirmation
confirm_due_trade now trade = transaction (do
  updated ← update_trades now (λ t. t.id == trade.id && is_due now t) (as_confirmed now)
  complete_confirmation now trade updated)

-- `for (const trade of due)`
unfoldable pub confirm_loop : ℕ → List Trade → ℕ → Action ℕ
confirm_loop now [] confirmed = pure confirmed
confirm_loop now (trade ∷ due) confirmed = do
  changed ← confirm_due_trade now trade
  confirm_loop now due (if changed then suc confirmed else confirmed)

unfoldable pub confirm_due_trades : ℕ → Action ℕ
unfolding confirm_loop
confirm_due_trades now = do
  due ← gets λ db. find_many (is_due now) db.trades
  confirm_loop now due 0

-- `status: ACCEPTED, updatedAt: { lte: expiresBefore }, payment: { is: null }` with
-- `expiresBefore = now - UNPAID_ACCEPTANCE_TIMEOUT_MS`, which stands on the other side here.
abbrev pub is_expired : ℕ → Db → Trade → Bool
is_expired now db t =
    is_accepted t.status
    && (leb (t.updated_at + unpaid_acceptance_timeout_ms) now && not (is_some (payment_of t.id db)))

unfoldable pub complete_expiry : ℕ → Option Trade → Action Bool
complete_expiry now none db = (ok false, db)
complete_expiry now (some trade) db =
    (do
      update_trade now trade.id (as_cancelled now auto_cancelled_reason)
      update_products (λ p. p.id == trade.product_id && is_reserved p.status) as_offered
      create_history (
          entry trade.id none (some TradeStatus.accepted) TradeStatus.cancelled
            (some auto_cancelled_reason))
      pure true)
      db

-- The row lock of `SELECT ... FOR UPDATE` reads nothing: a transaction runs as one step here.
unfoldable pub cancel_expired_trade : ℕ → Trade → Action Bool
unfolding complete_expiry
cancel_expired_trade now candidate = transaction (do
  trade ← gets λ db. find_first (λ t. t.id == candidate.id && is_expired now db t) db.trades
  complete_expiry now trade)

unfoldable pub cancel_loop : ℕ → List Trade → ℕ → Action ℕ
cancel_loop now [] cancelled = pure cancelled
cancel_loop now (candidate ∷ due) cancelled = do
  changed ← cancel_expired_trade now candidate
  cancel_loop now due (if changed then suc cancelled else cancelled)

unfoldable pub cancel_expired_unpaid_trades : ℕ → Action ℕ
unfolding cancel_loop
cancel_expired_unpaid_trades now = do
  due ← gets λ db. find_many (is_expired now db) db.trades
  cancel_loop now due 0
