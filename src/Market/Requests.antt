-- ===== src/Market/Requests.antt =====
-- The requests of apps/api/src/trades/trade.controller.ts and
-- apps/api/src/payments/payment.controller.ts.
use gamja_market.Base.{ℕ, Option}
use gamja_market.Base.Text.{Text}
use gamja_market.Payments.Model.{Provider}
use gamja_market.Payments.Confirm.{ConfirmInput}
use gamja_market.Payments.Reverse.{Reversal}

-- A request, with the time and the ids that are drawn while it is served, and the answers of the
-- provider.
pub data Request : Type 0 where
  request : (now trade_id room_id user product_id : ℕ) → Request
  accept deliver confirm : (now user trade_id : ℕ) → Request
  reject dispute cancel : (now user trade_id : ℕ) (reason : Text) → Request
  create_order : (id order_id user trade_id : ℕ) (key : Option Text) → Request
  capture : Provider → (now user order_id : ℕ) (input : ConfirmInput) (key : Option Text) → Request
  reverse :
      Provider
      → (now user order_id : ℕ) (reason : Text) (key : Option Text) (action : Reversal) → Request
