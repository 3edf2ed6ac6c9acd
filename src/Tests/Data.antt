-- ===== src/Tests/Data.antt =====
-- A market with one reserved product, one accepted trade and its order, and a second, open request.
use gamja_market.Base.{ℕ, refl, Option, none, some, [], ◌∷◌, arith, ◌==◌, Bool-cases, inl, inr}
use gamja_market.Base.Int.{pos}
use gamja_market.Base.Text.{Text}
use gamja_market.Schema.{
  ProductStatus, TradeStatus, PaymentStatus, SettlementStatus, Product, Trade, Payment, Db,
  find_first, count,
}
use gamja_market.Schema.Action.{ok}
use gamja_market.Sound.{IsSound}
use gamja_market.Trades.Model.{entry}
use gamja_market.Payments.Escrow.{balance}
use gamja_market.Payments.Model.{Hash, Provider, TossPayment, TossStatus}

abbrev pub camera : Product
camera = record {
  id = 10;
  author_id = 1;
  neighborhood_id = 1;
  title = [];
  description = [];
  price_krw = 5000;
  category = [];
  status = ProductStatus.reserved;
  created_at = 1;
}

-- The trade of the buyer 2.
abbrev pub sale : TradeStatus → Trade
sale status = record {
  id = 7;
  product_id = 10;
  buyer_id = 2;
  seller_id = 1;
  price_krw = 5000;
  status = status;
  rejected_at = none;
  delivered_at = none;
  auto_confirm_at = some 90;
  confirmed_at = none;
  disputed_at = none;
  cancelled_at = none;
  reason = none;
  updated_at = 3;
}

abbrev pub order : Payment
order = record {
  id = 5;
  trade_id = 7;
  order_id = 9;
  payment_key = none;
  amount_krw = 5000;
  status = PaymentStatus.ready;
  settlement_status = SettlementStatus.hold;
  method_masked = none;
  last_webhook_sequence = pos 0;
  approved_at = none;
  cancelled_at = none;
  refunded_at = none;
  settlement_available_at = none;
  settled_at = none;
  reconciliation_checked_at = none;
  failure_code = none;
}

-- The trade was accepted, and its order waits for its payment.
abbrev pub reserved_market : Db
reserved_market = record {
  users = [];
  sessions = [];
  codes = [];
  throttles = [];
  neighborhoods = [];
  links = [];
  images = [];
  audit_logs = [];
  reports = [];
  messages = [];
  products = camera ∷ [];
  trades = sale TradeStatus.accepted ∷ [];
  histories =
      entry 7 (some 1) (some TradeStatus.requested) TradeStatus.accepted none
      ∷ entry 7 (some 2) none TradeStatus.requested none
      ∷ [];
  payments = order ∷ [];
  ledger = [];
  operations = [];
  webhooks = [];
  outbox = [];
  blocks = [];
  rooms = [];
  participants = [];
}

-- The trade is an open request, and the product is offered.
abbrev pub open_market : Db
open_market = record reserved_market {
  products = record camera { status = ProductStatus.active } ∷ [];
  trades =
      sale TradeStatus.requested
      ∷ record (sale TradeStatus.requested) { id = 8; buyer_id = 3 }
      ∷ [];
  histories = [];
  payments = [];
}

-- The trade was delivered, and its payment is captured.
abbrev pub captured : Payment
captured = record order {
  payment_key = some (1 ∷ []);
  status = PaymentStatus.approved;
  method_masked = some [];
  approved_at = some 4;
}

abbrev pub paid_market : TradeStatus → Db
paid_market status = record reserved_market { trades = sale status ∷ []; payments = captured ∷ [] }

-- The trade was accepted, and no order was made for it.
abbrev pub unpaid_market : Db
unpaid_market = record reserved_market { payments = [] }

abbrev pub no_hash : Hash
no_hash a p = 0

-- A provider that approves, cancels and refunds what it is asked for.
abbrev pub answer : Text → ℕ → ℕ → TossStatus → TossPayment
answer payment_key order_id amount_krw status = record {
  payment_key = payment_key;
  order_id = order_id;
  amount_krw = amount_krw;
  status = status;
  method_masked = [];
}

abbrev pub sandbox : Provider
sandbox = record {
  confirm = λ payment_key order_id amount_krw k.
      ok (answer payment_key order_id amount_krw TossStatus.done);
  cancel = λ payment_key reason k. ok (some (answer payment_key 9 5000 TossStatus.canceled));
  refund = λ payment_key reason k. ok (some (answer payment_key 9 5000 TossStatus.refunded));
  lookup = λ payment_key. ok none;
}

abbrev pub a_key : Option Text
a_key = some (49 ∷ 50 ∷ 51 ∷ 52 ∷ 53 ∷ 54 ∷ 55 ∷ 56 ∷ [])

pub reserved_market-IsSound : IsSound reserved_market
unfolding count find_first balance
reserved_market-IsSound = record {
  reserved = record {
    trade_keys = λ k. ground arith;
    product_keys = λ k. ground arith;
    one_selected = λ p. ground arith;
  };
  audited = record {
    keys = λ k. ground arith;
    derived = λ k. ground arith;
    trail = (refl, refl, (refl, refl, tt));
  };
  escrowed = record {
    keys = λ k. ground arith;
    accounted = λ k. elim (Bool-cases (5 == k)) [ inl e ↦ rw e (refl, refl) | inr e ↦ rw e refl ];
  };
}
