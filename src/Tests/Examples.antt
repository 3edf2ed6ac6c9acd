-- ===== src/Tests/Examples.antt =====
-- The theorems at the small market.
use gamja_market.Base.{◌≡◌, refl, true, false, ◌&&◌, none, some, [], ◌∷◌, arith, ◌==◌}
use gamja_market.Base.Int.{pos}
use gamja_market.Base.Text.{number_of, trim, text_eq}
use gamja_market.Schema.{
  transaction, TradeStatus, Payment, Product, Trade, Db, find_first, update_many, count,
  is_requested, is_active, is_accepted, is_approved,
}
use gamja_market.Schema.Action.{ok, err, not_found, trade_not_found}
use gamja_market.Schema.Rows.Laws.{HasUniqueKeys}
use gamja_market.Schema.Tables.{
  is_key_clash, touch, update_trade, update_trades, update_product, update_products, update_payment,
  update_payments, create_history, create_ledger_entry, payment_of,
}
use gamja_market.Sound.{IsSound}
use gamja_market.Trades.Transitions.{
  accept, deliver, confirm, is_competing, as_delivered, as_confirmed, is_paid, start_hold,
  reject_competing,
}
use gamja_market.Trades.Model.{serialize as serialize_trade}
use gamja_market.Trades.Effects.{Moved, deliver-Moved}
use gamja_market.Trades.Competition.{accept-no_competing}
use gamja_market.Market.Requests.{Request}
use gamja_market.Market.{perform, ◌⟶*◌, serve, here, later, revert, IsOrderly, IsTimely}
use gamja_market.Payments.Outcomes.{Reversible}
use gamja_market.Payments.Reverse.{Reversal, commit_reverse}
use gamja_market.Market.Soundness.{reachable-IsSound}
use gamja_market.Market.Errors.{perform-atomic}
use gamja_market.Payments.Model.{replay, record_operation, key}
use gamja_market.Payments.Confirm.{check_confirm, commit_confirm, confirm as capture}
use gamja_market.Payments.Escrow.{balance}
use gamja_market.Payments.Escrow.Trades.{confirm-Held}
use gamja_market.Market.Consequences.{selected_once, escrow_held}
use gamja_market.Tests.Data.{
  reserved_market, open_market, paid_market, no_hash, sandbox, a_key, captured, sale,
  reserved_market-IsSound,
}

abbrev the_capture : Request
the_capture =
    Request.capture sandbox 4 2 9
      (record { payment_key = 1 ∷ []; order_id = 9; amount_krw = b'5' ∷ b'0' ∷ b'0' ∷ b'0' ∷ [] })
      a_key

-- The market after the order was paid.
abbrev paid : Db
paid = (perform no_hash the_capture reserved_market).1

abbrev paid_steps : ◌⟶*◌ no_hash reserved_market paid
paid_steps = later (serve the_capture reserved_market) here

paid_steps-IsOrderly : IsOrderly no_hash paid_steps
unfolding IsOrderly IsTimely
paid_steps-IsOrderly = (tt, tt)

paid_allowed : Reversible 5 2 Reversal.cancel captured (sale TradeStatus.accepted) paid
unfolding perform capture check_confirm number_of commit_confirm is_key_clash key trim text_eq
    replay find_first update_many count update_payments create_ledger_entry record_operation
paid_allowed = record { row = (9, refl); trade_row = refl; captured = refl; allowed = refl }

-- The market after the payment was cancelled, its checks read at 5 and its transaction run at 6.
abbrev returned : Db
returned =
    (transaction (commit_reverse 6 2 [] [] 0 Reversal.cancel captured (sale TradeStatus.accepted))
      paid).1

abbrev returned_steps : ◌⟶*◌ no_hash reserved_market returned
returned_steps =
    later (serve the_capture reserved_market)
      (later (revert 5 6 2 [] [] 0 Reversal.cancel captured (sale TradeStatus.accepted) paid) here)

returned_steps-IsOrderly : IsOrderly no_hash returned_steps
unfolding IsOrderly IsTimely
returned_steps-IsOrderly = (tt, (paid_allowed, tt))

reachable-IsSound_example : IsSound returned
reachable-IsSound_example =
    reachable-IsSound no_hash reserved_market returned returned_steps returned_steps-IsOrderly
      reserved_market-IsSound

thrown :
    (perform no_hash (Request.accept 4 3 7) reserved_market).0 ≡ err (not_found trade_not_found)
unfolding perform accept find_first
thrown = refl

perform-atomic_example :
    (perform no_hash (Request.accept 4 3 7) reserved_market).1 ≡ reserved_market
perform-atomic_example =
    perform-atomic no_hash reserved_market (not_found trade_not_found) (Request.accept 4 3 7) thrown

captured_row : find_first (λ r. r.id == 5) paid.payments ≡ some captured
unfolding perform capture check_confirm number_of commit_confirm is_key_clash key trim text_eq
    replay find_first update_many count update_payments create_ledger_entry record_operation
captured_row = refl

sold_row : find_first (λ r. r.id == 7) paid.trades ≡ some (sale TradeStatus.accepted)
unfolding perform capture check_confirm number_of commit_confirm is_key_clash key trim text_eq
    replay find_first update_many count update_payments create_ledger_entry record_operation
sold_row = refl

selected_once_example :
    ((sale TradeStatus.accepted).id ≡ (sale TradeStatus.accepted).id)
    × ((p : Product) × (find_first (λ x. x.id == 10) paid.products ≡ some p)
        × (is_active p.status ≡ false))
selected_once_example =
    selected_once no_hash reserved_market paid paid_steps paid_steps-IsOrderly
      (sale TradeStatus.accepted) (sale TradeStatus.accepted) reserved_market-IsSound sold_row
      sold_row refl refl refl

escrow_held_example : balance 5 paid.ledger ≡ pos 5000
escrow_held_example =
    escrow_held no_hash reserved_market paid paid_steps paid_steps-IsOrderly captured
      reserved_market-IsSound captured_row refl refl

open_keys : HasUniqueKeys (λ t. t.id) open_market.trades
unfolding count
open_keys k = ground arith

accepted :
    (accept 4 1 7 open_market).0 ≡ ok (serialize_trade (touch 4 (sale TradeStatus.accepted)) 1)
unfolding accept find_first update_many count update_products update_trade create_history
    reject_competing update_trades
accepted = refl

accept-no_competing_example :
    (t : Trade) × (find_first
        (λ r. r.id == 7 && (r.seller_id == 1 && is_requested r.status))
        open_market.trades
      ≡ some t)
    × (count (λ p. p.id == t.product_id && is_active p.status) open_market.products ≡ 1)
    × (count (is_competing t) (accept 4 1 7 open_market).1.trades ≡ 0)
    × (count (λ p. p.id == t.product_id && is_active p.status) (accept 4 1 7 open_market).1.products
        ≡ 0)
accept-no_competing_example =
    accept-no_competing 4 1 7 open_market (serialize_trade (touch 4 (sale TradeStatus.accepted)) 1)
      open_keys accepted

one_sale : (status : TradeStatus) → HasUniqueKeys (λ t. t.id) (paid_market status).trades
unfolding count
one_sale status k = ground arith

abbrev delivered_sale : Trade
delivered_sale = touch 4 (as_delivered 4 (sale TradeStatus.accepted))

delivered :
    (deliver 4 1 7 (paid_market TradeStatus.accepted)).0 ≡ ok (serialize_trade delivered_sale 1)
unfolding deliver find_first update_many update_trade create_history payment_of
delivered = refl

deliver-Moved_example :
    (t : Trade) × Moved 7
      (λ r. r.seller_id == 1 && is_accepted r.status)
      (λ r. record r {
        status = TradeStatus.delivered;
        delivered_at = some 4;
        auto_confirm_at = some 604800004;
        updated_at = 4;
      })
      (record {
        trade_id = 7;
        actor_id = some 1;
        from_status = some TradeStatus.accepted;
        to_status = TradeStatus.delivered;
        reason = none;
      })
      t
      (paid_market TradeStatus.accepted)
      (deliver 4 1 7 (paid_market TradeStatus.accepted)).1
    × ((deliver 4 1 7 (paid_market TradeStatus.accepted)).1.products
        ≡ (paid_market TradeStatus.accepted).products)
    × (is_paid (payment_of 7 (paid_market TradeStatus.accepted)) ≡ true)
deliver-Moved_example =
    deliver-Moved 4 1 7 (paid_market TradeStatus.accepted) (one_sale TradeStatus.accepted)
      (serialize_trade delivered_sale 1) delivered

abbrev confirmed_sale : Trade
confirmed_sale = touch 4 (as_confirmed 4 (sale TradeStatus.delivered))

confirmed :
    (confirm 4 2 7 (paid_market TradeStatus.delivered)).0 ≡ ok (serialize_trade confirmed_sale 2)
unfolding confirm find_first update_many update_trade create_history payment_of update_product
    update_payment
confirmed = refl

confirm-Held_example :
    (p : Payment) × (payment_of 7 (paid_market TradeStatus.delivered) ≡ some p)
    × (is_approved p.status ≡ true)
    × ((confirm 4 2 7 (paid_market TradeStatus.delivered)).1.payments
        ≡ update_many
            (λ r. r.id == p.id)
            (start_hold 4)
            (paid_market TradeStatus.delivered).payments)
    × ((confirm 4 2 7 (paid_market TradeStatus.delivered)).1.ledger
        ≡ (paid_market TradeStatus.delivered).ledger)
confirm-Held_example =
    confirm-Held 4 2 7 (paid_market TradeStatus.delivered) (serialize_trade confirmed_sale 2)
      confirmed
