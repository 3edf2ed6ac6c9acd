-- ===== src/Market/Errors.antt =====
-- A request that throws leaves the database as it was.
use gamja_market.Base.{◌≡◌, arith, inl, inr}
use gamja_market.Schema.{Db}
use gamja_market.Schema.Action.{Action, Error, err}
use gamja_market.Schema.Action.Laws.{Result-cases}
use gamja_market.Trades.Atomic.{
  accept-atomic, reject-atomic, deliver-atomic, confirm-atomic, dispute-atomic, cancel-atomic,
  request-atomic,
}
use gamja_market.Trades.Request.{request}
use gamja_market.Trades.Transitions.{accept, reject, deliver, confirm, dispute, cancel}
use gamja_market.Payments.Model.{Hash}
use gamja_market.Payments.Orders.{create_order}
use gamja_market.Payments.Confirm.{confirm as capture}
use gamja_market.Payments.Reverse.{reverse}
use gamja_market.Payments.Outcomes.{create_order-outcome, confirm-outcome, reverse-outcome}
use gamja_market.Market.Requests.{Request}
use gamja_market.Market.{perform, drop}

drop-atomic :
    {A : Type 0} (m : Action A) (db : Db) (e : Error)
    → ((m db).0 ≡ err e → (m db).1 ≡ db)
    → (drop m db).0 ≡ err e
    → (drop m db).1 ≡ db
drop-atomic m db e h r = elim (Result-cases (m db).0) [
  | inl (e', r') ↦ ground (arith, h)
  | inr (v, r') ↦ absurd (ground arith)
]

module _ (hash : Hash) (db : Db) (e : Error) where
  -- When a request on the trades or on the payments throws, the database is as it was before.
  pub perform-atomic : (r : Request) → (perform hash r db).0 ≡ err e → (perform hash r db).1 ≡ db
  unfolding perform
  perform-atomic (Request.request now trade_id room_id user product_id) =
      drop-atomic (request now trade_id room_id user product_id) db e
        (request-atomic now user product_id db e trade_id room_id)
  perform-atomic (Request.accept now user trade_id) =
      drop-atomic (accept now user trade_id) db e (accept-atomic now user trade_id db e)
  perform-atomic (Request.deliver now user trade_id) =
      drop-atomic (deliver now user trade_id) db e (deliver-atomic now user trade_id db e)
  perform-atomic (Request.confirm now user trade_id) =
      drop-atomic (confirm now user trade_id) db e (confirm-atomic now user trade_id db e)
  perform-atomic (Request.reject now user trade_id reason) =
      drop-atomic (reject now user trade_id reason) db e
        (reject-atomic now user trade_id db e reason)
  perform-atomic (Request.dispute now user trade_id reason) =
      drop-atomic (dispute now user trade_id reason) db e
        (dispute-atomic now user trade_id db e reason)
  perform-atomic (Request.cancel now user trade_id reason) =
      drop-atomic (cancel now user trade_id reason) db e
        (cancel-atomic now user trade_id db e reason)
  perform-atomic (Request.create_order id order_id user trade_id key) =
      drop-atomic (create_order hash id order_id user trade_id key) db e (λ r.
        elim (create_order-outcome hash id order_id user trade_id key db) [
          | inl same ↦ same
          | inr (k, v, done, _) ↦ absurd (ground arith)
        ])
  perform-atomic (Request.capture toss now user order_id input key) =
      drop-atomic (capture hash toss now user order_id input key) db e (λ r.
        elim (confirm-outcome hash toss now user order_id input key db) [
          | inl same ↦ same
          | inr (_, _, _, _, v, _, _, _, _, done, _) ↦ absurd (ground arith)
        ])
  perform-atomic (Request.reverse toss now user order_id reason key action) =
      drop-atomic (reverse hash toss now user order_id reason key action) db e (λ r.
        elim (reverse-outcome hash toss now user order_id reason key action db) [
          | inl same ↦ same
          | inr (_, _, _, _, _, v, _, _, _, done, _) ↦ absurd (ground arith)
        ])
