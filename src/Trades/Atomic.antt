-- ===== src/Trades/Atomic.antt =====
-- A method of apps/api/src/trades/trade.service.ts that throws has changed nothing.
use gamja_market.Base.{ℕ, ◌≡◌}
use gamja_market.Base.Text.{Text}
use gamja_market.Schema.{Db}
use gamja_market.Schema.Action.{Error, err}
use gamja_market.Schema.Action.Laws.{transaction_atomic}
use gamja_market.Trades.Request.{request, request_tx}
use gamja_market.Trades.Transitions.{
  accept, reject, deliver, confirm, dispute, cancel, accept_tx, reject_tx, deliver_tx, confirm_tx,
  dispute_tx, cancel_tx,
}
use gamja_market.Trades.Model.{serialize}

module _ (now user tid : ℕ) (db : Db) (e : Error) where
  pub accept-atomic : (accept now user tid db).0 ≡ err e → (accept now user tid db).1 ≡ db
  unfolding accept
  accept-atomic h = transaction_atomic (accept_tx now user tid) (λ t. serialize t user) db e h

  pub reject-atomic :
      (reason : Text)
      → (reject now user tid reason db).0 ≡ err e
      → (reject now user tid reason db).1 ≡ db
  unfolding reject
  reject-atomic reason h =
      transaction_atomic (reject_tx now user tid reason) (λ t. serialize t user) db e h

  pub deliver-atomic : (deliver now user tid db).0 ≡ err e → (deliver now user tid db).1 ≡ db
  unfolding deliver
  deliver-atomic h = transaction_atomic (deliver_tx now user tid) (λ t. serialize t user) db e h

  pub confirm-atomic : (confirm now user tid db).0 ≡ err e → (confirm now user tid db).1 ≡ db
  unfolding confirm
  confirm-atomic h = transaction_atomic (confirm_tx now user tid) (λ t. serialize t user) db e h

  pub dispute-atomic :
      (reason : Text)
      → (dispute now user tid reason db).0 ≡ err e
      → (dispute now user tid reason db).1 ≡ db
  unfolding dispute
  dispute-atomic reason h =
      transaction_atomic (dispute_tx now user tid reason) (λ t. serialize t user) db e h

  pub cancel-atomic :
      (reason : Text)
      → (cancel now user tid reason db).0 ≡ err e
      → (cancel now user tid reason db).1 ≡ db
  unfolding cancel
  cancel-atomic reason h =
      transaction_atomic (cancel_tx now user tid reason) (λ t. serialize t user) db e h

  pub request-atomic :
      (trade_id room_id : ℕ)
      → (request now trade_id room_id user tid db).0 ≡ err e
      → (request now trade_id room_id user tid db).1 ≡ db
  unfolding request
  request-atomic trade_id room_id h =
      transaction_atomic (request_tx now trade_id room_id user tid) (λ r. (serialize r.0 user, r.1))
        db e h
