-- ===== src/Trades/Audit/Methods.antt =====
-- Every method of apps/api/src/trades/trade.service.ts keeps the audit invariant.
use gamja_market.Base.{ℕ, ◌≡◌, refl, Bool, true, ◌&&◌, none, some, ◌∷◌, arith, ◌==◌, inl, inr}
use gamja_market.Base.Text.{Text, trim}
use gamja_market.Schema.{
  Trade, TradeHistory, TradeStatus, is_requested, is_accepted, is_delivered, update_many, Db,
}
use gamja_market.Schema.Action.Laws.{Result-cases}
use gamja_market.Schema.Tables.{touch}
use gamja_market.Schema.Rows.Laws.{find_first_holds, find_first_unique}
use gamja_market.Trades.Atomic.{
  accept-atomic, reject-atomic, deliver-atomic, confirm-atomic, dispute-atomic, cancel-atomic,
  request-atomic,
}
use gamja_market.Trades.Audit.{HasAudit, is_transition}
use gamja_market.Trades.Audit.Tables.{move-IsAudited, new-IsAudited, move_many-IsAudited}
use gamja_market.Trades.Effects.{
  Moved, accept-Accepted, reject-Moved, deliver-Moved, confirm-Moved, dispute-Moved, cancel-Moved,
  request-Requested,
}
use gamja_market.Trades.Model.{is_participant, competing_trade_reason, entry}
use gamja_market.Trades.Request.{request, new_trade}
use gamja_market.Trades.Transitions.{
  accept, reject, deliver, confirm, dispute, cancel, as_accepted, as_rejected, as_delivered,
  as_confirmed, as_disputed, as_cancelled, is_competing, competing_entry, is_disputable,
  is_cancellable,
}

module _ (db : Db) (h : HasAudit db) where
  -- A method that has moved one trade keeps the invariant.
  pub Moved-HasAudit :
      (tid : ℕ) (test : Trade → Bool) (f : Trade → Trade) (row : TradeHistory) (t : Trade)
      (db' : Db)
      → Moved tid test f row t db db'
      → ((r : Trade) → (f r).id ≡ r.id)
      → row.trade_id ≡ tid
      → row.to_status ≡ (f t).status
      → (test t ≡ true
          → (row.from_status ≡ some t.status)
            × (is_transition row.from_status row.to_status ≡ true))
      → HasAudit db'
  Moved-HasAudit tid test f row t db' m i a b c =
      let holds = find_first_holds (λ r. r.id == tid && test r) db.trades t m.found in
      let (from, edge) = c (ground arith) in
      rw (m.trades, m.history)
        (move-IsAudited db.trades db.histories h tid f t row
          (find_first_unique (λ r. r.id) tid test db.trades t (h.keys tid) m.found) i a from b edge)

module _ (now user tid : ℕ) (db : Db) (h : HasAudit db) where
  pub reject-HasAudit : (reason : Text) → HasAudit (reject now user tid reason db).1
  reject-HasAudit reason = elim (Result-cases (reject now user tid reason db).0) [
    | inl (e, r) ↦ rw (reject-atomic now user tid db e reason r) h
    | inr (v, r) ↦
        let (t, m, _) = reject-Moved now user tid db h.keys reason v r in
        Moved-HasAudit db h tid (λ r. r.seller_id == user && is_requested r.status)
          (λ r. touch now (as_rejected now (trim reason) r))
          (entry tid (some user) (some TradeStatus.requested) TradeStatus.rejected
            (some (trim reason)))
          t (reject now user tid reason db).1 m (λ r. refl) refl refl (λ e. ground arith)
  ]

  pub deliver-HasAudit : HasAudit (deliver now user tid db).1
  deliver-HasAudit = elim (Result-cases (deliver now user tid db).0) [
    | inl (e, r) ↦ rw (deliver-atomic now user tid db e r) h
    | inr (v, r) ↦
        let (t, m, _, _) = deliver-Moved now user tid db h.keys v r in
        Moved-HasAudit db h tid (λ r. r.seller_id == user && is_accepted r.status)
          (λ r. touch now (as_delivered now r))
          (entry tid (some user) (some TradeStatus.accepted) TradeStatus.delivered none) t
          (deliver now user tid db).1 m (λ r. refl) refl refl (λ e. ground arith)
  ]

  pub confirm-HasAudit : HasAudit (confirm now user tid db).1
  confirm-HasAudit = elim (Result-cases (confirm now user tid db).0) [
    | inl (e, r) ↦ rw (confirm-atomic now user tid db e r) h
    | inr (v, r) ↦
        let (t, m, _, _) = confirm-Moved now user tid db h.keys v r in
        Moved-HasAudit db h tid (λ r. r.buyer_id == user && is_delivered r.status)
          (λ r. touch now (as_confirmed now r))
          (entry tid (some user) (some TradeStatus.delivered) TradeStatus.confirmed none) t
          (confirm now user tid db).1 m (λ r. refl) refl refl (λ e. ground arith)
  ]

  pub dispute-HasAudit : (reason : Text) → HasAudit (dispute now user tid reason db).1
  dispute-HasAudit reason = elim (Result-cases (dispute now user tid reason db).0) [
    | inl (e, r) ↦ rw (dispute-atomic now user tid db e reason r) h
    | inr (v, r) ↦
        let (t, m, _) = dispute-Moved now user tid db h.keys reason v r in
        Moved-HasAudit db h tid (λ r. is_participant user r && is_disputable r.status)
          (λ r. touch now (as_disputed now (trim reason) r))
          (entry tid (some user) (some t.status) TradeStatus.disputed (some (trim reason))) t
          (dispute now user tid reason db).1 m (λ r. refl) refl refl (λ e. ground arith)
  ]

  pub cancel-HasAudit : (reason : Text) → HasAudit (cancel now user tid reason db).1
  cancel-HasAudit reason = elim (Result-cases (cancel now user tid reason db).0) [
    | inl (e, r) ↦ rw (cancel-atomic now user tid db e reason r) h
    | inr (v, r) ↦
        let (t, m, _, _) = cancel-Moved now user tid db h.keys reason v r in
        Moved-HasAudit db h tid (λ r. is_participant user r && is_cancellable r.status)
          (λ r. touch now (as_cancelled now (trim reason) r))
          (entry tid (some user) (some t.status) TradeStatus.cancelled (some (trim reason))) t
          (cancel now user tid reason db).1 m (λ r. refl) refl refl (λ e. ground arith)
  ]

  pub accept-HasAudit : HasAudit (accept now user tid db).1
  accept-HasAudit = elim (Result-cases (accept now user tid db).0) [
    | inl (e, r) ↦ rw (accept-atomic now user tid db e r) h
    | inr (v, r) ↦
        let (t, found, one, ts, ps, hs) = accept-Accepted now user tid db h.keys v r in
        let row = entry tid (some user) (some TradeStatus.requested) TradeStatus.accepted none in
        let accepted =
          move-IsAudited db.trades db.histories h tid (λ r. touch now (as_accepted r)) t row
            (find_first_unique (λ r. r.id) tid (λ r. r.seller_id == user && is_requested r.status)
              db.trades t (h.keys tid) found)
            (λ r. refl) refl
            (ground (
              arith,
              find_first_holds (λ r. r.id == tid && (r.seller_id == user && is_requested r.status))
                  db.trades t found,
            ))
            refl refl in
        rw (ts, hs)
          (move_many-IsAudited
            (update_many (λ r. r.id == tid) (λ r. touch now (as_accepted r)) db.trades)
            (row ∷ db.histories) (is_competing t)
            (λ r. touch now (as_rejected now competing_trade_reason r)) (competing_entry user)
            TradeStatus.requested TradeStatus.rejected accepted (λ r. refl) (λ r. refl)
            (λ r e. ground arith) (λ r. refl) (λ r. refl) (λ r. refl) refl)
  ]

-- A new request begins its history.
pub request-HasAudit :
    (now trade_id room_id user product_id : ℕ) (db : Db)
    → HasAudit db
    → HasAudit (request now trade_id room_id user product_id db).1
request-HasAudit now trade_id room_id user product_id db h =
    elim (Result-cases (request now trade_id room_id user product_id db).0) [
      | inl (e, r) ↦ rw (request-atomic now user product_id db e trade_id room_id r) h
      | inr (v, r) ↦
          let (p, q) = request-Requested now trade_id room_id user product_id db v r in
          rw (q.trades, q.history)
            (new-IsAudited db.trades db.histories h (new_trade now trade_id product_id user p)
              (entry trade_id (some user) none TradeStatus.requested none) q.fresh refl refl refl
              refl)
    ]
