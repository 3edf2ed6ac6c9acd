-- ===== src/Trades/Exclusive/Methods.antt =====
-- Every method of apps/api/src/trades/trade.service.ts keeps the reservation invariant.
use gamja_market.Base.{ℕ, ◌≡◌, refl, ◌&&◌, some, arith, ◌==◌, inl, inr, Bool-cases}
use gamja_market.Base.Text.{Text, trim}
use gamja_market.Schema.{
  Trade, is_active, is_requested, is_accepted, is_delivered, is_reserved, find_first, update_many,
  Db,
}
use gamja_market.Schema.Action.Laws.{Result-cases}
use gamja_market.Schema.Tables.{touch}
use gamja_market.Schema.Rows.Laws.{find_first_holds}
use gamja_market.Trades.Atomic.{
  accept-atomic, reject-atomic, deliver-atomic, confirm-atomic, dispute-atomic, cancel-atomic,
  request-atomic,
}
use gamja_market.Trades.Effects.{
  released, accept-Accepted, reject-Moved, deliver-Moved, confirm-Moved, dispute-Moved,
  cancel-Moved, request-Requested,
}
use gamja_market.Trades.Exclusive.{IsExclusive, IsReserved}
use gamja_market.Trades.Exclusive.Tables.{
  KeepsLinks, move-IsExclusive, pass-IsExclusive, new-IsExclusive, withdraw-IsExclusive,
  reserve-IsExclusive, release-IsExclusive,
}
use gamja_market.Trades.Model.{is_participant, competing_trade_reason}
use gamja_market.Trades.Request.{request, new_trade}
use gamja_market.Trades.Transitions.{
  accept, reject, deliver, confirm, dispute, cancel, as_accepted, as_rejected, as_delivered,
  as_confirmed, as_disputed, as_cancelled, as_reserved, as_sold, as_offered, is_competing,
  is_disputable, is_cancellable,
}

abbrev pub links :
    {f : Trade → Trade}
    → ((r : Trade) → (f r).id ≡ r.id)
    → ((r : Trade) → (f r).product_id ≡ r.product_id)
    → KeepsLinks f
links i p = record { keeps_id = i; keeps_product = p }

module _ (now user tid : ℕ) (db : Db) (h : IsReserved db) where
  pub reject-IsReserved : (reason : Text) → IsReserved (reject now user tid reason db).1
  reject-IsReserved reason = elim (Result-cases (reject now user tid reason db).0) [
    | inl (e, r) ↦ rw (reject-atomic now user tid db e reason r) h
    | inr (v, r) ↦
        let (t, m, ps) = reject-Moved now user tid db h.trade_keys reason v r in
        rw (ps, m.trades)
          (move-IsExclusive db.products db.trades h tid
            (λ r. r.seller_id == user && is_requested r.status)
            (λ r. touch now (as_rejected now (trim reason) r)) t (links (λ r. refl) (λ r. refl))
            m.found
            (λ x. ground (
              arith,
              find_first_holds (λ r. r.id == tid && (r.seller_id == user && is_requested r.status))
                  db.trades t m.found,
            )))
  ]

  pub deliver-IsReserved : IsReserved (deliver now user tid db).1
  deliver-IsReserved = elim (Result-cases (deliver now user tid db).0) [
    | inl (e, r) ↦ rw (deliver-atomic now user tid db e r) h
    | inr (v, r) ↦
        let (t, m, ps, paid) = deliver-Moved now user tid db h.trade_keys v r in
        rw (ps, m.trades)
          (move-IsExclusive db.products db.trades h tid
            (λ r. r.seller_id == user && is_accepted r.status) (λ r. touch now (as_delivered now r))
            t (links (λ r. refl) (λ r. refl)) m.found
            (λ x. ground (
              arith,
              find_first_holds (λ r. r.id == tid && (r.seller_id == user && is_accepted r.status))
                  db.trades t m.found,
            )))
  ]

  pub dispute-IsReserved : (reason : Text) → IsReserved (dispute now user tid reason db).1
  dispute-IsReserved reason = elim (Result-cases (dispute now user tid reason db).0) [
    | inl (e, r) ↦ rw (dispute-atomic now user tid db e reason r) h
    | inr (v, r) ↦
        let (t, m, ps) = dispute-Moved now user tid db h.trade_keys reason v r in
        rw (ps, m.trades)
          (move-IsExclusive db.products db.trades h tid
            (λ r. is_participant user r && is_disputable r.status)
            (λ r. touch now (as_disputed now (trim reason) r)) t (links (λ r. refl) (λ r. refl))
            m.found
            (λ x. ground (
              arith,
              find_first_holds
                  (λ r. r.id == tid && (is_participant user r && is_disputable r.status)) db.trades
                  t m.found,
            )))
  ]

  pub confirm-IsReserved : IsReserved (confirm now user tid db).1
  confirm-IsReserved = elim (Result-cases (confirm now user tid db).0) [
    | inl (e, r) ↦ rw (confirm-atomic now user tid db e r) h
    | inr (v, r) ↦
        let (t, m, ps, paid) = confirm-Moved now user tid db h.trade_keys v r in
        let sold =
          withdraw-IsExclusive db.products db.trades h (λ p. p.id == t.product_id) as_sold
            (λ r. refl) (λ r. refl) in
        rw (ps, m.trades)
          (move-IsExclusive (update_many (λ p. p.id == t.product_id) as_sold db.products) db.trades
            sold tid (λ r. r.buyer_id == user && is_delivered r.status)
            (λ r. touch now (as_confirmed now r)) t (links (λ r. refl) (λ r. refl)) m.found
            (λ x. ground (
              arith,
              find_first_holds (λ r. r.id == tid && (r.buyer_id == user && is_delivered r.status))
                  db.trades t m.found,
            )))
  ]

  pub accept-IsReserved : IsReserved (accept now user tid db).1
  accept-IsReserved = elim (Result-cases (accept now user tid db).0) [
    | inl (e, r) ↦ rw (accept-atomic now user tid db e r) h
    | inr (v, r) ↦
        let (t, found, one, ts, ps, _) = accept-Accepted now user tid db h.trade_keys v r in
        let reserved =
          reserve-IsExclusive db.products db.trades h tid t.product_id
            (λ r. r.seller_id == user && is_requested r.status) (λ r. touch now (as_accepted r)) t
            as_reserved (links (λ r. refl) (λ r. refl)) found refl
            (ground (
              arith,
              find_first_holds (λ r. r.id == tid && (r.seller_id == user && is_requested r.status))
                  db.trades t found,
            ))
            (λ r. refl) (λ r. refl) one in
        rw (ps, ts)
          (pass-IsExclusive
            (update_many (λ p. p.id == t.product_id && is_active p.status) as_reserved db.products)
            (update_many (λ r. r.id == tid) (λ r. touch now (as_accepted r)) db.trades) reserved
            (is_competing t) (λ r. touch now (as_rejected now competing_trade_reason r))
            (links (λ r. refl) (λ r. refl)) (λ r e. ground arith) (λ r e. refl))
  ]

  cancelled :
      (reason : Text) (t : Trade)
      → find_first
          (λ r. r.id == tid && (is_participant user r && is_cancellable r.status))
          db.trades
        ≡ some t
      → IsExclusive
          (released t db.products)
          (update_many (λ r. r.id == tid) (λ r. touch now (as_cancelled now reason r)) db.trades)
  cancelled reason t found = elim (Bool-cases (is_accepted t.status)) [
    | inl acc ↦ rw acc (
        release-IsExclusive db.products db.trades h tid
          (λ r. is_participant user r && is_cancellable r.status)
          (λ r. touch now (as_cancelled now reason r)) t
          (λ p. p.id == t.product_id && is_reserved p.status) as_offered
          (links (λ r. refl) (λ r. refl)) found (ground arith) refl (λ r. refl)
          (λ r e. ground arith))
    | inr pending ↦ rw pending (
        move-IsExclusive db.products db.trades h tid
          (λ r. is_participant user r && is_cancellable r.status)
          (λ r. touch now (as_cancelled now reason r)) t (links (λ r. refl) (λ r. refl)) found
          (λ x. cc))
  ]

  pub cancel-IsReserved : (reason : Text) → IsReserved (cancel now user tid reason db).1
  cancel-IsReserved reason = elim (Result-cases (cancel now user tid reason db).0) [
    | inl (e, r) ↦ rw (cancel-atomic now user tid db e reason r) h
    | inr (v, r) ↦
        let (t, m, ps, paid) = cancel-Moved now user tid db h.trade_keys reason v r in
        rw (ps, m.trades) (cancelled (trim reason) t m.found)
  ]

-- A new request is not selected.
pub request-IsReserved :
    (now trade_id room_id user product_id : ℕ) (db : Db)
    → IsReserved db
    → IsReserved (request now trade_id room_id user product_id db).1
request-IsReserved now trade_id room_id user product_id db h =
    elim (Result-cases (request now trade_id room_id user product_id db).0) [
      | inl (e, r) ↦ rw (request-atomic now user product_id db e trade_id room_id r) h
      | inr (v, r) ↦
          let (p, q) = request-Requested now trade_id room_id user product_id db v r in
          rw (q.products, q.trades)
            (new-IsExclusive db.products db.trades h (new_trade now trade_id product_id user p)
              q.fresh refl)
    ]
