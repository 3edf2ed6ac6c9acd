-- ===== src/Payments/Outcomes.antt =====
-- How the requests of apps/api/src/payments/payment.service.ts end: nothing is written, or one
-- transaction is.
use gamja_market.Base.{
  Option-cases, ℕ, ◌≡◌, ◌⊎◌, refl, Bool, true, false, ◌&&◌, not, ◌||◌, Option, none, some, arith,
  ◌==◌, Bool-cases, inl, inr,
}
use gamja_market.Base.Text.{Text, trim}
use gamja_market.Schema.{
  PaymentAction, is_accepted, is_approved, is_confirmed, is_disputed, Payment, Trade,
  StoredResponse, Db, find_first,
}
use gamja_market.Schema.Action.{Error, Result, ok, err}
use gamja_market.Schema.Action.Laws.{Result-cases}
use gamja_market.Payments.Model.{
  Hash, Provider, TossPayment, order_payload, confirm_payload, reverse_payload, key, replay,
}
use gamja_market.Payments.Orders.{participant_payment, open_order, create_order}
use gamja_market.Payments.Confirm.{
  ConfirmInput, check_confirm, commit_confirm, confirm, is_mismatch,
}
use gamja_market.Payments.Reverse.{
  Reversal, check_reverse, check_action, commit_reverse, reverse, action_of, call_provider,
  is_window_over,
}

pub check_confirm_reads :
    (user order_id : ℕ) (input : ConfirmInput) (db : Db)
    → (check_confirm user order_id input db).1 ≡ db
unfolding check_confirm
check_confirm_reads user order_id input db = ground arith

-- When a captured payment may be reversed: the buyer cancels an accepted trade within seven days,
-- and a confirmed or disputed trade is refunded.
abbrev pub is_allowed : ℕ → ℕ → Reversal → Payment → Trade → Bool
is_allowed now user Reversal.cancel existing trade =
    is_accepted trade.status && (trade.buyer_id == user && not (is_window_over now existing))
is_allowed now user Reversal.refund existing trade =
    is_confirmed trade.status || is_disputed trade.status

pub participant_payment_reads :
    (user order_id : ℕ) (db : Db) → (participant_payment user order_id db).1 ≡ db
unfolding participant_payment
participant_payment_reads user order_id db = ground arith

pub check_action_reads :
    (now user : ℕ) (action : Reversal) (existing : Payment) (trade : Trade) (db : Db)
    → (check_action now user action existing trade db).1 ≡ db
unfolding check_action
check_action_reads now user Reversal.cancel existing trade db = ground arith
check_action_reads now user Reversal.refund existing trade db = ground arith

pub check_reverse_reads :
    (now user order_id : ℕ) (action : Reversal) (db : Db)
    → (check_reverse now user order_id action db).1 ≡ db
unfolding check_reverse
check_reverse_reads now user order_id action db =
    elim (Result-cases (participant_payment user order_id db).0) [
      | inl (e, h) ↦ ground (arith, participant_payment_reads user order_id db)
      | inr ((existing, trade), h) ↦ ground (
        arith,
        participant_payment_reads user order_id db,
        check_action_reads now user action existing trade db,
      )
    ]

pub replay_reads :
    (k : Text) (action : PaymentAction) (request_hash : ℕ) (db : Db)
    → (replay k action request_hash db).1 ≡ db
unfolding replay
replay_reads k action request_hash db = refl

pub Replay-cases :
    (r : Result (Option StoredResponse))
    → (r ≡ ok none) ⊎ (((e : Error) × (r ≡ err e)) ⊎ ((x : StoredResponse) × (r ≡ ok (some x))))
Replay-cases (ok none) = inl refl
Replay-cases (ok (some x)) = inr (inr (x, refl))
Replay-cases (err e) = inr (inl (e, refl))

module _ (hash : Hash) where
  -- `createOrder` writes nothing, or what `open_order` writes.
  pub create_order-outcome :
      (id order_id user trade_id : ℕ) (key_input : Option Text) (db : Db)
      → let r = create_order hash id order_id user trade_id key_input db in
        (r.1 ≡ db)
        ⊎ ((k : Text) × (v : StoredResponse) × (r.0 ≡ ok v)
            × (open_order hash id order_id user trade_id k db ≡ (ok v, r.1)))
  unfolding create_order
  create_order-outcome id order_id user trade_id key_input db =
      elim (Result-cases (key key_input)) [
        | inl (e, ek) ↦ inl (ground arith)
        | inr (k, ek) ↦
            let a = PaymentAction.create_order in
            let h = hash a (order_payload trade_id user) in
            let reads = replay_reads k a h db in
            elim (Replay-cases (replay k a h db).0) [
              | inr (inl (e, es)) ↦ inl (ground arith)
              | inr (inr (x, es)) ↦ inl (ground arith)
              | inl es ↦ elim (Result-cases (open_order hash id order_id user trade_id k db).0) [
                | inl (e, eo) ↦ inl (ground arith)
                | inr (v, eo) ↦ inr (k, v, ground arith, ground arith)
              ]
            ]
      ]

  module _ (toss : Provider) where
    -- `confirm` writes nothing, or what its transaction writes after the checks.
    pub confirm-outcome :
        (now user order_id : ℕ) (input : ConfirmInput) (key_input : Option Text) (db : Db)
        → let r = confirm hash toss now user order_id input key_input db in
          (r.1 ≡ db)
          ⊎ ((k : Text) × (h : ℕ) × (existing : Payment) × (approved : TossPayment)
              × (v : StoredResponse) × ((check_confirm user order_id input db).0 ≡ ok existing)
              × (key key_input ≡ ok k)
              × (toss.confirm input.payment_key order_id existing.amount_krw k ≡ ok approved)
              × (is_mismatch input.payment_key order_id existing approved ≡ false)
              × (r.0 ≡ ok v)
              × (commit_confirm now k h existing approved db ≡ (ok v, r.1)))
    unfolding confirm
    confirm-outcome now user order_id input key_input db = elim (Result-cases (key key_input)) [
      | inl (e, ek) ↦ inl (ground arith)
      | inr (k, ek) ↦
          let a = PaymentAction.confirm in
          let h = hash a (confirm_payload input.payment_key input.order_id input.amount_krw) in
          let reads = replay_reads k a h db in
          let checks = check_confirm_reads user order_id input db in
          elim (Replay-cases (replay k a h db).0) [
            | inr (inl (e, es)) ↦ inl (ground arith)
            | inr (inr (x, es)) ↦ inl (ground arith)
            | inl es ↦ elim (Result-cases (check_confirm user order_id input db).0) [
              | inl (e, ec) ↦ inl (ground arith)
              | inr (existing, ec) ↦
                  elim (Result-cases
                    (toss.confirm input.payment_key order_id existing.amount_krw k)) [
                      | inl (e, et) ↦ inl (ground arith)
                      | inr (approved, et) ↦
                          elim (Bool-cases
                            (is_mismatch input.payment_key order_id existing approved)) [
                              | inl m ↦ inl (ground arith)
                              | inr m ↦
                                  elim (Result-cases
                                    (commit_confirm now k h existing approved db).0) [
                                      | inl (e, eo) ↦ inl (ground arith)
                                      | inr (v, eo) ↦ inr (
                                        k,
                                        h,
                                        existing,
                                        approved,
                                        v,
                                        ec,
                                        ek,
                                        et,
                                        m,
                                        ground arith,
                                        ground arith,
                                      )
                                    ]
                            ]
                    ]
            ]
          ]
    ]

    -- `reverse` writes nothing, or what its transaction writes after the checks.
    pub reverse-outcome :
        (now user order_id : ℕ) (reason : Text) (key_input : Option Text) (action : Reversal)
        (db : Db)
        → let r = reverse hash toss now user order_id reason key_input action db in
          (r.1 ≡ db)
          ⊎ ((k : Text) × (h : ℕ) × (existing : Payment) × (payment_key : Text) × (trade : Trade)
              × (v : StoredResponse) × ((check_reverse now user order_id action db).0
                  ≡ ok (existing, payment_key, trade))
              × (key key_input ≡ ok k)
              × ((t : TossPayment) × (call_provider toss action payment_key (trim reason) k
                    ≡ ok (some t)))
              × (r.0 ≡ ok v)
              × (commit_reverse now user (trim reason) k h action existing trade db ≡ (ok v, r.1)))
    unfolding reverse
    reverse-outcome now user order_id reason key_input action db =
        elim (Result-cases (key key_input)) [
          | inl (e, ek) ↦ inl (ground arith)
          | inr (k, ek) ↦
              let a = action_of action in
              let h = hash a (reverse_payload order_id (trim reason) user) in
              let reads = replay_reads k a h db in
              let checks = check_reverse_reads now user order_id action db in
              elim (Replay-cases (replay k a h db).0) [
                | inr (inl (e, es)) ↦ inl (ground arith)
                | inr (inr (x, es)) ↦ inl (ground arith)
                | inl es ↦ elim (Result-cases (check_reverse now user order_id action db).0) [
                  | inl (e, ec) ↦ inl (ground arith)
                  | inr ((existing, payment_key, trade), ec) ↦
                      elim (Result-cases (call_provider toss action payment_key (trim reason) k)) [
                        | inl (e, et) ↦ inl (ground arith)
                        | inr (none, et) ↦ inl (ground arith)
                        | inr (some t, et) ↦
                            elim (Result-cases
                              (commit_reverse now user (trim reason) k h action existing trade
                                db).0) [
                                  | inl (e, eo) ↦ inl (ground arith)
                                  | inr (v, eo) ↦ inr (
                                    k,
                                    h,
                                    existing,
                                    payment_key,
                                    trade,
                                    v,
                                    ec,
                                    ek,
                                    (t, et),
                                    ground arith,
                                    ground arith,
                                  )
                                ]
                      ]
                ]
              ]
        ]

-- What the checks of `reverse` have found.
pub record Reversible (now user : ℕ) (action : Reversal) (existing : Payment) (trade : Trade)
    (db : Db) : Type 0 where
  pub row : (order_id : ℕ) × (find_first (λ p. p.order_id == order_id) db.payments ≡ some existing)
  pub trade_row : find_first (λ t. t.id == existing.trade_id) db.trades ≡ some trade
  pub captured : is_approved existing.status ≡ true
  pub allowed : is_allowed now user action existing trade ≡ true

pub participant_rows :
    (user order_id : ℕ) (db : Db) (existing : Payment) (trade : Trade)
    → (participant_payment user order_id db).0 ≡ ok (existing, trade)
    → (find_first (λ p. p.order_id == order_id) db.payments ≡ some existing)
      × (find_first (λ t. t.id == existing.trade_id) db.trades ≡ some trade)
      × ((trade.buyer_id ≡ user) ⊎ (trade.seller_id ≡ user))
unfolding participant_payment
participant_rows user order_id db existing trade h =
    elim (Option-cases (find_first (λ p. p.order_id == order_id) db.payments)) [
      | inl e ↦ absurd (ground arith)
      | inr (p, e) ↦ elim (Option-cases (find_first (λ t. t.id == p.trade_id) db.trades)) [
        | inl f ↦ absurd (ground arith)
        | inr (t, f) ↦ elim (Bool-cases (t.buyer_id == user)) [
          | inl b ↦ (ground arith, ground arith, inl (ground arith))
          | inr b ↦ (ground arith, ground arith, inr (ground arith))
        ]
      ]
    ]

check_action_allows :
    (now user : ℕ) (action : Reversal) (existing : Payment) (trade : Trade) (db : Db)
    → (check_action now user action existing trade db).0 ≡ ok tt
    → is_allowed now user action existing trade ≡ true
unfolding check_action
check_action_allows now user Reversal.cancel existing trade db h = ground arith
check_action_allows now user Reversal.refund existing trade db h = ground arith

pub check_reverse-Reversible :
    (now user order_id : ℕ) (action : Reversal) (db : Db) (existing : Payment) (pk : Text)
    (trade : Trade)
    → (check_reverse now user order_id action db).0 ≡ ok (existing, pk, trade)
    → Reversible now user action existing trade db
      × (find_first (λ p. p.order_id == order_id) db.payments ≡ some existing)
      × ((trade.buyer_id ≡ user) ⊎ (trade.seller_id ≡ user))
      × (existing.payment_key ≡ some pk)
unfolding check_reverse
check_reverse-Reversible now user order_id action db existing pk trade h =
    elim (Result-cases (participant_payment user order_id db).0) [
      | inl (e, r) ↦ absurd (ground arith)
      | inr ((p, t), r) ↦
          let reads = participant_payment_reads user order_id db in
          elim (Result-cases (check_action now user action p t db).0) [
            | inl (e, c) ↦ absurd (ground arith)
            | inr (u, c) ↦
                let pe : p ≡ existing = ground arith in
                let te : t ≡ trade = ground arith in
                let (rp, rt, part) = participant_rows user order_id db p t r in
                let allowed = check_action_allows now user action p t db c in
                (
                  record {
                    row = (order_id, rw pe at rp);
                    trade_row = rw (← pe, ← te) rt;
                    captured = ground arith;
                    allowed = rw (← pe, ← te) allowed;
                  },
                  rw pe at rp,
                  rw (← te) part,
                  ground arith,
                )
          ]
    ]
