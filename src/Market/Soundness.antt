-- ===== src/Market/Soundness.antt =====
-- Every step keeps the invariants of the database.
use gamja_market.Base.{arith, ℕ}
use gamja_market.Base.Text.{Text}
use gamja_market.Schema.{Payment, Trade, Db}
use gamja_market.Schema.Action.{Action, pure, transaction}
use gamja_market.Schema.Action.Laws.{bind-keeps, transaction-keeps}
use gamja_market.Sound.{IsSound}
use gamja_market.Trades.Exclusive.Methods.{
  accept-IsReserved, reject-IsReserved, deliver-IsReserved, confirm-IsReserved, dispute-IsReserved,
  cancel-IsReserved, request-IsReserved,
}
use gamja_market.Trades.Audit.Methods.{
  accept-HasAudit, reject-HasAudit, deliver-HasAudit, confirm-HasAudit, dispute-HasAudit,
  cancel-HasAudit, request-HasAudit,
}
use gamja_market.Payments.Model.{Hash, TossPayment}
use gamja_market.Trades.Request.{request}
use gamja_market.Trades.Transitions.{accept, reject, deliver, confirm, dispute, cancel}
use gamja_market.Payments.Orders.{create_order}
use gamja_market.Payments.Reverse.{Reversal, commit_reverse, reverse}
use gamja_market.Payments.Confirm.{commit_confirm, confirm as capture}
use gamja_market.Payments.Outcomes.{Reversible}
use gamja_market.Payments.Effects.{commit_confirm-Captured}
use gamja_market.Payments.Escrow.Trades.{
  accept-HasEscrow, reject-HasEscrow, deliver-HasEscrow, confirm-HasEscrow, dispute-HasEscrow,
  cancel-HasEscrow, request-HasEscrow,
}
use gamja_market.Payments.Escrow.Methods.{
  Captured-HasEscrow, create_order-HasEscrow, confirm-HasEscrow as capture-HasEscrow,
  reverse-HasEscrow, commit-HasEscrow,
}
use gamja_market.Payments.Keeps.{create_order-keeps, confirm-keeps, commit-keeps, reverse-keeps}
use gamja_market.Worker.Keeps.{confirm_due_trade-IsSound, cancel_expired_trade-IsSound}
use gamja_market.Payments.Webhook.Once.{receive_webhook-IsSound}
use gamja_market.Worker.Outbox.Reconciled.{process_outbox_event-IsSound}
use gamja_market.Products.Kept.{create-IsSound, update-IsSound, set_status-IsSound, remove-IsSound}
use gamja_market.Products.Service.{shown, hidden}
use gamja_market.Market.Requests.{Request}
use gamja_market.Market.{
  perform, drop, ◌⟶◌, ◌⟶*◌, serve, commit, complete, expire, receive, process, offer, edit, hide,
  show, delist, here, later, revert, IsTimely, IsOrderly,
}

drop-IsSound : {A : Type 0} (m : Action A) (db : Db) → IsSound (m db).1 → IsSound (drop m db).1
drop-IsSound m db h = bind-keeps IsSound m (λ _. pure tt) db h (λ _. h)

module _ (hash : Hash) (db : Db) (h : IsSound db) where
  perform-IsSound : (r : Request) → IsSound (perform hash r db).1
  unfolding perform
  perform-IsSound (Request.request now trade_id room_id user product_id) =
      drop-IsSound (request now trade_id room_id user product_id) db (record {
        reserved = request-IsReserved now trade_id room_id user product_id db h.reserved;
        audited = request-HasAudit now trade_id room_id user product_id db h.audited;
        escrowed = request-HasEscrow now trade_id room_id user product_id db h.escrowed;
      })
  perform-IsSound (Request.accept now user trade_id) =
      drop-IsSound (accept now user trade_id) db (record {
        reserved = accept-IsReserved now user trade_id db h.reserved;
        audited = accept-HasAudit now user trade_id db h.audited;
        escrowed = accept-HasEscrow now user trade_id db h.escrowed;
      })
  perform-IsSound (Request.deliver now user trade_id) =
      drop-IsSound (deliver now user trade_id) db (record {
        reserved = deliver-IsReserved now user trade_id db h.reserved;
        audited = deliver-HasAudit now user trade_id db h.audited;
        escrowed = deliver-HasEscrow now user trade_id db h.escrowed;
      })
  perform-IsSound (Request.confirm now user trade_id) =
      drop-IsSound (confirm now user trade_id) db (record {
        reserved = confirm-IsReserved now user trade_id db h.reserved;
        audited = confirm-HasAudit now user trade_id db h.audited;
        escrowed = confirm-HasEscrow now user trade_id db h.escrowed;
      })
  perform-IsSound (Request.reject now user trade_id reason) =
      drop-IsSound (reject now user trade_id reason) db (record {
        reserved = reject-IsReserved now user trade_id db h.reserved reason;
        audited = reject-HasAudit now user trade_id db h.audited reason;
        escrowed = reject-HasEscrow now user trade_id db h.escrowed reason;
      })
  perform-IsSound (Request.dispute now user trade_id reason) =
      drop-IsSound (dispute now user trade_id reason) db (record {
        reserved = dispute-IsReserved now user trade_id db h.reserved reason;
        audited = dispute-HasAudit now user trade_id db h.audited reason;
        escrowed = dispute-HasEscrow now user trade_id db h.escrowed reason;
      })
  perform-IsSound (Request.cancel now user trade_id reason) =
      drop-IsSound (cancel now user trade_id reason) db (record {
        reserved = cancel-IsReserved now user trade_id db h.reserved reason;
        audited = cancel-HasAudit now user trade_id db h.audited reason;
        escrowed = cancel-HasEscrow now user trade_id db h.escrowed reason;
      })
  perform-IsSound (Request.create_order id order_id user trade_id key) =
      let (r, a) =
        create_order-keeps hash db h.reserved h.audited h.escrowed id order_id user trade_id key in
      drop-IsSound (create_order hash id order_id user trade_id key) db (record {
        reserved = r;
        audited = a;
        escrowed = create_order-HasEscrow hash db h.escrowed id order_id user trade_id key;
      })
  perform-IsSound (Request.capture toss now user order_id input key) =
      let (r, a) =
        confirm-keeps hash db h.reserved h.audited h.escrowed toss now user order_id input key in
      drop-IsSound (capture hash toss now user order_id input key) db (record {
        reserved = r;
        audited = a;
        escrowed = capture-HasEscrow hash db h.escrowed toss now user order_id input key;
      })
  perform-IsSound (Request.reverse toss now user order_id reason key action) =
      let (r, a) =
        reverse-keeps hash db h.reserved h.audited h.escrowed toss now user order_id reason key
          action in
      drop-IsSound (reverse hash toss now user order_id reason key action) db (record {
        reserved = r;
        audited = a;
        escrowed = reverse-HasEscrow hash db h.escrowed toss now user order_id reason key action;
      })

  commit-IsSound :
      (now : ℕ) (k : Text) (request_hash : ℕ) (existing : Payment) (approved : TossPayment)
      → IsSound (transaction (commit_confirm now k request_hash existing approved) db).1
  commit-IsSound now k request_hash existing approved =
      transaction-keeps IsSound (commit_confirm now k request_hash existing approved) db h (λ v r.
        let (p, c) =
          commit_confirm-Captured now k request_hash existing approved db v h.escrowed.keys r in
        record {
          reserved = rw (c.products, c.trades) h.reserved;
          audited = rw (c.trades, c.histories) h.audited;
          escrowed = Captured-HasEscrow db h.escrowed now existing approved p _ c;
        })

  revert-IsSound :
      (asked now user : ℕ) (reason k : Text) (request_hash : ℕ) (action : Reversal)
      (existing : Payment) (trade : Trade)
      → Reversible asked user action existing trade db
      → IsSound
          (transaction (commit_reverse now user reason k request_hash action existing trade) db).1
  revert-IsSound asked now user reason k request_hash action existing trade allowed =
      transaction-keeps IsSound
        (commit_reverse now user reason k request_hash action existing trade) db h
        (λ v r.
          let (x, y) =
            commit-keeps hash db h.reserved h.audited h.escrowed asked now user reason k
              request_hash action existing trade v allowed r in
          record {
            reserved = x;
            audited = y;
            escrowed =
                commit-HasEscrow db h.escrowed asked now user reason k request_hash action existing
                  trade v allowed r;
          })

module _ (hash : Hash) where
  step-IsSound : (db db' : Db) (s : ◌⟶◌ hash db db') → IsTimely hash s → IsSound db → IsSound db'
  unfolding IsTimely
  step-IsSound db _ (serve r _) _ h = perform-IsSound hash db h r
  step-IsSound db _ (commit now k rh existing approved _) _ h =
      commit-IsSound hash db h now k rh existing approved
  step-IsSound db _ (revert asked now user reason k rh action existing trade _) allowed h =
      revert-IsSound hash db h asked now user reason k rh action existing trade allowed
  step-IsSound db _ (complete now trade _) _ h = confirm_due_trade-IsSound now trade db h
  step-IsSound db _ (expire now trade _) _ h = cancel_expired_trade-IsSound now trade db h
  step-IsSound db _ (receive v parse toss now id eid input body time signature _) _ h =
      receive_webhook-IsSound v parse toss now id eid input body time signature db h
  step-IsSound db _ (process env now id _) _ h = process_outbox_event-IsSound env now id db h
  step-IsSound db _ (offer decode now id image_id user input _) _ h =
      create-IsSound decode now id image_id user db h input
  step-IsSound db _ (edit id user input _) _ h = update-IsSound id user db h input
  step-IsSound db _ (hide id user _) _ h =
      set_status-IsSound id user db h hidden (λ a. absurd (ground arith))
  step-IsSound db _ (show id user _) free h = set_status-IsSound id user db h shown (λ a. free)
  step-IsSound db _ (delist id user _) _ h = remove-IsSound id user db h

  -- Whatever requests, transactions of captures and reversals, webhooks, events of the outbox, changes
  -- of products and rounds of the confirmation and expiry jobs run, in any order, from a sound
  -- database, the database that is reached is sound, if no product is shown while a trade of it is
  -- selected, and each transaction of a reversal that comes apart from its checks finds the payment
  -- and the trade as they were read. Sound: the ids of trades, products and payments are unique, at
  -- most one trade of a product is selected and none while it is offered, the status of each trade is
  -- that of its newest history row, the history runs along the transitions of a trade, and the ledger
  -- of each payment sums to what its row says. The rounds of the settlement job are not steps.
  pub reachable-IsSound :
      (db db' : Db) (steps : ◌⟶*◌ hash db db') → IsOrderly hash steps → IsSound db → IsSound db'
  unfolding IsOrderly
  reachable-IsSound db _ here _ h = h
  reachable-IsSound db db'' (later s ss) (t, ts) h =
      reachable-IsSound _ db'' ss ts (step-IsSound db _ s t h)
