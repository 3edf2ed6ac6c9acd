-- ===== src/Market.antt =====
-- The requests of apps/api/src/trades/trade.controller.ts and
-- apps/api/src/payments/payment.controller.ts, the webhooks and the products beside the jobs of
-- apps/worker/src/main.ts: the database goes from one transaction to the next.
pub mod Requests
pub mod Soundness
pub mod Errors
pub mod Consequences
use gamja_market.Base.{ℕ, ◌≡◌, Option, List}
use gamja_market.Base.Text.{Text}
use gamja_market.Schema.{Payment, Trade, Db, count}
use gamja_market.Schema.Action.{Action, Void, pure, transaction, ◌>>=◌, ◌>>◌}
use gamja_market.Trades.Request.{request}
use gamja_market.Trades.Transitions.{accept, reject, deliver, confirm, dispute, cancel}
use gamja_market.Payments.Model.{Hash, Provider, TossPayment}
use gamja_market.Payments.Webhook.{Verifier, WebhookPayload, receive_webhook}
use gamja_market.Worker.Outbox.{Events, process_outbox_event}
use gamja_market.Accounts.{AuthenticatedUser}
use gamja_market.Trades.Exclusive.{selects}
use gamja_market.Products.Service.{
  ProductInput, ProductChange, shown, hidden, create, update, set_status, remove,
}
use gamja_market.Payments.Orders.{create_order}
use gamja_market.Payments.Confirm.{commit_confirm, confirm as capture}
use gamja_market.Payments.Reverse.{Reversal, commit_reverse, reverse}
use gamja_market.Payments.Outcomes.{Reversible}
use gamja_market.Market.Requests.{Request}
use gamja_market.Worker.TradeMaintenance.{confirm_due_trade, cancel_expired_trade}

-- The answer of a request is dropped here: its error stays.
abbrev pub drop : {A : Type 0} → Action A → Action Void
drop m = m >>= λ _. pure tt

module _ (hash : Hash) where
  unfoldable pub perform : Request → Action Void
  perform (Request.request now trade_id room_id user product_id) =
      drop (request now trade_id room_id user product_id)
  perform (Request.accept now user trade_id) = drop (accept now user trade_id)
  perform (Request.deliver now user trade_id) = drop (deliver now user trade_id)
  perform (Request.confirm now user trade_id) = drop (confirm now user trade_id)
  perform (Request.reject now user trade_id reason) = drop (reject now user trade_id reason)
  perform (Request.dispute now user trade_id reason) = drop (dispute now user trade_id reason)
  perform (Request.cancel now user trade_id reason) = drop (cancel now user trade_id reason)
  perform (Request.create_order id order_id user trade_id key) =
      drop (create_order hash id order_id user trade_id key)
  perform (Request.capture toss now user order_id input key) =
      drop (capture hash toss now user order_id input key)
  perform (Request.reverse toss now user order_id reason key action) =
      drop (reverse hash toss now user order_id reason key action)

  -- One step. The transactions of a capture and of a reversal may come after other steps than their
  -- checks, so they are steps for whatever rows and approval they are given; so is one round of a job's
  -- loop for whatever trade the loop has read. A webhook, an event of the outbox and a change of a
  -- product are steps too, with whatever the parser and the provider answer.
  infix 40 ◌⟶◌ ◌⟶*◌
  pub data ◌⟶◌ : Db → Db → Type 0 where
    serve : (r : Request) (db : Db) → db ⟶ (perform r db).1
    commit :
        (now : ℕ) (k : Text) (request_hash : ℕ) (existing : Payment) (approved : TossPayment)
        (db : Db)
        → db ⟶ (transaction (commit_confirm now k request_hash existing approved) db).1
    revert :
        (asked now user : ℕ) (reason k : Text) (request_hash : ℕ) (action : Reversal)
        (existing : Payment) (trade : Trade) (db : Db)
        → db
          ⟶ (transaction (commit_reverse now user reason k request_hash action existing trade) db).1
    complete : (now : ℕ) (trade : Trade) (db : Db) → db ⟶ (confirm_due_trade now trade db).1
    expire : (now : ℕ) (trade : Trade) (db : Db) → db ⟶ (cancel_expired_trade now trade db).1
    receive :
        (verifier : Verifier) (parse : Text → Option WebhookPayload) (toss : Provider)
        (now id event_id : ℕ) (input : Option Text) (body : Text) (time signature : Option Text)
        (db : Db)
        → db ⟶ (receive_webhook verifier parse toss now id event_id input body time signature db).1
    process : (env : Events) (now id : ℕ) (db : Db) → db ⟶ (process_outbox_event env now id db).1
    offer :
        (decode : Text → List ℕ) (now id image_id : ℕ) (user : AuthenticatedUser)
        (input : ProductInput) (db : Db)
        → db ⟶ (create decode now id image_id user input db).1
    edit : (id user : ℕ) (input : ProductChange) (db : Db) → db ⟶ (update id user input db).1
    hide : (id user : ℕ) (db : Db) → db ⟶ (set_status id user hidden db).1
    show : (id user : ℕ) (db : Db) → db ⟶ (set_status id user shown db).1
    delist : (id user : ℕ) (db : Db) → db ⟶ (remove id user db).1

  pub data ◌⟶*◌ : Db → Db → Type 0 where
    here : {db : Db} → db ⟶* db
    later : {db db' db'' : Db} → db ⟶ db' → db' ⟶* db'' → db ⟶* db''

  -- What no check of the code ensures of a step: a product is shown again only while none of its trades
  -- is selected, which `setStatus` does not ask; and the transaction of a reversal finds the rows that
  -- the checks at `asked` have read as they were read, which `reverse` does not ask again.
  unfoldable pub IsTimely : {db db' : Db} → db ⟶ db' → Type 0
  IsTimely (show id user db) = count (selects id) db.trades ≡ 0
  IsTimely (revert asked now user reason k request_hash action existing trade db) =
      Reversible asked user action existing trade db
  IsTimely _ = Unit

  unfoldable pub IsOrderly : {db db' : Db} → db ⟶* db' → Type 0
  IsOrderly here = Unit
  IsOrderly (later s ss) = IsTimely s × IsOrderly ss
