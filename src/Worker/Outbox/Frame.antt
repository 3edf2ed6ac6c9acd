-- ===== src/Worker/Outbox/Frame.antt =====
-- What the delivery of an event of apps/worker/src/payment-events.ts can write: rows of the webhooks,
-- and the reconciliation of a payment.
use gamja_market.Base.{
  Option-cases, inr, inl, Bool-cases, ℕ, Bool, ◌&&◌, not, Option, none, some, ◌==◌, if◌then◌else◌,
}
use gamja_market.Base.Int.{ℤ, leb_ℤ}
use gamja_market.Base.Text.{text_eq, text, Text}
use gamja_market.Schema.{
  raise, same_payment_status, count, p2025, WebhookProcessingStatus, Payment, PaymentWebhook,
  OutboxEvent, Db, find_first, update_many,
}
use gamja_market.Schema.Action.{Action, Void, Result, ok, err, lift, ◌>>=◌, ◌>>◌}
use gamja_market.Schema.Action.Laws.{bind-keeps, transaction-keeps}
use gamja_market.Schema.Tables.{update_outbox, update_outbox_event, update_payments, update_webhook}
use gamja_market.Worker.Outbox.{
  as_claimed_event, is_ready_event, as_retried, retry_event, as_processed, try_event,
  process_outbox_event, catch_event, after_event_claim, expected_status, is_received,
  is_lookup_mismatch, Events, ProviderPayment, as_reconciled, as_finished, finish, settle_webhook,
  check_webhook, verify_payment, payment_of_webhook, process_received, process_found,
  process_payment_webhook, deliver_event, lookup_payment,
}

lift-keeps :
    {A : Type 0} (P : Db → Type 0) (r : Result A) (f : A → Action Void) (db : Db)
    → P db
    → ((a : A) → P (f a db).1)
    → P ((lift r >>= f) db).1
lift-keeps P r f db h k = bind-keeps P (lift r) f db h k

-- Whatever holds of the database and is kept by a new list of webhooks and by the reconciliation of a
-- payment is kept by a delivery.
module _ (P : Db → Type 0)
    (webhooks-keep : (db : Db) (f : PaymentWebhook → PaymentWebhook) (id : ℕ)
      → P db
      → P (record db { webhooks = update_many (λ r. r.id == id) f db.webhooks }))
    (payments-keep : (db : Db) (now id : ℕ) (s : ℤ)
      → P db
      → P (record db {
        payments =
            update_many
              (λ p. p.id == id && not (leb_ℤ s p.last_webhook_sequence))
              (as_reconciled now s)
              db.payments;
      })) where
  update_webhook-keeps :
      (id : ℕ) (f : PaymentWebhook → PaymentWebhook) (db : Db) → P db → P (update_webhook id f db).1
  unfolding update_webhook
  update_webhook-keeps id f db h = go (find_first (λ w. w.id == id) db.webhooks)
    where
      go :
          (o : Option PaymentWebhook)
          → P
              (elim o as (λ _. Result Void × Db) [
                | none ↦ (err p2025, db)
                | some w ↦
                    (ok tt, record db { webhooks = update_many (λ r. r.id == id) f db.webhooks })
              ]).1
      go none = h
      go (some w) = webhooks-keep db f id h

  finish-keeps :
      (now id : ℕ) (s : WebhookProcessingStatus) (t : Text) (db : Db)
      → P db
      → P (finish now id s t db).1
  unfolding finish
  finish-keeps now id s t db h = update_webhook-keeps id (as_finished now s (some t)) db h

  settle_webhook-keeps :
      (now : ℕ) (w : PaymentWebhook) (p : Payment) (db : Db)
      → P db
      → P (settle_webhook now w p db).1
  unfolding settle_webhook update_payments
  settle_webhook-keeps now w p db h =
      update_webhook-keeps w.id
        (if count (λ r. r.id == p.id && not (leb_ℤ w.sequence r.last_webhook_sequence)) db.payments
            == 1
          then as_finished now WebhookProcessingStatus.processed none
          else as_finished now WebhookProcessingStatus.ignored (some (text "OUT_OF_ORDER")))
        (record db {
          payments =
              update_many (λ r. r.id == p.id && not (leb_ℤ w.sequence r.last_webhook_sequence))
                (as_reconciled now w.sequence) db.payments;
        })
        (payments-keep db now p.id w.sequence h)

  check_webhook-keeps :
      (now : ℕ) (w : PaymentWebhook) (p : Payment) (v : ProviderPayment) (amount : ℤ) (db : Db)
      → P db
      → P (check_webhook now w p v amount db).1
  unfolding check_webhook
  check_webhook-keeps now w p v amount db h = elim (Bool-cases (is_lookup_mismatch v amount p)) [
    | inl e ↦ rw e (
        finish-keeps now w.id WebhookProcessingStatus.failed (text "PROVIDER_LOOKUP_MISMATCH") db h)
    | inr e ↦
        elim (Bool-cases (not (same_payment_status p.status (expected_status v.status p.status)))) [
          | inl d ↦
              rw (e, d)
                (finish-keeps now w.id WebhookProcessingStatus.failed
                  (text "PAYMENT_STATE_MISMATCH") db h)
          | inr d ↦
              rw (e, d)
                (transaction-keeps P (settle_webhook now w p) db h
                  (λ _ _. settle_webhook-keeps now w p db h))
        ]
  ]

  verify_payment-keeps :
      (env : Events) (now : ℕ) (w : PaymentWebhook) (p : Payment) (db : Db)
      → P db
      → P (verify_payment env now w p db).1
  unfolding verify_payment
  verify_payment-keeps env now w p db h =
      elim (Bool-cases (leb_ℤ w.sequence p.last_webhook_sequence)) [
        | inl e ↦
            rw e (finish-keeps now w.id WebhookProcessingStatus.ignored (text "OUT_OF_ORDER") db h)
        | inr e ↦ rw e (
            lift-keeps P (env.parse w.raw_body)
              (λ payload. lift (lookup_payment env payload.payment_key) >>= λ v.
                lift payload.amount >>= λ amount. check_webhook now w p v amount)
              db h
              (λ payload.
                lift-keeps P (lookup_payment env payload.payment_key)
                  (λ v. lift payload.amount >>= λ amount. check_webhook now w p v amount) db h
                  (λ v.
                    lift-keeps P payload.amount (λ amount. check_webhook now w p v amount) db h
                      (λ amount. check_webhook-keeps now w p v amount db h))))
      ]

  process_received-keeps :
      (env : Events) (now : ℕ) (w : PaymentWebhook) (o : Option Payment) (db : Db)
      → P db
      → P (process_received env now w o db).1
  unfolding process_received
  process_received-keeps env now w none db h =
      finish-keeps now w.id WebhookProcessingStatus.failed (text "PAYMENT_NOT_FOUND") db h
  process_received-keeps env now w (some p) db h = verify_payment-keeps env now w p db h

  process_found-keeps :
      (env : Events) (now : ℕ) (o : Option PaymentWebhook) (db : Db)
      → P db
      → P (process_found env now o db).1
  unfolding process_found
  process_found-keeps env now none db h = h
  process_found-keeps env now (some w) db h = elim (Bool-cases (is_received w.processing_status)) [
    | inl e ↦ rw e (process_received-keeps env now w (payment_of_webhook w db) db h)
    | inr e ↦ rw e h
  ]

  pub deliver_event-keeps :
      (env : Events) (now : ℕ) (event : OutboxEvent) (db : Db)
      → P db
      → P (deliver_event env now event db).1
  unfolding deliver_event process_payment_webhook
  deliver_event-keeps env now event db h =
      elim (Bool-cases (text_eq event.type (text "webhook.received"))) [
        | inl e ↦ rw e (
            process_found-keeps env now (find_first (λ w. w.id == event.aggregate_id) db.webhooks)
              db h)
        | inr e ↦ rw e h
      ]

  module _
      (outbox-keep : (db : Db) (p : OutboxEvent → Bool) (f : OutboxEvent → OutboxEvent)
        → P db
        → P (record db { outbox = update_many p f db.outbox })) where
    update_outbox_event-keeps :
        (id : ℕ) (f : OutboxEvent → OutboxEvent) (db : Db)
        → P db
        → P (update_outbox_event id f db).1
    unfolding update_outbox_event
    update_outbox_event-keeps id f db h = go (find_first (λ e. e.id == id) db.outbox)
      where
        go :
            (o : Option OutboxEvent)
            → P
                (elim o as (λ _. Result Void × Db) [
                  | none ↦ (err p2025, db)
                  | some e ↦
                      (ok tt, record db { outbox = update_many (λ r. r.id == id) f db.outbox })
                ]).1
        go none = h
        go (some e) = outbox-keep db (λ r. r.id == id) f h

    catch_event-keeps :
        (env : Events) (now : ℕ) (e : OutboxEvent) (r : Result Void) (db : Db)
        → P db
        → P (catch_event env now e r db).1
    unfolding catch_event retry_event
    catch_event-keeps env now e (ok _) db h = h
    catch_event-keeps env now e (err x) db h =
        bind-keeps P (update_outbox_event e.id (as_retried now e.attempts (env.message x)))
          (λ _. raise {A = Bool} x) db
          (update_outbox_event-keeps e.id (as_retried now e.attempts (env.message x)) db h)
          (λ _. update_outbox_event-keeps e.id (as_retried now e.attempts (env.message x)) db h)

    try_event-keeps :
        (env : Events) (now : ℕ) (e : OutboxEvent) (db : Db) → P db → P (try_event env now e db).1
    unfolding try_event
    try_event-keeps env now e db h =
        let done : P
            ((deliver_event env now e >> update_outbox_event e.id (as_processed now)) db).1 =
          bind-keeps P (deliver_event env now e) (λ _. update_outbox_event e.id (as_processed now))
            db (deliver_event-keeps env now e db h)
            (λ _.
              update_outbox_event-keeps e.id (as_processed now) (deliver_event env now e db).1
                (deliver_event-keeps env now e db h)) in
        catch_event-keeps env now e
          ((deliver_event env now e >> update_outbox_event e.id (as_processed now)) db).0
          ((deliver_event env now e >> update_outbox_event e.id (as_processed now)) db).1 done

    after_event_claim-keeps :
        (env : Events) (now id claimed : ℕ) (db : Db)
        → P db
        → P (after_event_claim env now id claimed db).1
    unfolding after_event_claim
    after_event_claim-keeps env now id claimed db h = elim (Bool-cases (claimed == 1)) [
      | inr e ↦ rw e h
      | inl e ↦ rw e (elim (Option-cases (find_first (λ e. e.id == id) db.outbox)) [
        | inl n ↦ rw n h
        | inr (x, s) ↦ rw s (try_event-keeps env now x db h)
      ])
    ]

    pub process_outbox_event-keeps :
        (env : Events) (now id : ℕ) (db : Db) → P db → P (process_outbox_event env now id db).1
    unfolding process_outbox_event update_outbox
    process_outbox_event-keeps env now id db h =
        let claimed : Db = record db {
          outbox =
              update_many (λ e. e.id == id && is_ready_event now e) (as_claimed_event now)
                db.outbox;
        } in
        after_event_claim-keeps env now id
          (count (λ e. e.id == id && is_ready_event now e) db.outbox) claimed
          (outbox-keep db (λ e. e.id == id && is_ready_event now e) (as_claimed_event now) h)
