-- ===== src/Payments/Webhook/Frame.antt =====
-- What `receiveWebhook` of apps/api/src/payments/payment.service.ts can write: rows of the webhooks and
-- of the outbox, and the sequence number of a payment.
use gamja_market.Base.{
  ℕ, ◌&&◌, ◌||◌, not, Option, none, some, ◌∷◌, ◌==◌, Bool-cases, Option-cases, inl, inr,
}
use gamja_market.Base.Int.{ℤ, leb_ℤ}
use gamja_market.Base.Text.{Text, text, text_eq}
use gamja_market.Schema.{
  unauthorized, too_many_requests, failure, service_unavailable, bad_gateway, forbidden, conflict,
  not_found, WebhookProcessingStatus, Payment, PaymentWebhook, OutboxEvent, Db, find_first,
  update_many, count, same_payment_status,
}
use gamja_market.Schema.Action.{
  Action, Result, ok, err, p2002, p2025, value_out_of_range, pure, lift, transaction, ◌>>◌,
}
use gamja_market.Schema.Action.Laws.{bind-keeps, transaction-keeps, Option-keeps, Result-cases}
use gamja_market.Schema.Tables.{
  is_int32, update_payments, update_webhook, create_webhook, create_outbox_event,
}
use gamja_market.Payments.Model.{Provider, TossPayment}
use gamja_market.Payments.Webhook.{
  bad_request, WebhookPayload, Receipt, Verifier, finish_fields, finish_webhook, with_sequence,
  finish_applied, apply_sequence, compare_webhook, look_up_webhook, process_inline, after_store,
  is_sandbox_mismatch, status_of, fresh, store_webhook, raced, catch_stored, receive_payload,
  receive_new, receive_once, receive_webhook, new_webhook, webhook_event, invalid_webhook,
  transmission, verify_webhook,
}

module _ (P : Db → Type 0)
    (webhooks-keep : (db : Db) (now : ℕ) (s : WebhookProcessingStatus) (c : Option Text) (id : ℕ)
      → P db
      → P (record db {
        webhooks = update_many (λ r. r.id == id) (finish_fields now s c) db.webhooks;
      }))
    (payments-keep : (db : Db) (id : ℕ) (s : ℤ)
      → P db
      → P (record db {
        payments =
            update_many
              (λ p. p.id == id && not (leb_ℤ s p.last_webhook_sequence))
              (with_sequence s)
              db.payments;
      })) where
  update_webhook-keeps :
      (now id : ℕ) (s : WebhookProcessingStatus) (c : Option Text) (db : Db)
      → P db
      → P (update_webhook id (finish_fields now s c) db).1
  unfolding update_webhook
  update_webhook-keeps now id s c db h =
      Option-keeps P (find_first (λ w. w.id == id) db.webhooks) (err p2025, db)
        (λ w. (
          ok tt,
          record db {
            webhooks = update_many (λ r. r.id == id) (finish_fields now s c) db.webhooks;
          },
        ))
        h (λ w. webhooks-keep db now s c id h)

  pub finish_webhook-keeps :
      (now id : ℕ) (s : WebhookProcessingStatus) (c : Option Text) (db : Db)
      → P db
      → P (finish_webhook now id s c db).1
  unfolding finish_webhook
  finish_webhook-keeps now id s c db h =
      bind-keeps P (update_webhook id (finish_fields now s c)) (λ _. pure (fresh s)) db
        (update_webhook-keeps now id s c db h) (λ _. update_webhook-keeps now id s c db h)

  finish_applied-keeps :
      (now id updated : ℕ) (db : Db) → P db → P (finish_applied now id updated db).1
  unfolding finish_applied
  finish_applied-keeps now id updated db h = elim (Bool-cases (updated == 1)) [
    | inl e ↦ rw e (finish_webhook-keeps now id WebhookProcessingStatus.processed none db h)
    | inr e ↦ rw e (
        finish_webhook-keeps now id WebhookProcessingStatus.ignored (some (text "OUT_OF_ORDER")) db
          h)
  ]

  apply_sequence-keeps :
      (now id : ℕ) (w : WebhookPayload) (p : Payment) (db : Db)
      → P db
      → P (apply_sequence now id w p db).1
  unfolding apply_sequence update_payments
  apply_sequence-keeps now id w p db h =
      finish_applied-keeps now id
        (count (λ r. r.id == p.id && not (leb_ℤ w.sequence r.last_webhook_sequence)) db.payments)
        (record db {
          payments =
              update_many (λ r. r.id == p.id && not (leb_ℤ w.sequence r.last_webhook_sequence))
                (with_sequence w.sequence) db.payments;
        })
        (payments-keep db p.id w.sequence h)

  compare_webhook-keeps :
      (now id : ℕ) (w : WebhookPayload) (p : Payment) (t : TossPayment) (a : ℤ) (db : Db)
      → P db
      → P (compare_webhook now id w p t a db).1
  unfolding compare_webhook
  compare_webhook-keeps now id w p t a db h = elim (Bool-cases (is_sandbox_mismatch t a w p)) [
    | inl e ↦ rw e (
        finish_webhook-keeps now id WebhookProcessingStatus.failed
          (some (text "SANDBOX_LOOKUP_MISMATCH")) db h)
    | inr e ↦ elim (Bool-cases (not (same_payment_status p.status (status_of t.status)))) [
      | inl d ↦
          rw (e, d)
            (finish_webhook-keeps now id WebhookProcessingStatus.failed
              (some (text "PAYMENT_STATE_MISMATCH")) db h)
      | inr d ↦ rw (e, d) (apply_sequence-keeps now id w p db h)
    ]
  ]

  look_up_webhook-keeps :
      (now id : ℕ) (w : WebhookPayload) (p : Payment) (o : Option TossPayment) (db : Db)
      → P db
      → P (look_up_webhook now id w p o db).1
  unfolding look_up_webhook
  look_up_webhook-keeps now id w p none db h =
      finish_webhook-keeps now id WebhookProcessingStatus.failed
        (some (text "SANDBOX_LOOKUP_MISMATCH")) db h
  look_up_webhook-keeps now id w p (some t) db h =
      elim (Bool-cases (not (t.order_id == p.order_id))) [
        | inl e ↦ rw e (
            finish_webhook-keeps now id WebhookProcessingStatus.failed
              (some (text "SANDBOX_LOOKUP_MISMATCH")) db h)
        | inr e ↦ rw e (
            bind-keeps P (lift w.amount) (λ a. compare_webhook now id w p t a) db h
              (λ a. compare_webhook-keeps now id w p t a db h))
      ]

  process_inline-keeps :
      (toss : Provider) (now : ℕ) (w : WebhookPayload) (o : Option Payment) (r : PaymentWebhook)
      (db : Db)
      → P db
      → P (process_inline toss now w o r db).1
  unfolding process_inline
  process_inline-keeps toss now w none r db h =
      finish_webhook-keeps now r.id WebhookProcessingStatus.failed (some (text "PAYMENT_NOT_FOUND"))
        db h
  process_inline-keeps toss now w (some p) r db h =
      elim (Bool-cases (leb_ℤ w.sequence p.last_webhook_sequence)) [
        | inl e ↦ rw e (
            finish_webhook-keeps now r.id WebhookProcessingStatus.ignored
              (some (text "OUT_OF_ORDER")) db h)
        | inr e ↦ rw e (
            bind-keeps P (lift (toss.lookup w.payment_key)) (λ t. look_up_webhook now r.id w p t) db
              h (λ t. look_up_webhook-keeps now r.id w p t db h))
      ]

  pub after_store-keeps :
      (v : Verifier) (toss : Provider) (now : ℕ) (w : WebhookPayload) (o : Option Payment)
      (r : PaymentWebhook) (db : Db)
      → P db
      → P (after_store v toss now w o r db).1
  unfolding after_store
  after_store-keeps v toss now w o r db h = elim (Bool-cases (not v.is_test)) [
    | inl e ↦ rw e h
    | inr e ↦ rw e (process_inline-keeps toss now w o r db h)
  ]

  module _
      (webhook-keep : (db : Db) (w : PaymentWebhook)
        → P db
        → P (record db { webhooks = w ∷ db.webhooks }))
      (event-keep : (db : Db) (e : OutboxEvent)
        → P db
        → P (record db { outbox = e ∷ db.outbox })) where
    create_webhook-keeps : (w : PaymentWebhook) (db : Db) → P db → P (create_webhook w db).1
    unfolding create_webhook
    create_webhook-keeps w db h = elim (Bool-cases (is_int32 w.sequence)) [
      | inl fits ↦
          rw (create_webhook, fits)
            (Option-keeps P
              (find_first (λ r. r.id == w.id || text_eq r.transmission_id w.transmission_id)
                db.webhooks)
              (ok w, record db { webhooks = w ∷ db.webhooks }) (λ r. (err p2002, db))
              (webhook-keep db w h) (λ r. h))
      | inr large ↦ rw (create_webhook, large) h
    ]

    create_outbox_event-keeps : (e : OutboxEvent) (db : Db) → P db → P (create_outbox_event e db).1
    unfolding create_outbox_event
    create_outbox_event-keeps x db h =
        Option-keeps P (find_first (λ r. r.id == x.id) db.outbox)
          (ok tt, record db { outbox = x ∷ db.outbox }) (λ r. (err p2002, db)) (event-keep db x h)
          (λ r. h)

    store_webhook-keeps :
        (now id eid : ℕ) (o : Option Payment) (t : Text) (w : WebhookPayload) (body : Text)
        (db : Db)
        → P db
        → P (store_webhook now id eid o t w body db).1
    unfolding store_webhook
    store_webhook-keeps now id eid o t w body db h =
        let stored = create_webhook-keeps (new_webhook id o t w body) db h in
        bind-keeps P (create_webhook (new_webhook id o t w body))
          (λ s. create_outbox_event (webhook_event now eid s.id) >> pure s) db stored
          (λ s.
            bind-keeps P (create_outbox_event (webhook_event now eid s.id)) (λ _. pure s)
              (create_webhook (new_webhook id o t w body) db).1
              (create_outbox_event-keeps (webhook_event now eid s.id)
                (create_webhook (new_webhook id o t w body) db).1 stored)
              (λ _.
                create_outbox_event-keeps (webhook_event now eid s.id)
                  (create_webhook (new_webhook id o t w body) db).1 stored))

    raced-keeps : (t : Text) (db : Db) → P db → P (raced t db).1
    unfolding raced
    raced-keeps t db h =
        elim (Option-cases (find_first (λ w. text_eq w.transmission_id t) db.webhooks)) [
          | inl e ↦ rw e h
          | inr (w, e) ↦ rw e h
        ]

    catch_stored-keeps :
        (t : Text) (r : Result PaymentWebhook) (rest : PaymentWebhook → Action Receipt) (db : Db)
        → P db
        → ((w : PaymentWebhook) → P (rest w db).1)
        → P (catch_stored t r rest db).1
    unfolding catch_stored
    catch_stored-keeps t (ok w) rest db h k = k w
    catch_stored-keeps t (err p2002) rest db h k = raced-keeps t db h
    catch_stored-keeps t (err p2025) rest db h k = h
    catch_stored-keeps t (err value_out_of_range) rest db h k = h
    catch_stored-keeps t (err (not_found c)) rest db h k = h
    catch_stored-keeps t (err (conflict c)) rest db h k = h
    catch_stored-keeps t (err (forbidden c)) rest db h k = h
    catch_stored-keeps t (err (bad_request c)) rest db h k = h
    catch_stored-keeps t (err (bad_gateway c)) rest db h k = h
    catch_stored-keeps t (err (service_unavailable c)) rest db h k = h
    catch_stored-keeps t (err (failure c)) rest db h k = h
    catch_stored-keeps t (err (too_many_requests c)) rest db h k = h
    catch_stored-keeps t (err (unauthorized c)) rest db h k = h

    receive_payload-keeps :
        (v : Verifier) (toss : Provider) (now id eid : ℕ) (t : Text) (w : WebhookPayload)
        (body : Text) (db : Db)
        → P db
        → P (receive_payload v toss now id eid t w body db).1
    unfolding receive_payload
    receive_payload-keeps v toss now id eid t w body db h =
        let o = find_first (λ p. p.order_id == w.order_id) db.payments in
        let m = store_webhook now id eid o t w body in
        let stored : P (transaction m db).1 =
          transaction-keeps P m db h (λ _ _. store_webhook-keeps now id eid o t w body db h) in
        catch_stored-keeps t (transaction m db).0 (after_store v toss now w o) (transaction m db).1
          stored (λ r. after_store-keeps v toss now w o r (transaction m db).1 stored)

    receive_once-keeps :
        (v : Verifier) (toss : Provider) (now id eid : ℕ) (t : Text)
        (parsed : Option WebhookPayload) (body : Text) (o : Option PaymentWebhook) (db : Db)
        → P db
        → P (receive_once v toss now id eid t parsed body o db).1
    unfolding receive_once receive_new
    receive_once-keeps v toss now id eid t parsed body (some w) db h = h
    receive_once-keeps v toss now id eid t none body none db h =
        bind-keeps P (create_webhook (invalid_webhook now id t body))
          (λ _. pure (fresh WebhookProcessingStatus.failed)) db
          (create_webhook-keeps (invalid_webhook now id t body) db h)
          (λ _. create_webhook-keeps (invalid_webhook now id t body) db h)
    receive_once-keeps v toss now id eid t (some w) body none db h =
        receive_payload-keeps v toss now id eid t w body db h

    pub receive_webhook-keeps :
        (v : Verifier) (parse : Text → Option WebhookPayload) (toss : Provider) (now id eid : ℕ)
        (input : Option Text) (body : Text) (time signature : Option Text) (db : Db)
        → P db
        → P (receive_webhook v parse toss now id eid input body time signature db).1
    unfolding receive_webhook
    receive_webhook-keeps v parse toss now id eid input body time signature db h =
        elim (Option-cases (transmission input)) [
          | inl e ↦ rw e h
          | inr (t, e) ↦ elim (Result-cases (verify_webhook v now body time signature)) [
            | inl (x, d) ↦ rw (e, d) h
            | inr (x, d) ↦
                rw (e, d)
                  (receive_once-keeps v toss now id eid t (parse body) body
                    (find_first (λ w. text_eq w.transmission_id t) db.webhooks) db h)
          ]
        ]
