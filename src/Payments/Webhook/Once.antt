-- ===== src/Payments/Webhook/Once.antt =====
-- A transmission of the provider is received once, and what is received keeps the invariants.
use gamja_market.Base.{
  ap, ℕ, ◌≡◌, refl, true, ◌&&◌, not, Option, none, some, List, [], ◌∷◌, arith, ◌==◌, is_some,
  Option-cases, inl, inr,
}
use gamja_market.Base.Int.{ℤ, leb_ℤ}
use gamja_market.Base.Text.{Text, text_eq, text_eq_refl}
use gamja_market.Schema.{
  unauthorized, too_many_requests, failure, service_unavailable, bad_gateway, forbidden, conflict,
  not_found, WebhookProcessingStatus, Payment, PaymentWebhook, Db, find_first, update_many,
}
use gamja_market.Schema.Action.{Result, ok, err, p2002, p2025, value_out_of_range, transaction}
use gamja_market.Schema.Action.Laws.{Result-cases}
use gamja_market.Schema.Tables.{create_webhook, create_outbox_event}
use gamja_market.Sound.{IsSound}
use gamja_market.Payments.Model.{Provider}
use gamja_market.Payments.Escrow.Tables.{keep-IsEscrowed}
use gamja_market.Payments.Webhook.{
  bad_request, WebhookPayload, Receipt, Verifier, with_sequence, after_store, store_webhook, raced,
  catch_stored, receive_payload, receive_new, receive_once, receive_webhook, seen, transmission,
  verify_webhook, finish_fields,
}
use gamja_market.Payments.Webhook.Frame.{after_store-keeps, receive_webhook-keeps}

sequence-IsSound :
    (db : Db) (id : ℕ) (s : ℤ)
    → IsSound db
    → IsSound (record db {
      payments =
          update_many
            (λ p. p.id == id && not (leb_ℤ s p.last_webhook_sequence))
            (with_sequence s)
            db.payments;
    })
sequence-IsSound db id s h = record {
  reserved = h.reserved;
  audited = h.audited;
  escrowed =
      keep-IsEscrowed db.payments db.ledger h.escrowed
        (λ p. p.id == id && not (leb_ℤ s p.last_webhook_sequence)) (with_sequence s) (λ r. refl)
        (λ r _ c. (refl, c));
}

module _ (v : Verifier) (parse : Text → Option WebhookPayload) (toss : Provider) where
  pub receive_webhook-IsSound :
      (now id eid : ℕ) (input : Option Text) (body : Text) (time signature : Option Text) (db : Db)
      → IsSound db
      → IsSound (receive_webhook v parse toss now id eid input body time signature db).1
  receive_webhook-IsSound now id eid input body time signature db h =
      receive_webhook-keeps IsSound
        (λ d t s c i k. record {
          reserved = k.reserved;
          audited = k.audited;
          escrowed = k.escrowed;
        })
        sequence-IsSound
        (λ d w k. record { reserved = k.reserved; audited = k.audited; escrowed = k.escrowed })
        (λ d e k. record { reserved = k.reserved; audited = k.audited; escrowed = k.escrowed }) v
        parse toss now id eid input body time signature db h

-- The transmission is among the webhooks.
abbrev IsStored : Text → Db → Type 0
IsStored t db = is_some (find_first (λ w. text_eq w.transmission_id t) db.webhooks) ≡ true

find-finish :
    (t : Text) (now id : ℕ) (s : WebhookProcessingStatus) (c : Option Text)
    (ws : List PaymentWebhook)
    → is_some (find_first (λ w. text_eq w.transmission_id t) ws) ≡ true
    → is_some (
        find_first
          (λ w. text_eq w.transmission_id t)
          (update_many (λ r. r.id == id) (finish_fields now s c) ws))
      ≡ true
unfolding find_first update_many
find-finish t now id s c [] h = h
find-finish t now id s c (w ∷ ws) h = ground (arith, find-finish t now id s c ws)

module _ (v : Verifier) (toss : Provider) (now id eid : ℕ) (t : Text) where
  store_webhook-IsStored :
      (o : Option Payment) (w : WebhookPayload) (body : Text) (db : Db) (r : PaymentWebhook)
      → (store_webhook now id eid o t w body db).0 ≡ ok r
      → IsStored t (store_webhook now id eid o t w body db).1
  unfolding store_webhook create_webhook create_outbox_event find_first
  store_webhook-IsStored o w body db r h = ground (arith, text_eq_refl t)

  raced-IsStored : (db : Db) (r : Receipt) → (raced t db).0 ≡ ok r → IsStored t (raced t db).1
  unfolding raced
  raced-IsStored db r h = ground arith

  catch_stored-IsStored :
      (r : Result PaymentWebhook) (w : WebhookPayload) (o : Option Payment) (db : Db) (c : Receipt)
      → ((x : PaymentWebhook) → r ≡ ok x → IsStored t db)
      → (catch_stored t r (after_store v toss now w o) db).0 ≡ ok c
      → IsStored t (catch_stored t r (after_store v toss now w o) db).1
  unfolding catch_stored
  catch_stored-IsStored (ok x) w o db c stored h =
      after_store-keeps (IsStored t) (λ d n s k i e. find-finish t n i s k d.webhooks e)
        (λ d i s e. e) v toss now w o x db (stored x refl)
  catch_stored-IsStored (err p2002) w o db c stored h = raced-IsStored db c h
  catch_stored-IsStored (err p2025) w o db c stored h = absurd (ground arith)
  catch_stored-IsStored (err value_out_of_range) w o db c stored h = absurd (ground arith)
  catch_stored-IsStored (err (not_found e)) w o db c stored h = absurd (ground arith)
  catch_stored-IsStored (err (conflict e)) w o db c stored h = absurd (ground arith)
  catch_stored-IsStored (err (forbidden e)) w o db c stored h = absurd (ground arith)
  catch_stored-IsStored (err (bad_request e)) w o db c stored h = absurd (ground arith)
  catch_stored-IsStored (err (bad_gateway e)) w o db c stored h = absurd (ground arith)
  catch_stored-IsStored (err (service_unavailable e)) w o db c stored h = absurd (ground arith)
  catch_stored-IsStored (err (failure e)) w o db c stored h = absurd (ground arith)
  catch_stored-IsStored (err (too_many_requests e)) w o db c stored h = absurd (ground arith)
  catch_stored-IsStored (err (unauthorized e)) w o db c stored h = absurd (ground arith)

  receive_payload-IsStored :
      (w : WebhookPayload) (body : Text) (db : Db) (c : Receipt)
      → (receive_payload v toss now id eid t w body db).0 ≡ ok c
      → IsStored t (receive_payload v toss now id eid t w body db).1
  unfolding receive_payload
  receive_payload-IsStored w body db c h =
      let o = find_first (λ p. p.order_id == w.order_id) db.payments in
      let m = store_webhook now id eid o t w body in
      catch_stored-IsStored (transaction m db).0 w o (transaction m db).1 c
        (λ x r. elim (Result-cases (m db).0) [
          | inl (e, q) ↦ absurd (ground arith)
          | inr (y, q) ↦ let stored = store_webhook-IsStored o w body db y q in ground arith
        ])
        h

  receive_once-IsStored :
      (parsed : Option WebhookPayload) (body : Text) (o : Option PaymentWebhook) (db : Db)
      (c : Receipt)
      → find_first (λ w. text_eq w.transmission_id t) db.webhooks ≡ o
      → (receive_once v toss now id eid t parsed body o db).0 ≡ ok c
      → IsStored t (receive_once v toss now id eid t parsed body o db).1
  unfolding receive_once receive_new create_webhook find_first
  receive_once-IsStored parsed body (some w) db c e h = ground arith
  receive_once-IsStored none body none db c e h = ground (arith, text_eq_refl t)
  receive_once-IsStored (some w) body none db c e h = receive_payload-IsStored w body db c h

module _ (v : Verifier) (parse : Text → Option WebhookPayload) (toss : Provider) where
  -- When a transmission was received, whatever its answer was, a later request with its id and a valid
  -- signature is answered as a duplicate, and changes nothing.
  pub receive_webhook-once :
      (now now' id id' eid eid' : ℕ) (input : Option Text) (body body' : Text)
      (time time' signature signature' : Option Text) (db db' : Db) (c : Receipt)
      → receive_webhook v parse toss now id eid input body time signature db ≡ (ok c, db')
      → verify_webhook v now' body' time' signature' ≡ ok tt
      → (w : PaymentWebhook) × (receive_webhook v parse toss now' id' eid' input body' time'
            signature' db'
          ≡ (ok (seen w), db'))
  unfolding receive_webhook receive_once
  receive_webhook-once now now' id id' eid eid' input body body' time time' signature signature' db
        db' c h again =
      elim (Option-cases (transmission input)) [
        | inl e ↦ absurd (ground arith)
        | inr (t, e) ↦ elim (Result-cases (verify_webhook v now body time signature)) [
          | inl (x, d) ↦ absurd (ground arith)
          | inr (x, d) ↦
              let o = find_first (λ w. text_eq w.transmission_id t) db.webhooks in
              let run : receive_once v toss now id eid t (parse body) body o db ≡ (ok c, db') =
                rw (e, d) at h in
              let stored : IsStored t db' = rw run at (
                receive_once-IsStored v toss now id eid t (parse body) body o db c refl
                  (ap (λ x. x.0) run)) in
              elim (Option-cases (find_first (λ w. text_eq w.transmission_id t) db'.webhooks)) [
                | inl n ↦ absurd (ground (arith, stored))
                | inr (w, n) ↦ (w, rw (e, again, n) refl)
              ]
        ]
      ]
