-- ===== src/Tests/Webhooks.antt =====
-- The theorems on the webhooks and the outbox at the small market.
use gamja_market.Base.{
  ◌&&◌, ℕ, ◌≡◌, refl, ◌⊎◌, ◌^◌, ◌≤◌, arith, ◌==◌, true, false, none, some, [], ◌∷◌, Option, min,
}
use gamja_market.Base.Int.{pos}
use gamja_market.Base.Text.{Text, text, trim}
use gamja_market.Schema.{
  OutboxStatus, WebhookProcessingStatus, PaymentWebhook, Db, find_first, count,
}
use gamja_market.Schema.Action.{Error, ok, err}
use gamja_market.Schema.Tables.{create_webhook}
use gamja_market.Payments.Webhook.{
  Verifier, WebhookPayload, receive_webhook, verify_webhook, receive_once, receive_new, seen, fresh,
  webhook_event, invalid_webhook,
}
use gamja_market.Payments.Webhook.Once.{receive_webhook-once}
use gamja_market.Worker.Outbox.{
  is_ready_event, deliver_event, Events, process_outbox_event, as_claimed_event, delay_seconds,
}
use gamja_market.Worker.Outbox.Reconciled.{has_reached, process_outbox_event-grows}
use gamja_market.Worker.Outbox.Retry.{
  claimed_db, process_outbox_event-outcome, process_outbox_event-skips, delay_seconds-bounds,
}
use gamja_market.Tests.Data.{reserved_market, sandbox}

-- A sandbox without a secret asks for no signature.
abbrev open_verifier : Verifier
open_verifier = record {
  has_secret = false;
  is_test = false;
  is_sandbox = true;
  value = λ t. none;
  signature = λ t. [];
  hmac = λ t b. [];
}

abbrev no_parse : Text → Option WebhookPayload
no_parse body = none

abbrev received_market : Db
received_market = record reserved_market { webhooks = invalid_webhook 8 20 (text "t-1") [] ∷ [] }

-- The body is no JSON: the webhook is stored as failed.
webhook_stored :
    receive_webhook open_verifier no_parse sandbox 8 20 21
      (some (text "t-1"))
      []
      none
      none
      reserved_market
    ≡ (ok (fresh WebhookProcessingStatus.failed), received_market)
unfolding receive_webhook verify_webhook receive_once receive_new create_webhook find_first trim
    text
webhook_stored = refl

receive_webhook-once_example :
    (w : PaymentWebhook) × (receive_webhook open_verifier no_parse sandbox 9 22 23
        (some (text "t-1"))
        []
        none
        none
        received_market
      ≡ (ok (seen w), received_market))
unfolding verify_webhook
receive_webhook-once_example =
    receive_webhook-once open_verifier no_parse sandbox 8 9 20 22 21 23 (some (text "t-1")) [] []
      none none none none reserved_market received_market (fresh WebhookProcessingStatus.failed)
      webhook_stored refl

abbrev queued_market : Db
queued_market = record reserved_market { outbox = webhook_event 3 21 20 ∷ [] }

abbrev offline : Events
offline = record {
  has_secret = false;
  fetch = λ k. err Error.p2025;
  parse = λ b. err Error.p2025;
  message = λ e. text "offline";
}

outbox_keys : (k : ℕ) → count (λ e. e.id == k) queued_market.outbox ≤ 1
unfolding count
outbox_keys k = ground arith

event_waits :
    find_first (λ r. r.id == (webhook_event 3 21 20).id && is_ready_event 9 r) queued_market.outbox
    ≡ some (webhook_event 3 21 20)
unfolding find_first
event_waits = refl

process_outbox_event-outcome_example :
    let sent =
      (deliver_event offline 9
        (as_claimed_event 9 (webhook_event 3 21 20))
        (claimed_db offline 9 queued_market (webhook_event 3 21 20) outbox_keys event_waits)).0 in
    let r = process_outbox_event offline 9 21 queued_market in
    ((sent ≡ ok tt)
      × (r.0 ≡ ok false)
      × (find_first (λ y. y.id == 21) r.1.outbox
          ≡ some (record (webhook_event 3 21 20) {
            status = OutboxStatus.processed;
            attempts = 1;
            last_error = none;
            claimed_at = none;
            processed_at = some 9;
          })))
    ⊎ ((x : Error) × (sent ≡ err x)
        × (r.0 ≡ err x)
        × (find_first (λ y. y.id == 21) r.1.outbox
            ≡ some (record (webhook_event 3 21 20) {
              status = OutboxStatus.failed;
              attempts = 1;
              last_error = some (text "offline");
              claimed_at = none;
              available_at = 2009;
            })))
unfolding find_first text
process_outbox_event-outcome_example =
    process_outbox_event-outcome offline 9 queued_market (webhook_event 3 21 20) outbox_keys
      event_waits

process_outbox_event-skips_example :
    process_outbox_event offline 2 21 queued_market ≡ (ok true, queued_market)
unfolding find_first
process_outbox_event-skips_example = process_outbox_event-skips offline 2 21 queued_market refl

process_outbox_event-grows_example :
    has_reached
      (pos 0)
      (find_first (λ p. p.id == 5) (process_outbox_event offline 9 21 queued_market).1.payments)
    ≡ true
unfolding find_first
process_outbox_event-grows_example =
    process_outbox_event-grows offline 9 21 5 (pos 0) queued_market refl

delay_seconds-bounds_example :
    (delay_seconds 12 ≡ 2 ^ min 12 10) × (1 ≤ delay_seconds 12) × (delay_seconds 12 ≤ 1024)
delay_seconds-bounds_example = delay_seconds-bounds 12
