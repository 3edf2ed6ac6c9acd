-- ===== src/Worker/Outbox/Reconciled.antt =====
-- The events of apps/worker/src/payment-events.ts keep the invariants of the market, and the sequence
-- number of a payment only grows.
use gamja_market.Base.{
  ℕ, ◌≡◌, refl, Bool, true, false, ◌&&◌, not, Option, none, some, arith, ◌==◌, Option-cases, inl,
  inr,
}
use gamja_market.Base.Int.{ℤ, leb_ℤ}
use gamja_market.Schema.{Payment, Db, find_first, update_many}
use gamja_market.Schema.Rows.Laws.{find_first-update_many}
use gamja_market.Sound.{IsSound}
use gamja_market.Payments.Escrow.Tables.{keep-IsEscrowed}
use gamja_market.Worker.Outbox.{Events, as_reconciled, process_outbox_event}
use gamja_market.Worker.Outbox.Frame.{process_outbox_event-keeps}

reconcile-IsSound :
    (db : Db) (now id : ℕ) (s : ℤ)
    → IsSound db
    → IsSound (record db {
      payments =
          update_many
            (λ p. p.id == id && not (leb_ℤ s p.last_webhook_sequence))
            (as_reconciled now s)
            db.payments;
    })
reconcile-IsSound db now id s h = record {
  reserved = h.reserved;
  audited = h.audited;
  escrowed =
      keep-IsEscrowed db.payments db.ledger h.escrowed
        (λ p. p.id == id && not (leb_ℤ s p.last_webhook_sequence)) (as_reconciled now s) (λ r. refl)
        (λ r _ c. (refl, c));
}

-- Processing an event of the outbox, whatever the provider answers and wherever it fails, keeps
-- the invariants.
pub process_outbox_event-IsSound :
    (env : Events) (now id : ℕ) (db : Db)
    → IsSound db
    → IsSound (process_outbox_event env now id db).1
process_outbox_event-IsSound env now id db h =
    process_outbox_event-keeps IsSound
      (λ d f i k. record { reserved = k.reserved; audited = k.audited; escrowed = k.escrowed })
      reconcile-IsSound
      (λ d p f k. record { reserved = k.reserved; audited = k.audited; escrowed = k.escrowed }) env
      now id db h

-- The sequence number of a payment, when it is there.
abbrev pub has_reached : ℤ → Option Payment → Bool
has_reached s none = true
has_reached s (some p) = leb_ℤ s p.last_webhook_sequence

leb_ℤ_trans : (a b c : ℤ) → leb_ℤ a b ≡ true → leb_ℤ b c ≡ true → leb_ℤ a c ≡ true
leb_ℤ_trans a b c h k = ground arith

leb_ℤ_total : (a b : ℤ) → leb_ℤ a b ≡ false → leb_ℤ b a ≡ true
leb_ℤ_total a b h = ground arith

-- Whatever webhooks are processed, in whatever order they arrive, a payment whose sequence number has
-- reached `s` keeps having reached it.
pub process_outbox_event-grows :
    (env : Events) (now id k : ℕ) (s : ℤ) (db : Db)
    → has_reached s (find_first (λ p. p.id == k) db.payments) ≡ true
    → has_reached s (find_first (λ p. p.id == k) (process_outbox_event env now id db).1.payments)
      ≡ true
process_outbox_event-grows env now id k s db h =
    process_outbox_event-keeps (λ d. has_reached s (find_first (λ p. p.id == k) d.payments) ≡ true)
      (λ d f i e. e)
      (λ d t i s' e. elim (Option-cases (find_first (λ p. p.id == k) d.payments)) [
        | inl n ↦
            rw
              (
                find_first-update_many (λ p. p.id) k
                    (λ p. p.id == i && not (leb_ℤ s' p.last_webhook_sequence)) (as_reconciled t s')
                    d.payments (λ r. refl),
                n,
              )
              refl
        | inr (p, n) ↦
            let before : leb_ℤ s p.last_webhook_sequence ≡ true = rw n at e in
            rw
              (
                find_first-update_many (λ p. p.id) k
                    (λ p. p.id == i && not (leb_ℤ s' p.last_webhook_sequence)) (as_reconciled t s')
                    d.payments (λ r. refl),
                n,
              )
              (ground (
                arith,
                before,
                leb_ℤ_trans s p.last_webhook_sequence s',
                leb_ℤ_total s' p.last_webhook_sequence,
              ))
      ])
      (λ d p f e. e) env now id db h
