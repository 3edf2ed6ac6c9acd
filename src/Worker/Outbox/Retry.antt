-- ===== src/Worker/Outbox/Retry.antt =====
-- The claims, the retries and the dead letters of apps/worker/src/payment-events.ts.
use gamja_market.Base.{
  ℕ, ◌+◌, ◌*◌, leb, take, if◌then◌else◌, ◌≡◌, ◌≤◌, ◌⊎◌, refl, true, false, ◌&&◌, none, some, List,
  ◌^◌, min, arith, ◌==◌, inl, inr,
}
use native.Mathlib.Nat.{pow-le-pow_right, one-le-pow}
use gamja_market.Schema.{OutboxEvent, OutboxStatus, Db, find_first, update_many, count}
use gamja_market.Schema.Action.{Error, ok, err}
use gamja_market.Schema.Action.Laws.{Result-cases}
use gamja_market.Schema.Tables.{update_outbox, update_outbox_event}
use gamja_market.Schema.Rows.Laws.{
  has_key, HasUniqueKeys, find_first_holds, find_first_unique, find_first-update_many,
  update_many-narrow, update_many-find_none, count-find_none, count-find_some, count-le,
}
use gamja_market.Worker.Outbox.{
  Events, is_ready_event, as_claimed_event, as_processed, as_retried, deliver_event, try_event,
  catch_event, retry_event, after_event_claim, process_outbox_event, delay_seconds,
}
use gamja_market.Worker.Outbox.Frame.{deliver_event-keeps}

-- The delay before a retry is a function of the attempts alone, with no random part: 2 ^ min(n, 10)
-- seconds, which is at least a second and at most 1024 seconds, so the cap of an hour is not reached.
pub delay_seconds-bounds :
    (n : ℕ) → (delay_seconds n ≡ 2 ^ min n 10) × (1 ≤ delay_seconds n) × (delay_seconds n ≤ 1024)
unfolding delay_seconds
delay_seconds-bounds n =
    let few : min n 10 ≤ 10 = omega arith in
    let top : 2 ^ min n 10 ≤ 2 ^ 10 = pow-le-pow_right (omega arith) few in
    let bottom : 1 ≤ 2 ^ min n 10 = one-le-pow (min n 10) 2 (omega arith) in
    (omega (arith, top), omega (arith, bottom), omega (arith, top))

-- A delivery writes nothing to the outbox.
deliver_event-outbox :
    (env : Events) (now : ℕ) (e : OutboxEvent) (db : Db)
    → (deliver_event env now e db).1.outbox ≡ db.outbox
deliver_event-outbox env now e db =
    deliver_event-keeps (λ d. d.outbox ≡ db.outbox) (λ d f i h. h) (λ d t i s h. h) env now e db
      refl

updated_row :
    (k : ℕ) (f : OutboxEvent → OutboxEvent) (es : List OutboxEvent) (e : OutboxEvent)
    → ((r : OutboxEvent) → (f r).id ≡ r.id)
    → e.id ≡ k
    → find_first (λ r. r.id == k) es ≡ some e
    → find_first (λ r. r.id == k) (update_many (λ r. r.id == k) f es) ≡ some (f e)
updated_row k f es e i own row =
    rw (find_first-update_many (λ r. r.id) k (λ r. r.id == k) f es i, row) (ground arith)

-- How the delivery of an event ends, by what it throws.
try_event-outcome :
    (env : Events) (now : ℕ) (e : OutboxEvent) (db : Db)
    → find_first (λ r. r.id == e.id) db.outbox ≡ some e
    → let r = try_event env now e db in
      (((deliver_event env now e db).0 ≡ ok tt)
        × (r.0 ≡ ok false)
        × (find_first (λ y. y.id == e.id) r.1.outbox ≡ some (as_processed now e)))
      ⊎ ((x : Error) × ((deliver_event env now e db).0 ≡ err x)
          × (r.0 ≡ err x)
          × (find_first (λ y. y.id == e.id) r.1.outbox
              ≡ some (as_retried now e.attempts (env.message x) e)))
unfolding try_event catch_event retry_event update_outbox_event
try_event-outcome env now e db row =
    let sent = deliver_event-outbox env now e db in
    let row' : find_first (λ r. r.id == e.id) (deliver_event env now e db).1.outbox ≡ some e =
      rw sent row in
    elim (Result-cases (deliver_event env now e db).0) [
      | inr (u, r) ↦
          let after =
            updated_row e.id (as_processed now) (deliver_event env now e db).1.outbox e (λ r. refl)
              refl row' in
          inl (ground arith, ground arith, ground arith)
      | inl (x, r) ↦
          let after =
            updated_row e.id (as_retried now e.attempts (env.message x))
              (deliver_event env now e db).1.outbox e (λ r. refl) refl row' in
          inr (x, r, ground arith, ground arith)
    ]

module _ (env : Events) (now id : ℕ) (db : Db) where
  -- An event that is not waiting, or not yet available, is skipped, and nothing changes.
  pub process_outbox_event-skips :
      find_first (λ e. e.id == id && is_ready_event now e) db.outbox ≡ none
      → process_outbox_event env now id db ≡ (ok true, db)
  unfolding process_outbox_event update_outbox after_event_claim
  process_outbox_event-skips n =
      let same =
        update_many-find_none (λ e. e.id == id && is_ready_event now e) (as_claimed_event now)
          db.outbox n in
      let zero_rows = count-find_none (λ e. e.id == id && is_ready_event now e) db.outbox n in
      rw (zero_rows, same) refl

module _ (env : Events) (now : ℕ) (db : Db) (e : OutboxEvent)
    (keys : HasUniqueKeys (λ r. r.id) db.outbox)
    (found : find_first (λ r. r.id == e.id && is_ready_event now r) db.outbox ≡ some e) where
  -- The database after the claim.
  abbrev pub claimed_db : Db
  claimed_db = record db {
    outbox = update_many (λ r. r.id == e.id) (as_claimed_event now) db.outbox;
  }

  claimed_row : find_first (λ r. r.id == e.id) claimed_db.outbox ≡ some (as_claimed_event now e)
  claimed_row =
      let row =
        find_first_unique (λ r. r.id) e.id (is_ready_event now) db.outbox e (keys e.id) found in
      rw
        (
          find_first-update_many (λ r. r.id) e.id (λ r. r.id == e.id) (as_claimed_event now)
              db.outbox (λ r. refl),
          row,
        )
        (ground
          (arith, find_first_holds (λ r. r.id == e.id && is_ready_event now r) db.outbox e found))

  process_claimed :
      process_outbox_event env now e.id db ≡ try_event env now (as_claimed_event now e) claimed_db
  unfolding process_outbox_event update_outbox after_event_claim
  process_claimed =
      let one : count (λ r. r.id == e.id && is_ready_event now r) db.outbox ≡ 1 = ground (
        arith,
        count-find_some (λ r. r.id == e.id && is_ready_event now r) db.outbox e found,
        count-le (has_key (λ r. r.id) e.id) (λ r. r.id == e.id && is_ready_event now r) db.outbox
            (λ r h. ground arith),
        keys e.id,
      ) in
      rw
        (
          one,
          update_many-narrow (λ r. r.id) e.id (is_ready_event now) (as_claimed_event now) db.outbox
              e (keys e.id) found,
          claimed_row,
        )
        refl

  -- When the ids of the outbox are unique and event `e` is waiting, it is claimed with one more
  -- attempt and delivered. It ends processed, with no error left, or what its delivery threw is thrown
  -- on, and it is failed, to be retried 2 ^ min(attempts, 10) seconds later, or dead from its tenth
  -- attempt on, with the first 500 characters of the message.
  pub process_outbox_event-outcome :
      let sent = (deliver_event env now (as_claimed_event now e) claimed_db).0 in
      let r = process_outbox_event env now e.id db in
      ((sent ≡ ok tt)
        × (r.0 ≡ ok false)
        × (find_first (λ y. y.id == e.id) r.1.outbox
            ≡ some (record e {
              status = OutboxStatus.processed;
              attempts = e.attempts + 1;
              last_error = none;
              claimed_at = none;
              processed_at = some now;
            })))
      ⊎ ((x : Error) × (sent ≡ err x)
          × (r.0 ≡ err x)
          × (find_first (λ y. y.id == e.id) r.1.outbox
              ≡ some (record e {
                status =
                    if leb 10 (e.attempts + 1)
                    then OutboxStatus.dead_letter
                    else OutboxStatus.failed;
                attempts = e.attempts + 1;
                last_error = some (take 500 (env.message x));
                claimed_at = none;
                available_at = now + 2 ^ min (e.attempts + 1) 10 * 1000;
              })))
  process_outbox_event-outcome =
      rw (process_claimed, ← (delay_seconds-bounds (e.attempts + 1)).0)
        (try_event-outcome env now (as_claimed_event now e) claimed_db claimed_row)
