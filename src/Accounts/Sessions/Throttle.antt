-- ===== src/Accounts/Sessions/Throttle.antt =====
-- The lock after failed logins, of apps/api/src/auth/auth.service.ts.
use gamja_market.Base.{
  ℕ, ◌||◌, inl, inr, Bool-cases, Option-cases, ◌+◌, ◌≡◌, ◌≤◌, ◌<◌, refl, Bool, true, some, arith,
  ◌==◌,
}
use gamja_market.Base.Text.{Text, is_text}
use gamja_market.Schema.{LoginThrottle, Db, find_first}
use gamja_market.Schema.Action.{err, too_many_requests, login_temporarily_locked}
use gamja_market.Schema.Rows.Laws.{find_first_holds, find_first-update_many}
use gamja_market.Accounts.Sessions.{
  may_enter, open_session, invalid_login, unauthorized, refuse, identifier_hash, enter, is_locked,
  failures, as_failed, record_failure, login, normalize_identifier,
}

login-locked :
    (lower : Text → Text) (hash : Text → ℕ) (verify : Text → Text → Bool) (now : ℕ)
    (token identifier password : Text) (t : LoginThrottle) (db : Db)
    → find_first
        (λ r.
          r.identifier_hash == identifier_hash lower hash (normalize_identifier lower identifier))
        db.throttles
      ≡ some t
    → is_locked now (some t) ≡ true
    → login lower hash verify now token identifier password db
      ≡ (err (too_many_requests login_temporarily_locked), db)
unfolding login
login-locked lower hash verify now token identifier password t db found locked = ground arith

record_failure-row :
    (now key : ℕ) (t : LoginThrottle) (db : Db)
    → find_first (λ r. r.identifier_hash == key) db.throttles ≡ some t
    → find_first (λ r. r.identifier_hash == key) (record_failure now key (some t) db).1.throttles
      ≡ some (as_failed now (failures now (some t)) t)
unfolding record_failure
record_failure-row now key t db found =
    let after =
      find_first-update_many (λ r. r.identifier_hash) key (λ r. r.identifier_hash == key)
        (as_failed now (failures now (some t))) db.throttles (λ r. refl) in
    ground (arith, after, find_first_holds (λ r. r.identifier_hash == key) db.throttles t found)

-- A login that ends with INVALID_LOGIN has found its throttle, and recorded the failure.
login-refused :
    (lower : Text → Text) (hash : Text → ℕ) (verify : Text → Text → Bool) (now : ℕ)
    (token identifier password : Text) (t : LoginThrottle) (db d : Db)
    → let k = identifier_hash lower hash (normalize_identifier lower identifier) in
      find_first (λ r. r.identifier_hash == k) db.throttles ≡ some t
      → login lower hash verify now token identifier password db
        ≡ (err (unauthorized invalid_login), d)
      → d ≡ (record_failure now k (some t) db).1
unfolding login enter refuse open_session
login-refused lower hash verify now token identifier password t db d found refused =
    let who = normalize_identifier lower identifier in
    let user = find_first (λ u. is_text u.email who || is_text u.phone who) db.users in
    elim (Bool-cases (is_locked now (some t))) [
      | inl locked ↦ absurd (ground arith)
      | inr free ↦ elim (Option-cases (may_enter verify password user)) [
        | inl none_enters ↦ ground arith
        | inr (u, enters) ↦ absurd (ground arith)
      ]
    ]

-- When a login fails with INVALID_LOGIN, with any token and password, as the fifth failure or more
-- in the quarter of an hour since the first, then every login with the identifier in the next quarter
-- of an hour is refused, whatever its password is, and changes nothing.
pub record_failure-locks :
    (lower : Text → Text) (hash : Text → ℕ) (verify : Text → Text → Bool) (now later : ℕ)
    (token token' identifier password password' : Text) (t : LoginThrottle) (db d : Db)
    → let k = identifier_hash lower hash (normalize_identifier lower identifier) in
      find_first (λ r. r.identifier_hash == k) db.throttles ≡ some t
      → 4 ≤ t.failed_count
      → now < t.first_failed_at + 900000
      → login lower hash verify now token identifier password db
        ≡ (err (unauthorized invalid_login), d)
      → later < now + 900000
      → login lower hash verify later token' identifier password' d
        ≡ (err (too_many_requests login_temporarily_locked), d)
record_failure-locks lower hash verify now later token token' identifier password password' t db d
      found many recent refused soon =
    let k = identifier_hash lower hash (normalize_identifier lower identifier) in
    let after =
      login-refused lower hash verify now token identifier password t db d found refused in
    rw after (
      login-locked lower hash verify later token' identifier password'
        (as_failed now (failures now (some t)) t) (record_failure now k (some t) db).1
        (record_failure-row now k t db found) (ground arith))
