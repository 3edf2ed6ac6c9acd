-- ===== src/Accounts/Sessions.antt =====
-- apps/api/src/auth/auth.service.ts: signing in and out. `hash` is SHA-256, `verify` the check of a
-- password by argon2, and `lower` is `toLowerCase()`; the random token is an argument.
pub mod Throttle
use gamja_market.Base.{
  ℕ, suc, ◌+◌, ◌*◌, Bool, true, false, ◌&&◌, ◌||◌, not, Option, none, some, List, [], ◌∷◌, ◌==◌,
  leb, ltb, is_some, if◌then◌else◌,
}
use gamja_market.Base.Text.{Text, text_eq, is_text, trim}
use gamja_market.Schema.{
  UserStatus, User, Session, LoginThrottle, Neighborhood, Db, find_first, update_many, delete_many,
}
use gamja_market.Schema.Action.{
  Action, Void, ok, err, pure, gets, or_raise, raise, raise_if, modify, ◌>>=◌, ◌>>◌,
  too_many_requests, unauthorized, login_temporarily_locked, invalid_login,
}
use gamja_market.Accounts.{AuthenticatedUser}
use gamja_market.Accounts.PasswordPolicy.{any, keep}

-- `LOCK_AFTER_FAILURES`, `LOCK_MS` and `SESSION_TTL_MS`
abbrev pub lock_after_failures : ℕ
lock_after_failures = 5

abbrev pub lock_ms : ℕ
lock_ms = 15 * 60 * 1000

abbrev pub session_ttl_ms : ℕ
session_ttl_ms = 30 * 24 * 60 * 60 * 1000

-- `normalizeIdentifier`; `[ -]` is a space or a hyphen.
unfoldable pub normalize_identifier : (Text → Text) → Text → Text
normalize_identifier lower identifier =
    let trimmed = trim identifier in
    if any (λ c. c == b'@') trimmed
    then lower trimmed
    else keep (λ c. not (c == b' ' || c == b'-')) trimmed

-- `identifierHash`, which normalizes what it is given, a token too
abbrev pub identifier_hash : (Text → Text) → (Text → ℕ) → Text → ℕ
identifier_hash lower hash identifier = hash (normalize_identifier lower identifier)

-- The code of the neighborhood of a user.
abbrev pub code_at : Option ℕ → Db → Option Text
code_at none db = none
code_at (some id) db = elim (find_first (λ n. n.id == id) db.neighborhoods) [
  | none ↦ none
  | some n ↦ some n.code
]

-- `serializeUser`
unfoldable pub serialize_user : Db → User → AuthenticatedUser
serialize_user db user = record {
  id = user.id;
  email = user.email;
  phone = user.phone;
  role = user.role;
  status = user.status;
  neighborhood = code_at user.neighborhood_id db;
}

abbrev pub is_active_user : UserStatus → Bool
is_active_user UserStatus.active = true
is_active_user _ = false

-- `throttle?.lockedUntil && throttle.lockedUntil > new Date()`
abbrev pub is_locked : ℕ → Option LoginThrottle → Bool
is_locked now none = false
is_locked now (some t) = elim t.locked_until [ none ↦ false | some until ↦ ltb now until ]

-- The failures that count, with this one.
abbrev pub failures : ℕ → Option LoginThrottle → ℕ
failures now none = 1
failures now (some t) = if ltb now (t.first_failed_at + lock_ms) then t.failed_count + 1 else 1

abbrev pub lock_until : ℕ → ℕ → Option ℕ
lock_until now n = if leb lock_after_failures n then some (now + lock_ms) else none

abbrev pub new_throttle : ℕ → ℕ → ℕ → LoginThrottle
new_throttle now key n = record {
  identifier_hash = key;
  failed_count = n;
  first_failed_at = now;
  locked_until = lock_until now n;
}

abbrev pub as_failed : ℕ → ℕ → LoginThrottle → LoginThrottle
as_failed now n t = record t {
  failed_count = n;
  first_failed_at = if n == 1 then now else t.first_failed_at;
  locked_until = lock_until now n;
}

-- `recordFailure`
unfoldable pub record_failure : ℕ → ℕ → Option LoginThrottle → Action Void
record_failure now key current db =
    let n = failures now current in
    elim (find_first (λ t. t.identifier_hash == key) db.throttles) [
      | none ↦ (ok tt, record db { throttles = new_throttle now key n ∷ db.throttles })
      | some t ↦ (
        ok tt,
        record db {
          throttles = update_many (λ t. t.identifier_hash == key) (as_failed now n) db.throttles;
        },
      )
    ]

-- `!user || !verified || user.status !== ACTIVE`, turned around
abbrev pub may_enter : (Text → Text → Bool) → Text → Option User → Option User
may_enter verify password none = none
may_enter verify password (some user) =
    if verify user.password_hash password && is_active_user user.status then some user else none

module _ (lower : Text → Text) (hash : Text → ℕ) (verify : Text → Text → Bool) (now : ℕ) where
  unfoldable pub refuse : ℕ → Option LoginThrottle → Action (Text × AuthenticatedUser)
  refuse key throttle = do record_failure now key throttle; raise (unauthorized invalid_login)

  unfoldable pub open_session : Text → ℕ → User → Action (Text × AuthenticatedUser)
  open_session token key user db = (
    ok (token, serialize_user db user),
    record db {
      throttles = delete_many (λ t. t.identifier_hash == key) db.throttles;
      sessions =
          record {
            user_id = user.id;
            token_hash = identifier_hash lower hash token;
            expires_at = now + session_ttl_ms;
            revoked_at = none;
          }
          ∷ db.sessions;
    },
  )

  unfoldable pub enter :
      Text → ℕ → Option LoginThrottle → Option User → Action (Text × AuthenticatedUser)
  enter token key throttle none = refuse key throttle
  enter token key throttle (some user) = open_session token key user

  -- The random token is taken to be new: its hash is a key of the table.
  unfoldable pub login : Text → Text → Text → Action (Text × AuthenticatedUser)
  login token identifier_input password = do
    let identifier = normalize_identifier lower identifier_input
    let key = identifier_hash lower hash identifier
    throttle ← gets λ db. find_first (λ t. t.identifier_hash == key) db.throttles
    raise_if (is_locked now throttle) (too_many_requests login_temporarily_locked)
    user ←
        gets
          λ db. find_first (λ u. is_text u.email identifier || is_text u.phone identifier) db.users
    enter token key throttle (may_enter verify password user)

  unfoldable pub logout : Text → Action Void
  logout token db = (
    ok tt,
    record db {
      sessions =
          update_many
            (λ s. s.token_hash == identifier_hash lower hash token && not (is_some s.revoked_at))
            (λ s. record s { revoked_at = some now }) db.sessions;
    },
  )
