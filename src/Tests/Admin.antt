-- ===== src/Tests/Admin.antt =====
-- The theorems on the administration at a small market.
use gamja_market.Base.{◌≡◌, refl, ◌==◌, true, false, none, some, [], ◌∷◌, is_some, ◌&&◌}
use gamja_market.Base.Text.{text, text_eq}
use gamja_market.Schema.{UserRole, UserStatus, User, user_state, Db, find_first, update_many}
use gamja_market.Schema.Action.{ok}
use gamja_market.Admin.{
  is_super_admin, is_authentic, reauthenticate, audit, log_entry, suspend, status_of, action_of,
  sanction, update_user, revoke_sessions, is_live_session, with_user_status, set_user_status,
}
use gamja_market.Admin.Laws.{is_suspension, set_user_status-Sanctioned}
use gamja_market.Tests.Data.{reserved_market}
use gamja_market.Tests.Safety.{a_user}

-- The administrator 1 and the user 2, who is signed in.
abbrev staffed_market : Db
staffed_market = record reserved_market {
  users = record (a_user 1) { role = UserRole.super_admin } ∷ a_user 2 ∷ [];
  sessions = record { user_id = 2; token_hash = 60; expires_at = 100; revoked_at = none } ∷ [];
}

abbrev suspended_market : Db
suspended_market = record staffed_market {
  users =
      record (a_user 1) { role = UserRole.super_admin }
      ∷ record (a_user 2) { status = UserStatus.suspended }
      ∷ [];
  sessions = record { user_id = 2; token_hash = 60; expires_at = 100; revoked_at = some 6 } ∷ [];
  audit_logs =
      log_entry 1 (text "USER_SUSPENDED") (text "USER") 2 (text "fraud")
        (user_state 2 (some UserRole.user) UserStatus.active)
        (user_state 2 none UserStatus.suspended)
      ∷ [];
}

user_suspended :
    set_user_status text_eq 6 1 2 suspend (text "fraud") [] staffed_market
    ≡ (ok UserStatus.suspended, suspended_market)
unfolding set_user_status reauthenticate audit sanction update_user revoke_sessions find_first
    update_many text_eq
user_suspended = refl

set_user_status-Sanctioned_example :
    (before : User) × (is_authentic text_eq [] (find_first (λ u. u.id == 1) staffed_market.users)
      ≡ true)
    × (find_first (λ u. u.id == 2) staffed_market.users ≡ some before)
    × (is_super_admin before.role ≡ false)
    × (suspended_market.users
        ≡ update_many (λ u. u.id == 2) (with_user_status (status_of suspend)) staffed_market.users)
    × (suspended_market.audit_logs
        ≡ log_entry 1
            (action_of suspend)
            (text "USER")
            2
            (text "fraud")
            (user_state 2 (some before.role) before.status)
            (user_state 2 none (status_of suspend))
          ∷ staffed_market.audit_logs)
    × (is_suspension suspend && is_some (find_first (is_live_session 2) suspended_market.sessions)
        ≡ false)
set_user_status-Sanctioned_example =
    set_user_status-Sanctioned text_eq 6 1 2 suspend (text "fraud") [] staffed_market
      suspended_market UserStatus.suspended user_suspended
