-- ===== src/Admin/Laws.antt =====
-- What the administration of apps/api/src/admin/admin.service.ts changes.
use gamja_market.Base.{
  ℕ, ◌≡◌, refl, Bool, true, false, ◌&&◌, none, some, List, [], ◌∷◌, arith, ◌==◌, is_some, inl, inr,
  Bool-cases, Option-cases,
}
use gamja_market.Base.Text.{Text, text}
use gamja_market.Schema.{UserStatus, User, Session, user_state, Db, find_first, update_many}
use gamja_market.Schema.Action.{ok}
use gamja_market.Admin.{
  is_super_admin, is_authentic, reauthenticate, audit, log_entry, Sanction, activate, suspend,
  status_of, action_of, sanction, update_user, revoke_sessions, is_live_session, as_revoked,
  with_user_status, set_user_status,
}

revoked_none :
    (now user : ℕ) (ss : List Session)
    → find_first (is_live_session user) (update_many (is_live_session user) (as_revoked now) ss)
      ≡ none
unfolding find_first update_many
revoked_none now user [] = refl
revoked_none now user (s ∷ ss) = ground (arith, revoked_none now user ss)

abbrev pub is_suspension : Sanction → Bool
is_suspension activate = false
is_suspension suspend = true

revoke_sessions-none_left :
    (now user : ℕ) (status : Sanction) (db : Db)
    → is_suspension status
        && is_some
            (find_first (is_live_session user) (revoke_sessions now user status db).1.sessions)
      ≡ false
unfolding revoke_sessions
revoke_sessions-none_left now user activate db = refl
revoke_sessions-none_left now user suspend db = rw (revoked_none now user db.sessions) refl

-- What a sanction does to the users, the sessions and the audit log.
sanction-writes :
    (now target : ℕ) (status : Sanction) (u : User) (db : Db)
    → find_first (λ u. u.id == target) db.users ≡ some u
    → let d = (sanction now target status db).1 in
      ((sanction now target status db).0 ≡ ok tt)
      × (d.users ≡ update_many (λ u. u.id == target) (with_user_status (status_of status)) db.users)
      × (d.audit_logs ≡ db.audit_logs)
      × (is_suspension status && is_some (find_first (is_live_session target) d.sessions) ≡ false)
unfolding sanction update_user revoke_sessions
sanction-writes now target activate u db e = (ground arith, ground arith, ground arith, refl)
sanction-writes now target suspend u db e =
    (ground arith, ground arith, ground arith, ground (arith, revoked_none now target db.sessions))

-- A sanction of a user is that of an administrator who gave the password, against a user who is no
-- administrator; it leaves one entry in the audit log, and a user who is suspended has no session left.
pub set_user_status-Sanctioned :
    (verify : Text → Text → Bool) (now admin target : ℕ) (status : Sanction)
    (reason password : Text) (db db' : Db) (answer : UserStatus)
    → set_user_status verify now admin target status reason password db ≡ (ok answer, db')
    → (before : User) × (is_authentic verify password (find_first (λ u. u.id == admin) db.users)
        ≡ true)
      × (find_first (λ u. u.id == target) db.users ≡ some before)
      × (is_super_admin before.role ≡ false)
      × (db'.users
          ≡ update_many (λ u. u.id == target) (with_user_status (status_of status)) db.users)
      × (db'.audit_logs
          ≡ log_entry admin
              (action_of status)
              (text "USER")
              target
              reason
              (user_state target (some before.role) before.status)
              (user_state target none (status_of status))
            ∷ db.audit_logs)
      × (is_suspension status && is_some (find_first (is_live_session target) db'.sessions) ≡ false)
unfolding set_user_status reauthenticate audit
set_user_status-Sanctioned verify now admin target status reason password db db' answer h =
    elim (Bool-cases (is_authentic verify password (find_first (λ u. u.id == admin) db.users))) [
      | inr b ↦ absurd (ground arith)
      | inl b ↦ elim (Option-cases (find_first (λ u. u.id == target) db.users)) [
        | inl e ↦ absurd (ground arith)
        | inr (before, e) ↦ elim (Bool-cases (is_super_admin before.role)) [
          | inl r ↦ absurd (ground arith)
          | inr r ↦
              let (done, users, logs, left) = sanction-writes now target status before db e in
              (before, b, e, r, ground arith, ground arith, ground arith)
        ]
      ]
    ]
