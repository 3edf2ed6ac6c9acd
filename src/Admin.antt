-- ===== src/Admin.antt =====
-- apps/api/src/admin/admin.service.ts: what an administrator changes. `verify` is the check of a
-- password against its hash, by argon2.
pub mod Laws
use gamja_market.Base.{
  ℕ, ◌+◌, Bool, true, false, ◌&&◌, ◌||◌, not, Option, none, some, List, [], ◌∷◌, ◌==◌, length,
  is_some, if◌then◌else◌,
}
use gamja_market.Base.Text.{Text, text}
use gamja_market.Schema.{
  OutboxStatus, UserRole, UserStatus, ProductStatus, PaymentStatus, ReportStatus,
  same_payment_status, User, Session, Product, Payment, Report, OutboxEvent, AuditLog, Snapshot,
  user_state, product_state, report_state, payment_state, outbox_state, reconciled, Db, find_first,
  update_many, count,
}
use gamja_market.Schema.Action.{
  Action, Void, Result, ok, err, pure, lift, gets, or_raise, raise_if, transaction, modify, ◌>>=◌,
  ◌>>◌, forbidden, not_found, p2025, admin_reauthentication_failed, outbox_event_not_found,
  payment_not_reconcilable, user_not_found, cannot_modify_super_admin, product_not_found,
  report_not_found,
}
use gamja_market.Schema.Tables.{update_product, update_payment, update_outbox_event}
use gamja_market.Payments.Model.{Provider, TossPayment, TossStatus}
use gamja_market.Trades.Model.{is_active_trade}

abbrev pub is_super_admin : UserRole → Bool
is_super_admin UserRole.super_admin = true
is_super_admin UserRole.user = false

-- Whether an account is that of an administrator with the password.
abbrev pub is_authentic : (Text → Text → Bool) → Text → Option User → Bool
is_authentic verify password none = false
is_authentic verify password (some account) =
    is_super_admin account.role && verify account.password_hash password

unfoldable pub reauthenticate : (Text → Text → Bool) → ℕ → Text → Action Void
reauthenticate verify admin password = do
  account ← gets λ db. find_first (λ u. u.id == admin) db.users
  raise_if (not (is_authentic verify password account)) (forbidden admin_reauthentication_failed)

-- `audit`; the id of the request is left out.
unfoldable pub audit : AuditLog → Action Void
audit entry db = (ok tt, record db { audit_logs = entry ∷ db.audit_logs })

abbrev pub log_entry : ℕ → Text → Text → ℕ → Text → Snapshot → Snapshot → AuditLog
log_entry admin action target_type target_id reason before after = record {
  actor_id = some admin;
  action = action;
  target_type = target_type;
  target_id = target_id;
  reason = some reason;
  before = some before;
  after = some after;
}

-- `overview`
pub record Overview : Type 0 where
  pub users : ℕ
  pub products : ℕ
  pub open_reports : ℕ
  pub active_trades : ℕ

abbrev pub is_open_report : ReportStatus → Bool
is_open_report ReportStatus.received = true
is_open_report ReportStatus.reviewing = true
is_open_report _ = false

unfoldable pub overview : Action Overview
overview = gets λ db. record {
  users = length db.users;
  products = length db.products;
  open_reports = count (λ r. is_open_report r.status) db.reports;
  active_trades = count (λ t. is_active_trade t.status) db.trades;
}

abbrev pub as_pending : ℕ → OutboxEvent → OutboxEvent
as_pending now e = record e {
  status = OutboxStatus.pending;
  attempts = 0;
  available_at = now;
  claimed_at = none;
  last_error = none;
}

-- The status that a payment must have, by what the provider says; `none` for `undefined`.
abbrev pub expected_of : Option TossPayment → Option PaymentStatus
expected_of none = none
expected_of (some p) = some (elim p.status [
  | TossStatus.done ↦ PaymentStatus.approved
  | TossStatus.canceled ↦ PaymentStatus.cancelled
  | TossStatus.refunded ↦ PaymentStatus.refunded
])

abbrev pub is_expected : Option PaymentStatus → PaymentStatus → Bool
is_expected none status = false
is_expected (some expected) status = same_payment_status expected status

abbrev pub is_matched : Option TossPayment → Payment → Bool
is_matched none payment = false
is_matched (some provider) payment =
    provider.order_id == payment.order_id
    && (provider.amount_krw == payment.amount_krw
        && is_expected (expected_of (some provider)) payment.status)

abbrev pub as_checked : ℕ → Bool → Payment → Payment
as_checked now matched p = record p {
  reconciliation_checked_at = some now;
  failure_code = if matched then none else some (text "RECONCILIATION_MISMATCH");
}

-- `payment?.paymentKey`, where an empty key counts as none
abbrev pub key_of : Option Payment → Option (Text × Payment)
key_of none = none
key_of (some p) = elim p.payment_key [
  | none ↦ none
  | some [] ↦ none
  | some (c ∷ cs) ↦ some (c ∷ cs, p)
]

abbrev pub with_user_status : UserStatus → User → User
with_user_status status u = record u { status = status }

-- `'ACTIVE' | 'SUSPENDED'`
pub data Sanction : Type 0 where
  activate suspend : Sanction

abbrev pub status_of : Sanction → UserStatus
status_of activate = UserStatus.active
status_of suspend = UserStatus.suspended

abbrev pub action_of : Sanction → Text
action_of activate = text "USER_ACTIVE"
action_of suspend = text "USER_SUSPENDED"

-- `where: { userId: targetId, revokedAt: null }`
abbrev pub is_live_session : ℕ → Session → Bool
is_live_session user s = s.user_id == user && not (is_some s.revoked_at)

abbrev pub as_revoked : ℕ → Session → Session
as_revoked now s = record s { revoked_at = some now }

-- `tx.user.update({ where: { id }, data: { status } })`
unfoldable pub update_user : ℕ → (User → User) → Action Void
update_user id change db = elim (find_first (λ u. u.id == id) db.users) [
  | none ↦ (err p2025, db)
  | some u ↦ (ok tt, record db { users = update_many (λ r. r.id == id) change db.users })
]

unfoldable pub revoke_sessions : ℕ → ℕ → Sanction → Action Void
revoke_sessions now user activate db = (ok tt, db)
revoke_sessions now user suspend db = (
  ok tt,
  record db { sessions = update_many (is_live_session user) (as_revoked now) db.sessions },
)

-- The transaction of `setUserStatus`.
unfoldable pub sanction : ℕ → ℕ → Sanction → Action Void
sanction now target status =
    transaction (do
      update_user target (with_user_status (status_of status))
      revoke_sessions now target status)

abbrev pub with_product_status : ProductStatus → Product → Product
with_product_status status p = record p { status = status }

-- `'RESOLVED' | 'DISMISSED'`
pub data Verdict : Type 0 where
  resolve dismiss : Verdict

abbrev pub report_status_of : Verdict → ReportStatus
report_status_of resolve = ReportStatus.resolved
report_status_of dismiss = ReportStatus.dismissed

abbrev pub verdict_action : Verdict → Text
verdict_action resolve = text "REPORT_RESOLVED"
verdict_action dismiss = text "REPORT_DISMISSED"

abbrev pub with_report_status : ReportStatus → Report → Report
with_report_status status r = record r { status = status }

-- `prisma.report.update({ where: { id }, data: { status } })`
unfoldable pub update_report : ℕ → (Report → Report) → Action Void
update_report id change db = elim (find_first (λ r. r.id == id) db.reports) [
  | none ↦ (err p2025, db)
  | some r ↦ (ok tt, record db { reports = update_many (λ x. x.id == id) change db.reports })
]

module _ (verify : Text → Text → Bool) (now admin : ℕ) where
  unfoldable pub retry_outbox : ℕ → Text → Text → Action OutboxStatus
  retry_outbox event_id reason password = do
    reauthenticate verify admin password
    found ← gets λ db. find_first (λ e. e.id == event_id) db.outbox
    event ← or_raise (not_found outbox_event_not_found) found
    update_outbox_event event_id (as_pending now)
    audit (
        log_entry admin (text "OUTBOX_RETRY_REQUESTED") (text "OUTBOX_EVENT") event_id reason
          (outbox_state event.status) (outbox_state OutboxStatus.pending))
    pure OutboxStatus.pending

  -- The answer is whether the payment matches what the provider says.
  unfoldable pub reconcile_payment : Provider → ℕ → Text → Text → Action Bool
  reconcile_payment toss payment_id reason password = do
    reauthenticate verify admin password
    found ← gets λ db. find_first (λ p. p.id == payment_id) db.payments
    (payment_key, payment) ← or_raise (not_found payment_not_reconcilable) (key_of found)
    provider ← lift (toss.lookup payment_key)
    update_payment payment_id (as_checked now (is_matched provider payment))
    audit (
        log_entry admin (text "PAYMENT_RECONCILED") (text "PAYMENT") payment_id reason
          (payment_state payment.status)
          (reconciled (is_matched provider payment) (expected_of provider)))
    pure (is_matched provider payment)

  unfoldable pub set_user_status : ℕ → Sanction → Text → Text → Action UserStatus
  set_user_status target status reason password = do
    reauthenticate verify admin password
    found ← gets λ db. find_first (λ u. u.id == target) db.users
    before ← or_raise (not_found user_not_found) found
    raise_if (is_super_admin before.role) (forbidden cannot_modify_super_admin)
    sanction now target status
    audit (
        log_entry admin (action_of status) (text "USER") target reason
          (user_state target (some before.role) before.status)
          (user_state target none (status_of status)))
    pure (status_of status)

  unfoldable pub hide_product : ℕ → Text → Text → Action ProductStatus
  hide_product target reason password = do
    reauthenticate verify admin password
    found ← gets λ db. find_first (λ p. p.id == target) db.products
    before ← or_raise (not_found product_not_found) found
    update_product target (with_product_status ProductStatus.hidden)
    audit (
        log_entry admin (text "PRODUCT_HIDDEN") (text "PRODUCT") target reason
          (product_state target before.status) (product_state target ProductStatus.hidden))
    pure ProductStatus.hidden

  unfoldable pub resolve_report : ℕ → Verdict → Text → Text → Action ReportStatus
  resolve_report target verdict reason password = do
    reauthenticate verify admin password
    found ← gets λ db. find_first (λ r. r.id == target) db.reports
    before ← or_raise (not_found report_not_found) found
    update_report target (with_report_status (report_status_of verdict))
    audit (
        log_entry admin (verdict_action verdict) (text "REPORT") target reason
          (report_state target before.status) (report_state target (report_status_of verdict)))
    pure (report_status_of verdict)
