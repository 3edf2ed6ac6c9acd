-- ===== src/Safety.antt =====
-- apps/api/src/safety/safety.service.ts: blocks and reports.
pub mod Blocks
pub mod Reports
use gamja_market.Base.{
  ℕ, ◌+◌, ◌*◌, Bool, true, false, ◌&&◌, ◌||◌, not, Option, none, some, List, [], ◌∷◌, map, ◌==◌,
  leb, ltb, is_some, if◌then◌else◌,
}
use gamja_market.Base.Text.{Text, text, trim, to_string}
use gamja_market.Schema.{
  ReportTargetType, ReportStatus, Block, Report, ChatMessage, Db, find_first, find_many, sort_by,
  count, delete_many,
}
use gamja_market.Schema.Action.{
  Action, Void, Result, ok, err, pure, gets, or_raise, raise_if, modify, ◌>>=◌, ◌>>◌, bad_request,
  not_found, conflict, too_many_requests, p2002, cannot_block_self, user_not_found,
  report_rate_limited, report_target_not_found, duplicate_report,
}

-- `isBlocked`: a block in either direction.
unfoldable pub is_blocked : ℕ → ℕ → Db → Bool
is_blocked first second db = is_some (
    find_first
      (λ b.
        (b.blocker_id == first && b.blocked_id == second)
        || (b.blocker_id == second && b.blocked_id == first))
      db.blocks)

-- `SafetyRelationshipChange`: what the listeners are told; here it is part of the answer.
pub data SafetyRelationshipChange : Type 0 where
  blocked unblocked : (user other : ℕ) → SafetyRelationshipChange

abbrev pub is_block : ℕ → ℕ → Block → Bool
is_block blocker_id blocked_id b = b.blocker_id == blocker_id && b.blocked_id == blocked_id

-- `prisma.block.upsert({ where: { blockerId_blockedId }, create, update: {} })`
unfoldable pub upsert_block : ℕ → ℕ → ℕ → Action Void
upsert_block now blocker_id blocked_id db =
    elim (find_first (is_block blocker_id blocked_id) db.blocks) [
      | some b ↦ (ok tt, db)
      | none ↦ (
        ok tt,
        record db {
          blocks =
              record { blocker_id = blocker_id; blocked_id = blocked_id; created_at = now }
              ∷ db.blocks;
        },
      )
    ]

unfoldable pub block : ℕ → ℕ → ℕ → Action (ℕ × List SafetyRelationshipChange)
block now user blocked_id = do
  raise_if (user == blocked_id) (bad_request cannot_block_self)
  found ← gets λ db. find_first (λ u. u.id == blocked_id) db.users
  target ← or_raise (not_found user_not_found) found
  upsert_block now user blocked_id
  pure (blocked_id, blocked user blocked_id ∷ [])

unfoldable pub unblock : ℕ → ℕ → Action (ℕ × List SafetyRelationshipChange)
unblock user blocked_id db =
    let deleted = count (is_block user blocked_id) db.blocks in
    (
      ok (blocked_id, if ltb 0 deleted then unblocked user blocked_id ∷ [] else []),
      record db { blocks = delete_many (is_block user blocked_id) db.blocks },
    )

abbrev pub is_newer_block : Block → Block → Bool
is_newer_block a b = leb b.created_at a.created_at

-- The display name, which is made of the id, is left out.
unfoldable pub list_blocks : ℕ → Action (List (ℕ × ℕ))
list_blocks user = gets λ db.
    map (λ b. (b.blocked_id, b.created_at))
      (sort_by is_newer_block (find_many (λ b. b.blocker_id == user) db.blocks))

-- `REPORT_WINDOW_MS` and `REPORT_LIMIT`
abbrev pub report_window_ms : ℕ
report_window_ms = 60000

abbrev pub report_limit : ℕ
report_limit = 5

-- `createdAt: { gte: Date.now() - REPORT_WINDOW_MS }`, with the window on the other side
abbrev pub is_recent_report : ℕ → ℕ → Report → Bool
is_recent_report now user r = r.reporter_id == user && leb now (r.created_at + report_window_ms)

-- `chatRoom: { participants: { some: { userId } } }`
abbrev pub is_readable_message : ℕ → ℕ → Db → ChatMessage → Bool
is_readable_message id user db m =
    m.id == id
    && is_some
        (find_first (λ p. p.chat_room_id == m.chat_room_id && p.user_id == user) db.participants)

-- Whether the target of a report is there.
unfoldable pub is_target : ReportTargetType → ℕ → ℕ → Db → Bool
is_target ReportTargetType.user id user db = is_some (find_first (λ u. u.id == id) db.users)
is_target ReportTargetType.product id user db = is_some (find_first (λ p. p.id == id) db.products)
is_target ReportTargetType.message id user db =
    is_some (find_first (is_readable_message id user db) db.messages)

pub record ReportInput : Type 0 where
  pub target_type : ReportTargetType
  pub target_id : ℕ
  pub reason : Text
  pub detail : Option Text

-- `...(input.detail ? { detail: input.detail.trim() } : {})`
abbrev pub trimmed_detail : Option Text → Option Text
trimmed_detail none = none
trimmed_detail (some []) = none
trimmed_detail (some (c ∷ cs)) = some (trim (c ∷ cs))

abbrev pub new_report : ℕ → ℕ → ℕ → ReportInput → Report
new_report now id user input = record {
  id = id;
  reporter_id = user;
  target_type = input.target_type;
  target_id = input.target_id;
  reason = trim input.reason;
  detail = trimmed_detail input.detail;
  status = ReportStatus.received;
  created_at = now;
}

abbrev pub target_rank : ReportTargetType → ℕ
target_rank ReportTargetType.user = 0
target_rank ReportTargetType.product = 1
target_rank ReportTargetType.message = 2

-- `@@unique([reporterId, targetType, targetId])`
abbrev pub is_same_report : Report → Report → Bool
is_same_report r s =
    r.reporter_id == s.reporter_id
    && (target_rank r.target_type == target_rank s.target_type && r.target_id == s.target_id)

-- `prisma.report.create`: a broken unique key is caught, and says that the report is there.
unfoldable pub create_report : Report → Action Report
create_report r db = elim (find_first (λ s. s.id == r.id || is_same_report s r) db.reports) [
  | some s ↦ (err (conflict duplicate_report), db)
  | none ↦ (ok r, record db { reports = r ∷ db.reports })
]

unfoldable pub report : ℕ → ℕ → ℕ → ReportInput → Action Report
report now id user input = do
  recent_reports ← gets λ db. count (is_recent_report now user) db.reports
  raise_if (leb report_limit recent_reports) (too_many_requests report_rate_limited)
  valid ← gets (is_target input.target_type input.target_id user)
  raise_if (not valid) (not_found report_target_not_found)
  create_report (new_report now id user input)

abbrev pub is_newer_report : Report → Report → Bool
is_newer_report a b = leb b.created_at a.created_at

-- The rows as they are: the answer leaves out the reporter and the detail.
unfoldable pub reports : ℕ → Action (List Report)
reports user =
    gets λ db. sort_by is_newer_report (find_many (λ r. r.reporter_id == user) db.reports)
