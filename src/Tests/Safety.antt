-- ===== src/Tests/Safety.antt =====
-- The theorems on blocks, reports and the automatic confirmations at the small market.
use gamja_market.Base.{ℕ, ◌≡◌, refl, true, none, [], ◌∷◌, List, is_some, if◌then◌else◌}
use gamja_market.Base.Text.{text}
use gamja_market.Schema.{UserRole, UserStatus, ReportTargetType, TradeStatus, User, Db, find_first}
use gamja_market.Schema.Action.{ok}
use gamja_market.Safety.{
  SafetyRelationshipChange, blocked, unblocked, is_blocked, is_block, block, unblock, upsert_block,
  ReportInput, new_report,
}
use gamja_market.Safety.Blocks.{block-is_blocked, unblock-is_blocked}
use gamja_market.Trades.Reads.{process_due_auto_confirmations}
use gamja_market.Worker.TradeMaintenance.{confirm_due_trades, is_due}
use gamja_market.Worker.Drained.{confirm_due_trades-drained}
use gamja_market.Worker.Repeated.{process_due_auto_confirmations-confirm_due_trades}
use gamja_market.Tests.Data.{reserved_market, paid_market}

abbrev pub a_user : ℕ → User
a_user id = record {
  id = id;
  email = none;
  phone = none;
  password_hash = [];
  role = UserRole.user;
  status = UserStatus.active;
  is_adult = true;
  contact_verified_at = none;
  withdrawn_at = none;
  retention_until = none;
  neighborhood_id = none;
}

-- A market with two users.
abbrev two_users : Db
two_users = record reserved_market { users = a_user 1 ∷ a_user 2 ∷ [] }

abbrev one_block : Db
one_block = record two_users {
  blocks = record { blocker_id = 1; blocked_id = 2; created_at = 6 } ∷ [];
}

abbrev block_answer : ℕ × List SafetyRelationshipChange
block_answer = (2, blocked 1 2 ∷ [])

user_blocked : block 6 1 2 two_users ≡ (ok (2, blocked 1 2 ∷ []), one_block)
unfolding block upsert_block find_first
user_blocked = refl

block-is_blocked_example :
    (is_blocked 1 2 one_block ≡ true)
    × (is_blocked 2 1 one_block ≡ true)
    × (block_answer ≡ (2, blocked 1 2 ∷ []))
    × (block 8 1 2 one_block ≡ (ok block_answer, one_block))
block-is_blocked_example = block-is_blocked 6 8 1 2 two_users one_block block_answer user_blocked

unblock-is_blocked_example :
    let r = unblock 1 2 one_block in
    (r.0
      ≡ ok (
        2,
        if is_some (find_first (is_block 1 2) one_block.blocks) then unblocked 1 2 ∷ [] else [],
      ))
    × (find_first (is_block 1 2) r.1.blocks ≡ none)
    × (is_blocked 1 2 r.1 ≡ is_some (find_first (is_block 2 1) one_block.blocks))
unblock-is_blocked_example = unblock-is_blocked 1 2 one_block refl

abbrev a_report : ReportInput
a_report = record {
  target_type = ReportTargetType.user;
  target_id = 2;
  reason = text "spam";
  detail = none;
}

abbrev one_report : Db
one_report = record two_users { reports = new_report 6 30 1 a_report ∷ [] }

confirm_due_trades-drained_example :
    (n : ℕ) × ((confirm_due_trades 100 (paid_market TradeStatus.delivered)).0 ≡ ok n)
    × (find_first (is_due 100) (confirm_due_trades 100 (paid_market TradeStatus.delivered)).1.trades
        ≡ none)
unfolding find_first
confirm_due_trades-drained_example =
    confirm_due_trades-drained 100 (paid_market TradeStatus.delivered) (refl, tt)

process_due_auto_confirmations-confirm_due_trades_example :
    process_due_auto_confirmations 100 (paid_market TradeStatus.delivered)
    ≡ confirm_due_trades 100 (paid_market TradeStatus.delivered)
process_due_auto_confirmations-confirm_due_trades_example =
    process_due_auto_confirmations-confirm_due_trades 100 (paid_market TradeStatus.delivered)
