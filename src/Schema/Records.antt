-- ===== src/Schema/Records.antt =====
-- The rows of packages/database/prisma/schema.prisma with the columns that the services read
-- or write, and the tables.
use gamja_market.Base.{ℕ, Bool, Option, List}
use gamja_market.Base.Int.{ℤ}
use gamja_market.Base.Text.{Text}
use gamja_market.Schema.Enums.{
  OutboxStatus, UserRole, UserStatus, ProductStatus, TradeStatus, PaymentStatus, SettlementStatus,
  PaymentAction, WebhookProcessingStatus, LedgerEntryType, VerificationPurpose, ReportTargetType,
  ReportStatus,
}

pub record User : Type 0 where
  pub id : ℕ
  pub email : Option Text
  pub phone : Option Text
  pub password_hash : Text
  pub role : UserRole
  pub status : UserStatus
  pub is_adult : Bool
  pub contact_verified_at : Option ℕ
  pub withdrawn_at : Option ℕ
  pub retention_until : Option ℕ
  pub neighborhood_id : Option ℕ

pub record Session : Type 0 where
  pub user_id : ℕ
  pub token_hash : ℕ
  pub expires_at : ℕ
  pub revoked_at : Option ℕ

pub record VerificationCode : Type 0 where
  pub id : ℕ
  pub user_id : Option ℕ
  pub identifier : Text
  pub purpose : VerificationPurpose
  pub code_hash : ℕ
  pub expires_at : ℕ
  pub consumed_at : Option ℕ
  pub attempts : ℕ
  pub created_at : ℕ

pub record LoginThrottle : Type 0 where
  pub identifier_hash : ℕ
  pub failed_count : ℕ
  pub first_failed_at : ℕ
  pub locked_until : Option ℕ

pub record Neighborhood : Type 0 where
  pub id : ℕ
  pub code : Text
  pub name : Text

pub record NeighborhoodLink : Type 0 where
  pub from_id : ℕ
  pub to_id : ℕ

pub record Product : Type 0 where
  pub id : ℕ
  pub author_id : ℕ
  pub neighborhood_id : ℕ
  pub title : Text
  pub description : Text
  pub price_krw : ℕ
  pub category : Text
  pub status : ProductStatus
  pub created_at : ℕ

pub record ProductImage : Type 0 where
  pub id : ℕ
  pub product_id : ℕ
  pub mime_type : Text
  pub byte_size : ℕ
  pub alt_text : Text
  pub bytes : List ℕ
  pub position : ℕ

pub record Trade : Type 0 where
  pub id : ℕ
  pub product_id : ℕ
  pub buyer_id : ℕ
  pub seller_id : ℕ
  pub price_krw : ℕ
  pub status : TradeStatus
  pub rejected_at : Option ℕ
  pub delivered_at : Option ℕ
  pub auto_confirm_at : Option ℕ
  pub confirmed_at : Option ℕ
  pub disputed_at : Option ℕ
  pub cancelled_at : Option ℕ
  pub reason : Option Text
  pub updated_at : ℕ

pub record TradeHistory : Type 0 where
  pub trade_id : ℕ
  pub actor_id : Option ℕ
  pub from_status : Option TradeStatus
  pub to_status : TradeStatus
  pub reason : Option Text

pub record Payment : Type 0 where
  pub id : ℕ
  pub trade_id : ℕ
  pub order_id : ℕ
  pub payment_key : Option Text
  pub amount_krw : ℕ
  pub status : PaymentStatus
  pub settlement_status : SettlementStatus
  pub method_masked : Option Text
  pub last_webhook_sequence : ℤ
  pub approved_at : Option ℕ
  pub cancelled_at : Option ℕ
  pub refunded_at : Option ℕ
  pub settlement_available_at : Option ℕ
  pub settled_at : Option ℕ
  pub reconciliation_checked_at : Option ℕ
  pub failure_code : Option Text

pub record LedgerEntry : Type 0 where
  pub transaction_id : ℕ
  pub payment_id : ℕ
  pub trade_id : ℕ
  pub entry_type : LedgerEntryType
  pub reason : Text
  pub amount_krw : ℤ

-- `StoredResponse` of apps/api/src/payments/payment.service.ts: what `serialize` makes of a
-- payment. A time stays the number that `toISOString` renders.
pub record StoredResponse : Type 0 where
  pub id : ℕ
  pub trade_id : ℕ
  pub order_id : ℕ
  pub payment_key : Option Text
  pub amount_krw : Text
  pub status : PaymentStatus
  pub settlement_status : SettlementStatus
  pub method_masked : Option Text
  pub approved_at : Option ℕ
  pub cancelled_at : Option ℕ
  pub refunded_at : Option ℕ
  pub settlement_available_at : Option ℕ
  pub settled_at : Option ℕ
  pub failure_code : Option Text

pub record PaymentOperation : Type 0 where
  pub payment_id : ℕ
  pub idempotency_key : Text
  pub action : PaymentAction
  pub request_hash : ℕ
  pub response : StoredResponse

pub record PaymentWebhook : Type 0 where
  pub id : ℕ
  pub payment_id : Option ℕ
  pub transmission_id : Text
  pub event_type : Text
  pub event_status : Text
  pub sequence : ℤ
  pub raw_body : Text
  pub processing_status : WebhookProcessingStatus
  pub failure_code : Option Text
  pub processed_at : Option ℕ

-- The `payload` is the id of the aggregate once more.
pub record OutboxEvent : Type 0 where
  pub id : ℕ
  pub type : Text
  pub aggregate_id : ℕ
  pub status : OutboxStatus
  pub attempts : ℕ
  pub available_at : ℕ
  pub claimed_at : Option ℕ
  pub last_error : Option Text
  pub occurred_at : ℕ
  pub processed_at : Option ℕ

-- The statuses that `before` and `after` keep.
pub data Snapshot : Type 0 where
  user_state : (id : ℕ) (role : Option UserRole) (status : UserStatus) → Snapshot
  product_state : (id : ℕ) (status : ProductStatus) → Snapshot
  report_state : (id : ℕ) (status : ReportStatus) → Snapshot
  payment_state : PaymentStatus → Snapshot
  outbox_state : OutboxStatus → Snapshot
  reconciled : (matched : Bool) (provider : Option PaymentStatus) → Snapshot

pub record AuditLog : Type 0 where
  pub actor_id : Option ℕ
  pub action : Text
  pub target_type : Text
  pub target_id : ℕ
  pub reason : Option Text
  pub before : Option Snapshot
  pub after : Option Snapshot

pub record Block : Type 0 where
  pub blocker_id : ℕ
  pub blocked_id : ℕ
  pub created_at : ℕ

pub record Report : Type 0 where
  pub id : ℕ
  pub reporter_id : ℕ
  pub target_type : ReportTargetType
  pub target_id : ℕ
  pub reason : Text
  pub detail : Option Text
  pub status : ReportStatus
  pub created_at : ℕ

pub record ChatRoom : Type 0 where
  pub id : ℕ
  pub product_id : ℕ
  pub buyer_id : ℕ
  pub seller_id : ℕ
  pub updated_at : ℕ

pub record ChatParticipant : Type 0 where
  pub chat_room_id : ℕ
  pub user_id : ℕ
  pub last_read_at : Option ℕ

pub record ChatMessage : Type 0 where
  pub id : ℕ
  pub chat_room_id : ℕ
  pub author_id : ℕ
  pub body : Text
  pub created_at : ℕ

pub record Db : Type 0 where
  pub users : List User
  pub sessions : List Session
  pub codes : List VerificationCode
  pub throttles : List LoginThrottle
  pub neighborhoods : List Neighborhood
  pub links : List NeighborhoodLink
  pub products : List Product
  pub images : List ProductImage
  pub trades : List Trade
  pub histories : List TradeHistory
  pub payments : List Payment
  pub ledger : List LedgerEntry
  pub operations : List PaymentOperation
  pub webhooks : List PaymentWebhook
  pub outbox : List OutboxEvent
  pub audit_logs : List AuditLog
  pub blocks : List Block
  pub reports : List Report
  pub rooms : List ChatRoom
  pub participants : List ChatParticipant
  pub messages : List ChatMessage
