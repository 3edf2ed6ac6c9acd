-- ===== src/Schema/Enums.antt =====
-- The enums of packages/database/prisma/schema.prisma, and the tests on them that the
-- services make.
use gamja_market.Base.{ℕ, Bool, true, false, ◌==◌}

pub data OutboxStatus : Type 0 where
  pending processing processed failed dead_letter : OutboxStatus

pub data UserRole : Type 0 where
  user super_admin : UserRole

pub data UserStatus : Type 0 where
  pending active suspended withdrawn : UserStatus

pub data ProductStatus : Type 0 where
  active reserved sold hidden deleted : ProductStatus

pub data TradeStatus : Type 0 where
  requested accepted rejected delivered confirmed disputed cancelled : TradeStatus

pub data PaymentStatus : Type 0 where
  ready approved unconfirmed failed cancel_pending cancelled refund_pending refunded : PaymentStatus

pub data SettlementStatus : Type 0 where
  hold paused ready processing settled failed sandbox_settled : SettlementStatus

pub data PaymentAction : Type 0 where
  create_order confirm cancel refund : PaymentAction

pub data WebhookProcessingStatus : Type 0 where
  received processed ignored failed : WebhookProcessingStatus

pub data LedgerEntryType : Type 0 where
  escrow_capture cancellation refund settlement adjustment : LedgerEntryType

pub data VerificationPurpose : Type 0 where
  contact_verification password_reset : VerificationPurpose

pub data ReportTargetType : Type 0 where
  user product message : ReportTargetType

pub data ReportStatus : Type 0 where
  received reviewing resolved dismissed : ReportStatus

abbrev pub is_active : ProductStatus → Bool
is_active ProductStatus.active = true
is_active _ = false

abbrev pub is_reserved : ProductStatus → Bool
is_reserved ProductStatus.reserved = true
is_reserved _ = false

abbrev pub is_requested : TradeStatus → Bool
is_requested TradeStatus.requested = true
is_requested _ = false

abbrev pub is_accepted : TradeStatus → Bool
is_accepted TradeStatus.accepted = true
is_accepted _ = false

abbrev pub is_delivered : TradeStatus → Bool
is_delivered TradeStatus.delivered = true
is_delivered _ = false

abbrev pub is_confirmed : TradeStatus → Bool
is_confirmed TradeStatus.confirmed = true
is_confirmed _ = false

abbrev pub is_disputed : TradeStatus → Bool
is_disputed TradeStatus.disputed = true
is_disputed _ = false

abbrev pub is_approved : PaymentStatus → Bool
is_approved PaymentStatus.approved = true
is_approved _ = false

abbrev pub is_ready : PaymentStatus → Bool
is_ready PaymentStatus.ready = true
is_ready _ = false

-- `a === b`
abbrev pub same_action : PaymentAction → PaymentAction → Bool
same_action PaymentAction.create_order PaymentAction.create_order = true
same_action PaymentAction.confirm PaymentAction.confirm = true
same_action PaymentAction.cancel PaymentAction.cancel = true
same_action PaymentAction.refund PaymentAction.refund = true
same_action _ _ = false

-- `a === b` of two statuses of a payment
abbrev pub payment_rank : PaymentStatus → ℕ
payment_rank PaymentStatus.ready = 0
payment_rank PaymentStatus.approved = 1
payment_rank PaymentStatus.unconfirmed = 2
payment_rank PaymentStatus.failed = 3
payment_rank PaymentStatus.cancel_pending = 4
payment_rank PaymentStatus.cancelled = 5
payment_rank PaymentStatus.refund_pending = 6
payment_rank PaymentStatus.refunded = 7

abbrev pub same_payment_status : PaymentStatus → PaymentStatus → Bool
same_payment_status a b = payment_rank a == payment_rank b

abbrev pub same_entry : LedgerEntryType → LedgerEntryType → Bool
same_entry LedgerEntryType.escrow_capture LedgerEntryType.escrow_capture = true
same_entry LedgerEntryType.cancellation LedgerEntryType.cancellation = true
same_entry LedgerEntryType.refund LedgerEntryType.refund = true
same_entry LedgerEntryType.settlement LedgerEntryType.settlement = true
same_entry LedgerEntryType.adjustment LedgerEntryType.adjustment = true
same_entry _ _ = false
