-- ===== src/Schema/Action.antt =====
-- What a handler does: it reads and writes the database, and it returns or throws. The state
-- comes back after a throw too, since what was written outside a transaction stays written.
pub mod Laws
use gamja_market.Base.{ℕ, Bool, true, false, Option, none, some}
use gamja_market.Base.Text.{Text}
use gamja_market.Schema.Records.{Db}

-- The exceptions that the handlers throw, by the class of the exception and the `code` in its
-- body; `p2002` and `p2025` are the database client's errors for a broken unique key and for
-- the update of a row that is not there, and `value_out_of_range` is its refusal of a number that a
-- column cannot hold.
pub data Code : Type 0 where
  product_not_available cannot_buy_own_product trade_blocked neighborhood_required : Code
  product_outside_neighborhood active_trade_exists trade_not_found product_already_reserved : Code
  escrow_payment_required payment_reversal_required : Code
  idempotency_key_required idempotency_key_reused payable_trade_not_found payment_order_exists :
      Code
  trade_product_state_mismatch order_id_mismatch payment_not_found payment_amount_mismatch : Code
  payment_not_ready payment_provider_confirmation_mismatch payment_not_reversible : Code
  payment_cancellation_not_allowed payment_cancellation_window_expired payment_refund_not_allowed :
      Code
  sandbox_payment_not_found payment_provider_unavailable payment_provider_not_configured : Code
  payout_provider_not_configured : Code
  payout_provider_status payment_provider_lookup_status : ℕ → Code
  payment_provider_rejected : Code
  rejected_with : Text → Code
  webhook_transmission_id_required webhook_signature_required webhook_timestamp_invalid : Code
  webhook_signature_invalid invalid_json : Code
  invalid_image neighborhood_not_available product_not_found product_locked_by_active_trade : Code
  invalid_cursor image_not_found chat_not_found chat_blocked cannot_chat_on_own_product : Code
  message_id_conflict cannot_block_self user_not_found report_rate_limited : Code
  report_target_not_found duplicate_report admin_reauthentication_failed : Code
  outbox_event_not_found payment_not_reconcilable cannot_modify_super_admin report_not_found : Code
  super_admin_required weak_password verification_rate_limited : Code
  contact_delivery_not_configured contact_delivery_unavailable contact_delivery_rejected : Code
  invalid_or_expired_code contact_required adult_confirmation_required : Code
  contact_already_registered login_temporarily_locked invalid_login authentication_required : Code

pub data Error : Type 0 where
  not_found conflict forbidden bad_request bad_gateway service_unavailable failure : Code → Error
  too_many_requests unauthorized : Code → Error
  p2002 p2025 value_out_of_range : Error

pub data Result (A : Type 0) : Type 0 where
  ok : A → Result A
  err : Error → Result A

abbrev pub Action : Type 0 → Type 0
Action A = Db → Result A × Db

abbrev pub Void : Type 0
Void = Unit

module _ {A : Type 0} where
  abbrev pub pure : A → Action A
  pure a db = (ok a, db)

  abbrev pub raise : Error → Action A
  raise e db = (err e, db)

  abbrev pub gets : (Db → A) → Action A
  gets f db = (ok (f db), db)

  -- `if (!row) throw e`
  abbrev pub or_raise : Error → Option A → Action A
  or_raise e none db = (err e, db)
  or_raise e (some a) db = (ok a, db)

  abbrev pub lift : Result A → Action A
  lift r db = (r, db)

  -- `prisma.$transaction(...)`: what throws is rolled back.
  abbrev pub transaction : Action A → Action A
  transaction m db = let (r, db') = m db in elim r [ ok a ↦ (ok a, db') | err e ↦ (err e, db) ]

infixl 5 ◌>>=◌ ◌>>◌
abbrev pub ◌>>=◌ : {A B : Type 0} → Action A → (A → Action B) → Action B
◌>>=◌ m f db = let (r, db') = m db in elim r [ ok a ↦ f a db' | err e ↦ (err e, db') ]

abbrev pub ◌>>◌ : {A B : Type 0} → Action A → Action B → Action B
m >> k = m >>= λ _. k

abbrev pub modify : (Db → Db) → Action Void
modify f db = (ok tt, f db)

-- `if (test) throw e`
abbrev pub raise_if : Bool → Error → Action Void
raise_if true e db = (err e, db)
raise_if false e db = (ok tt, db)
