-- ===== src/Payments/Escrow.antt =====
-- The escrow: what the ledger holds for a payment is what its row says.
pub mod Tables
pub mod Methods
pub mod Trades
use gamja_market.Base.{
  ℕ, ◌+◌, ◌≡◌, Bool, true, false, ◌&&◌, not, Option, none, some, List, [], ◌∷◌, ◌==◌, is_some,
  if◌then◌else◌,
}
use gamja_market.Base.Int.{ℤ, pos, sub_ℕ, ◌+ℤ◌}
use gamja_market.Schema.{PaymentStatus, Payment, LedgerEntry, Db, find_first}
use gamja_market.Schema.Rows.Laws.{has_key, HasUniqueKeys}

-- The sum of the ledger entries of a payment.
unfoldable pub balance : ℕ → List LedgerEntry → ℤ
balance k [] = pos 0
balance k (l ∷ ls) =
    let rest = balance k ls in if l.payment_id == k then l.amount_krw +ℤ rest else rest

abbrev pub is_reversed : PaymentStatus → Bool
is_reversed PaymentStatus.cancelled = true
is_reversed PaymentStatus.refunded = true
is_reversed _ = false

abbrev pub amount_if : Bool → Payment → ℕ
amount_if b p = if b then p.amount_krw else 0

-- What a row says: its amount is held once it was approved, less the amount when it was
-- reversed, less the amount when it was settled.
abbrev pub expected : Payment → ℤ
expected p = sub_ℕ (amount_if (is_some p.approved_at) p) (
    amount_if (is_some p.approved_at && is_reversed p.status) p
    + amount_if (is_some p.settled_at) p)

-- The status of a row and its times agree.
abbrev pub is_consistent : PaymentStatus → Bool → Bool → Bool
is_consistent PaymentStatus.approved approved settled = approved
is_consistent PaymentStatus.refunded approved settled = approved
is_consistent PaymentStatus.ready approved settled = not approved && not settled
is_consistent PaymentStatus.unconfirmed approved settled = not approved && not settled
is_consistent PaymentStatus.failed approved settled = not approved && not settled
is_consistent _ approved settled = true

abbrev pub IsConsistent : Payment → Type 0
IsConsistent p = is_consistent p.status (is_some p.approved_at) (is_some p.settled_at) ≡ true

abbrev pub Accounted : ℕ → Option Payment → List LedgerEntry → Type 0
Accounted k none ledger = balance k ledger ≡ pos 0
Accounted k (some p) ledger = (balance k ledger ≡ expected p) × IsConsistent p

pub record IsEscrowed (payments : List Payment) (ledger : List LedgerEntry) : Type 0 where
  pub keys : HasUniqueKeys (λ p. p.id) payments
  pub accounted : (k : ℕ) → Accounted k (find_first (has_key (λ p. p.id) k) payments) ledger

abbrev pub HasEscrow : Db → Type 0
HasEscrow db = IsEscrowed db.payments db.ledger
