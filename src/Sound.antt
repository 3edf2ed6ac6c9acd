-- ===== src/Sound.antt =====
-- What holds of the database between the transactions.
use gamja_market.Schema.{Db}
use gamja_market.Trades.Exclusive.{IsReserved}
use gamja_market.Trades.Audit.{HasAudit}
use gamja_market.Payments.Escrow.{HasEscrow}

-- The three invariants of the trades, the products, the history, the payments and the ledger.
pub record IsSound (db : Db) : Type 0 where
  pub reserved : IsReserved db
  pub audited : HasAudit db
  pub escrowed : HasEscrow db
