-- ===== src/Worker/Repeated.antt =====
-- The API has a copy of the loop of the worker: `processDueAutoConfirmations` of
-- apps/api/src/trades/trade.service.ts beside `confirmDueTrades` of
-- apps/worker/src/trade-maintenance.ts.
use gamja_market.Base.{ℕ, suc, ◌≡◌, refl, List, [], ◌∷◌, ◌==◌, inl, inr, Bool-cases, if◌then◌else◌}
use gamja_market.Schema.{Trade, Db}
use gamja_market.Schema.Action.Laws.{transaction-same, bind-same}
use gamja_market.Trades.Reads.{
  complete_auto_confirmation, auto_confirm, auto_confirm_loop, process_due_auto_confirmations,
}
use gamja_market.Worker.TradeMaintenance.{
  complete_confirmation, confirm_due_trade, confirm_loop, confirm_due_trades,
}

complete_same :
    (now n : ℕ) (trade : Trade) (db : Db)
    → complete_auto_confirmation now trade n db ≡ complete_confirmation now trade n db
unfolding complete_auto_confirmation complete_confirmation
complete_same now n trade db = elim (Bool-cases (n == 1)) [ inl e ↦ rw e refl | inr e ↦ rw e refl ]

round_same :
    (now : ℕ) (trade : Trade) (db : Db) → auto_confirm now trade db ≡ confirm_due_trade now trade db
unfolding auto_confirm confirm_due_trade
round_same now trade = transaction-same (bind-same (λ d. refl) (λ n d. complete_same now n trade d))

loop_same :
    (now : ℕ) (due : List Trade) (n : ℕ) (db : Db)
    → auto_confirm_loop now due n db ≡ confirm_loop now due n db
unfolding auto_confirm_loop confirm_loop
loop_same now [] n db = refl
loop_same now (trade ∷ due) n db =
    bind-same (round_same now trade)
      (λ changed d. loop_same now due (if changed then suc n else n) d) db

-- The automatic confirmation of the API and that of the worker are the same function: on every database,
-- they return or throw the same and leave the same rows.
pub process_due_auto_confirmations-confirm_due_trades :
    (now : ℕ) (db : Db) → process_due_auto_confirmations now db ≡ confirm_due_trades now db
unfolding process_due_auto_confirmations confirm_due_trades
process_due_auto_confirmations-confirm_due_trades now db = loop_same now _ 0 db
