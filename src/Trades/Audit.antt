-- ===== src/Trades/Audit.antt =====
-- The history of the trades: the current status is derived from it, and it runs along the
-- transitions of docs/baseline/domain-state-model.md.
pub mod Tables
pub mod Methods
use gamja_market.Base.{ℕ, ◌≡◌, Bool, true, false, Option, none, some, List, [], ◌∷◌, ◌==◌}
use gamja_market.Schema.{TradeStatus, Trade, TradeHistory, Db, find_first}
use gamja_market.Schema.Rows.Laws.{has_key, HasUniqueKeys}

-- The status of the trade with an id.
abbrev pub current : ℕ → List Trade → Option TradeStatus
current k ts = elim (find_first (has_key (λ t. t.id) k) ts) [ none ↦ none | some t ↦ some t.status ]

-- The status that the newest history row of a trade names.
abbrev pub recorded : ℕ → List TradeHistory → Option TradeStatus
recorded k hs = elim (find_first (has_key (λ h. h.trade_id) k) hs) [
  | none ↦ none
  | some h ↦ some h.to_status
]

-- The transitions of a trade.
abbrev pub is_transition : Option TradeStatus → TradeStatus → Bool
is_transition none TradeStatus.requested = true
is_transition (some TradeStatus.requested) TradeStatus.accepted = true
is_transition (some TradeStatus.requested) TradeStatus.rejected = true
is_transition (some TradeStatus.requested) TradeStatus.cancelled = true
is_transition (some TradeStatus.accepted) TradeStatus.delivered = true
is_transition (some TradeStatus.accepted) TradeStatus.disputed = true
is_transition (some TradeStatus.accepted) TradeStatus.cancelled = true
is_transition (some TradeStatus.delivered) TradeStatus.confirmed = true
is_transition (some TradeStatus.delivered) TradeStatus.disputed = true
is_transition (some TradeStatus.confirmed) TradeStatus.disputed = true
is_transition _ _ = false

-- Every row starts at the status that the row before it, for the same trade, has reached, and
-- goes along a transition.
abbrev pub IsTrail : List TradeHistory → Type 0
IsTrail [] = Unit
IsTrail (h ∷ hs) =
    (h.from_status ≡ recorded h.trade_id hs)
    × (is_transition h.from_status h.to_status ≡ true)
    × IsTrail hs

pub record IsAudited (trades : List Trade) (histories : List TradeHistory) : Type 0 where
  pub keys : HasUniqueKeys (λ t. t.id) trades
  pub derived : (k : ℕ) → current k trades ≡ recorded k histories
  pub trail : IsTrail histories

abbrev pub HasAudit : Db → Type 0
HasAudit db = IsAudited db.trades db.histories
