-- ===== src/Worker/Drained.antt =====
-- What `confirmDueTrades` of apps/worker/src/trade-maintenance.ts leaves.
use gamja_market.Base.{
  ℕ, suc, ◌≤◌, ◌≡◌, refl, ◌∙◌, is_some, Bool, true, false, ◌&&◌, none, some, List, [], ◌∷◌, arith,
  ◌==◌, inl, inr, Bool-cases, Option-cases, if◌then◌else◌,
}
use gamja_market.Schema.{Trade, Db, find_first, find_many, update_many, count}
use gamja_market.Schema.Action.{ok}
use gamja_market.Schema.Action.Laws.{bind-ok}
use gamja_market.Schema.Tables.{
  touch, update_trades, update_product, update_payments, create_history,
}
use gamja_market.Schema.Rows.Laws.{
  find_first-update_many, has_key, count-update_clear, count-update_le,
}
use gamja_market.Trades.Transitions.{as_sold, as_confirmed}
use gamja_market.Worker.TradeMaintenance.{
  is_due, complete_confirmation, confirm_due_trade, confirm_loop, confirm_due_trades,
}

-- The due trades with an id.
abbrev is_due_at : ℕ → ℕ → Trade → Bool
is_due_at now k t = t.id == k && is_due now t

complete_confirmation-trades :
    (now n : ℕ) (trade : Trade) (db : Db)
    → (complete_confirmation now trade n db).1.trades ≡ db.trades
unfolding complete_confirmation update_product update_payments create_history
complete_confirmation-trades now n trade db = ground arith

-- What a round of the loop that does not throw does to the trades.
round-trades :
    (now : ℕ) (trade : Trade) (db : Db) (b : Bool)
    → (confirm_due_trade now trade db).0 ≡ ok b
    → (confirm_due_trade now trade db).1.trades
      ≡ update_many (is_due_at now trade.id) (λ r. touch now (as_confirmed now r)) db.trades
unfolding confirm_due_trade update_trades
round-trades now trade db b h =
    let d = record db {
      trades = update_many (is_due_at now trade.id) (λ r. touch now (as_confirmed now r)) db.trades;
    } in
    ground
      (arith, complete_confirmation-trades now (count (is_due_at now trade.id) db.trades) trade d)

-- The product of each trade has its row, as a foreign key says.
abbrev has_product : ℕ → Db → Bool
has_product k db = is_some (find_first (has_key (λ p. p.id) k) db.products)

abbrev pub HasProducts : List Trade → Db → Type 0
HasProducts [] db = Unit
HasProducts (t ∷ ts) db = (has_product t.product_id db ≡ true) × HasProducts ts db

complete_confirmation-ok :
    (now n : ℕ) (trade : Trade) (db : Db)
    → has_product trade.product_id db ≡ true
    → (b : Bool) × ((complete_confirmation now trade n db).0 ≡ ok b)
      × ((k : ℕ) → has_product k (complete_confirmation now trade n db).1 ≡ has_product k db)
unfolding complete_confirmation update_product update_payments create_history
complete_confirmation-ok now n trade db h = elim (Bool-cases (n == 1)) [
  | inl e ↦ elim (Option-cases (find_first (λ p. p.id == trade.product_id) db.products)) [
    | inl a ↦ absurd (ground arith)
    | inr (p, a) ↦ (
      true,
      ground arith,
      λ k. ground (
        arith,
        find_first-update_many (λ p. p.id) k (λ p. p.id == trade.product_id) as_sold db.products
            (λ r. refl),
      ),
    )
  ]
  | inr e ↦ (false, ground arith, λ k. ground arith)
]

round-ok :
    (now : ℕ) (trade : Trade) (db : Db)
    → has_product trade.product_id db ≡ true
    → (b : Bool) × ((confirm_due_trade now trade db).0 ≡ ok b)
      × ((k : ℕ) → has_product k (confirm_due_trade now trade db).1 ≡ has_product k db)
unfolding confirm_due_trade update_trades
round-ok now trade db h =
    let d = record db {
      trades = update_many (is_due_at now trade.id) (λ r. touch now (as_confirmed now r)) db.trades;
    } in
    let (b, r, k) =
      complete_confirmation-ok now (count (is_due_at now trade.id) db.trades) trade d h in
    (b, ground (arith, r), λ j. ground (arith, r, k j))

HasProducts-same :
    (ts : List Trade) (db db' : Db)
    → ((k : ℕ) → has_product k db' ≡ has_product k db)
    → HasProducts ts db
    → HasProducts ts db'
HasProducts-same [] db db' s h = tt
HasProducts-same (t ∷ ts) db db' s h = (s t.product_id ∙ h.0, HasProducts-same ts db db' s h.1)

-- Every due trade is still to come in the loop.
abbrev Covers : ℕ → List Trade → Db → Type 0
Covers now due db = (k : ℕ) → count (is_due_at now k) db.trades ≤ count (has_key (λ t. t.id) k) due

Covers-round :
    (now : ℕ) (trade : Trade) (due : List Trade) (db : Db) (b : Bool)
    → Covers now (trade ∷ due) db
    → (confirm_due_trade now trade db).0 ≡ ok b
    → Covers now due (confirm_due_trade now trade db).1
unfolding count
Covers-round now trade due db b c r k = elim (Bool-cases (trade.id == k)) [
  | inl e ↦ rw (round-trades now trade db b r) (
      ground (
        arith,
        e,
        count-update_clear (is_due_at now k) (is_due_at now trade.id)
            (λ r. touch now (as_confirmed now r)) db.trades (λ r q. ground arith)
            (λ r q. ground arith),
      ))
  | inr e ↦ rw (round-trades now trade db b r) (
      ground (
        arith,
        e,
        c k,
        count-update_le (is_due_at now k) (is_due_at now trade.id)
            (λ r. touch now (as_confirmed now r)) db.trades (λ r. ground arith),
      ))
]

confirm_loop-Covers :
    (now : ℕ) (due : List Trade) (confirmed : ℕ) (db : Db)
    → Covers now due db
    → HasProducts due db
    → (n : ℕ) × ((confirm_loop now due confirmed db).0 ≡ ok n)
      × Covers now [] (confirm_loop now due confirmed db).1
unfolding confirm_loop
confirm_loop-Covers now [] confirmed db c h = (confirmed, refl, c)
confirm_loop-Covers now (trade ∷ due) confirmed db c h =
    let (b, r, same) = round-ok now trade db h.0 in
    let db' = (confirm_due_trade now trade db).1 in
    let (n, e, k) =
      confirm_loop-Covers now due (if b then suc confirmed else confirmed) db'
        (Covers-round now trade due db b c r) (HasProducts-same due db db' same h.1) in
    rw
      (bind-ok (confirm_due_trade now trade)
        (λ changed. confirm_loop now due (if changed then suc confirmed else confirmed)) db b r)
      (n, e, k)

due_rows-covered :
    (now k : ℕ) (ts : List Trade)
    → count (is_due_at now k) ts ≤ count (has_key (λ t. t.id) k) (find_many (is_due now) ts)
unfolding count find_many
due_rows-covered now k [] = omega arith
due_rows-covered now k (t ∷ ts) = ground (arith, due_rows-covered now k ts)

due_row-counted :
    (now : ℕ) (ts : List Trade) (t : Trade)
    → find_first (is_due now) ts ≡ some t
    → 1 ≤ count (is_due_at now t.id) ts
unfolding count find_first
due_row-counted now [] t h = ground arith
due_row-counted now (x ∷ ts) t h = ground (arith, due_row-counted now ts t)

HasProducts-due :
    (now : ℕ) (ts : List Trade) (db : Db)
    → HasProducts ts db
    → HasProducts (find_many (is_due now) ts) db
unfolding find_many
HasProducts-due now [] db h = tt
HasProducts-due now (t ∷ ts) db h = elim (Bool-cases (is_due now t)) [
  | inl e ↦ rw e (h.0, HasProducts-due now ts db h.1)
  | inr e ↦ rw e (HasProducts-due now ts db h.1)
]

-- When each trade has its product, `confirmDueTrades` does not throw, and no trade that is delivered
-- and whose time has come is left.
pub confirm_due_trades-drained :
    (now : ℕ) (db : Db)
    → HasProducts db.trades db
    → (n : ℕ) × ((confirm_due_trades now db).0 ≡ ok n)
      × (find_first (is_due now) (confirm_due_trades now db).1.trades ≡ none)
unfolding confirm_due_trades count
confirm_due_trades-drained now db h =
    let due = find_many (is_due now) db.trades in
    let (n, e, c) =
      confirm_loop-Covers now due 0 db (λ k. due_rows-covered now k db.trades)
        (HasProducts-due now db.trades db h) in
    let ts = (confirm_loop now due 0 db).1.trades in
    (
      n,
      e,
      elim (Option-cases (find_first (is_due now) ts)) [
        | inl none_left ↦ none_left
        | inr (t, found) ↦
            let one : 1 ≤ count (is_due_at now t.id) ts = due_row-counted now ts t found in
            absurd (ground (arith, one, c t.id))
      ],
    )
