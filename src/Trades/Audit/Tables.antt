-- ===== src/Trades/Audit/Tables.antt =====
-- What the writes of the handlers do to the audit invariant, on the two tables alone.
use gamja_market.Base.{
  ℕ, ◌≡◌, ◌≤◌, refl, Bool, true, none, some, List, [], ◌∷◌, ◌++◌, map, arith, if◌then◌else◌,
  Option-cases, inl, inr,
}
use gamja_market.Schema.{
  TradeStatus, Trade, TradeHistory, find_first, find_many, update_many, count,
}
use gamja_market.Schema.Rows.Laws.{
  has_key, HasUniqueKeys, count-update_same, find_first-update_many, find_first-update_key,
  count-find_none, count-find_some, find_none-count, count-find_many_le,
}
use gamja_market.Trades.Audit.{IsAudited, IsTrail, recorded, is_transition}

module _ (ts : List Trade) (hs : List TradeHistory) (h : IsAudited ts hs) where
  keys-update :
      (q : Trade → Bool) (f : Trade → Trade)
      → ((r : Trade) → (f r).id ≡ r.id)
      → HasUniqueKeys (λ t. t.id) (update_many q f ts)
  keys-update q f i k =
      rw (count-update_same (has_key (λ t. t.id) k) q f ts (λ r _. ground (arith, i r))) (h.keys k)

  -- A trade moves along a transition, and a row of its history says so.
  pub move-IsAudited :
      (tid : ℕ) (f : Trade → Trade) (t : Trade) (row : TradeHistory)
      → find_first (has_key (λ r. r.id) tid) ts ≡ some t
      → ((r : Trade) → (f r).id ≡ r.id)
      → row.trade_id ≡ tid
      → row.from_status ≡ some t.status
      → row.to_status ≡ (f t).status
      → is_transition row.from_status row.to_status ≡ true
      → IsAudited (update_many (has_key (λ r. r.id) tid) f ts) (row ∷ hs)
  unfolding find_first
  move-IsAudited tid f t row e i a b c d = record {
    keys = keys-update (has_key (λ r. r.id) tid) f i;
    derived = λ k. elim (Option-cases (find_first (has_key (λ r. r.id) k) ts)) [
      | inl n ↦ ground (arith, h.derived k, find_first-update_key (λ r. r.id) k tid f ts i)
      | inr (r, s) ↦ ground (arith, h.derived k, find_first-update_key (λ r. r.id) k tid f ts i)
    ];
    trail = ground (arith, h.derived tid, h.trail);
  }

  -- A new trade begins its history.
  pub new-IsAudited :
      (t : Trade) (row : TradeHistory)
      → find_first (has_key (λ r. r.id) t.id) ts ≡ none
      → t.status ≡ TradeStatus.requested
      → row.trade_id ≡ t.id
      → row.from_status ≡ none
      → row.to_status ≡ TradeStatus.requested
      → IsAudited (t ∷ ts) (row ∷ hs)
  unfolding find_first count
  new-IsAudited t row n s a b c = record {
    keys = λ k. ground (arith, h.keys k, count-find_none (has_key (λ r. r.id) t.id) ts n);
    derived = λ k. ground (arith, h.derived k);
    trail = ground (arith, h.derived t.id, h.trail);
  }

-- The row with a key among the rows that a filter keeps.
pub find_first-find_many :
    (k : ℕ) (q : Trade → Bool) (ts : List Trade)
    → count (has_key (λ r. r.id) k) ts ≤ 1
    → find_first (has_key (λ r. r.id) k) (find_many q ts)
      ≡ elim (find_first (has_key (λ r. r.id) k) ts) [
        | none ↦ none
        | some r ↦ if q r then some r else none
      ]
unfolding find_first find_many count
find_first-find_many k q [] u = refl
find_first-find_many k q (t ∷ ts) u =
    ground (arith, find_first-find_many k q ts, find_none-count (has_key (λ r. r.id) k) ts)

-- The rows that are added for a list of trades.
module _ (g : Trade → TradeHistory) (s : TradeStatus) (links : (r : Trade) → (g r).trade_id ≡ r.id)
    (ends : (r : Trade) → (g r).to_status ≡ s) (hs : List TradeHistory) where
  recorded-map :
      (k : ℕ) (rs : List Trade)
      → recorded k (map g rs ++ hs)
        ≡ elim (find_first (has_key (λ r. r.id) k) rs) [ none ↦ recorded k hs | some r ↦ some s ]
  unfolding find_first
  recorded-map k [] = refl
  recorded-map k (r ∷ rs) = ground (arith, links r, ends r, recorded-map k rs)

  IsTrail-map :
      (from : TradeStatus) (rs : List Trade)
      → is_transition (some from) s ≡ true
      → ((r : Trade) → (g r).from_status ≡ some from)
      → HasUniqueKeys (λ r. r.id) rs
      → ((k : ℕ) (r : Trade)
          → find_first (has_key (λ r. r.id) k) rs ≡ some r
          → recorded k hs ≡ some from)
      → IsTrail hs
      → IsTrail (map g rs ++ hs)
  unfolding find_first count
  IsTrail-map from [] e b u c t = t
  IsTrail-map from (r ∷ rs) e b u c t = (
    ground (
      arith,
      b r,
      links r,
      c r.id r,
      u r.id,
      recorded-map r.id rs,
      find_none-count (has_key (λ r. r.id) r.id) rs,
    ),
    ground (arith, b r, ends r),
    IsTrail-map from rs e b (λ k. ground (arith, u k))
        (λ k x f. ground (arith, u k, c k x, count-find_some (has_key (λ r. r.id) k) rs x)) t,
  )

-- Trades in one status are moved on together, each with its row.
pub move_many-IsAudited :
    (ts : List Trade) (hs : List TradeHistory) (q : Trade → Bool) (f : Trade → Trade)
    (g : Trade → TradeHistory) (from s : TradeStatus)
    → IsAudited ts hs
    → ((r : Trade) → (f r).id ≡ r.id)
    → ((r : Trade) → (f r).status ≡ s)
    → ((r : Trade) → q r ≡ true → r.status ≡ from)
    → ((r : Trade) → (g r).trade_id ≡ r.id)
    → ((r : Trade) → (g r).from_status ≡ some from)
    → ((r : Trade) → (g r).to_status ≡ s)
    → is_transition (some from) s ≡ true
    → IsAudited (update_many q f ts) (map g (find_many q ts) ++ hs)
move_many-IsAudited ts hs q f g from s h i fs qs gi gf gt e = record {
  keys = keys-update ts hs h q f i;
  derived = λ k. elim (Option-cases (find_first (has_key (λ r. r.id) k) ts)) [
    | inl n ↦ ground (
      arith,
      h.derived k,
      find_first-update_many (λ r. r.id) k q f ts i,
      recorded-map g s gi gt hs k (find_many q ts),
      find_first-find_many k q ts (h.keys k),
    )
    | inr (r, found) ↦ ground (
      arith,
      h.derived k,
      fs r,
      find_first-update_many (λ r. r.id) k q f ts i,
      recorded-map g s gi gt hs k (find_many q ts),
      find_first-find_many k q ts (h.keys k),
    )
  ];
  trail =
      IsTrail-map g s gi gt hs from (find_many q ts) e gf
        (λ k. omega (arith, h.keys k, count-find_many_le (has_key (λ r. r.id) k) q ts))
        (λ k r found. elim (Option-cases (find_first (has_key (λ r. r.id) k) ts)) [
          | inl n ↦ absurd (ground (arith, find_first-find_many k q ts (h.keys k)))
          | inr (x, fx) ↦ ground (arith, qs x, h.derived k, find_first-find_many k q ts (h.keys k))
        ])
        h.trail;
}
