-- ===== src/Market/Consequences.antt =====
-- What the invariants say of the trades of a product and of the ledger of a payment.
use gamja_market.Base.{
  ◌≡◌, ◌≤◌, Bool, true, false, none, some, List, [], ◌∷◌, arith, ◌==◌, if◌then◌else◌, Bool-cases,
  Option-cases, inl, inr,
}
use gamja_market.Base.Int.{pos}
use gamja_market.Schema.{
  PaymentStatus, is_approved, is_active, Payment, Product, Trade, Db, find_first, count,
}
use gamja_market.Schema.Rows.Laws.{has_key}
use gamja_market.Sound.{IsSound}
use gamja_market.Trades.Exclusive.{is_selected, selects}
use gamja_market.Payments.Model.{Hash}
use gamja_market.Payments.Escrow.{balance, expected, Accounted, IsConsistent}
use gamja_market.Market.{◌⟶*◌, IsOrderly}
use gamja_market.Market.Soundness.{reachable-IsSound}

-- A row that was found and passes a test is counted.
count_found :
    (s p : Trade → Bool) (ts : List Trade) (t : Trade)
    → find_first p ts ≡ some t
    → s t ≡ true
    → 1 ≤ count s ts
unfolding find_first count
count_found s p [] t a x = ground arith
count_found s p (r ∷ ts) t a x = ground (arith, count_found s p ts t)

-- Two rows of different ids count twice.
count_two :
    (s : Trade → Bool) (ts : List Trade) (t u : Trade)
    → find_first (has_key (λ r. r.id) t.id) ts ≡ some t
    → find_first (has_key (λ r. r.id) u.id) ts ≡ some u
    → (t.id == u.id) ≡ false
    → s t ≡ true
    → s u ≡ true
    → 2 ≤ count s ts
unfolding find_first count
count_two s [] t u a b n x y = ground arith
count_two s (r ∷ ts) t u a b n x y = ground (
  arith,
  count_two s ts t u,
  count_found s (has_key (λ r. r.id) t.id) ts t,
  count_found s (has_key (λ r. r.id) u.id) ts u,
)

-- A status of a payment while the provider is called; no code sets it.
abbrev pub is_pending : PaymentStatus → Bool
is_pending PaymentStatus.cancel_pending = true
is_pending PaymentStatus.refund_pending = true
is_pending _ = false

module _ (hash : Hash) (db db' : Db) (steps : ◌⟶*◌ hash db db')
    (orderly : IsOrderly hash steps) where
  -- After steps from a sound database that show no product while a trade of it is selected, and
  -- commit no reversal apart from its checks unless its payment and trade are as they were read, two
  -- trades of one product that are accepted, delivered, confirmed or disputed are one, and the product
  -- is there and is not offered.
  pub selected_once :
      (t u : Trade)
      → IsSound db
      → find_first (λ r. r.id == t.id) db'.trades ≡ some t
      → find_first (λ r. r.id == u.id) db'.trades ≡ some u
      → t.product_id ≡ u.product_id
      → is_selected t.status ≡ true
      → is_selected u.status ≡ true
      → (t.id ≡ u.id)
        × ((p : Product) × (find_first (λ x. x.id == t.product_id) db'.products ≡ some p)
            × (is_active p.status ≡ false))
  selected_once t u h a b same x y =
      let sound = reachable-IsSound hash db db' steps orderly h in
      let room = sound.reserved.one_selected t.product_id in
      let one : 1 ≤ count (selects t.product_id) db'.trades =
        count_found (selects t.product_id) (λ r. r.id == t.id) db'.trades t a (ground arith) in
      (
        elim (Bool-cases (t.id == u.id)) [
          | inl e ↦ ground arith
          | inr e ↦
              let two = count_two (selects t.product_id) db'.trades t u a b e in
              absurd (ground (arith, two))
        ],
        elim (Option-cases (find_first (λ x. x.id == t.product_id) db'.products)) [
          | inl e ↦ absurd (ground arith)
          | inr (p, e) ↦ (p, e, ground arith)
        ],
      )

  -- After steps from a sound database that show no product while a trade of it is selected, and
  -- commit no reversal apart from its checks unless its payment and trade are as they were read, for a
  -- payment that is not settled and whose status is neither CANCEL_PENDING nor REFUND_PENDING, the
  -- ledger holds the whole amount if the payment is approved, and nothing otherwise.
  pub escrow_held :
      (p : Payment)
      → IsSound db
      → find_first (λ r. r.id == p.id) db'.payments ≡ some p
      → p.settled_at ≡ none
      → is_pending p.status ≡ false
      → balance p.id db'.ledger ≡ pos (if is_approved p.status then p.amount_krw else 0)
  escrow_held p h found unsettled calm =
      let sound = reachable-IsSound hash db db' steps orderly h in
      let a : Accounted p.id (some p) db'.ledger = rw found at (sound.escrowed.accounted p.id) in
      let sum : balance p.id db'.ledger ≡ expected p = a.0 in
      let agrees : IsConsistent p = a.1 in ground arith
