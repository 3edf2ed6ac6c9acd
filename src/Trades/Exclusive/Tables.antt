-- ===== src/Trades/Exclusive/Tables.antt =====
-- What the updates of the handlers do to the reservation invariant, on the two tables alone.
use gamja_market.Base.{
  Bool-cases, ◌⊎◌, ℕ, ◌≡◌, Bool, true, false, ◌&&◌, none, some, List, ◌∷◌, arith, ◌==◌,
  Option-cases, inl, inr,
}
use gamja_market.Schema.{Product, Trade, is_active, find_first, update_many, count}
use gamja_market.Schema.Rows.Laws.{
  has_key, HasUniqueKeys, count-update_same, count-update_one, find_first-update_many,
  find_first_holds, find_first_unique, count-find_none,
}
use gamja_market.Trades.Exclusive.{IsExclusive, is_selected, selects}

-- A change of a trade that keeps its id and its product.
pub record KeepsLinks (f : Trade → Trade) : Type 0 where
  pub keeps_id : (r : Trade) → (f r).id ≡ r.id
  pub keeps_product : (r : Trade) → (f r).product_id ≡ r.product_id

module _ (ps : List Product) (ts : List Trade) (h : IsExclusive ps ts) where
  keys-update :
      (q : Trade → Bool) (f : Trade → Trade)
      → KeepsLinks f
      → HasUniqueKeys (λ t. t.id) (update_many q f ts)
  keys-update q f l k =
      rw (count-update_same (has_key (λ t. t.id) k) q f ts (λ r _. ground (arith, l.keeps_id r)))
        (h.trade_keys k)

  -- The update of a trade that does not become selected.
  pub move-IsExclusive :
      (tid : ℕ) (q : Trade → Bool) (f : Trade → Trade) (t : Trade)
      → KeepsLinks f
      → find_first (λ r. r.id == tid && q r) ts ≡ some t
      → (is_selected (f t).status ≡ true → is_selected t.status ≡ true)
      → IsExclusive ps (update_many (λ r. r.id == tid) f ts)
  move-IsExclusive tid q f t l e s = record {
    trade_keys = keys-update (λ r. r.id == tid) f l;
    product_keys = h.product_keys;
    one_selected = λ p. ground (
      arith,
      l.keeps_product t,
      h.one_selected p,
      h.trade_keys tid,
      count-update_one (λ r. r.id) (selects p) tid q f ts t,
    );
  }

  -- The update of trades that are not selected, before or after.
  pub pass-IsExclusive :
      (q : Trade → Bool) (f : Trade → Trade)
      → KeepsLinks f
      → ((r : Trade) → q r ≡ true → is_selected r.status ≡ false)
      → ((r : Trade) → q r ≡ true → is_selected (f r).status ≡ false)
      → IsExclusive ps (update_many q f ts)
  pass-IsExclusive q f l b a = record {
    trade_keys = keys-update q f l;
    product_keys = h.product_keys;
    one_selected = λ p.
        rw (count-update_same (selects p) q f ts (λ r e. ground (arith, b r e, a r e)))
          (h.one_selected p);
  }

  -- A new trade that is not selected.
  pub new-IsExclusive :
      (t : Trade)
      → find_first (λ r. r.id == t.id) ts ≡ none
      → is_selected t.status ≡ false
      → IsExclusive ps (t ∷ ts)
  unfolding count
  new-IsExclusive t e s = record {
    trade_keys = λ k. ground (arith, h.trade_keys k, count-find_none (λ r. r.id == t.id) ts e);
    product_keys = h.product_keys;
    one_selected = λ p. ground (arith, h.one_selected p);
  }

  product_keys-update :
      (q : Product → Bool) (f : Product → Product)
      → ((r : Product) → (f r).id ≡ r.id)
      → HasUniqueKeys (λ x. x.id) (update_many q f ps)
  product_keys-update q f i k =
      rw (count-update_same (has_key (λ x. x.id) k) q f ps (λ r _. ground (arith, i r)))
        (h.product_keys k)

  -- The update of products that are not offered afterwards.
  pub withdraw-IsExclusive :
      (q : Product → Bool) (f : Product → Product)
      → ((r : Product) → (f r).id ≡ r.id)
      → ((r : Product) → is_active (f r).status ≡ false)
      → IsExclusive (update_many q f ps) ts
  withdraw-IsExclusive q f i s = record {
    trade_keys = h.trade_keys;
    product_keys = product_keys-update q f i;
    one_selected = λ p. elim (Option-cases (find_first (has_key (λ x. x.id) p) ps)) [
      | inl e ↦ ground (arith, h.one_selected p, find_first-update_many (λ x. x.id) p q f ps i)
      | inr (r, e) ↦
          ground (arith, s r, h.one_selected p, find_first-update_many (λ x. x.id) p q f ps i)
    ];
  }

  -- The update of products that are offered afterwards only when they were before, or when none of
  -- their trades is selected.
  pub change-IsExclusive :
      (q : Product → Bool) (f : Product → Product)
      → ((r : Product) → (f r).id ≡ r.id)
      → ((r : Product)
          → q r ≡ true
          → is_active (f r).status ≡ true
          → (is_active r.status ≡ true) ⊎ (count (selects r.id) ts ≡ 0))
      → IsExclusive (update_many q f ps) ts
  change-IsExclusive q f i s = record {
    trade_keys = h.trade_keys;
    product_keys = product_keys-update q f i;
    one_selected = λ p. elim (Option-cases (find_first (has_key (λ x. x.id) p) ps)) [
      | inl e ↦ ground (arith, h.one_selected p, find_first-update_many (λ x. x.id) p q f ps i)
      | inr (r, e) ↦ elim (Bool-cases (q r)) [
        | inl a ↦ elim (Bool-cases (is_active (f r).status)) [
          | inl b ↦ ground (
            arith,
            s r a b,
            h.one_selected p,
            find_first_holds (has_key (λ x. x.id) p) ps r e,
            find_first-update_many (λ x. x.id) p q f ps i,
          )
          | inr b ↦ ground (arith, h.one_selected p, find_first-update_many (λ x. x.id) p q f ps i)
        ]
        | inr a ↦ ground (arith, h.one_selected p, find_first-update_many (λ x. x.id) p q f ps i)
      ]
    ];
  }

  -- A new product, none of whose trades is selected since it had no row.
  pub offer-IsExclusive :
      (p : Product) → find_first (λ r. r.id == p.id) ps ≡ none → IsExclusive (p ∷ ps) ts
  unfolding count find_first
  offer-IsExclusive p e = record {
    trade_keys = h.trade_keys;
    product_keys = λ k. ground (arith, h.product_keys k, count-find_none (λ r. r.id == p.id) ps e);
    one_selected = λ k. ground (arith, h.one_selected k, h.one_selected p.id);
  }

  -- The only offered row with an id is the row with that id.
  offered_row :
      (pid : ℕ)
      → count (λ p. p.id == pid && is_active p.status) ps ≡ 1
      → (r : Product) × (find_first (has_key (λ x. x.id) pid) ps ≡ some r)
        × (is_active r.status ≡ true)
  offered_row pid c = elim (Option-cases (find_first (λ p. p.id == pid && is_active p.status) ps)) [
    | inl e ↦ absurd (omega (arith, count-find_none (λ p. p.id == pid && is_active p.status) ps e))
    | inr (r, e) ↦ (
      r,
      find_first_unique (λ x. x.id) pid (λ p. is_active p.status) ps r (h.product_keys pid) e,
      ground (arith, find_first_holds (λ p. p.id == pid && is_active p.status) ps r e),
    )
  ]

  -- The reservation of an offered product by a trade that becomes selected.
  pub reserve-IsExclusive :
      (tid pid : ℕ) (q : Trade → Bool) (f : Trade → Trade) (t : Trade) (g : Product → Product)
      → KeepsLinks f
      → find_first (λ r. r.id == tid && q r) ts ≡ some t
      → t.product_id ≡ pid
      → is_selected t.status ≡ false
      → ((r : Product) → (g r).id ≡ r.id)
      → ((r : Product) → is_active (g r).status ≡ false)
      → count (λ p. p.id == pid && is_active p.status) ps ≡ 1
      → IsExclusive
          (update_many (λ p. p.id == pid && is_active p.status) g ps)
          (update_many (λ r. r.id == tid) f ts)
  reserve-IsExclusive tid pid q f t g l e m n i s c = record {
    trade_keys = keys-update (λ r. r.id == tid) f l;
    product_keys = product_keys-update (λ p. p.id == pid && is_active p.status) g i;
    one_selected = λ p. elim (Option-cases (find_first (has_key (λ x. x.id) p) ps)) [
      | inl none_found ↦ ground (
        arith,
        l.keeps_product t,
        h.one_selected p,
        h.trade_keys tid,
        (offered_row pid c).1,
        count-update_one (λ r. r.id) (selects p) tid q f ts t,
      )
      | inr (r, found) ↦ ground (
        arith,
        l.keeps_product t,
        s r,
        h.one_selected p,
        h.trade_keys tid,
        find_first_holds (has_key (λ x. x.id) p) ps r found,
        (offered_row pid c).1,
        (offered_row pid c).2,
        find_first-update_many (λ x. x.id) p (λ x. x.id == pid && is_active x.status) g ps i,
        count-update_one (λ r. r.id) (selects p) tid q f ts t,
      )
    ];
  }

  -- The release of the product of a trade that is no longer selected.
  pub release-IsExclusive :
      (tid : ℕ) (q : Trade → Bool) (f : Trade → Trade) (t : Trade) (q' : Product → Bool)
      (g : Product → Product)
      → KeepsLinks f
      → find_first (λ r. r.id == tid && q r) ts ≡ some t
      → is_selected t.status ≡ true
      → is_selected (f t).status ≡ false
      → ((r : Product) → (g r).id ≡ r.id)
      → ((r : Product) → q' r ≡ true → r.id ≡ t.product_id)
      → IsExclusive (update_many q' g ps) (update_many (λ r. r.id == tid) f ts)
  release-IsExclusive tid q f t q' g l e m n i s = record {
    trade_keys = keys-update (λ r. r.id == tid) f l;
    product_keys = product_keys-update q' g i;
    one_selected = λ p. elim (Option-cases (find_first (has_key (λ x. x.id) p) ps)) [
      | inl none_found ↦ ground (
        arith,
        l.keeps_product t,
        h.one_selected p,
        h.trade_keys tid,
        count-update_one (λ r. r.id) (selects p) tid q f ts t,
      )
      | inr (r, found) ↦ ground (
        arith,
        l.keeps_product t,
        s r,
        h.one_selected p,
        h.trade_keys tid,
        find_first_holds (has_key (λ x. x.id) p) ps r found,
        find_first-update_many (λ x. x.id) p q' g ps i,
        count-update_one (λ r. r.id) (selects p) tid q f ts t,
      )
    ];
  }
