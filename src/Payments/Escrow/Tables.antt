-- ===== src/Payments/Escrow/Tables.antt =====
-- What the writes of the handlers do to the escrow invariant, on the two tables alone.
use gamja_market.Base.{
  ℕ, ◌≡◌, Bool, true, false, none, some, List, ◌∷◌, arith, ◌==◌, Option-cases, Bool-cases, inl, inr,
  sym, ap, ◌∙◌,
}
use gamja_market.Base.Int.{pos, ◌+ℤ◌}
use gamja_market.Schema.{Payment, LedgerEntry, find_first, update_many, count}
use gamja_market.Schema.Rows.Laws.{
  has_key, HasUniqueKeys, count-update_same, find_first-update_many, find_first-update_key,
  count-find_none,
}
use gamja_market.Payments.Escrow.{IsEscrowed, IsConsistent, Accounted, balance, expected}

module _ (ps : List Payment) (ls : List LedgerEntry) (h : IsEscrowed ps ls) where
  keys-update :
      (q : Payment → Bool) (f : Payment → Payment)
      → ((r : Payment) → (f r).id ≡ r.id)
      → HasUniqueKeys (λ p. p.id) (update_many q f ps)
  keys-update q f i k =
      rw (count-update_same (has_key (λ p. p.id) k) q f ps (λ r _. ground (arith, i r))) (h.keys k)

  -- An update that leaves what every row says of the escrow.
  pub keep-IsEscrowed :
      (q : Payment → Bool) (f : Payment → Payment)
      → ((r : Payment) → (f r).id ≡ r.id)
      → ((r : Payment)
          → q r ≡ true
          → IsConsistent r
          → (expected (f r) ≡ expected r) × IsConsistent (f r))
      → IsEscrowed (update_many q f ps) ls
  keep-IsEscrowed q f i e = record {
    keys = keys-update q f i;
    accounted = λ k. elim (Option-cases (find_first (has_key (λ p. p.id) k) ps)) [
      | inl n ↦
          let a : Accounted k none ls = rw n at (h.accounted k) in
          rw (find_first-update_many (λ p. p.id) k q f ps i, n) a
      | inr (r, s) ↦
          let a : Accounted k (some r) ls = rw s at (h.accounted k) in
          rw (find_first-update_many (λ p. p.id) k q f ps i, s)
            (elim (Bool-cases (q r)) [
              | inl yes_q ↦ rw yes_q (a.0 ∙ sym (e r yes_q a.1).0, (e r yes_q a.1).1)
              | inr no_q ↦ rw no_q a
            ])
    ];
  }

  -- One row is updated, and an entry of the ledger says by how much.
  pub book-IsEscrowed :
      (k : ℕ) (f : Payment → Payment) (r : Payment) (l : LedgerEntry)
      → find_first (has_key (λ p. p.id) k) ps ≡ some r
      → ((p : Payment) → (f p).id ≡ p.id)
      → l.payment_id ≡ k
      → (IsConsistent r → (expected (f r) ≡ l.amount_krw +ℤ expected r) × IsConsistent (f r))
      → IsEscrowed (update_many (has_key (λ p. p.id) k) f ps) (l ∷ ls)
  unfolding balance
  book-IsEscrowed k f r l s i b e = record {
    keys = keys-update (has_key (λ p. p.id) k) f i;
    accounted = λ j. elim (Option-cases (find_first (has_key (λ p. p.id) j) ps)) [
      | inl n ↦
          let a : Accounted j none ls = rw n at (h.accounted j) in
          rw (find_first-update_key (λ p. p.id) j k f ps i, n)
            (elim (Bool-cases (k == j)) [
              | inl same ↦ absurd (ground arith)
              | inr other ↦ ground arith
            ])
      | inr (x, t) ↦
          let a : Accounted j (some x) ls = rw t at (h.accounted j) in
          rw (find_first-update_key (λ p. p.id) j k f ps i, t)
            (elim (Bool-cases (k == j)) [
              | inl same ↦
                  let xr : x ≡ r = ground arith in
                  let b' : Accounted j (some r) ls = rw xr at a in
                  let u = e b'.1 in
                  let lj : (l.payment_id == j) ≡ true = ground arith in
                  let kj : (j == k) ≡ true = ground arith in
                  rw (lj, kj, xr) (ap (λ z. l.amount_krw +ℤ z) b'.0 ∙ sym u.0, u.1)
              | inr other ↦
                  let lj : (l.payment_id == j) ≡ false = ground arith in
                  let kj : (j == k) ≡ false = ground arith in rw (lj, kj) a
            ])
    ];
  }

  -- A new payment holds nothing.
  pub new-IsEscrowed :
      (p : Payment)
      → find_first (has_key (λ r. r.id) p.id) ps ≡ none
      → expected p ≡ pos 0
      → IsConsistent p
      → IsEscrowed (p ∷ ps) ls
  unfolding find_first count
  new-IsEscrowed p n e c = record {
    keys = λ k. ground (arith, h.keys k, count-find_none (has_key (λ r. r.id) p.id) ps n);
    accounted = λ k. elim (Bool-cases (p.id == k)) [
      | inl same ↦
          let a : Accounted p.id none ls = rw n at (h.accounted p.id) in
          let pk : p.id ≡ k = ground arith in rw same (rw (← pk) (a ∙ sym e), c)
      | inr other ↦ rw other (h.accounted k)
    ];
  }
