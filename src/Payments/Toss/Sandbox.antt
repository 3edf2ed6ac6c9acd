-- ===== src/Payments/Toss/Sandbox.antt =====
-- The sandbox of apps/api/src/payments/toss-sandbox.adapter.ts.
use gamja_market.Base.{
  ℕ, ◌≡◌, true, false, Option, none, some, [], ◌∷◌, arith, ◌==◌, inl, inr, Bool-cases, Option-cases,
}
use mathlib.Core.Option.{map as map_option}
use gamja_market.Base.Text.{Text, text_eq, text_eq_refl, eq_of_text_eq}
use gamja_market.Schema.{Payment}
use gamja_market.Schema.Action.{ok}
use gamja_market.Payments.Model.{TossStatus, TossPayment}
use gamja_market.Payments.Confirm.{is_mismatch}
use gamja_market.Payments.Toss.{
  TossEnv, Sandbox, get, set, confirm, cancel, lookup, with_status, provider, new_sandbox_payment,
}

-- A map gives back what was set.
get-set : (key : Text) (p : TossPayment) (s : Sandbox) → get key (set key p s) ≡ some p
unfolding get set
get-set key p [] = ground (arith, text_eq_refl key)
get-set key p ((k, q) ∷ s) = ground (arith, get-set key p s)

get-set_other :
    (key other : Text) (p : TossPayment) (s : Sandbox)
    → text_eq key other ≡ false
    → get other (set key p s) ≡ get other s
unfolding get set
get-set_other key other p [] h = ground arith
get-set_other key other p ((k, q) ∷ s) h = elim (Bool-cases (text_eq k key)) [
  | inl e ↦ rw (eq_of_text_eq k key e) (ground (arith, h, text_eq_refl key))
  | inr e ↦ ground (arith, get-set_other key other p s h)
]

module _ (env : TossEnv) (sandboxed : env.is_sandbox ≡ true) where
  -- In the sandbox a confirmed payment is found by its key, and a confirmation that is sent again, with
  -- whatever order, amount or idempotency key, gives the same payment and changes nothing.
  pub confirm-lookup :
      (key k k' : Text) (order_id amount order_id' amount' : ℕ) (s s' : Sandbox) (p : TossPayment)
      → confirm env key order_id amount k s ≡ (ok p, s')
      → (lookup env key s' ≡ ok (some p)) × (confirm env key order_id' amount' k' s' ≡ (ok p, s'))
  unfolding confirm lookup
  confirm-lookup key k k' order_id amount order_id' amount' s s' p h =
      elim (Option-cases (get key s)) [
        | inl e ↦
            let new = new_sandbox_payment key order_id amount in
            let found = get-set key new s in
            (ground (arith, sandboxed, found), ground (arith, sandboxed, found))
        | inr (q, e) ↦ (ground (arith, sandboxed), ground (arith, sandboxed))
      ]

  -- In the sandbox a cancellation is what a look-up finds afterwards: no payment when there was none,
  -- and else the payment that is canceled. The payments under other keys stay.
  pub cancel-lookup :
      (key other reason k : Text) (s s' : Sandbox) (o : Option TossPayment)
      → cancel env key reason k s ≡ (ok o, s')
      → text_eq key other ≡ false
      → (lookup env key s' ≡ ok o)
        × (o ≡ map_option (with_status TossStatus.canceled) (get key s))
        × (lookup env other s' ≡ lookup env other s)
  unfolding cancel lookup
  cancel-lookup key other reason k s s' o h ne = elim (Option-cases (get key s)) [
    | inl e ↦ (ground (arith, sandboxed), ground (arith, sandboxed), ground (arith, sandboxed))
    | inr (q, e) ↦
        let p = with_status TossStatus.canceled q in
        let found = get-set key p s in
        let apart = get-set_other key other p s ne in
        (ground (arith, sandboxed), ground (arith, sandboxed), ground (arith, sandboxed))
  ]

  -- What the sandbox answers to a payment key that was not used is the payment that was asked for.
  pub confirm-is_match :
      (key k : Text) (order_id : ℕ) (existing : Payment) (s : Sandbox)
      → get key s ≡ none
      → (p : TossPayment) × ((provider env s).confirm key order_id existing.amount_krw k ≡ ok p)
        × (is_mismatch key order_id existing p ≡ false)
  unfolding confirm
  confirm-is_match key k order_id existing s e = (
    new_sandbox_payment key order_id existing.amount_krw,
    ground (arith, sandboxed),
    ground (arith, text_eq_refl key),
  )

  -- A payment key that has paid one order does not pay another: what the sandbox answers to it does
  -- not pass the comparison of the payment service.
  pub confirm-is_mismatch :
      (key k k' : Text) (order_id other amount : ℕ) (s s' : Sandbox) (p : TossPayment)
      (existing : Payment)
      → get key s ≡ none
      → confirm env key order_id amount k s ≡ (ok p, s')
      → (order_id == other) ≡ false
      → (q : TossPayment) × ((provider env s').confirm key other existing.amount_krw k' ≡ ok q)
        × (is_mismatch key other existing q ≡ true)
  unfolding confirm
  confirm-is_mismatch key k k' order_id other amount s s' p existing e h ne =
      let new = new_sandbox_payment key order_id amount in
      let found = get-set key new s in
      (new, ground (arith, sandboxed), ground (arith, text_eq_refl key))
