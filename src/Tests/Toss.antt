-- ===== src/Tests/Toss.antt =====
-- The theorems on the sandbox of the payment provider.
use gamja_market.Base.{◌≡◌, refl, false, true, none, some, [], ◌∷◌}
use mathlib.Core.Option.{map as map_option}
use gamja_market.Base.Text.{text_eq}
use gamja_market.Schema.Action.{ok}
use gamja_market.Payments.Model.{TossPayment, TossStatus}
use gamja_market.Payments.Confirm.{is_mismatch}
use gamja_market.Payments.Toss.{
  TossEnv, Sandbox, get, set, confirm, cancel, lookup, with_status, provider, new_sandbox_payment,
}
use gamja_market.Payments.Toss.Sandbox.{
  confirm-lookup, cancel-lookup, confirm-is_match, confirm-is_mismatch,
}
use gamja_market.Tests.Data.{order}

abbrev in_memory : TossEnv
in_memory = record { is_sandbox = true; has_secret = false; fetch = λ c. none }

abbrev paid_nine : TossPayment
paid_nine = new_sandbox_payment (1 ∷ []) 9 5000

abbrev one_payment : Sandbox
one_payment = (1 ∷ [], paid_nine) ∷ []

nine_confirmed : confirm in_memory (1 ∷ []) 9 5000 [] [] ≡ (ok paid_nine, one_payment)
unfolding confirm get set
nine_confirmed = refl

confirm-lookup_example :
    (lookup in_memory (1 ∷ []) one_payment ≡ ok (some paid_nine))
    × (confirm in_memory (1 ∷ []) 8 7000 (2 ∷ []) one_payment ≡ (ok paid_nine, one_payment))
confirm-lookup_example =
    confirm-lookup in_memory refl (1 ∷ []) [] (2 ∷ []) 9 5000 8 7000 [] one_payment paid_nine
      nine_confirmed

abbrev canceled_nine : TossPayment
canceled_nine = with_status TossStatus.canceled paid_nine

nine_canceled :
    cancel in_memory (1 ∷ []) [] [] one_payment
    ≡ (ok (some canceled_nine), (1 ∷ [], canceled_nine) ∷ [])
unfolding cancel get set text_eq
nine_canceled = refl

cancel-lookup_example :
    (lookup in_memory (1 ∷ []) ((1 ∷ [], canceled_nine) ∷ []) ≡ ok (some canceled_nine))
    × (some canceled_nine ≡ map_option (with_status TossStatus.canceled) (get (1 ∷ []) one_payment))
    × (lookup in_memory (2 ∷ []) ((1 ∷ [], canceled_nine) ∷ [])
        ≡ lookup in_memory (2 ∷ []) one_payment)
unfolding text_eq
cancel-lookup_example =
    cancel-lookup in_memory refl (1 ∷ []) (2 ∷ []) [] [] one_payment ((1 ∷ [], canceled_nine) ∷ [])
      (some canceled_nine) nine_canceled refl

confirm-is_match_example :
    (p : TossPayment) × ((provider in_memory []).confirm (1 ∷ []) 9 order.amount_krw [] ≡ ok p)
    × (is_mismatch (1 ∷ []) 9 order p ≡ false)
unfolding get
confirm-is_match_example = confirm-is_match in_memory refl (1 ∷ []) [] 9 order [] refl

confirm-is_mismatch_example :
    (q : TossPayment) × ((provider in_memory one_payment).confirm
        (1 ∷ [])
        8
        order.amount_krw
        (2 ∷ [])
      ≡ ok q)
    × (is_mismatch (1 ∷ []) 8 order q ≡ true)
unfolding get
confirm-is_mismatch_example =
    confirm-is_mismatch in_memory refl (1 ∷ []) [] (2 ∷ []) 9 8 5000 [] one_payment paid_nine order
      refl nine_confirmed refl
