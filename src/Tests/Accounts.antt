-- ===== src/Tests/Accounts.antt =====
-- The theorems on the policy of passwords.
use gamja_market.Base.{◌==◌, ◌≡◌, ◌≤◌, refl, true, false, [], ◌∷◌, ◌++◌, length}
use gamja_market.Base.Text.{Text, text, is_space, trim}
use gamja_market.Accounts.PasswordPolicy.{
  Unicode, any, includes, compact, code_points, identifier_tokens, evaluate_password,
  password_policy_message, common_password_prefixes, predictable_sequences, has_run,
}
use gamja_market.Accounts.PasswordPolicy.Laws.{
  evaluate_password-no_run, password_policy_message-valid, evaluate_password-bounds,
}

-- Tables for texts of small letters and digits.
abbrev plain : Unicode
plain = record { nfkc = λ t. t; lower = λ t. t; letters = λ t. t }

abbrev a_password : Text
a_password = text "Tr4der-of-m4rkets"

password_valid : (evaluate_password plain a_password (text "minsu@example.com" ∷ [])).valid ≡ true
unfolding evaluate_password text is_space common_password_prefixes includes compact
    predictable_sequences has_run code_points identifier_tokens trim
password_valid = refl

evaluate_password-bounds_example :
    (12 ≤ length a_password)
    × (length a_password ≤ 128)
    × (any
          (includes (compact plain a_password))
          (identifier_tokens plain (text "minsu@example.com" ∷ []))
        ≡ false)
evaluate_password-bounds_example =
    evaluate_password-bounds plain a_password (text "minsu@example.com" ∷ []) password_valid

evaluate_password-no_run_example : ¬ (code_points a_password ≡ [] ++ b'T' ∷ b'T' ∷ b'T' ∷ b'T' ∷ [])
evaluate_password-no_run_example =
    evaluate_password-no_run plain a_password (text "minsu@example.com" ∷ []) [] b'T' []
      password_valid refl

password_policy_message-valid_example :
    (length (password_policy_message (evaluate_password plain a_password [])) == 0)
    ≡ (evaluate_password plain a_password []).valid
password_policy_message-valid_example = password_policy_message-valid plain a_password []
