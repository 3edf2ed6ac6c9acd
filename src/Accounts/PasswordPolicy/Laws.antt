-- ===== src/Accounts/PasswordPolicy/Laws.antt =====
-- What the policy of apps/api/src/auth/password-policy.ts lets through.
use gamja_market.Base.{
  ◌==◌, ℕ, ◌≡◌, ◌≤◌, refl, ap, Bool, true, false, ◌&&◌, ◌||◌, List, [], ◌∷◌, ◌++◌, arith, length,
}
use gamja_market.Base.Text.{Text, text}
use gamja_market.Accounts.PasswordPolicy.{
  Unicode, PasswordPolicyResult, any, compact, includes, code_points, has_run, is_line_end,
  identifier_tokens, evaluate_password, password_policy_message,
}

-- All the requirements of a result together.
abbrev meets_all : PasswordPolicyResult → Bool
meets_all r =
    r.length_valid
    && (r.has_uppercase
        && (r.has_lowercase
            && (r.has_number
                && (r.has_special_character
                    && (r.avoids_common_pattern
                        && (r.avoids_repeated_run && r.excludes_identifier))))))

message-empty : (r : PasswordPolicyResult) → (length (password_policy_message r) == 0) ≡ meets_all r
unfolding password_policy_message text
message-empty r = ground arith

-- The message of the web application is empty just when the policy of the API says that the password is
-- valid.
pub password_policy_message-valid :
    (unicode : Unicode) (password : Text) (identifiers : List Text)
    → let result = evaluate_password unicode password identifiers in
      (length (password_policy_message result) == 0) ≡ result.valid
unfolding evaluate_password
password_policy_message-valid unicode password identifiers =
    message-empty (evaluate_password unicode password identifiers)

-- The code points from each place on do not begin with four times the same, but for line ends.
has_run-append :
    (before : List ℕ) (c : ℕ) (rest : List ℕ)
    → is_line_end c ≡ false
    → has_run (before ++ c ∷ c ∷ c ∷ c ∷ rest) ≡ true
unfolding has_run
has_run-append [] c rest e = ground arith
has_run-append (b ∷ before) c rest e = ground (arith, has_run-append before c rest e)

any-append : {A : Type 0} (p : A → Bool) (xs ys : List A) → any p (xs ++ ys) ≡ any p xs || any p ys
unfolding any
any-append p [] ys = refl
any-append p (x ∷ xs) ys = ground (arith, any-append p xs ys)

-- A password that the policy lets through has 12 to 128 code units, and no token of an identifier
-- stands in what is left of it without its punctuation.
pub evaluate_password-bounds :
    (unicode : Unicode) (password : Text) (identifiers : List Text)
    → (evaluate_password unicode password identifiers).valid ≡ true
    → (12 ≤ length password)
      × (length password ≤ 128)
      × (any (includes (compact unicode password)) (identifier_tokens unicode identifiers) ≡ false)
unfolding evaluate_password
evaluate_password-bounds unicode password identifiers h = (ground arith, ground arith, ground arith)

-- In a password that the policy lets through, no character but a line end stands four times in a row.
pub evaluate_password-no_run :
    (unicode : Unicode) (password : Text) (identifiers : List Text) (before : List ℕ) (c : ℕ)
    (rest : List ℕ)
    → (evaluate_password unicode password identifiers).valid ≡ true
    → is_line_end c ≡ false
    → ¬ (code_points password ≡ before ++ c ∷ c ∷ c ∷ c ∷ rest)
unfolding evaluate_password
evaluate_password-no_run unicode password identifiers before c rest h e p =
    let no_run : has_run (code_points password) ≡ false = ground arith in
    absurd (ground (arith, has_run-append before c rest e, ap has_run p))
