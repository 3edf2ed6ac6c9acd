-- ===== src/Tests/Sessions.antt =====
-- The lock after failed logins, on a throttle of four failures.
use gamja_market.Base.{true, ℕ, ◌≡◌, refl, none, some, [], ◌∷◌, arith}
use gamja_market.Base.Text.{trim, Text, text, text_eq}
use gamja_market.Schema.{
  invalid_login, unauthorized, UserStatus, UserRole, User, LoginThrottle, Db, find_first,
}
use gamja_market.Schema.Action.{err, too_many_requests, login_temporarily_locked}
use gamja_market.Accounts.PasswordPolicy.{any}
use gamja_market.Accounts.Sessions.{normalize_identifier, refuse, enter, login, record_failure}
use gamja_market.Accounts.Sessions.Throttle.{record_failure-locks}
use gamja_market.Tests.Data.{reserved_market}

-- All identifiers have one hash here.
abbrev one_hash : Text → ℕ
one_hash t = 70

abbrev four_failures : LoginThrottle
four_failures = record {
  identifier_hash = 70;
  failed_count = 4;
  first_failed_at = 10;
  locked_until = none;
}

abbrev minsu : User
minsu = record {
  id = 2;
  email = some (text "minsu@example.com");
  phone = none;
  password_hash = text "correct";
  role = UserRole.user;
  status = UserStatus.active;
  is_adult = true;
  contact_verified_at = some 1;
  withdrawn_at = none;
  retention_until = none;
  neighborhood_id = none;
}

abbrev guessed_market : Db
guessed_market = record reserved_market { users = minsu ∷ []; throttles = four_failures ∷ [] }

-- The market after a login with a wrong password.
abbrev locked_market : Db
locked_market =
    (login (λ t. t) one_hash text_eq 20 [] (text "minsu@example.com") [] guessed_market).1

wrong_password :
    login (λ t. t) one_hash text_eq 20 [] (text "minsu@example.com") [] guessed_market
    ≡ (err (unauthorized invalid_login), locked_market)
unfolding login enter refuse record_failure normalize_identifier find_first text_eq text trim any
wrong_password = refl

record_failure-locks_example :
    login (λ t. t) one_hash text_eq 30 [] (text "minsu@example.com") (text "correct") locked_market
    ≡ (err (too_many_requests login_temporarily_locked), locked_market)
unfolding find_first
record_failure-locks_example =
    record_failure-locks (λ t. t) one_hash text_eq 20 30 [] [] (text "minsu@example.com") []
      (text "correct") four_failures guessed_market locked_market refl (omega arith) (omega arith)
      wrong_password (omega arith)
