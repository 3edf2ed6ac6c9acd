-- ===== src/Accounts.antt =====
-- apps/api/src/auth: who is signed in.
pub mod PasswordPolicy
pub mod Sessions
use gamja_market.Base.{ℕ, Option}
use gamja_market.Base.Text.{Text}
use gamja_market.Schema.{UserRole, UserStatus}

-- `AuthenticatedUser`, with the code of the neighborhood.
pub record AuthenticatedUser : Type 0 where
  pub id : ℕ
  pub email : Option Text
  pub phone : Option Text
  pub role : UserRole
  pub status : UserStatus
  pub neighborhood : Option Text
