-- ===== src/Accounts.antt =====
-- backend/apps/accounts/models.py and privileges.py: who is asking.
pub mod Model
pub mod Registration
pub mod Invitations
pub mod Tokens
pub mod Welcome
pub mod Roles
pub mod Admission
pub mod Calm
pub mod Reach
pub mod Redeeming
pub mod Selectors
pub mod Endpoints
pub mod Outcomes
pub mod Enumeration
use e_platform.Prelude.{ℕ, Bool, true, false, ◌||◌}
use e_platform.Prelude.Text.{Text}

-- `Role`
pub data Role : Type 0 where
  student instructor admin : Role

-- `User`, by the fields that the services read; `pk` is the UUID, which is only compared, and
-- `password` the encoded hash.
pub record User : Type 0 where
  pub pk : ℕ
  pub email : Text
  pub password : Text
  pub role : Role
  pub is_email_verified : Bool
  pub is_staff : Bool
  pub is_superuser : Bool
  pub is_active : Bool

-- What a caller may hand over as `user`: `None`, `AnonymousUser`, or an account.
pub data Visitor : Type 0 where
  absent anonymous : Visitor
  account : User → Visitor

abbrev pub is_admin_role : Role → Bool
is_admin_role admin = true
is_admin_role student = false
is_admin_role instructor = false

unfoldable pub is_signed_in : Visitor → Bool
is_signed_in (account user) = true
is_signed_in absent = false
is_signed_in anonymous = false

unfoldable pub is_platform_administrator : User → Bool
is_platform_administrator user = is_admin_role user.role || user.is_superuser
