-- ===== src/Accounts/Model.antt =====
-- backend/apps/accounts/models.py: the tables of accounts, with the database's constraints, and what
-- the services call that is not theirs.
use e_platform.Prelude.{ℕ, Bool, true, false, not, ◌&&◌, ◌||◌, Option, none, some, List, ◌==◌, ltb}
use e_platform.Prelude.Rows.{exists_by}
use e_platform.Prelude.Text.{Text, text_eq}
use e_platform.Accounts.{User}
use e_platform.Core.Audit.{AuditLog, NotAuditable}

-- `str.lower` of Python, `Lower` of PostgreSQL, `normalize_email` of Django's manager, the SHA-256
-- digest in hexadecimal, and Django's password hashers; `make_password` is handed its salt.
pub record Externals : Type 0 where
  pub lower : Text → Text
  pub pg_lower : Text → Text
  pub normalize_email : Text → Text
  pub sha256 : Text → Text
  pub make_password : ℕ → Text → Text
  pub check_password : Text → Text → Bool  -- the encoded hash, the password

pub record StudentProfile : Type 0 where
  pub user : ℕ
  pub display_name : Text

pub record BetaInvitation : Type 0 where
  pub pk : ℕ
  pub email : Text
  pub created_at : ℕ
  pub expires_at : ℕ
  pub revoked_at : Option ℕ
  pub consumed_at : Option ℕ
  pub consumed_by : Option ℕ

-- A row of `EmailVerificationToken` or of `PasswordResetToken`.
pub record Token : Type 0 where
  pub user : ℕ
  pub token_hash : Text
  pub expires_at : ℕ
  pub consumed_at : Option ℕ

pub record Db : Type 0 where
  pub users : List User
  pub profiles : List StudentProfile
  pub invitations : List BetaInvitation
  pub verification_tokens : List Token
  pub reset_tokens : List Token
  pub audit : List AuditLog

pub data AccountError : Type 0 where
  value_error email_already_registered integrity_error missing_row : AccountError
  invalid_verification_token invalid_password_reset_token incorrect_password : AccountError
  invalid_role role_unchanged not_permitted not_transactional : AccountError
  invitation_not_found invitation_not_usable : AccountError
  invitation_issue_conflict invitation_already_consumed : AccountError
  not_auditable : NotAuditable → AccountError

-- `unique=True` on the address, and `user_email_case_insensitive_unique`.
unfoldable pub admits_user : Externals → User → List User → Bool
admits_user ext u rows = not (
    exists_by
      (λ r.
        (text_eq r.email u.email || text_eq (ext.pg_lower r.email) (ext.pg_lower u.email))
        && not (r.pk == u.pk))
      rows)

-- `beta_invitation_consumption_is_complete`
abbrev pub is_complete : Option ℕ → Option ℕ → Bool
is_complete none none = true
is_complete (some at) (some by) = true
is_complete none (some by) = false
is_complete (some at) none = false

-- The three constraints of `BetaInvitation.Meta`.
unfoldable pub admits_invitation : Externals → BetaInvitation → List BetaInvitation → Bool
admits_invitation ext i rows =
    not (
      exists_by (λ r. text_eq (ext.pg_lower r.email) (ext.pg_lower i.email) && not (r.pk == i.pk))
        rows)
    && ltb i.created_at i.expires_at
    && is_complete i.consumed_at i.consumed_by

-- `unique=True` on the hash.
unfoldable pub admits_token : Token → List Token → Bool
admits_token t rows = not (exists_by (λ r. text_eq r.token_hash t.token_hash) rows)
