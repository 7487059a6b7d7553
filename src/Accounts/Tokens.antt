-- ===== src/Accounts/Tokens.antt =====
-- backend/apps/accounts/services.py: tokens that are sent by mail, and passwords. Only the hash of a
-- token is stored.
use e_platform.Prelude.{ℕ, ◌+◌, Bool, true, not, ◌&&◌, none, some, List, ◌∷◌, ◌==◌, ltb, is_some}
use e_platform.Prelude.Rows.{first_by, update_by}
use e_platform.Prelude.Result.{Result, ok, ◌>>=◌, ◌>>◌, require, or_raise}
use e_platform.Prelude.Text.{Text, text_eq, is_nonempty}
use e_platform.Accounts.{User}
use e_platform.Accounts.Model.{
  Externals, Token, Db, AccountError, integrity_error, missing_row, invalid_verification_token,
  invalid_password_reset_token, incorrect_password, admits_token,
}
use e_platform.Entitlements.Model.{days}

-- `VERIFICATION_TOKEN_LIFETIME` and `PASSWORD_RESET_TOKEN_LIFETIME`
unfoldable pub verification_token_lifetime : ℕ
unfolding days
verification_token_lifetime = days 1

unfoldable pub password_reset_token_lifetime : ℕ
password_reset_token_lifetime = 3600000000

abbrev pub new_token : Externals → User → Text → ℕ → Token
new_token ext user raw expires_at = record {
  user = user.pk;
  token_hash = ext.sha256 raw;
  expires_at = expires_at;
  consumed_at = none;
}

-- `raw` is what `secrets.token_urlsafe` returned.
unfoldable pub issue_email_verification :
    Externals → Text → ℕ → User → Db → Result AccountError (Text × Db)
issue_email_verification ext raw now user db = do
  let t = new_token ext user raw (now + verification_token_lifetime)
  require (admits_token t db.verification_tokens) integrity_error
  ok (raw, record db { verification_tokens = t ∷ db.verification_tokens })

unfoldable pub issue_password_reset :
    Externals → Text → ℕ → User → Db → Result AccountError (Text × Db)
issue_password_reset ext raw now user db = do
  let t = new_token ext user raw (now + password_reset_token_lifetime)
  require (admits_token t db.reset_tokens) integrity_error
  ok (raw, record db { reset_tokens = t ∷ db.reset_tokens })

-- The stored token that a raw one hashes to, if it can still be used.
unfoldable pub redeem : Externals → Text → ℕ → AccountError → List Token → Result AccountError Token
redeem ext raw now refusal rows = do
  require (is_nonempty raw) refusal
  t ← or_raise (first_by (λ t. text_eq t.token_hash (ext.sha256 raw)) rows) refusal
  require (not (is_some t.consumed_at)) refusal
  require (ltb now t.expires_at) refusal
  ok t

-- `record.consumed_at = timezone.now()` and its save: the hash is unique.
abbrev pub consume : ℕ → Token → Token
consume now t = record t { consumed_at = some now }

abbrev pub consume_row : ℕ → Token → List Token → List Token
consume_row now t rows = update_by (λ r. text_eq r.token_hash t.token_hash) (consume now) rows

-- `record.user`, and `user.save(update_fields=...)`.
abbrev pub user_of : Token → Db → Result AccountError User
user_of t db = or_raise (first_by (λ u. u.pk == t.user) db.users) missing_row

abbrev pub save_user : (User → User) → ℕ → Db → Db
save_user columns pk db = record db { users = update_by (λ u. u.pk == pk) columns db.users }

abbrev pub verified : User → User
verified u = record u { is_email_verified = true }

-- What the record does once it is found.
abbrev pub verify_with : ℕ → Db → Token → Result AccountError (User × Db)
verify_with now db t = do
  user ← user_of t db
  ok (
    verified user,
    save_user verified user.pk
        (record db { verification_tokens = consume_row now t db.verification_tokens }),
  )

unfoldable pub verify_email : Externals → Text → ℕ → Db → Result AccountError (User × Db)
unfolding redeem
verify_email ext token now db =
    redeem ext token now invalid_verification_token db.verification_tokens >>= verify_with now db

abbrev pub set_password : Externals → ℕ → Text → User → User
set_password ext salt raw u = record u { password = ext.make_password salt raw }

-- The other tokens of the account are consumed too.
abbrev pub is_outstanding : ℕ → Token → Bool
is_outstanding user t = t.user == user && not (is_some t.consumed_at)

abbrev pub reset_with : Externals → ℕ → Text → ℕ → Db → Token → Result AccountError (User × Db)
reset_with ext salt new_password now db t = do
  user ← user_of t db
  ok (
    set_password ext salt new_password user,
    save_user (set_password ext salt new_password) user.pk (record db {
      reset_tokens =
          update_by (is_outstanding user.pk) (consume now) (consume_row now t db.reset_tokens);
    }),
  )

unfoldable pub reset_password :
    Externals → ℕ → Text → Text → ℕ → Db → Result AccountError (User × Db)
unfolding redeem
reset_password ext salt token new_password now db =
    redeem ext token now invalid_password_reset_token db.reset_tokens
    >>= reset_with ext salt new_password now db

unfoldable pub change_password :
    Externals → ℕ → User → Text → Text → Db → Result AccountError (User × Db)
change_password ext salt user current_password new_password db = do
  require (ext.check_password user.password current_password) incorrect_password
  ok (
    set_password ext salt new_password user,
    save_user (set_password ext salt new_password) user.pk db,
  )
