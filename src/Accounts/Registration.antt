-- ===== src/Accounts/Registration.antt =====
-- backend/apps/accounts/services.py: how an account comes to be, and the admission that it spends.
-- `create_user` is that of managers.py.
use e_platform.Prelude.{
  ℕ, Bool, true, false, not, ◌&&◌, Option, none, some, List, [], ◌∷◌, ◌==◌, ltb, is_some,
}
use e_platform.Prelude.Rows.{count_by, first_by, update_by}
use e_platform.Prelude.Result.{Result, ok, err, ◌>>=◌, ◌>>◌, require, or_raise}
use e_platform.Prelude.Text.{Text, codes, text_eq, strip, is_nonempty}
use e_platform.Accounts.{User, student}
use e_platform.Accounts.Model.{
  Externals, BetaInvitation, Db, AccountError, value_error, email_already_registered,
  integrity_error, not_transactional, invitation_not_found, invitation_not_usable, not_auditable,
  admits_user,
}
use e_platform.Core.Audit.{
  NotAuditable, AuditLog, Request, record_admin_action, beta_invitation_consumed, invitation_model,
  invitation_details,
}

abbrev pub new_user : ℕ → Text → Text → User
new_user pk email password = record {
  pk = pk;
  email = email;
  password = password;
  role = student;
  is_email_verified = false;
  is_staff = false;
  is_superuser = false;
  is_active = true;
}

-- The row of `create_user`.
abbrev pub registered : Externals → ℕ → ℕ → Text → Text → User
registered ext pk salt email password =
    new_user pk (ext.lower (ext.normalize_email email)) (ext.make_password salt password)

unfoldable pub create_account :
    Externals → ℕ → ℕ → Text → Text → Db → Result AccountError (User × Db)
create_account ext pk salt email password db = do
  require (is_nonempty email) value_error
  let user = registered ext pk salt email password
  require (admits_user ext user db.users) email_already_registered
  ok (
    user,
    record db {
      users = user ∷ db.users;
      profiles = record { user = pk; display_name = [] } ∷ db.profiles;
    },
  )

-- `_invitations_for`
abbrev pub is_for : Externals → Text → BetaInvitation → Bool
is_for ext email i = text_eq (ext.pg_lower i.email) (ext.lower (strip email))

-- The `WHERE` of the conditional update.
abbrev pub is_usable : Externals → Text → ℕ → BetaInvitation → Bool
is_usable ext email now i =
    is_for ext email i
    && not (is_some i.consumed_at)
    && not (is_some i.revoked_at)
    && ltb now i.expires_at

abbrev pub consumed : ℕ → ℕ → BetaInvitation → BetaInvitation
consumed now user i = record i { consumed_at = some now; consumed_by = some user }

abbrev pub audited : Result NotAuditable AuditLog → Result AccountError AuditLog
audited (ok row) = ok row
audited (err e) = err (not_auditable e)

-- Why the update spent nothing.
abbrev pub why_unusable : Option BetaInvitation → AccountError
why_unusable none = invitation_not_found
why_unusable (some i) = invitation_not_usable

-- `.get()`: there is to be one such row.
abbrev pub the_one :
    (BetaInvitation → Bool) → List BetaInvitation → Result AccountError BetaInvitation
the_one p rows = do
  require (count_by p rows == 1) integrity_error
  or_raise (first_by p rows) integrity_error

abbrev pub consume_reason : Text
consume_reason = codes "Account created against a beta invitation."

-- `in_atomic` is `in_atomic_block` of the connection.
unfoldable pub consume_invitation :
    Externals → Bool → ℕ → User → Option Request → Db → Result AccountError (BetaInvitation × Db)
unfolding record_admin_action
consume_invitation ext in_atomic now user request db = do
  require in_atomic not_transactional
  let email = strip user.email
  require (is_nonempty email) invitation_not_found
  let usable = is_usable ext email now
  require (count_by usable db.invitations == 1)
      (why_unusable (first_by (is_for ext email) db.invitations))
  let rows = update_by usable (consumed now user.pk) db.invitations
  invitation ← the_one (is_for ext email) rows
  row ← audited (
      record_admin_action (some user) beta_invitation_consumed
        (record { model_name = invitation_model; pk = invitation.pk }) consume_reason request
        (invitation_details invitation.email))
  ok (invitation, record db { invitations = rows; audit = row ∷ db.audit })

-- `required` is BETA_INVITATION_REQUIRED.
abbrev pub admit : Externals → Bool → ℕ → User × Db → Result AccountError (User × Db)
admit ext false now (user, db) = ok (user, db)
admit ext true now (user, db) = do
  spent ← consume_invitation ext true now user none db
  ok (user, spent.1)

unfoldable pub register_account :
    Externals → Bool → ℕ → ℕ → ℕ → Text → Text → Db → Result AccountError (User × Db)
unfolding create_account consume_invitation
register_account ext required now pk salt email password db =
    create_account ext pk salt email password db >>= admit ext required now
