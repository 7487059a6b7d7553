-- ===== src/Accounts/Invitations.antt =====
-- backend/apps/accounts/services.py: an administrator admits an address to the beta, or withdraws
-- the admission.
use e_platform.Prelude.{
  ℕ, ◌+◌, Bool, false, not, ◌&&◌, Option, none, some, ◌∷◌, ◌==◌, if◌then◌else◌, is_some,
}
use e_platform.Prelude.Rows.{first_by, update_by}
use e_platform.Prelude.Result.{Result, ok, ◌>>=◌, ◌>>◌, require, or_raise}
use e_platform.Prelude.Text.{Text, strip, is_nonempty}
use e_platform.Accounts.{User, is_platform_administrator}
use e_platform.Accounts.Model.{
  Externals, BetaInvitation, Db, AccountError, not_permitted, integrity_error, missing_row,
  invitation_not_found, invitation_issue_conflict, invitation_already_consumed, admits_invitation,
}
use e_platform.Accounts.Registration.{is_for, audited}
use e_platform.Core.Audit.{
  AdminAction, Details, Request, record_admin_action, beta_invitation_issued,
  beta_invitation_revoked, invitation_model, invitation_details, issue_details,
}
use e_platform.Entitlements.Model.{days}

-- `INVITATION_LIFETIME`
unfoldable pub invitation_lifetime : ℕ
unfolding days
invitation_lifetime = days 30

-- `_require_admin`
abbrev pub may_admit : Option User → Bool
may_admit none = false
may_admit (some actor) = actor.is_active && is_platform_administrator actor

-- `invitation.save(update_fields=...)`
unfoldable pub save_invitation :
    Externals → (BetaInvitation → BetaInvitation) → ℕ → Db → Result AccountError Db
save_invitation ext columns pk db = do
  row ← or_raise (first_by (λ i. i.pk == pk) db.invitations) missing_row
  require (admits_invitation ext (columns row) db.invitations) integrity_error
  ok (record db { invitations = update_by (λ i. i.pk == pk) columns db.invitations })

abbrev pub new_invitation : ℕ → Text → ℕ → ℕ → BetaInvitation
new_invitation pk email created_at expires_at = record {
  pk = pk;
  email = email;
  created_at = created_at;
  expires_at = expires_at;
  revoked_at = none;
  consumed_at = none;
  consumed_by = none;
}

abbrev pub reopen : Text → ℕ → BetaInvitation → BetaInvitation
reopen email expires_at i = record i { email = email; expires_at = expires_at; revoked_at = none }

-- The row that is there, re-opened, or a new one.
abbrev pub place :
    Externals
    → ℕ
    → ℕ
    → Text
    → Option BetaInvitation
    → Db
    → Result AccountError (BetaInvitation × Db)
place ext pk now email none db = do
  let i = new_invitation pk email now (now + invitation_lifetime)
  require (admits_invitation ext i db.invitations) invitation_issue_conflict
  ok (i, record db { invitations = i ∷ db.invitations })
place ext pk now email (some i) db = do
  require (not (is_some i.consumed_at)) invitation_already_consumed
  db' ← save_invitation ext (reopen email (now + invitation_lifetime)) i.pk db
  ok (reopen email (now + invitation_lifetime) i, db')

-- The audit row of an invitation.
abbrev pub audit_invitation :
    Option User
    → AdminAction
    → BetaInvitation
    → Text
    → Option Request
    → Details
    → Db
    → Result AccountError Db
audit_invitation actor action i reason request details db = do
  row ← audited (
      record_admin_action actor action (record { model_name = invitation_model; pk = i.pk }) reason
        request details)
  ok (record db { audit = row ∷ db.audit })

-- `pk` is the key of the new row, if there is to be one.
unfoldable pub issue_invitation :
    Externals
    → ℕ
    → ℕ
    → Option User
    → Text
    → Text
    → Option Request
    → Db
    → Result AccountError (BetaInvitation × Db)
unfolding save_invitation record_admin_action
issue_invitation ext pk now actor email reason request db = do
  require (may_admit actor) not_permitted
  require (is_nonempty (strip email)) invitation_not_found
  let existing = first_by (is_for ext (strip email)) db.invitations
  placed ← place ext pk now (strip email) existing db
  db' ←
      audit_invitation actor beta_invitation_issued placed.0 reason request
        (issue_details (strip email) (now + invitation_lifetime) (is_some existing)) placed.1
  ok (placed.0, db')

abbrev pub revoke : ℕ → BetaInvitation → BetaInvitation
revoke now i = record i { revoked_at = some now }

unfoldable pub revoke_invitation :
    Externals
    → ℕ
    → Option User
    → Text
    → Text
    → Option Request
    → Db
    → Result AccountError (BetaInvitation × Db)
unfolding save_invitation record_admin_action
revoke_invitation ext now actor email reason request db = do
  require (may_admit actor) not_permitted
  i ← or_raise (first_by (is_for ext email) db.invitations) invitation_not_found
  require (not (is_some i.consumed_at)) invitation_already_consumed
  if is_some i.revoked_at
      then ok (i, db)
      else (save_invitation ext (revoke now) i.pk db >>= λ db'.
          audit_invitation actor beta_invitation_revoked i reason request
            (invitation_details i.email) db'
          >>= λ db''. ok (revoke now i, db''))
