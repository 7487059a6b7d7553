-- ===== src/Core/Audit.antt =====
-- backend/apps/core/audit.py and the `AuditLog` model of backend/apps/core/models.py.
use e_platform.Prelude.{ℕ, Bool, Option, none, some, [], ◌∷◌}
use e_platform.Prelude.Result.{Result, ok, ◌>>=◌, ◌>>◌, require, or_raise}
use e_platform.Prelude.Text.{Text, is_nonempty, strip}
use e_platform.Accounts.{User, Role}

-- `AdminAction`
pub data AdminAction : Type 0 where
  access_override_granted access_override_revoked course_approved course_rejected : AdminAction
  course_changes_requested role_changed refund_issued : AdminAction
  beta_invitation_issued beta_invitation_revoked beta_invitation_consumed : AdminAction

-- `target._meta.model_name`, for the models that the services audit.
pub data ModelName : Type 0 where
  user_model course_model invitation_model : ModelName

-- A saved model instance, by its table and primary key.
pub record Target : Type 0 where
  pub model_name : ModelName
  pub pk : ℕ

-- The keyword `details` of each call.
pub data Details : Type 0 where
  override_details : ℕ → ℕ → ℕ → Details  -- days, ends_at, override_id
  course_details : Text → Details  -- course_slug
  role_details : Role → Role → Details  -- previous_role, new_role
  invitation_details : Text → Details  -- invited_email
  issue_details : Text → ℕ → Bool → Details  -- invited_email, expires_at, reopened

-- One row of the trail. The details stand beside the reason in `metadata`.
pub record AuditLog : Type 0 where
  pub actor : ℕ
  pub actor_label : Text
  pub action : AdminAction
  pub target : Target
  pub reason : Text
  pub details : Details
  pub ip_address : Option Text

pub data NotAuditable : Type 0 where
  no_actor no_label no_reason : NotAuditable

-- A request, by its `REMOTE_ADDR`.
abbrev pub Request : Type 0
Request = Text

unfoldable pub client_ip : Option Request → Option Text
client_ip none = none
client_ip (some []) = none
client_ip (some (c ∷ addr)) = some (c ∷ addr)

-- The row that is written. The action is one of the type's, and the target is saved, so two of the
-- source's checks have no counterpart.
unfoldable pub record_admin_action :
    Option User
    → AdminAction
    → Target
    → Text
    → Option Request
    → Details
    → Result NotAuditable AuditLog
unfolding client_ip
record_admin_action actor action target reason request details = do
  user ← or_raise actor no_actor
  require (is_nonempty user.email) no_label
  require (is_nonempty (strip reason)) no_reason
  ok (record {
    actor = user.pk;
    actor_label = user.email;
    action = action;
    target = target;
    reason = strip reason;
    details = details;
    ip_address = client_ip request;
  })
