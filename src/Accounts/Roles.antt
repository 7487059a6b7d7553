-- ===== src/Accounts/Roles.antt =====
-- `change_role` of backend/apps/accounts/services.py.
use e_platform.Prelude.{
  ℕ, ◌↔◌, ◌&&◌, arith, ◌≡◌, refl, Bool, true, false, not, Option, none, some, ◌∷◌, ◌==◌,
}
use e_platform.Prelude.Rows.{update_by}
use e_platform.Prelude.Result.{Result, is_ok, ok, ◌>>=◌, ◌>>◌, require, or_raise}
use e_platform.Prelude.Text.{Text, strip, is_nonempty}
use e_platform.Accounts.{User, Role, student, instructor, admin}
use e_platform.Accounts.Model.{Db, AccountError, invalid_role, role_unchanged}
use e_platform.Accounts.Registration.{audited}
use e_platform.Accounts.Tokens.{save_user}
use e_platform.Core.Audit.{
  AuditLog, Request, client_ip, record_admin_action, role_changed, user_model, role_details,
}

abbrev pub role_eq : Role → Role → Bool
role_eq student student = true
role_eq instructor instructor = true
role_eq admin admin = true
role_eq _ _ = false

abbrev pub set_role : Role → User → User
set_role role u = record u { role = role }

-- `none` is a string that names no role.
unfoldable pub change_role :
    Option User → User → Option Role → Text → Option Request → Db → Result AccountError (User × Db)
unfolding record_admin_action
change_role actor user role reason request db = do
  new_role ← or_raise role invalid_role
  require (not (role_eq user.role new_role)) role_unchanged
  row ← audited (
      record_admin_action actor role_changed (record { model_name = user_model; pk = user.pk })
        reason request (role_details user.role new_role))
  ok (
    set_role new_role user,
    record (save_user (set_role new_role) user.pk db) { audit = row ∷ db.audit },
  )

-- Who can be named in the trail.
abbrev pub is_named : Option User → Bool
is_named none = false
is_named (some u) = is_nonempty u.email

abbrev role_row : User → User → Role → Text → Option Request → AuditLog
role_row actor user role reason request = record {
  actor = actor.pk;
  actor_label = actor.email;
  action = role_changed;
  target = record { model_name = user_model; pk = user.pk };
  reason = strip reason;
  details = role_details user.role role;
  ip_address = client_ip request;
}

abbrev pub actor_pk : Option User → Option ℕ
actor_pk none = none
actor_pk (some u) = some u.pk

-- A role is changed exactly when it is another role, there is an actor with an address, and the
-- reason is not blank; then the account has the role, and one audit row more names the actor, the
-- account and both roles, while invitations and tokens are as they were.
change_role_trail :
    (actor : Option User) (user : User) (role : Role) (reason : Text) (request : Option Request)
    (db : Db)
    → (is_ok (change_role actor user (some role) reason request db) ≡ true
        ↔ (not (role_eq user.role role) && is_named actor && is_nonempty (strip reason)) ≡ true)
      × ((u : User) (db' : Db)
          → change_role actor user (some role) reason request db ≡ ok (u, db')
          → (u ≡ set_role role user)
            × (db'.users ≡ update_by (λ r. r.pk == user.pk) (set_role role) db.users)
            × ((row : AuditLog) × (db'.audit ≡ row ∷ db.audit)
                × (some row.actor ≡ actor_pk actor)
                × (row.target.pk ≡ user.pk)
                × (row.details ≡ role_details user.role role))
            × (db'.invitations ≡ db.invitations)
            × (db'.reset_tokens ≡ db.reset_tokens))
unfolding change_role record_admin_action
change_role_trail none user role reason request db =
    (ground arith, λ u db' h. absurd (ground arith))
change_role_trail (some a) user role reason request db = (
  ground arith,
  λ u db' h. (
    ground arith,
    ground arith,
    (role_row a user role reason request, ground arith, refl, refl, refl),
    ground arith,
    ground arith,
  ),
)
