-- ===== src/Accounts/Reach.antt =====
-- The stores that the services of backend/apps/accounts/services.py reach while
-- BETA_INVITATION_REQUIRED is on.
use e_platform.Prelude.{ℕ, ◌≡◌, refl, true, false, Option, ◌==◌}
use e_platform.Prelude.Rows.{exists_by}
use e_platform.Prelude.Keyed.{IsKeyed}
use e_platform.Prelude.Members.{In}
use e_platform.Prelude.Result.{ok}
use e_platform.Prelude.Text.{Text}
use e_platform.Accounts.{User, Role}
use e_platform.Accounts.Model.{Externals, BetaInvitation, Db}
use e_platform.Accounts.Registration.{register_account}
use e_platform.Accounts.Invitations.{issue_invitation, revoke_invitation}
use e_platform.Accounts.Tokens.{
  issue_email_verification, issue_password_reset, verify_email, reset_password, change_password,
  verified, set_password,
}
use e_platform.Accounts.Roles.{change_role, set_role}
use e_platform.Accounts.Admission.{
  key, StaysSpent, StaysSpent-refl, StaysSpent-trans, issued_rows, revoked_rows,
}
use e_platform.Accounts.Calm.{
  Admitted, AllAdmitted, SameUsers-refl, update-SameUsers, calm, Calm-issue, Calm-kept,
  registration-AllAdmitted, verification_issue_rows, reset_issue_rows, verification_rows,
  reset_rows, change_rows, role_rows,
}
use e_platform.Core.Audit.{Request}

-- One committed transaction; the primary key of a new invitation is a new one.
pub data Step (ext : Externals) (db : Db) : Db → Type 0 where
  registration :
      (now pk salt : ℕ) (email password : Text) (u : User) {db' : Db}
      → register_account ext true now pk salt email password db ≡ ok (u, db')
      → Step ext db db'
  issue :
      (pk now : ℕ) (actor : Option User) (email reason : Text) (request : Option Request)
      (i : BetaInvitation) {db' : Db}
      → exists_by (λ r. r.pk == pk) db.invitations ≡ false
      → issue_invitation ext pk now actor email reason request db ≡ ok (i, db')
      → Step ext db db'
  revocation :
      (now : ℕ) (actor : Option User) (email reason : Text) (request : Option Request)
      (i : BetaInvitation) {db' : Db}
      → revoke_invitation ext now actor email reason request db ≡ ok (i, db')
      → Step ext db db'
  verification_issue :
      (raw : Text) (now : ℕ) (user : User) (t : Text) {db' : Db}
      → issue_email_verification ext raw now user db ≡ ok (t, db')
      → Step ext db db'
  reset_issue :
      (raw : Text) (now : ℕ) (user : User) (t : Text) {db' : Db}
      → issue_password_reset ext raw now user db ≡ ok (t, db')
      → Step ext db db'
  verification :
      (token : Text) (now : ℕ) (u : User) {db' : Db}
      → verify_email ext token now db ≡ ok (u, db')
      → Step ext db db'
  reset :
      (salt : ℕ) (token new_password : Text) (now : ℕ) (u : User) {db' : Db}
      → reset_password ext salt token new_password now db ≡ ok (u, db')
      → Step ext db db'
  change :
      (salt : ℕ) (user : User) (current_password new_password : Text) (u : User) {db' : Db}
      → change_password ext salt user current_password new_password db ≡ ok (u, db')
      → Step ext db db'
  role_change :
      (actor : Option User) (user : User) (role : Option Role) (reason : Text)
      (request : Option Request) (u : User) {db' : Db}
      → change_role actor user role reason request db ≡ ok (u, db')
      → Step ext db db'

pub data Run (ext : Externals) (db : Db) : Db → Type 0 where
  none_yet : Run ext db db
  then_step : {db' db'' : Db} → Run ext db db' → Step ext db' db'' → Run ext db db''

Step-Calm :
    (ext : Externals) (db db' : Db)
    → Step ext db db'
    → AllAdmitted ext db
    → AllAdmitted ext db' × StaysSpent db.invitations db'.invitations
Step-Calm ext db db' (registration now pk salt email password u h) all =
    registration-AllAdmitted ext now pk salt email password db h all
Step-Calm ext db db' (issue pk now actor email reason request i fresh h) (all, keyed) =
    Calm-kept ext
      (Calm-issue db db' (issued_rows ext pk now actor email reason request db fresh keyed h))
      (all, keyed)
Step-Calm ext db db' (revocation now actor email reason request i h) (all, keyed) =
    Calm-kept ext (Calm-issue db db' (revoked_rows ext now actor email reason request db keyed h))
      (all, keyed)
Step-Calm ext db db' (verification_issue raw now user t h) all =
    let (users, invitations) = verification_issue_rows ext db raw now user h in
    Calm-kept ext (calm db db' db.users (SameUsers-refl db.users) users invitations) all
Step-Calm ext db db' (reset_issue raw now user t h) all =
    let (users, invitations) = reset_issue_rows ext db raw now user h in
    Calm-kept ext (calm db db' db.users (SameUsers-refl db.users) users invitations) all
Step-Calm ext db db' (verification token now u h) all =
    let (users, invitations) = verification_rows ext db token now h in
    Calm-kept ext
      (calm db db' _ (update-SameUsers u.pk verified db.users (λ x. (refl, refl))) users
        invitations)
      all
Step-Calm ext db db' (reset salt token new_password now u h) all =
    let (users, invitations) = reset_rows ext db salt token new_password now h in
    Calm-kept ext
      (calm db db' _
        (update-SameUsers u.pk (set_password ext salt new_password) db.users (λ x. (refl, refl)))
        users invitations)
      all
Step-Calm ext db db' (change salt user current_password new_password u h) all =
    let (users, invitations) = change_rows ext db salt user current_password new_password h in
    Calm-kept ext
      (calm db db' _
        (update-SameUsers u.pk (set_password ext salt new_password) db.users (λ x. (refl, refl)))
        users invitations)
      all
Step-Calm ext db db' (role_change actor user role reason request u h) all =
    let (users, invitations) = role_rows ext db actor user role reason request h in
    Calm-kept ext
      (calm db db' _ (update-SameUsers u.pk (set_role u.role) db.users (λ x. (refl, refl))) users
        invitations)
      all

-- With BETA_INVITATION_REQUIRED on, from a store in which every account was admitted (such as one
-- without accounts) and a primary key names one invitation, any sequence of transactions leads to
-- such a store: each account spent an invitation that names it, was issued to its address (as
-- PostgreSQL and Python write it in lower case), was not revoked, and had not expired when it was
-- spent. An invitation that was spent before still stands, with every column.
pub Run-Admitted :
    (ext : Externals) (db db' : Db)
    → IsKeyed key db.invitations
    → ((u : User) → In u db.users → Admitted ext u db)
    → Run ext db db'
    → (((u : User) → In u db'.users → Admitted ext u db') × IsKeyed key db'.invitations)
      × StaysSpent db.invitations db'.invitations
Run-Admitted ext db db' keyed all none_yet = ((all, keyed), StaysSpent-refl db.invitations)
Run-Admitted ext db db' keyed all (then_step {db' = mid} r s) =
    let (there, stays) = Run-Admitted ext db mid keyed all r in
    let (here, again) = Step-Calm ext mid db' s there in (here, StaysSpent-trans stays again)
