-- ===== src/Accounts/Calm.antt =====
-- What one transaction of backend/apps/accounts/services.py leaves of accounts and of the admissions
-- that they spent, with BETA_INVITATION_REQUIRED on.
use e_platform.Prelude.{
  ℕ, ◌≡◌, inl, inr, refl, sym, subst, ap, ◌∙◌, Bool, true, ◌<◌, Option, none, some, List, [], ◌∷◌,
  ◌==◌, arith, Bool-cases,
}
use e_platform.Prelude.Rows.{count_by, update_by}
use e_platform.Prelude.Keyed.{IsKeyed, rewrite-IsKeyed}
use e_platform.Prelude.Members.{In, In-update, update-In}
use e_platform.Prelude.Result.{ok}
use e_platform.Prelude.Text.{Text, strip, text_eq→eq}
use e_platform.Accounts.{User, Role}
use e_platform.Accounts.Model.{Externals, BetaInvitation, Db}
use e_platform.Accounts.Registration.{register_account, is_usable, consumed}
use e_platform.Accounts.Tokens.{
  issue_email_verification, issue_password_reset, verify_email, reset_password, change_password,
  redeem, verified, set_password,
}
use e_platform.Accounts.Roles.{change_role, set_role}
use e_platform.Accounts.Admission.{
  key, StaysSpent, StaysSpent-refl, registered_rows, consumed-StaysSpent,
}
use e_platform.Core.Audit.{Request}

-- Users whose columns were written, with their keys and addresses kept.
pub record SameUsers (before after : List User) : Type 0 where
  pub was : (u : User) → In u after → (v : User) × In v before × (v.pk ≡ u.pk) × (v.email ≡ u.email)

pub SameUsers-refl : (rows : List User) → SameUsers rows rows
SameUsers-refl rows = record { was = λ u m. (u, m, refl, refl) }

pub update-SameUsers :
    (n : ℕ) (f : User → User) (rows : List User)
    → ((u : User) → ((f u).pk ≡ u.pk) × ((f u).email ≡ u.email))
    → SameUsers rows (update_by (λ u. u.pk == n) f rows)
update-SameUsers n f rows keeps = record {
  was = λ u m.
      let (v, k, e) = In-update (λ u. u.pk == n) f u rows m in
      elim (Bool-cases (v.pk == n)) [
        | inl hit ↦
            let new : u ≡ f v = rw hit at e in
            let (key, address) = keeps v in
            (v, k, sym key ∙ sym (ap (λ x. x.pk) new), sym address ∙ sym (ap (λ x. x.email) new))
        | inr miss ↦
            let old : u ≡ v = rw miss at e in
            (v, k, sym (ap (λ x. x.pk) old), sym (ap (λ x. x.email) old))
      ];
}

-- An account with the admission that it spent: one of its own address, in time, that was not revoked.
pub record Admission (ext : Externals) (u : User) (i : BetaInvitation) : Type 0 where
  pub spent_by : i.consumed_by ≡ some u.pk
  pub address : ext.pg_lower i.email ≡ ext.lower (strip (strip u.email))
  pub not_revoked : i.revoked_at ≡ none
  pub in_time : (at : ℕ) × (i.consumed_at ≡ some at) × (at < i.expires_at)

abbrev pub Admitted : Externals → User → Db → Type 0
Admitted ext u db = (i : BetaInvitation) × In i db.invitations × Admission ext u i

-- Every account was admitted, and a primary key names one invitation.
abbrev pub AllAdmitted : Externals → Db → Type 0
AllAdmitted ext db = ((u : User) → In u db.users → Admitted ext u db) × IsKeyed key db.invitations

still-Admitted :
    (ext : Externals) (u v : User) (db db' : Db)
    → v.pk ≡ u.pk
    → v.email ≡ u.email
    → StaysSpent db.invitations db'.invitations
    → Admitted ext v db
    → Admitted ext u db'
still-Admitted ext u v db db' same same_address stays (i, m, a) =
    let (at, done, before) = a.in_time in
    (
      i,
      stays.row i at m done,
      record {
        spent_by = a.spent_by ∙ ap some same;
        address = a.address ∙ ap (λ e. ext.lower (strip (strip e))) same_address;
        not_revoked = a.not_revoked;
        in_time = a.in_time;
      },
    )

-- What a transaction other than a registration leaves of users and admissions.
pub record Calm (db db' : Db) : Type 0 where
  pub users : SameUsers db.users db'.users
  pub spent : StaysSpent db.invitations db'.invitations
  pub keyed : IsKeyed key db.invitations → IsKeyed key db'.invitations

pub calm :
    (db db' : Db) (rows : List User)
    → SameUsers db.users rows
    → db'.users ≡ rows
    → db'.invitations ≡ db.invitations
    → Calm db db'
calm db db' rows same users invitations = record {
  users = subst (SameUsers db.users) (sym users) same;
  spent = subst (StaysSpent db.invitations) (sym invitations) (StaysSpent-refl db.invitations);
  keyed = λ k. subst (IsKeyed key) (sym invitations) k;
}

pub Calm-issue :
    (db db' : Db)
    → (db'.users ≡ db.users)
      × StaysSpent db.invitations db'.invitations
      × IsKeyed key db'.invitations
    → Calm db db'
Calm-issue db db' (users, spent, keyed) = record {
  users = subst (SameUsers db.users) (sym users) (SameUsers-refl db.users);
  spent = spent;
  keyed = λ k. keyed;
}

pub Calm-kept :
    (ext : Externals) {db db' : Db}
    → Calm db db'
    → AllAdmitted ext db
    → AllAdmitted ext db' × StaysSpent db.invitations db'.invitations
Calm-kept ext {db} {db'} c (all, keyed) = (
  (
    λ u m.
        let (v, k, same, address) = c.users.was u m in
        still-Admitted ext u v db db' same address c.spent (all v k),
    c.keyed keyed,
  ),
  c.spent,
)

module _ (ext : Externals) (db : Db) {db' : Db} where
  pub verification_issue_rows :
      (raw : Text) (now : ℕ) (user : User) {t : Text}
      → issue_email_verification ext raw now user db ≡ ok (t, db')
      → (db'.users ≡ db.users) × (db'.invitations ≡ db.invitations)
  unfolding issue_email_verification
  verification_issue_rows raw now user {t} h = ground arith

  pub reset_issue_rows :
      (raw : Text) (now : ℕ) (user : User) {t : Text}
      → issue_password_reset ext raw now user db ≡ ok (t, db')
      → (db'.users ≡ db.users) × (db'.invitations ≡ db.invitations)
  unfolding issue_password_reset
  reset_issue_rows raw now user {t} h = ground arith

  pub verification_rows :
      (token : Text) (now : ℕ) {u : User}
      → verify_email ext token now db ≡ ok (u, db')
      → (db'.users ≡ update_by (λ r. r.pk == u.pk) verified db.users)
        × (db'.invitations ≡ db.invitations)
  unfolding verify_email redeem
  verification_rows token now {u} h = ground arith

  pub reset_rows :
      (salt : ℕ) (token new_password : Text) (now : ℕ) {u : User}
      → reset_password ext salt token new_password now db ≡ ok (u, db')
      → (db'.users ≡ update_by (λ r. r.pk == u.pk) (set_password ext salt new_password) db.users)
        × (db'.invitations ≡ db.invitations)
  unfolding reset_password redeem
  reset_rows salt token new_password now {u} h = ground arith

  pub change_rows :
      (salt : ℕ) (user : User) (current_password new_password : Text) {u : User}
      → change_password ext salt user current_password new_password db ≡ ok (u, db')
      → (db'.users ≡ update_by (λ r. r.pk == u.pk) (set_password ext salt new_password) db.users)
        × (db'.invitations ≡ db.invitations)
  unfolding change_password
  change_rows salt user current_password new_password {u} h = ground arith

  pub role_rows :
      (actor : Option User) (user : User) (role : Option Role) (reason : Text)
      (request : Option Request) {u : User}
      → change_role actor user role reason request db ≡ ok (u, db')
      → (db'.users ≡ update_by (λ r. r.pk == u.pk) (set_role u.role) db.users)
        × (db'.invitations ≡ db.invitations)
  unfolding change_role
  role_rows actor user role reason request {u} h = ground arith

counted_one :
    (p : BetaInvitation → Bool) (rows : List BetaInvitation)
    → count_by p rows ≡ 1
    → (i : BetaInvitation) × In i rows × (p i ≡ true)
counted_one p [] h = cc
counted_one p (x ∷ rows) h = elim (Bool-cases (p x)) [
  | inl e ↦ (x, inl refl, e)
  | inr e ↦ let (i, m, f) = counted_one p rows (ground arith) in (i, inr m, f)
]

-- The row that an account spends.
usable-Admission :
    (ext : Externals) (now : ℕ) (u : User) (i : BetaInvitation)
    → is_usable ext (strip u.email) now i ≡ true
    → Admission ext u (consumed now u.pk i)
usable-Admission ext now u i hit = record {
  spent_by = refl;
  address = text_eq→eq (ext.pg_lower i.email) (ext.lower (strip (strip u.email))) (ground arith);
  not_revoked = ground arith;
  in_time = (now, refl, ground arith);
}

pub registration-AllAdmitted :
    (ext : Externals) (now pk salt : ℕ) (email password : Text) (db : Db) {u : User} {db' : Db}
    → register_account ext true now pk salt email password db ≡ ok (u, db')
    → AllAdmitted ext db
    → AllAdmitted ext db' × StaysSpent db.invitations db'.invitations
registration-AllAdmitted ext now pk salt email password db {u} {db'} h (all, keyed) =
    let (new, users, rows, once) = registered_rows ext now pk salt email password db h in
    let usable = is_usable ext (strip u.email) now in
    let stays : StaysSpent db.invitations db'.invitations =
      subst (StaysSpent db.invitations) (sym rows)
        (consumed-StaysSpent ext (strip u.email) now u.pk db.invitations) in
    let own : Admitted ext u db' =
      let (i, m, hit) = counted_one usable db.invitations once in
      (
        consumed now u.pk i,
        subst (In (consumed now u.pk i)) (sym rows)
            (rw hit at (update-In usable (consumed now u.pk) i db.invitations m)),
        usable-Admission ext now u i hit,
      ) in
    (
      (
        λ v m. elim (subst (In v) users m) [
          | inl e ↦ subst (λ x. Admitted ext x db') (sym e) own
          | inr k ↦ still-Admitted ext v v db db' refl refl stays (all v k)
        ],
        subst (IsKeyed key) (sym rows)
            (rewrite-IsKeyed key usable (consumed now u.pk) db.invitations (λ r. refl) keyed),
      ),
      stays,
    )
