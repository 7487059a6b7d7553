-- ===== src/Accounts/Admission.antt =====
-- What the services of backend/apps/accounts/services.py write of accounts and invitations, with
-- BETA_INVITATION_REQUIRED on.
use e_platform.Prelude.{
  ℕ, ◌+◌, ◌≡◌, ◌⊎◌, inl, inr, refl, sym, subst, ap, Bool, true, false, Option, none, some, ==→eq,
  List, ◌∷◌, ◌==◌, arith, Bool-cases, Option-cases,
}
use e_platform.Prelude.Rows.{exists_by, count_by, first_by, update_by}
use e_platform.Prelude.Members.{In, update-In, first-In}
use e_platform.Prelude.Keyed.{IsKeyed, insert-IsKeyed, rewrite-IsKeyed}
use e_platform.Prelude.Result.{ok}
use e_platform.Prelude.Text.{Text, strip}
use e_platform.Accounts.{User}
use e_platform.Accounts.Model.{Externals, BetaInvitation, Db}
use e_platform.Accounts.Registration.{
  registered, create_account, is_usable, consumed, consume_invitation, register_account, is_for,
}
use e_platform.Accounts.Invitations.{
  issue_invitation, revoke_invitation, save_invitation, reopen, revoke, invitation_lifetime,
}
use e_platform.Core.Audit.{Request}

-- The primary key of an invitation.
abbrev pub key : BetaInvitation → ℕ
key i = i.pk

-- A spent admission stays as it was spent.
pub record StaysSpent (before after : List BetaInvitation) : Type 0 where
  pub row : (i : BetaInvitation) (at : ℕ) → In i before → i.consumed_at ≡ some at → In i after

pub StaysSpent-refl : (rows : List BetaInvitation) → StaysSpent rows rows
StaysSpent-refl rows = record { row = λ i at m e. m }

pub StaysSpent-trans :
    {a b c : List BetaInvitation} → StaysSpent a b → StaysSpent b c → StaysSpent a c
StaysSpent-trans h k = record { row = λ i at m e. k.row i at (h.row i at m e) e }

-- A write that selects no spent row.
update-StaysSpent :
    (p : BetaInvitation → Bool) (f : BetaInvitation → BetaInvitation) (rows : List BetaInvitation)
    → ((i : BetaInvitation) (at : ℕ) → In i rows → i.consumed_at ≡ some at → p i ≡ false)
    → StaysSpent rows (update_by p f rows)
update-StaysSpent p f rows spares = record {
  row = λ i at m e. rw (spares i at m e) at (update-In p f i rows m);
}

-- A write by the key of a row that is not spent.
open_row-StaysSpent :
    (f : BetaInvitation → BetaInvitation) (s : BetaInvitation) (rows : List BetaInvitation)
    → IsKeyed key rows
    → In s rows
    → s.consumed_at ≡ none
    → StaysSpent rows (update_by (λ r. r.pk == s.pk) f rows)
open_row-StaysSpent f s rows keyed here unspent =
    update-StaysSpent (λ r. r.pk == s.pk) f rows
      (λ i at m e. elim (Bool-cases (i.pk == s.pk)) [
        | inr other ↦ other
        | inl hit ↦
            let same = ap (λ x. x.consumed_at) (keyed i s m here (==→eq i.pk s.pk hit)) in
            absurd (ground arith)
      ])

pub registered_rows :
    (ext : Externals) (now pk salt : ℕ) (email password : Text) (db : Db) {u : User} {db' : Db}
    → register_account ext true now pk salt email password db ≡ ok (u, db')
    → (u ≡ registered ext pk salt email password)
      × (db'.users ≡ u ∷ db.users)
      × (db'.invitations
          ≡ update_by (is_usable ext (strip u.email) now) (consumed now u.pk) db.invitations)
      × (count_by (is_usable ext (strip u.email) now) db.invitations ≡ 1)
unfolding register_account create_account consume_invitation
registered_rows ext now pk salt email password db {u} {db'} h = ground arith

pub consumed-StaysSpent :
    (ext : Externals) (email : Text) (now user : ℕ) (rows : List BetaInvitation)
    → StaysSpent rows (update_by (is_usable ext email now) (consumed now user) rows)
consumed-StaysSpent ext email now user rows =
    update-StaysSpent (is_usable ext email now) (consumed now user) rows (λ i at m e. ground arith)

-- A row of the table is written by its key, that is not spent.
Rewrites : (BetaInvitation → BetaInvitation) → List BetaInvitation → List BetaInvitation → Type 0
Rewrites f rows rows' =
    (s : BetaInvitation) × In s rows
    × (s.consumed_at ≡ none)
    × (rows' ≡ update_by (λ r. r.pk == s.pk) f rows)

Rewrites-kept :
    (f : BetaInvitation → BetaInvitation) (rows rows' : List BetaInvitation)
    → ((i : BetaInvitation) → (f i).pk ≡ i.pk)
    → Rewrites f rows rows'
    → IsKeyed key rows
    → StaysSpent rows rows' × IsKeyed key rows'
unfolding Rewrites
Rewrites-kept f rows rows' keeps (s, m, unspent, e) keyed = (
  subst (StaysSpent rows) (sym e) (open_row-StaysSpent f s rows keyed m unspent),
  subst (IsKeyed key) (sym e) (rewrite-IsKeyed key (λ r. r.pk == s.pk) f rows keeps keyed),
)

issued_cases :
    (ext : Externals) (pk now : ℕ) (actor : Option User) (email reason : Text)
    (request : Option Request) (db : Db) {i : BetaInvitation} {db' : Db}
    → issue_invitation ext pk now actor email reason request db ≡ ok (i, db')
    → (db'.users ≡ db.users)
      × (((i.pk ≡ pk) × (db'.invitations ≡ i ∷ db.invitations))
          ⊎ Rewrites
              (reopen (strip email) (now + invitation_lifetime))
              db.invitations
              db'.invitations)
unfolding issue_invitation save_invitation Rewrites
issued_cases ext pk now actor email reason request db {i} {db'} h =
    elim (Option-cases (first_by (is_for ext (strip email)) db.invitations)) [
      | inl e ↦ (ground arith, inl (ground arith, ground arith))
      | inr (existing, e) ↦
          let (m, hit) = first-In (is_for ext (strip email)) existing db.invitations e in
          elim (Option-cases existing.consumed_at) [
            | inl unspent ↦ (ground arith, inr (existing, m, unspent, ground arith))
            | inr (at, spent) ↦ absurd (ground arith)
          ]
    ]

pub issued_rows :
    (ext : Externals) (pk now : ℕ) (actor : Option User) (email reason : Text)
    (request : Option Request) (db : Db) {i : BetaInvitation} {db' : Db}
    → exists_by (λ r. r.pk == pk) db.invitations ≡ false
    → IsKeyed key db.invitations
    → issue_invitation ext pk now actor email reason request db ≡ ok (i, db')
    → (db'.users ≡ db.users)
      × StaysSpent db.invitations db'.invitations
      × IsKeyed key db'.invitations
issued_rows ext pk now actor email reason request db {i} {db'} fresh keyed h =
    let (users, rows) = issued_cases ext pk now actor email reason request db h in
    elim rows [
      | inl (new, e) ↦ (
        users,
        subst (StaysSpent db.invitations) (sym e) (record { row = λ j at m d. inr m }),
        subst (IsKeyed key) (sym e) (
            insert-IsKeyed key db.invitations i keyed
              (subst (λ n. exists_by (λ r. r.pk == n) db.invitations ≡ false) (sym new) fresh)),
      )
      | inr written ↦
          let (spent, again) =
            Rewrites-kept (reopen (strip email) (now + invitation_lifetime)) db.invitations
              db'.invitations (λ r. refl) written keyed in
          (users, spent, again)
    ]

revoked_cases :
    (ext : Externals) (now : ℕ) (actor : Option User) (email reason : Text)
    (request : Option Request) (db : Db) {i : BetaInvitation} {db' : Db}
    → revoke_invitation ext now actor email reason request db ≡ ok (i, db')
    → (db'.users ≡ db.users)
      × ((db'.invitations ≡ db.invitations) ⊎ Rewrites (revoke now) db.invitations db'.invitations)
unfolding revoke_invitation save_invitation Rewrites
revoked_cases ext now actor email reason request db {i} {db'} h =
    elim (Option-cases (first_by (is_for ext email) db.invitations)) [
      | inl e ↦ absurd (ground arith)
      | inr (existing, e) ↦ elim (Option-cases existing.revoked_at) [
        | inl never ↦
            let (m, hit) = first-In (is_for ext email) existing db.invitations e in
            elim (Option-cases existing.consumed_at) [
              | inl unspent ↦ (ground arith, inr (existing, m, unspent, ground arith))
              | inr (at, spent) ↦ absurd (ground arith)
            ]
        | inr (at, was) ↦ (ground arith, inl (ground arith))
      ]
    ]

pub revoked_rows :
    (ext : Externals) (now : ℕ) (actor : Option User) (email reason : Text)
    (request : Option Request) (db : Db) {i : BetaInvitation} {db' : Db}
    → IsKeyed key db.invitations
    → revoke_invitation ext now actor email reason request db ≡ ok (i, db')
    → (db'.users ≡ db.users)
      × StaysSpent db.invitations db'.invitations
      × IsKeyed key db'.invitations
revoked_rows ext now actor email reason request db {i} {db'} keyed h =
    let (users, rows) = revoked_cases ext now actor email reason request db h in
    elim rows [
      | inl e ↦ (
        users,
        subst (StaysSpent db.invitations) (sym e) (StaysSpent-refl db.invitations),
        subst (IsKeyed key) (sym e) keyed,
      )
      | inr written ↦
          let (spent, again) =
            Rewrites-kept (revoke now) db.invitations db'.invitations (λ r. refl) written keyed in
          (users, spent, again)
    ]
