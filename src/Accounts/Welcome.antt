-- ===== src/Accounts/Welcome.antt =====
-- backend/apps/accounts/services.py: what an invitation is for, between the
-- call that issues it and the registration that spends it.
use e_platform.Prelude.{
  ℕ, ◌+◌, ◌≡◌, ◌≤◌, ◌<◌, ◌∙◌, ◌⊎◌, inl, inr, refl, ap, ltb, Bool, true, false, Option, none, some,
  List, [], ◌∷◌, arith, Bool-cases,
}
use e_platform.Accounts.Outcomes.{spent_one, reason_words, stored, with_account}
use e_platform.Prelude.Rows.{count_by, first_by}
use e_platform.Prelude.Result.{ok, err, ◌>>=◌, Result-cases}
use e_platform.Prelude.Text.{Text, strip, is_nonempty, text_eq_refl}
use e_platform.Accounts.{User}
use e_platform.Accounts.Model.{Externals, BetaInvitation, Db, admits_user, invitation_not_usable}
use e_platform.Accounts.Registration.{
  registered, create_account, admit, is_for, is_usable, consume_invitation, register_account,
}
use e_platform.Accounts.Invitations.{
  issue_invitation, save_invitation, new_invitation, invitation_lifetime,
}
use e_platform.Core.Audit.{Request, record_admin_action}

module _ {A : Type 0} where
  unmatched-count : (p : A → Bool) (xs : List A) → first_by p xs ≡ none → count_by p xs ≡ 0
  unmatched-count p [] h = refl
  unmatched-count p (x ∷ xs) h = elim (Bool-cases (p x)) [
    | inl hit ↦ absurd (ground arith)
    | inr miss ↦ let rest = unmatched-count p xs (ground arith) in rw miss (omega arith)
  ]

  -- A narrower test has no match either.
  unmatched-narrow :
      (p q : A → Bool) (xs : List A)
      → ((x : A) → p x ≡ false → q x ≡ false)
      → first_by p xs ≡ none
      → first_by q xs ≡ none
  unmatched-narrow p q [] narrow h = refl
  unmatched-narrow p q (x ∷ xs) narrow h = elim (Bool-cases (p x)) [
    | inl hit ↦ absurd (ground arith)
    | inr miss ↦ rw (narrow x miss) (unmatched-narrow p q xs narrow (ground arith))
  ]

issued_row :
    (ext : Externals) (pk now : ℕ) (actor : Option User) (email reason : Text)
    (request : Option Request) (db : Db) {i : BetaInvitation} {db' : Db}
    → issue_invitation ext pk now actor email reason request db ≡ ok (i, db')
    → first_by (is_for ext (strip email)) db.invitations ≡ none
    → (i ≡ new_invitation pk (strip email) now (now + invitation_lifetime))
      × (db'.users ≡ db.users)
      × (db'.invitations ≡ i ∷ db.invitations)
unfolding issue_invitation save_invitation
issued_row ext pk now actor email reason request db {i} {db'} h fresh = ground arith

-- The invitation that is the only one of the address.
module _ (ext : Externals) (email : Text) (now : ℕ) (i : BetaInvitation)
    (rows : List BetaInvitation) (others : first_by (is_for ext email) rows ≡ none) where
  no_other_usable : first_by (is_usable ext email now) rows ≡ none
  no_other_usable =
      unmatched-narrow (is_for ext email) (is_usable ext email now) rows (λ r miss. rw miss refl)
        others

  usable_once : is_usable ext email now i ≡ true → count_by (is_usable ext email now) (i ∷ rows) ≡ 1
  usable_once hit =
      rw hit (rw (unmatched-count (is_usable ext email now) rows no_other_usable) refl)

  usable_never :
      is_usable ext email now i ≡ false → count_by (is_usable ext email now) (i ∷ rows) ≡ 0
  usable_never miss =
      let rest = unmatched-count (is_usable ext email now) rows no_other_usable in
      rw miss (omega arith)

-- The row of an address that was never invited, once somebody is admitted who is that address.
admitted :
    (ext : Externals) (pk now later : ℕ) (email name : Text) (rows : List BetaInvitation)
    → first_by (is_for ext (strip email)) rows ≡ none
    → ext.lower (strip name) ≡ ext.lower (strip (strip email))
    → ext.pg_lower (strip email) ≡ ext.lower (strip (strip email))
    → (first_by (is_for ext name) rows ≡ none)
      × (is_for ext name (new_invitation pk (strip email) now (now + invitation_lifetime)) ≡ true)
admitted ext pk now later email name rows fresh same agree = (
  unmatched-narrow (is_for ext (strip email)) (is_for ext name) rows (λ r miss. rw same miss) fresh,
  rw same (rw agree (text_eq_refl (ext.lower (strip (strip email))))),
)

consumption :
    (ext : Externals) (now : ℕ) (u : User) (db : Db) (i : BetaInvitation)
    (rows : List BetaInvitation)
    → db.invitations ≡ i ∷ rows
    → first_by (is_for ext (strip u.email)) rows ≡ none
    → is_nonempty u.email ≡ true
    → is_nonempty (strip u.email) ≡ true
    → is_for ext (strip u.email) i ≡ true
    → (is_usable ext (strip u.email) now i ≡ true
        → (j : BetaInvitation) × (db' : Db) × (consume_invitation ext true now u none db
            ≡ ok (j, db'))
          × (db'.users ≡ db.users))
      × (is_usable ext (strip u.email) now i ≡ false
          → consume_invitation ext true now u none db ≡ err invitation_not_usable)
unfolding consume_invitation record_admin_action
consumption ext now u db i rows here others label name match =
    let p = is_for ext (strip u.email) in
    let q = is_usable ext (strip u.email) now in
    let none_left = unmatched-count p rows others in
    let most : count_by p db.invitations ≤ 1 = rw (here, match) (omega arith) in
    (
      λ hit.
          let once : count_by q db.invitations ≡ 1 =
            rw here (usable_once ext (strip u.email) now i rows others hit) in
          let (j, found) = spent_one ext now u db most once in
          elim (Result-cases (consume_invitation ext true now u none db)) [
            | inl (x, bad) ↦ absurd (ground (arith, once, found, label, name, bad, reason_words))
            | inr (done, good) ↦ (done.0, done.1, good, ground (arith, good))
          ],
      λ miss.
          let never : count_by q db.invitations ≡ 0 =
            rw here (usable_never ext (strip u.email) now i rows others miss) in
          let known : first_by p db.invitations ≡ some i = rw (here, match) refl in
          ground (arith, never, known, name),
    )

strip-nonempty : (s : Text) → is_nonempty (strip s) ≡ true → is_nonempty s ≡ true
unfolding strip
strip-nonempty [] h = absurd (ground arith)
strip-nonempty (c ∷ s) h = refl

usable_in_time :
    (ext : Externals) (email address : Text) (pk now later until : ℕ)
    → is_for ext email (new_invitation pk address now until) ≡ true
    → is_usable ext email later (new_invitation pk address now until) ≡ ltb later until
usable_in_time ext email address pk now later until match = rw match refl

-- An administrator invites an address that was never invited (`issued`, `fresh`), and that has no
-- account (`free`). Whoever then registers with it succeeds before the thirty days of the
-- invitation are over, also in another spelling that Python's `lower` and PostgreSQL's identify, and
-- is refused as not usable from then on.
pub invited_registers :
    (ext : Externals) (key now later pk salt : ℕ) (actor : Option User)
    (email reason typed password : Text) (request : Option Request) (db : Db) {i : BetaInvitation}
    {db' : Db} (issued : issue_invitation ext key now actor email reason request db ≡ ok (i, db'))
    (fresh : first_by (is_for ext (strip email)) db.invitations ≡ none)
    (written : is_nonempty typed ≡ true) (kept : is_nonempty (strip (stored ext typed)) ≡ true)
    (same : ext.lower (strip (strip (stored ext typed))) ≡ ext.lower (strip (strip email)))
    (agree : ext.pg_lower (strip email) ≡ ext.lower (strip (strip email)))
    (free : admits_user ext (registered ext pk salt typed password) db.users ≡ true)
    → ((later < now + invitation_lifetime)
        × (out : Db) × (register_account ext true later pk salt typed password db'
            ≡ ok (registered ext pk salt typed password, out))
        × (out.users ≡ registered ext pk salt typed password ∷ db.users))
      ⊎ ((now + invitation_lifetime ≤ later)
          × (register_account ext true later pk salt typed password db'
              ≡ err invitation_not_usable))
unfolding register_account create_account
invited_registers ext key now later pk salt actor email reason typed password request db {i} {db'}
      issued fresh written kept same agree free =
    let user = registered ext pk salt typed password in
    let after = with_account ext pk salt typed password db' in
    let until = now + invitation_lifetime in
    let (row, users, rows) = issued_row ext key now actor email reason request db issued fresh in
    let (others, match) =
      admitted ext key now later email (strip user.email) db.invitations fresh same agree in
    let made : create_account ext pk salt typed password db' ≡ ok (user, after) =
      rw (written, users, free) refl in
    let reached : register_account ext true later pk salt typed password db'
        ≡ admit ext true later (user, after) =
      ap (λ r. r >>= admit ext true later) made in
    let (in_time, too_late) =
      consumption ext later user after (new_invitation key (strip email) now until) db.invitations
        (rw row at rows) others (strip-nonempty user.email kept) kept match in
    let usable = usable_in_time ext (strip user.email) (strip email) key now later until match in
    elim (Bool-cases (ltb later until)) [
      | inl early ↦
          let (j, out, spent, same_users) = in_time (usable ∙ early) in
          inl (
            ground arith,
            out,
            reached ∙ ap (λ r. r >>= λ s. ok (user, s.1)) spent,
            same_users ∙ ap (λ us. user ∷ us) users,
          )
      | inr late ↦
          inr
            (ground arith, reached ∙ ap (λ r. r >>= λ s. ok (user, s.1)) (too_late (usable ∙ late)))
    ]
