-- ===== src/Accounts/Enumeration.antt =====
-- What the endpoints of backend/apps/accounts/views.py tell of the accounts that there are.
use e_platform.Prelude.{
  ℕ, ◌≡◌, ◌≢◌, inl, inr, refl, sym, ap, ◌∙◌, ◌+◌, ◌≤◌, subst, Bool, true, false, Option, none, some,
  List, ◌∷◌, arith, Bool-cases,
}
use e_platform.Prelude.Rows.{count_by, first_by, exists_by}
use e_platform.Prelude.Members.{In}
use e_platform.Prelude.Result.{ok}
use e_platform.Prelude.Text.{Text, text_eq, text_eq_refl, text_eq→eq, strip, is_nonempty}
use e_platform.Accounts.{User}
use e_platform.Accounts.Model.{Externals, Token, Db, admits_token}
use e_platform.Accounts.Registration.{register_account, create_account, consume_invitation, is_for}
use e_platform.Accounts.Tokens.{
  issue_email_verification, issue_password_reset, new_token, verification_token_lifetime,
  password_reset_token_lifetime,
}
use e_platform.Accounts.Outcomes.{stored, registration_outcome}
use e_platform.Accounts.Endpoints.{
  Validators, email_field, new_password_field, Site, accepted_202, server_error_500, find_user,
  mail_token, welcome, after_registration, register, resend, resend_verification, reset_link,
  request_reset, verification, password_reset,
}

module _ (ext : Externals) (raw : Text) (now : ℕ) (site : Site) where
  mails_verification :
      (user : User) (to : Text)
      → admits_token
          (new_token ext user raw (now + verification_token_lifetime))
          site.db.verification_tokens
        ≡ true
      → (mail_token verification to (issue_email_verification ext raw now user site.db) site).0
        ≡ accepted_202
  unfolding issue_email_verification
  mails_verification user to h = ground (arith, h)

  mails_reset :
      (user : User) (to : Text)
      → admits_token
          (new_token ext user raw (now + password_reset_token_lifetime))
          site.db.reset_tokens
        ≡ true
      → (mail_token password_reset to (issue_password_reset ext raw now user site.db) site).0
        ≡ accepted_202
  unfolding issue_password_reset
  mails_reset user to h = ground (arith, h)

-- A token that no row has yet.
abbrev pub IsFresh : Externals → Text → Db → Type 0
IsFresh ext raw db =
    (exists_by (λ r. text_eq r.token_hash (ext.sha256 raw)) db.verification_tokens ≡ false)
    × (exists_by (λ r. text_eq r.token_hash (ext.sha256 raw)) db.reset_tokens ≡ false)

email_words :
    (v : Validators) (input : Text) {email : Text}
    → email_field v input ≡ some email
    → is_nonempty email ≡ true
unfolding email_field
email_words v input {email} h = ground arith

found_self :
    (email : Text) (u : User) (rows : List User)
    → u.email ≡ email
    → first_by (λ r. text_eq r.email email) (u ∷ rows) ≡ some u
found_self email u rows e =
    let same : text_eq u.email email ≡ true =
      subst (λ x. text_eq u.email x ≡ true) e (text_eq_refl u.email) in
    rw same

fresh_token :
    (ext : Externals) (raw : Text) (u : User) (at : ℕ) (rows : List Token)
    → exists_by (λ r. text_eq r.token_hash (ext.sha256 raw)) rows ≡ false
    → admits_token (new_token ext u raw at) rows ≡ true
unfolding admits_token
fresh_token ext raw u at rows h = rw h

welcomed :
    (ext : Externals) (raw : Text) (now : ℕ) (email : Text) (u : User) (rows : List User)
    (site : Site)
    → site.db.users ≡ u ∷ rows
    → u.email ≡ email
    → exists_by (λ r. text_eq r.token_hash (ext.sha256 raw)) site.db.verification_tokens ≡ false
    → (welcome ext raw now email site).0 ≡ accepted_202
unfolding find_user
welcomed ext raw now email u rows site users e fresh =
    let found : find_user email site.db ≡ some u =
      ap (first_by (λ r. text_eq r.email email)) users ∙ found_self email u rows e in
    rw (welcome, found)
      (mails_verification ext raw now site u email
        (fresh_token ext raw u _ site.db.verification_tokens fresh))

-- The answer to a well-formed registration.
registered_answer :
    (ext : Externals) (required : Bool) (now pk salt : ℕ) (raw email password : Text) (site : Site)
    → is_nonempty email ≡ true
    → stored ext email ≡ email
    → IsFresh ext raw site.db
    → count_by (is_for ext (strip email)) site.db.invitations ≤ 1
    → (after_registration ext raw now email
        (register_account ext required now pk salt email password site.db)
        site).0
      ≡ accepted_202
registered_answer ext required now pk salt raw email password site n canonical fresh most =
    let result = register_account ext required now pk salt email password site.db in
    let outcome =
      registration_outcome ext required now pk salt email password site.db n
        (subst (λ x. is_nonempty x ≡ true) (sym canonical) n)
        (subst (λ x. count_by (is_for ext (strip x)) site.db.invitations ≤ 1) (sym canonical)
          most) in
    elim outcome [
      | inl (e, same, silent) ↦ rw same silent
      | inr (u, db', same, address, users, tokens) ↦ rw same (
          welcomed ext raw now email u site.db.users (record site { db = db' }) users
            (address ∙ canonical)
            (subst (λ rows. exists_by (λ r. text_eq r.token_hash (ext.sha256 raw)) rows ≡ false)
              (sym tokens) fresh.0))
    ]

resend_answer :
    (ext : Externals) (raw : Text) (now : ℕ) (o : Option User) (site : Site)
    → IsFresh ext raw site.db
    → (resend ext raw now o site).0 ≡ accepted_202
unfolding issue_email_verification
resend_answer ext raw now none site fresh = refl
resend_answer ext raw now (some user) site fresh = elim (Bool-cases user.is_email_verified) [
  | inl e ↦ rw e refl
  | inr e ↦ rw e (
      mails_verification ext raw now site user user.email
        (fresh_token ext raw user _ site.db.verification_tokens fresh.0))
]

reset_answer :
    (ext : Externals) (raw : Text) (now : ℕ) (o : Option User) (site : Site)
    → IsFresh ext raw site.db
    → (reset_link ext raw now o site).0 ≡ accepted_202
reset_answer ext raw now none site fresh = refl
reset_answer ext raw now (some user) site fresh =
    mails_reset ext raw now site user user.email
      (fresh_token ext raw user _ site.db.reset_tokens fresh.1)

-- For a well-formed request whose address is written as accounts store it, the three endpoints
-- answer 202 whatever the store holds: the registration, whether the address is free, taken, or not
-- admitted; the resending of a verification, and the request of a reset. The token is taken to be
-- fresh, and the address to have one invitation at most.
pub answers_uniform :
    (ext : Externals) (v : Validators) (required : Bool) (now pk salt : ℕ)
    (raw email_input password_input : Text) (site : Site) {email password : Text}
    → email_field v email_input ≡ some email
    → new_password_field v password_input ≡ some password
    → stored ext email ≡ email
    → IsFresh ext raw site.db
    → count_by (is_for ext (strip email)) site.db.invitations ≤ 1
    → ((register ext v required now pk salt raw email_input password_input site).0 ≡ accepted_202)
      × ((resend_verification ext v raw now email_input site).0 ≡ accepted_202)
      × ((request_reset ext v raw now email_input site).0 ≡ accepted_202)
unfolding register resend_verification request_reset
answers_uniform ext v required now pk salt raw email_input password_input site {email} {password} e
      p canonical fresh most =
    let n = email_words v email_input e in
    (
      rw (register, e, p)
          (registered_answer ext required now pk salt raw email password site n canonical fresh
            most),
      rw (resend_verification, e) (resend_answer ext raw now (find_user email site.db) site fresh),
      rw (request_reset, e) (reset_answer ext raw now (find_user email site.db) site fresh),
    )

account_made :
    (ext : Externals) (required : Bool) (now pk salt : ℕ) (email password : Text) (db : Db)
    {u : User} {db' : Db}
    → register_account ext required now pk salt email password db ≡ ok (u, db')
    → (u.email ≡ stored ext email) × (db'.users ≡ u ∷ db.users)
unfolding register_account create_account consume_invitation
account_made ext required now pk salt email password db h = elim (Bool-cases required) [
  | inl e ↦ ground arith
  | inr e ↦ ground arith
]

not_found :
    (email : Text) (u : User) (db db' : Db)
    → u.email ≢ email
    → db'.users ≡ u ∷ db.users
    → find_user email db ≡ none
    → find_user email db' ≡ none
unfolding find_user
not_found email u db db' differs users h =
    ap (first_by (λ r. text_eq r.email email)) users ∙ elim (Bool-cases (text_eq u.email email)) [
      | inl e ↦ absurd (differs (text_eq→eq u.email email e))
      | inr e ↦ rw e h
    ]

-- When the address is not written as accounts store it, with a capital for one, a registration that
-- the service carries out is answered 500: the account is there, under the stored form, but it gets
-- no mail; and the two other endpoints, asked with the same address, answer 202 and send nothing.
pub capitals_stranded :
    (ext : Externals) (v : Validators) (required : Bool) (now pk salt : ℕ)
    (raw email_input password_input : Text) (site : Site) {email password : Text} {u : User}
    {db' : Db}
    → email_field v email_input ≡ some email
    → new_password_field v password_input ≡ some password
    → stored ext email ≢ email
    → find_user email site.db ≡ none
    → register_account ext required now pk salt email password site.db ≡ ok (u, db')
    → let site' : Site = record site { db = db' } in
      (register ext v required now pk salt raw email_input password_input site
        ≡ (server_error_500, site'))
      × In u db'.users
      × (resend_verification ext v raw now email_input site' ≡ (accepted_202, site'))
      × (request_reset ext v raw now email_input site' ≡ (accepted_202, site'))
unfolding register resend_verification request_reset
capitals_stranded ext v required now pk salt raw email_input password_input site {email} {password}
      {u} {db'} e p differs absent h =
    let (address, users) = account_made ext required now pk salt email password site.db h in
    let gone = not_found email u site.db db' (λ same. differs (sym address ∙ same)) users absent in
    (
      ground (arith, e, p, h, gone),
      subst (In u) (sym users) (inl refl),
      ground (arith, e, gone),
      ground (arith, e, gone),
    )
