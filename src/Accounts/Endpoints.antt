-- ===== src/Accounts/Endpoints.antt =====
-- backend/apps/accounts/views.py: what the public endpoints answer, and the mail that they send. The
-- fields are those of serializers.py.
use e_platform.Prelude.{ℕ, Bool, not, ◌&&◌, Option, none, some, List, ◌∷◌, ◌==◌, leb, if◌then◌else◌}
use e_platform.Prelude.Rows.{first_by, exists_by, length}
use e_platform.Prelude.Result.{Result, ok, err}
use e_platform.Prelude.Text.{Text, text_eq, strip, is_nonempty}
use e_platform.Accounts.{User}
use e_platform.Accounts.Model.{
  Externals, Db, AccountError, email_already_registered, invitation_not_found,
  invitation_not_usable, invalid_verification_token, invalid_password_reset_token,
  incorrect_password,
}
use e_platform.Accounts.Registration.{register_account}
use e_platform.Accounts.Tokens.{
  issue_email_verification, issue_password_reset, verify_email, reset_password, change_password,
}

-- Django's check of an address, and the configured password validators.
pub record Validators : Type 0 where
  pub is_address : Text → Bool
  pub validate_password : Text → Bool

-- `EmailField(max_length=254)`: the value is stripped.
unfoldable pub email_field : Validators → Text → Option Text
email_field v raw =
    let email = strip raw in
    if is_nonempty email && v.is_address email && leb (length email) 254 then some email else none

-- `CharField(max_length=...)`, stripped too, and without a NUL.
unfoldable pub char_field : ℕ → Text → Option Text
char_field width raw =
    let value = strip raw in
    if is_nonempty value && leb (length value) width && not (exists_by (λ c. c == 0) value)
    then some value
    else none

unfoldable pub new_password_field : Validators → Text → Option Text
new_password_field v raw = elim (char_field 128 raw) [
  | none ↦ none
  | some value ↦ if v.validate_password value then some value else none
]

-- A message, by its address and the raw token that it carries.
pub data Mail : Type 0 where
  verification password_reset : Text → Text → Mail
  password_changed : Text → Mail

pub record Site : Type 0 where
  pub db : Db
  pub outbox : List Mail

-- The status; the bodies of each endpoint are fixed for a status.
pub data Reply : Type 0 where
  ok_200 accepted_202 bad_request_400 server_error_500 : Reply

-- The exceptions that a view names; any other is a 500.
abbrev pub refused_silently : AccountError → Reply
refused_silently email_already_registered = accepted_202
refused_silently invitation_not_found = accepted_202
refused_silently invitation_not_usable = accepted_202
refused_silently _ = server_error_500

unfoldable pub find_user : Text → Db → Option User
find_user email db = first_by (λ u. text_eq u.email email) db.users

abbrev pub mail_token :
    (Text → Text → Mail) → Text → Result AccountError (Text × Db) → Site → Reply × Site
mail_token message to (ok (token, db)) site =
    (accepted_202, record { db = db; outbox = message to token ∷ site.outbox })
mail_token message to (err e) site = (server_error_500, site)

-- After the account is there: `User.objects.get(email=email)`, the token and the mail. There is no
-- transaction around the request, so what was committed stays.
abbrev pub welcome : Externals → Text → ℕ → Text → Site → Reply × Site
welcome ext raw now email site = elim (find_user email site.db) [
  | none ↦ (server_error_500, site)
  | some user ↦
      mail_token verification email (issue_email_verification ext raw now user site.db) site
]

abbrev pub after_registration :
    Externals → Text → ℕ → Text → Result AccountError (User × Db) → Site → Reply × Site
after_registration ext raw now email (err e) site = (refused_silently e, site)
after_registration ext raw now email (ok (user, db)) site =
    welcome ext raw now email (record site { db = db })

-- `RegisterView.post`; `raw` is the token that is generated.
unfoldable pub register :
    Externals → Validators → Bool → ℕ → ℕ → ℕ → Text → Text → Text → Site → Reply × Site
register ext v required now pk salt raw email_input password_input site =
    elim (email_field v email_input) [
      | none ↦ (bad_request_400, site)
      | some email ↦ elim (new_password_field v password_input) [
        | none ↦ (bad_request_400, site)
        | some password ↦
            after_registration ext raw now email
              (register_account ext required now pk salt email password site.db) site
      ]
    ]

abbrev pub resend : Externals → Text → ℕ → Option User → Site → Reply × Site
resend ext raw now none site = (accepted_202, site)
resend ext raw now (some user) site =
    if user.is_email_verified
    then (accepted_202, site)
    else mail_token verification user.email (issue_email_verification ext raw now user site.db) site

-- `ResendVerificationView.post`
unfoldable pub resend_verification : Externals → Validators → Text → ℕ → Text → Site → Reply × Site
resend_verification ext v raw now email_input site = elim (email_field v email_input) [
  | none ↦ (bad_request_400, site)
  | some email ↦ resend ext raw now (find_user email site.db) site
]

abbrev pub reset_link : Externals → Text → ℕ → Option User → Site → Reply × Site
reset_link ext raw now none site = (accepted_202, site)
reset_link ext raw now (some user) site =
    mail_token password_reset user.email (issue_password_reset ext raw now user site.db) site

-- `PasswordResetView.post`
unfoldable pub request_reset : Externals → Validators → Text → ℕ → Text → Site → Reply × Site
request_reset ext v raw now email_input site = elim (email_field v email_input) [
  | none ↦ (bad_request_400, site)
  | some email ↦ reset_link ext raw now (find_user email site.db) site
]

-- The one exception that a view turns into a 400.
abbrev pub answer : (AccountError → Reply) → Result AccountError (User × Db) → Site → Reply × Site
answer refusal (ok (user, db)) site = (ok_200, record site { db = db })
answer refusal (err e) site = (refusal e, site)

abbrev pub refuse_verification : AccountError → Reply
refuse_verification invalid_verification_token = bad_request_400
refuse_verification _ = server_error_500

-- `VerifyEmailView.post`
unfoldable pub confirm_email : Externals → ℕ → Text → Site → Reply × Site
confirm_email ext now token_input site = elim (char_field 256 token_input) [
  | none ↦ (bad_request_400, site)
  | some token ↦ answer refuse_verification (verify_email ext token now site.db) site
]

abbrev pub refuse_reset : AccountError → Reply
refuse_reset invalid_password_reset_token = bad_request_400
refuse_reset _ = server_error_500

-- `PasswordResetConfirmView.post`
unfoldable pub confirm_reset : Externals → Validators → ℕ → ℕ → Text → Text → Site → Reply × Site
confirm_reset ext v salt now token_input password_input site = elim (char_field 256 token_input) [
  | none ↦ (bad_request_400, site)
  | some token ↦ elim (new_password_field v password_input) [
    | none ↦ (bad_request_400, site)
    | some password ↦ answer refuse_reset (reset_password ext salt token password now site.db) site
  ]
]

-- `_send_to_account`: a notice goes out to a verified address only.
abbrev pub notify_account : (Text → Mail) → Text → Site → Site
notify_account message to site =
    if exists_by (λ u. text_eq u.email to && u.is_email_verified) site.db.users
    then record site { outbox = message to ∷ site.outbox }
    else site

abbrev pub after_change : User → Result AccountError (User × Db) → Site → Reply × Site
after_change user (ok (u, db)) site =
    (ok_200, notify_account password_changed user.email (record site { db = db }))
after_change user (err incorrect_password) site = (bad_request_400, site)
after_change user (err e) site = (server_error_500, site)

-- `PasswordChangeView.post`, for the signed-in user.
unfoldable pub post_change : Externals → Validators → ℕ → User → Text → Text → Site → Reply × Site
post_change ext v salt user current_input password_input site =
    elim (char_field 128 current_input) [
      | none ↦ (bad_request_400, site)
      | some current ↦ elim (new_password_field v password_input) [
        | none ↦ (bad_request_400, site)
        | some password ↦
            after_change user (change_password ext salt user current password site.db) site
      ]
    ]
