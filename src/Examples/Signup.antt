-- ===== src/Examples/Signup.antt =====
-- An administrator admits an address, which registers, verifies itself and resets its password.
use e_platform.Prelude.{
  ℕ, Bool, refl, ap, sym, ◌⊎◌, ◌≡◌, ◌≢◌, ◌≤◌, ◌<◌, ◌+◌, ◌==◌, true, false, none, some, [], ◌∷◌,
}
use e_platform.Prelude.Rows.{update_by}
use e_platform.Prelude.Members.{In}
use e_platform.Prelude.Keyed.{IsKeyed}
use e_platform.Prelude.Result.{ok, err}
use e_platform.Prelude.Text.{Text, codes, text_eq, text_eq_refl, strip, is_nonempty}
use e_platform.Accounts.{User, is_platform_administrator}
use e_platform.Accounts.Model.{
  Externals, BetaInvitation, Token, Db, AccountError, invalid_verification_token,
  invitation_not_usable, admits_user, admits_invitation, admits_token,
}
use e_platform.Accounts.Registration.{
  registered, create_account, register_account, consumed, consume_invitation, consume_reason,
}
use e_platform.Accounts.Invitations.{issue_invitation, invitation_lifetime, new_invitation}
use e_platform.Accounts.Tokens.{
  issue_email_verification, verification_token_lifetime, verified, verify_email, reset_password,
  redeem, set_password, new_token,
}
use e_platform.Accounts.Reach.{none_yet, then_step, issue, registration, Run-Admitted}
use e_platform.Accounts.Calm.{Admitted}
use e_platform.Accounts.Admission.{StaysSpent}
use e_platform.Accounts.Welcome.{invited_registers}
use e_platform.Accounts.Redeeming.{HasPassword, reset_closes, issue-verify}
use e_platform.Core.Audit.{
  AuditLog, beta_invitation_issued, beta_invitation_consumed, invitation_model, issue_details,
  invitation_details, record_admin_action, client_ip,
}
use e_platform.Entitlements.Model.{days}
use e_platform.Examples.People.{manager}

abbrev checks : Text → Text → Bool
checks [] s = false
checks (salt ∷ hash) s = text_eq hash s

-- A digest that marks what it hashes, and a password hash that keeps its salt.
abbrev pub plain : Externals
plain = record {
  lower = λ s. s;
  pg_lower = λ s. s;
  normalize_email = λ s. s;
  sha256 = λ s. 35 ∷ s;
  make_password = λ salt s. salt ∷ s;
  check_password = checks;
}

abbrev pub address : Text
address = codes "n@x.org"

abbrev pub secret : Text
secret = codes "s3cret"

abbrev pub empty_accounts : Db
empty_accounts = record {
  users = [];
  profiles = [];
  invitations = [];
  verification_tokens = [];
  reset_tokens = [];
  audit = [];
}

abbrev first_invitation : BetaInvitation
first_invitation = new_invitation 40 address 100 (100 + 2592000000000)

abbrev newcomer : User
newcomer = registered plain 41 7 address secret

abbrev issue_row : AuditLog
issue_row = record {
  actor = 3;
  actor_label = codes "l@x.org";
  action = beta_invitation_issued;
  target = record { model_name = invitation_model; pk = 40 };
  reason = codes "r";
  details = issue_details address (100 + 2592000000000) false;
  ip_address = none;
}

abbrev invited_accounts : Db
invited_accounts = record empty_accounts {
  invitations = first_invitation ∷ [];
  audit = issue_row ∷ [];
}

abbrev spent_row : AuditLog
spent_row = record {
  actor = 41;
  actor_label = address;
  action = beta_invitation_consumed;
  target = record { model_name = invitation_model; pk = 40 };
  reason = consume_reason;
  details = invitation_details address;
  ip_address = none;
}

abbrev joined_accounts : Db
joined_accounts = record empty_accounts {
  users = newcomer ∷ [];
  profiles = record { user = 41; display_name = [] } ∷ [];
  invitations = consumed 200 41 first_invitation ∷ [];
  audit = spent_row ∷ issue_row ∷ [];
}

invites :
    issue_invitation plain 40 100 (some manager) address (codes "r") none empty_accounts
    ≡ ok (first_invitation, invited_accounts)
unfolding issue_invitation invitation_lifetime days strip is_platform_administrator
    admits_invitation text_eq record_admin_action client_ip
invites = refl

joins :
    register_account plain true 200 41 7 address secret invited_accounts
    ≡ ok (newcomer, joined_accounts)
unfolding register_account create_account consume_invitation strip admits_user text_eq
    record_admin_action client_ip
joins = refl

Run-Admitted_example :
    (((u : User) → In u joined_accounts.users → Admitted plain u joined_accounts)
      × IsKeyed (λ i. i.pk) joined_accounts.invitations)
    × StaysSpent empty_accounts.invitations joined_accounts.invitations
Run-Admitted_example =
    Run-Admitted plain empty_accounts joined_accounts (λ s t m. absurd m) (λ u m. absurd m)
      (then_step
        (then_step none_yet
          (issue 40 100 (some manager) address (codes "r") none first_invitation refl invites))
        (registration 200 41 7 address secret newcomer joins))

stored_address : strip (strip address) ≡ strip address
unfolding strip
stored_address = refl

kept_address : strip address ≡ address
unfolding strip
kept_address = refl

no_account : admits_user plain newcomer [] ≡ true
unfolding admits_user
no_account = refl

invited_registers_example :
    ((200 < 100 + invitation_lifetime)
      × (out : Db) × (register_account plain true 200 41 7 address secret invited_accounts
          ≡ ok (newcomer, out))
      × (out.users ≡ newcomer ∷ []))
    ⊎ ((100 + invitation_lifetime ≤ 200)
        × (register_account plain true 200 41 7 address secret invited_accounts
            ≡ err invitation_not_usable))
invited_registers_example =
    invited_registers plain 40 100 200 41 7 (some manager) address (codes "r") address secret none
      empty_accounts invites refl refl (ap is_nonempty kept_address) refl (sym stored_address)
      no_account

abbrev mail_token : Token
mail_token = new_token plain newcomer (codes "raw") (300 + 86400000000)

abbrev mailed_accounts : Db
mailed_accounts = record joined_accounts { verification_tokens = mail_token ∷ [] }

mails :
    issue_email_verification plain (codes "raw") 300 newcomer joined_accounts
    ≡ ok (codes "raw", mailed_accounts)
unfolding issue_email_verification verification_token_lifetime days admits_token
mails = refl

issue-verify_example :
    (400 < 300 + verification_token_lifetime
      → (db'' : Db) × (verify_email plain (codes "raw") 400 mailed_accounts
          ≡ ok (verified newcomer, db''))
        × (db''.users ≡ update_by (λ u. u.pk == newcomer.pk) verified joined_accounts.users)
        × ((again : ℕ)
            → verify_email plain (codes "raw") again db'' ≡ err invalid_verification_token))
    × (300 + verification_token_lifetime ≤ 400
        → verify_email plain (codes "raw") 400 mailed_accounts ≡ err invalid_verification_token)
issue-verify_example =
    issue-verify plain (codes "raw") 300 400 newcomer joined_accounts refl refl mails

abbrev reset_accounts : Db
reset_accounts = record joined_accounts {
  reset_tokens =
      new_token plain newcomer (codes "raw") 900 ∷ new_token plain newcomer (codes "old") 900 ∷ [];
}

abbrev closed_accounts : Db
closed_accounts = record joined_accounts {
  users = set_password plain 8 (codes "new") newcomer ∷ [];
  reset_tokens =
      record (new_token plain newcomer (codes "raw") 900) { consumed_at = some 500 }
      ∷ record (new_token plain newcomer (codes "old") 900) { consumed_at = some 500 }
      ∷ [];
}

resets :
    reset_password plain 8 (codes "raw") (codes "new") 500 reset_accounts
    ≡ ok (set_password plain 8 (codes "new") newcomer, closed_accounts)
unfolding reset_password redeem text_eq
resets = refl

reset_closes_example :
    ((t : Token) × In t reset_accounts.reset_tokens
      × (t.token_hash ≡ plain.sha256 (codes "raw"))
      × (41 ≡ t.user))
    × HasPassword plain (codes "new") 41 joined_accounts.users closed_accounts.users
    × In (set_password plain 8 (codes "new") newcomer) closed_accounts.users
    × ((raw : Text) (later : ℕ) (refusal : AccountError) (t : Token)
        → redeem plain raw later refusal closed_accounts.reset_tokens ≡ ok t
        → t.user ≢ 41)
reset_closes_example =
    reset_closes plain 8 (codes "raw") (codes "new") 500 reset_accounts (λ n p. text_eq_refl p)
      resets
