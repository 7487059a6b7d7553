-- ===== src/Examples/Doors.antt =====
-- The public endpoints of accounts, asked about a free address and about one with a capital.
use e_platform.Prelude.{
  ℕ, ◌+◌, ◌≡◌, ◌≢◌, refl, true, false, ◌&&◌, none, some, [], ◌∷◌, leb, if◌then◌else◌, map, arith,
}
use e_platform.Prelude.Members.{In}
use e_platform.Prelude.Result.{ok}
use e_platform.Prelude.Text.{Text, codes, strip, lstrip, is_space}
use e_platform.Accounts.{User}
use e_platform.Accounts.Model.{Externals, Db, admits_user}
use e_platform.Accounts.Registration.{registered, register_account, create_account}
use e_platform.Accounts.Endpoints.{
  Validators, Site, email_field, char_field, new_password_field, find_user, register,
  resend_verification, request_reset, accepted_202, server_error_500,
}
use e_platform.Accounts.Enumeration.{answers_uniform, capitals_stranded}
use e_platform.Accounts.Outcomes.{stored}
use e_platform.Examples.Signup.{plain, address, secret, empty_accounts}

-- `str.lower` on letters of ASCII.
abbrev small : ℕ → ℕ
small c = if leb 65 c && leb c 90 then c + 32 else c

abbrev lowering : Externals
lowering = record plain { lower = map small; pg_lower = map small }

abbrev lenient : Validators
lenient = record { is_address = λ s. true; validate_password = λ s. true }

abbrev empty_site : Site
empty_site = record { db = empty_accounts; outbox = [] }

given_address : email_field lenient address ≡ some address
unfolding email_field strip lstrip is_space
given_address = refl

given_password : new_password_field lenient secret ≡ some secret
unfolding new_password_field char_field strip lstrip is_space
given_password = refl

answers_uniform_example :
    ((register plain lenient false 200 41 7 (codes "raw") address secret empty_site).0
      ≡ accepted_202)
    × ((resend_verification plain lenient (codes "raw") 200 address empty_site).0 ≡ accepted_202)
    × ((request_reset plain lenient (codes "raw") 200 address empty_site).0 ≡ accepted_202)
answers_uniform_example =
    answers_uniform plain lenient false 200 41 7 (codes "raw") address secret empty_site
      given_address given_password refl (refl, refl) (omega arith)

abbrev capital : Text
capital = codes "N@x.org"

abbrev stranded : User
stranded = registered lowering 41 7 capital secret

abbrev stranded_db : Db
stranded_db = record empty_accounts {
  users = stranded ∷ [];
  profiles = record { user = 41; display_name = [] } ∷ [];
}

given_capital : email_field lenient capital ≡ some capital
unfolding email_field strip lstrip is_space
given_capital = refl

not_seen : find_user capital empty_accounts ≡ none
unfolding find_user
not_seen = refl

registers :
    register_account lowering false 200 41 7 capital secret empty_accounts
    ≡ ok (stranded, stranded_db)
unfolding register_account create_account admits_user
registers = refl

differs : stored lowering capital ≢ capital
differs e = ground (arith, e)

capitals_stranded_example :
    (register lowering lenient false 200 41 7 (codes "raw") capital secret empty_site
      ≡ (server_error_500, record empty_site { db = stranded_db }))
    × In stranded stranded_db.users
    × (resend_verification lowering lenient
          (codes "raw")
          200
          capital
          (record empty_site { db = stranded_db })
        ≡ (accepted_202, record empty_site { db = stranded_db }))
    × (request_reset lowering lenient
          (codes "raw")
          200
          capital
          (record empty_site { db = stranded_db })
        ≡ (accepted_202, record empty_site { db = stranded_db }))
capitals_stranded_example =
    capitals_stranded lowering lenient false 200 41 7 (codes "raw") capital secret empty_site
      given_capital given_password differs not_seen registers
