-- ===== src/Accounts/Outcomes.antt =====
-- What a registration of backend/apps/accounts/services.py can come to.
use e_platform.Prelude.{
  ℕ, ◌≡◌, ◌⊎◌, inl, inr, refl, ap, ◌∙◌, ◌≤◌, Bool, true, none, some, List, [], ◌∷◌, ◌==◌, arith,
  Bool-cases, Option-cases, ==→eq,
}
use e_platform.Prelude.Rows.{count_by, first_by, update_by}
use e_platform.Prelude.Result.{Result, ok, err, ◌>>=◌, Result-cases}
use e_platform.Prelude.Text.{Text, strip, is_space, is_nonempty}
use e_platform.Accounts.{User}
use e_platform.Accounts.Model.{
  Externals, Db, BetaInvitation, AccountError, email_already_registered, invitation_not_found,
  invitation_not_usable, admits_user,
}
use e_platform.Accounts.Registration.{
  registered, register_account, create_account, consume_invitation, admit, is_for, is_usable,
  consumed, the_one, consume_reason,
}
use e_platform.Core.Audit.{record_admin_action}
use e_platform.Accounts.Endpoints.{accepted_202, refused_silently}

-- `lower` of the address, as an account stores it.
abbrev pub stored : Externals → Text → Text
stored ext email = ext.lower (ext.normalize_email email)

abbrev pub with_account : Externals → ℕ → ℕ → Text → Text → Db → Db
with_account ext pk salt email password db = record db {
  users = registered ext pk salt email password ∷ db.users;
  profiles = record { user = pk; display_name = [] } ∷ db.profiles;
}

created :
    (ext : Externals) (pk salt : ℕ) (email password : Text) (db : Db)
    → is_nonempty email ≡ true
    → (create_account ext pk salt email password db ≡ err email_already_registered)
      ⊎ (create_account ext pk salt email password db
          ≡ ok (registered ext pk salt email password, with_account ext pk salt email password db))
unfolding create_account
created ext pk salt email password db n =
    elim (Bool-cases (admits_user ext (registered ext pk salt email password) db.users)) [
      | inl e ↦ inr (ground (arith, e, n))
      | inr e ↦ inl (ground (arith, e, n))
    ]

count_kept :
    (p q : BetaInvitation → Bool) (f : BetaInvitation → BetaInvitation) (rows : List BetaInvitation)
    → ((i : BetaInvitation) → p (f i) ≡ p i)
    → count_by p (update_by q f rows) ≡ count_by p rows
count_kept p q f [] h = refl
count_kept p q f (x ∷ rows) h = elim (Bool-cases (q x)) [
  | inl e ↦ rw (e, h x, count_kept p q f rows h)
  | inr e ↦ rw (e, count_kept p q f rows h)
]

count_narrower :
    (p q : BetaInvitation → Bool) (rows : List BetaInvitation)
    → ((i : BetaInvitation) → q i ≡ true → p i ≡ true)
    → count_by q rows ≤ count_by p rows
count_narrower p q [] h = omega arith
count_narrower p q (x ∷ rows) h = ground (arith, h x, count_narrower p q rows h)

counted_first :
    (p : BetaInvitation → Bool) (rows : List BetaInvitation)
    → count_by p rows ≡ 1
    → (i : BetaInvitation) × (first_by p rows ≡ some i)
counted_first p [] h = absurd (omega (arith, h))
counted_first p (x ∷ rows) h = elim (Bool-cases (p x)) [
  | inl e ↦ (x, ground (arith, e))
  | inr e ↦ let (i, k) = counted_first p rows (ground arith) in (i, ground (arith, e, k))
]

-- What an admission can come to, when an address has one invitation at most.
abbrev Admits : Result AccountError (BetaInvitation × Db) → Db → Type 0
Admits r db =
    (r ≡ err invitation_not_found)
    ⊎ ((r ≡ err invitation_not_usable)
        ⊎ ((i : BetaInvitation) × (db' : Db) × (r ≡ ok (i, db'))
            × (db'.users ≡ db.users)
            × (db'.verification_tokens ≡ db.verification_tokens)))

pub spent_one :
    (ext : Externals) (now : ℕ) (user : User) (db : Db)
    → count_by (is_for ext (strip user.email)) db.invitations ≤ 1
    → count_by (is_usable ext (strip user.email) now) db.invitations ≡ 1
    → (i : BetaInvitation) × (the_one
          (is_for ext (strip user.email))
          (update_by (is_usable ext (strip user.email) now) (consumed now user.pk) db.invitations)
        ≡ ok i)
spent_one ext now user db most one =
    let p = is_for ext (strip user.email) in
    let q = is_usable ext (strip user.email) now in
    let rows = update_by q (consumed now user.pk) db.invitations in
    let kept : count_by p rows ≡ count_by p db.invitations =
      count_kept p q (consumed now user.pk) db.invitations (λ i. refl) in
    let less = count_narrower p q db.invitations (λ i h. ground arith) in
    let exactly : count_by p rows ≡ 1 = omega (arith, kept, less, most, one) in
    let (i, first) = counted_first p rows exactly in (i, rw (exactly, first) refl)

pub reason_words : is_nonempty (strip consume_reason) ≡ true
unfolding strip is_space
reason_words = refl

admission_outcome :
    (ext : Externals) (now : ℕ) (user : User) (db : Db)
    → is_nonempty user.email ≡ true
    → count_by (is_for ext (strip user.email)) db.invitations ≤ 1
    → Admits (consume_invitation ext true now user none db) db
unfolding consume_invitation record_admin_action
admission_outcome ext now user db n most = elim (Bool-cases (is_nonempty (strip user.email))) [
  | inr e ↦ inl (ground (arith, e))
  | inl e ↦
      elim (Bool-cases (count_by (is_usable ext (strip user.email) now) db.invitations == 1)) [
        | inr k ↦ elim (Option-cases (first_by (is_for ext (strip user.email)) db.invitations)) [
          | inl absent ↦ inl (ground (arith, e, k, absent))
          | inr (i, there) ↦ inr (inl (ground (arith, e, k, there)))
        ]
        | inl k ↦
            let (i, found) = spent_one ext now user db most (==→eq _ 1 k) in
            elim (Result-cases (consume_invitation ext true now user none db)) [
              | inl (x, bad) ↦ absurd (ground (arith, e, k, found, n, bad, reason_words))
              | inr (done, good) ↦
                  inr (inr (done.0, done.1, good, ground (arith, good), ground (arith, good)))
            ]
      ]
]

-- What a registration can come to: silence, or an account under the stored address.
abbrev pub Registers : Externals → Text → Result AccountError (User × Db) → Db → Type 0
Registers ext email r db =
    ((e : AccountError) × (r ≡ err e) × (refused_silently e ≡ accepted_202))
    ⊎ ((u : User) × (db' : Db) × (r ≡ ok (u, db'))
        × (u.email ≡ stored ext email)
        × (db'.users ≡ u ∷ db.users)
        × (db'.verification_tokens ≡ db.verification_tokens))

pub registration_outcome :
    (ext : Externals) (required : Bool) (now pk salt : ℕ) (email password : Text) (db : Db)
    → is_nonempty email ≡ true
    → is_nonempty (stored ext email) ≡ true
    → count_by (is_for ext (strip (stored ext email))) db.invitations ≤ 1
    → Registers ext email (register_account ext required now pk salt email password db) db
unfolding register_account
registration_outcome ext required now pk salt email password db n m most =
    elim (created ext pk salt email password db n) [
      | inl e ↦ inl (email_already_registered, ap (λ r. r >>= admit ext required now) e, refl)
      | inr e ↦
          let user = registered ext pk salt email password in
          let after = with_account ext pk salt email password db in
          elim (Bool-cases required) [
            | inr open_to_all ↦ inr (
              user,
              after,
              ap (λ r. r >>= admit ext required now) e ∙ rw open_to_all refl,
              refl,
              refl,
              refl,
            )
            | inl closed ↦
                let admitted : register_account ext required now pk salt email password db
                    ≡ admit ext true now (user, after) =
                  ap (λ r. r >>= admit ext required now) e ∙ rw closed refl in
                elim (admission_outcome ext now user after m most) [
                  | inl x ↦ inl (
                    invitation_not_found,
                    admitted ∙ ap (λ r. r >>= λ spent. ok (user, spent.1)) x,
                    refl,
                  )
                  | inr (inl x) ↦ inl (
                    invitation_not_usable,
                    admitted ∙ ap (λ r. r >>= λ spent. ok (user, spent.1)) x,
                    refl,
                  )
                  | inr (inr (i, db', x, users, tokens)) ↦ inr (
                    user,
                    db',
                    admitted ∙ ap (λ r. r >>= λ spent. ok (user, spent.1)) x,
                    refl,
                    users,
                    tokens,
                  )
                ]
          ]
    ]
