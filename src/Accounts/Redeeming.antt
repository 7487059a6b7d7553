-- ===== src/Accounts/Redeeming.antt =====
-- What it takes to redeem a token of backend/apps/accounts/services.py, and that it works once.
use e_platform.Prelude.{
  ℕ, ◌+◌, ◌≤◌, ◌<◌, ◌≡◌, ◌≢◌, inl, inr, refl, sym, subst, ap, ◌∙◌, Bool, true, none, some, List, [],
  ◌∷◌, ◌==◌, arith, Bool-cases, Option-cases, ==-refl, ==→eq, false,
}
use e_platform.Prelude.Rows.{first_by, update_by}
use e_platform.Prelude.Members.{In, In-update, update-In, first-In}
use e_platform.Prelude.Result.{ok, err, ◌>>=◌, or_raise}
use e_platform.Prelude.Text.{Text, text_eq, text_eq_refl, text_eq→eq, is_nonempty}
use e_platform.Accounts.{User}
use e_platform.Accounts.Model.{
  Externals, Token, Db, AccountError, missing_row, invalid_verification_token,
  invalid_password_reset_token,
}
use e_platform.Accounts.Tokens.{
  verification_token_lifetime, issue_email_verification, redeem, verify_email, reset_password,
  new_token, consume, consume_row, is_outstanding, verified, verify_with, save_user, set_password,
}
use e_platform.Accounts.Calm.{reset_rows}

-- The first row of a test that a write keeps is the first one afterwards, written.
first_update :
    (p q : Token → Bool) (f : Token → Token) (rows : List Token) (t : Token)
    → ((x : Token) → p (f x) ≡ p x)
    → first_by p rows ≡ some t
    → q t ≡ true
    → first_by p (update_by q f rows) ≡ some (f t)
first_update p q f [] t keeps h hit = cc
first_update p q f (x ∷ rows) t keeps h hit = elim (Bool-cases (p x)) [
  | inl e ↦
      let same : x ≡ t = ground arith in
      let now_hit : q x ≡ true = ap q same ∙ hit in let kept = keeps x in ground arith
  | inr e ↦
      let rest = first_update p q f rows t keeps (ground arith) hit in
      let kept = keeps x in elim (Bool-cases (q x)) [ inl k ↦ ground arith | inr k ↦ ground arith ]
]

-- A token that was redeemed is found again, consumed.
abbrev has_hash : Externals → Text → Token → Bool
has_hash ext token t = text_eq t.token_hash (ext.sha256 token)

module _ (ext : Externals) (token : Text) (refusal : AccountError) where
  redeemed :
      (now : ℕ) (rows : List Token) (t : Token)
      → redeem ext token now refusal rows ≡ ok t
      → first_by (has_hash ext token) rows ≡ some t
  unfolding redeem
  redeemed now rows t h = ground arith

  refused :
      (later at : ℕ) (rows : List Token) (t : Token)
      → first_by (has_hash ext token) rows ≡ some t
      → t.consumed_at ≡ some at
      → redeem ext token later refusal rows ≡ err refusal
  unfolding redeem
  refused later at rows t h e = ground arith

  spent :
      (now later : ℕ) (rows : List Token) (t : Token)
      → redeem ext token now refusal rows ≡ ok t
      → redeem ext token later refusal (consume_row now t rows) ≡ err refusal
  spent now later rows t h =
      refused later now (consume_row now t rows) (consume now t)
        (first_update (has_hash ext token) (λ r. text_eq r.token_hash t.token_hash) (consume now)
          rows t (λ x. refl) (redeemed now rows t h) (text_eq_refl t.token_hash))
        refl

  -- A token of a row that is not consumed, in time.
  usable :
      (later : ℕ) (rows : List Token) (t : Token)
      → first_by (has_hash ext token) rows ≡ some t
      → is_nonempty token ≡ true
      → t.consumed_at ≡ none
      → later < t.expires_at
      → redeem ext token later refusal rows ≡ ok t
  unfolding redeem
  usable later rows t h k e l = ground arith

  late :
      (later : ℕ) (rows : List Token) (t : Token)
      → first_by (has_hash ext token) rows ≡ some t
      → t.expires_at ≤ later
      → redeem ext token later refusal rows ≡ err refusal
  unfolding redeem
  late later rows t h l = ground arith

  open_token :
      (now : ℕ) (rows : List Token) (t : Token)
      → redeem ext token now refusal rows ≡ ok t
      → In t rows × (t.consumed_at ≡ none) × (now < t.expires_at)
  unfolding redeem
  open_token now rows t h =
      let (m, e) = first-In (has_hash ext token) t rows (redeemed now rows t h) in
      (m, ground arith, ground arith)

verify_refused :
    (ext : Externals) (token : Text) (now : ℕ) (db : Db) (e : AccountError)
    → redeem ext token now invalid_verification_token db.verification_tokens ≡ err e
    → verify_email ext token now db ≡ err e
unfolding verify_email redeem
verify_refused ext token now db e h = ap (λ r. r >>= verify_with now db) h

verify_wrote :
    (ext : Externals) (token : Text) (now : ℕ) (db : Db) {u : User} {db' : Db}
    → verify_email ext token now db ≡ ok (u, db')
    → (t : Token) × (redeem ext token now invalid_verification_token db.verification_tokens ≡ ok t)
      × (db'.verification_tokens ≡ consume_row now t db.verification_tokens)
unfolding verify_email redeem
verify_wrote ext token now db {u} {db'} h =
    elim (Option-cases (first_by (has_hash ext token) db.verification_tokens)) [
      | inl e ↦ absurd (ground arith)
      | inr (t, e) ↦ (t, ground arith, ground arith)
    ]

reset_wrote :
    (ext : Externals) (salt : ℕ) (token new_password : Text) (now : ℕ) (db : Db) {u : User}
    {db' : Db}
    → reset_password ext salt token new_password now db ≡ ok (u, db')
    → (t : Token) × (redeem ext token now invalid_password_reset_token db.reset_tokens ≡ ok t)
      × (db'.reset_tokens
          ≡ update_by (is_outstanding u.pk) (consume now) (consume_row now t db.reset_tokens))
      × ((w : User) × In w db.users × (w.pk ≡ t.user) × (u ≡ set_password ext salt new_password w))
unfolding reset_password redeem
reset_wrote ext salt token new_password now db {u} {db'} h =
    elim (Option-cases (first_by (has_hash ext token) db.reset_tokens)) [
      | inl e ↦ absurd (ground arith)
      | inr (t, e) ↦ elim (Option-cases (first_by (λ r. r.pk == t.user) db.users)) [
        | inl missing ↦ absurd (ground arith)
        | inr (owner, there) ↦
            let (m, own) = first-In (λ r. r.pk == t.user) owner db.users there in
            (t, ground arith, ground arith, (owner, m, ==→eq owner.pk t.user own, ground arith))
      ]
    ]

-- The stored rows: those of the account have the new password, and the others are as they were.
abbrev pub HasPassword : Externals → Text → ℕ → List User → List User → Type 0
HasPassword ext password pk before after =
    ((v : User) → In v after → v.pk ≡ pk → ext.check_password v.password password ≡ true)
    × ((v : User) → In v before → v.pk ≢ pk → In v after)

set_password-HasPassword :
    (ext : Externals) (salt : ℕ) (password : Text) (pk : ℕ) (rows : List User)
    → ext.check_password (ext.make_password salt password) password ≡ true
    → HasPassword ext password pk rows
        (update_by (λ r. r.pk == pk) (set_password ext salt password) rows)
set_password-HasPassword ext salt password pk rows hashes = (
  λ v m own.
      let (w, k, was) = In-update (λ r. r.pk == pk) (set_password ext salt password) v rows m in
      elim (Bool-cases (w.pk == pk)) [
        | inl hit ↦
            let new : v ≡ set_password ext salt password w = rw hit at was in
            subst (λ x. ext.check_password x.password password ≡ true) (sym new) hashes
        | inr miss ↦
            let old : v ≡ w = rw miss at was in
            let same = ap (λ x. x.pk) old in absurd (ground arith)
      ],
  λ v m other.
      let miss : (v.pk == pk) ≡ false = ground arith in
      rw miss at (update-In (λ r. r.pk == pk) (set_password ext salt password) v rows m),
)

-- A row that was outstanding no longer is.
closed :
    (user now : ℕ) (rows : List Token) (t : Token)
    → In t (update_by (is_outstanding user) (consume now) rows)
    → t.consumed_at ≡ none
    → t.user ≢ user
closed user now rows t m e same =
    let (s, k, was) = In-update (is_outstanding user) (consume now) t rows m in
    elim (Bool-cases (is_outstanding user s)) [
      | inl hit ↦
          let new : t ≡ consume now s = rw hit at was in
          absurd (ground (arith, ap (λ x. x.consumed_at) new))
      | inr miss ↦
          let old : t ≡ s = rw miss at was in
          let own = ap (λ x. x.user) old in
          let left = ap (λ x. x.consumed_at) old in let key = ==-refl user in absurd (ground arith)
    ]

-- When a password is reset with a token, the stored row of the account that the token was issued to
-- accepts the new password and is in the table as it is returned, and no other account is written;
-- and no token of the account that was in the table, the redeemed one or another, can be redeemed in
-- the store that results, at any time. A password hash is taken to accept what was hashed.
pub reset_closes :
    (ext : Externals) (salt : ℕ) (token new_password : Text) (now : ℕ) (db : Db) {u : User}
    {db' : Db}
    → ((n : ℕ) (p : Text) → ext.check_password (ext.make_password n p) p ≡ true)
    → reset_password ext salt token new_password now db ≡ ok (u, db')
    → ((t : Token) × In t db.reset_tokens × (t.token_hash ≡ ext.sha256 token) × (u.pk ≡ t.user))
      × HasPassword ext new_password u.pk db.users db'.users
      × In u db'.users
      × ((raw : Text) (later : ℕ) (refusal : AccountError) (t : Token)
          → redeem ext raw later refusal db'.reset_tokens ≡ ok t
          → t.user ≢ u.pk)
reset_closes ext salt token new_password now db {u} {db'} hashes h =
    let (t, found, rows, (w, known, owner, set)) =
      reset_wrote ext salt token new_password now db h in
    let (there, hash) =
      first-In (has_hash ext token) t db.reset_tokens
        (redeemed ext token invalid_password_reset_token now db.reset_tokens t found) in
    let users = (reset_rows ext db salt token new_password now h).0 in
    let key : u.pk ≡ w.pk = ap (λ x. x.pk) set in
    let hit : (w.pk == u.pk) ≡ true = ground (arith, key, ==-refl w.pk) in
    (
      (t, there, text_eq→eq t.token_hash (ext.sha256 token) hash, key ∙ owner),
      subst (HasPassword ext new_password u.pk db.users) (sym users)
          (set_password-HasPassword ext salt new_password u.pk db.users (hashes salt new_password)),
      subst (In u) (sym users) (
          subst
            (λ x.
              In x (update_by (λ r. r.pk == u.pk) (set_password ext salt new_password) db.users))
            (sym set)
            (rw hit at (
              update-In (λ r. r.pk == u.pk) (set_password ext salt new_password) w db.users
                known))),
      λ raw later refusal s k.
          let (m, free, _) = open_token ext raw refusal later db'.reset_tokens s k in
          closed u.pk now (consume_row now t db.reset_tokens) s (subst (In s) rows m) free,
    )

module _ (ext : Externals) (raw : Text) (now : ℕ) (user : User) where
  abbrev mailed : Token
  mailed = new_token ext user raw (now + verification_token_lifetime)

  abbrev with_mailed : Db → Db
  with_mailed db = record db { verification_tokens = mailed ∷ db.verification_tokens }

  issued :
      (db : Db) {token : Text} {db' : Db}
      → issue_email_verification ext raw now user db ≡ ok (token, db')
      → (token ≡ raw) × (db' ≡ with_mailed db)
  unfolding issue_email_verification
  issued db {token} {db'} h = ground arith

  found_again : (rows : List Token) → first_by (has_hash ext raw) (mailed ∷ rows) ≡ some mailed
  found_again rows = rw (text_eq_refl (ext.sha256 raw))

  in_time :
      (later : ℕ) (db : Db)
      → is_nonempty raw ≡ true
      → first_by (λ u. u.pk == user.pk) db.users ≡ some user
      → later < now + verification_token_lifetime
      → (db'' : Db) × (verify_email ext raw later (with_mailed db) ≡ ok (verified user, db''))
        × (db''.users ≡ update_by (λ u. u.pk == user.pk) verified db.users)
        × ((again : ℕ) → verify_email ext raw again db'' ≡ err invalid_verification_token)
  unfolding verify_email
  in_time later db n own l =
      let rows = mailed ∷ db.verification_tokens in
      let there : redeem ext raw later invalid_verification_token rows ≡ ok mailed =
        usable ext raw invalid_verification_token later rows mailed
          (found_again db.verification_tokens) n refl l in
      let after = with_mailed db in
      let marked : Db =
        save_user verified user.pk
          (record after { verification_tokens = consume_row later mailed rows }) in
      (
        marked,
        ap (λ r. r >>= verify_with later after) there
            ∙ ap
                (λ o. or_raise o missing_row >>= λ u. ok (
                  verified u,
                  save_user verified u.pk
                      (record after { verification_tokens = consume_row later mailed rows }),
                ))
                own,
        refl,
        λ again.
            verify_refused ext raw again marked invalid_verification_token
              (spent ext raw invalid_verification_token later again rows mailed there),
      )

-- A verification token that was issued to an account of the table verifies the address of that
-- account, once, within VERIFICATION_TOKEN_LIFETIME: presented before its expiry it marks the
-- account, and presented again at any time, or at first after the expiry, it is refused.
pub issue-verify :
    (ext : Externals) (raw : Text) (now later : ℕ) (user : User) (db : Db) {token : Text} {db' : Db}
    → is_nonempty raw ≡ true
    → first_by (λ u. u.pk == user.pk) db.users ≡ some user
    → issue_email_verification ext raw now user db ≡ ok (token, db')
    → (later < now + verification_token_lifetime
        → (db'' : Db) × (verify_email ext token later db' ≡ ok (verified user, db''))
          × (db''.users ≡ update_by (λ u. u.pk == user.pk) verified db.users)
          × ((again : ℕ) → verify_email ext token again db'' ≡ err invalid_verification_token))
      × (now + verification_token_lifetime ≤ later
          → verify_email ext token later db' ≡ err invalid_verification_token)
issue-verify ext raw now later user db {token} {db'} n own h =
    let (same, after) = issued ext raw now user db h in
    rw (same, after)
      (
        in_time ext raw now user later db n own,
        λ l.
            verify_refused ext raw later (with_mailed ext raw now user db)
              invalid_verification_token
              (late ext raw invalid_verification_token later _ (mailed ext raw now user)
                (found_again ext raw now user db.verification_tokens) l),
      )
