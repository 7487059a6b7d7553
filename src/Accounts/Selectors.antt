-- ===== src/Accounts/Selectors.antt =====
-- backend/apps/accounts/selectors.py: the administrators who hear of a review, and one's own row.
use e_platform.Prelude.{Bool, ◌&&◌, Option, none, some, List, map, ◌==◌}
use e_platform.Prelude.Rows.{filter_by, first_by}
use e_platform.Prelude.Sorting.{sort_by}
use e_platform.Prelude.Text.{Text}
use e_platform.Accounts.{User, is_admin_role}
use e_platform.Accounts.Model.{StudentProfile, Db}

-- `le` is the collation of the database.
unfoldable pub administrator_emails : (Text → Text → Bool) → Db → List Text
administrator_emails le db =
    sort_by le (map (λ u. u.email) (filter_by (λ u. is_admin_role u.role && u.is_active) db.users))

-- The user with the profile that is joined to it, if it has one; `none` is `User.DoesNotExist`.
unfoldable pub get_user_for_me : User → Db → Option (User × Option StudentProfile)
get_user_for_me user db = elim (first_by (λ u. u.pk == user.pk) db.users) [
  | none ↦ none
  | some u ↦ some (u, first_by (λ p. p.user == u.pk) db.profiles)
]
