-- ===== src/Media/Selectors.antt =====
-- backend/apps/media_assets/selectors.py: the assets that a caller may manage.
use e_platform.Prelude.{ℕ, List, [], ◌==◌, if◌then◌else◌}
use e_platform.Prelude.Rows.{filter_by}
use e_platform.Accounts.{Visitor, absent, anonymous, account, is_platform_administrator}
use e_platform.Entitlements.Resolver.{Lesson}
use e_platform.Media.Model.{MediaAsset}

-- `lesson_of` is the join on the lesson and its course.
unfoldable pub assets_manageable_by : (ℕ → Lesson) → Visitor → List MediaAsset → List MediaAsset
assets_manageable_by lesson_of absent rows = []
assets_manageable_by lesson_of anonymous rows = []
assets_manageable_by lesson_of (account user) rows =
    if is_platform_administrator user
    then rows
    else filter_by (λ a. (lesson_of a.lesson).instructor == user.pk) rows
