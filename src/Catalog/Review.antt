-- ===== src/Catalog/Review.antt =====
-- The review of courses in backend/apps/catalog/services.py: the table of moves, the services that
-- make them, and the messages that they queue on commit.
use e_platform.Prelude.{ℕ, Bool, true, false, Option, none, some, List, [], ◌∷◌, ◌++◌, map, ◌==◌}
use e_platform.Prelude.Rows.{first_by, update_by}
use e_platform.Prelude.Result.{Result, ok, err, ◌>>=◌, ◌>>◌, require, or_raise}
use e_platform.Prelude.Text.{Text, codes, strip}
use e_platform.Accounts.{User, is_admin_role}
use e_platform.Core.Audit.{
  NotAuditable, AuditLog, AdminAction, course_approved, course_rejected, course_changes_requested,
  course_model, course_details, Request, record_admin_action,
}
use e_platform.Catalog.Model.{
  CourseStatus, draft, in_review, published, archived, Course, ReviewAction, submitted, approved,
  rejected, changes_requested, CourseReviewEvent, Message, course_submitted, course_reviewed, Db,
  admits_course,
}

pub data CatalogError : Type 0 where
  invalid_transition not_permitted integrity_error missing_row key_error : CatalogError
  refused_order : CatalogError
  not_auditable : NotAuditable → CatalogError

-- `ALLOWED_TRANSITIONS`
unfoldable pub allowed_transition : CourseStatus → CourseStatus → Bool
allowed_transition draft in_review = true
allowed_transition in_review published = true
allowed_transition in_review draft = true
allowed_transition published archived = true
allowed_transition archived draft = true
allowed_transition _ _ = false

-- `_AUDIT_FOR_REVIEW_ACTION`; `none` is a `KeyError`.
abbrev pub audit_for : ReviewAction → Option AdminAction
audit_for rejected = some course_rejected
audit_for changes_requested = some course_changes_requested
audit_for submitted = none
audit_for approved = none

-- `_require_transition`, `_require_owner`, `_require_admin`
abbrev pub require_transition : Course → CourseStatus → Result CatalogError (Unit {0})
require_transition course target =
    require (allowed_transition course.status target) invalid_transition

abbrev pub require_owner : Course → User → Result CatalogError (Unit {0})
require_owner course user = require (course.instructor.pk == user.pk) not_permitted

abbrev pub require_admin : User → Result CatalogError (Unit {0})
require_admin user = require (is_admin_role user.role) not_permitted

-- `course.save(update_fields=...)`
unfoldable pub save_course : (Course → Course) → ℕ → Db → Result CatalogError Db
save_course columns pk db = do
  row ← or_raise (first_by (λ c. c.pk == pk) db.courses) missing_row
  require (admits_course (columns row) db.courses) integrity_error
  ok (record db { courses = update_by (λ c. c.pk == pk) columns db.courses })

-- The columns that a transition writes.
abbrev pub set_status : CourseStatus → Course → Course
set_status status c = record c { status = status }

abbrev pub set_published : CourseStatus → Option ℕ → Course → Course
set_published status at c = record c { status = status; published_at = at }

-- A `CourseReviewEvent` row.
abbrev pub review : Course → User → ReviewAction → Text → CourseReviewEvent
review course user action notes = record {
  course = course.pk;
  actor = user.pk;
  action = action;
  notes = notes;
}

abbrev pub log_review : CourseReviewEvent → Db → Db
log_review e db = record db { review_events = e ∷ db.review_events }

abbrev pub audited : Result NotAuditable AuditLog → Result CatalogError AuditLog
audited (ok row) = ok row
audited (err e) = err (not_auditable e)

-- `a or b`
abbrev pub or_text : Text → Text → Text
or_text [] b = b
or_text (c ∷ a) b = c ∷ a

abbrev pub queue : List Message → Db → Db
queue ms db = record db { outbox = db.outbox ++ ms }

-- `_notify_reviewers`: one message to each address that `administrator_emails` returns on commit.
unfoldable pub notify_reviewers : List Text → Course → Db → Db
notify_reviewers admins course =
    queue (map (λ to. course_submitted to course.title course.instructor.email) admins)

-- `_notify_instructor_of_review`
unfoldable pub notify_instructor_of_review : Course → Text → Text → Db → Db
notify_instructor_of_review course decision notes =
    queue (course_reviewed course.instructor.email course.title decision (strip notes) ∷ [])

unfoldable pub submit_for_review :
    List Text → Course → User → Db → Result CatalogError (Course × Db)
submit_for_review admins course user db = do
  require_owner course user
  require_transition course in_review
  db' ← save_course (set_status in_review) course.pk db
  ok (
    set_status in_review course,
    notify_reviewers admins course (log_review (review course user submitted []) db'),
  )

-- The event and the audit row that a decision writes.
abbrev pub decide :
    Course
    → User
    → ReviewAction
    → AdminAction
    → Text
    → Text
    → Option Request
    → Db
    → Result CatalogError Db
decide course user action audit_action notes default request db = do
  row ← audited (
      record_admin_action (some user) audit_action
        (record { model_name = course_model; pk = course.pk }) (or_text (strip notes) default)
        request (course_details course.slug))
  ok (record db {
    review_events = review course user action notes ∷ db.review_events;
    audit = row ∷ db.audit;
  })

unfoldable pub approve :
    ℕ → Course → User → Text → Option Request → Db → Result CatalogError (Course × Db)
approve now course user notes request db = do
  require_admin user
  require_transition course published
  db' ← save_course (set_published published (some now)) course.pk db
  db'' ←
      decide course user approved course_approved notes (codes "Approved with no notes recorded")
        request db'
  ok (
    set_published published (some now) course,
    notify_instructor_of_review course (codes "Approved") notes db'',
  )

abbrev pub decision_name : ReviewAction → Text
decision_name changes_requested = codes "Changes requested"
decision_name submitted = codes "Rejected"
decision_name approved = codes "Rejected"
decision_name rejected = codes "Rejected"

-- `_return_to_draft`
unfoldable pub return_to_draft :
    Course → User → ReviewAction → Text → Option Request → Db → Result CatalogError (Course × Db)
return_to_draft course user action notes request db = do
  require_admin user
  require_transition course draft
  db' ← save_course (set_published draft none) course.pk db
  audit_action ← or_raise (audit_for action) key_error
  db'' ←
      decide course user action audit_action notes
        (codes "Returned to draft with no notes recorded") request db'
  ok (
    set_published draft none course,
    notify_instructor_of_review course (decision_name action) notes db'',
  )

unfoldable pub reject :
    Course → User → Text → Option Request → Db → Result CatalogError (Course × Db)
reject course user = return_to_draft course user rejected

unfoldable pub request_changes :
    Course → User → Text → Option Request → Db → Result CatalogError (Course × Db)
request_changes course user = return_to_draft course user changes_requested

unfoldable pub archive : Course → User → Db → Result CatalogError (Course × Db)
archive course user db = do
  require_admin user
  require_transition course archived
  db' ← save_course (set_published archived none) course.pk db
  ok (set_published archived none course, db')
