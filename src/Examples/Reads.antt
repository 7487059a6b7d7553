-- ===== src/Examples/Reads.antt =====
-- Small stores that the selectors read: a drifted subscription, a published course with a lesson,
-- and a transcript of its teacher's.
use e_platform.Prelude.{
  ℕ, ◌<◌, ◌≡◌, ◌≢◌, ◌↔◌, refl, true, false, none, some, Option, List, [], ◌∷◌, inl, inr, sym, ◌∙◌,
}
use e_platform.Prelude.Keyed.{IsKeyed}
use e_platform.Prelude.Members.{In}
use e_platform.Prelude.Text.{Text, codes}
use e_platform.Accounts.{account}
use e_platform.Catalog.Content.{new_course}
use e_platform.Catalog.Model
use e_platform.Catalog.Model.{Course, published, video, a1, is_published}
use e_platform.Catalog.Selectors.{curriculum}
use e_platform.Catalog.Lessons.{Gate, retrieve, retrieve_by_slug, served_200}
use e_platform.Catalog.Served.{MayRead, served_iff}
use e_platform.Catalog.Visibility.{Offered, Offered-iff}
use e_platform.Entitlements.Model as Billing
use e_platform.Entitlements.Model.{Subscription, active, expired}
use e_platform.Entitlements.Resolver
use e_platform.Entitlements.Resolver.{decide_for}
use e_platform.Entitlements.Reconciliation.{reconciliation-resolver}
use e_platform.Entitlements.Selectors.{
  FindingCode, Finding, matching, grants, reconciliation_findings,
}
use e_platform.Learning.Model.{Enrollment, LessonProgress}
use e_platform.Learning.Next.{next_lesson_first}
use e_platform.Learning.Selectors.{next_lesson_for, unfinished, courses_in_progress, InProgress}
use e_platform.Media.Model.{MediaAsset}
use e_platform.Media.Selectors.{assets_manageable_by}
use e_platform.Media.Services.{blank_asset, may_manage}
use e_platform.Transcripts.Model.{Transcript, TranscriptSegment}
use e_platform.Transcripts.Selectors.{transcripts_reviewable_by, segments_editable_by}
use e_platform.Transcripts.Services.{may_review}
use e_platform.Transcripts.Scope.{scope_iff}
use e_platform.Examples.People.{teacher, lesson}
use e_platform.Examples.Transcripts.{with_status, draft_transcript}

one-IsKeyed : {A : Type 0} (pk : A → ℕ) (x : A) → IsKeyed pk (x ∷ [])
one-IsKeyed pk x s t (inl e) (inl g) same = e ∙ sym g
one-IsKeyed pk x s t (inr m) k same = absurd m
one-IsKeyed pk x s t (inl e) (inr m) same = absurd m

abbrev stale : Subscription
stale = record {
  pk = 11;
  user = 1;
  status = active;
  current_period_end = 100;
  trial_end = none;
  cancel_at_period_end = false;
  provider = codes "fake";
  provider_subscription_id = none;
}

abbrev drifted : Billing.Db
drifted = record { subscriptions = stale ∷ []; events = []; overrides = []; audit = [] }

reconciliation-resolver_example :
    ((code : FindingCode) (l : Option Resolver.Lesson)
      → matching 7 200 code stale ≡ true
      → (decide_for 7 stale l 200).allowed ≡ grants code)
    × ((earlier : ℕ)
        → earlier < 200
        → (decide_for 7 stale none earlier).allowed ≡ false
        → stale.status ≢ expired
        → (f : Finding) × In f (reconciliation_findings 7 200 drifted)
          × (matching 7 200 f.code stale ≡ true)
          × (f.grants_access ≡ false))
reconciliation-resolver_example = reconciliation-resolver 7 200 drifted stale (inl refl)

abbrev greek_course : Course
greek_course = record (new_course 5 teacher (codes "greek") (codes "Greek") 1 a1 [] none) {
  status = published;
  published_at = some 9;
}

abbrev first_lesson : Model.Lesson
first_lesson = record {
  pk = 7;
  course = 5;
  section = 21;
  slug = codes "abc";
  title = codes "Alphabet";
  body = [];
  lesson_type = video;
  position = 1;
  is_preview = false;
}

abbrev open_catalogue : Model.Db
open_catalogue = record {
  courses = greek_course ∷ [];
  sections = record { pk = 21; course = 5; title = codes "One"; position = 1 } ∷ [];
  lessons = first_lesson ∷ record first_lesson { pk = 8; position = 2 } ∷ [];
  review_events = [];
  audit = [];
  outbox = [];
}

Offered-iff_example :
    Offered open_catalogue greek_course
    ↔ (In greek_course open_catalogue.courses × (is_published greek_course.status ≡ true))
Offered-iff_example = Offered-iff greek_course open_catalogue (one-IsKeyed (λ c. c.pk) greek_course)

abbrev finished_first : List LessonProgress
finished_first =
    record {
      user = 2;
      lesson = 7;
      last_position_seconds = 1;
      max_position_seconds = 1;
      watched_seconds = 1;
      completed_at = some 3;
    }
    ∷ []

abbrev enrolled_once : List Enrollment
enrolled_once = record { user = 2; course = 5; last_lesson = some 7; completed_at = none } ∷ []

next_lesson_first_example :
    ((l : Model.Lesson)
      → next_lesson_for 2 5 open_catalogue finished_first ≡ some l
      → In l open_catalogue.lessons
        × (unfinished 2 5 finished_first l ≡ true)
        × ((z : Model.Lesson)
            → In z open_catalogue.lessons
            → unfinished 2 5 finished_first z ≡ true
            → curriculum open_catalogue l z ≡ true))
    × ((row : InProgress)
        → In row (courses_in_progress 2 enrolled_once open_catalogue finished_first)
        → (row.next_lesson ≡ none) ↔ (row.completed_lesson_count ≡ row.lesson_count))
next_lesson_first_example = next_lesson_first 2 5 enrolled_once open_catalogue finished_first

scope_iff_example :
    ((a : MediaAsset)
      → In a (assets_manageable_by (λ n. lesson) (account teacher) (blank_asset 8 7 ∷ []))
        ↔ (In a (blank_asset 8 7 ∷ []) × (may_manage lesson teacher ≡ true)))
    × ((t : Transcript)
        → In t (transcripts_reviewable_by (account teacher) (with_status draft_transcript))
          ↔ (In t (with_status draft_transcript).transcripts × (may_review t teacher ≡ true)))
    × ((s : TranscriptSegment) (t : Transcript)
        → In t (with_status draft_transcript).transcripts
        → t.pk ≡ s.transcript
        → In s (segments_editable_by (account teacher) (with_status draft_transcript))
          ↔ (In s (with_status draft_transcript).segments × (may_review t teacher ≡ true)))
scope_iff_example =
    scope_iff (λ n. lesson) teacher (blank_asset 8 7 ∷ []) (with_status draft_transcript)
      (one-IsKeyed (λ t. t.pk) draft_transcript)

abbrev one_lesson : Model.Db
one_lesson = record open_catalogue { lessons = first_lesson ∷ [] }

abbrev gate : Gate
gate = record { grace_days = 7; billing = drifted; now = 200; override_now = 200 }

served_iff_example :
    ((retrieve gate (account teacher) 7 one_lesson ≡ served_200 first_lesson)
      ↔ MayRead gate (account teacher) one_lesson first_lesson)
    × ((course_slug lesson_slug : Text)
        → retrieve_by_slug gate (account teacher) course_slug lesson_slug one_lesson
          ≡ served_200 first_lesson
        → retrieve gate (account teacher) 7 one_lesson ≡ served_200 first_lesson)
served_iff_example =
    served_iff gate (account teacher) one_lesson first_lesson (one-IsKeyed (λ c. c.pk) greek_course)
      (one-IsKeyed (λ l. l.pk) first_lesson)
