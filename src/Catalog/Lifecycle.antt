-- ===== src/Catalog/Lifecycle.antt =====
-- What the review trail of a course says of its status, and the writes of
-- backend/apps/catalog/services.py that keep it so.
use e_platform.Prelude.{
  Bool, ℕ, ◌≡◌, ◌≢◌, ◌⊎◌, refl, true, false, Option, none, some, List, [], ◌∷◌, ◌==◌, arith, inl,
  inr, subst, sym, is_some,
}
use e_platform.Prelude.Rows.{exists_by, first_by, update_by}
use e_platform.Prelude.Members.{In}
use e_platform.Prelude.Keyed.{update-rows, update-IsKeyed, insert-IsKeyed}
use e_platform.Prelude.Result.{ok}
use e_platform.Prelude.Text.{Text}
use e_platform.Accounts.{User}
use e_platform.Core.Audit.{Request}
use e_platform.Catalog.Model.{
  CourseStatus, draft, in_review, published, archived, Course, ReviewAction, submitted, approved,
  rejected, changes_requested, CourseReviewEvent, Db,
}
use e_platform.Catalog.Review.{
  allowed_transition, save_course, submit_for_review, approve, return_to_draft, archive, set_status,
  set_published, review, notify_reviewers, notify_instructor_of_review,
}

-- The decision of the newest review event of a course.
abbrev pub decided : Option CourseReviewEvent → Option ReviewAction
decided none = none
decided (some e) = some e.action

abbrev pub latest : ℕ → List CourseReviewEvent → Option ReviewAction
latest pk events = decided (first_by (λ e. e.course == pk) events)

-- No review is under way, and none has ended in an approval.
abbrev pub is_returned : Option ReviewAction → Bool
is_returned none = true
is_returned (some rejected) = true
is_returned (some changes_requested) = true
is_returned (some submitted) = false
is_returned (some approved) = false

-- What a status says of the publication date and of the newest review event.
abbrev pub Explains : CourseStatus → Option ℕ → Option ReviewAction → Type 0
Explains draft at action = (at ≡ none) × (is_returned action ≡ true)
Explains in_review at action = (at ≡ none) × (action ≡ some submitted)
Explains published at action = (is_some at ≡ true) × (action ≡ some approved)
Explains archived at action = (at ≡ none) × (action ≡ some approved)

abbrev pub key : Course → ℕ
key c = c.pk

pub record IsSound (courses : List Course) (events : List CourseReviewEvent) : Type 0 where
  pub keyed : (c d : Course) → In c courses → In d courses → c.pk ≡ d.pk → c ≡ d
  pub explained :
      (c : Course) → In c courses → Explains c.status c.published_at (latest c.pk events)

module _ (courses : List Course) (events : List CourseReviewEvent)
    (sound : IsSound courses events) where
  -- A write to one course, with the trail that stands after it.
  pub write-IsSound :
      (c : Course) (columns : Course → Course) (events' : List CourseReviewEvent)
      → In c courses
      → (columns c).pk ≡ c.pk
      → ((pk : ℕ) → pk ≢ c.pk → latest pk events' ≡ latest pk events)
      → Explains (columns c).status (columns c).published_at (latest c.pk events')
      → IsSound (update_by (λ r. r.pk == c.pk) columns courses) events'
  write-IsSound c columns events' m same others now = record {
    keyed = update-IsKeyed key courses c columns sound.keyed m same;
    explained = λ r k. cases r (update-rows key courses c columns sound.keyed m same r k);
  }
    where
      cases :
          (r : Course)
          → (r ≡ columns c) ⊎ (In r courses × (r.pk ≢ c.pk))
          → Explains r.status r.published_at (latest r.pk events')
      cases r (inl e) =
          subst (λ x. Explains x.status x.published_at (latest x.pk events')) (sym e)
            (subst (λ n. Explains (columns c).status (columns c).published_at (latest n events'))
              (sym same) now)
      cases r (inr (k, n)) =
          subst (Explains r.status r.published_at) (sym (others r.pk n)) (sound.explained r k)

-- An event of one course does not change what is newest for another.
other_latest :
    (e : CourseReviewEvent) (events : List CourseReviewEvent) (n pk : ℕ)
    → e.course ≡ n
    → pk ≢ n
    → latest pk (e ∷ events) ≡ latest pk events
other_latest e events n pk at h = ground arith

own_latest :
    (e : CourseReviewEvent) (events : List CourseReviewEvent)
    → latest e.course (e ∷ events) ≡ some e.action
own_latest e events = ground arith

abbrev pub IsSoundDb : Db → Type 0
IsSoundDb db = IsSound db.courses db.review_events

-- The courses with the columns written to the row of `c`.
abbrev pub written : Course → (Course → Course) → List Course → List Course
written c columns courses = update_by (λ r. r.pk == c.pk) columns courses

-- What each transition wrote, where it went through.
pub submitted_row :
    (admins : List Text) (c : Course) (user : User) (db : Db) {c' : Course} {db' : Db}
    → submit_for_review admins c user db ≡ ok (c', db')
    → (c.status ≡ draft)
      × (db'.courses ≡ written c (set_status in_review) db.courses)
      × (db'.review_events ≡ review c user submitted [] ∷ db.review_events)
unfolding submit_for_review allowed_transition save_course notify_reviewers
submitted_row admins c user db {c'} {db'} h = ground arith

pub approved_row :
    (now : ℕ) (c : Course) (user : User) (notes : Text) (request : Option Request) (db : Db)
    {c' : Course} {db' : Db}
    → approve now c user notes request db ≡ ok (c', db')
    → (c.status ≡ in_review)
      × (db'.courses ≡ written c (set_published published (some now)) db.courses)
      × (db'.review_events ≡ review c user approved notes ∷ db.review_events)
unfolding approve allowed_transition save_course notify_instructor_of_review
approved_row now c user notes request db {c'} {db'} h = ground arith

pub returned_row :
    (c : Course) (user : User) (action : ReviewAction) (notes : Text) (request : Option Request)
    (db : Db) {c' : Course} {db' : Db}
    → return_to_draft c user action notes request db ≡ ok (c', db')
    → (db'.courses ≡ written c (set_published draft none) db.courses)
      × (db'.review_events ≡ review c user action notes ∷ db.review_events)
unfolding return_to_draft save_course notify_instructor_of_review
returned_row c user action notes request db {c'} {db'} h = ground arith

pub archived_row :
    (c : Course) (user : User) (db : Db) {c' : Course} {db' : Db}
    → archive c user db ≡ ok (c', db')
    → (c.status ≡ published)
      × (db'.courses ≡ written c (set_published archived none) db.courses)
      × (db'.review_events ≡ db.review_events)
unfolding archive allowed_transition save_course
archived_row c user db {c'} {db'} h = ground arith

-- A transition that is written and recorded keeps the store sound.
pub recorded-IsSound :
    (db db' : Db) (c : Course) (columns : Course → Course) (e : CourseReviewEvent)
    → IsSoundDb db
    → In c db.courses
    → (columns c).pk ≡ c.pk
    → e.course ≡ c.pk
    → Explains (columns c).status (columns c).published_at (some e.action)
    → db'.courses ≡ written c columns db.courses
    → db'.review_events ≡ e ∷ db.review_events
    → IsSoundDb db'
recorded-IsSound db db' c columns e sound m same at now rows events =
    subst (λ t. IsSound t db'.review_events) (sym rows)
      (subst (IsSound (written c columns db.courses)) (sym events) (
        write-IsSound db.courses db.review_events sound c columns (e ∷ db.review_events) m same
          (λ pk n. other_latest e db.review_events c.pk pk at n)
          (subst
            (λ n.
              Explains (columns c).status (columns c).published_at
                (latest n (e ∷ db.review_events)))
            at
            (subst (Explains (columns c).status (columns c).published_at)
              (sym (own_latest e db.review_events)) now))))

-- A write that changes neither status nor date keeps the store sound.
pub edit-IsSound :
    (courses : List Course) (events : List CourseReviewEvent) (c : Course)
    (columns : Course → Course)
    → IsSound courses events
    → In c courses
    → (columns c).pk ≡ c.pk
    → (columns c).status ≡ c.status
    → (columns c).published_at ≡ c.published_at
    → IsSound (written c columns courses) events
edit-IsSound courses events c columns sound m same status at =
    write-IsSound courses events sound c columns events m same (λ pk n. refl)
      (rw (status, at) (sound.explained c m))

pub insert-IsSound :
    (courses : List Course) (events : List CourseReviewEvent) (c : Course)
    → IsSound courses events
    → exists_by (λ r. r.pk == c.pk) courses ≡ false
    → c.status ≡ draft
    → c.published_at ≡ none
    → latest c.pk events ≡ none
    → IsSound (c ∷ courses) events
insert-IsSound courses events c sound fresh status at newest = record {
  keyed = insert-IsKeyed key courses c sound.keyed fresh;
  explained = explain;
}
  where
    explain :
        (r : Course) → In r (c ∷ courses) → Explains r.status r.published_at (latest r.pk events)
    explain r (inl e) =
        subst (λ x. Explains x.status x.published_at (latest x.pk events)) (sym e)
          (rw (status, newest) (at, refl))
    explain r (inr k) = sound.explained r k
