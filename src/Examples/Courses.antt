-- ===== src/Examples/Courses.antt =====
-- A course that is created and submitted, and sections that are put in another order.
use e_platform.Prelude.{
  refl, ◌≡◌, ◌+◌, ◌↔◌, ℕ, true, false, none, some, List, [], ◌∷◌, map, ◌==◌, Bool, inl,
}
use e_platform.Prelude.Members.{In}
use e_platform.Prelude.Result.{ok, is_ok}
use e_platform.Prelude.Text.{codes, text_eq}
use e_platform.Catalog.Model.{
  Course, Db, Section, in_review, a1, submitted, course_submitted, admits_course,
}
use e_platform.Catalog.Review.{
  submit_for_review, allowed_transition, save_course, notify_reviewers, set_status, review,
}
use e_platform.Catalog.Content.{TextSearch, create_course, new_course, with_vector, section_order}
use e_platform.Catalog.Order.{apply_order, assign, distinct, subset}
use e_platform.Catalog.Order.Positions.{
  NamesAll, apply_order-accepts, apply_order-positions, get_elem?, Moved,
}
use e_platform.Catalog.Lifecycle.{Explains, latest}
use e_platform.Catalog.Reach.{Reach, empty, step, created, submission, reached_explained}
use e_platform.Examples.People.{teacher}

abbrev words : TextSearch
words = record { text_part = λ w t. 1; list_part = λ w t. 2; plus = λ a b. a + b }

abbrev nothing : Db
nothing = record {
  courses = [];
  sections = [];
  lessons = [];
  review_events = [];
  audit = [];
  outbox = [];
}

abbrev fresh_course : Course
fresh_course = new_course 5 teacher (codes "greek") (codes "Greek") 1 a1 (codes "All of it") none

abbrev stored_course : Course
stored_course = with_vector words fresh_course

abbrev with_course : Db
with_course = record nothing { courses = stored_course ∷ [] }

creation :
    create_course words 5 teacher
      (codes "greek")
      (codes "Greek")
      1
      a1
      (codes "All of it")
      none
      nothing
    ≡ ok (fresh_course, with_course)
unfolding create_course admits_course
creation = refl

abbrev with_submission : Db
with_submission = record nothing {
  courses = set_status in_review stored_course ∷ [];
  review_events = review stored_course teacher submitted [] ∷ [];
  outbox = course_submitted (codes "a@x.org") (codes "Greek") teacher.email ∷ [];
}

submits :
    submit_for_review (codes "a@x.org" ∷ []) stored_course teacher with_course
    ≡ ok (set_status in_review stored_course, with_submission)
unfolding submit_for_review allowed_transition save_course notify_reviewers admits_course text_eq
submits = refl

reached : Reach with_submission
reached =
    step
      (step (empty nothing refl) (
        created words 5 teacher (codes "greek") (codes "Greek") 1 a1 (codes "All of it") none
          fresh_course refl refl creation))
      (submission (codes "a@x.org" ∷ []) stored_course teacher (set_status in_review stored_course)
        (inl refl) submits)

reached_explained_example : Explains in_review none (latest 5 with_submission.review_events)
reached_explained_example =
    reached_explained with_submission reached (set_status in_review stored_course) (inl refl)

abbrev first : Section
first = record { pk = 21; course = 5; title = codes "One"; position = 1 }

abbrev second : Section
second = record { pk = 22; course = 5; title = codes "Two"; position = 2 }

abbrev in_greek : Section → Bool
in_greek s = s.course == 5

abbrev reordered : List Section
reordered = record first { position = 2 } ∷ record second { position = 1 } ∷ []

reorders : apply_order section_order in_greek (22 ∷ 21 ∷ []) (first ∷ second ∷ []) ≡ ok reordered
unfolding apply_order assign distinct subset
reorders = refl

apply_order-accepts_example :
    (is_ok (apply_order section_order in_greek (22 ∷ 21 ∷ []) (first ∷ second ∷ [])) ≡ true)
    ↔ NamesAll section_order in_greek (22 ∷ 21 ∷ []) (first ∷ second ∷ [])
apply_order-accepts_example =
    apply_order-accepts section_order in_greek (22 ∷ 21 ∷ []) (first ∷ second ∷ [])

apply_order-positions_example :
    ((r : Section)
      → In r reordered
      → in_greek r ≡ true
      → (k : ℕ) × (r.position ≡ 1 + k) × (get_elem? (22 ∷ 21 ∷ []) k ≡ some r.pk))
    × ((r : Section) → In r reordered → Moved section_order in_greek (first ∷ second ∷ []) r)
    × ((r : Section) → in_greek r ≡ false → In r (first ∷ second ∷ []) → In r reordered)
    × (map (λ s. s.pk) reordered ≡ map (λ s. s.pk) (first ∷ second ∷ []))
apply_order-positions_example =
    apply_order-positions section_order in_greek (22 ∷ 21 ∷ []) (first ∷ second ∷ []) reorders
