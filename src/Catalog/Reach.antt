-- ===== src/Catalog/Reach.antt =====
-- The stores that the course services of backend/apps/catalog/services.py reach. Each transaction
-- acts on the row that it read.
use e_platform.Prelude.{
  ℕ, ◌≡◌, refl, true, false, Option, none, some, List, [], ◌∷◌, ◌==◌, arith, inl, subst, sym, ap,
  is_some,
}
use e_platform.Prelude.Rows.{exists_by}
use e_platform.Prelude.Members.{In}
use e_platform.Prelude.Keyed.{self-update}
use e_platform.Prelude.Result.{ok}
use e_platform.Prelude.Text.{Text}
use e_platform.Accounts.{User}
use e_platform.Core.Audit.{Request}
use e_platform.Catalog.Model.{
  draft, in_review, published, archived, Level, Course, submitted, approved, rejected,
  changes_requested, CourseReviewEvent, Db,
}
use e_platform.Catalog.Review.{
  submit_for_review, approve, reject, request_changes, archive, set_status, set_published, review,
}
use e_platform.Catalog.Content.{
  TextSearch, CourseEdit, create_course, update_course, with_vector, new_course, edit_course,
}
use e_platform.Catalog.Lifecycle.{
  Explains, is_returned, latest, IsSound, key, submitted_row, approved_row, returned_row,
  archived_row, recorded-IsSound, edit-IsSound, insert-IsSound, IsSoundDb, written, write-IsSound,
}

-- One committed transaction on the courses. The primary key of a new course is a new one, which no
-- course and no review event has.
pub data Step (db : Db) : Db → Type 0 where
  created :
      (search : TextSearch) (pk : ℕ) (instructor : User) (slug title : Text) (language : ℕ)
      (level : Level) (description : Text) (skill_areas : Option (List Text)) (c : Course)
      {db' : Db}
      → exists_by (λ r. r.pk == pk) db.courses ≡ false
      → latest pk db.review_events ≡ none
      → create_course search pk instructor slug title language level description skill_areas db
        ≡ ok (c, db')
      → Step db db'
  edited :
      (search : TextSearch) (c : Course) (user : User) (edit : CourseEdit) (c' : Course) {db' : Db}
      → In c db.courses
      → update_course search c user edit db ≡ ok (c', db')
      → Step db db'
  submission :
      (admins : List Text) (c : Course) (user : User) (c' : Course) {db' : Db}
      → In c db.courses
      → submit_for_review admins c user db ≡ ok (c', db')
      → Step db db'
  approval :
      (now : ℕ) (c : Course) (user : User) (notes : Text) (request : Option Request) (c' : Course)
      {db' : Db}
      → In c db.courses
      → approve now c user notes request db ≡ ok (c', db')
      → Step db db'
  rejection :
      (c : Course) (user : User) (notes : Text) (request : Option Request) (c' : Course) {db' : Db}
      → In c db.courses
      → reject c user notes request db ≡ ok (c', db')
      → Step db db'
  change_request :
      (c : Course) (user : User) (notes : Text) (request : Option Request) (c' : Course) {db' : Db}
      → In c db.courses
      → request_changes c user notes request db ≡ ok (c', db')
      → Step db db'
  archival :
      (c : Course) (user : User) (c' : Course) {db' : Db}
      → In c db.courses
      → archive c user db ≡ ok (c', db')
      → Step db db'

created_row :
    (search : TextSearch) (pk : ℕ) (instructor : User) (slug title : Text) (language : ℕ)
    (level : Level) (description : Text) (skill_areas : Option (List Text)) (db : Db) (c : Course)
    {db' : Db}
    → create_course search pk instructor slug title language level description skill_areas db
      ≡ ok (c, db')
    → (c ≡ new_course pk instructor slug title language level description skill_areas)
      × (db'.courses ≡ written c (with_vector search) (c ∷ db.courses))
      × (db'.review_events ≡ db.review_events)
unfolding create_course
created_row words pk instructor slug title language level description skill_areas db c {db'} h =
    ground arith

edited_row :
    (search : TextSearch) (c : Course) (user : User) (edit : CourseEdit) (db : Db) (c' : Course)
    {db' : Db}
    → update_course search c user edit db ≡ ok (c', db')
    → (c' ≡ edit_course edit c)
      × (db'.courses
          ≡ written c (with_vector search) (written c (λ r. edit_course edit c) db.courses))
      × (db'.review_events ≡ db.review_events)
unfolding update_course
edited_row search c user edit db c' {db'} h = ground arith

tables-IsSound :
    {courses : List Course} {events : List CourseReviewEvent} (db : Db)
    → db.courses ≡ courses
    → db.review_events ≡ events
    → IsSound courses events
    → IsSoundDb db
tables-IsSound db rows trail h =
    subst (λ t. IsSound t db.review_events) (sym rows) (subst (IsSound _) (sym trail) h)

Step-IsSound : {db db' : Db} → IsSoundDb db → Step db db' → IsSoundDb db'
unfolding reject request_changes
Step-IsSound {db} {db'} sound
      (created words pk i slug title lang level desc areas c fresh unreviewed h) =
    let (new, rows, trail) = created_row words pk i slug title lang level desc areas db c h in
    tables-IsSound db' rows trail (
      edit-IsSound (c ∷ db.courses) db.review_events c (with_vector words)
        (insert-IsSound db.courses db.review_events c sound
          (subst (λ n. exists_by (λ r. r.pk == n) db.courses ≡ false) (sym (ap key new)) fresh)
          (ap (λ x. x.status) new) (ap (λ x. x.published_at) new)
          (subst (λ n. latest n db.review_events ≡ none) (sym (ap key new)) unreviewed))
        (inl refl) refl refl refl)
Step-IsSound {db} {db'} sound (edited words c user edit c' m h) =
    let (new, rows, trail) = edited_row words c user edit db c' h in
    let edited_rows =
      edit-IsSound db.courses db.review_events c (λ r. edit_course edit c) sound m refl refl refl in
    tables-IsSound db' rows trail (
      edit-IsSound (written c (λ r. edit_course edit c) db.courses) db.review_events
        (edit_course edit c) (with_vector words) edited_rows
        (self-update key db.courses c (λ r. edit_course edit c) sound.keyed m refl) refl refl refl)
Step-IsSound {db} {db'} sound (submission admins c user c' m h) =
    let (was, rows, trail) = submitted_row admins c user db h in
    let before : (c.published_at ≡ none) × (is_returned (latest c.pk db.review_events) ≡ true) =
      subst (λ s. Explains s c.published_at (latest c.pk db.review_events)) was
        (sound.explained c m) in
    recorded-IsSound db db' c (set_status in_review) (review c user submitted []) sound m refl refl
      (before.0, refl) rows trail
Step-IsSound {db} {db'} sound (approval now c user notes request c' m h) =
    let (was, rows, trail) = approved_row now c user notes request db h in
    recorded-IsSound db db' c (set_published published (some now)) (review c user approved notes)
      sound m refl refl (refl, refl) rows trail
Step-IsSound {db} {db'} sound (rejection c user notes request c' m h) =
    let (rows, trail) = returned_row c user rejected notes request db h in
    recorded-IsSound db db' c (set_published draft none) (review c user rejected notes) sound m refl
      refl (refl, refl) rows trail
Step-IsSound {db} {db'} sound (change_request c user notes request c' m h) =
    let (rows, trail) = returned_row c user changes_requested notes request db h in
    recorded-IsSound db db' c (set_published draft none) (review c user changes_requested notes)
      sound m refl refl (refl, refl) rows trail
Step-IsSound {db} {db'} sound (archival c user c' m h) =
    let (was, rows, trail) = archived_row c user db h in
    let before : (is_some c.published_at ≡ true) × (latest c.pk db.review_events ≡ some approved) =
      subst (λ s. Explains s c.published_at (latest c.pk db.review_events)) was
        (sound.explained c m) in
    tables-IsSound db' rows trail (
      write-IsSound db.courses db.review_events sound c (set_published archived none)
        db.review_events m refl (λ pk n. refl) (refl, before.1))

-- The stores that the services reach from one without courses.
pub data Reach : Db → Type 0 where
  empty : (db : Db) → db.courses ≡ [] → Reach db
  step : {db db' : Db} → Reach db → Step db db' → Reach db'

empty-IsSound : (events : List CourseReviewEvent) → IsSound [] events
empty-IsSound events = record { keyed = λ c d m. absurd m; explained = λ c m. absurd m }

reached-IsSound : (db : Db) → Reach db → IsSoundDb db
reached-IsSound db (empty _ rows) = tables-IsSound db rows refl (empty-IsSound db.review_events)
reached-IsSound db (step r s) = Step-IsSound (reached-IsSound _ r) s

-- In every store that the course services reach from one without courses, each course's status is
-- explained: a draft has no publication date, and its newest review event, if there is one, is a
-- rejection or a request for changes; a course in review has none, and its newest review
-- event is its submission; a published course has one, and an archived course has none, and for
-- both the newest review event is an approval.
pub reached_explained :
    (db : Db)
    → Reach db
    → (c : Course) → In c db.courses
    → Explains c.status c.published_at (latest c.pk db.review_events)
reached_explained db r = (reached-IsSound db r).explained
