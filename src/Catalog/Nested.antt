-- ===== src/Catalog/Nested.antt =====
-- The stores that the content services of backend/apps/catalog/services.py reach. Each transaction
-- acts on the rows that it read.
use e_platform.Prelude.{
  ℕ, ◌+◌, ◌≡◌, inl, inr, refl, sym, subst, ap, ◌∙◌, Bool, false, ◌&&◌, Option, List, [], ◌∷◌, ◌==◌,
  arith, Bool-cases, ==→eq,
}
use e_platform.Prelude.Rows.{exists_by, update_by}
use e_platform.Prelude.Members.{In, In-update, update-In}
use e_platform.Prelude.Keyed.{update-IsKeyed, insert-IsKeyed}
use e_platform.Prelude.Result.{ok}
use e_platform.Prelude.Text.{Text}
use e_platform.Accounts.{User}
use e_platform.Catalog.Model.{Course, Section, Lesson, LessonType, Db}
use e_platform.Catalog.Order.{assign, apply_order}
use e_platform.Catalog.Content.{
  create_section, edit_section, update_section, create_lesson, LessonEdit, edit_lesson,
  update_lesson, lesson_order, reorder_lessons,
}
use e_platform.Catalog.Nesting.{
  key, IsNested, sections-IsNested, created_section, updated_section, created_lesson,
  updated_lesson, Given, edited_section,
}

-- One committed transaction on sections and lessons.
pub data Step (db : Db) : Db → Type 0 where
  section_created :
      (pk : ℕ) (course : Course) (user : User) (title : Text) (position : ℕ) (s : Section)
      {db' : Db}
      → exists_by (λ r. r.pk == pk) db.sections ≡ false
      → create_section pk course user title position db ≡ ok (s, db')
      → Step db db'
  section_updated :
      (section : Section) (course : Course) (user : User) (title : Option Text)
      (position : Option ℕ) (s : Section) {db' : Db}
      → In section db.sections
      → update_section section course user title position db ≡ ok (s, db')
      → Step db db'
  lesson_created :
      (pk : ℕ) (course : Course) (section : Section) (user : User) (slug title : Text)
      (position : ℕ) (body : Text) (lesson_type : LessonType) (l : Lesson) {db' : Db}
      → In section db.sections
      → create_lesson pk course section user slug title position body lesson_type db ≡ ok (l, db')
      → Step db db'
  lesson_updated :
      (lesson : Lesson) (course : Course) (user : User) (edit : LessonEdit) (l : Lesson) {db' : Db}
      → In lesson db.lessons
      → Given edit.section db.sections
      → update_lesson lesson course user edit db ≡ ok (l, db')
      → Step db db'
  lessons_reordered :
      (section : Section) (ordered_ids : List ℕ) {db' : Db}
      → reorder_lessons section ordered_ids db ≡ ok db'
      → Step db db'

pub data Reach : Db → Type 0 where
  empty : (db : Db) → db.sections ≡ [] → db.lessons ≡ [] → Reach db
  next : {db db' : Db} → Reach db → Step db db' → Reach db'

abbrev IsNestedDb : Db → Type 0
IsNestedDb db = IsNested db.sections db.lessons

tables-IsNested :
    {sections : List Section} {lessons : List Lesson} (db : Db)
    → db.sections ≡ sections
    → db.lessons ≡ lessons
    → IsNested sections lessons
    → IsNestedDb db
tables-IsNested db a b h = subst (λ t. IsNested t db.lessons) (sym a) (subst (IsNested _) (sym b) h)

-- A lesson that is written to a table of nested ones.
lessons-IsNested :
    (sections : List Section) (lessons lessons' : List Lesson)
    → IsNested sections lessons
    → ((l : Lesson)
        → In l lessons'
        → (s : Section) × In s sections × (s.pk ≡ l.section) × (s.course ≡ l.course))
    → IsNested sections lessons'
lessons-IsNested sections lessons lessons' h nested = record { keyed = h.keyed; nested = nested }

-- Reordering moves no lesson to another section or course.
assign-back :
    (scope : Lesson → Bool) (n : ℕ) (ids : List ℕ) (rows : List Lesson) (r : Lesson)
    → In r (assign lesson_order scope n ids rows)
    → (x : Lesson) × In x rows × (r.section ≡ x.section) × (r.course ≡ x.course)
unfolding assign
assign-back scope n [] rows r m = (r, m, refl, refl)
assign-back scope n (i ∷ ids) rows r m =
    let test = λ (a : Lesson). scope a && a.pk == i in
    let write = λ (a : Lesson). record a { position = n } in
    let (y, k, e, f) = assign-back scope (n + 1) ids (update_by test write rows) r m in
    let (x, j, g) = In-update test write y rows k in
    (x, j, e ∙ ground (arith, g), f ∙ ground (arith, g))

reordered_lessons :
    (section : Section) (ordered_ids : List ℕ) (db : Db) {db' : Db}
    → reorder_lessons section ordered_ids db ≡ ok db'
    → (db'.lessons ≡ assign lesson_order (λ l. l.section == section.pk) 1 ordered_ids db.lessons)
      × (db'.sections ≡ db.sections)
unfolding reorder_lessons apply_order
reordered_lessons section ordered_ids db {db'} h = ground arith

Step-IsNested : {db db' : Db} → IsNestedDb db → Step db db' → IsNestedDb db'
Step-IsNested {db} {db'} h (section_created pk course user title position s fresh c) =
    let (at, rows, same) = created_section pk course user title position db s c in
    tables-IsNested db' rows same (
      sections-IsNested db.sections (s ∷ db.sections) db.lessons h
        (insert-IsKeyed key db.sections s h.keyed
          (subst (λ n. exists_by (λ r. r.pk == n) db.sections ≡ false) (sym at) fresh))
        (λ x m. (x, inr m, (refl, refl))))
Step-IsNested {db} {db'} h (section_updated section course user title position s m c) =
    let (rows, same) = updated_section section course user title position db s c in
    let edited = edit_section title position section in
    tables-IsNested db' rows same (
      sections-IsNested db.sections (update_by (λ r. r.pk == section.pk) (λ r. edited) db.sections)
        db.lessons h (update-IsKeyed key db.sections section (λ r. edited) h.keyed m refl)
        (λ x k. elim (Bool-cases (x.pk == section.pk)) [
          | inl e ↦
              let one = h.keyed x section k m (==→eq x.pk section.pk e) in
              (
                edited,
                rw e at (update-In (λ r. r.pk == section.pk) (λ r. edited) x db.sections k),
                (sym (==→eq x.pk section.pk e), sym (ap (λ r. r.course) one)),
              )
          | inr e ↦ (
            x,
            rw e at (update-In (λ r. r.pk == section.pk) (λ r. edited) x db.sections k),
            (refl, refl),
          )
        ]))
Step-IsNested {db} {db'} h
      (lesson_created pk course section user slug title position body kind l m c) =
    let (at, of, rows, same) =
      created_lesson pk course section user slug title position body kind db l c in
    tables-IsNested db' same rows (
      lessons-IsNested db.sections db.lessons (l ∷ db.lessons) h (λ x k. elim k [
        | inl e ↦ (section, m, at ∙ sym (ap (λ r. r.section) e), of ∙ sym (ap (λ r. r.course) e))
        | inr j ↦ h.nested x j
      ]))
Step-IsNested {db} {db'} h (lesson_updated lesson course user edit l m given c) =
    let (new, at, fits, rows, same) = updated_lesson lesson course user edit db l c in
    let (s, k, p, o) =
      edited_section db.sections db.lessons lesson course edit.section h m given at fits in
    tables-IsNested db' same rows (
      lessons-IsNested db.sections db.lessons
        (update_by (λ r. r.pk == lesson.pk) (λ r. l) db.lessons) h
        (λ x j.
          let (y, i, e) = In-update (λ r. r.pk == lesson.pk) (λ r. l) x db.lessons j in
          elim (Bool-cases (y.pk == lesson.pk)) [
            | inl hit ↦
                let is_new : x ≡ edit_lesson edit lesson = (rw hit at e) ∙ new in
                (s, k, p ∙ sym (ap (λ r. r.section) is_new), o ∙ sym (ap (λ r. r.course) is_new))
            | inr miss ↦
                let old : x ≡ y = rw miss at e in
                let (t, n, q, u) = h.nested y i in
                (t, n, q ∙ sym (ap (λ r. r.section) old), u ∙ sym (ap (λ r. r.course) old))
          ]))
Step-IsNested {db} {db'} h (lessons_reordered section ids c) =
    let (rows, same) = reordered_lessons section ids db c in
    tables-IsNested db' same rows (
      lessons-IsNested db.sections db.lessons _ h (λ x j.
        let (y, i, e, f) = assign-back (λ l. l.section == section.pk) 1 ids db.lessons x j in
        let (t, n, q, u) = h.nested y i in (t, n, q ∙ sym e, u ∙ sym f)))

reached-IsNested : (db : Db) → Reach db → IsNestedDb db
reached-IsNested db (empty _ a b) =
    tables-IsNested db a b (record { keyed = λ s t m. absurd m; nested = λ l m. absurd m })
reached-IsNested db (next r s) = Step-IsNested (reached-IsNested _ r) s

-- In every store that the content services reach from one without sections and lessons, by
-- creating and updating sections and lessons and by reordering lessons, every lesson stands in a
-- section of the lesson's own course.
pub reached_nested :
    (db : Db)
    → Reach db
    → (l : Lesson) → In l db.lessons
    → (s : Section) × In s db.sections × (s.pk ≡ l.section) × (s.course ≡ l.course)
reached_nested db r = (reached-IsNested db r).nested
