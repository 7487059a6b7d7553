-- ===== src/Catalog/Nesting.antt =====
-- Lessons and the sections that they stand in, and what the content services of
-- backend/apps/catalog/services.py write of them.
use e_platform.Prelude.{
  ℕ, ◌≡◌, refl, sym, ◌∙◌, true, Option, none, some, List, ◌∷◌, ◌==◌, arith, ==→eq,
}
use e_platform.Prelude.Rows.{update_by}
use e_platform.Prelude.Members.{In}
use e_platform.Prelude.Keyed.{IsKeyed}
use e_platform.Prelude.Result.{ok}
use e_platform.Prelude.Text.{Text}
use e_platform.Accounts.{User}
use e_platform.Catalog.Model.{Course, Section, Lesson, LessonType, Db}
use e_platform.Catalog.Content.{
  create_section, edit_section, update_section, create_lesson, LessonEdit, section_fits, section_pk,
  edit_lesson, update_lesson,
}

abbrev pub key : Section → ℕ
key s = s.pk

pub record IsNested (sections : List Section) (lessons : List Lesson) : Type 0 where
  pub keyed : IsKeyed key sections
  pub nested :
      (l : Lesson)
      → In l lessons
      → (s : Section) × In s sections × (s.pk ≡ l.section) × (s.course ≡ l.course)

abbrev pub SameSection : Section → Section → Type 0
SameSection x y = (y.pk ≡ x.pk) × (y.course ≡ x.course)

-- Sections that are written with their key and course kept.
pub sections-IsNested :
    (sections sections' : List Section) (lessons : List Lesson)
    → IsNested sections lessons
    → IsKeyed key sections'
    → ((x : Section) → In x sections → (y : Section) × In y sections' × SameSection x y)
    → IsNested sections' lessons
sections-IsNested sections sections' lessons h keyed kept = record {
  keyed = keyed;
  nested = λ l m.
      let (s, k, at, of) = h.nested l m in let (y, j, (p, c)) = kept s k in (y, j, p ∙ at, c ∙ of);
}

pub created_section :
    (pk : ℕ) (course : Course) (user : User) (title : Text) (position : ℕ) (db : Db) (s : Section)
    {db' : Db}
    → create_section pk course user title position db ≡ ok (s, db')
    → (s.pk ≡ pk) × (db'.sections ≡ s ∷ db.sections) × (db'.lessons ≡ db.lessons)
unfolding create_section
created_section pk course user title position db s {db'} h = ground arith

pub updated_section :
    (section : Section) (course : Course) (user : User) (title : Option Text) (position : Option ℕ)
    (db : Db) (s : Section) {db' : Db}
    → update_section section course user title position db ≡ ok (s, db')
    → (db'.sections
        ≡ update_by
            (λ r. r.pk == section.pk)
            (λ r. edit_section title position section)
            db.sections)
      × (db'.lessons ≡ db.lessons)
unfolding update_section
updated_section section course user title position db s {db'} h = ground arith

pub created_lesson :
    (pk : ℕ) (course : Course) (section : Section) (user : User) (slug title : Text) (position : ℕ)
    (body : Text) (lesson_type : LessonType) (db : Db) (l : Lesson) {db' : Db}
    → create_lesson pk course section user slug title position body lesson_type db ≡ ok (l, db')
    → (section.pk ≡ l.section)
      × (section.course ≡ l.course)
      × (db'.lessons ≡ l ∷ db.lessons)
      × (db'.sections ≡ db.sections)
unfolding create_lesson
created_lesson pk course section user slug title position body lesson_type db l {db'} h =
    ground arith

pub updated_lesson :
    (lesson : Lesson) (course : Course) (user : User) (edit : LessonEdit) (db : Db) (l : Lesson)
    {db' : Db}
    → update_lesson lesson course user edit db ≡ ok (l, db')
    → (l ≡ edit_lesson edit lesson)
      × (lesson.course ≡ course.pk)
      × (section_fits edit.section course ≡ true)
      × (db'.lessons ≡ update_by (λ r. r.pk == lesson.pk) (λ r. l) db.lessons)
      × (db'.sections ≡ db.sections)
unfolding update_lesson
updated_lesson lesson course user edit db l {db'} h = ground arith

-- What an edit may name as the lesson's section: a row of the table.
abbrev pub Given : Option Section → List Section → Type 0
Given none sections = Unit
Given (some s) sections = In s sections

pub edited_section :
    (sections : List Section) (lessons : List Lesson) (lesson : Lesson) (course : Course)
    (given : Option Section)
    → IsNested sections lessons
    → In lesson lessons
    → Given given sections
    → lesson.course ≡ course.pk
    → section_fits given course ≡ true
    → (s : Section) × In s sections
      × (s.pk ≡ section_pk given lesson.section)
      × (s.course ≡ lesson.course)
edited_section sections lessons lesson course none h m g at fits = h.nested lesson m
edited_section sections lessons lesson course (some s) h m g at fits =
    (s, g, refl, ==→eq s.course course.pk fits ∙ sym at)
