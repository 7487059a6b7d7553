-- ===== src/Examples/Sections.antt =====
-- A section and a lesson in it, created one after the other.
use e_platform.Prelude.{refl, ◌≡◌, false, none, [], ◌∷◌, inl}
use e_platform.Prelude.Members.{In}
use e_platform.Prelude.Result.{ok}
use e_platform.Prelude.Text.{codes}
use e_platform.Catalog.Model.{Course, Section, Lesson, video, Db, a1, admits_section, admits_lesson}
use e_platform.Catalog.Content.{new_course, create_section, create_lesson}
use e_platform.Catalog.Nested.{Reach, empty, next, section_created, lesson_created, reached_nested}
use e_platform.Examples.People.{teacher}

abbrev greek : Course
greek = new_course 5 teacher (codes "greek") (codes "Greek") 1 a1 [] none

abbrev nothing : Db
nothing = record {
  courses = [];
  sections = [];
  lessons = [];
  review_events = [];
  audit = [];
  outbox = [];
}

abbrev one : Section
one = record { pk = 21; course = 5; title = codes "One"; position = 1 }

abbrev with_section : Db
with_section = record nothing { sections = one ∷ [] }

makes_section : create_section 21 greek teacher (codes "One") 1 nothing ≡ ok (one, with_section)
unfolding create_section admits_section
makes_section = refl

abbrev alphabet : Lesson
alphabet = record {
  pk = 22;
  course = 5;
  section = 21;
  slug = codes "abc";
  title = codes "Alphabet";
  body = [];
  lesson_type = video;
  position = 1;
  is_preview = false;
}

abbrev with_lesson : Db
with_lesson = record with_section { lessons = alphabet ∷ [] }

makes_lesson :
    create_lesson 22 greek one teacher (codes "abc") (codes "Alphabet") 1 [] video with_section
    ≡ ok (alphabet, with_lesson)
unfolding create_lesson admits_lesson
makes_lesson = refl

reached : Reach with_lesson
reached =
    next
      (next (empty nothing refl refl)
        (section_created 21 greek teacher (codes "One") 1 one refl makes_section))
      (lesson_created 22 greek one teacher (codes "abc") (codes "Alphabet") 1 [] video alphabet
        (inl refl) makes_lesson)

reached_nested_example : (s : Section) × In s with_lesson.sections × (s.pk ≡ 21) × (s.course ≡ 5)
reached_nested_example = reached_nested with_lesson reached alphabet (inl refl)
