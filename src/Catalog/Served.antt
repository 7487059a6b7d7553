-- ===== src/Catalog/Served.antt =====
-- Who is served a lesson by backend/apps/catalog/learning_views.py.
use e_platform.Prelude.{
  ℕ, ◌≡◌, ◌↔◌, inl, inr, refl, sym, ap, ◌∙◌, subst, Bool, true, ◌&&◌, Option, none, some, ◌==◌,
  arith, Bool-cases, Option-cases, ==→eq, ==-refl,
}
use e_platform.Prelude.Rows.{first_by, exists_by, filter_by}
use e_platform.Prelude.Keyed.{IsKeyed, find_self}
use e_platform.Prelude.Members.{In, In-filter, filter-In, first-In, exists-In, In-exists}
use e_platform.Prelude.Text.{Text}
use e_platform.Accounts.{Visitor}
use e_platform.Catalog.Model.{Course, Lesson, Db}
use e_platform.Catalog.Selectors.{lessons_visible_to, sees}
use e_platform.Catalog.Lessons.{
  served_200, Gate, gated, judged, permit, course_of, read_lesson, retrieve, retrieve_by_slug,
  at_slugs,
}
use e_platform.Entitlements.Resolver.{AccessDecision}
use e_platform.Entitlements.Resolver.Spec.{Entitled, Allows, resolve_access-Entitled}

abbrev visible : Visitor → Db → Lesson → Bool
visible visitor db l = exists_by (λ c. c.pk == l.course && sees visitor c) db.courses

-- Both gates, said without the order of the checks.
pub record MayRead (gate : Gate) (visitor : Visitor) (db : Db) (l : Lesson) : Type 0 where
  pub stored : In l db.lessons
  pub course : Course
  pub of_course : In course db.courses × (course.pk ≡ l.course)
  pub seen : sees visitor course ≡ true
  pub entitled :
      Entitled gate.grace_days gate.billing gate.now gate.override_now (gated l course) visitor

module _ (gate : Gate) (visitor : Visitor) (db : Db)
    (courses_keyed : IsKeyed (λ c. c.pk) db.courses)
    (lessons_keyed : IsKeyed (λ l. l.pk) db.lessons) where
  seen_course :
      (l : Lesson) (c : Course)
      → In c db.courses
      → c.pk ≡ l.course
      → visible visitor db l ≡ sees visitor c
  seen_course l c m at = elim (Bool-cases (visible visitor db l)) [
    | inl found ↦
        let (x, k, hit) = exists-In (λ c. c.pk == l.course && sees visitor c) db.courses found in
        let same : x ≡ c = courses_keyed x c k m (==→eq x.pk l.course (ground arith) ∙ sym at) in
        let seen : sees visitor x ≡ true = ground arith in
        found ∙ sym (ap (sees visitor) (sym same) ∙ seen)
    | inr missing ↦ elim (Bool-cases (sees visitor c)) [
      | inr hidden ↦ missing ∙ sym hidden
      | inl seen ↦
          let key : (c.pk == l.course) ≡ true = subst (λ n. (c.pk == n) ≡ true) at (==-refl c.pk) in
          let there =
            In-exists (λ c. c.pk == l.course && sees visitor c) c db.courses m (ground arith) in
          absurd (ground (arith, there, missing))
    ]
  ]

  judged_served :
      (l x : Lesson) (o : Option AccessDecision) → judged l o ≡ served_200 x → (l ≡ x) × Allows o
  judged_served l x none h = absurd (ground arith)
  judged_served l x (some d) h = elim (Bool-cases d.allowed) [
    | inl e ↦ (ground arith, (d, refl, e))
    | inr e ↦ absurd (ground arith)
  ]

  served_judged : (l : Lesson) (o : Option AccessDecision) → Allows o → judged l o ≡ served_200 l
  served_judged l o (d, e, granted) = rw e (rw granted refl)

  -- What either route serves may be read.
  read-MayRead :
      (l x : Lesson)
      → In l (lessons_visible_to visitor db)
      → read_lesson gate visitor (some l) db ≡ served_200 x
      → (l ≡ x) × MayRead gate visitor db l
  unfolding lessons_visible_to
  read-MayRead l x m h =
      let (inside, seen) = In-filter (visible visitor db) l db.lessons m in
      elim (Option-cases (course_of db l)) [
        | inl e ↦ absurd (ground (arith, e))
        | inr (c, e) ↦
            let (here, at) = first-In (λ c. c.pk == l.course) c db.courses e in
            let of : c.pk ≡ l.course = ==→eq c.pk l.course at in
            let reply : permit gate visitor l (some c) ≡ served_200 x =
              ap (permit gate visitor l) (sym e) ∙ h in
            let (same, granted) = judged_served l x _ reply in
            (
              same,
              record {
                stored = inside;
                course = c;
                of_course = (here, of);
                seen = sym (seen_course l c here of) ∙ seen;
                entitled =
                    (resolve_access-Entitled gate.grace_days gate.billing gate.now gate.override_now
                        visitor (gated l c)).0
                      granted;
              },
            )
      ]

  MayRead-retrieve :
      (l : Lesson) → MayRead gate visitor db l → retrieve gate visitor l.pk db ≡ served_200 l
  unfolding retrieve lessons_visible_to
  MayRead-retrieve l r =
      let rows = filter_by (visible visitor db) db.lessons in
      let (here, of) = r.of_course in
      let seen = seen_course l r.course here of ∙ r.seen in
      let found : first_by (λ x. x.pk == l.pk) rows ≡ some l =
        find_self (λ x. x.pk) rows l
          (λ a b m n e.
            lessons_keyed a b (In-filter (visible visitor db) a db.lessons m).0
              (In-filter (visible visitor db) b db.lessons n).0 e)
          (filter-In (visible visitor db) l db.lessons r.stored seen) in
      let course : course_of db l ≡ some r.course =
        subst (λ n. first_by (λ c. c.pk == n) db.courses ≡ some r.course) of
          (find_self (λ c. c.pk) db.courses r.course courses_keyed here) in
      ap (λ o. read_lesson gate visitor o db) found
      ∙ ap (permit gate visitor l) course
      ∙ served_judged l _ (
          (resolve_access-Entitled gate.grace_days gate.billing gate.now gate.override_now visitor
              (gated l r.course)).1
            r.entitled)

  retrieve-MayRead :
      (l : Lesson) (pk : ℕ)
      → retrieve gate visitor pk db ≡ served_200 l
      → (l.pk ≡ pk) × MayRead gate visitor db l
  unfolding retrieve
  retrieve-MayRead l pk h =
      elim (Option-cases (first_by (λ x. x.pk == pk) (lessons_visible_to visitor db))) [
        | inl e ↦ absurd (ground (arith, e))
        | inr (x, e) ↦
            let (m, at) = first-In (λ x. x.pk == pk) x (lessons_visible_to visitor db) e in
            let reply : read_lesson gate visitor (some x) db ≡ served_200 l =
              ap (λ o. read_lesson gate visitor o db) (sym e) ∙ h in
            let (same, may) = read-MayRead x l m reply in
            (sym (ap (λ y. y.pk) same) ∙ ==→eq x.pk pk at, subst (MayRead gate visitor db) same may)
      ]

  slug-MayRead :
      (l : Lesson) (course_slug lesson_slug : Text)
      → retrieve_by_slug gate visitor course_slug lesson_slug db ≡ served_200 l
      → MayRead gate visitor db l
  unfolding retrieve_by_slug
  slug-MayRead l course_slug lesson_slug h =
      elim (Option-cases
        (first_by (at_slugs course_slug lesson_slug db) (lessons_visible_to visitor db))) [
          | inl e ↦ absurd (ground (arith, e))
          | inr (x, e) ↦
              let (m, at) =
                first-In (at_slugs course_slug lesson_slug db) x (lessons_visible_to visitor db)
                  e in
              let reply : read_lesson gate visitor (some x) db ≡ served_200 l =
                ap (λ o. read_lesson gate visitor o db) (sym e) ∙ h in
              let (same, may) = read-MayRead x l m reply in subst (MayRead gate visitor db) same may
        ]

-- With unique keys of courses and lessons, a lesson is served by its key exactly when it is stored,
-- the visitor sees its course (a published one, the visitor's own, or any one for an administrator),
-- and the visitor is entitled to it by the specification of the resolver. What the route by slugs
-- serves, the route by key serves the same visitor too.
pub served_iff :
    (gate : Gate) (visitor : Visitor) (db : Db) (l : Lesson)
    → IsKeyed (λ c. c.pk) db.courses
    → IsKeyed (λ l. l.pk) db.lessons
    → ((retrieve gate visitor l.pk db ≡ served_200 l) ↔ MayRead gate visitor db l)
      × ((course_slug lesson_slug : Text)
          → retrieve_by_slug gate visitor course_slug lesson_slug db ≡ served_200 l
          → retrieve gate visitor l.pk db ≡ served_200 l)
served_iff gate visitor db l courses lessons = (
  (
    λ h. (retrieve-MayRead gate visitor db courses lessons l l.pk h).1,
    MayRead-retrieve gate visitor db courses lessons l,
  ),
  λ course_slug lesson_slug h.
      MayRead-retrieve gate visitor db courses lessons l
        (slug-MayRead gate visitor db courses lessons l course_slug lesson_slug h),
)
