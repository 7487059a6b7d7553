-- ===== src/Transcripts/Early.antt =====
-- An answer that comes before backend/apps/transcripts/tasks.py has stored the submission of its job.
use e_platform.Prelude.{
  ℕ, ◌≡◌, inl, inr, refl, sym, ap, ◌∙◌, subst, Bool, true, false, not, ◌&&◌, none, some, List, [],
  ◌∷◌, ◌==◌, arith, Bool-cases, Option-cases, ==-refl, ==→eq,
}
use e_platform.Prelude.Rows.{first_by, exists_by}
use e_platform.Prelude.Members.{In, In-exists, first-In, update-In}
use e_platform.Prelude.Keyed.{IsKeyed, insert-IsKeyed}
use e_platform.Prelude.Result.{Result, ok}
use e_platform.Prelude.Text.{Text, is_nonempty, text_eq, text_eq→eq}
use e_platform.Entitlements.Resolver.{Lesson}
use e_platform.Media.Tasks.{Raised}
use e_platform.Transcripts.Model.{Transcript, Db, pending}
use e_platform.Transcripts.Services.{
  is_job, TranscriptionResult, apply_transcription_callback, unknown_job,
}
use e_platform.Transcripts.Requests.{
  TranscriptionJob, Context, submitted, already_submitted, is_for, get_or_create, has_job,
  submitted_columns, request_transcription, new_transcript,
}
use e_platform.Transcripts.Submission.{Submitted, submission, language_for, got, submitted_once}

module _ (submit : Text → Text → Result Raised TranscriptionJob) (new_pk pk : ℕ) (ctx : Context)
    (db db' : Db) (s : Submitted submit new_pk pk ctx db db') where
  abbrev placed : Transcript × Db
  placed =
      get_or_create new_pk s.asset.pk (ctx.lesson_of s.asset.lesson) (language_for ctx s.asset) db

  -- No transcript has the job before.
  no_job :
      is_nonempty s.job.job_id ≡ true
      → IsKeyed (λ t. t.pk) placed.1.transcripts
      → In placed.0 placed.1.transcripts
      → (x : Transcript) → In x placed.1.transcripts
      → (text_eq x.provider s.job.provider && is_job s.job.job_id x.provider_job_id) ≡ false
  no_job n keyed here x m = elim (Bool-cases (x.pk == placed.0.pk)) [
    | inl same ↦
        let same_row : x ≡ placed.0 = keyed x placed.0 m here (==→eq x.pk placed.0.pk same) in
        let free : has_job x ≡ false = ap has_job same_row ∙ s.free in no_job_of n x free
    | inr other ↦
        elim (Bool-cases
          (text_eq x.provider s.job.provider && is_job s.job.job_id x.provider_job_id)) [
            | inr k ↦ k
            | inl k ↦
                let found =
                  In-exists
                    (λ t.
                      text_eq t.provider s.job.provider
                      && is_job s.job.job_id t.provider_job_id
                      && not (t.pk == placed.0.pk))
                    x placed.1.transcripts m (ground arith) in
                absurd (ground (arith, found, s.untaken))
          ]
  ]
    where
      no_job_of :
          is_nonempty s.job.job_id ≡ true
          → (x : Transcript) → has_job x ≡ false
          → (text_eq x.provider s.job.provider && is_job s.job.job_id x.provider_job_id) ≡ false
      no_job_of n x free = elim (Option-cases x.provider_job_id) [
        | inl e ↦ ground arith
        | inr (id, e) ↦ elim (Bool-cases (text_eq id s.job.job_id)) [
          | inr k ↦ ground arith
          | inl k ↦ let same = text_eq→eq id s.job.job_id k in absurd (ground arith)
        ]
      ]

first_absent :
    (p : Transcript → Bool) (rows : List Transcript)
    → ((x : Transcript) → In x rows → p x ≡ false)
    → first_by p rows ≡ none
first_absent p [] h = refl
first_absent p (x ∷ rows) h =
    ground (arith, h x (inl refl), first_absent p rows (λ y m. h y (inr m)))

-- The rows of the request are those of the store, or one more.
placed_rows :
    (new_pk asset language : ℕ) (lesson : Lesson) (db : Db)
    → (x : Transcript) → In x db.transcripts
    → In x (get_or_create new_pk asset lesson language db).1.transcripts
placed_rows new_pk asset language lesson db x m =
    elim (Option-cases (first_by (is_for asset language) db.transcripts)) [
      | inl e ↦ rw (get_or_create, e) (inr m)
      | inr (t, e) ↦ rw (get_or_create, e) m
    ]

placed-IsKeyed :
    (new_pk asset language : ℕ) (lesson : Lesson) (db : Db)
    → IsKeyed (λ t. t.pk) db.transcripts
    → exists_by (λ t. t.pk == new_pk) db.transcripts ≡ false
    → IsKeyed (λ t. t.pk) (get_or_create new_pk asset lesson language db).1.transcripts
placed-IsKeyed new_pk asset language lesson db keyed fresh =
    elim (Option-cases (first_by (is_for asset language) db.transcripts)) [
      | inl e ↦
          rw (get_or_create, e)
            (insert-IsKeyed (λ t. t.pk) db.transcripts (new_transcript new_pk asset lesson language)
              keyed fresh)
      | inr (t, e) ↦ rw (get_or_create, e) keyed
    ]

unmatched :
    (provider : Text) (result : TranscriptionResult) (db : Db)
    → first_by
        (λ t. text_eq t.provider provider && is_job result.job_id t.provider_job_id)
        db.transcripts
      ≡ none
    → apply_transcription_callback provider result db ≡ (unknown_job, db)
unfolding apply_transcription_callback
unmatched provider result db h = ground (arith, h)

abbrev one : TranscriptionJob → Result Raised TranscriptionJob
one job = ok job

pub ok_inj : {a b : TranscriptionJob} → one a ≡ one b → a ≡ b
ok_inj e = ground arith

-- A provider that takes the job may answer before the task has stored its id. Such an answer finds
-- no transcript and writes none; and when the request is through, the transcript has the job and is
-- pending, and a further request submits nothing. Job ids are taken to have characters, and keys of
-- rows to be unique.
pub early_answer :
    (submit : Text → Text → Result Raised TranscriptionJob) (job : TranscriptionJob)
    (max_retries retries new_pk pk : ℕ) (ctx : Context) (db : Db) {db' : Db}
    (result : TranscriptionResult)
    → ((source code : Text) → submit source code ≡ ok job)
    → is_nonempty job.job_id ≡ true
    → IsKeyed (λ t. t.pk) db.transcripts
    → exists_by (λ t. t.pk == new_pk) db.transcripts ≡ false
    → request_transcription submit max_retries retries new_pk pk ctx db ≡ (submitted, db')
    → result.job_id ≡ job.job_id
    → (apply_transcription_callback job.provider result db ≡ (unknown_job, db))
      × ((t : Transcript) × In t db'.transcripts
          × (t.provider_job_id ≡ some job.job_id)
          × (t.status ≡ pending))
      × (request_transcription submit max_retries retries new_pk pk ctx db'
          ≡ (already_submitted, db'))
early_answer submit job max_retries retries new_pk pk ctx db {db'} result answers n keyed fresh h
      same =
    let s = submission submit max_retries retries new_pk pk ctx db h in
    let lang = language_for ctx s.asset in
    let lesson = ctx.lesson_of s.asset.lesson in
    let row = placed submit new_pk pk ctx db db' s in
    let taken : s.job ≡ job = ok_inj (sym s.answered ∙ answers _ _) in
    let names : is_nonempty s.job.job_id ≡ true = ap (λ j. is_nonempty j.job_id) taken ∙ n in
    let here =
      (first-In (is_for s.asset.pk lang) row.0 row.1.transcripts
        (got new_pk s.asset.pk lang lesson db)).0 in
    let absent : first_by
          (λ t. text_eq t.provider s.job.provider && is_job s.job.job_id t.provider_job_id)
          db.transcripts
        ≡ none =
      first_absent _ db.transcripts (λ x m.
        no_job submit new_pk pk ctx db db' s names
          (placed-IsKeyed new_pk s.asset.pk lang lesson db keyed fresh) here x
          (placed_rows new_pk s.asset.pk lang lesson db x m)) in
    let gone : first_by
          (λ t. text_eq t.provider job.provider && is_job result.job_id t.provider_job_id)
          db.transcripts
        ≡ none =
      subst
        (λ i.
          first_by (λ t. text_eq t.provider job.provider && is_job i t.provider_job_id)
            db.transcripts
          ≡ none)
        (sym same)
        (subst
          (λ j.
            first_by (λ t. text_eq t.provider j.provider && is_job j.job_id t.provider_job_id)
              db.transcripts
            ≡ none)
          taken absent) in
    let written : In (submitted_columns s.job row.0) db'.transcripts =
      subst (λ d. In (submitted_columns s.job row.0) d.transcripts) (sym s.wrote)
        (rw (==-refl row.0.pk) at (
          update-In (λ t. t.pk == row.0.pk) (submitted_columns s.job) row.0 row.1.transcripts
            here)) in
    (
      unmatched job.provider result db gone,
      (submitted_columns s.job row.0, written, ap (λ j. some j.job_id) taken, refl),
      submitted_once submit submit max_retries retries new_pk pk max_retries retries new_pk ctx db
          []
          (λ source code j e.
            ap (λ k. is_nonempty k.job_id) (ok_inj (sym e ∙ answers source code)) ∙ n)
          h,
    )
