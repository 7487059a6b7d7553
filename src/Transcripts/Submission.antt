-- ===== src/Transcripts/Submission.antt =====
-- A media asset is submitted for transcription once, and what an answer finds before the submission
-- is stored.
use e_platform.Prelude.{
  ℕ, ◌+◌, ◌≡◌, inl, inr, refl, sym, subst, true, false, ◌&&◌, ◌||◌, none, some, List, [], ◌∷◌, ◌==◌,
  ◌-◌, ltb, arith, Bool-cases, Option-cases, ==-refl, ==→eq,
}
use e_platform.Prelude.Rows.{first_by, length}
use e_platform.Prelude.Members.{first_written}
use e_platform.Prelude.Result.{Result, ok, Result-cases}
use e_platform.Prelude.Text.{Text, codes, is_nonempty, text_eq}
use e_platform.Entitlements.Resolver.{Lesson}
use e_platform.Media.Model.{MediaAsset, ready, status_eq}
use e_platform.Media.Tasks.{Raised, describe}
use e_platform.Transcripts.Model.{Transcript, Db}
use e_platform.Transcripts.Services
use e_platform.Transcripts.Services.{
  is_job, TranscriptionResult, apply_transcription_callback, apply_result, admits_answer,
  unknown_job, is_reviewed, machine_columns,
}
use e_platform.Transcripts.Requests.{
  TranscriptionJob, Context, submitted, already_submitted, is_for, get_or_create, has_job,
  submitted_columns, is_taken, write, request_transcription, submit_to, is_transcribed,
  record_failure, retry_countdown, after_failure, after_submission, is_failed, failure_columns,
  set_retry_count,
}

abbrev pub language_for : Context → MediaAsset → ℕ
language_for ctx a = ctx.language_of (ctx.lesson_of a.lesson).course

-- What a submission has found, and written.
pub record Submitted (submit : Text → Text → Result Raised TranscriptionJob) (new_pk pk : ℕ)
    (ctx : Context) (db db' : Db) : Type 0 where
  pub asset : MediaAsset
  pub job : TranscriptionJob
  pub here : first_by (λ a. a.pk == pk) ctx.assets ≡ some asset
  pub is_ready : status_eq asset.status ready ≡ true
  pub answered :
      submit asset.source_object_key (ctx.language_code (language_for ctx asset)) ≡ ok job
  pub free :
      has_job
        (get_or_create new_pk asset.pk (ctx.lesson_of asset.lesson) (language_for ctx asset) db).0
      ≡ false
  pub untaken :
      is_taken job
        (get_or_create new_pk asset.pk
          (ctx.lesson_of asset.lesson)
          (language_for ctx asset)
          db).0.pk
        (get_or_create new_pk asset.pk (ctx.lesson_of asset.lesson) (language_for ctx asset) db).1
      ≡ false
  pub wrote :
      db'
      ≡ write
          (get_or_create new_pk asset.pk
            (ctx.lesson_of asset.lesson)
            (language_for ctx asset)
            db).0.pk
          (submitted_columns job)
          (get_or_create new_pk asset.pk (ctx.lesson_of asset.lesson) (language_for ctx asset) db).1

pub submission :
    (submit : Text → Text → Result Raised TranscriptionJob) (max_retries retries new_pk pk : ℕ)
    (ctx : Context) (db : Db) {db' : Db}
    → request_transcription submit max_retries retries new_pk pk ctx db ≡ (submitted, db')
    → Submitted submit new_pk pk ctx db db'
unfolding request_transcription
submission submit max_retries retries new_pk pk ctx db {db'} h =
    elim (Option-cases (first_by (λ a. a.pk == pk) ctx.assets)) [
      | inl e ↦ absurd (ground arith)
      | inr (asset, e) ↦
          elim (Result-cases
            (submit asset.source_object_key (ctx.language_code (language_for ctx asset)))) [
              | inl (exc, bad) ↦ absurd (ground arith)
              | inr (job, good) ↦ record {
                asset = asset;
                job = job;
                here = e;
                is_ready = ground arith;
                answered = good;
                free = ground arith;
                untaken = ground arith;
                wrote = ground arith;
              }
            ]
    ]

pub got :
    (new_pk asset language : ℕ) (lesson : Lesson) (db : Db)
    → first_by (is_for asset language) (get_or_create new_pk asset lesson language db).1.transcripts
      ≡ some (get_or_create new_pk asset lesson language db).0
got new_pk asset language lesson db =
    elim (Option-cases (first_by (is_for asset language) db.transcripts)) [
      | inl e ↦ ground (arith, ==-refl asset, ==-refl language)
      | inr (t, e) ↦ ground (arith, e)
    ]

-- The transcript of an asset, in a language, with a job.
abbrev pub Held : ℕ → ℕ → Db → Type 0
Held asset language db =
    (t : Transcript) × (first_by (is_for asset language) db.transcripts ≡ some t)
    × (has_job t ≡ true)

write-Held :
    (asset language pk : ℕ) (columns : Transcript → Transcript) (db : Db)
    → ((t : Transcript) → is_for asset language (columns t) ≡ is_for asset language t)
    → ((t : Transcript) → has_job t ≡ true → has_job (columns t) ≡ true)
    → Held asset language db
    → Held asset language (write pk columns db)
write-Held asset language pk columns db keeps jobs (t, e, j) =
    let there =
      first_written (is_for asset language) (λ r. r.pk == pk) columns t db.transcripts keeps e in
    elim (Bool-cases (t.pk == pk)) [
      | inl k ↦ (columns t, rw k at there, jobs t j)
      | inr k ↦ (t, rw k at there, j)
    ]

get-Held :
    (asset language new_pk other lang : ℕ) (lesson : Lesson) (db : Db)
    → Held asset language db
    → Held asset language (get_or_create new_pk other lesson lang db).1
get-Held asset language new_pk other lang lesson db (t, e, j) =
    elim (Option-cases (first_by (is_for other lang) db.transcripts)) [
      | inr (r, k) ↦ (t, ground (arith, e, k), j)
      | inl k ↦ elim (Bool-cases (other == asset && lang == language)) [
        | inr apart ↦ (t, ground (arith, e, k), j)
        | inl both ↦
            let a : other ≡ asset = ==→eq other asset (ground arith) in
            let l : lang ≡ language = ==→eq lang language (ground arith) in
            let none_there : first_by (is_for asset language) db.transcripts ≡ none =
              subst (λ x. first_by (is_for x language) db.transcripts ≡ none) a
                (subst (λ x. first_by (is_for other x) db.transcripts ≡ none) l k) in
            absurd (ground (arith, none_there, e))
      ]
    ]

-- Job ids have characters.
abbrev pub Names : (Text → Text → Result Raised TranscriptionJob) → Type 0
Names submit =
    (source code : Text) (job : TranscriptionJob)
    → submit source code ≡ ok job
    → is_nonempty job.job_id ≡ true

failed_Held :
    (asset language max_retries retries pk : ℕ) (exc : Raised) (db : Db)
    → Held asset language db
    → Held asset language (after_failure max_retries retries pk exc db).1
unfolding record_failure retry_countdown
failed_Held asset language max_retries retries pk exc db h =
    elim (Bool-cases (ltb max_retries (retries + 1))) [
      | inl k ↦ rw k (
          write-Held asset language pk (failure_columns (describe exc) (retries + 1 - 1)) db
            (λ t. refl) (λ t j. j) h)
      | inr k ↦
          rw k (
            write-Held asset language pk (set_retry_count (retries + 1)) db (λ t. refl) (λ t j. j)
              h)
    ]

stored_Held :
    (asset language retries pk : ℕ) (job : TranscriptionJob) (db : Db)
    → is_nonempty job.job_id ≡ true
    → Held asset language db
    → Held asset language (after_submission retries pk job db).1
unfolding record_failure
stored_Held asset language retries pk job db n h = elim (Bool-cases (is_failed job.status)) [
  | inl k ↦ rw k (
      write-Held asset language pk (failure_columns (codes "The provider refused the job.") retries)
        db (λ t. refl) (λ t j. j) h)
  | inr k ↦ elim (Bool-cases (ltb 32 (length job.provider) || ltb 128 (length job.job_id))) [
    | inl wide ↦ rw (k, wide) h
    | inr fits ↦ elim (Bool-cases (is_taken job pk db)) [
      | inl taken ↦ rw (k, fits, taken) h
      | inr free ↦
          rw (k, fits, free)
            (write-Held asset language pk (submitted_columns job) db (λ t. refl) (λ t j. n) h)
    ]
  ]
]

submit-Held :
    (asset language : ℕ) (submit : Text → Text → Result Raised TranscriptionJob)
    (max_retries retries : ℕ) (source code : Text) (t : Transcript) (db : Db)
    → Names submit
    → Held asset language db
    → Held asset language (submit_to submit max_retries retries source code (t, db)).1
unfolding record_failure retry_countdown
submit-Held asset language submit max_retries retries source code t db names h =
    elim (Bool-cases (has_job t)) [
      | inl k ↦ rw k h
      | inr k ↦ elim (Bool-cases (is_transcribed t.status)) [
        | inl m ↦ rw (k, m) h
        | inr m ↦ elim (Result-cases (submit source code)) [
          | inl (exc, bad) ↦
              rw (k, m, bad) (failed_Held asset language max_retries retries t.pk exc db h)
          | inr (job, good) ↦
              rw (k, m, good)
                (stored_Held asset language retries t.pk job db (names source code job good) h)
        ]
      ]
    ]

request-Held :
    (asset language : ℕ) (submit : Text → Text → Result Raised TranscriptionJob)
    (max_retries retries new_pk pk : ℕ) (ctx : Context) (db : Db)
    → Names submit
    → Held asset language db
    → Held asset language (request_transcription submit max_retries retries new_pk pk ctx db).1
unfolding request_transcription
request-Held asset language submit max_retries retries new_pk pk ctx db names h =
    elim (Option-cases (first_by (λ a. a.pk == pk) ctx.assets)) [
      | inl e ↦ rw (request_transcription, e) h
      | inr (a, e) ↦ elim (Bool-cases (status_eq a.status ready)) [
        | inr k ↦ rw (request_transcription, e, k) h
        | inl k ↦
            let lesson = ctx.lesson_of a.lesson in
            let lang = language_for ctx a in
            let placed = get_or_create new_pk a.pk lesson lang db in
            rw (request_transcription, e, k)
              (submit-Held asset language submit max_retries retries a.source_object_key
                (ctx.language_code lang) placed.0 placed.1 names
                (get-Held asset language new_pk a.pk lang lesson db h))
      ]
    ]

result-Held :
    (asset language : ℕ) (t : Transcript) (result : TranscriptionResult) (db : Db)
    → Held asset language db
    → Held asset language (apply_result t result result.segments db).1
result-Held asset language t result db h = elim (Option-cases result.segments) [
  | inl e ↦
      rw e (write-Held asset language t.pk Services.failure_columns db (λ x. refl) (λ x j. j) h)
  | inr (cues, e) ↦ elim (Bool-cases (admits_answer result.confidence cues)) [
    | inr bad ↦ rw (e, bad) h
    | inl good ↦
        rw (e, good)
          (write-Held asset language t.pk (machine_columns result.confidence) db (λ x. refl)
            (λ x j. j) h)
  ]
]

callback-Held :
    (asset language : ℕ) (provider : Text) (result : TranscriptionResult) (db : Db)
    → Held asset language db
    → Held asset language (apply_transcription_callback provider result db).1
unfolding apply_transcription_callback
callback-Held asset language provider result db h =
    elim (Option-cases (
      first_by (λ t. text_eq t.provider provider && is_job result.job_id t.provider_job_id)
        db.transcripts)) [
          | inl e ↦ rw (apply_transcription_callback, e) h
          | inr (t, e) ↦ elim (Bool-cases (is_reviewed t.status)) [
            | inl k ↦ rw (apply_transcription_callback, e, k) h
            | inr k ↦
                rw (apply_transcription_callback, e, k) (result-Held asset language t result db h)
          ]
        ]

-- What the worker may run afterwards: an answer of a provider, or a request for some asset.
pub data Task : Type 0 where
  answer : Text → TranscriptionResult → Task
  ask :
      (submit : Text → Text → Result Raised TranscriptionJob) (max_retries retries new_pk pk : ℕ)
      → Context
      → Names submit
      → Task

abbrev pub perform : Task → Db → Db
perform (answer provider result) db = (apply_transcription_callback provider result db).1
perform (ask submit max_retries retries new_pk pk ctx names) db =
    (request_transcription submit max_retries retries new_pk pk ctx db).1

abbrev pub perform_all : List Task → Db → Db
perform_all [] db = db
perform_all (task ∷ tasks) db = perform_all tasks (perform task db)

perform-Held :
    (asset language : ℕ) (tasks : List Task) (db : Db)
    → Held asset language db
    → Held asset language (perform_all tasks db)
perform-Held asset language [] db h = h
perform-Held asset language (answer provider result ∷ tasks) db h =
    perform-Held asset language tasks _ (callback-Held asset language provider result db h)
perform-Held asset language (ask submit max_retries retries new_pk pk ctx names ∷ tasks) db h =
    perform-Held asset language tasks _
      (request-Held asset language submit max_retries retries new_pk pk ctx db names h)

submission-Held :
    (submit : Text → Text → Result Raised TranscriptionJob) (new_pk pk : ℕ) (ctx : Context)
    (db db' : Db)
    → Names submit
    → (s : Submitted submit new_pk pk ctx db db') → Held s.asset.pk (language_for ctx s.asset) db'
submission-Held submit new_pk pk ctx db db' names s =
    let lang = language_for ctx s.asset in
    let placed = get_or_create new_pk s.asset.pk (ctx.lesson_of s.asset.lesson) lang db in
    let there =
      first_written (is_for s.asset.pk lang) (λ r. r.pk == placed.0.pk) (submitted_columns s.job)
        placed.0 placed.1.transcripts (λ x. refl)
        (got new_pk s.asset.pk lang (ctx.lesson_of s.asset.lesson) db) in
    subst (Held s.asset.pk lang) (sym s.wrote) (
      submitted_columns s.job placed.0,
      rw (==-refl placed.0.pk) at there,
      names s.asset.source_object_key (ctx.language_code lang) s.job s.answered,
    )

Held-refused :
    (submit : Text → Text → Result Raised TranscriptionJob) (max_retries retries new_pk pk : ℕ)
    (ctx : Context) (a : MediaAsset) (db : Db)
    → first_by (λ a. a.pk == pk) ctx.assets ≡ some a
    → status_eq a.status ready ≡ true
    → Held a.pk (language_for ctx a) db
    → request_transcription submit max_retries retries new_pk pk ctx db ≡ (already_submitted, db)
unfolding request_transcription
Held-refused submit max_retries retries new_pk pk ctx a db e k (t, there, j) =
    ground (arith, e, k, there, j)

-- An asset is submitted once: after a request that submitted it, and after any further answers of
-- providers and requests for it or other assets, another request for it, while it and its course are
-- as they were, submits nothing and writes nothing, also when its job has failed. Job ids are taken
-- to have characters.
pub submitted_once :
    (submit other : Text → Text → Result Raised TranscriptionJob)
    (max_retries retries new_pk pk max_again again new_again : ℕ) (ctx : Context) (db : Db)
    {db' : Db} (tasks : List Task)
    → Names submit
    → request_transcription submit max_retries retries new_pk pk ctx db ≡ (submitted, db')
    → request_transcription other max_again again new_again pk ctx (perform_all tasks db')
      ≡ (already_submitted, perform_all tasks db')
submitted_once submit other max_retries retries new_pk pk max_again again new_again ctx db {db'}
      tasks names h =
    let s = submission submit max_retries retries new_pk pk ctx db h in
    Held-refused other max_again again new_again pk ctx s.asset (perform_all tasks db') s.here
      s.is_ready
      (perform-Held s.asset.pk (language_for ctx s.asset) tasks db'
        (submission-Held submit new_pk pk ctx db db' names s))
