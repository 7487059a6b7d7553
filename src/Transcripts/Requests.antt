-- ===== src/Transcripts/Requests.antt =====
-- `request_transcription` of backend/apps/transcripts/tasks.py: a READY asset is submitted to the
-- provider, with a budget of retries.
use e_platform.Prelude.{
  ℕ, ◌+◌, ◌*◌, ◌-◌, ◌^◌, Bool, true, false, not, ◌&&◌, ◌||◌, none, some, List, [], ◌∷◌, ◌==◌, ltb,
  if◌then◌else◌,
}
use e_platform.Prelude.Rows.{first_by, exists_by, update_by, length}
use e_platform.Prelude.Result.{Result, ok, err}
use e_platform.Prelude.Text.{Text, codes, is_nonempty, text_eq}
use e_platform.Entitlements.Resolver.{Lesson}
use e_platform.Media.Model.{MediaStatus, ready, MediaAsset, status_eq}
use e_platform.Media.Storage.{take}
use e_platform.Media.Tasks.{Raised, describe}
use e_platform.Transcripts.Model.{
  TranscriptStatus, pending, machine, in_review, approved, failed, Transcript, target, is_target,
  Db,
}
use e_platform.Transcripts.Services.{is_job}

-- `TranscriptionStatus`; `other` is a string that is none of them.
pub data JobStatus : Type 0 where
  processing completed job_failed other : JobStatus

pub record TranscriptionJob : Type 0 where
  pub provider : Text
  pub job_id : Text
  pub status : JobStatus

-- What the task reads beside the transcripts: the assets, the lesson of each, the language of a
-- course, and its code.
pub record Context : Type 0 where
  pub assets : List MediaAsset
  pub lesson_of : ℕ → Lesson
  pub language_of : ℕ → ℕ
  pub language_code : ℕ → Text

pub data RequestOutcome : Type 0 where
  gone already_submitted dead_lettered provider_refused submitted : RequestOutcome
  not_ready : MediaStatus → RequestOutcome
  already_transcribed : TranscriptStatus → RequestOutcome
  retried : ℕ → RequestOutcome  -- the countdown
  integrity_error data_error : RequestOutcome  -- an exception that leaves the task

unfoldable pub retry_countdown : ℕ → ℕ
retry_countdown attempt = 2 ^ attempt * 10

abbrev pub write : ℕ → (Transcript → Transcript) → Db → Db
write pk columns db = record db { transcripts = update_by (λ t. t.pk == pk) columns db.transcripts }

abbrev pub failure_columns : Text → ℕ → Transcript → Transcript
failure_columns message attempts t = record t {
  status = failed;
  error_message = take 2000 message;
  retry_count = attempts;
}

-- `_record_failure`
unfoldable pub record_failure : ℕ → Text → ℕ → Db → Db
record_failure pk message attempts = write pk (failure_columns message attempts)

-- The row of the `get_or_create`.
abbrev pub is_for : ℕ → ℕ → Transcript → Bool
is_for asset language t = t.media_asset == asset && t.language == language && is_target t.kind

abbrev pub new_transcript : ℕ → ℕ → Lesson → ℕ → Transcript
new_transcript pk asset lesson language = record {
  pk = pk;
  media_asset = asset;
  lesson = lesson;
  language = language;
  kind = target;
  status = pending;
  provider = [];
  provider_job_id = none;
  confidence = none;
  reviewed_by = none;
  approved_at = none;
  error_message = [];
  retry_count = 0;
}

abbrev pub get_or_create : ℕ → ℕ → Lesson → ℕ → Db → Transcript × Db
get_or_create pk asset lesson language db = elim (first_by (is_for asset language) db.transcripts) [
  | some t ↦ (t, db)
  | none ↦ (
    new_transcript pk asset lesson language,
    record db { transcripts = new_transcript pk asset lesson language ∷ db.transcripts },
  )
]

-- `if transcript.provider_job_id`
abbrev pub has_job : Transcript → Bool
has_job t = elim t.provider_job_id [ none ↦ false | some id ↦ is_nonempty id ]

-- MACHINE, IN_REVIEW and APPROVED.
abbrev pub is_transcribed : TranscriptStatus → Bool
is_transcribed machine = true
is_transcribed in_review = true
is_transcribed approved = true
is_transcribed pending = false
is_transcribed failed = false

abbrev pub set_retry_count : ℕ → Transcript → Transcript
set_retry_count attempts t = record t { retry_count = attempts }

-- An exception of the store or of the provider.
abbrev pub after_failure : ℕ → ℕ → ℕ → Raised → Db → RequestOutcome × Db
after_failure max_retries retries pk exc db =
    let attempts = retries + 1 in
    if ltb max_retries attempts
    then (dead_lettered, record_failure pk (describe exc) (attempts - 1) db)
    else (retried (retry_countdown attempts), write pk (set_retry_count attempts) db)

abbrev pub is_failed : JobStatus → Bool
is_failed job_failed = true
is_failed processing = false
is_failed completed = false
is_failed other = false

abbrev pub submitted_columns : TranscriptionJob → Transcript → Transcript
submitted_columns job t = record t {
  provider = job.provider;
  provider_job_id = some job.job_id;
  status = pending;
  error_message = [];
}

-- `transcript_unique_per_provider_job`
abbrev pub is_taken : TranscriptionJob → ℕ → Db → Bool
is_taken job pk db =
    exists_by
      (λ t.
        text_eq t.provider job.provider && is_job job.job_id t.provider_job_id && not (t.pk == pk))
      db.transcripts

abbrev pub after_submission : ℕ → ℕ → TranscriptionJob → Db → RequestOutcome × Db
after_submission retries pk job db =
    if is_failed job.status
    then (provider_refused, record_failure pk (codes "The provider refused the job.") retries db)
    else if ltb 32 (length job.provider) || ltb 128 (length job.job_id)
    then (data_error, db)
    else if is_taken job pk db
    then (integrity_error, db)
    else (submitted, write pk (submitted_columns job) db)

abbrev pub submit_to :
    (Text → Text → Result Raised TranscriptionJob)
    → ℕ
    → ℕ
    → Text
    → Text
    → Transcript × Db
    → RequestOutcome × Db
submit_to submit max_retries retries source code (t, db) =
    if has_job t
    then (already_submitted, db)
    else if is_transcribed t.status
    then (already_transcribed t.status, db)
    else elim (submit source code) [
      | err exc ↦ after_failure max_retries retries t.pk exc db
      | ok job ↦ after_submission retries t.pk job db
    ]

-- `submit` signs the URL of the object and hands it to the provider with the code of the language;
-- `retries` is `self.request.retries`, and `new_pk` the key of a row that has to be created.
unfoldable pub request_transcription :
    (Text → Text → Result Raised TranscriptionJob)
    → ℕ
    → ℕ
    → ℕ
    → ℕ
    → Context
    → Db
    → RequestOutcome × Db
unfolding record_failure retry_countdown
request_transcription submit max_retries retries new_pk pk ctx db =
    elim (first_by (λ a. a.pk == pk) ctx.assets) [
      | none ↦ (gone, db)
      | some asset ↦
          let language = ctx.language_of (ctx.lesson_of asset.lesson).course in
          if not (status_eq asset.status ready)
          then (not_ready asset.status, db)
          else submit_to submit max_retries retries asset.source_object_key
              (ctx.language_code language)
              (get_or_create new_pk asset.pk (ctx.lesson_of asset.lesson) language db)
    ]
