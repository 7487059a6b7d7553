-- ===== src/Webhooks/Lost.antt =====
-- An answer that arrives before the submission of its job is stored is lost: the worker's callback of
-- backend/apps/transcripts/tasks.py, between the receiver and the request.
use e_platform.Prelude.{ℕ, ◌≡◌, refl, true, false, Option, some, List, ◌∷◌, ◌==◌, map}
use e_platform.Prelude.Rows.{exists_by, first_by}
use e_platform.Prelude.Members.{In}
use e_platform.Prelude.Keyed.{IsKeyed}
use e_platform.Prelude.Result.{Result, ok}
use e_platform.Prelude.Text.{Text, is_nonempty}
use e_platform.Core.Inbox.{WebhookEvent, Inbox, ok_200, mark_processed}
use e_platform.Media.Tasks.{Raised}
use e_platform.Transcripts.Model.{Transcript, Db, pending}
use e_platform.Transcripts.Services.{TranscriptionResult, apply_transcription_callback, unknown_job}
use e_platform.Transcripts.Callback.{run_callback, handled}
use e_platform.Transcripts.Requests.{
  TranscriptionJob, Context, submitted, already_submitted, request_transcription,
}
use e_platform.Transcripts.Early.{early_answer}
use e_platform.Webhooks.{
  Adapters, Event, transcription_post, processed, deliver, run, row_of, job_for,
}
use e_platform.Webhooks.Once.{redelivery_ignored}

run_unknown :
    (parse : Text → Option TranscriptionResult) (provider : Text) (now key : ℕ) (inbox : Inbox)
    (db : Db) (e : WebhookEvent) (result : TranscriptionResult)
    → first_by (λ r. r.pk == key) inbox.events ≡ some e
    → parse e.payload ≡ some result
    → apply_transcription_callback provider result db ≡ (unknown_job, db)
    → run_callback parse provider now key inbox db
      ≡ (handled unknown_job, (mark_processed now key inbox, db))
unfolding run_callback
run_unknown parse provider now key inbox db e result found read unknown =
    rw (run_callback, found, read, unknown) refl

processed_next :
    (a : Adapters) (now key : ℕ) (between : List Event) (inbox : Inbox)
    → run a (processed now key ∷ between) inbox ≡ run a between (mark_processed now key inbox)
unfolding deliver
processed_next a now key between inbox = refl

-- A provider that takes a job may answer before the task has stored its id. The task of that answer
-- finds no transcript: it writes none, and marks the event as processed. The same answer sent again,
-- whatever came in between, is then answered 200 and queues nothing; and when the request is
-- through, the transcript has the job and is pending, and a further request submits nothing. Job ids
-- are taken to have characters, keys of transcripts to be unique and that of a new one unused, the
-- key of the event to name it, and the queue to match the table, as it does when the receivers begin
-- with an empty one.
pub answer_lost :
    (a : Adapters) (key again now : ℕ) (payload signature : Text) (e : WebhookEvent)
    (between : List Event) (inbox : Inbox) (parse : Text → Option TranscriptionResult)
    (result : TranscriptionResult) (submit : Text → Text → Result Raised TranscriptionJob)
    (job : TranscriptionJob) (max_retries retries new_pk pk : ℕ) (ctx : Context) (db : Db)
    {db' : Db}
    → inbox.jobs ≡ map job_for inbox.events
    → row_of a (transcription_post key payload signature) ≡ some e
    → first_by
        (λ r. r.pk == key)
        (deliver a (transcription_post key payload signature) inbox).1.events
      ≡ some e
    → parse e.payload ≡ some result
    → result.job_id ≡ job.job_id
    → ((source code : Text) → submit source code ≡ ok job)
    → is_nonempty job.job_id ≡ true
    → IsKeyed (λ t. t.pk) db.transcripts
    → exists_by (λ t. t.pk == new_pk) db.transcripts ≡ false
    → request_transcription submit max_retries retries new_pk pk ctx db ≡ (submitted, db')
    → (let received = (deliver a (transcription_post key payload signature) inbox).1 in
        let after = run a between (mark_processed now key received) in
        (run_callback parse job.provider now key received db
          ≡ (handled unknown_job, (mark_processed now key received, db)))
        × (deliver a (transcription_post again payload signature) after ≡ (ok_200, after)))
      × ((t : Transcript) × In t db'.transcripts
          × (t.provider_job_id ≡ some job.job_id)
          × (t.status ≡ pending))
      × (request_transcription submit max_retries retries new_pk pk ctx db'
          ≡ (already_submitted, db'))
answer_lost a key again now payload signature e between inbox parse result submit job max_retries
      retries new_pk pk ctx db {db'} queue asks found read same answers n keyed fresh h =
    let d = transcription_post key payload signature in
    let received = (deliver a d inbox).1 in
    let (unknown, waiting, asked) =
      early_answer submit job max_retries retries new_pk pk ctx db result answers n keyed fresh h
        same in
    let sent_again =
      (redelivery_ignored a d e (processed now key ∷ between) again inbox queue asks).1 in
    (
      (
        run_unknown parse job.provider now key received db e result found read unknown,
        (rw (processed_next a now key between received) at sent_again),
      ),
      waiting,
      asked,
    )
