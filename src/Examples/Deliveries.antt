-- ===== src/Examples/Deliveries.antt =====
-- Events of the two providers, sent twice, and a transcription that is asked for.
use e_platform.Prelude.{sym, ap, refl, ◌≡◌, true, none, some, Option, ◌==◌, List, [], ◌∷◌, map}
use e_platform.Prelude.Members.{In}
use e_platform.Prelude.Result.{Result, ok}
use e_platform.Prelude.Text.{Text, codes, text_eq, is_nonempty}
use e_platform.Core.Inbox.{Inbox, WebhookEvent, ok_200, fits, admits_event, mark_processed}
use e_platform.Webhooks.{
  Adapters, Event, video_post, transcription_post, processed, deliver, run, key, row_of, replay,
  job_for,
}
use e_platform.Webhooks.Once.{AllOnce, run-replay, redelivery_ignored, resend}
use e_platform.Media.Model.{ready}
use e_platform.Media.Services.{blank_asset}
use e_platform.Media.Tasks.{Raised}
use e_platform.Transcripts.Model.{Transcript, Db, pending}
use e_platform.Transcripts.Services.{TranscriptionResult, unknown_job}
use e_platform.Transcripts.Requests.{
  TranscriptionJob, processing, Context, request_transcription, submitted, already_submitted,
  new_transcript, submitted_columns,
}
use e_platform.Transcripts.Submission.{perform_all, answer, submitted_once}
use e_platform.Transcripts.Early.{ok_inj}
use e_platform.Transcripts.Callback.{run_callback, handled}
use e_platform.Webhooks.Lost.{answer_lost}
use e_platform.Prelude.Rows.{first_by}
use e_platform.Examples.People.{lesson}

-- Both providers are called `fake`, sign with a fixed word, and send the id as the payload.
abbrev adapters : Adapters
adapters = record {
  video = record {
    name = codes "fake";
    verify_webhook = λ payload signature. text_eq signature (codes "signed");
    parse_webhook = λ payload.
        ok (record { event_id = payload; event_type = codes "asset"; payload = payload });
  };
  transcription = record {
    name = codes "fake";
    lower = λ s. s;
    verify_webhook = λ payload signature. text_eq signature (codes "signed");
    parse_webhook =
        λ payload. ok (record { job_id = payload; status = codes "completed"; payload = payload });
  };
}

abbrev empty_inbox : Inbox
empty_inbox = record { events = []; jobs = [] }

abbrev the_post : Event
the_post = transcription_post 1 (codes "j") (codes "signed")

abbrev traffic : List Event
traffic =
    video_post 2 (codes "j") (codes "signed")
    ∷ video_post 3 (codes "j") (codes "forged")
    ∷ processed 50 2
    ∷ video_post 4 (codes "j") (codes "signed")
    ∷ []

run-replay_example :
    (map key (run adapters (the_post ∷ traffic) empty_inbox).events
      ≡ replay adapters (the_post ∷ traffic) [])
    × AllOnce (map key (run adapters (the_post ∷ traffic) empty_inbox).events)
    × ((run adapters (the_post ∷ traffic) empty_inbox).jobs
        ≡ map job_for (run adapters (the_post ∷ traffic) empty_inbox).events)
run-replay_example = run-replay adapters (the_post ∷ traffic) empty_inbox refl tt

abbrev the_row : WebhookEvent
the_row = record {
  pk = 1;
  provider = codes "transcription:fake";
  provider_event_id = codes "j";
  event_type = codes "transcription.completed";
  payload = codes "j";
  processed_at = none;
}

asks_row : row_of adapters the_post ≡ some the_row
unfolding text_eq fits
asks_row = refl

redelivery_ignored_example :
    ((deliver adapters the_post empty_inbox).0 ≡ ok_200)
    × (deliver adapters
          (resend 9 the_post)
          (run adapters traffic (deliver adapters the_post empty_inbox).1)
        ≡ (ok_200, run adapters traffic (deliver adapters the_post empty_inbox).1))
redelivery_ignored_example =
    redelivery_ignored adapters the_post the_row traffic 9 empty_inbox refl asks_row

abbrev accepted_job : TranscriptionJob
accepted_job = record { provider = codes "fake"; job_id = codes "j"; status = processing }

abbrev takes_jobs : Text → Text → Result Raised TranscriptionJob
takes_jobs source code = ok accepted_job

names_jobs :
    (source code : Text) (job : TranscriptionJob)
    → takes_jobs source code ≡ ok job
    → is_nonempty job.job_id ≡ true
names_jobs source code job e = ap (λ j. is_nonempty j.job_id) (sym (ok_inj e))

abbrev context : Context
context = record {
  assets = record (blank_asset 8 7) { status = ready } ∷ [];
  lesson_of = λ n. lesson;
  language_of = λ n. 1;
  language_code = λ n. codes "el";
}

abbrev no_transcripts : Db
no_transcripts = record { transcripts = []; segments = [] }

abbrev asked : Transcript
asked = submitted_columns accepted_job (new_transcript 60 8 lesson 1)

abbrev asked_store : Db
asked_store = record { transcripts = asked ∷ []; segments = [] }

asks : request_transcription takes_jobs 3 0 60 8 context no_transcripts ≡ (submitted, asked_store)
unfolding request_transcription text_eq
asks = refl

abbrev failed_answer : TranscriptionResult
failed_answer = record { job_id = codes "j"; confidence = none; segments = none }

submitted_once_example :
    request_transcription takes_jobs 3 0 61 8 context
      (perform_all (answer (codes "fake") failed_answer ∷ []) asked_store)
    ≡ (already_submitted, perform_all (answer (codes "fake") failed_answer ∷ []) asked_store)
submitted_once_example =
    submitted_once takes_jobs takes_jobs 3 0 60 8 3 0 61 context no_transcripts
      (answer (codes "fake") failed_answer ∷ []) names_jobs asks

abbrev reads_failure : Text → Option TranscriptionResult
reads_failure payload = some failed_answer

abbrev received : Inbox
received = (deliver adapters the_post empty_inbox).1

stored : first_by (λ r. r.pk == 1) received.events ≡ some the_row
unfolding deliver text_eq fits admits_event
stored = refl

answer_lost_example :
    (let after = run adapters traffic (mark_processed 50 1 received) in
      (run_callback reads_failure (codes "fake") 50 1 received no_transcripts
        ≡ (handled unknown_job, (mark_processed 50 1 received, no_transcripts)))
      × (deliver adapters (transcription_post 9 (codes "j") (codes "signed")) after
          ≡ (ok_200, after)))
    × ((t : Transcript) × In t asked_store.transcripts
        × (t.provider_job_id ≡ some (codes "j"))
        × (t.status ≡ pending))
    × (request_transcription takes_jobs 3 0 60 8 context asked_store
        ≡ (already_submitted, asked_store))
answer_lost_example =
    answer_lost adapters 1 9 50 (codes "j") (codes "signed") the_row traffic empty_inbox
      reads_failure failed_answer takes_jobs accepted_job 3 0 60 8 context no_transcripts refl
      asks_row stored refl refl (λ source code. refl) refl (λ s t m. absurd m) refl asks
