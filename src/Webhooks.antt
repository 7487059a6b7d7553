-- ===== src/Webhooks.antt =====
-- The two webhook receivers on the table that they share, with the worker's mark of an event.
pub mod Steps
pub mod Once
pub mod Lost
use e_platform.Prelude.{
  ℕ, Bool, true, false, ◌&&◌, Option, none, some, List, [], ◌∷◌, ◌==◌, if◌then◌else◌, ◌++◌,
}
use e_platform.Prelude.Rows.{exists_by}
use e_platform.Prelude.Result.{ok, err}
use e_platform.Prelude.Text.{Text, codes, text_eq}
use e_platform.Core.Inbox.{
  WebhookEvent, Inbox, Response, ok_200, Job, apply_media_webhook, apply_transcription_callback,
  fits, mark_processed,
}
use e_platform.Media.Webhooks
use e_platform.Media.Webhooks.{WebhookProvider}
use e_platform.Media
use e_platform.Transcripts
use e_platform.Transcripts.Webhooks.{CallbackProvider}

-- The two adapters of a deployment.
pub record Adapters : Type 0 where
  pub video : WebhookProvider
  pub transcription : CallbackProvider

-- A request to one of the receivers, with the key that a new row would get, the payload and the
-- signature; or the worker that is done with an event.
pub data Event : Type 0 where
  video_post transcription_post : ℕ → Text → Text → Event
  processed : ℕ → ℕ → Event

unfoldable pub deliver : Adapters → Event → Inbox → Response × Inbox
unfolding Media.Webhooks.post Transcripts.Webhooks.post
deliver a (video_post pk payload signature) inbox =
    Media.Webhooks.post a.video pk payload signature inbox
deliver a (transcription_post pk payload signature) inbox =
    Transcripts.Webhooks.post a.transcription pk payload signature inbox
deliver a (processed now pk) inbox = (ok_200, mark_processed now pk inbox)

abbrev pub run : Adapters → List Event → Inbox → Inbox
run a [] inbox = inbox
run a (d ∷ ds) inbox = run a ds (deliver a d inbox).1

-- The abstract view: which events were received, by provider and id.
abbrev pub Key : Type 0
Key = Text × Text

abbrev pub key : WebhookEvent → Key
key e = (e.provider, e.provider_event_id)

abbrev pub key_eq : Key → Key → Bool
key_eq (p, i) (q, j) = text_eq p q && text_eq i j

abbrev pub if_fits : WebhookEvent → Option WebhookEvent
if_fits e = if fits e then some e else none

-- The row that a request asks for: a signed one, which can be read and stored.
abbrev pub row_of : Adapters → Event → Option WebhookEvent
row_of a (video_post pk payload signature) =
    if a.video.verify_webhook payload signature
    then elim (a.video.parse_webhook payload) [
      | err e ↦ none
      | ok event ↦ if_fits (record {
        pk = pk;
        provider = Media.Webhooks.namespaced a.video.name;
        provider_event_id = event.event_id;
        event_type = event.event_type;
        payload = event.payload;
        processed_at = none;
      })
    ]
    else none
row_of a (transcription_post pk payload signature) =
    if a.transcription.verify_webhook payload signature
    then elim (a.transcription.parse_webhook payload) [
      | err e ↦ none
      | ok result ↦ if_fits (record {
        pk = pk;
        provider = Transcripts.Webhooks.namespaced a.transcription.name;
        provider_event_id = result.job_id;
        event_type = codes "transcription." ++ a.transcription.lower result.status;
        payload = result.payload;
        processed_at = none;
      })
    ]
    else none
row_of a (processed now pk) = none

-- What the abstract view does with a key: nothing, when it has it.
abbrev pub note : Option WebhookEvent → List Key → List Key
note none ledger = ledger
note (some e) ledger = if exists_by (λ k. key_eq k (key e)) ledger then ledger else key e ∷ ledger

abbrev pub replay : Adapters → List Event → List Key → List Key
replay a [] ledger = ledger
replay a (d ∷ ds) ledger = replay a ds (note (row_of a d) ledger)

-- The task that belongs to an event: the names of the video provider start with a `v`.
abbrev leads_with : ℕ → Text → Bool
leads_with n [] = false
leads_with n (c ∷ s) = c == n

abbrev pub job_for : WebhookEvent → Job
job_for e =
    if leads_with 118 e.provider
    then apply_media_webhook e.pk
    else apply_transcription_callback e.pk
