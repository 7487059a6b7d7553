-- ===== src/Core/Inbox.antt =====
-- `WebhookEvent` of backend/apps/core/models.py: the table that the webhook receivers share, and the
-- queue of the worker.
use e_platform.Prelude.{ℕ, Bool, not, ◌&&◌, Option, some, List, ◌∷◌, ◌==◌, leb, if◌then◌else◌}
use e_platform.Prelude.Rows.{exists_by, update_by, length}
use e_platform.Prelude.Text.{Text, text_eq}

-- The payload is kept verbatim.
pub record WebhookEvent : Type 0 where
  pub pk : ℕ
  pub provider : Text
  pub provider_event_id : Text
  pub event_type : Text
  pub payload : Text
  pub processed_at : Option ℕ

-- A task on the key of an event.
pub data Job : Type 0 where
  apply_media_webhook apply_transcription_callback : ℕ → Job

-- The rows and the queue, newest first.
pub record Inbox : Type 0 where
  pub events : List WebhookEvent
  pub jobs : List Job

abbrev pub same_event : Text → Text → WebhookEvent → Bool
same_event provider event_id e = text_eq e.provider provider && text_eq e.provider_event_id event_id

-- `webhook_event_unique_per_provider`
unfoldable pub admits_event : WebhookEvent → List WebhookEvent → Bool
admits_event e rows = not (exists_by (same_event e.provider e.provider_event_id) rows)

-- The column widths: PostgreSQL refuses a longer value, and not as an integrity error.
unfoldable pub fits : WebhookEvent → Bool
fits e =
    leb (length e.provider) 32
    && leb (length e.provider_event_id) 255
    && leb (length e.event_type) 100

-- What a receiver answers.
pub data Response : Type 0 where
  ok_200 bad_request_400 unauthorized_401 server_error_500 : Response

-- The insert of a new row and, after it, the task; a duplicate is answered the same way.
unfoldable pub record_event : (ℕ → Job) → WebhookEvent → Inbox → Response × Inbox
record_event job e inbox =
    if not (fits e)
    then (server_error_500, inbox)
    else if admits_event e inbox.events
    then (ok_200, record { events = e ∷ inbox.events; jobs = job e.pk ∷ inbox.jobs })
    else (ok_200, inbox)

-- What `parse_webhook` may raise: `KeyError` and `ValueError` are caught by the receivers.
pub data ParseError : Type 0 where
  key_error value_error uncaught : ParseError

abbrev pub answer_unparsed : ParseError → Response
answer_unparsed key_error = bad_request_400
answer_unparsed value_error = bad_request_400
answer_unparsed uncaught = server_error_500

-- `WebhookEvent.objects.filter(pk=...).update(processed_at=timezone.now())`
abbrev pub mark_processed : ℕ → ℕ → Inbox → Inbox
mark_processed now pk inbox = record inbox {
  events = update_by (λ e. e.pk == pk) (λ e. record e { processed_at = some now }) inbox.events;
}
