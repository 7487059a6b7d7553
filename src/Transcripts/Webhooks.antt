-- ===== src/Transcripts/Webhooks.antt =====
-- backend/apps/transcripts/webhooks.py: one finished transcription job, or a failed one.
use e_platform.Prelude.{ℕ, Bool, none, ◌++◌, if◌then◌else◌, not}
use e_platform.Prelude.Result.{Result, ok, err}
use e_platform.Prelude.Text.{Text, codes}
use e_platform.Core.Inbox.{
  Inbox, Response, unauthorized_401, ParseError, answer_unparsed, record_event,
  apply_transcription_callback,
}

-- The result as `parse_webhook` reads it, by the fields that the receiver uses.
pub record ParsedResult : Type 0 where
  pub job_id : Text
  pub status : Text
  pub payload : Text

-- The adapter, and `str.lower`.
pub record CallbackProvider : Type 0 where
  pub name : Text
  pub lower : Text → Text
  pub verify_webhook : Text → Text → Bool
  pub parse_webhook : Text → Result ParseError ParsedResult

abbrev pub namespaced : Text → Text
namespaced provider_name = codes "transcription:" ++ provider_name

-- The id of the job is the id of the event.
unfoldable pub post : CallbackProvider → ℕ → Text → Text → Inbox → Response × Inbox
unfolding record_event
post provider pk payload signature inbox =
    if not (provider.verify_webhook payload signature)
    then (unauthorized_401, inbox)
    else elim (provider.parse_webhook payload) [
      | err e ↦ (answer_unparsed e, inbox)
      | ok result ↦
          record_event apply_transcription_callback
            (record {
              pk = pk;
              provider = namespaced provider.name;
              provider_event_id = result.job_id;
              event_type = codes "transcription." ++ provider.lower result.status;
              payload = result.payload;
              processed_at = none;
            })
            inbox
    ]
