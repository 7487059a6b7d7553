-- ===== src/Media/Webhooks.antt =====
-- backend/apps/media_assets/webhooks.py: one event from the video provider.
use e_platform.Prelude.{ℕ, Bool, none, ◌++◌, if◌then◌else◌, not}
use e_platform.Prelude.Result.{Result, ok, err}
use e_platform.Prelude.Text.{Text, codes}
use e_platform.Core.Inbox.{
  Inbox, Response, unauthorized_401, ParseError, answer_unparsed, record_event, apply_media_webhook,
}

-- The event as `parse_webhook` reads it.
pub record ParsedEvent : Type 0 where
  pub event_id : Text
  pub event_type : Text
  pub payload : Text

-- The adapter: `verify_webhook` on the payload and the signature.
pub record WebhookProvider : Type 0 where
  pub name : Text
  pub verify_webhook : Text → Text → Bool
  pub parse_webhook : Text → Result ParseError ParsedEvent

abbrev pub namespaced : Text → Text
namespaced provider_name = codes "video:" ++ provider_name

-- `pk` is the key that a new row is given.
unfoldable pub post : WebhookProvider → ℕ → Text → Text → Inbox → Response × Inbox
unfolding record_event
post provider pk payload signature inbox =
    if not (provider.verify_webhook payload signature)
    then (unauthorized_401, inbox)
    else elim (provider.parse_webhook payload) [
      | err e ↦ (answer_unparsed e, inbox)
      | ok event ↦
          record_event apply_media_webhook
            (record {
              pk = pk;
              provider = namespaced provider.name;
              provider_event_id = event.event_id;
              event_type = event.event_type;
              payload = event.payload;
              processed_at = none;
            })
            inbox
    ]
