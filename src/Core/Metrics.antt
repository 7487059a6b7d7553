-- ===== src/Core/Metrics.antt =====
-- backend/apps/core/metrics.py: the gauges of a scrape, and the alert of transcripts/tasks.py that
-- reads them.
use e_platform.Prelude.{
  ℕ, ◌-◌, ◌/◌, not, Option, none, some, List, [], ◌∷◌, ◌++◌, ltb, if◌then◌else◌, map, is_some,
}
use e_platform.Prelude.Rows.{filter_by, length}
use e_platform.Prelude.Text.{Text, codes, is_nonempty}
use e_platform.Core.Inbox.{WebhookEvent, Inbox}
use e_platform.Entitlements.Model.{day, days}
use e_platform.Transcripts.Model.{Transcript, Db}
use e_platform.Transcripts.Selectors.{unfinished_transcriptions, earliest}

-- An age in seconds is kept as its microseconds.
pub data Value : Type 0 where
  number microseconds : ℕ → Value

pub record Metric : Type 0 where
  pub name : Text
  pub value : Option Value

abbrev pub prefix : Text
prefix = codes "eplatform"

-- No age is 0.0.
abbrev pub age_of : Option ℕ → Value
age_of none = microseconds 0
age_of (some age) = microseconds age

-- `created_at` is the column of that name.
unfoldable pub webhook_metrics : (WebhookEvent → ℕ) → ℕ → Inbox → List Metric
webhook_metrics created_at now inbox =
    let rows = filter_by (λ e. not (is_some e.processed_at)) inbox.events in
    record { name = prefix ++ codes "_webhooks_unprocessed"; value = some (number (length rows)) }
    ∷ record {
      name = prefix ++ codes "_webhook_oldest_unprocessed_seconds";
      value = some (elim (earliest (map created_at rows)) [
        | none ↦ age_of none
        | some oldest ↦ age_of (some (now - oldest))
      ]);
    }
    ∷ []

unfoldable pub transcription_metrics : (Transcript → ℕ) → ℕ → Db → List Metric
transcription_metrics created_at now db =
    let outstanding = unfinished_transcriptions created_at now db in
    record {
      name = prefix ++ codes "_transcriptions_unfinished";
      value = some (number outstanding.count);
    }
    ∷ record {
      name = prefix ++ codes "_transcription_oldest_unfinished_seconds";
      value = some (age_of outstanding.oldest_age);
    }
    ∷ []

-- `depth` is that of the broker's queue, if the broker answers.
unfoldable pub collect :
    (WebhookEvent → ℕ) → (Transcript → ℕ) → Option ℕ → ℕ → Inbox → Db → List Metric
unfolding webhook_metrics transcription_metrics
collect event_created created_at depth now inbox db =
    record {
      name = prefix ++ codes "_celery_queue_depth";
      value = elim depth [ none ↦ none | some n ↦ some (number n) ];
    }
    ∷ (webhook_metrics event_created now inbox ++ transcription_metrics created_at now db)

-- `STUCK_TRANSCRIPTION_AGE`
unfoldable pub stuck_transcription_age : ℕ
unfolding days
stuck_transcription_age = days 3

pub record UnfinishedTranscriptionsReport : Type 0 where
  pub count : ℕ
  pub oldest_age_days : ℕ

unfoldable pub stuck_transcriptions :
    (Transcript → ℕ) → ℕ → Db → Option UnfinishedTranscriptionsReport
unfolding stuck_transcription_age
stuck_transcriptions created_at now db =
    let outstanding = unfinished_transcriptions created_at now db in
    elim outstanding.oldest_age [
      | none ↦ none
      | some age ↦
          if ltb age stuck_transcription_age
          then none
          else some (record { count = outstanding.count; oldest_age_days = age / day })
    ]

-- The mail that is queued to OPERATIONS_ALERT_EMAIL.
unfoldable pub alert_on_stuck_transcriptions :
    (Transcript → ℕ) → ℕ → Text → Db → Option (Text × UnfinishedTranscriptionsReport)
unfolding stuck_transcriptions
alert_on_stuck_transcriptions created_at now recipient db =
    elim (stuck_transcriptions created_at now db) [
      | none ↦ none
      | some report ↦ if is_nonempty recipient then some (recipient, report) else none
    ]
