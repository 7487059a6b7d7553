-- ===== src/Transcripts/Callback.antt =====
-- `apply_transcription_callback` of backend/apps/transcripts/tasks.py, from the key of a stored event
-- to the mark on its row.
use e_platform.Prelude.{ℕ, Option, none, some, ◌==◌}
use e_platform.Prelude.Rows.{first_by}
use e_platform.Prelude.Text.{Text}
use e_platform.Core.Inbox.{Inbox, mark_processed}
use e_platform.Transcripts.Model.{Db}
use e_platform.Transcripts.Services.{
  TranscriptionResult, CallbackOutcome, not_applied, unknown_job, now_failed, transcribed,
  refused_reviewed, apply_transcription_callback,
}

pub data TaskOutcome : Type 0 where
  gone raised : TaskOutcome
  handled : CallbackOutcome → TaskOutcome

-- The mark comes last, so a task that raises leaves the event unprocessed.
abbrev pub marked : ℕ → ℕ → Inbox → CallbackOutcome × Db → TaskOutcome × (Inbox × Db)
marked now key inbox (not_applied, db) = (raised, (inbox, db))
marked now key inbox (unknown_job, db) = (handled unknown_job, (mark_processed now key inbox, db))
marked now key inbox (now_failed, db) = (handled now_failed, (mark_processed now key inbox, db))
marked now key inbox (transcribed, db) = (handled transcribed, (mark_processed now key inbox, db))
marked now key inbox (refused_reviewed s, db) =
    (handled (refused_reviewed s), (mark_processed now key inbox, db))

-- `parse` is the provider's `parse_webhook` on the stored payload, and may raise.
unfoldable pub run_callback :
    (Text → Option TranscriptionResult) → Text → ℕ → ℕ → Inbox → Db → TaskOutcome × (Inbox × Db)
unfolding apply_transcription_callback
run_callback parse provider now key inbox db = elim (first_by (λ e. e.pk == key) inbox.events) [
  | none ↦ (gone, (inbox, db))
  | some e ↦ elim (parse e.payload) [
    | none ↦ (raised, (inbox, db))
    | some result ↦ marked now key inbox (apply_transcription_callback provider result db)
  ]
]
