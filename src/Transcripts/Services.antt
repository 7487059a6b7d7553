-- ===== src/Transcripts/Services.antt =====
-- backend/apps/transcripts/services.py, and the callback of tasks.py: cues are corrected and
-- approved by who manages the lesson, and a provider's answer becomes cues.
use e_platform.Prelude.{
  ℕ, Bool, true, false, not, ◌&&◌, Option, none, some, List, [], ◌∷◌, ◌++◌, ◌==◌, if◌then◌else◌,
  get_or,
}
use e_platform.Prelude.Integers.{ℤ}
use e_platform.Prelude.Rows.{exists_by, filter_by, first_by, update_by}
use e_platform.Prelude.Result.{Result, ok, ◌>>=◌, ◌>>◌, require, or_raise}
use e_platform.Prelude.Text.{Text, codes, text_eq}
use e_platform.Accounts.{User}
use e_platform.Media.Services.{may_manage}
use e_platform.Transcripts.Model.{
  TranscriptStatus, pending, machine, in_review, approved, failed, Transcript, TranscriptSegment,
  Db, admits_transcript, admits_segment, int_leb, is_approved, admits_positions, admits_confidence,
}

pub data TranscriptError : Type 0 where
  not_yours not_editable invalid_span invalid_transition nothing_to_approve : TranscriptError
  missing_row integrity_error : TranscriptError

unfoldable pub may_review : Transcript → User → Bool
may_review transcript = may_manage transcript.lesson

-- `EDITABLE`
abbrev pub editable : TranscriptStatus → Bool
editable machine = true
editable in_review = true
editable approved = true
editable pending = false
editable failed = false

-- `ALLOWED_TRANSITIONS`
unfoldable pub allowed_transition : TranscriptStatus → TranscriptStatus → Bool
allowed_transition machine in_review = true
allowed_transition in_review approved = true
allowed_transition in_review machine = true
allowed_transition approved in_review = true
allowed_transition _ _ = false

-- The fields that an edit gives; `none` is an omitted one.
pub record SegmentEdit : Type 0 where
  pub text : Option Text
  pub start_ms : Option ℤ
  pub end_ms : Option ℤ

abbrev pub merge : SegmentEdit → TranscriptSegment → TranscriptSegment
merge edit s = record s {
  text = get_or edit.text s.text;
  start_ms = get_or edit.start_ms s.start_ms;
  end_ms = get_or edit.end_ms s.end_ms;
  is_edited = true;
}

abbrev pub withdraw : Transcript → Transcript
withdraw t = record t { status = in_review; reviewed_by = none; approved_at = none }

-- `_return_to_review`
unfoldable pub return_to_review : Transcript → List Transcript → List Transcript
return_to_review transcript rows =
    if is_approved transcript.status
    then update_by (λ t. t.pk == transcript.pk) withdraw rows
    else rows

-- `transcript` is `segment.transcript`. The transcript's `updated_at` has no counterpart.
unfoldable pub edit_segment :
    TranscriptSegment
    → Transcript
    → User
    → SegmentEdit
    → Db
    → Result TranscriptError (TranscriptSegment × Db)
unfolding return_to_review may_review
edit_segment segment transcript user edit db = do
  require (may_review transcript user) not_yours
  require (editable transcript.status) not_editable
  let edited = merge edit segment
  require (not (int_leb edited.end_ms edited.start_ms)) invalid_span
  require (admits_segment edited) integrity_error
  ok (
    edited,
    record db {
      segments = update_by (λ s. s.pk == segment.pk) (λ s. edited) db.segments;
      transcripts = return_to_review transcript db.transcripts;
    },
  )

-- `transcript.save(update_fields=...)`
unfoldable pub save_transcript : (Transcript → Transcript) → ℕ → Db → Result TranscriptError Db
save_transcript columns pk db = do
  row ← or_raise (first_by (λ t. t.pk == pk) db.transcripts) missing_row
  require (admits_transcript (columns row)) integrity_error
  ok (record db { transcripts = update_by (λ t. t.pk == pk) columns db.transcripts })

abbrev pub set_status : TranscriptStatus → Transcript → Transcript
set_status status t = record t { status = status }

unfoldable pub start_review : Transcript → User → Db → Result TranscriptError (Transcript × Db)
unfolding may_review allowed_transition save_transcript
start_review transcript user db = do
  require (may_review transcript user) not_yours
  require (allowed_transition transcript.status in_review) invalid_transition
  db' ← save_transcript (set_status in_review) transcript.pk db
  ok (set_status in_review transcript, db')

abbrev pub sign : User → ℕ → Transcript → Transcript
sign user now t = record t { status = approved; reviewed_by = some user.pk; approved_at = some now }

unfoldable pub approve : ℕ → Transcript → User → Db → Result TranscriptError (Transcript × Db)
unfolding may_review allowed_transition save_transcript
approve now transcript user db = do
  require (may_review transcript user) not_yours
  require (allowed_transition transcript.status approved) invalid_transition
  require (exists_by (λ s. s.transcript == transcript.pk) db.segments) nothing_to_approve
  db' ← save_transcript (sign user now) transcript.pk db
  ok (sign user now transcript, db')

unfoldable pub reopen : Transcript → User → Db → Result TranscriptError (Transcript × Db)
unfolding may_review allowed_transition save_transcript
reopen transcript user db = do
  require (may_review transcript user) not_yours
  require (allowed_transition transcript.status machine) invalid_transition
  db' ← save_transcript (set_status machine) transcript.pk db
  ok (set_status machine transcript, db')

-- A provider's answer: `none` for the cues is a failure.
pub record TranscriptionResult : Type 0 where
  pub job_id : Text
  pub confidence : Option ℤ
  pub segments : Option (List TranscriptSegment)

pub data CallbackOutcome : Type 0 where
  unknown_job now_failed transcribed not_applied : CallbackOutcome
  refused_reviewed : TranscriptStatus → CallbackOutcome

abbrev pub is_reviewed : TranscriptStatus → Bool
is_reviewed in_review = true
is_reviewed approved = true
is_reviewed pending = false
is_reviewed machine = false
is_reviewed failed = false

abbrev pub is_job : Text → Option Text → Bool
is_job job none = false
is_job job (some id) = text_eq id job

abbrev pub failure_columns : Transcript → Transcript
failure_columns t = record t {
  status = failed;
  error_message = codes "The provider failed to transcribe this audio.";
  retry_count = 0;
}

abbrev pub machine_columns : Option ℤ → Transcript → Transcript
machine_columns confidence t = record t {
  status = machine;
  confidence = confidence;
  error_message = [];
}

-- The rows that `bulk_create` inserts, with the keys that they were given.
abbrev pub owned : ℕ → List TranscriptSegment → List TranscriptSegment
owned pk [] = []
owned pk (s ∷ ss) = record s { transcript = pk; is_edited = false } ∷ owned pk ss

-- The constraints on the rows that an answer is turned into; the cues that were there are deleted.
unfoldable pub admits_answer : Option ℤ → List TranscriptSegment → Bool
admits_answer confidence segments =
    not (exists_by (λ s. not (admits_segment s)) segments)
    && admits_positions segments
    && admits_confidence confidence

-- A row that the database refuses raises, and the block is rolled back.
abbrev pub apply_result :
    Transcript → TranscriptionResult → Option (List TranscriptSegment) → Db → CallbackOutcome × Db
apply_result t result none db = (
  now_failed,
  record db { transcripts = update_by (λ r. r.pk == t.pk) failure_columns db.transcripts },
)
apply_result t result (some segments) db =
    if not (admits_answer result.confidence segments) then (not_applied, db) else (
      transcribed,
      record db {
        segments = owned t.pk segments ++ filter_by (λ s. not (s.transcript == t.pk)) db.segments;
        transcripts =
            update_by (λ r. r.pk == t.pk) (machine_columns result.confidence) db.transcripts;
      },
    )

-- The part of `apply_transcription_callback` that acts on the transcripts, on the stored event as the
-- provider parsed it.
unfoldable pub apply_transcription_callback : Text → TranscriptionResult → Db → CallbackOutcome × Db
apply_transcription_callback provider result db =
    elim (first_by (λ t. text_eq t.provider provider && is_job result.job_id t.provider_job_id)
      db.transcripts) [
        | none ↦ (unknown_job, db)
        | some t ↦
            if is_reviewed t.status
            then (refused_reviewed t.status, db)
            else apply_result t result result.segments db
      ]
