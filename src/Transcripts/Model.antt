-- ===== src/Transcripts/Model.antt =====
-- backend/apps/transcripts/models.py: transcripts and their cues, with the database's constraints
-- that the services can run into.
use e_platform.Prelude.{
  ℕ, Bool, true, false, not, ◌&&◌, ◌||◌, Option, none, some, List, [], ◌∷◌, ◌==◌, is_some, leb,
}
use e_platform.Prelude.Rows.{exists_by}
use e_platform.Prelude.Integers.{ℤ, pos, negsuc}
use e_platform.Prelude.Text.{Text}
use e_platform.Entitlements.Resolver.{Lesson}

pub data TranscriptStatus : Type 0 where
  pending machine in_review approved failed : TranscriptStatus

pub data TranscriptKind : Type 0 where
  target translation : TranscriptKind

-- `lesson` is the media asset's; `language` is the key of the language's row; `confidence` is in
-- thousandths, as the column's three decimal places hold it.
pub record Transcript : Type 0 where
  pub pk : ℕ
  pub media_asset : ℕ
  pub lesson : Lesson
  pub language : ℕ
  pub kind : TranscriptKind
  pub status : TranscriptStatus
  pub provider : Text
  pub provider_job_id : Option Text
  pub confidence : Option ℤ
  pub reviewed_by : Option ℕ
  pub approved_at : Option ℕ
  pub error_message : Text
  pub retry_count : ℕ

pub record TranscriptSegment : Type 0 where
  pub pk : ℕ
  pub transcript : ℕ
  pub position : ℕ
  pub start_ms : ℤ
  pub end_ms : ℤ
  pub text : Text
  pub is_edited : Bool

pub record Db : Type 0 where
  pub transcripts : List Transcript
  pub segments : List TranscriptSegment

abbrev pub is_approved : TranscriptStatus → Bool
is_approved approved = true
is_approved pending = false
is_approved machine = false
is_approved in_review = false
is_approved failed = false

-- `approved_transcript_is_signed`
unfoldable pub admits_transcript : Transcript → Bool
admits_transcript t = not (is_approved t.status) || (is_some t.reviewed_by && is_some t.approved_at)

-- `a <= b` of integers.
abbrev pub int_leb : ℤ → ℤ → Bool
int_leb (pos m) (pos n) = leb m n
int_leb (pos m) (negsuc n) = false
int_leb (negsuc m) (pos n) = true
int_leb (negsuc m) (negsuc n) = leb n m

-- `confidence_is_a_proportion`
unfoldable pub admits_confidence : Option ℤ → Bool
admits_confidence none = true
admits_confidence (some c) = int_leb (pos 0) c && int_leb c (pos 1000)

-- `segment_ends_after_it_starts` and `segment_starts_within_the_media`
unfoldable pub admits_segment : TranscriptSegment → Bool
admits_segment s = not (int_leb s.end_ms s.start_ms) && int_leb (pos 0) s.start_ms

abbrev pub is_target : TranscriptKind → Bool
is_target target = true
is_target translation = false

-- `segment_position_unique_per_transcript`, for the cues of one transcript.
unfoldable pub admits_positions : List TranscriptSegment → Bool
admits_positions [] = true
admits_positions (s ∷ ss) =
    not (exists_by (λ t. t.position == s.position) ss) && admits_positions ss
