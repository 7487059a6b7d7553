-- ===== src/Transcripts/Selectors.antt =====
-- backend/apps/transcripts/selectors.py: what a reviewer, a learner and the operators read.
use e_platform.Prelude.{
  ℕ, ◌-◌, Bool, true, false, ◌&&◌, Option, none, some, List, [], ◌∷◌, ◌==◌, ltb, leb, if◌then◌else◌,
  map,
}
use e_platform.Prelude.Rows.{filter_by, first_by, exists_by, length}
use e_platform.Prelude.Sorting.{sort_by}
use e_platform.Accounts.{Visitor, absent, anonymous, account, User, is_platform_administrator}
use e_platform.Entitlements.Resolver.{Lesson}
use e_platform.Transcripts.Model.{
  TranscriptStatus, pending, machine, in_review, approved, failed, Transcript, TranscriptSegment,
  Db, is_approved, is_target,
}

-- A join on the instructor of the course.
abbrev pub taught_by : User → Transcript → Bool
taught_by user t = t.lesson.instructor == user.pk

unfoldable pub transcripts_reviewable_by : Visitor → Db → List Transcript
transcripts_reviewable_by absent db = []
transcripts_reviewable_by anonymous db = []
transcripts_reviewable_by (account user) db =
    if is_platform_administrator user
    then db.transcripts
    else filter_by (taught_by user) db.transcripts

abbrev pub cues_in_order : ℕ → Db → List TranscriptSegment
cues_in_order pk db =
    sort_by (λ a b. leb a.position b.position) (filter_by (λ s. s.transcript == pk) db.segments)

abbrev pub with_cues : Option Transcript → Db → Option (Transcript × List TranscriptSegment)
with_cues none db = none
with_cues (some t) db = some (t, cues_in_order t.pk db)

unfoldable pub transcript_for_review :
    ℕ → Visitor → Db → Option (Transcript × List TranscriptSegment)
transcript_for_review pk visitor db =
    with_cues (first_by (λ t. t.pk == pk) (transcripts_reviewable_by visitor db)) db

-- A join on the transcript of the cue.
unfoldable pub segments_editable_by : Visitor → Db → List TranscriptSegment
segments_editable_by absent db = []
segments_editable_by anonymous db = []
segments_editable_by (account user) db =
    if is_platform_administrator user
    then db.segments
    else filter_by (λ s. exists_by (λ t. t.pk == s.transcript && taught_by user t) db.transcripts)
        db.segments

-- `language` is that of the lesson's course.
abbrev pub is_served : Lesson → ℕ → Transcript → Bool
is_served lesson language t =
    t.lesson.pk == lesson.pk && t.language == language && is_target t.kind && is_approved t.status

unfoldable pub approved_transcript_for :
    Lesson → ℕ → Db → Option (Transcript × List TranscriptSegment)
approved_transcript_for lesson language db =
    with_cues (first_by (is_served lesson language) db.transcripts) db

-- `UNFINISHED_STATUSES`
abbrev pub is_unfinished : TranscriptStatus → Bool
is_unfinished pending = true
is_unfinished machine = true
is_unfinished in_review = true
is_unfinished approved = false
is_unfinished failed = false

pub record UnfinishedTranscriptions : Type 0 where
  pub count : ℕ
  pub oldest_age : Option ℕ

-- `Min(...)`
abbrev pub earliest : List ℕ → Option ℕ
earliest [] = none
earliest (x ∷ xs) = elim (earliest xs) [ none ↦ some x | some y ↦ some (if ltb y x then y else x) ]

-- `created_at` is the column of that name.
unfoldable pub unfinished_transcriptions : (Transcript → ℕ) → ℕ → Db → UnfinishedTranscriptions
unfinished_transcriptions created_at now db =
    let rows = filter_by (λ t. is_unfinished t.status) db.transcripts in
    record {
      count = length rows;
      oldest_age = elim (earliest (map created_at rows)) [
        | none ↦ none
        | some at ↦ some (now - at)
      ];
    }
