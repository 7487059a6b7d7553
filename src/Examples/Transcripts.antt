-- ===== src/Examples/Transcripts.antt =====
-- A transcript that is approved and edited, and one that a late callback overwrites.
use e_platform.Prelude.{refl, ◌≡◌, ◌↔◌, ◌⊎◌, ◌||◌, ◌==◌, true, false, none, some, [], ◌∷◌}
use e_platform.Prelude.Integers.{pos}
use e_platform.Prelude.Rows.{exists_by}
use e_platform.Prelude.Result.{ok}
use e_platform.Prelude.Text.{codes, text_eq}
use e_platform.Accounts.{is_platform_administrator}
use e_platform.Media.Services.{may_manage}
use e_platform.Transcripts.Model.{
  Transcript, TranscriptSegment, Db, target, machine, in_review, approved, admits_segment,
}
use e_platform.Transcripts.Services.{
  SegmentEdit, merge, edit_segment, return_to_review, withdraw, may_review, set_status,
  TranscriptionResult, apply_transcription_callback, transcribed, not_applied, owned, admits_answer,
}
use e_platform.Transcripts.Review.{row, edit_withdraws, callback_discards, cues_of, named}
use e_platform.Transcripts.Cues.{escape_cue_text, escape_cue_text_safe}
use e_platform.Examples.People.{teacher, lesson}

abbrev pub draft_transcript : Transcript
draft_transcript = record {
  pk = 30;
  media_asset = 8;
  lesson = lesson;
  language = 1;
  kind = target;
  status = machine;
  provider = codes "fake";
  provider_job_id = some (codes "j");
  confidence = none;
  reviewed_by = none;
  approved_at = none;
  error_message = [];
  retry_count = 0;
}

abbrev signed_transcript : Transcript
signed_transcript = record draft_transcript {
  status = approved;
  reviewed_by = some 2;
  approved_at = some 9;
}

abbrev cue : TranscriptSegment
cue = record {
  pk = 31;
  transcript = 30;
  position = 1;
  start_ms = pos 0;
  end_ms = pos 900;
  text = codes "kalimera";
  is_edited = false;
}

abbrev pub with_status : Transcript → Db
with_status t = record { transcripts = t ∷ []; segments = cue ∷ [] }

abbrev correction : SegmentEdit
correction = record { text = some (codes "kalispera"); start_ms = none; end_ms = none }

abbrev corrected : Transcript → Db
corrected t = record { transcripts = t ∷ []; segments = merge correction cue ∷ [] }

edits_signed :
    edit_segment cue signed_transcript teacher correction (with_status signed_transcript)
    ≡ ok (merge correction cue, corrected (withdraw signed_transcript))
unfolding edit_segment return_to_review may_review may_manage is_platform_administrator
    admits_segment
edits_signed = refl

edit_withdraws_example :
    (row 30 (corrected (withdraw signed_transcript))
      ≡ some
          (record signed_transcript { status = in_review; reviewed_by = none; approved_at = none }))
    × ((merge correction cue).is_edited ≡ true)
edit_withdraws_example =
    edit_withdraws cue signed_transcript teacher correction (with_status signed_transcript) refl
      refl edits_signed

abbrev opened : Transcript
opened = set_status in_review draft_transcript

abbrev answer : TranscriptionResult
answer = record { job_id = codes "j"; confidence = none; segments = some (cue ∷ []) }

found_signed : named (codes "fake") answer (with_status signed_transcript) ≡ some signed_transcript
unfolding text_eq
found_signed = refl

found_draft : named (codes "fake") answer (with_status draft_transcript) ≡ some draft_transcript
unfolding text_eq
found_draft = refl

edits_draft :
    edit_segment cue draft_transcript teacher correction (with_status draft_transcript)
    ≡ ok (merge correction cue, corrected draft_transcript)
unfolding edit_segment return_to_review may_review may_manage is_platform_administrator
    admits_segment
edits_draft = refl

callback_discards_example :
    ((merge correction cue).is_edited ≡ true)
    × (((admits_answer none (cue ∷ []) ≡ true)
          × (db'' : Db) × (apply_transcription_callback
                (codes "fake")
                answer
                (corrected draft_transcript)
              ≡ (transcribed, db''))
          × (cues_of 30 db'' ≡ owned 30 (cue ∷ [])))
        ⊎ ((admits_answer none (cue ∷ []) ≡ false)
            × (apply_transcription_callback (codes "fake") answer (corrected draft_transcript)
                ≡ (not_applied, corrected draft_transcript))))
callback_discards_example =
    callback_discards cue draft_transcript teacher correction (codes "fake") answer (cue ∷ [])
      (with_status draft_transcript) found_draft refl edits_draft refl

escape_cue_text_safe_example :
    (exists_by (λ c. c == 60 || c == 62) (escape_cue_text (codes "a --> <b>")) ≡ false)
    × ((escape_cue_text (codes "a --> <b>") ≡ escape_cue_text (codes "a"))
        ↔ (codes "a --> <b>" ≡ codes "a"))
escape_cue_text_safe_example = escape_cue_text_safe (codes "a --> <b>") (codes "a")
