-- ===== src/Transcripts/Review.antt =====
-- What the review of backend/apps/transcripts/services.py promises about approved transcripts, and
-- where a provider's callback stands.
use e_platform.Prelude.{
  ℕ, ◌≡◌, ◌↔◌, ◌⊎◌, inl, inr, refl, sym, ap, ◌∙◌, subst, true, false, not, ◌&&◌, Option, none, some,
  List, [], ◌∷◌, ◌++◌, ◌==◌, arith, ==→eq, Bool-cases,
}
use e_platform.Prelude.Rows.{filter_by, first_by, update_by}
use e_platform.Prelude.Members.{In, exists-In, In-exists}
use e_platform.Prelude.Result.{ok, is_ok}
use e_platform.Prelude.Text.{Text, text_eq}
use e_platform.Accounts.{User}
use e_platform.Transcripts.Model.{
  TranscriptStatus, pending, machine, in_review, approved, failed, Transcript, TranscriptSegment,
  Db, admits_transcript,
}
use e_platform.Transcripts.Services.{
  may_review, allowed_transition, SegmentEdit, edit_segment, return_to_review, withdraw,
  save_transcript, start_review, approve, set_status, TranscriptionResult, refused_reviewed,
  transcribed, not_applied, owned, is_job, machine_columns, admits_answer,
  apply_transcription_callback,
}

-- The row of a primary key.
abbrev pub row : ℕ → Db → Option Transcript
row pk db = first_by (λ t. t.pk == pk) db.transcripts

first-update :
    (pk : ℕ) (columns : Transcript → Transcript) (rows : List Transcript) (a : Transcript)
    → ((r : Transcript) → (columns r).pk ≡ r.pk)
    → first_by (λ r. r.pk == pk) rows ≡ some a
    → first_by (λ r. r.pk == pk) (update_by (λ r. r.pk == pk) columns rows) ≡ some (columns a)
first-update pk columns [] a same h = cc
first-update pk columns (r ∷ rows) a same h =
    ground (arith, same r, first-update pk columns rows a same)

-- An edit that goes through on an approved transcript withdraws the approval: the row is in review,
-- and names no reviewer and no date.
pub edit_withdraws :
    (segment : TranscriptSegment) (transcript : Transcript) (user : User) (edit : SegmentEdit)
    (db : Db) {s' : TranscriptSegment} {db' : Db}
    → row transcript.pk db ≡ some transcript
    → transcript.status ≡ approved
    → edit_segment segment transcript user edit db ≡ ok (s', db')
    → (row transcript.pk db'
        ≡ some (record transcript { status = in_review; reviewed_by = none; approved_at = none }))
      × (s'.is_edited ≡ true)
unfolding edit_segment return_to_review
edit_withdraws segment transcript user edit db {s'} {db'} here was h =
    ground (arith, first-update transcript.pk withdraw db.transcripts transcript (λ r. refl) here)

status-in_review : (s : TranscriptStatus) → allowed_transition s approved ≡ true → s ≡ in_review
unfolding allowed_transition
status-in_review in_review h = refl
status-in_review machine h = cc
status-in_review approved h = cc
status-in_review pending h = cc
status-in_review failed h = cc

module _ (now : ℕ) (transcript : Transcript) (user : User) (db : Db)
    (here : row transcript.pk db ≡ some transcript) where
  approved_only :
      is_ok (approve now transcript user db) ≡ true
      → (may_review transcript user ≡ true)
        × (transcript.status ≡ in_review)
        × ((s : TranscriptSegment) × In s db.segments × (s.transcript ≡ transcript.pk))
  unfolding approve save_transcript
  approved_only h =
      let (s, m, e) = exists-In (λ s. s.transcript == transcript.pk) db.segments (ground arith) in
      (
        ground arith,
        status-in_review transcript.status (ground arith),
        (s, m, ==→eq s.transcript transcript.pk e),
      )

  approves :
      (may_review transcript user ≡ true)
        × (transcript.status ≡ in_review)
        × ((s : TranscriptSegment) × In s db.segments × (s.transcript ≡ transcript.pk))
      → is_ok (approve now transcript user db) ≡ true
  unfolding approve save_transcript allowed_transition admits_transcript
  approves (allowed, was, (s, m, e)) =
      let cues = In-exists (λ s. s.transcript == transcript.pk) s db.segments m (ground arith) in
      ground (arith, here)

  -- A current transcript can be approved exactly by someone who manages the lesson, from review, and
  -- when it has a cue.
  approve_iff : (is_ok (approve now transcript user db) ≡ true) ↔ (
      (may_review transcript user ≡ true)
      × (transcript.status ≡ in_review)
      × ((s : TranscriptSegment) × In s db.segments × (s.transcript ≡ transcript.pk)))
  approve_iff = (approved_only, approves)

-- Starting a review of an approved transcript, which the table of moves allows, leaves a row that is
-- in review and still names who approved it, and when.
start_review_signed :
    (transcript : Transcript) (user : User) (db : Db)
    → row transcript.pk db ≡ some transcript
    → transcript.status ≡ approved
    → may_review transcript user ≡ true
    → (db' : Db) × (start_review transcript user db ≡ ok (set_status in_review transcript, db'))
      × (row transcript.pk db' ≡ some (set_status in_review transcript))
unfolding start_review save_transcript allowed_transition admits_transcript
start_review_signed transcript user db here was managed = (
  record db {
    transcripts = update_by (λ t. t.pk == transcript.pk) (set_status in_review) db.transcripts;
  },
  ground arith,
  first-update transcript.pk (set_status in_review) db.transcripts transcript (λ r. refl) here,
)

-- The transcript that a callback names.
abbrev pub named : Text → TranscriptionResult → Db → Option Transcript
named provider result db =
    first_by (λ t. text_eq t.provider provider && is_job result.job_id t.provider_job_id)
      db.transcripts

-- A callback for a transcript that is in review or approved is refused, and nothing is written.
callback_reviewed :
    (provider : Text) (result : TranscriptionResult) (db : Db) (t : Transcript)
    → named provider result db ≡ some t
    → (t.status ≡ in_review) ⊎ (t.status ≡ approved)
    → apply_transcription_callback provider result db ≡ (refused_reviewed t.status, db)
unfolding apply_transcription_callback
callback_reviewed provider result db t found (inl was) = ground arith
callback_reviewed provider result db t found (inr was) = ground arith

-- The cues of a transcript, in a table.
abbrev pub cues_of : ℕ → Db → List TranscriptSegment
cues_of pk db = filter_by (λ s. s.transcript == pk) db.segments

cues-owned :
    (pk : ℕ) (ss rest : List TranscriptSegment)
    → filter_by (λ s. s.transcript == pk) (owned pk ss ++ rest)
      ≡ owned pk ss ++ filter_by (λ s. s.transcript == pk) rest
cues-owned pk [] rest = refl
cues-owned pk (s ∷ ss) rest = ground (arith, cues-owned pk ss rest)

cues-others :
    (pk : ℕ) (rows : List TranscriptSegment)
    → filter_by (λ s. s.transcript == pk) (filter_by (λ s. not (s.transcript == pk)) rows) ≡ []
cues-others pk [] = refl
cues-others pk (s ∷ rows) = ground (arith, cues-others pk rows)

++-nil : {A : Type 0} (xs : List A) → xs ++ [] ≡ xs
++-nil [] = refl
++-nil (x ∷ xs) = ap (λ ys. x ∷ ys) (++-nil xs)

-- The store after an answer with cues.
abbrev replaced : Transcript → TranscriptionResult → List TranscriptSegment → Db → Db
replaced t result segments db = record db {
  segments = owned t.pk segments ++ filter_by (λ s. not (s.transcript == t.pk)) db.segments;
  transcripts = update_by (λ r. r.pk == t.pk) (machine_columns result.confidence) db.transcripts;
}

callback_replaces :
    (provider : Text) (result : TranscriptionResult) (segments : List TranscriptSegment) (db : Db)
    (t : Transcript)
    → named provider result db ≡ some t
    → t.status ≡ machine
    → result.segments ≡ some segments
    → admits_answer result.confidence segments ≡ true
    → (apply_transcription_callback provider result db
        ≡ (transcribed, replaced t result segments db))
      × (cues_of t.pk (replaced t result segments db) ≡ owned t.pk segments)
unfolding apply_transcription_callback
callback_replaces provider result segments db t found was answer fine = (
  ground arith,
  cues-owned t.pk segments _
      ∙ ap (λ ys. owned t.pk segments ++ ys) (cues-others t.pk db.segments)
      ∙ ++-nil (owned t.pk segments),
)

edit_machine :
    (segment : TranscriptSegment) (t : Transcript) (user : User) (edit : SegmentEdit) (db : Db)
    {s' : TranscriptSegment} {db' : Db}
    → t.status ≡ machine
    → edit_segment segment t user edit db ≡ ok (s', db')
    → (db'.transcripts ≡ db.transcripts) × (s'.is_edited ≡ true)
unfolding edit_segment return_to_review
edit_machine segment t user edit db {s'} {db'} was h = ground arith

callback_refused :
    (provider : Text) (result : TranscriptionResult) (segments : List TranscriptSegment) (db : Db)
    (t : Transcript)
    → named provider result db ≡ some t
    → t.status ≡ machine
    → result.segments ≡ some segments
    → admits_answer result.confidence segments ≡ false
    → apply_transcription_callback provider result db ≡ (not_applied, db)
unfolding apply_transcription_callback
callback_refused provider result segments db t found was answer bad = ground arith

-- A cue of a transcript as the machine left it can be corrected without a review. When a callback
-- with cues comes after the correction, either the database accepts the answer (each cue in order of
-- time, no position twice, a confidence from 0 to 1), and all cues of the transcript are replaced by
-- the machine's, none of them marked as edited; or it refuses the answer, and nothing changes.
pub callback_discards :
    (segment : TranscriptSegment) (t : Transcript) (user : User) (edit : SegmentEdit)
    (provider : Text) (result : TranscriptionResult) (segments : List TranscriptSegment) (db : Db)
    {s' : TranscriptSegment} {db' : Db}
    → named provider result db ≡ some t
    → t.status ≡ machine
    → edit_segment segment t user edit db ≡ ok (s', db')
    → result.segments ≡ some segments
    → (s'.is_edited ≡ true)
      × (((admits_answer result.confidence segments ≡ true)
            × (db'' : Db) × (apply_transcription_callback provider result db' ≡ (transcribed, db''))
            × (cues_of t.pk db'' ≡ owned t.pk segments))
          ⊎ ((admits_answer result.confidence segments ≡ false)
              × (apply_transcription_callback provider result db' ≡ (not_applied, db'))))
callback_discards segment t user edit provider result segments db {s'} {db'} found was h answer =
    let (same, marked) = edit_machine segment t user edit db was h in
    let still : named provider result db' ≡ some t =
      subst
        (λ rows.
          first_by (λ r. text_eq r.provider provider && is_job result.job_id r.provider_job_id) rows
          ≡ some t)
        (sym same) found in
    (
      marked,
      elim (Bool-cases (admits_answer result.confidence segments)) [
        | inl fine ↦
            let (ran, cues) =
              callback_replaces provider result segments db' t still was answer fine in
            inl (fine, replaced t result segments db', ran, cues)
        | inr bad ↦ inr (bad, callback_refused provider result segments db' t still was answer bad)
      ],
    )
