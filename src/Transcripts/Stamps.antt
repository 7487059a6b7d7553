-- ===== src/Transcripts/Stamps.antt =====
-- The time stamps of backend/apps/transcripts/rendering.py, read back.
use e_platform.Prelude.{
  ℕ, ◌+◌, ◌*◌, ◌/◌, ◌%◌, ◌<◌, ◌≡◌, refl, sym, ap, ◌∙◌, Bool, true, false, ◌==◌, not, List, [], ◌∷◌,
  ◌++◌, ltb, leb, arith,
}
use e_platform.Prelude.Integers.{ℤ, pos, negsuc}
use e_platform.Prelude.Rows.{exists_by}
use e_platform.Prelude.Result.{ok, is_ok}
use e_platform.Prelude.Text.{Text, codes}
use e_platform.Transcripts.Cues.{escape_cue_text}
use e_platform.Transcripts.Model.{TranscriptSegment, admits_segment, int_leb}
use e_platform.Transcripts.Digits.{
  take_digits, field, read_timestamp, width, read_decimal, pad2_wide, pad2_two, pad3_three,
  append_assoc, append_nil,
}
use e_platform.Transcripts.Rendering.{
  decimal, pad2, pad3, stamp, format_timestamp, all_lines, render_vtt, cue_lines, cue_separator,
  join_lines,
}

field_found :
    (fits : ℕ → Bool) (k n : ℕ) (s rest : Text)
    → take_digits 0 0 s ≡ (k, n, rest)
    → fits k ≡ true
    → field fits s ≡ ok (n, rest)
field_found fits k n s rest e f = rw e (rw f refl)

stamp_fields :
    (h m s ms : ℕ)
    → m < 60
    → s < 60
    → ms < 1000
    → read_timestamp
        (pad2 h ++ (codes ":" ++ (pad2 m ++ (codes ":" ++ (pad2 s ++ (codes "." ++ pad3 ms))))))
      ≡ ok (((h * 60 + m) * 60 + s) * 1000 + ms)
stamp_fields h m s ms a b c =
    let tail_s = codes "." ++ pad3 ms in
    let tail_m = codes ":" ++ (pad2 s ++ tail_s) in
    let tail_h = codes ":" ++ (pad2 m ++ tail_m) in
    let (k, wide, hours) = pad2_wide h tail_h in
    let low_m : ltb m 60 ≡ true = ground arith in
    let low_s : ltb s 60 ≡ true = ground arith in
    rw
      (
        field_found (leb 2) k h (pad2 h ++ tail_h) tail_h hours wide,
        field_found (λ j. j == 2) 2 m (pad2 m ++ tail_m) tail_m (pad2_two m tail_m (omega arith))
            refl,
        field_found (λ j. j == 2) 2 s (pad2 s ++ tail_s) tail_s (pad2_two s tail_s (omega arith))
            refl,
        field_found (λ j. j == 3) 3 ms (pad3 ms) []
            (ap (take_digits 0 0) (sym (append_nil (pad3 ms))) ∙ pad3_three ms [] c) refl,
        low_m,
        low_s,
      )
      refl

stamp-read : (ms : ℕ) → read_timestamp (stamp ms) ≡ ok ms
stamp-read ms =
    stamp_fields (ms / 1000 / 60 / 60) (ms / 1000 / 60 % 60) (ms / 1000 % 60) (ms % 1000)
      (omega arith) (omega arith) (omega arith)
    ∙ ap ok (omega arith)

-- The cues that the database admits have no negative times.
admitted_times :
    (s : TranscriptSegment)
    → admits_segment s ≡ true
    → (m : ℕ) × (n : ℕ) × (s.start_ms ≡ pos m) × (s.end_ms ≡ pos n)
unfolding admits_segment
admitted_times s h = times s.start_ms s.end_ms (ground arith) (ground arith)
  where
    times :
        (a b : ℤ)
        → int_leb (pos 0) a ≡ true
        → int_leb b a ≡ false
        → (m : ℕ) × (n : ℕ) × (a ≡ pos m) × (b ≡ pos n)
    times (pos m) (pos n) h k = (m, n, refl, refl)
    times (pos m) (negsuc n) h k = cc
    times (negsuc m) b h k = cc

-- The lines of a WebVTT file after its header, for a list of cues: of each cue its position in
-- digits, its two times with an arrow between them, its escaped text, and an empty line.
pub data Rendered : List TranscriptSegment → List Text → Type 0 where
  no_cue : Rendered [] []
  cue :
      {s : TranscriptSegment} {ss : List TranscriptSegment} {lines : List Text}
      (number start end : Text) (width m n : ℕ)
      → take_digits 0 0 number ≡ (width, s.position, [])
      → s.start_ms ≡ pos m
      → read_timestamp start ≡ ok m
      → s.end_ms ≡ pos n
      → read_timestamp end ≡ ok n
      → Rendered ss lines
      → Rendered
          (s ∷ ss)
          (number ∷ (start ++ (codes " --> " ++ end)) ∷ escape_cue_text s.text ∷ [] ∷ lines)

number_read : (n : ℕ) → take_digits 0 0 (decimal n) ≡ (0 + width n, n, [])
number_read n = ap (take_digits 0 0) (sym (append_nil (decimal n))) ∙ read_decimal 0 n []

cue_written :
    (s : TranscriptSegment) (m n : ℕ)
    → s.start_ms ≡ pos m
    → s.end_ms ≡ pos n
    → cue_lines s
      ≡ ok (
          decimal s.position
          ∷ (stamp m ++ (codes " --> " ++ stamp n))
          ∷ escape_cue_text s.text
          ∷ []
          ∷ [])
unfolding format_timestamp
cue_written s m n a b =
    let start = stamp m ++ codes " " in
    let line : start ++ cue_separator ++ codes " " ++ stamp n
        ≡ stamp m ++ (codes " --> " ++ stamp n) =
      append_assoc (start ++ cue_separator) (codes " ") (stamp n)
      ∙ append_assoc start cue_separator (codes " " ++ stamp n)
      ∙ append_assoc (stamp m) (codes " ") (cue_separator ++ (codes " " ++ stamp n)) in
    rw (a, b) (ap (λ l. ok (decimal s.position ∷ l ∷ escape_cue_text s.text ∷ [] ∷ [])) line)

lines_Rendered :
    (ss : List TranscriptSegment)
    → exists_by (λ s. not (admits_segment s)) ss ≡ false
    → (lines : List Text) × (all_lines ss ≡ ok lines) × Rendered ss lines
lines_Rendered [] h = ([], refl, no_cue)
lines_Rendered (s ∷ ss) h =
    let (m, n, a, b) = admitted_times s (ground arith) in
    let (lines, done, rest) = lines_Rendered ss (ground arith) in
    (
      decimal s.position
          ∷ (stamp m ++ (codes " --> " ++ stamp n))
          ∷ escape_cue_text s.text
          ∷ []
          ∷ lines,
      rw (cue_written s m n a b, done) refl,
      cue (decimal s.position) (stamp m) (stamp n) (0 + width s.position) m n
          (number_read s.position) a (stamp-read m) b (stamp-read n) rest,
    )

-- A time that is not negative is written and read back: the text that is written is the time stamp
-- of WebVTT (hours of two digits or more, minutes and seconds of two digits and below 60, each after
-- a colon, and after a full stop three digits of milliseconds) that names the time; a negative one is
-- refused. For every list of cues that the constraints of the database admit, the file is rendered:
-- its lines are the header, an empty line, and for each cue in order its position, its two times,
-- its escaped text and an empty line.
pub timestamps_read :
    ((ms : ℕ)
      → (text : Text) × (format_timestamp (pos ms) ≡ ok text) × (read_timestamp text ≡ ok ms))
    × ((n : ℕ) → is_ok (format_timestamp (negsuc n)) ≡ false)
    × ((segments : List TranscriptSegment)
        → exists_by (λ s. not (admits_segment s)) segments ≡ false
        → (lines : List Text) × Rendered segments lines
          × (render_vtt segments ≡ ok (join_lines (codes "WEBVTT" ∷ [] ∷ lines))))
unfolding format_timestamp render_vtt
timestamps_read = (
  λ ms. (stamp ms, refl, stamp-read ms),
  λ n. refl,
  λ segments h.
      let (lines, done, written) = lines_Rendered segments h in (lines, written, rw done refl),
)
