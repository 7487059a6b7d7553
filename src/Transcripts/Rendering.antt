-- ===== src/Transcripts/Rendering.antt =====
-- backend/apps/transcripts/rendering.py: time stamps, and the WebVTT file of a transcript.
use e_platform.Prelude.{ℕ, zero, suc, ◌+◌, ◌/◌, ◌%◌, List, [], ◌∷◌, ◌++◌, ltb, if◌then◌else◌}
use e_platform.Prelude.Integers.{ℤ, pos, negsuc}
use e_platform.Prelude.Result.{Result, ok, err, ◌>>=◌}
use e_platform.Prelude.Text.{Text, codes}
use e_platform.Transcripts.Model.{TranscriptSegment}
use e_platform.Transcripts.Cues.{escape_cue_text}

-- `str(n)`, the last digit first found; the fuel is one more than the number, which has fewer
-- digits.
abbrev pub digit : ℕ → ℕ
digit n = 48 + n

abbrev pub decimal_by : ℕ → ℕ → Text
decimal_by zero n = []
decimal_by (suc fuel) n =
    let rest = decimal_by fuel (n / 10) in
    if ltb n 10 then digit n ∷ [] else rest ++ (digit (n % 10) ∷ [])

unfoldable pub decimal : ℕ → Text
decimal n = decimal_by (suc n) n

-- `f"{n:02d}"` and `f"{n:03d}"`
unfoldable pub pad2 : ℕ → Text
pad2 n = if ltb n 10 then digit 0 ∷ decimal n else decimal n

unfoldable pub pad3 : ℕ → Text
pad3 n = if ltb n 100 then digit 0 ∷ pad2 n else decimal n

pub data RenderError : Type 0 where
  value_error : RenderError

-- `divmod`, three times.
abbrev pub stamp : ℕ → Text
stamp milliseconds =
    let seconds = milliseconds / 1000 in
    let minutes = seconds / 60 in
    pad2 (minutes / 60)
    ++ (codes ":"
        ++ (pad2 (minutes % 60)
            ++ (codes ":" ++ (pad2 (seconds % 60) ++ (codes "." ++ pad3 (milliseconds % 1000))))))

unfoldable pub format_timestamp : ℤ → Result RenderError Text
format_timestamp (pos milliseconds) = ok (stamp milliseconds)
format_timestamp (negsuc n) = err value_error

abbrev pub cue_separator : Text
cue_separator = codes "-->"

abbrev pub cue_lines : TranscriptSegment → Result RenderError (List Text)
cue_lines s = do
  start ← format_timestamp s.start_ms
  end ← format_timestamp s.end_ms
  ok (
      decimal s.position
      ∷ (start ++ codes " " ++ cue_separator ++ codes " " ++ end)
      ∷ escape_cue_text s.text
      ∷ []
      ∷ [])

abbrev pub all_lines : List TranscriptSegment → Result RenderError (List Text)
all_lines [] = ok []
all_lines (s ∷ ss) = do lines ← cue_lines s; rest ← all_lines ss; ok (lines ++ rest)

-- `"\n".join(lines)`
abbrev pub join_lines : List Text → Text
join_lines [] = []
join_lines (x ∷ []) = x
join_lines (x ∷ y ∷ rest) = x ++ (10 ∷ join_lines (y ∷ rest))

unfoldable pub render_vtt : List TranscriptSegment → Result RenderError Text
render_vtt segments = all_lines segments >>= λ lines. ok (join_lines (codes "WEBVTT" ∷ [] ∷ lines))
