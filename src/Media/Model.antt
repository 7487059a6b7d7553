-- ===== src/Media/Model.antt =====
-- backend/apps/media_assets/models.py: the media of a lesson, with the database's constraints.
use e_platform.Prelude.{ℕ, Bool, true, false, not, ◌&&◌, ◌||◌, Option, List, [], ◌∷◌, ◌==◌, ltb}
use e_platform.Prelude.Rows.{exists_by}
use e_platform.Prelude.Text.{Text, is_nonempty}

-- `MediaAssetStatus`
pub data MediaStatus : Type 0 where
  pending uploaded transcoding ready failed : MediaStatus

-- `lesson` is unique: the field is one-to-one.
pub record MediaAsset : Type 0 where
  pub pk : ℕ
  pub lesson : ℕ
  pub source_object_key : Text
  pub source_bytes : ℕ
  pub source_checksum : Text
  pub provider : Text
  pub provider_asset_id : Text
  pub provider_playback_id : Text
  pub duration_seconds : Option ℕ
  pub status : MediaStatus
  pub error_message : Text
  pub retry_count : ℕ

abbrev pub status_eq : MediaStatus → MediaStatus → Bool
status_eq pending pending = true
status_eq uploaded uploaded = true
status_eq transcoding transcoding = true
status_eq ready ready = true
status_eq failed failed = true
status_eq _ _ = false

-- `"://" in id`
abbrev starts_scheme : Text → Bool
starts_scheme (a ∷ b ∷ c ∷ s) = a == 58 && b == 47 && c == 47
starts_scheme _ = false

unfoldable pub has_scheme : Text → Bool
has_scheme [] = false
has_scheme (c ∷ s) = starts_scheme (c ∷ s) || has_scheme s

-- The check constraints of the table, and `unique` on the lesson.
unfoldable pub admits_asset : MediaAsset → List MediaAsset → Bool
admits_asset a rows =
    not (exists_by (λ r. r.lesson == a.lesson && not (r.pk == a.pk)) rows)
    && not (has_scheme a.provider_asset_id)
    && not (has_scheme a.provider_playback_id)
    && (not (status_eq a.status ready)
        || (is_nonempty a.provider_asset_id && is_nonempty a.provider_playback_id))
    && (not (status_eq a.status failed) || is_nonempty a.error_message)
    && ltb 0 a.source_bytes
