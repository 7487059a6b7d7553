-- ===== src/Media/Tasks.antt =====
-- backend/apps/media_assets/tasks.py: the worker's side. A task runs on the store and says which
-- branch it took; `raised` is an exception that leaves it.
use e_platform.Prelude.{
  ℕ, zero, suc, ◌+◌, ◌*◌, ◌-◌, ◌^◌, Bool, true, false, not, ◌&&◌, Option, none, some, [], ◌∷◌, ◌++◌,
  ◌==◌, ltb, if◌then◌else◌,
}
use e_platform.Prelude.Rows.{first_by, update_by}
use e_platform.Prelude.Result.{Result, ok, err}
use e_platform.Prelude.Text.{Text, codes, is_nonempty, text_eq}
use e_platform.Media.Model.{
  MediaStatus, uploaded, transcoding, ready, failed, MediaAsset, status_eq, admits_asset,
}
use e_platform.Media.Storage.{take}
use e_platform.Media.Services.{World, MediaError, integrity_error, request_transcription}

-- `ProviderAssetStatus`; `other` is a status that is not modelled there.
pub data ProviderStatus : Type 0 where
  processing provider_ready errored other : ProviderStatus

pub record ProviderAsset : Type 0 where
  pub provider : Text
  pub asset_id : Text
  pub playback_id : Text
  pub status : ProviderStatus

-- An exception: the name of its type, and its text.
pub record Raised : Type 0 where
  pub name : Text
  pub text : Text

pub data Outcome : Type 0 where
  gone already_processed dead_lettered provider_rejected handed_to_provider : Outcome
  not_uploaded : MediaStatus → Outcome
  retried : ℕ → Outcome  -- the countdown
  raised : MediaError → Outcome

unfoldable pub retry_countdown : ℕ → ℕ
retry_countdown attempt = 2 ^ attempt * 10

-- `MediaAsset.objects.filter(pk=...).update(...)`, which is silent when there is no such row.
unfoldable pub update_rows : ℕ → (MediaAsset → MediaAsset) → World → Result MediaError World
update_rows pk columns w = elim (first_by (λ a. a.pk == pk) w.assets) [
  | none ↦ ok w
  | some a ↦
      if admits_asset (columns a) w.assets
      then ok (record w { assets = update_by (λ r. r.pk == pk) columns w.assets })
      else err integrity_error
]

-- The same, with what the task says afterwards.
abbrev pub update_asset : ℕ → (MediaAsset → MediaAsset) → Outcome → World → Outcome × World
update_asset pk columns outcome w = elim (update_rows pk columns w) [
  | ok w' ↦ (outcome, w')
  | err e ↦ (raised e, w)
]

abbrev pub failure_columns : Text → ℕ → MediaAsset → MediaAsset
failure_columns message attempts a = record a {
  status = failed;
  error_message = take 2000 message;
  retry_count = attempts;
}

-- `_record_failure`
unfoldable pub record_failure : ℕ → Text → ℕ → Outcome → World → Outcome × World
unfolding update_rows
record_failure pk message attempts = update_asset pk (failure_columns message attempts)

-- `f"{type(exc).__name__}: {exc}"`
abbrev pub describe : Raised → Text
describe exc = exc.name ++ codes ": " ++ exc.text

abbrev pub handed : ProviderAsset → MediaAsset → MediaAsset
handed created a = record a {
  provider = created.provider;
  provider_asset_id = created.asset_id;
  provider_playback_id = created.playback_id;
  status = transcoding;
  error_message = [];
}

abbrev pub set_retry_count : ℕ → MediaAsset → MediaAsset
set_retry_count attempts a = record a { retry_count = attempts }

-- What follows the call of the provider: `retries` is `self.request.retries`.
abbrev pub after_failure : ℕ → ℕ → ℕ → Raised → World → Outcome × World
after_failure max_retries retries pk exc w =
    let attempts = retries + 1 in
    if ltb max_retries attempts
    then record_failure pk (describe exc) (attempts - 1) dead_lettered w
    else update_asset pk (set_retry_count attempts) (retried (retry_countdown attempts)) w

abbrev pub is_errored : ProviderStatus → Bool
is_errored errored = true
is_errored processing = false
is_errored provider_ready = false
is_errored other = false

abbrev pub after_creation : ℕ → ℕ → ProviderAsset → World → Outcome × World
after_creation retries pk created w =
    if is_errored created.status
    then record_failure pk (codes "The provider rejected the file.") retries provider_rejected w
    else update_asset pk (handed created) handed_to_provider w

-- `create_asset` is the provider's, on the presigned URL of an object.
unfoldable pub process_media_asset :
    ℕ → (Text → Result Raised ProviderAsset) → ℕ → ℕ → World → Outcome × World
unfolding record_failure update_rows retry_countdown
process_media_asset max_retries create_asset retries pk w =
    elim (first_by (λ a. a.pk == pk) w.assets) [
      | none ↦ (gone, w)
      | some asset ↦
          if is_nonempty asset.provider_asset_id
          then (already_processed, w)
          else if not (status_eq asset.status uploaded)
          then (not_uploaded asset.status, w)
          else elim (create_asset asset.source_object_key) [
            | err exc ↦ after_failure max_retries retries pk exc w
            | ok created ↦ after_creation retries pk created w
          ]
    ]

-- A run that asks for a retry is followed by another; any other outcome ends the task.
abbrev pub resume : (World → Option (Outcome × World)) → Outcome × World → Option (Outcome × World)
resume again (retried countdown, w) = again w
resume again (gone, w) = some (gone, w)
resume again (already_processed, w) = some (already_processed, w)
resume again (dead_lettered, w) = some (dead_lettered, w)
resume again (provider_rejected, w) = some (provider_rejected, w)
resume again (handed_to_provider, w) = some (handed_to_provider, w)
resume again (not_uploaded status, w) = some (not_uploaded status, w)
resume again (raised e, w) = some (raised e, w)

-- The worker runs the task again after a retry, with one more in `self.request.retries`; `none` is
-- a run that the fuel does not reach.
unfoldable pub run_task :
    ℕ → ℕ → (Text → Result Raised ProviderAsset) → ℕ → ℕ → World → Option (Outcome × World)
run_task zero max_retries create_asset retries pk w = none
run_task (suc fuel) max_retries create_asset retries pk w =
    resume (λ w'. run_task fuel max_retries create_asset (retries + 1) pk w')
      (process_media_asset max_retries create_asset retries pk w)

-- `ProviderWebhookEvent`, by the fields that the task reads.
pub record ProviderWebhookEvent : Type 0 where
  pub asset_id : Text
  pub status : ProviderStatus
  pub duration_seconds : Option ℕ

pub data WebhookOutcome : Type 0 where
  unknown_asset now_ready now_failed : WebhookOutcome
  ignored : ProviderStatus → WebhookOutcome
  not_applied : MediaError → WebhookOutcome

abbrev pub ready_columns : Option ℕ → MediaAsset → MediaAsset
ready_columns duration a = record a {
  status = ready;
  duration_seconds = duration;
  error_message = [];
}

abbrev pub webhook_message : Text
webhook_message = codes "The provider failed to process this file."

abbrev pub write_webhook : WebhookOutcome → Result MediaError World → World → WebhookOutcome × World
write_webhook outcome (ok w') w = (outcome, w')
write_webhook outcome (err e) w = (not_applied e, w)

-- What an event does to the asset that it names.
abbrev pub apply_event :
    MediaAsset → ProviderWebhookEvent → ProviderStatus → World → WebhookOutcome × World
apply_event asset event provider_ready w =
    elim (update_rows asset.pk (ready_columns event.duration_seconds) w) [
      | ok w' ↦ (now_ready, record w' { jobs = w'.jobs ++ (request_transcription asset.pk ∷ []) })
      | err e ↦ (not_applied e, w)
    ]
apply_event asset event errored w =
    write_webhook now_failed
      (update_rows asset.pk (failure_columns webhook_message asset.retry_count) w) w
apply_event asset event processing w = (ignored processing, w)
apply_event asset event other w = (ignored other, w)

-- `apply_media_webhook`, on the stored event as the provider of that name parsed it. The mark
-- `processed_at` on the event's own row is left out.
unfoldable pub apply_media_webhook : Text → ProviderWebhookEvent → World → WebhookOutcome × World
unfolding update_rows
apply_media_webhook provider event w =
    elim (first_by (λ a. text_eq a.provider provider && text_eq a.provider_asset_id event.asset_id)
      w.assets) [ none ↦ (unknown_asset, w) | some asset ↦ apply_event asset event event.status w ]
