-- ===== src/Media/Services.antt =====
-- backend/apps/media_assets/services.py: who may put media on a lesson, the upload and its
-- verification, the retry, and the playback token. A store of rows stands with the jobs that are
-- queued and the objects that were deleted, both in order.
use e_platform.Prelude.{
  ℕ, Bool, true, false, not, ◌||◌, Option, none, some, List, [], ◌∷◌, ◌++◌, ◌==◌, ltb,
  if◌then◌else◌,
}
use e_platform.Prelude.Rows.{first_by, update_by}
use e_platform.Prelude.Result.{Result, ok, err, ◌>>=◌, ◌>>◌, require, or_raise}
use e_platform.Prelude.Text.{Text, codes}
use e_platform.Accounts.{User, Visitor, is_platform_administrator}
use e_platform.Entitlements.Model
use e_platform.Entitlements.Resolver.{Lesson, AccessDecision, resolve_access}
use e_platform.Media.Model.{
  MediaStatus, pending, uploaded, transcoding, ready, failed, MediaAsset, status_eq, admits_asset,
}
use e_platform.Media.Storage.{build_object_key, looks_like}

pub data MediaError : Type 0 where
  not_yours unsupported_content_type upload_not_allowed upload_verification_failed : MediaError
  not_playable key_error integrity_error missing_row : MediaError
  entitlement_denied : AccessDecision → MediaError

pub data Job : Type 0 where
  process_media_asset request_transcription : ℕ → Job

pub record World : Type 0 where
  pub assets : List MediaAsset
  pub jobs : List Job
  pub deleted : List Text

-- `StoredObject`, and the calls of `ObjectStorage` that the services make.
pub record StoredObject : Type 0 where
  pub size_bytes : ℕ
  pub content_type : Text
  pub etag : Text

pub record ObjectStorage : Type 0 where
  pub head : Text → Option StoredObject
  pub read_prefix : Text → List ℕ

unfoldable pub may_manage : Lesson → User → Bool
may_manage lesson user = is_platform_administrator user || lesson.instructor == user.pk

-- `asset.save(update_fields=...)`: a write to the row with its primary key, which raises when there is
-- none or the database refuses it.
unfoldable pub save_asset : ℕ → (MediaAsset → MediaAsset) → World → Result MediaError World
save_asset pk columns w = elim (first_by (λ a. a.pk == pk) w.assets) [
  | none ↦ err missing_row
  | some a ↦
      if admits_asset (columns a) w.assets
      then ok (record w { assets = update_by (λ r. r.pk == pk) columns w.assets })
      else err integrity_error
]

-- `REPLACEABLE`
abbrev pub replaceable : MediaStatus → Bool
replaceable pending = true
replaceable uploaded = true
replaceable failed = true
replaceable transcoding = false
replaceable ready = false

-- What `request_upload` writes, on a new row or on the one that is replaced.
abbrev pub fresh_upload : Text → MediaAsset → MediaAsset
fresh_upload object_key a = record a {
  source_object_key = object_key;
  source_bytes = 1;
  provider = [];
  provider_asset_id = [];
  provider_playback_id = [];
  status = pending;
  error_message = [];
  retry_count = 0;
}

abbrev pub blank_asset : ℕ → ℕ → MediaAsset
blank_asset pk lesson = record {
  pk = pk;
  lesson = lesson;
  source_object_key = [];
  source_bytes = 0;
  source_checksum = [];
  provider = [];
  provider_asset_id = [];
  provider_playback_id = [];
  duration_seconds = none;
  status = pending;
  error_message = [];
  retry_count = 0;
}

abbrev pub may_replace : Option MediaAsset → Bool
may_replace none = true
may_replace (some a) = replaceable a.status

abbrev pub store_upload :
    ℕ → Lesson → Text → Option MediaAsset → World → Result MediaError (MediaAsset × World)
store_upload pk lesson object_key (some a) w = do
  w' ← save_asset a.pk (fresh_upload object_key) w
  ok (fresh_upload object_key a, w')
store_upload pk lesson object_key none w = do
  let a = fresh_upload object_key (blank_asset pk lesson.pk)
  require (admits_asset a w.assets) integrity_error
  ok (a, record w { assets = a ∷ w.assets })

-- `pk` is the new row's key, if there is to be one.
unfoldable pub request_upload :
    Text → Text → ℕ → Lesson → User → Text → World → Result MediaError (MediaAsset × World)
unfolding may_manage save_asset
request_upload uuid token pk lesson user content_type w = do
  require (may_manage lesson user) not_yours
  let asset = first_by (λ a. a.lesson == lesson.pk) w.assets
  require (may_replace asset) upload_not_allowed
  object_key ← or_raise (build_object_key uuid token content_type) unsupported_content_type
  store_upload pk lesson object_key asset w

abbrev pub fail_columns : Text → MediaAsset → MediaAsset
fail_columns message a = record a { status = failed; error_message = message }

-- `_fail`, followed by the exception that its callers raise. The object is deleted whatever the
-- database says.
unfoldable pub fail : MediaAsset → Text → World → Result MediaError MediaAsset × World
unfolding save_asset
fail asset message w =
    let w' = record w { deleted = asset.source_object_key ∷ w.deleted } in
    elim (save_asset asset.pk (fail_columns message) w') [
      | ok w'' ↦ (err upload_verification_failed, w'')
      | err e ↦ (err e, w')
    ]

abbrev pub received : StoredObject → MediaAsset → MediaAsset
received stored a = record a {
  source_bytes = stored.size_bytes;
  source_checksum = stored.etag;
  status = uploaded;
}

-- The checks on an object that is there. `too_large` and `mismatch` are the recorded messages.
abbrev pub verify :
    ℕ
    → ObjectStorage
    → (ℕ → Text)
    → MediaAsset
    → StoredObject
    → World
    → Result MediaError MediaAsset × World
verify max_bytes storage too_large asset stored w =
    if ltb max_bytes stored.size_bytes
    then fail asset (too_large stored.size_bytes) w
    else if not (looks_like (storage.read_prefix asset.source_object_key) stored.content_type)
    then fail asset (codes "File contents do not match the declared type.") w
    else elim (save_asset asset.pk (received stored) w) [
      | err e ↦ (err e, w)
      | ok w' ↦ (
        ok (received stored asset),
        record w' { jobs = w'.jobs ++ (process_media_asset asset.pk ∷ []) },
      )
    ]

-- `complete_upload` is not atomic: what it wrote stands beside what it returned or raised. `lesson`
-- is the asset's.
unfoldable pub complete_upload :
    ℕ
    → ObjectStorage
    → (ℕ → Text)
    → MediaAsset
    → Lesson
    → User
    → World
    → Result MediaError MediaAsset × World
unfolding may_manage fail save_asset
complete_upload max_bytes storage too_large asset lesson user w =
    if not (may_manage lesson user)
    then (err not_yours, w)
    else if not (status_eq asset.status pending)
    then (err upload_not_allowed, w)
    else elim (storage.head asset.source_object_key) [
      | none ↦ (err upload_verification_failed, w)
      | some stored ↦ verify max_bytes storage too_large asset stored w
    ]

abbrev pub requeued : MediaAsset → MediaAsset
requeued a = record a { status = uploaded; error_message = []; retry_count = 0 }

unfoldable pub retry_processing :
    MediaAsset → Lesson → User → World → Result MediaError (MediaAsset × World)
unfolding may_manage save_asset
retry_processing asset lesson user w = do
  require (may_manage lesson user) not_yours
  require (status_eq asset.status failed) upload_not_allowed
  w' ← save_asset asset.pk requeued w
  ok (requeued asset, record w' { jobs = w'.jobs ++ (process_media_asset asset.pk ∷ []) })

-- The lesson's asset, if it is READY.
abbrev pub playable : Option MediaAsset → Option MediaAsset
playable none = none
playable (some a) = if status_eq a.status ready then some a else none

-- `issue_playback_token`; `mint` is the provider's `get_playback_token`.
unfoldable pub issue_playback_token :
    {Token : Type 0}
    → (Text → ℕ → Token)
    → ℕ
    → ℕ
    → Model.Db
    → ℕ
    → ℕ
    → Visitor
    → Lesson
    → World
    → Result MediaError Token
issue_playback_token mint ttl_seconds grace_days entitlements now override_now visitor lesson w = do
  decision ←
      or_raise (resolve_access grace_days entitlements now override_now visitor lesson) key_error
  require decision.allowed (entitlement_denied decision)
  asset ← or_raise (playable (first_by (λ a. a.lesson == lesson.pk) w.assets)) not_playable
  ok (mint asset.provider_playback_id ttl_seconds)
