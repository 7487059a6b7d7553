-- ===== src/Media/Pipeline.antt =====
-- What the services and tasks of backend/apps/media_assets do together: verification, playback,
-- retries and the dead letters.
use e_platform.Prelude.{
  ℕ, ◌≤◌, ◌≡◌, ◌↔◌, inl, inr, refl, true, Option, some, List, [], ◌∷◌, ◌++◌, ◌==◌, ltb,
  if◌then◌else◌, arith, Bool-cases, Option-cases,
}
use e_platform.Prelude.Rows.{first_by, update_by}
use e_platform.Prelude.Result.{Result, ok, err}
use e_platform.Prelude.Text.{Text, codes, is_nonempty}
use e_platform.Accounts.{User, Visitor}
use e_platform.Entitlements.Model
use e_platform.Entitlements.Resolver.{Lesson, resolve_access}
use e_platform.Entitlements.Resolver.Spec.{Entitled, resolve_access-Entitled}
use e_platform.Media.Model.{
  MediaStatus, pending, uploaded, transcoding, ready, failed, MediaAsset, status_eq,
}
use e_platform.Media.Storage.{looks_like}
use e_platform.Media.Services.{
  upload_verification_failed, process_media_asset, World, StoredObject, ObjectStorage, may_manage,
  save_asset, fail, fail_columns, received, complete_upload, requeued, retry_processing,
  issue_playback_token,
}
use e_platform.Media.Tasks
use e_platform.Media.Tasks.{
  ProviderAsset, Raised, Outcome, already_processed, dead_lettered, handed_to_provider,
  after_failure, describe, handed, failure_columns, set_retry_count, run_task, is_errored,
  record_failure, retry_countdown, raised, retried,
}

-- The row of a primary key.
abbrev pub row : ℕ → World → Option MediaAsset
row pk w = first_by (λ a. a.pk == pk) w.assets

pub first-update :
    (pk : ℕ) (columns : MediaAsset → MediaAsset) (rows : List MediaAsset) (a : MediaAsset)
    → ((r : MediaAsset) → (columns r).pk ≡ r.pk)
    → first_by (λ r. r.pk == pk) rows ≡ some a
    → first_by (λ r. r.pk == pk) (update_by (λ r. r.pk == pk) columns rows) ≡ some (columns a)
first-update pk columns [] a same h = cc
first-update pk columns (r ∷ rows) a same h =
    ground (arith, same r, first-update pk columns rows a same)

saved-row :
    (pk : ℕ) (columns : MediaAsset → MediaAsset) (w : World) (a : MediaAsset) {w' : World}
    → ((r : MediaAsset) → (columns r).pk ≡ r.pk)
    → row pk w ≡ some a
    → save_asset pk columns w ≡ ok w'
    → (row pk w' ≡ some (columns a)) × (w'.jobs ≡ w.jobs) × (w'.deleted ≡ w.deleted)
unfolding save_asset
saved-row pk columns w a {w'} same h saved = ground (arith, first-update pk columns w.assets a same)

retried_row :
    (asset : MediaAsset) (lesson : Lesson) (user : User) (w : World) {a' : MediaAsset} {w' : World}
    → row asset.pk w ≡ some asset
    → retry_processing asset lesson user w ≡ ok (a', w')
    → (a' ≡ requeued asset) × (row asset.pk w' ≡ some (requeued asset)) × (asset.status ≡ failed)
unfolding retry_processing save_asset
retried_row asset lesson user w {a'} {w'} here h =
    ground (arith, first-update asset.pk requeued w.assets asset (λ r. refl))

-- A failed asset that has a provider id is stuck after a retry that went through: its row is
-- UPLOADED with the error cleared, and every run of the processing task, with any provider, says
-- that it was already processed and changes nothing.
pub retry_stuck :
    (asset : MediaAsset) (lesson : Lesson) (user : User) (w : World) {a' : MediaAsset} {w' : World}
    → row asset.pk w ≡ some asset
    → is_nonempty asset.provider_asset_id ≡ true
    → retry_processing asset lesson user w ≡ ok (a', w')
    → (max_retries retries : ℕ) (create_asset : Text → Result Raised ProviderAsset)
    → (row asset.pk w'
        ≡ some (record asset { status = uploaded; error_message = []; retry_count = 0 }))
      × (Tasks.process_media_asset max_retries create_asset retries asset.pk w'
          ≡ (already_processed, w'))
unfolding Tasks.process_media_asset
retry_stuck asset lesson user w here handed_over h max_retries retries create_asset =
    let (_, after, _) = retried_row asset lesson user w here h in
    (after, rw (Tasks.process_media_asset, after, handed_over) refl)

status-ready : (status : MediaStatus) → status_eq status ready ≡ true → status ≡ ready
status-ready ready h = refl
status-ready pending h = cc
status-ready uploaded h = cc
status-ready transcoding h = cc
status-ready failed h = cc

status-pending : (status : MediaStatus) → status_eq status pending ≡ true → status ≡ pending
status-pending pending h = refl
status-pending ready h = cc
status-pending uploaded h = cc
status-pending transcoding h = cc
status-pending failed h = cc

module _ {Token : Type 0} (mint : Text → ℕ → Token) (ttl_seconds grace_days : ℕ)
    (entitlements : Model.Db) (now override_now : ℕ) (visitor : Visitor) (lesson : Lesson)
    (w : World) (token : Token) where
  -- The lesson has a READY asset, for which the provider mints the token.
  abbrev pub Mints : Type 0
  Mints =
      (a : MediaAsset) × (first_by (λ r. r.lesson == lesson.pk) w.assets ≡ some a)
      × (a.status ≡ ready)
      × (mint a.provider_playback_id ttl_seconds ≡ token)

  issued-Mints :
      issue_playback_token mint ttl_seconds grace_days entitlements now override_now visitor lesson
          w
        ≡ ok token
      → Entitled grace_days entitlements now override_now lesson visitor × Mints
  unfolding issue_playback_token
  issued-Mints h =
      let decide = resolve_access grace_days entitlements now override_now visitor lesson in
      elim (Option-cases decide) [
        | inl none_yet ↦ absurd (ground arith)
        | inr (d, e) ↦ elim (Bool-cases d.allowed) [
          | inr no_access ↦ absurd (ground arith)
          | inl access ↦ elim (Option-cases (first_by (λ r. r.lesson == lesson.pk) w.assets)) [
            | inl missing ↦ absurd (ground arith)
            | inr (a, found) ↦ elim (Bool-cases (status_eq a.status ready)) [
              | inr other ↦ absurd (ground arith)
              | inl is_ready ↦ (
                (resolve_access-Entitled grace_days entitlements now override_now visitor lesson).0
                    (d, e, access),
                (a, found, status-ready a.status is_ready, ground arith),
              )
            ]
          ]
        ]
      ]

  Mints-issued :
      Entitled grace_days entitlements now override_now lesson visitor
      → Mints
      → issue_playback_token mint ttl_seconds grace_days entitlements now override_now visitor
          lesson w
        ≡ ok token
  unfolding issue_playback_token
  Mints-issued entitled (a, found, is_ready, minted) =
      let (d, e, access) =
        (resolve_access-Entitled grace_days entitlements now override_now visitor lesson).1
          entitled in
      ground arith

  -- A playback token is issued exactly when the visitor is entitled to the lesson and the lesson
  -- has a READY asset, and it is the one that the provider mints for that asset.
  pub playback_iff :
      (issue_playback_token mint ttl_seconds grace_days entitlements now override_now visitor lesson
          w
        ≡ ok token)
      ↔ (Entitled grace_days entitlements now override_now lesson visitor × Mints)
  playback_iff = (issued-Mints, λ h. Mints-issued h.0 h.1)

-- What a verified upload was checked for, and what stands in the store.
module _ (max_bytes : ℕ) (storage : ObjectStorage) (too_large : ℕ → Text) (asset : MediaAsset)
    (lesson : Lesson) (user : User) (w : World) (here : row asset.pk w ≡ some asset) where
  accepted_checks :
      (stored : StoredObject) {a' : MediaAsset} {w' : World}
      → storage.head asset.source_object_key ≡ some stored
      → complete_upload max_bytes storage too_large asset lesson user w ≡ (ok a', w')
      → (may_manage lesson user ≡ true)
        × (asset.status ≡ pending)
        × (stored.size_bytes ≤ max_bytes)
        × (looks_like (storage.read_prefix asset.source_object_key) stored.content_type ≡ true)
  unfolding complete_upload may_manage fail save_asset
  accepted_checks stored {a'} {w'} there h =
      (ground arith, status-pending asset.status (ground arith), ground arith, ground arith)

  -- For a current asset, an upload is confirmed only by someone who manages the lesson, while the
  -- asset awaits it, for an object that is there, is within the size limit and has the declared
  -- type's bytes; then the row records the object, as UPLOADED, and one processing job is queued.
  pub upload_accepted :
      {a' : MediaAsset} {w' : World}
      → complete_upload max_bytes storage too_large asset lesson user w ≡ (ok a', w')
      → (may_manage lesson user ≡ true)
        × (asset.status ≡ pending)
        × ((stored : StoredObject) × (storage.head asset.source_object_key ≡ some stored)
            × (stored.size_bytes ≤ max_bytes)
            × (looks_like (storage.read_prefix asset.source_object_key) stored.content_type ≡ true)
            × (row asset.pk w' ≡ some (received stored asset))
            × (w'.jobs ≡ w.jobs ++ (process_media_asset asset.pk ∷ [])))
  unfolding complete_upload may_manage fail save_asset
  upload_accepted {a'} {w'} h = elim (Option-cases (storage.head asset.source_object_key)) [
    | inl missing ↦ absurd (ground arith)
    | inr (stored, there) ↦
        let landed = first-update asset.pk (received stored) w.assets asset (λ r. refl) here in
        let (managed, awaited, fits, genuine) = accepted_checks stored there h in
        (managed, awaited, (stored, there, fits, genuine, ground arith, ground arith))
  ]

  -- Why an object that is there is refused.
  abbrev pub refusal : StoredObject → Text
  refusal stored =
      if ltb max_bytes stored.size_bytes
      then too_large stored.size_bytes
      else codes "File contents do not match the declared type."

  -- For a current asset, when verification refuses an object that is there, the refusal survives
  -- the exception: the row is FAILED with the reason, the object is deleted, and no job is queued.
  pub upload_refused :
      (stored : StoredObject) {w' : World}
      → storage.head asset.source_object_key ≡ some stored
      → complete_upload max_bytes storage too_large asset lesson user w
        ≡ (err upload_verification_failed, w')
      → (row asset.pk w' ≡ some (fail_columns (refusal stored) asset))
        × (w'.deleted ≡ asset.source_object_key ∷ w.deleted)
        × (w'.jobs ≡ w.jobs)
  unfolding complete_upload may_manage fail save_asset
  upload_refused stored {w'} there h =
      ground (
        arith,
        first-update asset.pk (fail_columns (refusal stored)) w.assets asset (λ r. refl) here,
      )
