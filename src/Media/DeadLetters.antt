-- ===== src/Media/DeadLetters.antt =====
-- The retry budget of `process_media_asset` in backend/apps/media_assets/tasks.py.
use e_platform.Prelude.{
  ℕ, zero, suc, ◌+◌, ◌<◌, ◌≡◌, refl, ap, ◌∙◌, true, not, ◌&&◌, Option, some, List, [], ◌∷◌, ◌++◌,
  ◌==◌, arith,
}
use e_platform.Prelude.Rows.{exists_by, update_by}
use e_platform.Prelude.Result.{Result, err}
use e_platform.Prelude.Text.{Text, codes, is_nonempty}
use e_platform.Media.Model.{uploaded, failed, MediaAsset, admits_asset}
use e_platform.Media.Storage.{take}
use e_platform.Media.Services.{World}
use e_platform.Media.Tasks.{
  ProviderAsset, Raised, dead_lettered, describe, failure_columns, set_retry_count, run_task,
  resume, Outcome, process_media_asset, record_failure, retried, retry_countdown, update_rows,
}
use e_platform.Media.Pipeline.{row, first-update}

-- A description has words, whatever the exception says.
described : (exc : Raised) → is_nonempty (take 2000 (describe exc)) ≡ true
described exc = nonempty exc.name
  where
    nonempty : (name : Text) → is_nonempty (take 2000 (name ++ codes ": " ++ exc.text)) ≡ true
    nonempty [] = refl
    nonempty (c ∷ name) = refl

-- The constraints do not read the retry count.
lessons-update :
    (a : MediaAsset) (pk n : ℕ) (rows : List MediaAsset)
    → exists_by
        (λ r. r.lesson == a.lesson && not (r.pk == a.pk))
        (update_by (λ r. r.pk == pk) (set_retry_count n) rows)
      ≡ exists_by (λ r. r.lesson == a.lesson && not (r.pk == a.pk)) rows
lessons-update a pk n [] = refl
lessons-update a pk n (r ∷ rows) = ground (arith, lessons-update a pk n rows)

module _ (pk max_retries : ℕ) (create_asset : Text → Result Raised ProviderAsset) (exc : Raised)
    (fails : (url : Text) → create_asset url ≡ err exc) where
  -- The asset waits for the worker.
  record Waits (a : MediaAsset) (w : World) : Type 0 where
    here : row pk w ≡ some a
    not_handed : a.provider_asset_id ≡ []
    awaited : a.status ≡ uploaded
    legal : admits_asset a w.assets ≡ true

  -- The store after one more failure within the budget.
  abbrev counted : ℕ → World → World
  counted n w = record w { assets = update_by (λ r. r.pk == pk) (set_retry_count n) w.assets }

  counted-Waits :
      (n : ℕ) (a : MediaAsset) (w : World) → Waits a w → Waits (set_retry_count n a) (counted n w)
  unfolding admits_asset
  counted-Waits n a w h = record {
    here = first-update pk (set_retry_count n) w.assets a (λ r. refl) h.here;
    not_handed = h.not_handed;
    awaited = h.awaited;
    legal = rw (lessons-update a pk n w.assets) h.legal;
  }

  attempt :
      (retries : ℕ) (a : MediaAsset) (w : World)
      → Waits a w
      → retries < max_retries
      → process_media_asset max_retries create_asset retries pk w
        ≡ (retried (retry_countdown (retries + 1)), counted (retries + 1) w)
  unfolding process_media_asset update_rows admits_asset
  attempt retries a w h more =
      ground (arith, h.here, h.not_handed, h.awaited, h.legal, fails a.source_object_key)

  -- The store with the failure recorded.
  abbrev buried : World → World
  buried w = record w {
    assets = update_by (λ r. r.pk == pk) (failure_columns (describe exc) max_retries) w.assets;
  }

  last_attempt :
      (retries : ℕ) (a : MediaAsset) (w : World)
      → Waits a w
      → retries ≡ max_retries
      → process_media_asset max_retries create_asset retries pk w ≡ (dead_lettered, buried w)
  unfolding process_media_asset record_failure update_rows admits_asset
  last_attempt retries a w h spent =
      ground
        (arith, h.here, h.not_handed, h.awaited, h.legal, fails a.source_object_key, described exc)

  -- The store that the budget leaves: the asset is a dead letter.
  abbrev pub Dead : MediaAsset → World → Type 0
  Dead a w' =
      row pk w'
      ≡ some (record a {
        status = failed;
        error_message = take 2000 (describe exc);
        retry_count = max_retries;
      })

  abbrev again : ℕ → ℕ → World → Option (Outcome × World)
  again fuel retries w' = run_task fuel max_retries create_asset (retries + 1) pk w'

  exhausted :
      (left retries : ℕ) (a : MediaAsset) (w : World)
      → Waits a w
      → retries + left ≡ max_retries
      → (w' : World) × (run_task (suc left) max_retries create_asset retries pk w
          ≡ some (dead_lettered, w'))
        × Dead a w'
  unfolding run_task
  exhausted zero retries a w h spent =
      let last = last_attempt retries a w h (omega arith) in
      (
        buried w,
        ap (resume (again zero retries)) last,
        first-update pk (failure_columns (describe exc) max_retries) w.assets a (λ r. refl) h.here,
      )
  exhausted (suc left) retries a w h spent =
      let once = attempt retries a w h (omega arith) in
      let (w', ran, dead) =
        exhausted left (retries + 1) (set_retry_count (retries + 1) a) (counted (retries + 1) w)
          (counted-Waits (retries + 1) a w h) (omega arith) in
      (w', ap (resume (again (suc left) retries)) once ∙ ran, dead)

  -- When the provider fails at every attempt, the processing task of an uploaded asset, in a row
  -- that satisfies the constraints, ends after MEDIA_PROCESSING_MAX_RETRIES retries: the asset is
  -- FAILED, with the exception's description and the number of retries.
  pub exhausted_retries :
      (a : MediaAsset) (w : World)
      → row pk w ≡ some a
      → a.provider_asset_id ≡ []
      → a.status ≡ uploaded
      → admits_asset a w.assets ≡ true
      → (w' : World) × (run_task (suc max_retries) max_retries create_asset 0 pk w
          ≡ some (dead_lettered, w'))
        × Dead a w'
  exhausted_retries a w here not_handed awaited legal =
      exhausted max_retries 0 a w
        (record { here = here; not_handed = not_handed; awaited = awaited; legal = legal })
        (omega arith)
