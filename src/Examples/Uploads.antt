-- ===== src/Examples/Uploads.antt =====
-- An upload that is verified, one that is refused, a token, a dead letter, and a retry.
use e_platform.Prelude.{refl, ◌≡◌, ◌↔◌, ◌++◌, ◌≤◌, ℕ, true, some, [], ◌∷◌}
use e_platform.Prelude.Result.{Result, ok, err}
use e_platform.Prelude.Text.{Text, codes, text_eq}
use e_platform.Accounts.{account, is_platform_administrator}
use e_platform.Entitlements.Model
use e_platform.Entitlements.Resolver.Spec.{Entitled}
use e_platform.Media.Model.{MediaAsset, uploaded, ready, failed, pending, admits_asset, has_scheme}
use e_platform.Media.Storage.{looks_like, magic_signatures}
use e_platform.Media.Services.{
  World, blank_asset, StoredObject, ObjectStorage, upload_verification_failed, complete_upload,
  may_manage, save_asset, fail, fail_columns, received, process_media_asset, retry_processing,
  requeued, issue_playback_token,
}
use e_platform.Media.Tasks
use e_platform.Media.Tasks.{
  Raised, ProviderAsset, dead_lettered, run_task, already_processed, provider_ready,
}
use e_platform.Media.Pipeline.{
  row, playback_iff, Mints, upload_accepted, upload_refused, retry_stuck,
}
use e_platform.Media.DeadLetters.{exhausted_retries, Dead}
use e_platform.Examples.People.{teacher, lesson}

abbrev master : MediaAsset
master = record (blank_asset 8 7) { source_object_key = codes "k"; source_bytes = 1 }

abbrev world : World
world = record { assets = master ∷ []; jobs = []; deleted = [] }

abbrev video : StoredObject
video = record { size_bytes = 90; content_type = codes "video/mp4"; etag = codes "e" }

abbrev bucket : ObjectStorage
bucket = record { head = λ key. some video; read_prefix = λ key. 0 ∷ 0 ∷ 0 ∷ 0 ∷ codes "ftypisom" }

abbrev too_large : ℕ → Text
too_large n = codes "File is over the limit."

abbrev verified_world : World
verified_world = record world {
  assets = received video master ∷ [];
  jobs = process_media_asset 8 ∷ [];
}

verifies :
    complete_upload 100 bucket too_large master lesson teacher world
    ≡ (ok (received video master), verified_world)
unfolding complete_upload may_manage is_platform_administrator fail save_asset admits_asset
    has_scheme looks_like magic_signatures text_eq
verifies = refl

upload_accepted_example :
    (may_manage lesson teacher ≡ true)
    × (master.status ≡ pending)
    × ((stored : StoredObject) × (bucket.head (codes "k") ≡ some stored)
        × (stored.size_bytes ≤ 100)
        × (looks_like (bucket.read_prefix (codes "k")) stored.content_type ≡ true)
        × (row 8 verified_world ≡ some (received stored master))
        × (verified_world.jobs ≡ [] ++ (process_media_asset 8 ∷ [])))
upload_accepted_example =
    upload_accepted 100 bucket too_large master lesson teacher world refl verifies

abbrev refused_world : World
refused_world = record world {
  assets = fail_columns (codes "File is over the limit.") master ∷ [];
  deleted = codes "k" ∷ [];
}

refuses :
    complete_upload 50 bucket too_large master lesson teacher world
    ≡ (err upload_verification_failed, refused_world)
unfolding complete_upload may_manage is_platform_administrator fail save_asset admits_asset
    has_scheme
refuses = refl

upload_refused_example :
    (row 8 refused_world ≡ some (fail_columns (codes "File is over the limit.") master))
    × (refused_world.deleted ≡ codes "k" ∷ [])
    × (refused_world.jobs ≡ [])
upload_refused_example =
    upload_refused 50 bucket too_large master lesson teacher world refl video refl refuses

abbrev no_plans : Model.Db
no_plans = record { subscriptions = []; events = []; overrides = []; audit = [] }

abbrev playing : World
playing = record world {
  assets = record master { status = ready; provider_playback_id = codes "p" } ∷ [];
}

abbrev mint : Text → ℕ → Text
mint playback_id ttl = playback_id

playback_iff_example :
    (issue_playback_token mint 60 7 no_plans 1 1 (account teacher) lesson playing ≡ ok (codes "p"))
    ↔ (Entitled 7 no_plans 1 1 lesson (account teacher)
        × Mints mint 60 7 no_plans 1 1 (account teacher) lesson playing (codes "p"))
playback_iff_example =
    playback_iff mint 60 7 no_plans 1 1 (account teacher) lesson playing (codes "p")

abbrev waiting : MediaAsset
waiting = record master { status = uploaded }

abbrev outage : Raised
outage = record { name = codes "Timeout"; text = codes "no answer" }

abbrev down : Text → Result Raised ProviderAsset
down url = err outage

waiting_legal : admits_asset waiting (waiting ∷ []) ≡ true
unfolding admits_asset has_scheme
waiting_legal = refl

exhausted_retries_example :
    (w' : World) × (run_task 4 3 down 0 8 (record world { assets = waiting ∷ [] })
      ≡ some (dead_lettered, w'))
    × Dead 8 3 down outage (λ url. refl) waiting w'
exhausted_retries_example =
    exhausted_retries 8 3 down outage (λ url. refl) waiting (record world { assets = waiting ∷ [] })
      refl refl refl waiting_legal

-- The provider took the file and failed on it later.
abbrev errored_asset : MediaAsset
errored_asset = record master {
  status = failed;
  error_message = codes "The provider failed to process this file.";
  provider = codes "fake";
  provider_asset_id = codes "a1";
  provider_playback_id = codes "p1";
}

abbrev errored_world : World
errored_world = record world { assets = errored_asset ∷ [] }

abbrev retried_world : World
retried_world = record world {
  assets = requeued errored_asset ∷ [];
  jobs = process_media_asset 8 ∷ [];
}

retries :
    retry_processing errored_asset lesson teacher errored_world
    ≡ ok (requeued errored_asset, retried_world)
unfolding retry_processing may_manage is_platform_administrator save_asset admits_asset has_scheme
retries = refl

retry_stuck_example :
    (row 8 retried_world ≡ some (requeued errored_asset))
    × (Tasks.process_media_asset 3 down 0 8 retried_world ≡ (already_processed, retried_world))
retry_stuck_example =
    retry_stuck errored_asset lesson teacher errored_world refl refl retries 3 0 down
