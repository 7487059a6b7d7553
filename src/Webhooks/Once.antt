-- ===== src/Webhooks/Once.antt =====
-- Each event is recorded and queued once, whatever is sent again and in whatever order.
use e_platform.Prelude.{
  ℕ, ◌≡◌, inl, inr, refl, sym, ap, ◌∙◌, subst, Bool, true, false, Option, none, some, List, [], ◌∷◌,
  map, arith, Bool-cases,
}
use e_platform.Prelude.Rows.{exists_by}
use e_platform.Prelude.Result.{Result-cases}
use e_platform.Prelude.Text.{text_eq_refl}
use e_platform.Core.Inbox.{WebhookEvent, Inbox, ok_200, fits, admits_event}
use e_platform.Webhooks.{
  Adapters, Event, video_post, transcription_post, processed, deliver, run, Key, key, key_eq,
  row_of, note, replay, job_for,
}
use e_platform.Webhooks.Steps.{
  inserted, Does, IsQueued, ledger, known_key, video-Does, transcription-Does, deliver-Steps,
}

-- The abstract view never has a key twice.
abbrev pub AllOnce : List Key → Type 0
AllOnce [] = Unit {0}
AllOnce (k ∷ ks) = (exists_by (λ j. key_eq j k) ks ≡ false) × AllOnce ks

note-AllOnce : (o : Option WebhookEvent) (ks : List Key) → AllOnce ks → AllOnce (note o ks)
note-AllOnce none ks h = h
note-AllOnce (some e) ks h = elim (Bool-cases (exists_by (λ k. key_eq k (key e)) ks)) [
  | inl k ↦ rw k h
  | inr k ↦ rw k (k, h)
]

replay-AllOnce :
    (a : Adapters) (ds : List Event) (ks : List Key) → AllOnce ks → AllOnce (replay a ds ks)
replay-AllOnce a [] ks h = h
replay-AllOnce a (d ∷ ds) ks h =
    replay-AllOnce a ds (note (row_of a d) ks) (note-AllOnce (row_of a d) ks h)

ledger-run :
    (a : Adapters) (ds : List Event) (inbox : Inbox)
    → IsQueued inbox
    → ledger (run a ds inbox) ≡ replay a ds (ledger inbox)
ledger-run a [] inbox q = refl
ledger-run a (d ∷ ds) inbox q =
    let (same, queued) = deliver-Steps a d inbox q in
    ledger-run a ds (deliver a d inbox).1 queued ∙ ap (replay a ds) same

run-IsQueued :
    (a : Adapters) (ds : List Event) (inbox : Inbox) → IsQueued inbox → IsQueued (run a ds inbox)
run-IsQueued a [] inbox q = q
run-IsQueued a (d ∷ ds) inbox q =
    run-IsQueued a ds (deliver a d inbox).1 (deliver-Steps a d inbox q).1

-- Whatever the two receivers are sent and in whatever order, with the worker's marks in between, the
-- table records what the abstract view collects: the keys of the readable signed requests, each
-- once; and the queue has one task for each row of the table, of the kind of its provider.
pub run-replay :
    (a : Adapters) (ds : List Event) (inbox : Inbox)
    → inbox.jobs ≡ map job_for inbox.events
    → AllOnce (map key inbox.events)
    → let after = run a ds inbox in
      (map key after.events ≡ replay a ds (map key inbox.events))
      × AllOnce (map key after.events)
      × (after.jobs ≡ map job_for after.events)
run-replay a ds inbox q once = (
  ledger-run a ds inbox q,
  subst AllOnce (sym (ledger-run a ds inbox q)) (replay-AllOnce a ds (ledger inbox) once),
  run-IsQueued a ds inbox q,
)

abbrev holds : WebhookEvent → List Key → Bool
holds e ledger = exists_by (λ k. key_eq k (key e)) ledger

key_eq_refl : (k : Key) → key_eq k k ≡ true
key_eq_refl (p, i) = ground (arith, text_eq_refl p, text_eq_refl i)

note-holds : (e : WebhookEvent) (ledger : List Key) → holds e (note (some e) ledger) ≡ true
note-holds e ledger = elim (Bool-cases (holds e ledger)) [
  | inl k ↦ rw k k
  | inr k ↦ rw (k, key_eq_refl (key e))
]

replay-holds :
    (a : Adapters) (ds : List Event) (e : WebhookEvent) (ledger : List Key)
    → holds e ledger ≡ true
    → holds e (replay a ds ledger) ≡ true
replay-holds a [] e ledger h = h
replay-holds a (d ∷ ds) e ledger h =
    replay-holds a ds e (note (row_of a d) ledger) (kept (row_of a d))
  where
    kept : (o : Option WebhookEvent) → holds e (note o ledger) ≡ true
    kept none = h
    kept (some x) = elim (Bool-cases (holds x ledger)) [
      | inl k ↦ rw k h
      | inr k ↦ rw (k, h) (ground arith)
    ]

-- The same request once more; a new row would get another key.
abbrev pub resend : ℕ → Event → Event
resend pk (video_post n payload signature) = video_post pk payload signature
resend pk (transcription_post n payload signature) = transcription_post pk payload signature
resend pk (processed now n) = processed now n

resent_row :
    (a : Adapters) (pk : ℕ) (d : Event) (e : WebhookEvent)
    → row_of a d ≡ some e
    → row_of a (resend pk d) ≡ some (record e { pk = pk })
unfolding fits
resent_row a pk (video_post n payload signature) e h =
    elim (Result-cases (a.video.parse_webhook payload)) [
      | inl (x, bad) ↦ absurd (ground arith)
      | inr (event, good) ↦ ground arith
    ]
resent_row a pk (transcription_post n payload signature) e h =
    elim (Result-cases (a.transcription.parse_webhook payload)) [
      | inl (x, bad) ↦ absurd (ground arith)
      | inr (event, good) ↦ ground arith
    ]
resent_row a pk (processed now n) e h = ground arith

deliver-Does :
    (a : Adapters) (d : Event) (e : WebhookEvent) (inbox : Inbox)
    → row_of a d ≡ some e
    → Does (some e) inbox (deliver a d inbox)
deliver-Does a (video_post n payload signature) e inbox h =
    subst (λ o. Does o inbox (deliver a (video_post n payload signature) inbox)) h
      (video-Does a n payload signature inbox)
deliver-Does a (transcription_post n payload signature) e inbox h =
    subst (λ o. Does o inbox (deliver a (transcription_post n payload signature) inbox)) h
      (transcription-Does a n payload signature inbox)
deliver-Does a (processed now n) e inbox h = absurd (ground arith)

known_unchanged :
    (e : WebhookEvent) (inbox : Inbox) → holds e (ledger inbox) ≡ true → inserted e inbox ≡ inbox
unfolding admits_event
known_unchanged e inbox h = rw (sym (known_key e inbox.events) ∙ h)

-- A request that was recorded, a signed one that can be read and stored, is answered 200, and so is
-- each time that it is sent again, whatever came in between; but then neither the table nor the
-- queue changes.
pub redelivery_ignored :
    (a : Adapters) (d : Event) (e : WebhookEvent) (between : List Event) (pk : ℕ) (inbox : Inbox)
    → inbox.jobs ≡ map job_for inbox.events
    → row_of a d ≡ some e
    → ((deliver a d inbox).0 ≡ ok_200)
      × (let after = run a between (deliver a d inbox).1 in
          deliver a (resend pk d) after ≡ (ok_200, after))
redelivery_ignored a d e between pk inbox q h =
    let first = deliver a d inbox in
    let (same, queued) = deliver-Steps a d inbox q in
    let after = run a between first.1 in
    let there : holds e (ledger first.1) ≡ true =
      ap (holds e) (same ∙ ap (λ o. note o (ledger inbox)) h) ∙ note-holds e (ledger inbox) in
    let still : holds e (ledger after) ≡ true =
      ap (holds e) (ledger-run a between first.1 queued)
      ∙ replay-holds a between e (ledger first.1) there in
    let again = deliver-Does a (resend pk d) (record e { pk = pk }) after (resent_row a pk d e h) in
    (
      (deliver-Does a d e inbox h).0,
      ap (λ r. (r, (deliver a (resend pk d) after).1)) again.0
          ∙ ap (λ i. (ok_200, i)) (again.1 ∙ known_unchanged (record e { pk = pk }) after still),
    )
