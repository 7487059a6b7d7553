-- ===== src/Webhooks/Steps.antt =====
-- What one request does, on the store and on the abstract view.
use e_platform.Prelude.{
  ℕ, ◌≡◌, ◌≢◌, inl, inr, refl, sym, ap, ◌∙◌, subst, Option, none, some, List, [], ◌∷◌, ◌==◌,
  if◌then◌else◌, map, arith, Bool-cases,
}
use e_platform.Prelude.Rows.{exists_by, update_by}
use e_platform.Prelude.Result.{Result-cases}
use e_platform.Prelude.Text.{Text}
use e_platform.Core.Inbox.{
  WebhookEvent, Inbox, Response, ok_200, ParseError, key_error, value_error, uncaught,
  answer_unparsed, Job, apply_media_webhook, apply_transcription_callback, fits, same_event,
  admits_event, record_event,
}
use e_platform.Webhooks.{
  Adapters, Event, video_post, transcription_post, processed, deliver, Key, key, key_eq, if_fits,
  row_of, note, job_for,
}

abbrev pub inserted : WebhookEvent → Inbox → Inbox
inserted e inbox =
    if admits_event e inbox.events
    then record { events = e ∷ inbox.events; jobs = job_for e ∷ inbox.jobs }
    else inbox

-- What a request does is told by the row that it asks for.
abbrev pub Does : Option WebhookEvent → Inbox → Response × Inbox → Type 0
Does none inbox (answer, after) = (after ≡ inbox) × (answer ≢ ok_200)
Does (some e) inbox (answer, after) = (answer ≡ ok_200) × (after ≡ inserted e inbox)

not_ok : (e : ParseError) → answer_unparsed e ≢ ok_200
not_ok key_error = λ c. ground arith
not_ok value_error = λ c. ground arith
not_ok uncaught = λ c. ground arith

record-Does :
    (job : ℕ → Job) (e : WebhookEvent) (inbox : Inbox)
    → job e.pk ≡ job_for e
    → Does (if_fits e) inbox (record_event job e inbox)
unfolding record_event
record-Does job e inbox h = elim (Bool-cases (fits e)) [
  | inl k ↦ rw k (ground arith, ground arith)
  | inr k ↦ rw k (refl, λ c. ground arith)
]

-- The abstract view, and the queue, of a store.
abbrev pub ledger : Inbox → List Key
ledger inbox = map key inbox.events

abbrev pub IsQueued : Inbox → Type 0
IsQueued inbox = inbox.jobs ≡ map job_for inbox.events

module _ (a : Adapters) (pk : ℕ) (payload signature : Text) (inbox : Inbox) where
  pub video-Does :
      Does
        (row_of a (video_post pk payload signature))
        inbox
        (deliver a (video_post pk payload signature) inbox)
  unfolding deliver
  video-Does = elim (Bool-cases (a.video.verify_webhook payload signature)) [
    | inl k ↦ elim (Result-cases (a.video.parse_webhook payload)) [
      | inl (e, bad) ↦ rw (k, bad) (refl, not_ok e)
      | inr (event, good) ↦ rw (k, good) (record-Does apply_media_webhook _ inbox refl)
    ]
    | inr k ↦ rw k (refl, λ c. ground arith)
  ]

  pub transcription-Does :
      Does
        (row_of a (transcription_post pk payload signature))
        inbox
        (deliver a (transcription_post pk payload signature) inbox)
  unfolding deliver
  transcription-Does = elim (Bool-cases (a.transcription.verify_webhook payload signature)) [
    | inl k ↦ elim (Result-cases (a.transcription.parse_webhook payload)) [
      | inl (e, bad) ↦ rw (k, bad) (refl, not_ok e)
      | inr (event, good) ↦ rw (k, good) (record-Does apply_transcription_callback _ inbox refl)
    ]
    | inr k ↦ rw k (refl, λ c. ground arith)
  ]

pub known_key :
    (e : WebhookEvent) (rows : List WebhookEvent)
    → exists_by (λ k. key_eq k (key e)) (map key rows)
      ≡ exists_by (same_event e.provider e.provider_event_id) rows
known_key e [] = refl
known_key e (x ∷ rows) = rw (known_key e rows)

-- A step of the store is a step of the abstract view, and the queue keeps up.
abbrev Steps : Option WebhookEvent → Inbox → Inbox → Type 0
Steps o before after = (ledger after ≡ note o (ledger before)) × IsQueued after

inserted-Steps :
    (e : WebhookEvent) (inbox : Inbox) → IsQueued inbox → Steps (some e) inbox (inserted e inbox)
unfolding admits_event
inserted-Steps e inbox q =
    let known = known_key e inbox.events in
    elim (Bool-cases (exists_by (same_event e.provider e.provider_event_id) inbox.events)) [
      | inl k ↦ rw (known, k) (refl, q)
      | inr k ↦ rw (known, k) (refl, ap (λ js. job_for e ∷ js) q)
    ]

Does-Steps :
    (o : Option WebhookEvent) (inbox : Inbox) (r : Response × Inbox)
    → Does o inbox r
    → IsQueued inbox
    → Steps o inbox r.1
Does-Steps none inbox (answer, after) (same, _) q = subst (Steps none inbox) (sym same) (refl, q)
Does-Steps (some e) inbox (answer, after) (_, same) q =
    subst (Steps (some e) inbox) (sym same) (inserted-Steps e inbox q)

marked_keys :
    (now pk : ℕ) (rows : List WebhookEvent)
    → let after = update_by (λ e. e.pk == pk) (λ e. record e { processed_at = some now }) rows in
      (map key after ≡ map key rows) × (map job_for after ≡ map job_for rows)
marked_keys now pk [] = (refl, refl)
marked_keys now pk (x ∷ rows) =
    let (k, j) = marked_keys now pk rows in
    elim (Bool-cases (x.pk == pk)) [
      | inl e ↦ (rw (e, k), rw (e, j))
      | inr e ↦ (rw (e, k), rw (e, j))
    ]

marked-Steps :
    (a : Adapters) (now pk : ℕ) (inbox : Inbox)
    → IsQueued inbox
    → Steps none inbox (deliver a (processed now pk) inbox).1
unfolding deliver
marked-Steps a now pk inbox q = let (k, j) = marked_keys now pk inbox.events in (k, q ∙ sym j)

pub deliver-Steps :
    (a : Adapters) (d : Event) (inbox : Inbox)
    → IsQueued inbox
    → Steps (row_of a d) inbox (deliver a d inbox).1
deliver-Steps a (video_post pk payload signature) inbox q =
    Does-Steps (row_of a (video_post pk payload signature)) inbox _
      (video-Does a pk payload signature inbox) q
deliver-Steps a (transcription_post pk payload signature) inbox q =
    Does-Steps (row_of a (transcription_post pk payload signature)) inbox _
      (transcription-Does a pk payload signature inbox) q
deliver-Steps a (processed now pk) inbox q = marked-Steps a now pk inbox q
