-- ===== src/Transcripts/Scope.antt =====
-- The scope of a query against the check on an object: backend/apps/transcripts/selectors.py and
-- backend/apps/media_assets/selectors.py against the services.
use e_platform.Prelude.{
  ℕ, ◌≡◌, ◌↔◌, inl, inr, refl, sym, ap, ◌∙◌, Bool, true, false, ◌&&◌, ◌||◌, List, ◌==◌,
  if◌then◌else◌, arith, Bool-cases, ==→eq, ==-refl,
}
use e_platform.Prelude.Rows.{filter_by, exists_by}
use e_platform.Prelude.Members.{In, In-filter, filter-In, exists-In, In-exists}
use e_platform.Prelude.Keyed.{IsKeyed}
use e_platform.Accounts.{User, account, is_platform_administrator}
use e_platform.Entitlements.Resolver.{Lesson}
use e_platform.Media.Model.{MediaAsset}
use e_platform.Media.Services.{may_manage}
use e_platform.Media.Selectors.{assets_manageable_by}
use e_platform.Transcripts.Model.{Transcript, TranscriptSegment, Db}
use e_platform.Transcripts.Services.{may_review}
use e_platform.Transcripts.Selectors.{transcripts_reviewable_by, segments_editable_by, taught_by}

module _ {A : Type 0} where
  scoped :
      (b : Bool) (p : A → Bool) (x : A) (rows : List A)
      → In x (if b then rows else filter_by p rows) ↔ (In x rows × ((b || p x) ≡ true))
  scoped true p x rows = (λ m. (m, refl), λ h. h.0)
  scoped false p x rows = (λ m. In-filter p x rows m, λ h. filter-In p x rows h.0 h.1)

-- The one transcript of a cue.
owner_test :
    (user : User) (t : Transcript) (rows : List Transcript) (pk : ℕ)
    → IsKeyed (λ t. t.pk) rows
    → In t rows
    → t.pk ≡ pk
    → exists_by (λ r. r.pk == pk && taught_by user r) rows ≡ taught_by user t
owner_test user t rows pk keyed m e =
    elim (Bool-cases (exists_by (λ r. r.pk == pk && taught_by user r) rows)) [
      | inl found ↦
          let (r, k, hit) = exists-In (λ r. r.pk == pk && taught_by user r) rows found in
          let at : r.pk ≡ pk = ==→eq r.pk pk (ground arith) in
          let same : r ≡ t = keyed r t k m (at ∙ sym e) in
          let taught : taught_by user r ≡ true = ground arith in
          found ∙ sym (ap (taught_by user) (sym same) ∙ taught)
      | inr absent ↦ elim (Bool-cases (taught_by user t)) [
        | inr no_one ↦ absent ∙ sym no_one
        | inl taught ↦
            let key = ==-refl pk in
            let there = In-exists (λ r. r.pk == pk && taught_by user r) t rows m (ground arith) in
            absurd (ground (arith, absent, there))
      ]
    ]

-- The queries that the views start from and the checks that the services make say the same. For a
-- signed-in user, an asset, a transcript or a cue is in the query exactly when it is in the table
-- and the service's check of its lesson passes; for a cue, that of its transcript, which is to be
-- in the table, with keys that are unique.
pub scope_iff :
    (lesson_of : ℕ → Lesson) (user : User) (assets : List MediaAsset) (db : Db)
    → IsKeyed (λ t. t.pk) db.transcripts
    → ((a : MediaAsset)
        → In a (assets_manageable_by lesson_of (account user) assets)
          ↔ (In a assets × (may_manage (lesson_of a.lesson) user ≡ true)))
      × ((t : Transcript)
          → In t (transcripts_reviewable_by (account user) db)
            ↔ (In t db.transcripts × (may_review t user ≡ true)))
      × ((s : TranscriptSegment) (t : Transcript)
          → In t db.transcripts
          → t.pk ≡ s.transcript
          → In s (segments_editable_by (account user) db)
            ↔ (In s db.segments × (may_review t user ≡ true)))
unfolding assets_manageable_by transcripts_reviewable_by segments_editable_by may_review may_manage
scope_iff lesson_of user assets db keyed = (
  λ a. scoped (is_platform_administrator user) _ a assets,
  λ t. scoped (is_platform_administrator user) (taught_by user) t db.transcripts,
  λ s t m e.
      let test = owner_test user t db.transcripts s.transcript keyed m e in
      let (into, back) =
        scoped (is_platform_administrator user)
          (λ s. exists_by (λ t. t.pk == s.transcript && taught_by user t) db.transcripts) s
          db.segments in
      (
        λ k.
            let (m, ok_) = into k in
            (m, ap (λ b. is_platform_administrator user || b) (sym test) ∙ ok_),
        λ h. back (h.0, ap (λ b. is_platform_administrator user || b) test ∙ h.1),
      ),
)
