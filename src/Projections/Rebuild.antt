-- ===== src/Projections/Rebuild.antt =====
-- A rebuild of the projections of one workspace: the pointers advance together, or none moves.
use mathlib.Core.Path.{subst}
use wiki_spike.Base.{
  String, false, not, ◌≡◌, ◌≢◌, refl, ap, sym, ◌∙◌, ◌⊎◌, inl, inr, Option, some, List, [], ◌∷◌, map,
  any, String-discrete, Key-discrete, ◌=s◌, =s-self, arith, All, Option-cases, Bool-cases,
}
use wiki_spike.Base.Sorting.{sort}
use wiki_spike.Base.TextOrder.{leb_text}
use wiki_spike.Table.{find, put, find-put}
use wiki_spike.Json.{Json}
use wiki_spike.Projections.{
  Artifact, Pointer, Store, StagingManifest, identity, chronology, current, create, stage, key_of,
  staged_at,
}
use wiki_spike.Projections.Builder.{Record, Spec}
use wiki_spike.Projections.Coordinator.{
  is_nil, RunResult, Status, Built, build_all, publish_all, artifact_at, stage_and_publish,
  rebuild_from, refused, rebuild,
}
use wiki_spike.Projections.Pointers.{IsAt, IsOneGeneration}
use wiki_spike.Projections.Coherent.{IsCoherent, advanced, stage_keeps}
use wiki_spike.Projections.Advance.{Outcome, publish_all-Outcome, retry_ne_ok, rejected_ne_ok}

generations_of :
    (g : String) (artifacts : List Artifact)
    → any (λ (a : Artifact). not (a.source_generation_id =s g)) artifacts ≡ false
    → All (λ (a : Artifact). a.source_generation_id ≡ g) artifacts
generations_of g [] h = tt
generations_of g (a ∷ rest) h = (ground arith, generations_of g rest (ground arith))

create-IsOneGeneration :
    (digest : Json → String) (ws g : String) (artifacts : List Artifact) (m : StagingManifest)
    → create digest ws g artifacts ≡ some m
    → (m.source_generation_id ≡ g) × IsOneGeneration m
unfolding create
create-IsOneGeneration digest ws g artifacts m e =
    let ordered =
      sort (λ (a : Artifact) (b : Artifact). leb_text a.projection_name b.projection_name)
        artifacts in
    let own : m.source_generation_id ≡ g = ground arith in
    let all : m.artifacts ≡ ordered = ground arith in
    let of = generations_of g ordered (ground arith) in
    (
      own,
      subst
          (λ (artifacts : List Artifact).
            All (λ (a : Artifact). a.source_generation_id ≡ m.source_generation_id) artifacts)
          (sym all)
          (subst (λ (g : String). All (λ (a : Artifact). a.source_generation_id ≡ g) ordered)
            (sym own) of),
    )

stage-pointers :
    (m : StagingManifest) (s s' : Store) → stage m s ≡ some s' → s'.pointers ≡ s.pointers
unfolding stage
stage-pointers m s s' e = ground arith

stage-staged_at :
    (m : StagingManifest) (s s' : Store)
    → stage m s ≡ some s'
    → staged_at m.manifest_digest s' ≡ some m
unfolding stage
stage-staged_at m s s' e =
    let key = λ (x : StagingManifest). x.manifest_digest in
    let next : s'.staged ≡ put String-discrete key m s.staged = ground arith in
    ap (find String-discrete key m.manifest_digest) next
    ∙ find-put String-discrete key m.manifest_digest m s.staged
    ∙ rw (=s-self m.manifest_digest) refl

current-pointers :
    (s t : Store) (w name : String) → s.pointers ≡ t.pointers → current w name s ≡ current w name t
unfolding current
current-pointers s t w name e = ap (λ (ps : List Pointer). find Key-discrete key_of (w, name) ps) e

held-Outcome :
    (ws g : String) (r : RunResult) (s s' : Store) (status : Status)
    → status ≢ Status.ok
    → r.status ≡ status
    → s' ≡ s
    → IsCoherent s
    → Outcome ws g r s s'
held-Outcome ws g r s s' status other is same coherent = (
  subst IsCoherent (sym same) coherent,
  (λ w name o. ap (current w name) same),
  inr ((λ p. other (sym is ∙ p)), ap (λ (t : Store). t.pointers) same),
)

-- The outcome for a store with the same pointers.
Outcome-pointers :
    (ws g : String) (r : RunResult) (s t s' : Store)
    → t.pointers ≡ s.pointers
    → Outcome ws g r t s'
    → Outcome ws g r s s'
Outcome-pointers ws g r s t s' same (coherent, others, inl advanced) =
    (coherent, (λ w name o. others w name o ∙ current-pointers t s w name same), inl advanced)
Outcome-pointers ws g r s t s' same (coherent, others, inr (other, held)) = (
  coherent,
  (λ w name o. others w name o ∙ current-pointers t s w name same),
  inr (other, held ∙ same),
)

module _ (records_at : String → String → Option (List Record))
    (build : Spec → String → String → List Record → Option Artifact) (digest : Json → String)
    (specs : List Spec) where
  stage_and_publish-Outcome :
      (ws g : String) (b : Built) (m : StagingManifest) (s s' : Store) (r : RunResult)
      → m.source_generation_id ≡ g
      → IsOneGeneration m
      → IsCoherent s
      → stage_and_publish records_at build digest specs ws g b m s ≡ some (r, s')
      → Outcome ws g r s s'
  stage_and_publish-Outcome ws g b m s s' r of_g one coherent e = elim (Option-cases (stage m s)) [
    | inl no_stage ↦
        held-Outcome ws g r s s' Status.retry_later retry_ne_ok (ground arith) (ground arith)
          coherent
    | inr (t, staged) ↦ elim (Option-cases (artifact_at chronology b.artifacts)) [
      | inl absent ↦ absurd (ground arith)
      | inr (later, found_l) ↦ elim (Option-cases (artifact_at identity b.artifacts)) [
        | inl absent ↦ absurd (ground arith)
        | inr (former, found_f) ↦
            let p =
              publish_all records_at build digest specs ws g m.manifest_digest b
                (later ∷ former ∷ []) t in
            let same : p ≡ (r, s') = ground arith in
            Outcome-pointers ws g r s t s' (stage-pointers m s t staged) (
              subst (λ (x : RunResult × Store). Outcome ws g x.0 t x.1) same
                (publish_all-Outcome records_at build digest specs ws g m.manifest_digest b
                  (later ∷ former ∷ []) t m (stage-staged_at m s t staged) of_g
                  (stage_keeps m s t one coherent staged)))
      ]
    ]
  ]

  rebuild_from-Outcome :
      (ws g : String) (records : List Record) (s s' : Store) (r : RunResult)
      → IsCoherent s
      → rebuild_from records_at build digest specs ws g records s ≡ some (r, s')
      → Outcome ws g r s s'
  rebuild_from-Outcome ws g records s s' r coherent e =
      let b =
        build_all records_at build digest specs ws g records specs
          record { artifacts = []; failed_required = []; failed_optional = [] } in
      elim (Bool-cases (is_nil b.failed_required)) [
        | inl built ↦
            elim (Option-cases
              (create digest ws g (map (λ (a : String × Artifact). a.1) b.artifacts))) [
                | inl refused ↦ absurd (ground arith)
                | inr (m, created) ↦
                    let (of_g, one) = create-IsOneGeneration digest ws g _ m created in
                    stage_and_publish-Outcome ws g b m s s' r of_g one coherent (ground arith)
              ]
        | inr failed ↦
            held-Outcome ws g r s s' Status.retry_later retry_ne_ok (ground arith) (ground arith)
              coherent
      ]

  rebuild-Outcome :
      (ws g : String) (s s' : Store) (r : RunResult)
      → IsCoherent s
      → rebuild records_at build digest specs ws g s ≡ some (r, s')
      → Outcome ws g r s s'
  unfolding rebuild
  rebuild-Outcome ws g s s' r coherent e = elim (Option-cases (records_at ws g)) [
    | inl unavailable ↦
        held-Outcome ws g r s s' Status.retry_later retry_ne_ok (ground arith) (ground arith)
          coherent
    | inr (records, found) ↦
        elim (Bool-cases (any (λ (r : Record). not (r.workspace_id =s ws)) records)) [
          | inl mismatch ↦
              held-Outcome ws g r s s' Status.rejected rejected_ne_ok (ground arith) (ground arith)
                coherent
          | inr own ↦ rebuild_from-Outcome ws g records s s' r coherent (ground arith)
        ]
  ]

  -- A rebuild keeps the pointers coherent: in each workspace the two pointers of the minimum profile name
  -- one staged manifest and one generation, and each last known good pointer is the current one.
  pub rebuild_keeps :
      (ws g : String) (s s' : Store) (r : RunResult)
      → IsCoherent s
      → rebuild records_at build digest specs ws g s ≡ some (r, s')
      → IsCoherent s'
  rebuild_keeps ws g s s' r coherent e = (rebuild-Outcome ws g s s' r coherent e).0

  -- A rebuild touches one workspace and settles it whole. No pointer of another workspace moves. If it
  -- answers `ok`, both pointers of the minimum profile are at the manifest that it reports and at the
  -- generation that it was asked for; if it answers anything else, no pointer has moved.
  pub rebuild_settles :
      (ws g : String) (s s' : Store) (r : RunResult)
      → IsCoherent s
      → rebuild records_at build digest specs ws g s ≡ some (r, s')
      → ((w name : String) → (ws =s w) ≡ false → current w name s' ≡ current w name s)
        × (((r.status ≡ Status.ok)
              × ((d : String) × (r.staging_manifest_digest ≡ some d)
                  × IsAt d g (current ws identity s')
                  × IsAt d g (current ws chronology s')))
            ⊎ ((r.status ≢ Status.ok) × (s'.pointers ≡ s.pointers)))
  rebuild_settles ws g s s' r coherent e =
      let outcome = rebuild-Outcome ws g s s' r coherent e in (outcome.1, outcome.2)
