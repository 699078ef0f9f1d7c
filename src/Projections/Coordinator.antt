-- ===== src/Projections/Coordinator.antt =====
-- memory_core/projections.py: `ProjectionCoordinator`. The source and the builder are parameters, as the
-- protocols of the source have them; `none` stands for an exception of theirs.
use wiki_spike.Base.{
  String, Bool, true, false, not, ◌||◌, Option, none, some, List, [], ◌∷◌, ◌++◌, map, any, select,
  String-discrete, if◌then◌else◌, ◌=s◌, contains,
}
use wiki_spike.Base.Optional.{◌>>=◌}
use wiki_spike.Base.TextOrder.{leb_text}
use wiki_spike.Base.Sorting.{sort, sorted}
use wiki_spike.Table.{find}
use wiki_spike.Json.{Json}
use wiki_spike.Projections.{
  Artifact, Pointer, Store, StagingManifest, identity, chronology, are_minimum, has_duplicate,
  create, current, stage, publish_required, publish_optional,
}
use wiki_spike.Projections.Builder.{Record, Spec}

pub data Status : Type 0 where
  ok retry_later rejected : Status

pub record RunResult : Type 0 where
  pub status : Status
  pub source_generation_id : String
  pub staging_manifest_digest : Option String
  pub advanced : List String
  pub failed_required : List String
  pub failed_optional : List String
  pub error_code : Option String

-- `tuple(sorted(MINIMUM_PROJECTIONS))`
abbrev pub minimum : List String
minimum = chronology ∷ identity ∷ []

abbrev pub is_nil : {A : Type 0} → List A → Bool
is_nil [] = true
is_nil (x ∷ xs) = false

-- `ProjectionCoordinator.__init__`: the specs in their order, or the refusal
unfoldable pub ordered_specs : List Spec → Option (List Spec)
unfolding sort leb_text
ordered_specs specs =
    let ordered = sort (λ a b. leb_text a.name b.name) specs in
    if is_nil ordered || has_duplicate (map (λ (s : Spec). s.name) ordered)
    then none
    else if not
        (are_minimum (map (λ (s : Spec). s.name) (select (λ (s : Spec). s.required) ordered)))
    then none
    else some ordered

-- What the loop over the specs has made so far.
pub record Built : Type 0 where
  pub artifacts : List (String × Artifact)
  pub failed_required : List String
  pub failed_optional : List String

-- `sorted(set(xs))`
abbrev distinct : List String → List String
distinct [] = []
distinct (x ∷ xs) = let rest = distinct xs in if contains rest x then rest else x ∷ rest

-- `artifacts[name]`
abbrev pub artifact_at : String → List (String × Artifact) → Option Artifact
artifact_at name artifacts =
    elim (find String-discrete (λ (a : String × Artifact). a.0) name artifacts) [
      | none ↦ none
      | some a ↦ some a.1
    ]

module _ (records_at : String → String → Option (List Record))
    (build : Spec → String → String → List Record → Option Artifact) (digest : Json → String)
    (specs : List Spec) where
  abbrev failed : Spec → Built → Built
  failed spec b =
      if spec.required
      then record b { failed_required = b.failed_required ++ spec.name ∷ [] }
      else record b { failed_optional = b.failed_optional ++ spec.name ∷ [] }

  unfoldable pub build_all : String → String → List Record → List Spec → Built → Built
  build_all ws g records [] b = b
  build_all ws g records (spec ∷ rest) b =
      build_all ws g records rest (elim (build spec ws g records) [
        | none ↦ failed spec b
        | some a ↦ record b { artifacts = b.artifacts ++ (spec.name, a) ∷ [] }
      ])

  abbrev pub refused :
      Status → String → Option String → List String → List String → String → RunResult
  refused status g d required optional code = record {
    status = status;
    source_generation_id = g;
    staging_manifest_digest = d;
    advanced = [];
    failed_required = required;
    failed_optional = optional;
    error_code = some code;
  }

  abbrev answer : Store → Option (Bool × Store) → Bool × Store
  answer s none = (false, s)
  answer s (some r) = r

  -- One optional projection: where its publication raises, it has failed.
  unfoldable pub publish_one : String → String → Artifact → Store → Bool × Store
  unfolding publish_optional current
  publish_one ws d a s = answer s (publish_optional ws d (current ws a.projection_name s) a s)

  -- The names that advanced, those that failed, and the store.
  unfoldable pub publish_rest :
      String
      → String
      → List (String × Artifact)
      → List Spec
      → Store
      → List String × List String × Store
  unfolding publish_one find
  publish_rest ws d artifacts [] s = ([], [], s)
  publish_rest ws d artifacts (spec ∷ rest) s =
      if spec.required
      then publish_rest ws d artifacts rest s
      else elim (artifact_at spec.name artifacts) [
        | none ↦ publish_rest ws d artifacts rest s
        | some a ↦
            let (published, s') = publish_one ws d a s in
            let (advanced, failed, s'') = publish_rest ws d artifacts rest s' in
            if published
            then (spec.name ∷ advanced, failed, s'')
            else (advanced, spec.name ∷ failed, s'')
      ]

  abbrev pub expected_of : String → Store → List (String × Option Pointer)
  expected_of ws s = (identity, current ws identity s) ∷ (chronology, current ws chronology s) ∷ []

  -- From the staged manifest on
  unfoldable pub publish_all :
      String → String → String → Built → List Artifact → Store → RunResult × Store
  unfolding publish_required publish_rest current sorted
  publish_all ws g d b required s =
      let (published, s') = answer s (publish_required ws d (expected_of ws s) required s) in
      if not published
      then (
        refused retry_later g (some d) minimum (sorted b.failed_optional)
            "required_projection_pointer_conflict",
        s',
      )
      else let (advanced, failed, s'') = publish_rest ws d b.artifacts specs s' in
        (
          record {
            status = ok;
            source_generation_id = g;
            staging_manifest_digest = some d;
            advanced = sorted (minimum ++ advanced);
            failed_required = [];
            failed_optional = sorted (distinct (b.failed_optional ++ failed));
            error_code = none;
          },
          s'',
        )

  abbrev pub stage_and_publish :
      String → String → Built → StagingManifest → Store → Option (RunResult × Store)
  stage_and_publish ws g b m s = elim (stage m s) [
    | none ↦
        some
          (refused retry_later g none [] (sorted b.failed_optional) "projection_staging_failed", s)
    | some s' ↦ do
      later ← artifact_at chronology b.artifacts
      former ← artifact_at identity b.artifacts
      some (publish_all ws g m.manifest_digest b (later ∷ former ∷ []) s')
  ]

  abbrev pub rebuild_from : String → String → List Record → Store → Option (RunResult × Store)
  rebuild_from ws g records s =
      let b =
        build_all ws g records specs
          record { artifacts = []; failed_required = []; failed_optional = [] } in
      if not (is_nil b.failed_required)
      then some (
        refused retry_later g none (sorted b.failed_required) (sorted b.failed_optional)
            "required_projection_failed",
        s,
      )
      else create digest ws g (map (λ (a : String × Artifact). a.1) b.artifacts) >>= λ m.
          stage_and_publish ws g b m s

  unfoldable pub rebuild : String → String → Store → Option (RunResult × Store)
  unfolding build_all create stage publish_all sorted find
  rebuild ws g s = elim (records_at ws g) [
    | none ↦ some (refused retry_later g none minimum [] "projection_source_unavailable", s)
    | some records ↦
        if any (λ (r : Record). not (r.workspace_id =s ws)) records
        then some (refused rejected g none minimum [] "projection_workspace_mismatch", s)
        else rebuild_from ws g records s
  ]
