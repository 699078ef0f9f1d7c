-- ===== src/Projections/Examples.antt =====
-- A workspace of one record, and the theorems on rebuilds at it.
use wiki_spike.Base.{
  ℕ, String, Bool, true, false, ◌≡◌, ◌≢◌, ◌⊎◌, refl, Option, none, some, List, [], ◌∷◌,
  String-discrete, Key-discrete, ◌=s◌, if◌then◌else◌,
}
use wiki_spike.Base.Sorting.{sort, sorted}
use wiki_spike.Base.TextOrder.{leb_text}
use wiki_spike.Table.{find, put}
use wiki_spike.Json.{Json, text}
use wiki_spike.Projections.{
  Store, Pointer, Artifact, identity, chronology, current, last_known_good, create,
  Pointer-discrete, Artifact-discrete, StagingManifest-discrete, stage, by_name, assert_staged,
  are_minimum, publish_required, publish_optional,
}
use wiki_spike.Projections.Builder.{Record, Spec, build, projected}
use wiki_spike.Projections.Coordinator.{
  RunResult, Status, rebuild, build_all, publish_one, publish_rest, publish_all,
}
use wiki_spike.Projections.Pointers.{IsAt}
use wiki_spike.Projections.Coherent.{IsCoherent}
use wiki_spike.Projections.Rebuild.{rebuild_keeps, rebuild_settles}

abbrev one : Record
one = record {
  object_id = "o1";
  workspace_id = "w";
  revision_id = "r1";
  kind = "note";
  lifecycle_status = "active";
  captured_at = "2026";
  occurred_at = none;
  contents = text "";
}

abbrev records_at : String → String → Option (List Record)
records_at ws g = if g =s "g1" then some (one ∷ []) else none

abbrev digest : Json → String
digest value = "d1"

abbrev decimal : ℕ → String
decimal n = "1"

abbrev spec : String → Bool → Spec
spec name required = record { name = name; schema_version = "1"; required = required }

abbrev specs : List Spec
specs = spec "chronology" true ∷ spec "graph" false ∷ spec "identity" true ∷ []

abbrev empty_store : Store
empty_store = record { pointers = []; lkg = []; staged = [] }

empty-IsCoherent : IsCoherent empty_store
unfolding current last_known_good find
empty-IsCoherent = record { together = λ ws. tt; known_good = λ ws name. refl; one_generation = tt }

abbrev pointer : String → Pointer
pointer name = record {
  projection_name = name;
  workspace_id = "w";
  generation_id = "g1";
  artifact_digest = "d1";
  staging_manifest_digest = "d1";
}

abbrev advanced_to : RunResult
advanced_to = record {
  status = Status.ok;
  source_generation_id = "g1";
  staging_manifest_digest = some "d1";
  advanced = "chronology" ∷ "graph" ∷ "identity" ∷ [];
  failed_required = [];
  failed_optional = [];
  error_code = none;
}

abbrev artifact : String → Bool → Artifact
artifact name required = record {
  projection_name = name;
  workspace_id = "w";
  source_generation_id = "g1";
  schema_version = "1";
  required = required;
  artifact_digest = "d1";
  records_root = "d1";
  record_count = "1";
}

abbrev full_store : Store
full_store = record {
  pointers = pointer "chronology" ∷ pointer "identity" ∷ pointer "graph" ∷ [];
  lkg = pointer "chronology" ∷ pointer "identity" ∷ pointer "graph" ∷ [];
  staged =
      record {
        schema_version = "phase3-projection-staging-v1";
        workspace_id = "w";
        source_generation_id = "g1";
        artifacts =
            artifact "chronology" true ∷ artifact "graph" false ∷ artifact "identity" true ∷ [];
        manifest_digest = "d1";
      }
      ∷ [];
}

first_run :
    rebuild records_at (build digest decimal) digest specs "w" "g1" empty_store
    ≡ some (advanced_to, full_store)
unfolding rebuild String-discrete Key-discrete build projected build_all create stage publish_all
    publish_rest publish_one publish_required publish_optional assert_staged by_name are_minimum
    current find put sort sorted leb_text Pointer-discrete Artifact-discrete
    StagingManifest-discrete
first_run = refl

rebuild_keeps_example : IsCoherent full_store
rebuild_keeps_example =
    rebuild_keeps records_at (build digest decimal) digest specs "w" "g1" empty_store full_store
      advanced_to empty-IsCoherent first_run

rebuild_settles_example :
    ((w name : String)
      → ("w" =s w) ≡ false
      → current w name full_store ≡ current w name empty_store)
    × (((Status.ok ≡ Status.ok)
          × ((d : String) × (some "d1" ≡ some d)
              × IsAt d "g1" (current "w" identity full_store)
              × IsAt d "g1" (current "w" chronology full_store)))
        ⊎ ((Status.ok ≢ Status.ok) × (full_store.pointers ≡ [])))
rebuild_settles_example =
    rebuild_settles records_at (build digest decimal) digest specs "w" "g1" empty_store full_store
      advanced_to empty-IsCoherent first_run
