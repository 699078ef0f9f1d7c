-- ===== src/Projections.antt =====
-- memory_core/projections.py: the artifacts of projections, the manifest that stages them, and the store
-- of pointers to what is published. `none` stands for ProjectionContractError.
pub mod Builder
pub mod Coordinator
pub mod Pointers
pub mod Coherent
pub mod Advance
pub mod Rebuild
mod Examples
use wiki_spike.Base.{
  String, Bool, true, false, not, ◌&&◌, ◌||◌, ◌≡◌, Option, none, some, List, [], ◌∷◌, map, any,
  String-discrete, Key-discrete, if◌then◌else◌, holds, ◌=s◌, contains,
}
use wiki_spike.Base.Optional.{◌>>=◌}
use wiki_spike.Base.TextOrder.{leb_text}
use wiki_spike.Base.Texts.{is_empty}
use wiki_spike.Base.Sorting.{sort}
use wiki_spike.Table.{find, put}
use wiki_spike.Json.{Json, text, array, object, member, empty, items, members}

pub record Artifact : Type 0 where
  pub projection_name : String
  pub workspace_id : String
  pub source_generation_id : String
  pub schema_version : String
  pub required : Bool
  pub artifact_digest : String
  pub records_root : String
  pub record_count : String

pub record StagingManifest : Type 0 where
  pub schema_version : String
  pub workspace_id : String
  pub source_generation_id : String
  pub artifacts : List Artifact
  pub manifest_digest : String

pub record Pointer : Type 0 where
  pub projection_name : String
  pub workspace_id : String
  pub generation_id : String
  pub artifact_digest : String
  pub staging_manifest_digest : String

unfoldable pub Artifact-discrete : Discrete Artifact
Artifact-discrete = hlevel String-discrete

unfoldable pub StagingManifest-discrete : Discrete StagingManifest
StagingManifest-discrete = hlevel String-discrete

unfoldable pub Pointer-discrete : Discrete Pointer
Pointer-discrete = hlevel String-discrete

abbrev pub identity : String
identity = "identity"

abbrev pub chronology : String
chronology = "chronology"

-- `names == MINIMUM_PROJECTIONS`
abbrev pub is_minimum : String → Bool
is_minimum name = name =s identity || name =s chronology

unfoldable pub are_minimum : List String → Bool
are_minimum names =
    not (any (λ name. not (is_minimum name)) names)
    && contains names identity
    && contains names chronology

abbrev is_nil : List Artifact → Bool
is_nil [] = true
is_nil (a ∷ rest) = false

-- `len({...}) != len(...)`
abbrev pub has_duplicate : List String → Bool
has_duplicate [] = false
has_duplicate (x ∷ xs) = contains xs x || has_duplicate xs

abbrev pub names_of : List Artifact → List String
names_of artifacts = map (λ (a : Artifact). a.projection_name) artifacts

abbrev pub bool_value : Bool → Json
bool_value true = text "true"
bool_value false = text "false"

-- `ProjectionArtifact.to_mapping`
abbrev artifact_value : Artifact → Json
artifact_value a = object (
    members (
      ("artifact_digest", text a.artifact_digest)
      ∷ ("projection_name", text a.projection_name)
      ∷ ("record_count", text a.record_count)
      ∷ ("records_root", text a.records_root)
      ∷ ("required", bool_value a.required)
      ∷ ("schema_version", text a.schema_version)
      ∷ ("source_generation_id", text a.source_generation_id)
      ∷ ("workspace_id", text a.workspace_id)
      ∷ []))

abbrev pub staging_version : String
staging_version = "phase3-projection-staging-v1"

-- `digest` is `sha256(canonical_bytes(body)).hexdigest()`
module _ (digest : Json → String) where
  abbrev manifest_body : String → String → List Artifact → Json
  manifest_body ws g ordered = object (
      members (
        ("artifacts", array (items (map artifact_value ordered)))
        ∷ ("schema_version", text staging_version)
        ∷ ("source_generation_id", text g)
        ∷ ("workspace_id", text ws)
        ∷ []))

  -- `ProjectionStagingManifest.create`
  unfoldable pub create : String → String → List Artifact → Option StagingManifest
  unfolding sort leb_text
  create ws g artifacts =
      let ordered = sort (λ a b. leb_text a.projection_name b.projection_name) artifacts in
      if is_empty ws || is_empty g || is_nil ordered
      then none
      else if has_duplicate (names_of ordered)
      then none
      else if any (λ (a : Artifact). not (a.workspace_id =s ws)) ordered
      then none
      else if any (λ (a : Artifact). not (a.source_generation_id =s g)) ordered
      then none
      else some record {
        schema_version = staging_version;
        workspace_id = ws;
        source_generation_id = g;
        artifacts = ordered;
        manifest_digest = digest (manifest_body ws g ordered);
      }

-- `InMemoryProjectionPointerStore`
pub record Store : Type 0 where
  pub pointers : List Pointer
  pub lkg : List Pointer
  pub staged : List StagingManifest

abbrev pub key_of : Pointer → String × String
key_of p = (p.workspace_id, p.projection_name)

unfoldable pub current : String → String → Store → Option Pointer
unfolding find
current ws name s = find Key-discrete key_of (ws, name) s.pointers

unfoldable pub last_known_good : String → String → Store → Option Pointer
unfolding find
last_known_good ws name s = find Key-discrete key_of (ws, name) s.lkg

abbrev pub staged_at : String → Store → Option StagingManifest
staged_at d s = find String-discrete (λ (m : StagingManifest). m.manifest_digest) d s.staged

abbrev is_same : Option StagingManifest → StagingManifest → Bool
is_same none m = true
is_same (some x) m = holds (StagingManifest-discrete x m)

-- "staging manifest digest collision"
unfoldable pub stage : StagingManifest → Store → Option Store
unfolding find put
stage m s =
    if is_same (staged_at m.manifest_digest s) m
    then some record s {
      staged = put String-discrete (λ (x : StagingManifest). x.manifest_digest) m s.staged;
    }
    else none

-- `{item.projection_name: item for item in manifest.artifacts}`
unfoldable pub by_name : List Artifact → List Artifact → List Artifact
unfolding put
by_name table [] = table
by_name table (a ∷ rest) =
    by_name (put String-discrete (λ (x : Artifact). x.projection_name) a table) rest

abbrev pub is_bound : String → List Artifact → Artifact → Bool
is_bound ws table a =
    a.workspace_id =s ws
    && elim (find String-discrete (λ (x : Artifact). x.projection_name) a.projection_name table) [
      | none ↦ false
      | some x ↦ holds (Artifact-discrete x a)
    ]

-- `_assert_staged`
unfoldable pub assert_staged : String → String → List Artifact → Store → Option StagingManifest
unfolding find by_name
assert_staged ws d artifacts s = staged_at d s >>= λ m.
    if not (m.workspace_id =s ws)
    then none
    else if any (λ a. not (is_bound ws (by_name [] m.artifacts) a)) artifacts
    then none
    else some m

abbrev pub pointer_of : String → Artifact → Pointer
pointer_of d a = record {
  projection_name = a.projection_name;
  workspace_id = a.workspace_id;
  generation_id = a.source_generation_id;
  artifact_digest = a.artifact_digest;
  staging_manifest_digest = d;
}

-- `pointers.update({key: pointer for item in artifacts})`
abbrev pub update_all : String → List Artifact → List Pointer → List Pointer
update_all d [] ps = ps
update_all d (a ∷ rest) ps = update_all d rest (put Key-discrete key_of (pointer_of d a) ps)

abbrev pub same_pointer : Option Pointer → Option Pointer → Bool
same_pointer none none = true
same_pointer (some p) (some q) = holds (Pointer-discrete p q)
same_pointer _ _ = false

-- `expected[name]`
abbrev expected_at : String → List (String × Option Pointer) → Option Pointer
expected_at name expected =
    elim (find String-discrete (λ (e : String × Option Pointer). e.0) name expected) [
      | none ↦ none
      | some e ↦ e.1
    ]

abbrev pub moved : String → String → List (String × Option Pointer) → Store → Bool
moved ws name expected s = not (same_pointer (current ws name s) (expected_at name expected))

-- The answer and the store afterwards; the guards come before every update.
unfoldable pub publish_required :
    String → String → List (String × Option Pointer) → List Artifact → Store → Option (Bool × Store)
unfolding assert_staged current find put are_minimum
publish_required ws d expected artifacts s = assert_staged ws d artifacts s >>= λ m.
    if not (are_minimum (names_of artifacts)) || any (λ (a : Artifact). not a.required) artifacts
    then none
    else if not (are_minimum (map (λ (e : String × Option Pointer). e.0) expected))
    then none
    else if moved ws identity expected s || moved ws chronology expected s
    then some (false, s)
    else some (
      true,
      record s { pointers = update_all d artifacts s.pointers; lkg = update_all d artifacts s.lkg },
    )

unfoldable pub publish_optional :
    String → String → Option Pointer → Artifact → Store → Option (Bool × Store)
unfolding assert_staged current find put
publish_optional ws d expected a s = assert_staged ws d (a ∷ []) s >>= λ m.
    if a.required || is_minimum a.projection_name
    then none
    else if same_pointer (current ws a.projection_name s) expected
    then some (
      true,
      record s {
        pointers = put Key-discrete key_of (pointer_of d a) s.pointers;
        lkg = put Key-discrete key_of (pointer_of d a) s.lkg;
      },
    )
    else some (false, s)
