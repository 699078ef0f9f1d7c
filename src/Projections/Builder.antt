-- ===== src/Projections/Builder.antt =====
-- memory_core/projections.py: `DeterministicProjectionBuilder`.
use wiki_spike.Base.{
  ℕ, String, Bool, true, false, not, ◌&&◌, ◌||◌, Option, none, some, List, [], ◌∷◌, map, any,
  length, if◌then◌else◌, ◌=s◌,
}
use wiki_spike.Base.TextOrder.{leb_text, ltb_text}
use wiki_spike.Base.Texts.{is_empty}
use wiki_spike.Base.Sorting.{sort}
use wiki_spike.Json.{Json, null, text, array, object, items, members}
use wiki_spike.Projections.{Artifact, identity, chronology, bool_value}

pub record Record : Type 0 where
  pub object_id : String
  pub workspace_id : String
  pub revision_id : String
  pub kind : String
  pub lifecycle_status : String
  pub captured_at : String
  pub occurred_at : Option String
  pub contents : Json

pub record Spec : Type 0 where
  pub name : String
  pub schema_version : String
  pub required : Bool

-- Python's order of tuples of texts
abbrev pub leb_texts : List String → List String → Bool
leb_texts [] t = true
leb_texts (a ∷ s) [] = false
leb_texts (a ∷ s) (b ∷ t) = ltb_text a b || (a =s b && leb_texts s t)

abbrev option_value : Option String → Json
option_value none = null
option_value (some s) = text s

-- `_identity`
abbrev identity_value : Record → Json
identity_value r = object (
    members (
      ("kind", text r.kind)
      ∷ ("lifecycle_status", text r.lifecycle_status)
      ∷ ("object_id", text r.object_id)
      ∷ ("revision_id", text r.revision_id)
      ∷ ("workspace_id", text r.workspace_id)
      ∷ []))

-- `record.occurred_at or record.captured_at`
abbrev pub timeline_at : Record → String
timeline_at r = elim r.occurred_at [
  | none ↦ r.captured_at
  | some at ↦ if is_empty at then r.captured_at else at
]

-- `_chronology`
abbrev chronology_value : Record → Json
chronology_value r = object (
    members (
      ("captured_at", text r.captured_at)
      ∷ ("lifecycle_status", text r.lifecycle_status)
      ∷ ("object_id", text r.object_id)
      ∷ ("revision_id", text r.revision_id)
      ∷ ("timeline_at", text (timeline_at r))
      ∷ ("workspace_id", text r.workspace_id)
      ∷ []))

abbrev record_value : Record → Json
record_value r = object (
    members (
      ("captured_at", text r.captured_at)
      ∷ ("data", r.contents)
      ∷ ("kind", text r.kind)
      ∷ ("lifecycle_status", text r.lifecycle_status)
      ∷ ("object_id", text r.object_id)
      ∷ ("occurred_at", option_value r.occurred_at)
      ∷ ("revision_id", text r.revision_id)
      ∷ ("workspace_id", text r.workspace_id)
      ∷ []))

abbrev by_object : Record → List String
by_object r = r.object_id ∷ r.revision_id ∷ []

abbrev by_time : Record → List String
by_time r = timeline_at r ∷ r.object_id ∷ r.revision_id ∷ []

abbrev sorted_by : (Record → List String) → List Record → List Record
sorted_by key records = sort (λ a b. leb_texts (key a) (key b)) records

-- The projected records, sorted: the keys of a projected record are those of the record.
unfoldable pub projected : String → List Record → List Json
unfolding sort leb_text
projected name records =
    if name =s identity
    then map identity_value (sorted_by by_object records)
    else if name =s chronology
    then map chronology_value (sorted_by by_time records)
    else map record_value (sorted_by by_object records)

-- `digest` is `sha256(canonical_bytes(body)).hexdigest()` and `decimal` is `str` of a number
module _ (digest : Json → String) (decimal : ℕ → String) where
  abbrev pub records_root : String → List Json → String
  records_root ws values =
      digest (object (members (("records", array (items values)) ∷ ("workspace_id", text ws) ∷ [])))

  abbrev artifact_body : Spec → String → String → String → String → Json
  artifact_body spec ws g root count = object (
      members (
        ("projection_name", text spec.name)
        ∷ ("record_count", text count)
        ∷ ("records_root", text root)
        ∷ ("required", bool_value spec.required)
        ∷ ("schema_version", text spec.schema_version)
        ∷ ("source_generation_id", text g)
        ∷ ("workspace_id", text ws)
        ∷ []))

  unfoldable pub build : Spec → String → String → List Record → Option Artifact
  unfolding projected
  build spec ws g records =
      let values = projected spec.name records in
      let root = records_root ws values in
      let count = decimal (length values) in
      if is_empty ws || is_empty g
      then none
      else if any (λ (r : Record). not (r.workspace_id =s ws)) records
      then none
      else some record {
        projection_name = spec.name;
        workspace_id = ws;
        source_generation_id = g;
        schema_version = spec.schema_version;
        required = spec.required;
        artifact_digest = digest (artifact_body spec ws g root count);
        records_root = root;
        record_count = count;
      }
