-- ===== src/Generation.antt =====
-- generation.py: the build of a candidate generation and the check of a generation from its commit. The
-- Git repository and the keys are records of operations; bytes are a type of the environment.
pub mod Verify
pub mod Bound
pub mod Pinned
pub mod Listing
pub mod Stored
pub mod Readback
pub mod Complete
pub mod Built
pub mod Anchor
pub mod Repository
pub mod Refined
mod Framing
mod Examples
mod Roundtrip
mod Rebuilt
use wiki_spike.Base.{
  String, Bool, Option, none, some, List, [], ◌∷◌, ◌++◌, map, String-discrete, if◌then◌else◌, ◌=s◌,
}
use wiki_spike.Base.Texts.{append, is_empty}
use wiki_spike.Exec.{
  Exec, Result, ok, err, raise, gets, pure, ◌>>=◌, ◌>>◌, Error, parent_not_found,
  ref_already_points_elsewhere,
}
use wiki_spike.Table.{put}
use wiki_spike.Models.{CompiledClaim}
use wiki_spike.Json.{Json, Members, text, array, object, member, empty, items, texts, members}
use wiki_spike.Assembler.{Encoding, canonical_hash}
use wiki_spike.Assembler.Pages.{render_pages, wiki_files_root}
use wiki_spike.Assembler.Citation.{build_citation_index}
use wiki_spike.Assembler.Snapshot.{build_snapshot}
use wiki_spike.Publish.Builder.{Binding}

-- gitrepo.GitRepo; `cat_file commit path` is `cat_file(f"{commit}:{path}")`, `none` where it raises
pub record Git (R B : Type 0) : Type 0 where
  pub write_tree_from_files : List (String × B) → Exec R String
  pub commit_tree : String → String → Option String → Exec R String
  pub read_ref : String → R → Option String
  pub create_ref_only : String → String → Exec R Unit
  pub cat_file : String → String → R → Option B
  pub ls_tree : String → R → List String

-- signing.Keyring; a signature is its hexadecimal text, and `none` stands for the exception of
-- bytes.fromhex
pub record Keyring : Type 0 where
  pub sign : String → String → Result String
  pub verify : String → String → String → Option Bool
  pub verify_domain : String → String → String → String → Option Bool

pub record CandidateResult : Type 0 where
  pub generation_id : String
  pub commit_oid : String
  pub retention_ref : String
  pub descriptor : Json
  pub manifest : Json
  pub wiki_files_root : String
  pub citation_index_digest : String
  pub knowledge_snapshot_digest : String

-- ENGINE_VERSIONS
abbrev pub engine_versions : Json
engine_versions = object (
    texts (
      ("chunker", "spike-chunker@0")
      ∷ ("container_image_digest", "spike")
      ∷ ("embedding_version", "n/a")
      ∷ ("engine_code_commit", "spike")
      ∷ ("extraction_model_id", "MOCK-DETERMINISTIC")
      ∷ ("parser", "spike-parser@0")
      ∷ ("prompt_hash", "n/a-deterministic")
      ∷ ("render_model_id", "DETERMINISTIC-ASSEMBLER")
      ∷ ("schema", "1")
      ∷ ("trust_policy", "spike-policy@0")
      ∷ ("verification_model_id", "MOCK-DETERMINISTIC")
      ∷ []))

abbrev binding_value : Binding → Json
binding_value b = object (
    members (
      ("changes_root", text b.changes_root)
      ∷ ("changeset_id", text b.changeset_id)
      ∷ ("command_ids", array (items (map text b.command_ids)))
      ∷ ("contract_version", text b.contract_version)
      ∷ ("object_refs", array (items (map text b.object_refs)))
      ∷ ("parent_generation_id", text b.parent_generation_id)
      ∷ ("workspace_id", text b.workspace_id)
      ∷ []))

-- `descriptor["accepted_changeset"] = changeset_binding`
abbrev with_binding : Option Binding → List (String × Json) → List (String × Json)
with_binding none fields = fields
with_binding (some b) fields = ("accepted_changeset", binding_value b) ∷ fields

abbrev pub citation_path : String
citation_path = "citation_index/index.json"

abbrev pub snapshot_path : String
snapshot_path = "knowledge/snapshot.json"

abbrev pub manifest_path : String → String
manifest_path g = append "manifest/" (append g ".json")

abbrev pub outbox_path : String → String
outbox_path g = append "outbox/" (append g ".json")

abbrev pub release_path : String → String
release_path g = append "release/" (append g ".json")

abbrev pub retention_ref_of : String → String
retention_ref_of g = append "refs/wiki/generations/" g

-- `x or ""`
abbrev or_empty : Option String → String
or_empty none = ""
or_empty (some x) = x

module _ {R B : Type 0} (encoding : Encoding B) (git : Git R B) (keyring : Keyring)
    (key_id profile : String) where
  abbrev pub inline_artifacts : String → String → String → Json
  inline_artifacts wroot cdigest sdigest = object (
      members (
        ("citation_index_digest", text cdigest)
        ∷ ("knowledge_snapshot_digest", text sdigest)
        ∷ ("wiki_files_root", text wroot)
        ∷ []))

  unfoldable pub descriptor_of : Option String → String → String → Json → Option Binding → Json
  descriptor_of parent source root inline binding = object (
      members (
        with_binding binding (
          ("accepted_claim_set_root", text root)
          ∷ ("engine_versions", engine_versions)
          ∷ ("inline_artifacts", inline)
          ∷ ("parent_generation_id", text (or_empty parent))
          ∷ ("publication_profile", text profile)
          ∷ ("schema_version", text "1")
          ∷ ("source_snapshot_hash", text source)
          ∷ [])))

  unfoldable pub manifest_of : Json → String → String → Json
  manifest_of descriptor g signature = object (
      members (
        ("descriptor", descriptor)
        ∷ ("generation_id", text g)
        ∷ ("signature", text signature)
        ∷ ("signer_key_id", text key_id)
        ∷ []))

  abbrev outbox_event : String → Json
  outbox_event g = object (
      members (
        ("event_id", text (encoding.sha256_hex (encoding.encode (append "ready:" g))))
        ∷ ("event_type", text "generation_ready_for_index")
        ∷ ("generation_id", text g)
        ∷ ("required_read_models", array (items (text "wiki_files" ∷ text "citation_index" ∷ [])))
        ∷ []))

  -- `files[path] = data`
  abbrev set_file : String → B → List (String × B) → List (String × B)
  set_file path bytes files = put String-discrete (λ (f : String × B). f.0) (path, bytes) files

  unfoldable pub files_of : List (String × B) → B → B → String → Json → List (String × B)
  files_of pages citation snapshot g manifest =
      set_file (outbox_path g) (encoding.canonical_bytes (outbox_event g)) (
        set_file (manifest_path g) (encoding.canonical_bytes manifest)
          (set_file snapshot_path snapshot (set_file citation_path citation pages)))

  -- The commit of the parent, where there is one
  unfoldable pub parent_commit_of : Option String → Exec R (Option String)
  parent_commit_of none = pure none
  parent_commit_of (some g) = if is_empty g then pure none else do
    found ← gets (git.read_ref (retention_ref_of g))
    elim found [ none ↦ raise parent_not_found | some commit ↦ pure (some commit) ]

  -- Create-only retention anchor
  unfoldable pub anchor : String → String → Exec R Unit
  anchor ref commit = do
    existing ← gets (git.read_ref ref)
    elim existing [
      | none ↦ git.create_ref_only ref commit
      | some other ↦ if other =s commit then pure tt else raise ref_already_points_elsewhere
    ]

  abbrev pub of_result : {A : Type 0} → Result A → Exec R A
  of_result r s = (r, s)

  -- The commit of the files, and its anchor
  unfoldable pub commit_files :
      List (String × B)
      → Option String
      → String
      → (String → CandidateResult)
      → Exec R CandidateResult
  unfolding parent_commit_of anchor
  commit_files files parent g candidate = do
    tree ← git.write_tree_from_files files
    parent_commit ← parent_commit_of parent
    commit ← git.commit_tree tree (append "gen " g) parent_commit
    anchor (retention_ref_of g) commit
    pure (candidate commit)

  abbrev citation_digest : List CompiledClaim → String
  citation_digest accepted = encoding.sha256_hex (build_citation_index encoding accepted)

  abbrev snapshot_digest : List CompiledClaim → String
  snapshot_digest accepted = encoding.sha256_hex (build_snapshot encoding accepted)

  unfoldable pub candidate_descriptor :
      List CompiledClaim → Option String → String → String → Option Binding → Json
  unfolding build_citation_index render_pages build_snapshot wiki_files_root descriptor_of
  candidate_descriptor accepted parent source root binding =
      let wroot = wiki_files_root encoding (render_pages encoding accepted) in
      descriptor_of parent source root
        (inline_artifacts wroot (citation_digest accepted) (snapshot_digest accepted)) binding

  abbrev pub candidate_of : List CompiledClaim → Json → String → String → CandidateResult
  candidate_of accepted descriptor signature commit =
      let g = canonical_hash encoding descriptor in
      record {
        generation_id = g;
        commit_oid = commit;
        retention_ref = retention_ref_of g;
        descriptor = descriptor;
        manifest = manifest_of descriptor g signature;
        wiki_files_root = wiki_files_root encoding (render_pages encoding accepted);
        citation_index_digest = citation_digest accepted;
        knowledge_snapshot_digest = snapshot_digest accepted;
      }

  unfoldable pub commit_candidate :
      List CompiledClaim → Option String → Json → String → Exec R CandidateResult
  unfolding build_citation_index render_pages build_snapshot manifest_of files_of commit_files
  commit_candidate accepted parent descriptor signature =
      let g = canonical_hash encoding descriptor in
      let files =
        files_of (render_pages encoding accepted) (build_citation_index encoding accepted)
          (build_snapshot encoding accepted) g (manifest_of descriptor g signature) in
      commit_files files parent g (candidate_of accepted descriptor signature)

  unfoldable pub build_candidate :
      List CompiledClaim → Option String → String → String → Option Binding → Exec R CandidateResult
  unfolding candidate_descriptor commit_candidate
  build_candidate accepted parent source root binding =
      let descriptor = candidate_descriptor accepted parent source root binding in
      of_result (keyring.sign key_id (canonical_hash encoding descriptor))
      >>= commit_candidate accepted parent descriptor
