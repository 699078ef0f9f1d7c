-- ===== src/ChangeSet.antt =====
-- memory_core/changeset_publication.py: accepted changesets, how they are built, and what they bind.
-- The hashes are parameters.
pub mod Resolve
pub mod Adapter
mod Examples
use Prim.Native.String.{◌++◌ as append_text}
use wiki_spike.Base.{
  String, Bool, true, false, not, ◌&&◌, ◌||◌, Option, none, some, List, [], ◌∷◌, map, contains,
  ◌=s◌, if◌then◌else◌, Key-discrete, String-discrete,
}
use wiki_spike.Base.Sorting.{sort, sorted}
use wiki_spike.Base.TextOrder.{leb_text}
use wiki_spike.Table.{find, put}
use wiki_spike.Exec.{Result, ok, err, changeset_incomplete}
use wiki_spike.Models.{CompiledClaim}

abbrev pub contract_version_now : String
contract_version_now = "phase3-core-v1"

pub record AcceptedChangeSet : Type 0 where
  pub contract_version : String
  pub changeset_id : String
  pub workspace_id : String
  pub parent_generation_id : Option String
  pub command_ids : List String
  pub object_refs : List String
  pub changes_root : String

pub record ResolvedChangeObject : Type 0 where
  pub object_ref : String
  pub revision_hash : String
  pub compiled_claim : CompiledClaim

-- The payload of `compute_changes_root`.
pub record ChangesPayload : Type 0 where
  pub workspace_id : String
  pub parent_generation_id : Option String
  pub command_ids : List String
  pub objects : List (String × String)

-- SHA-256 over canonical bytes, of each of the values that are hashed.
pub record Hashes : Type 0 where
  pub compiled_claim_hash : CompiledClaim → String
  pub changes_hash : ChangesPayload → String
  pub identity_hash : String → String → Option String → List String → List String → String → String
  pub source_hash : String → String → String

abbrev pub le_object : ResolvedChangeObject → ResolvedChangeObject → Bool
le_object a b = leb_text a.object_ref b.object_ref

abbrev is_empty {ℓ} : {A : Type ℓ} → List A → Bool
is_empty [] = true
is_empty (x ∷ xs) = false

-- `len(xs) != len(set(xs))`
abbrev pub has_duplicate : List String → Bool
has_duplicate [] = false
has_duplicate (x ∷ xs) = contains xs x || has_duplicate xs

module _ (hashes : Hashes) where
  unfoldable pub claim_object_ref : CompiledClaim → String
  claim_object_ref c =
      append_text "claim_assertion:"
        (append_text c.assertion.assertion_id (append_text ":" (hashes.compiled_claim_hash c)))

  unfoldable pub compute_changes_root :
      String → Option String → List String → List ResolvedChangeObject → String
  unfolding sort sorted
  compute_changes_root workspace parent commands objects = hashes.changes_hash (record {
    workspace_id = workspace;
    parent_generation_id = parent;
    command_ids = sorted commands;
    objects =
        map (λ (o : ResolvedChangeObject). (o.object_ref, o.revision_hash))
          (sort le_object objects);
  })

  abbrev pub changeset_of :
      String → Option String → List String → List String → String → AcceptedChangeSet
  changeset_of workspace parent commands refs root = record {
    contract_version = contract_version_now;
    changeset_id = hashes.identity_hash contract_version_now workspace parent commands refs root;
    workspace_id = workspace;
    parent_generation_id = parent;
    command_ids = commands;
    object_refs = refs;
    changes_root = root;
  }

  unfoldable pub build_changeset :
      String → Option String → List String → List ResolvedChangeObject → Result AcceptedChangeSet
  unfolding compute_changes_root
  build_changeset workspace parent command_ids objects =
      let commands = sorted command_ids in
      let refs = sorted (map (λ (o : ResolvedChangeObject). o.object_ref) objects) in
      if workspace =s "" || is_empty commands || is_empty refs
      then err changeset_incomplete
      else if has_duplicate commands || has_duplicate refs
      then err changeset_incomplete
      else ok (
          changeset_of workspace parent commands refs
            (compute_changes_root workspace parent commands objects))

  -- What `InMemoryChangeObjectStore.add` stores of a claim.
  abbrev pub object_of : CompiledClaim → ResolvedChangeObject
  object_of c = record {
    object_ref = claim_object_ref c;
    revision_hash = hashes.compiled_claim_hash c;
    compiled_claim = c;
  }
