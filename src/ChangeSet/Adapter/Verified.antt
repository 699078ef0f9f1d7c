-- ===== src/ChangeSet/Adapter/Verified.antt =====
-- What is published as new was checked: the parent, the objects, the root and the id.
use wiki_spike.Base.{
  String, ◌≡◌, ◌≢◌, inl, inr, Option, List, [], ◌∷◌, arith, All, map, Bool-cases, Option-cases,
  ◌=o◌, =o→eq,
}
use mathlib.Core.Path.{ap₂}
use wiki_spike.Exec.{Result-cases, ok}
use wiki_spike.ControlPlane.Schema.{Db}
use wiki_spike.Publish.Builder.{Binding, Builder, Site}
use wiki_spike.Publish.Prepare.{Prepared}
use wiki_spike.Publish.Service.{repair_published_generation}
use wiki_spike.ChangeSet.{
  AcceptedChangeSet, ResolvedChangeObject, Hashes, claim_object_ref, compute_changes_root,
}
use wiki_spike.ChangeSet.Resolve.{resolve_object, resolve_objects, resolve}
use wiki_spike.ChangeSet.Adapter.{
  CoreResult, core_ok, replayed, prepare_changeset, publish_changeset, current_changeset_matches,
  replay_changeset,
}

module _ (hashes : Hashes) (resolver : String → String → Option ResolvedChangeObject) where
  -- The object is named by its content.
  abbrev pub IsIntact : ResolvedChangeObject → Type 0
  IsIntact o =
      (claim_object_ref hashes o.compiled_claim ≡ o.object_ref)
      × (o.revision_hash ≡ hashes.compiled_claim_hash o.compiled_claim)

  -- The items are those that the changeset names, and its root and id are those of its content.
  pub record IsVerified (c : AcceptedChangeSet) (items : List ResolvedChangeObject) : Type 0 where
    pub refs : map (λ (o : ResolvedChangeObject). o.object_ref) items ≡ c.object_refs
    pub intact : All IsIntact items
    pub root :
        compute_changes_root hashes c.workspace_id c.parent_generation_id c.command_ids items
        ≡ c.changes_root
    pub id :
        hashes.identity_hash c.contract_version c.workspace_id c.parent_generation_id c.command_ids
          c.object_refs c.changes_root
        ≡ c.changeset_id

  resolve_object-IsIntact :
      (ref : String) (found : Option ResolvedChangeObject) (o : ResolvedChangeObject)
      → resolve_object hashes resolver ref found ≡ ok o
      → (o.object_ref ≡ ref) × IsIntact o
  unfolding resolve_object
  resolve_object-IsIntact ref found o h = ground arith

  objects-IsIntact :
      (workspace : String) (names : List String) (items : List ResolvedChangeObject)
      → resolve_objects hashes resolver workspace names ≡ ok items
      → (map (λ (o : ResolvedChangeObject). o.object_ref) items ≡ names) × All IsIntact items
  unfolding resolve_objects
  objects-IsIntact workspace [] items h = ground arith
  objects-IsIntact workspace (ref ∷ names) items h =
      elim (Result-cases (resolve_object hashes resolver ref (resolver workspace ref))) [
        | inr (e, failed) ↦ absurd (ground arith)
        | inl (o, done) ↦ elim (Result-cases (resolve_objects hashes resolver workspace names)) [
          | inr (e, failed) ↦ absurd (ground arith)
          | inl (os, rest) ↦
              let (named, whole) = resolve_object-IsIntact ref (resolver workspace ref) o done in
              let (others, all) = objects-IsIntact workspace names os rest in
              let same : items ≡ o ∷ os = ground arith in
              rw same (ap₂ (λ x xs. x ∷ xs) named others, (whole, all))
        ]
      ]

  -- A changeset that resolves is verified: its objects are those that it names, each named by its own
  -- content, and its root and its id are the hashes of its content.
  pub resolve-IsVerified :
      (c : AcceptedChangeSet) (items : List ResolvedChangeObject)
      → resolve hashes resolver c ≡ ok items
      → IsVerified c items
  unfolding resolve
  resolve-IsVerified c items h =
      elim (Result-cases (resolve_objects hashes resolver c.workspace_id c.object_refs)) [
        | inr (e, failed) ↦ absurd (ground arith)
        | inl (os, done) ↦
            let same : items ≡ os = ground arith in
            let (named, whole) = objects-IsIntact c.workspace_id c.object_refs os done in
            record {
              refs = rw same named;
              intact = rw same whole;
              root = ground arith;
              id = ground arith;
            }
      ]

module _ {R : Type 0} (builder : Builder R) (hashes : Hashes)
    (resolver : String → String → Option ResolvedChangeObject)
    (manifest_binding : String → String → R → Option Binding) where
  prepare_changeset-IsVerified :
      (c : AcceptedChangeSet) (s : Site R) (p : Prepared)
      → (prepare_changeset builder hashes resolver manifest_binding c s).0 ≡ ok p
      → (s.db.current_generation_id ≡ c.parent_generation_id)
        × (items : List ResolvedChangeObject) × IsVerified hashes resolver c items
  unfolding prepare_changeset
  prepare_changeset-IsVerified c s p h =
      elim (Bool-cases (s.db.current_generation_id =o c.parent_generation_id)) [
        | inr stale ↦ absurd (ground arith)
        | inl current ↦ elim (Result-cases (resolve hashes resolver c)) [
          | inr (e, failed) ↦ absurd (ground arith)
          | inl (items, done) ↦
              (=o→eq _ _ current, items, resolve-IsVerified hashes resolver c items done)
        ]
      ]

  -- A changeset that is published, and not found to be published already, was verified, and its parent
  -- was the current generation.
  pub publish_changeset-IsVerified :
      (others : Db → Db) (c : AcceptedChangeSet) (s : Site R) (r : CoreResult)
      → (publish_changeset builder hashes resolver manifest_binding others c s).0 ≡ ok r
      → r.status ≡ core_ok
      → r.details ≢ replayed
      → (s.db.current_generation_id ≡ c.parent_generation_id)
        × (items : List ResolvedChangeObject) × IsVerified hashes resolver c items
  unfolding publish_changeset replay_changeset
  publish_changeset-IsVerified others c s r h fine new =
      elim (Option-cases (current_changeset_matches builder hashes resolver manifest_binding c s)) [
        | inr (id, there) ↦ elim (Result-cases (repair_published_generation builder id s).0) [
          | inr (e, failed) ↦ absurd (ground arith)
          | inl (u, done) ↦ absurd (ground arith)
        ]
        | inl absent ↦
            elim (Result-cases (prepare_changeset builder hashes resolver manifest_binding c s).0) [
              | inr (e, failed) ↦ absurd (ground arith)
              | inl (p, done) ↦ prepare_changeset-IsVerified c s p done
            ]
      ]
