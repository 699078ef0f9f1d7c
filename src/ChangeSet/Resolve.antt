-- ===== src/ChangeSet/Resolve.antt =====
-- `StoragePublicationAdapter._resolve`: a changeset is checked against the objects that it names.
use wiki_spike.Base.{
  String, Bool, true, false, not, ◌&&◌, ◌||◌, Option, none, some, List, [], ◌∷◌, ◌=s◌,
  if◌then◌else◌,
}
use wiki_spike.Base.Sorting.{sorted}
use wiki_spike.Exec.{
  Result, ok, err, changeset_incomplete, changeset_root_mismatch, changeset_binding_mismatch,
}
use wiki_spike.ChangeSet.{
  AcceptedChangeSet, ResolvedChangeObject, Hashes, contract_version_now, has_duplicate,
  claim_object_ref, compute_changes_root,
}

-- The equality of two tuples of texts.
abbrev pub same_texts : List String → List String → Bool
same_texts [] [] = true
same_texts (x ∷ xs) (y ∷ ys) = x =s y && same_texts xs ys
same_texts _ _ = false

module _ (hashes : Hashes) (resolver : String → String → Option ResolvedChangeObject) where
  unfoldable pub resolve_object : String → Option ResolvedChangeObject → Result ResolvedChangeObject
  resolve_object ref none = err changeset_incomplete
  resolve_object ref (some item) =
      if not (item.object_ref =s ref)
      then err changeset_binding_mismatch
      else if not (item.revision_hash =s hashes.compiled_claim_hash item.compiled_claim)
          || not (claim_object_ref hashes item.compiled_claim =s ref)
      then err changeset_binding_mismatch
      else ok item

  abbrev cons_result :
      Result ResolvedChangeObject
      → Result (List ResolvedChangeObject)
      → Result (List ResolvedChangeObject)
  cons_result (err e) rest = err e
  cons_result (ok item) (err e) = err e
  cons_result (ok item) (ok items) = ok (item ∷ items)

  unfoldable pub resolve_objects : String → List String → Result (List ResolvedChangeObject)
  unfolding resolve_object
  resolve_objects workspace [] = ok []
  resolve_objects workspace (ref ∷ refs) =
      cons_result (resolve_object ref (resolver workspace ref)) (resolve_objects workspace refs)

  unfoldable pub check_root :
      AcceptedChangeSet → Result (List ResolvedChangeObject) → Result (List ResolvedChangeObject)
  check_root c (err e) = err e
  check_root c (ok items) =
      let root =
        compute_changes_root hashes c.workspace_id c.parent_generation_id c.command_ids items in
      let id =
        hashes.identity_hash c.contract_version c.workspace_id c.parent_generation_id c.command_ids
          c.object_refs c.changes_root in
      if not (root =s c.changes_root)
      then err changeset_root_mismatch
      else if not (id =s c.changeset_id)
      then err changeset_binding_mismatch
      else ok items

  unfoldable pub resolve : AcceptedChangeSet → Result (List ResolvedChangeObject)
  unfolding check_root resolve_objects
  resolve c =
      if not (c.contract_version =s contract_version_now)
        || not (same_texts (sorted c.command_ids) c.command_ids)
        || not (same_texts (sorted c.object_refs) c.object_refs)
        || has_duplicate c.command_ids
        || has_duplicate c.object_refs
      then err changeset_incomplete
      else check_root c (resolve_objects c.workspace_id c.object_refs)
