-- ===== src/Publish/Release.antt =====
-- `_build_release_commit` of publish.py: the signed release manifest, and its ref, which is made once
-- and never moved.
use Prim.Native.String.{◌++◌ as append_text}
use wiki_spike.Base.{String, Option, none, some, [], ◌∷◌, ◌=s◌, if◌then◌else◌}
use wiki_spike.Exec.{Exec, pure, raise, gets, ref_already_points_elsewhere, ◌>>=◌, ◌>>◌}
use wiki_spike.Publish.Builder.{Builder, Candidate, ReleaseBody}

-- `previous_release_oid or ""`
abbrev pub or_empty : Option String → String
or_empty none = ""
or_empty (some s) = s

abbrev release_body : Candidate → Option String → ReleaseBody
release_body c previous = record {
  generation_id = c.generation_id;
  candidate_commit_oid = c.commit_oid;
  wiki_files = c.wiki_files_root;
  citation_index = c.citation_index_digest;
  previous_release_commit_oid = or_empty previous;
}

abbrev release_ref : String → String
release_ref id = append_text "refs/wiki/release-objects/" id

module _ {R : Type 0} (builder : Builder R) where
  -- `existing is None`, or another commit
  unfoldable pub anchor_release : String → String → Option String → Exec R String
  anchor_release ref oid none = do builder.create_ref_only ref oid; pure oid
  anchor_release ref oid (some existing) =
      if existing =s oid then pure oid else raise ref_already_points_elsewhere

  unfoldable pub build_release_commit : Candidate → Option String → Exec R String
  unfolding anchor_release
  build_release_commit c previous =
      let body = release_body c previous in
      let signature = builder.sign_domain "wiki.release.v1" (builder.canonical_hash body) in
      let path = append_text "release/" (append_text c.generation_id ".json") in
      do
        tree ← builder.write_tree_from_files ((path, builder.release_bytes body signature) ∷ [])
        oid ← builder.commit_tree tree (append_text "release " c.generation_id) c.commit_oid
        existing ← gets (builder.read_ref (release_ref c.generation_id))
        anchor_release (release_ref c.generation_id) oid existing
