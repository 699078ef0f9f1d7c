-- ===== src/Publish/Service.antt =====
-- `activate_prepared`, `repair_published_generation` and the retry loop `publish` of publish.py.
-- Other publishers may commit between a preparation and its activation: `others n` is what they do
-- to the database in attempt `n`.
pub mod Retry
pub mod Success
pub mod Uncontended
pub mod Additive
use wiki_spike.Base.{
  ℕ, ◌+◌, ◌-◌, zero, suc, String, Bool, true, false, not, ◌&&◌, Option, none, some, List, [], ◌∷◌,
  ◌=o◌, if◌then◌else◌,
}
use wiki_spike.Exec.{
  Error, Exec, Result, ok, err, pure, raise, gets, cas_conflict, pointer_moved, ◌>>=◌, ◌>>◌,
}
use wiki_spike.Models.{CompiledClaim}
use wiki_spike.ControlPlane.Schema.{Db, GenerationState, published}
use wiki_spike.ControlPlane.Generations.{generation_state, generation_commit}
use wiki_spike.ControlPlane.Activation.{activate}
use wiki_spike.Publish.Builder.{Builder, Candidate, Site, on_repo, on_db, write_db}
use wiki_spike.Publish.Materialize.{post_publish}
use wiki_spike.Publish.Prepare.{
  Prepared, Request, ExpectedParent, any_parent, exactly, load_snapshot, prepare,
}

pub record PublishResult : Type 0 where
  pub generation_id : Option String
  pub candidate_commit_oid : Option String
  pub release_commit_oid : Option String
  pub attempts : ℕ
  pub noop : Bool

abbrev pub nothing_published : ℕ → PublishResult
nothing_published attempts = record {
  generation_id = none;
  candidate_commit_oid = none;
  release_commit_oid = none;
  attempts = attempts;
  noop = true;
}

abbrev pub published_result : Candidate → String → ℕ → PublishResult
published_result c release_oid attempts = record {
  generation_id = some c.generation_id;
  candidate_commit_oid = some c.commit_oid;
  release_commit_oid = some release_oid;
  attempts = attempts;
  noop = false;
}

abbrev pub is_published : Option GenerationState → Bool
is_published (some published) = true
is_published _ = false

-- `current == candidate.generation_id and state == "published"`
abbrev pub is_active : String → Db → Bool
is_active id db = db.current_generation_id =o some id && is_published (generation_state id db)

unfoldable pub activate_candidate : Prepared → Candidate → String → Exec Db PublishResult
activate_candidate p c release_oid = do
  active ← gets (is_active c.generation_id)
  if active then pure tt else activate c.generation_id p.parent_generation_id release_oid
  post_publish c.generation_id p.surviving p.revoked_claim_ids
  pure (published_result c release_oid p.attempts)

-- `prepared.noop or prepared.candidate is None or prepared.release_commit_oid is None`
abbrev activate_parts : Prepared → Bool → Option Candidate → Option String → Exec Db PublishResult
activate_parts p false (some c) (some release_oid) = activate_candidate p c release_oid
activate_parts p _ _ _ = pure (nothing_published p.attempts)

unfoldable pub activate_prepared : Prepared → Exec Db PublishResult
unfolding activate_candidate
activate_prepared p = activate_parts p p.noop p.candidate p.release_commit_oid

-- CASConflict
abbrev pub is_cas : Error → Bool
is_cas cas_conflict = true
is_cas pointer_moved = true
is_cas _ = false

abbrev pub is_strict : ExpectedParent → Bool
is_strict any_parent = false
is_strict (exactly expected) = true

module _ {R : Type 0} (builder : Builder R) where
  unfoldable pub repair_published_generation : String → Exec (Site R) Unit
  repair_published_generation id = do
    commit ← gets (λ s. generation_commit id s.db)
    claims ← load_snapshot builder id commit
    on_db (post_publish id claims [])

  module _ (others : ℕ → Db → Db) where
    unfoldable pub attempt : Request → ℕ → Exec (Site R) PublishResult
    attempt q n = do p ← prepare builder q n; write_db (others n); on_db (activate_prepared p)

    -- What the loop does with the outcome of an attempt: `retry` is the next round.
    unfoldable pub settle_attempt :
        Bool → Exec (Site R) PublishResult → Result PublishResult → Exec (Site R) PublishResult
    settle_attempt again retry (ok r) s = (ok r, s)
    settle_attempt again retry (err e) s = if is_cas e && again then retry s else (err e, s)

    -- With `left` rounds to come after attempt `n`.
    unfoldable pub publish_from : ℕ → Request → ℕ → Exec (Site R) PublishResult
    unfolding attempt settle_attempt
    publish_from zero q n s =
        let (r, s') = attempt q n s in settle_attempt false (raise cas_conflict) r s'
    publish_from (suc left) q n s =
        let (r, s') = attempt q n s in
        settle_attempt (not (is_strict q.expected)) (publish_from left q (n + 1)) r s'

    -- `attempts >= max_retries` ends the loop, so attempt 1 is always made.
    unfoldable pub publish : Request → ℕ → Exec (Site R) PublishResult
    unfolding publish_from
    publish q max_retries = publish_from (max_retries - 1) q 1
