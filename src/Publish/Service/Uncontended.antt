-- ===== src/Publish/Service/Uncontended.antt =====
-- `publish` where nobody else commits in between.
use wiki_spike.Base.{
  In, Bool-cases, inl, inr, ℕ, zero, suc, ◌-◌, String, Bool, ◌≡◌, ◌≢◌, refl, ap, ◌∙◌, Option, none,
  some, arith, true, false, map,
}
use wiki_spike.Exec.{ok}
use wiki_spike.ControlPlane.Schema.{Db, accepted, retracted}
use wiki_spike.ControlPlane.Generations.{generation_row}
use wiki_spike.ControlPlane.Search.{SearchEntry, resolution_state}
use wiki_spike.ControlPlane.Activation.{enqueue}
use wiki_spike.ControlPlane.Activation.Atomic.{activated}
use wiki_spike.Publish.Builder.{Builder, Candidate, Site, IsFaithful}
use wiki_spike.Publish.Survivors.{claim_of, contains, sorted_set}
use wiki_spike.Publish.Prepare.{Prepared, Request, build, prepare}
use wiki_spike.Publish.Prepare.Runs.{prepare_ok}
use wiki_spike.Publish.Prepare.Safe.{public_state, prepare-public}
use wiki_spike.SearchService.{query}
use wiki_spike.SearchService.Compatibility.{query-hits_iff}
use wiki_spike.Publish.Survivors.Sets.{contains-sorted_set}
use wiki_spike.Base.Int.{ℤ}
use wiki_spike.Publish.Prepare.Complete.{prepare-IsReady}
use wiki_spike.Publish.Service.{
  PublishResult, published_result, nothing_published, activate_prepared, attempt, publish_from,
  settle_attempt, publish,
}
use wiki_spike.Publish.Service.Success.{IsComplete, activate_prepared-IsReady}

-- What a reader finds after the publication of `c`.
pub record IsPublished (p : Prepared) (c : Candidate) (oid : String) (db : Db) : Type 0 where
  pub current : db.current_generation_id ≡ some c.generation_id
  pub release : db.current_release_commit_oid ≡ some oid
  pub search : db.current_search_generation_id ≡ some c.generation_id
  pub revoked :
      (d : String)
      → contains p.revoked_claim_ids d ≡ true
      → resolution_state c.generation_id d db ≡ some retracted
  pub surviving :
      (d : String)
      → contains p.revoked_claim_ids d ≡ false
      → contains (map claim_of p.surviving) d ≡ true
      → resolution_state c.generation_id d db ≡ some accepted

activated-pointer :
    (id : String) (expected : Option String) (oid : String) (db : Db)
    → ((activated id expected oid db).current_generation_id ≡ some id)
      × ((activated id expected oid db).current_release_commit_oid ≡ some oid)
unfolding activated enqueue
activated-pointer id expected oid db = (refl, refl)

module _ {R : Type 0} (builder : Builder R) (others : ℕ → Db → Db) where
  from_ok :
      (left : ℕ) (q : Request) (n : ℕ) (s : Site R) (r : PublishResult)
      → (attempt builder others q n s).0 ≡ ok r
      → publish_from builder others left q n s ≡ attempt builder others q n s
  unfolding publish_from settle_attempt
  from_ok zero q n s r h = ground arith
  from_ok (suc left) q n s r h = ground arith

  pub prepare-revoked :
      (q : Request) (n : ℕ) (s : Site R) (p : Prepared)
      → (prepare builder q n s).0 ≡ ok p
      → p.revoked_claim_ids ≡ sorted_set q.revokes
  unfolding build
  prepare-revoked q n s p h = elim (prepare_ok builder q n s p h).outcome [
    | inl (kept, empty, left) ↦ ap (λ (x : Prepared). x.revoked_claim_ids) empty
    | inr (changed, done, left) ↦ ground arith
  ]

  -- With a faithful builder, and with no other publisher that commits between the preparation and the
  -- activation, a publication whose preparation built a candidate under a free generation id succeeds
  -- in its first attempt. Both pointers then name the new generation, which retracts the revoked
  -- claims and accepts the other surviving ones.
  pub publish_uncontended :
      IsFaithful builder
      → ((n : ℕ) (db : Db) → others n db ≡ db)
      → (q : Request) (max_retries : ℕ) (s : Site R) (p : Prepared) (c : Candidate) (oid : String)
      → (prepare builder q 1 s).0 ≡ ok p
      → IsComplete p c oid
      → generation_row c.generation_id s.db ≡ none
      → oid ≢ ""
      → ((publish builder others q max_retries s).0 ≡ ok (published_result c oid p.attempts))
        × IsPublished p c oid (publish builder others q max_retries s).1.db
  unfolding publish attempt
  publish_uncontended faithful quiet q max_retries s p c oid done whole fresh named =
      let db = (prepare builder q 1 s).1.db in
      let ready =
        prepare-IsReady builder faithful q 1 s p done c oid whole.candidate whole.release fresh
          named in
      let success = activate_prepared-IsReady p c oid db whole ready in
      let (at, rel) = activated-pointer c.generation_id p.parent_generation_id oid db in
      let first : (attempt builder others q 1 s).0 ≡ ok (published_result c oid p.attempts) =
        rw (done, quiet 1 db, success.result) refl in
      let w = success.written in
      let published : IsPublished p c oid (activate_prepared p db).1 = record {
        current = w.core.current ∙ at;
        release = w.core.release ∙ rel;
        search = w.search_pointer;
        revoked = λ d h. w.states d ∙ rw h refl;
        surviving = λ d h k. w.states d ∙ rw (h, k) refl;
      } in
      let same = from_ok (max_retries - 1) q 1 s (published_result c oid p.attempts) first in
      (rw same first, rw same (rw (done, quiet 1 db) published))

  -- Where the preparation finds that no assertion changes, the publication says so and changes nothing
  -- that a reader sees.
  pub publish_noop :
      ((n : ℕ) (db : Db) → others n db ≡ db)
      → (q : Request) (max_retries : ℕ) (s : Site R) (p : Prepared)
      → (prepare builder q 1 s).0 ≡ ok p
      → p.noop ≡ true
      → ((publish builder others q max_retries s).0 ≡ ok (nothing_published p.attempts))
        × (public_state (publish builder others q max_retries s).1.db ≡ public_state s.db)
  unfolding publish attempt activate_prepared
  publish_noop quiet q max_retries s p done noop =
      let db = (prepare builder q 1 s).1.db in
      let first : (attempt builder others q 1 s).0 ≡ ok (nothing_published p.attempts) =
        rw (done, quiet 1 db, noop) refl in
      let kept : public_state (attempt builder others q 1 s).1.db ≡ public_state s.db =
        rw (done, quiet 1 db, noop) (prepare-public builder q 1 s) in
      let same = from_ok (max_retries - 1) q 1 s (nothing_published p.attempts) first in
      (rw same first, rw same kept)

  -- With a faithful builder and no other publisher in between, after a publication whose preparation
  -- built a candidate under a free generation id and a named release commit, no query returns a claim that
  -- it revoked, whatever is searched for and however far the index lags.
  pub publish_revokes :
      IsFaithful builder
      → ((n : ℕ) (db : Db) → others n db ≡ db)
      → (q : Request) (max_retries : ℕ) (s : Site R) (p : Prepared) (c : Candidate) (oid : String)
      → (prepare builder q 1 s).0 ≡ ok p
      → IsComplete p c oid
      → generation_row c.generation_id s.db ≡ none
      → oid ≢ ""
      → (like : String → String → Bool) (max_lag : ℤ) (term : String) (e : SearchEntry)
      → In e (query like max_lag term (publish builder others q max_retries s).1.db).hits
      → contains q.revokes e.claim_id ≡ false
  publish_revokes faithful quiet q max_retries s p c oid done whole fresh named like max_lag term e
        m =
      let db = (publish builder others q max_retries s).1.db in
      let published =
        (publish_uncontended faithful quiet q max_retries s p c oid done whole fresh named).1 in
      let hit =
        (query-hits_iff like max_lag term db e c.generation_id c.generation_id published.search
            published.current).0
          m in
      let revoked = published.revoked e.claim_id in
      let same = contains-sorted_set q.revokes e.claim_id in
      let set = prepare-revoked q 1 s p done in
      elim (Bool-cases (contains q.revokes e.claim_id)) [
        | inr b ↦ b
        | inl b ↦ absurd (ground arith)
      ]
