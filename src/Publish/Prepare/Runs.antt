-- ===== src/Publish/Prepare/Runs.antt =====
-- The two ways in which a preparation succeeds: nothing changes, or a candidate is built.
use wiki_spike.Base.{ℕ, ◌≡◌, ◌⊎◌, inl, inr, none, List, arith, true, false, Bool-cases}
use wiki_spike.Exec.{Result-cases, ok}
use wiki_spike.Models.{CompiledClaim}
use wiki_spike.ControlPlane.Claims.{upsert_all}
use wiki_spike.Publish.Builder.{Builder, Site}
use wiki_spike.Publish.Survivors.{survivors, same_assertions}
use wiki_spike.Publish.Prepare.{
  Prepared, Request, is_stale, parent_claims, prepared, build, prepare,
}
use wiki_spike.Publish.Prepare.Safe.{parent_claims-state}

module _ {R : Type 0} (builder : Builder R) where
  abbrev pub stored : Request → Site R → Site R
  stored q s = record s { db = upsert_all q.new_claims s.db }

  pub record Run (q : Request) (n : ℕ) (s : Site R) (p : Prepared) : Type 0 where
    pub parents : List CompiledClaim
    pub read : (parent_claims builder s.db.current_generation_id (stored q s)).0 ≡ ok parents
    pub current : is_stale q.expected s.db.current_generation_id ≡ false
    pub outcome :
        ((same_assertions (survivors parents q.new_claims q.revokes) parents ≡ true)
          × (p
              ≡ prepared builder q n s.db.current_generation_id
                  (survivors parents q.new_claims q.revokes)
                  none
                  none
                  true)
          × ((prepare builder q n s).1 ≡ stored q s))
        ⊎ ((same_assertions (survivors parents q.new_claims q.revokes) parents ≡ false)
            × ((build builder q n s.db.current_generation_id
                  (survivors parents q.new_claims q.revokes)
                  (stored q s)).0
                ≡ ok p)
            × ((prepare builder q n s).1
                ≡ (build builder q n s.db.current_generation_id
                    (survivors parents q.new_claims q.revokes)
                    (stored q s)).1))

  pub prepare_ok :
      (q : Request) (n : ℕ) (s : Site R) (p : Prepared)
      → (prepare builder q n s).0 ≡ ok p
      → Run q n s p
  unfolding prepare
  prepare_ok q n s p h =
      let parent = s.db.current_generation_id in
      let same = parent_claims-state builder parent (stored q s) in
      elim (Bool-cases (is_stale q.expected parent)) [
        | inl stale ↦ absurd (ground arith)
        | inr current ↦ elim (Result-cases (parent_claims builder parent (stored q s)).0) [
          | inr (e, failed) ↦ absurd (ground arith)
          | inl (parents, done) ↦ record {
            parents = parents;
            read = done;
            current = current;
            outcome =
                elim (Bool-cases
                  (same_assertions (survivors parents q.new_claims q.revokes) parents)) [
                    | inl kept ↦ inl (kept, ground arith, ground arith)
                    | inr changed ↦ inr (changed, ground arith, ground arith)
                  ];
          }
        ]
      ]
