-- ===== src/SearchService/Compatibility.antt =====
-- What a reader of a lagging index can see: only claims that the current generation accepts.
use wiki_spike.Base.{
  String, Bool, true, ◌≡◌, ◌≢◌, ◌⊎◌, ◌↔◌, ◌∙◌, inl, inr, none, some, [], arith, In, In-select,
  Key-discrete, Option-cases,
}
use wiki_spike.Base.Int.{ℤ, ◌<ℤ◌}
use wiki_spike.Exec.{ok}
use wiki_spike.Table.{find-insert_or_replace}
use wiki_spike.ControlPlane.Schema.{Db, accepted, retracted, resolution_key, ResolutionState}
use wiki_spike.ControlPlane.Search.{
  SearchEntry, resolution_state, record_resolution, search_index_lookup,
}
use wiki_spike.SearchService.{accepted_in, lag, query}

module _ (like : String → String → Bool) (max_lag : ℤ) (term : String) where
  -- Where both pointers are set, a claim is returned exactly when the index of the search generation
  -- matches it, the current wiki generation accepts it, and the lag is allowed.
  pub query-hits_iff :
      (db : Db) (e : SearchEntry) (s w : String)
      → db.current_search_generation_id ≡ some s
      → db.current_generation_id ≡ some w
      → In e (query like max_lag term db).hits ↔ (
          In e (search_index_lookup like s term db)
          × (resolution_state w e.claim_id db ≡ some accepted)
          × (¬ (max_lag <ℤ lag w s db)))
  unfolding query
  query-hits_iff db e s w p q =
      ground (arith, In-select (accepted_in w db) e (search_index_lookup like s term db))

  -- Nothing is returned while one of the pointers is unset.
  pub query-unset :
      (db : Db)
      → (db.current_search_generation_id ≡ none) ⊎ (db.current_generation_id ≡ none)
      → (query like max_lag term db).hits ≡ []
  unfolding query
  query-unset db h = ground arith

  -- Where both pointers are set, search is disabled exactly when the index lags too far, and the
  -- answer is flagged stale exactly when the pointers differ or search is disabled.
  pub query-flags :
      (db : Db) (s w : String)
      → db.current_search_generation_id ≡ some s
      → db.current_generation_id ≡ some w
      → (((query like max_lag term db).disabled ≡ true) ↔ (max_lag <ℤ lag w s db))
        × (((query like max_lag term db).stale ≡ true) ↔ ((s ≢ w) ⊎ (max_lag <ℤ lag w s db)))
  unfolding query
  query-flags db s w p q = ground arith

resolution-record :
    (w c : String) (st : ResolutionState) (db : Db)
    → (record_resolution w c st db).0 ≡ ok tt
    → resolution_state w c (record_resolution w c st db).1 ≡ some st
unfolding record_resolution resolution_state
resolution-record w c st db h = ground (
  arith,
  find-insert_or_replace Key-discrete resolution_key (w, c)
      (record { generation_id = w; claim_id = c; state = st }) db.resolutions,
)

record-publication_current :
    (w c : String) (st : ResolutionState) (db : Db)
    → (record_resolution w c st db).1.current_generation_id ≡ db.current_generation_id
unfolding record_resolution
record-publication_current w c st db = ground arith

-- Once a claim is retracted in the current generation, no query returns it, whatever the index holds.
pub query-retracted :
    (like : String → String → Bool) (max_lag : ℤ) (term : String) (db : Db) (w c : String)
    → db.current_generation_id ≡ some w
    → (record_resolution w c retracted db).0 ≡ ok tt
    → (e : SearchEntry) → In e (query like max_lag term (record_resolution w c retracted db).1).hits
    → e.claim_id ≢ c
query-retracted like max_lag term db w c p h e m q =
    hidden (Option-cases after.current_search_generation_id)
  where
    after : Db
    after = (record_resolution w c retracted db).1

    hidden :
        (after.current_search_generation_id ≡ none)
          ⊎ ((s : String) × (after.current_search_generation_id ≡ some s))
        → ⊥
    hidden (inl u) = ground (arith, query-unset like max_lag term after)
    hidden (inr (s, u)) = ground (
      arith,
      (query-hits_iff like max_lag term after e s w u
            (record-publication_current w c retracted db ∙ p)).0
          m,
      resolution-record w c retracted db h,
    )
