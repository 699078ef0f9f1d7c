-- ===== src/Runtime/Cache/Stable.antt =====
-- What is cached stays: a response is never replaced.
use wiki_spike.Base.{
  String, Bool, true, false, ◌≡◌, refl, some, List, [], ◌∷◌, arith, Key-discrete, Option-cases, inl,
  inr,
}
use wiki_spike.Table.{find, find-insert_or_ignore}
use wiki_spike.Runtime.Cache.{CacheEntry, entry_key, get, put}

-- A call of `put`.
pub record Put : Type 0 where
  pub entry : CacheEntry
  pub golden_eval : Bool

unfoldable pub put_all : List Put → List CacheEntry → List CacheEntry
put_all [] values = values
put_all (p ∷ ps) values = put_all ps (put p.entry p.golden_eval values).1

put-get :
    (w k : String) (e x : CacheEntry) (golden : Bool) (values : List CacheEntry)
    → get w k false values ≡ some x
    → get w k false (put e golden values).1 ≡ some x
unfolding get put
put-get w k e x true values h = h
put-get w k e x false values h =
    ground (arith, find-insert_or_ignore Key-discrete entry_key (w, k) e values)

-- An entry that is cached is what every later lookup finds, whatever is put after it.
pub put_all-get :
    (w k : String) (x : CacheEntry) (puts : List Put) (values : List CacheEntry)
    → get w k false values ≡ some x
    → get w k false (put_all puts values) ≡ some x
unfolding put_all
put_all-get w k x [] values h = h
put_all-get w k x (p ∷ ps) values h =
    put_all-get w k x ps (put p.entry p.golden_eval values).1
      (put-get w k p.entry x p.golden_eval values h)

-- After a put that is not refused, outside a golden evaluation, the lookup of its key finds an entry
-- with the response that was put.
pub put-response :
    (e : CacheEntry) (values : List CacheEntry)
    → (put e false values).0 ≡ true
    → (x : CacheEntry) × (get e.workspace_id e.cache_key false (put e false values).1 ≡ some x)
      × (x.response_digest ≡ e.response_digest)
unfolding get put
put-response e values h =
    let after = find-insert_or_ignore Key-discrete entry_key (entry_key e) e values in
    elim (Option-cases (find Key-discrete entry_key (entry_key e) values)) [
      | inl fresh ↦ (e, ground arith, refl)
      | inr (x, there) ↦ (x, ground arith, ground arith)
    ]
