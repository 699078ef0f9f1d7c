-- ===== src/Runtime/Cache.antt =====
-- memory_runtime/cache.py: `ModelCache`. A response is known by its digest.
pub mod Stable
use wiki_spike.Base.{
  String, Bool, true, false, not, Option, none, some, List, [], Key-discrete, ◌=s◌, if◌then◌else◌,
}
use wiki_spike.Table.{find, insert_or_ignore}

pub record CacheEntry : Type 0 where
  pub cache_key : String
  pub workspace_id : String
  pub route_id : String
  pub generation_id : String
  pub request_digest : String
  pub response_digest : String

abbrev pub entry_key : CacheEntry → String × String
entry_key e = (e.workspace_id, e.cache_key)

unfoldable pub get : String → String → Bool → List CacheEntry → Option CacheEntry
get workspace key true values = none
get workspace key false values = find Key-discrete entry_key (workspace, key) values

abbrev pub conflicts : Option CacheEntry → CacheEntry → Bool
conflicts none e = false
conflicts (some x) e = not (x.response_digest =s e.response_digest)

-- `false` where a nondeterministic entry is refused by an InvalidContractValue.
unfoldable pub put : CacheEntry → Bool → List CacheEntry → Bool × List CacheEntry
put e true values = (true, values)
put e false values =
    if conflicts (find Key-discrete entry_key (entry_key e) values) e
    then (false, values)
    else (true, insert_or_ignore Key-discrete entry_key e values)
