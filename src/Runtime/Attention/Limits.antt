-- ===== src/Runtime/Attention/Limits.antt =====
-- What the ledger lets through: no topic above its cap, and no active duplicate.
use wiki_spike.Base.{
  ℕ, suc, ◌≤◌, ◌<◌, String, true, false, ◌≡◌, ◌≢◌, refl, Option, some, List, [], ◌∷◌, arith, All,
  select, any, length, ◌=s◌, String-discrete,
}
use wiki_spike.Table.{find, put, find-put}
use wiki_spike.Runtime.Attention.{AttentionRecord, record_key, active, admit}

-- The active records of a topic.
abbrev pub on_topic : String → String → ℕ → List AttentionRecord → List AttentionRecord
on_topic workspace topic now records =
    select (λ (v : AttentionRecord). v.topic_key =s topic) (active workspace now records)

on_topic-put :
    (workspace topic : String) (now : ℕ) (r : AttentionRecord) (records : List AttentionRecord)
    → length (on_topic workspace topic now (put String-discrete record_key r records))
      ≤ suc (length (on_topic workspace topic now records))
unfolding put active
on_topic-put workspace topic now r [] = ground arith
on_topic-put workspace topic now r (x ∷ xs) = ground (arith, on_topic-put workspace topic now r xs)

-- When a record is admitted, its topic then has at most `topic_cap` active records in the workspace.
pub admit-topic :
    (r : AttentionRecord) (now daily_cap topic_cap : ℕ) (records : List AttentionRecord)
    → (admit r now daily_cap topic_cap records).0 ≡ true
    → length (on_topic r.workspace_id r.topic_key now (admit r now daily_cap topic_cap records).1)
      ≤ topic_cap
unfolding admit
admit-topic r now daily_cap topic_cap records h =
    ground (arith, on_topic-put r.workspace_id r.topic_key now r records)

-- A later call of `admit`.
pub record Admission : Type 0 where
  pub entry : AttentionRecord
  pub now : ℕ
  pub daily_cap : ℕ
  pub topic_cap : ℕ

unfoldable pub admit_all : List Admission → List AttentionRecord → List AttentionRecord
admit_all [] records = records
admit_all (a ∷ more) records =
    admit_all more (admit a.entry a.now a.daily_cap a.topic_cap records).1

abbrev get_record : String → List AttentionRecord → Option AttentionRecord
get_record = find String-discrete record_key

admit-find :
    (r : AttentionRecord) (a : Admission) (records : List AttentionRecord)
    → a.entry.record_id ≢ r.record_id
    → get_record r.record_id records ≡ some r
    → get_record r.record_id (admit a.entry a.now a.daily_cap a.topic_cap records).1 ≡ some r
unfolding admit
admit-find r a records other there =
    ground (arith, find-put String-discrete record_key r.record_id a.entry records)

admit_all-find :
    (r : AttentionRecord) (more : List Admission) (records : List AttentionRecord)
    → All (λ a. a.entry.record_id ≢ r.record_id) more
    → get_record r.record_id records ≡ some r
    → get_record r.record_id (admit_all more records) ≡ some r
unfolding admit_all
admit_all-find r [] records other there = there
admit_all-find r (a ∷ more) records (o, os) there =
    admit_all-find r more (admit a.entry a.now a.daily_cap a.topic_cap records).1 os
      (admit-find r a records o there)

admitted-find :
    (r : AttentionRecord) (now daily_cap topic_cap : ℕ) (records : List AttentionRecord)
    → (admit r now daily_cap topic_cap records).0 ≡ true
    → get_record r.record_id (admit r now daily_cap topic_cap records).1 ≡ some r
unfolding admit
admitted-find r now daily_cap topic_cap records h =
    ground (arith, find-put String-discrete record_key r.record_id r records)

find-duplicate :
    (r : AttentionRecord) (workspace dedupe id : String) (now : ℕ) (records : List AttentionRecord)
    → r.workspace_id ≡ workspace
    → r.dedupe_key ≡ dedupe
    → now < r.expires_at
    → get_record id records ≡ some r
    → any (λ (v : AttentionRecord). v.dedupe_key =s dedupe) (active workspace now records) ≡ true
unfolding find active
find-duplicate r workspace dedupe id now [] w d live there = absurd (ground arith)
find-duplicate r workspace dedupe id now (x ∷ xs) w d live there =
    ground (arith, find-duplicate r workspace dedupe id now xs w d live)

-- Once a record is admitted, and whatever other records are then offered under other ids, a record
-- with the same dedupe key in the same workspace is refused until the first expires.
pub admit_once :
    (r : AttentionRecord) (now daily_cap topic_cap : ℕ) (records : List AttentionRecord)
    (others : List Admission) (again : AttentionRecord) (later daily topic : ℕ)
    → (admit r now daily_cap topic_cap records).0 ≡ true
    → All (λ a. a.entry.record_id ≢ r.record_id) others
    → r.workspace_id ≡ again.workspace_id
    → r.dedupe_key ≡ again.dedupe_key
    → later < r.expires_at
    → let ledger = admit_all others (admit r now daily_cap topic_cap records).1 in
      admit again later daily topic ledger ≡ (false, ledger)
unfolding admit
admit_once r now daily_cap topic_cap records others again later daily topic h other w d live =
    let after = (admit r now daily_cap topic_cap records).1 in
    let there =
      admit_all-find r others after other (admitted-find r now daily_cap topic_cap records h) in
    let known =
      find-duplicate r again.workspace_id again.dedupe_key r.record_id later
        (admit_all others after) w d live there in
    rw known refl
