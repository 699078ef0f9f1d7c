-- ===== src/Runtime/Attention.antt =====
-- memory_runtime/attention.py and proactive.py: what may interrupt a user, and how often.
pub mod Limits
pub mod Quiet
use wiki_spike.Base.{
  ℕ, ◌+◌, ◌/◌, ◌==◌, String, Bool, true, false, not, ◌&&◌, ◌||◌, Option, none, some, List, [], ◌∷◌,
  select, any, length, ltb, leb, ◌=s◌, String-discrete, if◌then◌else◌,
}
use wiki_spike.Table.{put}

pub record AttentionRecord : Type 0 where
  pub record_id : String
  pub workspace_id : String
  pub topic_key : String
  pub attention_type : String
  pub dedupe_key : String
  pub created_at : ℕ
  pub expires_at : ℕ
  pub channel : String

abbrev pub record_key : AttentionRecord → String
record_key r = r.record_id

-- The date in UTC.
abbrev pub date_of : ℕ → ℕ
date_of seconds = seconds / 86400

abbrev pub is_active : String → ℕ → AttentionRecord → Bool
is_active workspace now r = r.workspace_id =s workspace && ltb now r.expires_at

unfoldable pub active : String → ℕ → List AttentionRecord → List AttentionRecord
active workspace now records = select (is_active workspace now) records

unfoldable pub admit :
    AttentionRecord → ℕ → ℕ → ℕ → List AttentionRecord → Bool × List AttentionRecord
unfolding active
admit r now daily_cap topic_cap records =
    let live = active r.workspace_id now records in
    if any (λ (v : AttentionRecord). v.dedupe_key =s r.dedupe_key) live
    then (false, records)
    else if leb daily_cap
          (length (select (λ (v : AttentionRecord). date_of v.created_at == date_of now) live))
        || leb topic_cap
            (length (select (λ (v : AttentionRecord). v.topic_key =s r.topic_key) live))
    then (false, records)
    else (true, put String-discrete record_key r records)

pub record ProactiveInput : Type 0 where
  pub input_id : String
  pub workspace_id : String
  pub topic_key : String
  pub suggestion_type : String
  pub value_score_bps : ℕ
  pub interruption_score_bps : ℕ
  pub evidence_refs : List String
  pub dedupe_key : String
  pub created_at : ℕ
  pub expires_at : ℕ

pub record ProactiveSuggestion : Type 0 where
  pub input_id : String
  pub workspace_id : String
  pub topic_key : String
  pub suggestion_type : String
  pub evidence_refs : List String
  pub created_at : ℕ
  pub expires_at : ℕ

abbrev pub suggestion : ProactiveInput → ProactiveSuggestion
suggestion v = record {
  input_id = v.input_id;
  workspace_id = v.workspace_id;
  topic_key = v.topic_key;
  suggestion_type = v.suggestion_type;
  evidence_refs = v.evidence_refs;
  created_at = v.created_at;
  expires_at = v.expires_at;
}

unfoldable pub in_quiet_hours : ℕ → ℕ → ℕ → Bool
in_quiet_hours hour quiet_start quiet_end =
    if quiet_start == quiet_end
    then false
    else if ltb quiet_start quiet_end
    then leb quiet_start hour && ltb hour quiet_end
    else leb quiet_start hour || ltb hour quiet_end

-- The keyword arguments of `evaluate`; `local_hour` is the hour at `now` in the timezone, which the
-- zone database gives.
pub record Setting : Type 0 where
  pub now : ℕ
  pub local_hour : ℕ
  pub quiet_start_hour : ℕ
  pub quiet_end_hour : ℕ
  pub minimum_net_value_bps : ℕ
  pub daily_cap : ℕ
  pub topic_cap : ℕ

module _ (content_id : ProactiveInput → String) where
  abbrev pub attention_of : ProactiveInput → AttentionRecord
  attention_of v = record {
    record_id = content_id v;
    workspace_id = v.workspace_id;
    topic_key = v.topic_key;
    attention_type = "proactive_suggestion";
    dedupe_key = v.dedupe_key;
    created_at = v.created_at;
    expires_at = v.expires_at;
    channel = "runtime";
  }

  -- `int(value) - int(interruption) < minimum`, over the integers
  unfoldable pub evaluate :
      ProactiveInput
      → Setting
      → List AttentionRecord
      → Option ProactiveSuggestion × List AttentionRecord
  unfolding in_quiet_hours admit
  evaluate v set records =
      if leb v.expires_at set.now
      then (none, records)
      else if in_quiet_hours set.local_hour set.quiet_start_hour set.quiet_end_hour
      then (none, records)
      else if ltb v.value_score_bps (set.minimum_net_value_bps + v.interruption_score_bps)
      then (none, records)
      else (let (admitted, after) =
            admit (attention_of v) set.now set.daily_cap set.topic_cap records in
          if not admitted then (none, after) else (some (suggestion v), after))
