-- ===== src/Runtime/Examples.antt =====
-- Runs of the runtime services, and their theorems at them.
use wiki_spike.Base.{
  ℕ, String, true, false, ◌≡◌, refl, some, List, [], ◌∷◌, arith, text_ne, String-discrete,
  Key-discrete,
}
use wiki_spike.Table.{find, put}
use wiki_spike.Runtime.Cost.{
  CostContext, empty_tracker, reserve, workspace_usage, operation_usage, source_usage,
}
use wiki_spike.Runtime.Cost.Budgets.{
  Ask, Limits, Respects, IsWithin, reserve_all, reserve_all-IsWithin,
}
use wiki_spike.Runtime.Attention.{AttentionRecord, ProactiveInput, Setting, admit}
use wiki_spike.Runtime.Attention.Limits.{Admission, admit_all, admit_once}
use wiki_spike.Runtime.Cache.{CacheEntry, get}
use wiki_spike.Runtime.Cache.Stable.{Put}
use wiki_spike.Runtime.Degrade.{Availability}

abbrev context : CostContext
context = record {
  context_id = "x";
  operation_id = "o";
  workspace_id = "w";
  source_id = "s";
  max_call_micros = 50;
  max_operation_micros = 100;
  max_source_micros = 100;
  max_workspace_micros = 100;
}

abbrev ask : ℕ → Ask
ask n = record { context = context; estimate = n }

abbrev asks : List Ask
asks = ask 50 ∷ ask 60 ∷ ask 40 ∷ ask 20 ∷ []

abbrev hundred : Limits
hundred = record { of_operation = λ k. 100; of_source = λ k. 100; of_workspace = λ k. 100 }

ask-Respects : (n : ℕ) → Respects hundred (ask n)
ask-Respects n = record { operation = omega arith; source = omega arith; workspace = omega arith }

nothing_spent : IsWithin hundred empty_tracker
unfolding operation_usage source_usage workspace_usage find
nothing_spent = record {
  operation = λ k. omega arith;
  source = λ k. omega arith;
  workspace = λ k. omega arith;
}

ninety_spent : workspace_usage "w" (reserve_all asks empty_tracker) ≡ 90
unfolding reserve_all reserve operation_usage source_usage workspace_usage find put String-discrete
    Key-discrete
ninety_spent = refl

reserve_all-IsWithin_example : IsWithin hundred (reserve_all asks empty_tracker)
reserve_all-IsWithin_example =
    reserve_all-IsWithin hundred asks empty_tracker
      (ask-Respects 50, (ask-Respects 60, (ask-Respects 40, (ask-Respects 20, tt)))) nothing_spent

abbrev input : ℕ → ProactiveInput
input expires_at = record {
  input_id = "i";
  workspace_id = "w";
  topic_key = "t";
  suggestion_type = "reminder";
  value_score_bps = 5000;
  interruption_score_bps = 1000;
  evidence_refs = "e" ∷ [];
  dedupe_key = "d";
  created_at = 100;
  expires_at = expires_at;
}

abbrev noted : String → String → ℕ → AttentionRecord
noted id dedupe expires_at = record {
  record_id = id;
  workspace_id = "w";
  topic_key = "t";
  attention_type = "proactive_suggestion";
  dedupe_key = dedupe;
  created_at = 100;
  expires_at = expires_at;
  channel = "runtime";
}

first_admitted : (admit (noted "r1" "d1" 1000) 200 3 1 []).0 ≡ true
unfolding admit
first_admitted = refl

abbrev others : List Admission
others = record { entry = noted "r2" "d2" 900; now = 250; daily_cap = 3; topic_cap = 2 } ∷ []

admit_once_example :
    admit
      (noted "r3" "d1" 2000)
      300
      3
      3
      (admit_all others (admit (noted "r1" "d1" 1000) 200 3 1 []).1)
    ≡ (false, admit_all others (admit (noted "r1" "d1" 1000) 200 3 1 []).1)
unfolding String-discrete
admit_once_example =
    admit_once (noted "r1" "d1" 1000) 200 3 1 [] others (noted "r3" "d1" 2000) 300 3 3
      first_admitted (text_ne "r2" "r1" refl, tt) refl refl (omega arith)

abbrev at_noon : Setting
at_noon = record {
  now = 200;
  local_hour = 12;
  quiet_start_hour = 22;
  quiet_end_hour = 8;
  minimum_net_value_bps = 1000;
  daily_cap = 3;
  topic_cap = 1;
}

abbrev id_of : ProactiveInput → String
id_of v = v.input_id

abbrev cached : String → CacheEntry
cached response = record {
  cache_key = "k";
  workspace_id = "w";
  route_id = "r";
  generation_id = "g";
  request_digest = "q";
  response_digest = response;
}

abbrev puts : List Put
puts = record { entry = cached "other"; golden_eval = false } ∷ []

cached_first : get "w" "k" false (cached "first" ∷ []) ≡ some (cached "first")
unfolding get find Key-discrete String-discrete
cached_first = refl

abbrev outage : Availability
outage = ("core", true) ∷ ("generation", false) ∷ ("model", false) ∷ []
