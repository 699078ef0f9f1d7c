-- ===== src/Runtime/Attention/Quiet.antt =====
-- Quiet hours around the clock, and when a suggestion is made.
use wiki_spike.Base.{ℕ, ◌+◌, ◌-◌, ◌%◌, ◌≤◌, ◌<◌, String, true, false, ◌≡◌, ◌↔◌, some, List, arith}
use wiki_spike.Runtime.Attention.{
  AttentionRecord, ProactiveInput, ProactiveSuggestion, Setting, suggestion, in_quiet_hours,
  attention_of, admit, evaluate,
}

-- An hour is quiet exactly when, going round the clock from the start, it comes before the end: also
-- over midnight, and never where start and end are the same.
pub in_quiet_hours_iff :
    (hour start end : ℕ)
    → hour < 24
    → start < 24
    → end < 24
    → (in_quiet_hours hour start end ≡ true) ↔ ((hour + 24 - start) % 24 < (end + 24 - start) % 24)
unfolding in_quiet_hours
in_quiet_hours_iff hour start end h s e = ground arith

-- A suggestion is made exactly when it has not expired, the hour is not quiet, its value exceeds the
-- interruption by the minimum, and the ledger admits it; it is the suggestion of the input.
pub evaluate_iff :
    (content_id : ProactiveInput → String) (v : ProactiveInput) (set : Setting)
    (records : List AttentionRecord) (out : ProactiveSuggestion)
    → ((evaluate content_id v set records).0 ≡ some out) ↔ (
        (set.now < v.expires_at)
        × (in_quiet_hours set.local_hour set.quiet_start_hour set.quiet_end_hour ≡ false)
        × (set.minimum_net_value_bps + v.interruption_score_bps ≤ v.value_score_bps)
        × ((admit (attention_of content_id v) set.now set.daily_cap set.topic_cap records).0 ≡ true)
        × (out ≡ suggestion v))
unfolding evaluate
evaluate_iff content_id v set records out = ground arith
