-- ===== src/Policy/Examples.antt =====
-- A token and some requests, and the theorems of policy.py at them.
use wiki_spike.Base.{String, Bool, true, ◌≡◌, ◌≢◌, refl, ◌↔◌, [], ◌∷◌, arith, String-discrete, ◌=s◌}
use wiki_spike.Base.TextOrder.{leb_text}
use wiki_spike.Policy.{
  internal, private, self_authored, evidence_backed, CapabilityToken, PolicyRequest, named,
  authorize_provenance_transition,
}
use wiki_spike.Policy.Decisions.{IsCovered, promotion_iff}

abbrev token : CapabilityToken
token = record {
  token_id = "t";
  workspace_id = "w";
  actor_id = "a";
  actions = "provenance.attest" ∷ "sensitivity.declassify" ∷ [];
  max_sensitivity = private;
  expires_at = "2026-06-01T00:00:00Z";
}

abbrev request : String → PolicyRequest
request action = record {
  workspace_id = "w";
  actor_id = "a";
  action = action;
  now = "2026-05-01T00:00:00Z";
  object_sensitivity = internal;
}

attest_allowed :
    (authorize_provenance_transition token
      (request "provenance.attest")
      self_authored
      evidence_backed
      ("e1" ∷ [])).allowed
    ≡ true
unfolding authorize_provenance_transition leb_text String-discrete
attest_allowed = refl

other_mode : self_authored ≢ evidence_backed
other_mode e = ground arith

promotion_iff_example :
    ((authorize_provenance_transition token
        (request "provenance.attest")
        self_authored
        evidence_backed
        ("e1" ∷ [])).allowed
      ≡ true)
    ↔ (IsCovered token (request "provenance.attest")
        × ((request "provenance.attest").action ≡ "provenance.attest")
        × (named ("e1" ∷ []) ≢ []))
promotion_iff_example =
    promotion_iff token (request "provenance.attest") self_authored ("e1" ∷ []) other_mode

abbrev is_blank : String → Bool
is_blank reason = reason =s ""
