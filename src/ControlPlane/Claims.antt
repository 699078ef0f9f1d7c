-- ===== src/ControlPlane/Claims.antt =====
-- The stored claims and assertions of controlplane.py, and which generation has which.

use wiki_spike.Base.Optional.{◌>>=◌}
use wiki_spike.Base.{
  String, Option, none, some, List, [], ◌∷◌, select, map, String-discrete, Key-discrete, ◌=s◌,
}
use wiki_spike.Base.Sorting.{sorted}
use wiki_spike.Models.{CompiledClaim}
use wiki_spike.Table.{find, insert_or_ignore}
use wiki_spike.ControlPlane.Schema.{
  Db, ClaimRow, AssertionRow, Membership, membership_key, claim_key, assertion_key,
}

abbrev pub claim_row : CompiledClaim → ClaimRow
claim_row c = record {
  claim_id = c.identity.claim_id;
  subject = c.identity.subject_id;
  predicate = c.identity.predicate_id;
  object = c.identity.obj;
  polarity = c.identity.polarity;
  scope_json = c.identity.scope;
}

abbrev pub assertion_row : CompiledClaim → AssertionRow
assertion_row c = record {
  assertion_id = c.assertion.assertion_id;
  claim_id = c.identity.claim_id;
  source_id = c.assertion.source_id;
  evidence_json = c.evidence;
  modality = c.assertion.modality;
}

unfoldable pub upsert_claim_and_assertion : CompiledClaim → Db → Db
upsert_claim_and_assertion c db = record db {
  claims = insert_or_ignore String-discrete claim_key (claim_row c) db.claims;
  assertions = insert_or_ignore String-discrete assertion_key (assertion_row c) db.assertions;
}

unfoldable pub upsert_all : List CompiledClaim → Db → Db
upsert_all [] db = db
upsert_all (c ∷ cs) db = upsert_all cs (upsert_claim_and_assertion c db)

unfoldable pub add_generation_assertions : String → List String → Db → Db
add_generation_assertions id [] db = db
add_generation_assertions id (aid ∷ aids) db = add_generation_assertions id aids (record db {
  memberships =
      insert_or_ignore Key-discrete membership_key
        (record { generation_id = id; assertion_id = aid }) db.memberships;
})

unfoldable pub generation_assertion_ids : String → Db → List String
generation_assertion_ids id db =
    map (λ (m : Membership). m.assertion_id)
      (select (λ (m : Membership). m.generation_id =s id) db.memberships)

abbrev pub rebuild : AssertionRow → ClaimRow → CompiledClaim
rebuild a c = record {
  identity = record {
    claim_id = a.claim_id;
    subject_id = c.subject;
    predicate_id = c.predicate;
    obj = c.object;
    polarity = c.polarity;
    scope = c.scope_json;
  };
  assertion = record {
    assertion_id = a.assertion_id;
    claim_id = a.claim_id;
    source_id = a.source_id;
    evidence_ids = a.evidence_json.evidence_id ∷ [];
    modality = a.modality;
  };
  evidence = a.evidence_json;
}

-- One round of the loop of `get_assertions`; `none` is its `continue`.
unfoldable pub get_assertion : Db → String → Option CompiledClaim
get_assertion db aid = do
  a ← find String-discrete assertion_key aid db.assertions
  c ← find String-discrete claim_key a.claim_id db.claims
  some (rebuild a c)

abbrev pub present {ℓ} : {A : Type ℓ} → List (Option A) → List A
present [] = []
present (none ∷ xs) = present xs
present (some x ∷ xs) = x ∷ present xs

unfoldable pub get_assertions : List String → Db → List CompiledClaim
get_assertions aids db = present (map (get_assertion db) (sorted aids))
