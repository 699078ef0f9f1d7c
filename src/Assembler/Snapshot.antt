-- ===== src/Assembler/Snapshot.antt =====
-- assembler.py: the knowledge snapshot, and `compute_claim_id` of models.py. Where json.loads or a
-- constructor raises, the result is `none`.
use wiki_spike.Base.{
  String, Bool, true, ◌≡◌, Option, none, some, List, [], ◌∷◌, map, if◌then◌else◌, ◌=s◌, contains,
}
use wiki_spike.Base.Optional.{◌>>=◌}
use wiki_spike.Base.TextOrder.{leb_text}
use wiki_spike.Base.Sorting.{sort}
use wiki_spike.Models.{
  CompiledClaim, ClaimIdentity, ClaimAssertion, Evidence, Polarity, positive, negative, Scope,
}
use wiki_spike.Json.{
  Json, null, text, array, object, items, texts, lookup, as_text, as_list, as_texts, each, members,
}
use wiki_spike.Assembler.{Encoding, canonical_hash}

abbrev pub polarity_text : Polarity → String
polarity_text positive = "positive"
polarity_text negative = "negative"

-- "polarity must be 'positive' or 'negative'"
abbrev pub read_polarity : String → Option Polarity
read_polarity s =
    if s =s "positive" then some positive else if s =s "negative" then some negative else none

abbrev pub strings : List String → Json
strings xs = array (items (map text xs))

abbrev pub dicts : List Scope → Json
dicts ds = array (items (map (λ d. object (texts d)) ds))

abbrev pub identity_payload : String → String → String → Polarity → Scope → Json
identity_payload subject predicate obj polarity scope = object (
    members (
      ("canonical_object", text obj)
      ∷ ("canonical_subject_id", text subject)
      ∷ ("identity_schema_version", text "1")
      ∷ ("normalized_scope", object (texts scope))
      ∷ ("polarity", text (polarity_text polarity))
      ∷ ("predicate_id", text predicate)
      ∷ []))

abbrev pub identity_record : ClaimIdentity → Json
identity_record i = object (
    members (
      ("claim_id", text i.claim_id)
      ∷ ("object", text i.obj)
      ∷ ("polarity", text (polarity_text i.polarity))
      ∷ ("predicate_id", text i.predicate_id)
      ∷ ("scope", object (texts i.scope))
      ∷ ("subject_id", text i.subject_id)
      ∷ []))

abbrev pub assertion_record : ClaimAssertion → Json
assertion_record a = object (
    members (
      ("assertion_id", text a.assertion_id)
      ∷ ("claim_id", text a.claim_id)
      ∷ ("evidence_ids", strings a.evidence_ids)
      ∷ ("modality", text a.modality)
      ∷ ("source_id", text a.source_id)
      ∷ []))

abbrev pub evidence_record : Evidence → Json
evidence_record e = object (
    members (
      ("evidence_id", text e.evidence_id)
      ∷ ("locators", dicts e.locators)
      ∷ ("quote_hash", text e.quote_hash)
      ∷ ("representation_hash", text e.representation_hash)
      ∷ ("source_object_hash", text e.source_object_hash)
      ∷ []))

unfoldable pub claim_to_record : CompiledClaim → Json
claim_to_record c = object (
    members (
      ("assertion", assertion_record c.assertion)
      ∷ ("evidence", evidence_record c.evidence)
      ∷ ("identity", identity_record c.identity)
      ∷ []))

-- `r[key]` as a text
abbrev field : String → Json → Option String
field key r = lookup key r >>= as_text

-- `dict(i.get("scope") or {})`
abbrev scope_of : Option Json → Option Scope
scope_of none = some []
scope_of (some null) = some []
scope_of (some v) = as_texts v

abbrev pub read_texts : Json → Option (List String)
read_texts v = as_list v >>= each as_text

abbrev pub read_dicts : Json → Option (List Scope)
read_dicts v = as_list v >>= each as_texts

unfoldable pub read_identity : Json → Option ClaimIdentity
read_identity i = do
  claim_id ← field "claim_id" i
  subject_id ← field "subject_id" i
  predicate_id ← field "predicate_id" i
  obj ← field "object" i
  polarity ← field "polarity" i >>= read_polarity
  scope ← scope_of (lookup "scope" i)
  some record {
    claim_id = claim_id;
    subject_id = subject_id;
    predicate_id = predicate_id;
    obj = obj;
    polarity = polarity;
    scope = scope;
  }

unfoldable pub read_evidence : Json → Option Evidence
read_evidence e = do
  evidence_id ← field "evidence_id" e
  source_object_hash ← field "source_object_hash" e
  representation_hash ← field "representation_hash" e
  quote_hash ← field "quote_hash" e
  locators ← lookup "locators" e >>= read_dicts
  some record {
    evidence_id = evidence_id;
    source_object_hash = source_object_hash;
    representation_hash = representation_hash;
    quote_hash = quote_hash;
    locators = locators;
  }

unfoldable pub read_assertion : Json → Option ClaimAssertion
read_assertion a = do
  assertion_id ← field "assertion_id" a
  claim_id ← field "claim_id" a
  source_id ← field "source_id" a
  evidence_ids ← lookup "evidence_ids" a >>= read_texts
  modality ← field "modality" a
  some record {
    assertion_id = assertion_id;
    claim_id = claim_id;
    source_id = source_id;
    evidence_ids = evidence_ids;
    modality = modality;
  }

abbrev pub by_assertion_id : CompiledClaim → CompiledClaim → Bool
by_assertion_id a b = leb_text a.assertion.assertion_id b.assertion.assertion_id

abbrev pub if_version : Option String → Option (List Json) → Option (List Json)
if_version none claims = none
if_version (some v) claims = if v =s "2" then claims else none

module _ {B : Type 0} (encoding : Encoding B) where
  -- `ClaimIdentity.create(...).claim_id`
  unfoldable pub compute_claim_id : String → String → String → Polarity → Scope → String
  compute_claim_id subject predicate obj polarity scope =
      canonical_hash encoding (identity_payload subject predicate obj polarity scope)

  abbrev pub id_of : ClaimIdentity → String
  id_of i = compute_claim_id i.subject_id i.predicate_id i.obj i.polarity i.scope

  abbrev pub check : ClaimIdentity → ClaimAssertion → Evidence → Option CompiledClaim
  check i a e =
      if id_of i =s i.claim_id
      then if a.claim_id =s i.claim_id
        then if contains a.evidence_ids e.evidence_id
          then some record { identity = i; assertion = a; evidence = e }
          else none
        else none
      else none

  unfoldable pub claim_from_record : Json → Option CompiledClaim
  unfolding read_identity read_evidence read_assertion compute_claim_id
  claim_from_record r = do
    i ← lookup "identity" r >>= read_identity
    e ← lookup "evidence" r >>= read_evidence
    a ← lookup "assertion" r >>= read_assertion
    check i a e

  -- The records are sorted by the ids of their assertions: so are the claims that they are made from.
  unfoldable pub snapshot_value : List CompiledClaim → Json
  unfolding claim_to_record sort
  snapshot_value accepted = object (
      members (
        ("accepted_claims", array (items (map claim_to_record (sort by_assertion_id accepted))))
        ∷ ("schema_version", text "2")
        ∷ []))

  unfoldable pub build_snapshot : List CompiledClaim → B
  unfolding snapshot_value
  build_snapshot accepted = encoding.canonical_bytes (snapshot_value accepted)

  unfoldable pub parse_snapshot : B → Option (List CompiledClaim)
  unfolding claim_from_record
  parse_snapshot raw = do
    obj ← encoding.loads raw
    records ← if_version (field "schema_version" obj) (lookup "accepted_claims" obj >>= as_list)
    each claim_from_record records

  -- What `claim_from_record` requires of a claim.
  pub record IsBound (c : CompiledClaim) : Type 0 where
    pub own_id : id_of c.identity ≡ c.identity.claim_id
    pub same_claim : c.assertion.claim_id ≡ c.identity.claim_id
    pub has_evidence : contains c.assertion.evidence_ids c.evidence.evidence_id ≡ true
