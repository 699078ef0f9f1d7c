-- ===== src/Assembler/Restored.antt =====
-- The snapshot restores the accepted claims, and what it restores is bound.
use wiki_spike.Base.{
  String, ◌≡◌, refl, some, List, [], ◌∷◌, map, All, All-imp, String-discrete, =s-self, arith,
  Option-cases, inl, inr,
}
use wiki_spike.Base.Optional.{◌>>=◌}
use wiki_spike.Base.Sorting.{sort, All-sort}
use wiki_spike.Models.{
  CompiledClaim, ClaimIdentity, ClaimAssertion, Evidence, Polarity, positive, negative, Scope,
}
use wiki_spike.Json.{
  Json, text, array, object, items, texts, lookup, as_text, as_list, as_texts, elements-items,
  text_members-texts, each-inverse, each-All,
}
use wiki_spike.Assembler.{Encoding}
use wiki_spike.Assembler.Snapshot.{
  strings, dicts, identity_record, assertion_record, evidence_record, polarity_text, read_polarity,
  read_texts, read_dicts, read_identity, read_evidence, read_assertion, claim_to_record,
  claim_from_record, check, snapshot_value, build_snapshot, parse_snapshot, by_assertion_id,
  if_version, IsBound,
}

read_texts-strings : (xs : List String) → read_texts (strings xs) ≡ some xs
read_texts-strings xs = rw (elements-items (map text xs)) (each-inverse as_text text xs (found xs))
  where
    found : (xs : List String) → All (λ x. as_text (text x) ≡ some x) xs
    found [] = tt
    found (x ∷ xs) = (refl, found xs)

read_dicts-dicts : (ds : List Scope) → read_dicts (dicts ds) ≡ some ds
read_dicts-dicts ds =
    rw (elements-items (map (λ d. object (texts d)) ds))
      (each-inverse as_texts (λ (d : Scope). object (texts d)) ds (found ds))
  where
    found : (ds : List Scope) → All (λ (d : Scope). as_texts (object (texts d)) ≡ some d) ds
    found [] = tt
    found (d ∷ ds) = (text_members-texts d, found ds)

read_polarity-text : (p : Polarity) → read_polarity (polarity_text p) ≡ some p
unfolding String-discrete
read_polarity-text positive = refl
read_polarity-text negative = refl

read_identity-record : (i : ClaimIdentity) → read_identity (identity_record i) ≡ some i
unfolding read_identity String-discrete
read_identity-record i = rw (read_polarity-text i.polarity) (rw (text_members-texts i.scope) refl)

read_evidence-record : (e : Evidence) → read_evidence (evidence_record e) ≡ some e
unfolding read_evidence String-discrete
read_evidence-record e = rw (read_dicts-dicts e.locators) refl

read_assertion-record : (a : ClaimAssertion) → read_assertion (assertion_record a) ≡ some a
unfolding read_assertion String-discrete
read_assertion-record a = rw (read_texts-strings a.evidence_ids) refl

lookup-claim_to_record :
    (c : CompiledClaim)
    → (lookup "identity" (claim_to_record c) ≡ some (identity_record c.identity))
      × (lookup "evidence" (claim_to_record c) ≡ some (evidence_record c.evidence))
      × (lookup "assertion" (claim_to_record c) ≡ some (assertion_record c.assertion))
unfolding claim_to_record String-discrete
lookup-claim_to_record c = (refl, refl, refl)

module _ {B : Type 0} (encoding : Encoding B) where
  check-IsBound :
      (c : CompiledClaim)
      → IsBound encoding c
      → check encoding c.identity c.assertion c.evidence ≡ some c
  check-IsBound c bound = ground (arith, bound.own_id, bound.same_claim, bound.has_evidence)

  IsBound-check :
      (i : ClaimIdentity) (a : ClaimAssertion) (e : Evidence) (c : CompiledClaim)
      → check encoding i a e ≡ some c
      → IsBound encoding c
  IsBound-check i a e c h = record {
    own_id = ground arith;
    same_claim = ground arith;
    has_evidence = ground arith;
  }

  claim_from_record-record :
      (c : CompiledClaim)
      → IsBound encoding c
      → claim_from_record encoding (claim_to_record c) ≡ some c
  unfolding claim_from_record
  claim_from_record-record c bound =
      let (identity, evidence, assertion) = lookup-claim_to_record c in
      rw identity (
        rw (read_identity-record c.identity) (
          rw evidence (
            rw (read_evidence-record c.evidence)
              (rw assertion (rw (read_assertion-record c.assertion) (check-IsBound c bound))))))

  claim_from_record-IsBound :
      (r : Json) (c : CompiledClaim) → claim_from_record encoding r ≡ some c → IsBound encoding c
  unfolding claim_from_record
  claim_from_record-IsBound r c h = elim (Option-cases (lookup "identity" r >>= read_identity)) [
    | inl none_i ↦ absurd (ground arith)
    | inr (i, some_i) ↦ elim (Option-cases (lookup "evidence" r >>= read_evidence)) [
      | inl none_e ↦ absurd (ground arith)
      | inr (e, some_e) ↦ elim (Option-cases (lookup "assertion" r >>= read_assertion)) [
        | inl none_a ↦ absurd (ground arith)
        | inr (a, some_a) ↦ IsBound-check i a e c (ground arith)
      ]
    ]
  ]

  snapshot_fields :
      (accepted : List CompiledClaim)
      → (lookup "schema_version" (snapshot_value encoding accepted) ≡ some (text "2"))
        × (lookup "accepted_claims" (snapshot_value encoding accepted)
            ≡ some (array (items (map claim_to_record (sort by_assertion_id accepted)))))
  unfolding snapshot_value String-discrete
  snapshot_fields accepted = (refl, refl)

  restored :
      (claims : List CompiledClaim)
      → All (IsBound encoding) claims
      → All (λ c. claim_from_record encoding (claim_to_record c) ≡ some c) claims
  restored claims bound =
      All-imp (IsBound encoding) (λ c. claim_from_record encoding (claim_to_record c) ≡ some c)
        claims claim_from_record-record bound

  -- A snapshot restores the claims that it was built from, sorted by the ids of their assertions: where
  -- each claim is bound to its identity, assertion and evidence, and the canonical bytes of the snapshot
  -- are read back as they were written.
  pub parse_snapshot-build_snapshot :
      (accepted : List CompiledClaim)
      → All (IsBound encoding) accepted
      → encoding.loads (encoding.canonical_bytes (snapshot_value encoding accepted))
        ≡ some (snapshot_value encoding accepted)
      → parse_snapshot encoding (build_snapshot encoding accepted)
        ≡ some (sort by_assertion_id accepted)
  unfolding parse_snapshot build_snapshot
  parse_snapshot-build_snapshot accepted bound reads =
      let (version, claims) = snapshot_fields accepted in
      let order = sort by_assertion_id accepted in
      rw reads (
        rw version (
          rw claims (
            rw (elements-items (map claim_to_record order)) (
              rw (=s-self "2") (
                each-inverse (claim_from_record encoding) claim_to_record order
                  (restored order (All-sort by_assertion_id (IsBound encoding) accepted bound)))))))

  -- Whatever bytes a snapshot is read from, each claim of it has the id of its canonical identity, is the
  -- claim of its assertion, and has evidence that its assertion names.
  pub parse_snapshot-IsBound :
      (raw : B) (claims : List CompiledClaim)
      → parse_snapshot encoding raw ≡ some claims
      → All (IsBound encoding) claims
  unfolding parse_snapshot
  parse_snapshot-IsBound raw claims h = elim (Option-cases (encoding.loads raw)) [
    | inl none_v ↦ absurd (ground arith)
    | inr (v, some_v) ↦
        elim (Option-cases (
          if_version (lookup "schema_version" v >>= as_text)
            (lookup "accepted_claims" v >>= as_list))) [
              | inl none_r ↦ absurd (ground arith)
              | inr (records, some_r) ↦
                  each-All (IsBound encoding) (claim_from_record encoding) records claims
                    (claim_from_record-IsBound) (ground arith)
            ]
  ]
