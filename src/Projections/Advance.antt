-- ===== src/Projections/Advance.antt =====
-- What a rebuild does to the pointers.
use mathlib.Core.Path.{subst}
use wiki_spike.Base.{
  String, Bool, true, false, ◌≡◌, ◌≢◌, refl, ap, sym, ◌∙◌, ◌⊎◌, inl, inr, Option, some, List, [],
  ◌∷◌, String-discrete, ◌=s◌, contains, arith, Option-cases, Bool-cases,
}
use wiki_spike.Json.{Json}
use wiki_spike.Projections.{
  Artifact, Pointer, Store, StagingManifest, identity, chronology, is_minimum, names_of, current,
  staged_at, assert_staged, publish_required, publish_optional,
}
use wiki_spike.Projections.Builder.{Record, Spec}
use wiki_spike.Projections.Coordinator.{
  RunResult, Status, Built, expected_of, publish_one, publish_rest, publish_all, artifact_at,
}
use wiki_spike.Projections.Pointers.{IsAt, AreOf, assert_staged-AreOf, update_all-IsAt}
use wiki_spike.Projections.Coherent.{
  IsCoherent, advanced, advanced-current, advanced-minimum, publish_required-cases,
  publish_required_keeps, publish_optional-cases, publish_optional_keeps, are_minimum-contains,
}

-- A step in a workspace that leaves the minimum pointers and the other workspaces alone.
record IsOptional (ws : String) (s s' : Store) : Type 0 where
  coherent : IsCoherent s'
  minimum : (w name : String) → is_minimum name ≡ true → current w name s' ≡ current w name s
  others : (w name : String) → (ws =s w) ≡ false → current w name s' ≡ current w name s

IsOptional-refl : (ws : String) (s : Store) → IsCoherent s → IsOptional ws s s
IsOptional-refl ws s coherent = record {
  coherent = coherent;
  minimum = λ w name m. refl;
  others = λ w name o. refl;
}

IsOptional-trans :
    (ws : String) (s t u : Store) → IsOptional ws s t → IsOptional ws t u → IsOptional ws s u
IsOptional-trans ws s t u p q = record {
  coherent = q.coherent;
  minimum = λ w name m. q.minimum w name m ∙ p.minimum w name m;
  others = λ w name o. q.others w name o ∙ p.others w name o;
}

publish_optional-IsOptional :
    (ws d : String) (expected : Option Pointer) (a : Artifact) (s : Store) (b : Bool) (s' : Store)
    → IsCoherent s
    → publish_optional ws d expected a s ≡ some (b, s')
    → IsOptional ws s s'
publish_optional-IsOptional ws d expected a s b s' coherent e = record {
  coherent = publish_optional_keeps ws d expected a s b s' coherent e;
  minimum = λ w name m. elim (publish_optional-cases ws d expected a s b s' e) [
    | inl (refused, same) ↦ ap (current w name) same
    | inr (next, other, found) ↦ ap (current w name) next ∙ advanced-minimum w name d a s other m
  ];
  others = λ w name o. elim (publish_optional-cases ws d expected a s b s' e) [
    | inl (refused, same) ↦ ap (current w name) same
    | inr (next, other, (m, found)) ↦
        ap (current w name) next
        ∙ advanced-current ws m.source_generation_id w name d (a ∷ []) s
            (assert_staged-AreOf ws d (a ∷ []) s m coherent.one_generation found) (rw o refl)
  ];
}

-- The pointers of the minimum profile name one generation, or no pointer has moved.
abbrev pub Outcome : String → String → RunResult → Store → Store → Type 0
Outcome ws g r s s' =
    IsCoherent s'
    × ((w name : String) → (ws =s w) ≡ false → current w name s' ≡ current w name s)
    × (((r.status ≡ Status.ok)
          × ((d : String) × (r.staging_manifest_digest ≡ some d)
              × IsAt d g (current ws identity s')
              × IsAt d g (current ws chronology s')))
        ⊎ ((r.status ≢ Status.ok) × (s'.pointers ≡ s.pointers)))

assert_staged-staged_at :
    (ws d : String) (artifacts : List Artifact) (s : Store) (m x : StagingManifest)
    → assert_staged ws d artifacts s ≡ some m
    → staged_at d s ≡ some x
    → m ≡ x
unfolding assert_staged
assert_staged-staged_at ws d artifacts s m x e f = ground arith

pub retry_ne_ok : Status.retry_later ≢ Status.ok
retry_ne_ok e = cc

pub rejected_ne_ok : Status.rejected ≢ Status.ok
rejected_ne_ok e = cc

advanced-IsAt :
    (ws d g name : String) (artifacts : List Artifact) (s : Store)
    → AreOf ws g artifacts
    → contains (names_of artifacts) name ≡ true
    → IsAt d g (current ws name (advanced d artifacts s))
unfolding current
advanced-IsAt ws d g name artifacts s of there =
    update_all-IsAt ws name d g artifacts s.pointers of there

identity_minimum : is_minimum identity ≡ true
unfolding String-discrete
identity_minimum = refl

chronology_minimum : is_minimum chronology ≡ true
unfolding String-discrete
chronology_minimum = refl

module _ (records_at : String → String → Option (List Record))
    (build : Spec → String → String → List Record → Option Artifact) (digest : Json → String)
    (specs : List Spec) where
  publish_one-IsOptional :
      (ws d : String) (a : Artifact) (s : Store)
      → IsCoherent s
      → IsOptional ws s (publish_one records_at build digest specs ws d a s).1
  unfolding publish_one
  publish_one-IsOptional ws d a s coherent =
      elim (Option-cases (publish_optional ws d (current ws a.projection_name s) a s)) [
        | inl refused ↦ rw refused (IsOptional-refl ws s coherent)
        | inr ((b, s'), done) ↦ rw done (publish_optional-IsOptional ws d _ a s b s' coherent done)
      ]

  publish_rest-IsOptional :
      (ws d : String) (artifacts : List (String × Artifact)) (rest : List Spec) (s : Store)
      → IsCoherent s
      → IsOptional ws s (publish_rest records_at build digest specs ws d artifacts rest s).2
  unfolding publish_rest
  publish_rest-IsOptional ws d artifacts [] s coherent = IsOptional-refl ws s coherent
  publish_rest-IsOptional ws d artifacts (spec ∷ rest) s coherent =
      elim (Bool-cases spec.required) [
        | inl required ↦ rw required (publish_rest-IsOptional ws d artifacts rest s coherent)
        | inr optional ↦ elim (Option-cases (artifact_at spec.name artifacts)) [
          | inl absent ↦
              rw optional (rw absent (publish_rest-IsOptional ws d artifacts rest s coherent))
          | inr (a, found) ↦
              let s' = (publish_one records_at build digest specs ws d a s).1 in
              let first = publish_one-IsOptional ws d a s coherent in
              let later = publish_rest-IsOptional ws d artifacts rest s' first.coherent in
              let both = IsOptional-trans ws s s' _ first later in
              elim (Bool-cases (publish_one records_at build digest specs ws d a s).0) [
                | inl published ↦ rw optional (rw found (rw published both))
                | inr refused ↦ rw optional (rw found (rw refused both))
              ]
        ]
      ]

  pub publish_all-Outcome :
      (ws g d : String) (b : Built) (required : List Artifact) (s : Store) (m : StagingManifest)
      → staged_at d s ≡ some m
      → m.source_generation_id ≡ g
      → IsCoherent s
      → Outcome ws g
          (publish_all records_at build digest specs ws g d b required s).0
          s
          (publish_all records_at build digest specs ws g d b required s).1
  unfolding publish_all
  publish_all-Outcome ws g d b required s m staged of_g coherent =
      elim (Option-cases
        (publish_required ws d (expected_of records_at build digest specs ws s) required s)) [
          | inl raised ↦ rw raised (coherent, (λ w name o. refl), inr (retry_ne_ok, refl))
          | inr ((published, s1), done) ↦
              elim (publish_required-cases ws d (expected_of records_at build digest specs ws s)
                required s published s1 done) [
                  | inl (refused, same) ↦ rw done (
                      rw refused (
                        subst IsCoherent (sym same) coherent,
                        (λ w name o. ap (current w name) same),
                        inr (retry_ne_ok, ap (λ (t : Store). t.pointers) same),
                      ))
                  | inr (yes_, next, all, (m', found)) ↦
                      let generation =
                        ap (λ (m : StagingManifest). m.source_generation_id)
                          (assert_staged-staged_at ws d required s m' m found staged)
                        ∙ of_g in
                      let of =
                        subst (λ (g : String). AreOf ws g required) generation
                          (assert_staged-AreOf ws d required s m' coherent.one_generation found) in
                      let kept =
                        publish_required_keeps ws d (expected_of records_at build digest specs ws s)
                          required s published s1 coherent done in
                      let rest = publish_rest-IsOptional ws d b.artifacts specs s1 kept in
                      let (there_i, there_c) = are_minimum-contains (names_of required) all in
                      rw done (
                        rw yes_ (
                          rest.coherent,
                          (λ w name o.
                              rest.others w name o
                              ∙ ap (current w name) next
                              ∙ advanced-current ws g w name d required s of (rw o refl)),
                          inl (
                            refl,
                            (
                              d,
                              refl,
                              subst (IsAt d g)
                                  (sym (
                                    rest.minimum ws identity identity_minimum
                                    ∙ ap (current ws identity) next))
                                  (advanced-IsAt ws d g identity required s of there_i),
                              subst (IsAt d g)
                                  (sym (
                                    rest.minimum ws chronology chronology_minimum
                                    ∙ ap (current ws chronology) next))
                                  (advanced-IsAt ws d g chronology required s of there_c),
                            ),
                          ),
                        ))
                ]
        ]
