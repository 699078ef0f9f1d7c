-- ===== src/Projections/Coherent.antt =====
-- What every step of the pointer store keeps: the two minimum pointers of a workspace are of one staged
-- generation, and the last known good pointers are those that are current.
use mathlib.Core.Path.{subst}
use wiki_spike.Base.{
  String, Bool, true, false, ◌&&◌, ◌||◌, ◌≡◌, refl, sym, ◌⊎◌, inl, inr, Option, some, List, [], ◌∷◌,
  String-discrete, Key-discrete, holds, ◌=s◌, contains, arith, All, Option-cases, Bool-cases,
}
use wiki_spike.Table.{find, put, All-put}
use wiki_spike.Projections.{
  Artifact, Pointer, Store, StagingManifest, identity, chronology, is_minimum, are_minimum, moved,
  same_pointer, names_of, key_of, current, last_known_good, stage, assert_staged, pointer_of,
  update_all, publish_required, publish_optional,
}
use wiki_spike.Projections.Pointers.{
  AreTogether, IsOneGeneration, AreOf, find-put_pointer, update_all-IsAt, update_all-other,
  assert_staged-AreOf, together_at,
}

pub record IsCoherent (s : Store) : Type 0 where
  pub together : (ws : String) → AreTogether (current ws identity s) (current ws chronology s)
  pub known_good : (ws name : String) → last_known_good ws name s ≡ current ws name s
  pub one_generation : All IsOneGeneration s.staged

-- The store after the pointers of the artifacts are set.
abbrev pub advanced : String → List Artifact → Store → Store
advanced d artifacts s = record s {
  pointers = update_all d artifacts s.pointers;
  lkg = update_all d artifacts s.lkg;
}

-- A required publication leaves the store as it was, or sets the pointers of a staged manifest's minimum.
pub publish_required-cases :
    (ws d : String) (expected : List (String × Option Pointer)) (artifacts : List Artifact)
    (s : Store) (b : Bool) (s' : Store)
    → publish_required ws d expected artifacts s ≡ some (b, s')
    → ((b ≡ false) × (s' ≡ s))
      ⊎ ((b ≡ true)
          × (s' ≡ advanced d artifacts s)
          × (are_minimum (names_of artifacts) ≡ true)
          × ((m : StagingManifest) × (assert_staged ws d artifacts s ≡ some m)))
unfolding publish_required
publish_required-cases ws d expected artifacts s b s' e =
    elim (Option-cases (assert_staged ws d artifacts s)) [
      | inl refused ↦ absurd (ground arith)
      | inr (m, found) ↦
          elim (Bool-cases (moved ws identity expected s || moved ws chronology expected s)) [
            | inl conflict ↦ inl (ground arith, ground arith)
            | inr free ↦ inr (ground arith, ground arith, ground arith, (m, found))
          ]
    ]

pub are_minimum-contains :
    (names : List String)
    → are_minimum names ≡ true
    → (contains names identity ≡ true) × (contains names chronology ≡ true)
unfolding are_minimum
are_minimum-contains names h = (ground arith, ground arith)

-- Other names and other workspaces keep their pointers.
pub advanced-current :
    (ws g w name d : String) (artifacts : List Artifact) (s : Store)
    → AreOf ws g artifacts
    → (ws =s w) && contains (names_of artifacts) name ≡ false
    → current w name (advanced d artifacts s) ≡ current w name s
unfolding current
advanced-current ws g w name d artifacts s of other =
    update_all-other ws g w name d artifacts s.pointers of other

advanced-known_good :
    (w name d : String) (artifacts : List Artifact) (lkg pointers : List Pointer)
    → find Key-discrete key_of (w, name) lkg ≡ find Key-discrete key_of (w, name) pointers
    → find Key-discrete key_of (w, name) (update_all d artifacts lkg)
      ≡ find Key-discrete key_of (w, name) (update_all d artifacts pointers)
advanced-known_good w name d [] lkg pointers same = same
advanced-known_good w name d (a ∷ rest) lkg pointers same =
    advanced-known_good w name d rest (put Key-discrete key_of (pointer_of d a) lkg)
      (put Key-discrete key_of (pointer_of d a) pointers)
      (ground (arith, find-put_pointer w name d a lkg, find-put_pointer w name d a pointers))

advanced-together :
    (ws g d w : String) (artifacts : List Artifact) (s : Store)
    → AreOf ws g artifacts
    → are_minimum (names_of artifacts) ≡ true
    → AreTogether (current w identity s) (current w chronology s)
    → AreTogether
        (current w identity (advanced d artifacts s))
        (current w chronology (advanced d artifacts s))
unfolding current
advanced-together ws g d w artifacts s of minimum before = elim (String-discrete ws w) [
  | yes p ↦
      let (there_i, there_c) = are_minimum-contains (names_of artifacts) minimum in
      subst
        (λ (w : String).
          AreTogether (find Key-discrete key_of (w, identity) (update_all d artifacts s.pointers))
            (find Key-discrete key_of (w, chronology) (update_all d artifacts s.pointers)))
        p
        (together_at d g _ _ (update_all-IsAt ws identity d g artifacts s.pointers of there_i)
          (update_all-IsAt ws chronology d g artifacts s.pointers of there_c))
  | no n ↦
      let other : holds (String-discrete ws w) ≡ false = ground arith in
      rw (update_all-other ws g w identity d artifacts s.pointers of (ground arith))
        (rw (update_all-other ws g w chronology d artifacts s.pointers of (ground arith)) before)
]

-- A required publication keeps the pointers together, whatever it answers.
pub publish_required_keeps :
    (ws d : String) (expected : List (String × Option Pointer)) (artifacts : List Artifact)
    (s : Store) (b : Bool) (s' : Store)
    → IsCoherent s
    → publish_required ws d expected artifacts s ≡ some (b, s')
    → IsCoherent s'
unfolding current last_known_good
publish_required_keeps ws d expected artifacts s b s' coherent e =
    elim (publish_required-cases ws d expected artifacts s b s' e) [
      | inl (refused, same) ↦ subst IsCoherent (sym same) coherent
      | inr (published, next, minimum, (m, found)) ↦
          let of = assert_staged-AreOf ws d artifacts s m coherent.one_generation found in
          subst IsCoherent (sym next) record {
            together = λ w.
                advanced-together ws m.source_generation_id d w artifacts s of minimum
                  (coherent.together w);
            known_good = λ w name.
                advanced-known_good w name d artifacts s.lkg s.pointers
                  (coherent.known_good w name);
            one_generation = coherent.one_generation;
          }
    ]

pub publish_optional-cases :
    (ws d : String) (expected : Option Pointer) (a : Artifact) (s : Store) (b : Bool) (s' : Store)
    → publish_optional ws d expected a s ≡ some (b, s')
    → ((b ≡ false) × (s' ≡ s))
      ⊎ ((s' ≡ advanced d (a ∷ []) s)
          × (is_minimum a.projection_name ≡ false)
          × ((m : StagingManifest) × (assert_staged ws d (a ∷ []) s ≡ some m)))
unfolding publish_optional
publish_optional-cases ws d expected a s b s' e =
    elim (Option-cases (assert_staged ws d (a ∷ []) s)) [
      | inl refused ↦ absurd (ground arith)
      | inr (m, found) ↦
          elim (Bool-cases (same_pointer (current ws a.projection_name s) expected)) [
            | inl free ↦ inr (ground arith, ground arith, (m, found))
            | inr conflict ↦ inl (ground arith, ground arith)
          ]
    ]

pub advanced-minimum :
    (w name d : String) (a : Artifact) (s : Store)
    → is_minimum a.projection_name ≡ false
    → is_minimum name ≡ true
    → current w name (advanced d (a ∷ []) s) ≡ current w name s
unfolding current
advanced-minimum w name d a s other minimum = ground (arith, find-put_pointer w name d a s.pointers)

-- An optional publication keeps the pointers together, whatever it answers.
pub publish_optional_keeps :
    (ws d : String) (expected : Option Pointer) (a : Artifact) (s : Store) (b : Bool) (s' : Store)
    → IsCoherent s
    → publish_optional ws d expected a s ≡ some (b, s')
    → IsCoherent s'
unfolding last_known_good current String-discrete
publish_optional_keeps ws d expected a s b s' coherent e =
    elim (publish_optional-cases ws d expected a s b s' e) [
      | inl (refused, same) ↦ subst IsCoherent (sym same) coherent
      | inr (next, other, found) ↦ subst IsCoherent (sym next) record {
        together = λ w.
            rw (advanced-minimum w identity d a s other refl)
              (rw (advanced-minimum w chronology d a s other refl) (coherent.together w));
        known_good = λ w name.
            advanced-known_good w name d (a ∷ []) s.lkg s.pointers (coherent.known_good w name);
        one_generation = coherent.one_generation;
      }
    ]

-- Staging a manifest of one generation keeps the pointers as they are.
pub stage_keeps :
    (m : StagingManifest) (s s' : Store)
    → IsOneGeneration m
    → IsCoherent s
    → stage m s ≡ some s'
    → IsCoherent s'
unfolding stage current last_known_good
stage_keeps m s s' one coherent e =
    let all =
      All-put String-discrete (λ (m : StagingManifest). m.manifest_digest) IsOneGeneration m
        s.staged one coherent.one_generation in
    let next : s' ≡ record s {
      staged = put String-discrete (λ (x : StagingManifest). x.manifest_digest) m s.staged;
    } =
      ground arith in
    subst IsCoherent (sym next) record {
      together = coherent.together;
      known_good = coherent.known_good;
      one_generation = all;
    }
