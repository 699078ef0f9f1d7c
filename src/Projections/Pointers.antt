-- ===== src/Projections/Pointers.antt =====
-- Pointers set for the artifacts of one staged manifest.
use mathlib.Core.Path.{subst}
use wiki_spike.Base.{
  String, true, false, not, ◌&&◌, ◌≡◌, refl, sym, ◌∙◌, inl, inr, Option, none, some, List, [], ◌∷◌,
  any, String-discrete, Key-discrete, if◌then◌else◌, ◌=s◌, contains, arith, All, Option-cases,
  Bool-cases,
}
use wiki_spike.Table.{find, put, find-put, find-All, All-put}
use wiki_spike.Projections.{
  Artifact, Pointer, Store, StagingManifest, names_of, key_of, staged_at, by_name, is_bound,
  assert_staged, pointer_of, update_all,
}

-- Pointers into one staged manifest and generation.
abbrev pub IsAt : String → String → Option Pointer → Type 0
IsAt d g none = ⊥
IsAt d g (some p) = (p.staging_manifest_digest ≡ d) × (p.generation_id ≡ g)

abbrev pub AreTogether : Option Pointer → Option Pointer → Type 0
AreTogether none none = Unit
AreTogether (some p) (some q) =
    (p.staging_manifest_digest ≡ q.staging_manifest_digest) × (p.generation_id ≡ q.generation_id)
AreTogether _ _ = ⊥

-- Each artifact is of the manifest's generation, as `create` requires.
abbrev pub IsOneGeneration : StagingManifest → Type 0
IsOneGeneration m =
    All (λ (a : Artifact). a.source_generation_id ≡ m.source_generation_id) m.artifacts

-- The artifacts of one workspace and one generation.
abbrev pub AreOf : String → String → List Artifact → Type 0
AreOf ws g artifacts =
    All (λ (a : Artifact). (a.workspace_id ≡ ws) × (a.source_generation_id ≡ g)) artifacts

pub find-put_pointer :
    (w name d : String) (a : Artifact) (ps : List Pointer)
    → find Key-discrete key_of (w, name) (put Key-discrete key_of (pointer_of d a) ps) ≡ (
        if (a.workspace_id =s w) && (a.projection_name =s name)
        then some (pointer_of d a)
        else find Key-discrete key_of (w, name) ps)
unfolding Key-discrete
find-put_pointer w name d a ps =
    find-put Key-discrete key_of (w, name) (pointer_of d a) ps ∙ ground arith

pub IsAt-update_all :
    (ws w name d g : String) (artifacts : List Artifact) (ps : List Pointer)
    → AreOf ws g artifacts
    → IsAt d g (find Key-discrete key_of (w, name) ps)
    → IsAt d g (find Key-discrete key_of (w, name) (update_all d artifacts ps))
IsAt-update_all ws w name d g [] ps of at = at
IsAt-update_all ws w name d g (a ∷ rest) ps of at =
    IsAt-update_all ws w name d g rest (put Key-discrete key_of (pointer_of d a) ps) of.1
      (ground (arith, find-put_pointer w name d a ps))

pub update_all-IsAt :
    (ws name d g : String) (artifacts : List Artifact) (ps : List Pointer)
    → AreOf ws g artifacts
    → contains (names_of artifacts) name ≡ true
    → IsAt d g (find Key-discrete key_of (ws, name) (update_all d artifacts ps))
update_all-IsAt ws name d g [] ps of there = absurd (ground arith)
update_all-IsAt ws name d g (a ∷ rest) ps of there = elim (Bool-cases (a.projection_name =s name)) [
  | inl here ↦
      IsAt-update_all ws ws name d g rest (put Key-discrete key_of (pointer_of d a) ps) of.1
        (ground (arith, find-put_pointer ws name d a ps))
  | inr later ↦
      update_all-IsAt ws name d g rest (put Key-discrete key_of (pointer_of d a) ps) of.1
        (ground arith)
]

pub update_all-other :
    (ws g w name d : String) (artifacts : List Artifact) (ps : List Pointer)
    → AreOf ws g artifacts
    → (ws =s w) && contains (names_of artifacts) name ≡ false
    → find Key-discrete key_of (w, name) (update_all d artifacts ps)
      ≡ find Key-discrete key_of (w, name) ps
update_all-other ws g w name d [] ps of other = refl
update_all-other ws g w name d (a ∷ rest) ps of other =
    update_all-other ws g w name d rest (put Key-discrete key_of (pointer_of d a) ps) of.1
      (ground arith)
    ∙ ground (arith, find-put_pointer w name d a ps)

bound_artifacts :
    (ws g : String) (table artifacts : List Artifact)
    → All (λ (a : Artifact). a.source_generation_id ≡ g) table
    → any (λ a. not (is_bound ws table a)) artifacts ≡ false
    → AreOf ws g artifacts
bound_artifacts ws g table [] h e = tt
bound_artifacts ws g table (a ∷ rest) h e =
    ((ground arith, of_generation), bound_artifacts ws g table rest h (ground arith))
  where
    of_generation : a.source_generation_id ≡ g
    of_generation =
        elim (Option-cases
          (find String-discrete (λ (x : Artifact). x.projection_name) a.projection_name table)) [
            | inl absent ↦ absurd (ground arith)
            | inr (x, found) ↦
                let of_x =
                  find-All String-discrete (λ (x : Artifact). x.projection_name)
                    (λ (a : Artifact). a.source_generation_id ≡ g) a.projection_name table h
                    found in
                let same : x ≡ a = ground arith in
                subst (λ (a : Artifact). a.source_generation_id ≡ g) same of_x
          ]

All-by_name :
    (P : Artifact → Type 0) (table artifacts : List Artifact)
    → All P table
    → All P artifacts
    → All P (by_name table artifacts)
unfolding by_name
All-by_name P table [] ht ha = ht
All-by_name P table (a ∷ rest) ht ha =
    All-by_name P (put String-discrete (λ (x : Artifact). x.projection_name) a table) rest
      (All-put String-discrete (λ (x : Artifact). x.projection_name) P a table ha.0 ht) ha.1

pub assert_staged-AreOf :
    (ws d : String) (artifacts : List Artifact) (s : Store) (m : StagingManifest)
    → All IsOneGeneration s.staged
    → assert_staged ws d artifacts s ≡ some m
    → AreOf ws m.source_generation_id artifacts
unfolding assert_staged
assert_staged-AreOf ws d artifacts s m one e = elim (Option-cases (staged_at d s)) [
  | inl absent ↦ absurd (ground arith)
  | inr (x, found) ↦
      let same : x ≡ m = ground arith in
      let table = by_name [] m.artifacts in
      let own : IsOneGeneration m = subst IsOneGeneration same (
        find-All String-discrete (λ (m : StagingManifest). m.manifest_digest) IsOneGeneration d
          s.staged one found) in
      bound_artifacts ws m.source_generation_id table artifacts
        (All-by_name (λ (a : Artifact). a.source_generation_id ≡ m.source_generation_id) []
          m.artifacts tt own)
        (ground arith)
]

pub together_at : (d g : String) (p q : Option Pointer) → IsAt d g p → IsAt d g q → AreTogether p q
together_at d g none q hp hq = absurd hp
together_at d g (some p) none hp hq = absurd hq
together_at d g (some p) (some q) hp hq = (hp.0 ∙ sym hq.0, hp.1 ∙ sym hq.1)
