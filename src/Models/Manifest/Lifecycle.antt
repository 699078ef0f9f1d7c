-- ===== src/Models/Manifest/Lifecycle.antt =====
-- What the table of transitions means for the life of a source.
use wiki_spike.Base.{
  ◌≡◌, refl, ◌↔◌, inl, inr, Option, none, some, List, [], ◌∷◌, arith, Option-cases,
}
use wiki_spike.Base.Optional.{◌>>=◌}
use wiki_spike.Models.Manifest.{
  Status, received, staged, validated, accepted, quarantined, revoked, SourceManifest, transition,
}

-- A source is staged, validated and accepted in this order; it may be quarantined until it is
-- accepted, and revoked afterwards only.
infix 40 ◌⟶◌
pub data ◌⟶◌ : Status → Status → Type 0 where
  stage : received ⟶ staged
  validate : staged ⟶ validated
  accept : validated ⟶ accepted
  revoke : accepted ⟶ revoked
  reject_received : received ⟶ quarantined
  reject_staged : staged ⟶ quarantined
  reject_validated : validated ⟶ quarantined

ruleset arrows = (stage, validate, accept, revoke, reject_received, reject_staged, reject_validated)

allowed :
    (m m' : SourceManifest) (to : Status)
    → transition m to ≡ some m'
    → (m.status ⟶ to) × (m' ≡ record m { status = to })
unfolding transition
allowed m m' to h = grind (arith, arrows)

-- By the constructors of the relation: each gives the test its value.
moves :
    (s to : Status)
    → s ⟶ to
    → (m : SourceManifest) → m.status ≡ s
    → transition m to ≡ some (record m { status = to })
unfolding transition
moves s to stage m e = ground arith
moves s to validate m e = ground arith
moves s to accept m e = ground arith
moves s to revoke m e = ground arith
moves s to reject_received m e = ground arith
moves s to reject_staged m e = ground arith
moves s to reject_validated m e = ground arith

-- A transition succeeds exactly along an arrow, and then changes the status and nothing else.
pub transition_iff :
    (m m' : SourceManifest) (to : Status)
    → (transition m to ≡ some m') ↔ ((m.status ⟶ to) × (m' ≡ record m { status = to }))
transition_iff m m' to = (allowed m m' to, λ (a, e). rw e (moves m.status to a m refl))

-- The transitions that succeed one after the other.
unfoldable pub transitions : SourceManifest → List Status → Option SourceManifest
transitions m [] = some m
transitions m (to ∷ tos) = do m' ← transition m to; transitions m' tos

-- The one way from a status to acceptance.
abbrev pub route : Status → Option (List Status)
route received = some (staged ∷ validated ∷ accepted ∷ [])
route staged = some (validated ∷ accepted ∷ [])
route validated = some (accepted ∷ [])
route accepted = some []
route quarantined = none
route revoked = none

route-step :
    (s to : Status) (tos : List Status) → s ⟶ to → route to ≡ some tos → route s ≡ some (to ∷ tos)
route-step s to tos stage e = cc
route-step s to tos validate e = cc
route-step s to tos accept e = cc
route-step s to tos revoke e = cc
route-step s to tos reject_received e = cc
route-step s to tos reject_staged e = cc
route-step s to tos reject_validated e = cc

-- Transitions that end in acceptance were the one route that the status has to it: a received source
-- was staged, validated and accepted, in this order, and a quarantined or revoked one has no route.
pub accepted_route :
    (m m' : SourceManifest) (tos : List Status)
    → transitions m tos ≡ some m'
    → m'.status ≡ accepted
    → route m.status ≡ some tos
unfolding transitions
accepted_route m m' [] h a = ground arith
accepted_route m m' (to ∷ tos) h a = elim (Option-cases (transition m to)) [
  | inl e ↦ absurd (ground arith)
  | inr (m1, e) ↦
      let (arrow, same) = allowed m m1 to e in
      route-step m.status to tos arrow (ground (arith, accepted_route m1 m' tos))
]
