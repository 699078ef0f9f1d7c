-- ===== src/Models/Examples.antt =====
-- A source that is accepted.
use wiki_spike.Base.{◌≡◌, refl, Option, some, List, [], ◌∷◌}
use wiki_spike.Models.Manifest.{
  Status, received, staged, validated, accepted, SourceManifest, received_manifest, transition,
}
use wiki_spike.Models.Manifest.Lifecycle.{transitions, accepted_route, route}

abbrev source : SourceManifest
source = record {
  source_id = "s";
  content_hash = "s";
  license = "unspecified";
  duplicate_cluster_id = Option.none;
  status = received;
  temporal_provenance = [];
  lineage = [];
}

abbrev steps : List Status
steps = staged ∷ validated ∷ accepted ∷ []

accepted_source :
    transitions (received_manifest "s" "s") steps ≡ some (record source { status = accepted })
unfolding transitions transition received_manifest
accepted_source = refl

accepted_route_example : route received ≡ some steps
unfolding received_manifest
accepted_route_example =
    accepted_route (received_manifest "s" "s") (record source { status = accepted }) steps
      accepted_source refl
