-- ===== src/ControlPlane/Examples.antt =====
-- Runs of the control plane, and its theorems at them.
use wiki_spike.Base.{
  String, ◌≡◌, refl, ◌↔◌, true, none, some, List, [], ◌∷◌, text_ne, Ordered, String-discrete,
  Key-discrete, ℕ_discrete,
}
use wiki_spike.Exec.{ok, err, no_required_read_models}
use wiki_spike.Table.{find, update, insert_or_ignore, insert_or_replace}
use wiki_spike.ControlPlane.Schema.{Db, InlineArtifacts, ReadModel, published, empty_db}
use wiki_spike.ControlPlane.Lease.{acquire_lease}
use wiki_spike.ControlPlane.Lease.Fencing.{LeaseCall, acquire, grants, Fences, grants-Fences}
use wiki_spike.ControlPlane.Generations.{
  generation_state, register_generation, set_read_models_ready, mark_read_model,
  required_from_manifest,
}
use wiki_spike.ControlPlane.Activation.{
  activate, release_commit, read_model_row, check_read_models, publish_row, supersede_row, enqueue,
}
use wiki_spike.ControlPlane.Activation.Atomic.{IsReady, activate-ok_iff}
use wiki_spike.ControlPlane.Invariant.{
  Call, registering, marking, readying, activating, perform, perform_all,
}
use wiki_spike.ControlPlane.Invariant.Pointer.{published_iff_current}
use wiki_spike.ControlPlane.Invariant.Events.{IsAnnounced, perform_all-IsAnnounced}

abbrev rivals : List LeaseCall
rivals = acquire "a" 10 30 ∷ acquire "b" 20 30 ∷ acquire "a" 25 30 ∷ acquire "b" 60 30 ∷ []

grants-Fences_example : Ordered Fences (grants rivals empty_db)
grants-Fences_example = grants-Fences rivals empty_db

abbrev held_by_a : Db
held_by_a = (acquire_lease "a" 10 30 empty_db).1

abbrev manifest : InlineArtifacts
manifest = record { wiki_files_root = some "w1"; citation_index_digest = some "c1" }

abbrev preparing : List Call
preparing =
    registering "g1" none "oid1" "hash1" manifest (some "rel1")
    ∷ marking "g1" "wiki_files" "w1"
    ∷ marking "g1" "citation_index" "c1"
    ∷ readying "g1"
    ∷ []

abbrev prepared : Db
prepared = perform_all preparing empty_db

abbrev bound_row : String → String → ReadModel
bound_row name digest = record {
  generation_id = "g1";
  model_name = name;
  is_ready = true;
  artifact_digest = some digest;
}

prepared-IsReady : IsReady "g1" none "rel1" prepared
unfolding perform_all perform register_generation mark_read_model set_read_models_ready find update
    insert_or_ignore insert_or_replace String-discrete Key-discrete required_from_manifest
    release_commit read_model_row
prepared-IsReady = record {
  requires = λ e. cc;
  parent = refl;
  state = refl;
  release = refl;
  release_named = text_ne "rel1" "" refl;
  bound = (
    record { row = bound_row "wiki_files" "w1"; found = refl; ready = refl; digest = refl },
    (
      record { row = bound_row "citation_index" "c1"; found = refl; ready = refl; digest = refl },
      tt,
    ),
  );
}

activate-ok_iff_example :
    ((activate "g1" none "rel1" prepared).0 ≡ ok tt) ↔ IsReady "g1" none "rel1" prepared
activate-ok_iff_example = activate-ok_iff "g1" none "rel1" prepared

again : (activate "g1" none "rel1" empty_db).0 ≡ err no_required_read_models
unfolding activate required_from_manifest find
again = refl

abbrev publishing : List Call
publishing =
    registering "g1" none "oid1" "hash1" manifest (some "rel1")
    ∷ marking "g1" "wiki_files" "w1"
    ∷ marking "g1" "citation_index" "c1"
    ∷ readying "g1"
    ∷ activating "g1" none "rel1"
    ∷ []

is_published : (perform_all publishing empty_db).current_generation_id ≡ some "g1"
unfolding perform_all perform register_generation mark_read_model set_read_models_ready find update
    insert_or_ignore insert_or_replace String-discrete Key-discrete required_from_manifest
    release_commit read_model_row activate check_read_models publish_row supersede_row enqueue
    ℕ_discrete
is_published = refl

published_iff_current_example :
    (generation_state "g1" (perform_all publishing empty_db) ≡ some published)
    ↔ ((perform_all publishing empty_db).current_generation_id ≡ some "g1")
published_iff_current_example = published_iff_current publishing "g1"

perform_all-IsAnnounced_example : IsAnnounced (perform_all publishing empty_db)
perform_all-IsAnnounced_example = perform_all-IsAnnounced publishing
