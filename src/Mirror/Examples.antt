-- ===== src/Mirror/Examples.antt =====
-- A remote that takes every push, and a run of the mirror with it.
use wiki_spike.Base.{
  ℕ, String, ◌≡◌, refl, true, false, Option, none, some, List, [], ◌∷◌, length, ◌=s◌, =s-self,
  if◌then◌else◌, inl, inr, All, contains, arith, String-discrete,
}
use wiki_spike.Exec.{ok}
use wiki_spike.ControlPlane.Schema.{OutboxEvent, release_mirror_requested, empty_db}
use wiki_spike.ControlPlane.Outbox.{pending_outbox}
use wiki_spike.Mirror.{Git, World, process_outbox, generation_refspec, release_refspec}
use wiki_spike.Mirror.Pushes.{View, Leaves, IsReachable, CanPush, HasRelease, AtRelease}
use wiki_spike.Mirror.Completion.{process_outbox_completes}

-- The refspecs that the remote has taken, and the release pointers here and there.
record Pushed : Type 0 where
  sent : List String
  anchored : Option String
  released : Option String

abbrev working : Git Pushed
working = record {
  ensure_remote = λ r. (ok tt, r);
  push = λ spec r.
      if spec =s release_refspec
      then (ok tt, record r { released = r.anchored })
      else (ok tt, record r { sent = spec ∷ r.sent });
  set_retention_anchor = λ ref oid r. (ok tt, record r { anchored = some oid });
}

-- Each generation is the commit c1.
abbrev view : View Pushed
view = record {
  local_generation = λ id r. if generation_refspec id =s release_refspec then none else some "c1";
  remote_generation = λ id r. if contains r.sent (generation_refspec id) then some "c1" else none;
  local_release = λ r. r.anchored;
  remote_release = λ r. r.released;
  there = λ oid r. true;
}

abbrev event : ℕ → String → OutboxEvent
event n id = record {
  event_id = n;
  event_type = release_mirror_requested;
  generation_id = id;
  processed = false;
}

abbrev two_events : World Pushed
two_events = record {
  db = record empty_db {
    outbox = event 1 "g1" ∷ event 2 "g2" ∷ [];
    last_event_id = 2;
    publication = record empty_db.publication { current_release_commit_oid = some "rel" };
  };
  remote = record { sent = []; anchored = none; released = none };
}

working-Leaves : (spec : String) (r : Pushed) → Leaves working view r (working.push spec r).1
working-Leaves spec r = record { same_local = λ id. refl; same_objects = λ oid t. refl }

working-IsReachable : IsReachable working view
working-IsReachable = record {
  ensures = λ r. refl;
  ensures_leaves = λ r. record { same_local = λ id. refl; same_objects = λ oid t. t };
  ensures_remote = λ id r. refl;
  pushes = λ id oid r here free. ground (arith, =s-self (generation_refspec id));
  push_leaves = λ id r. working-Leaves (generation_refspec id) r;
  push_others = λ id other r apart. ground (arith, apart);
  anchors = λ oid r there. (refl, refl);
  anchor_leaves = λ oid r. record { same_local = λ id. refl; same_objects = λ o t. t };
  anchor_remote = λ oid id r. refl;
  forces = λ oid r here.
      (ground (arith, =s-self release_refspec), ground (arith, =s-self release_refspec));
  force_leaves = λ r. working-Leaves release_refspec r;
  force_others = λ id r. ground (arith, =s-self release_refspec);
}

can_push :
    All
      (λ (e : OutboxEvent). CanPush working view e.generation_id two_events.remote)
      (pending_outbox two_events.db)
unfolding pending_outbox generation_refspec String-discrete
can_push = (("c1", refl, inl refl), (("c1", refl, inl refl), tt))

has_release : HasRelease working view (some "rel") two_events.remote
unfolding String-discrete
has_release = inr (refl, refl)

process_outbox_completes_example :
    ((process_outbox working two_events).0 ≡ ok (length (pending_outbox two_events.db)))
    × (pending_outbox (process_outbox working two_events).1.db ≡ [])
    × All
        (λ (e : OutboxEvent).
          view.remote_generation e.generation_id (process_outbox working two_events).1.remote
          ≡ view.local_generation e.generation_id two_events.remote)
        (pending_outbox two_events.db)
    × AtRelease working view (some "rel") (process_outbox working two_events).1.remote
process_outbox_completes_example =
    process_outbox_completes working view working-IsReachable two_events can_push has_release
