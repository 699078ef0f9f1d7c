-- ===== src/Events/Examples.antt =====
-- Runs of a consumer, and the theorems of events.py at them.
use Prim.Native.Nat.{ℕ}
use wiki_spike.Base.{
  String, ◌≡◌, refl, true, Option, none, some, List, [], ◌∷◌, arith, text_ne, String-discrete,
}
use wiki_spike.Table.{find}
use wiki_spike.Events.{OperationalEvent, ConsumerEffect, EventConsumeResult}
use wiki_spike.Events.Store.{Store, empty_store, seen, checkpoint, failures_of, event_key_of}
use wiki_spike.Events.Consumer.{consume}
use wiki_spike.Events.Consumer.Outcomes.{IsNext}
use wiki_spike.Events.Consumer.Once.{Call, run_calls}
use wiki_spike.Events.Consumer.Order.{Follows, run_calls-Follows}
use wiki_spike.Events.Consumer.Failing.{failures, consume_next}
use wiki_spike.Events.Replay.{events_after, take, replay, floor_of}
use wiki_spike.Events.Replay.Complete.{Completes, replay-Completes}

abbrev event : String → String → Option String → ℕ → OperationalEvent
event id generation parent seq = record {
  event_id = id;
  body = record {
    workspace_id = "w";
    generation_id = generation;
    parent_generation_id = parent;
    generation_seq = seq;
    event_type = "generation_published";
    causation_id = "c";
    correlation_id = "c";
    sensitivity = "internal";
    payload_ref = none;
    emitted_at = "2026-01-01T00:00:00Z";
  };
}

abbrev first : OperationalEvent
first = event "e1" "g1" none 1

abbrev second : OperationalEvent
second = event "e2" "g2" (some "g1") 2

abbrev digest : ConsumerEffect
digest = record { effect_digest = "d"; result_ref = none }

abbrev after_first : Store
after_first = (consume 3 "mirror" (some digest) first empty_store).1

first-IsNext : IsNext 3 "mirror" first empty_store
unfolding seen checkpoint find
first-IsNext = record { new = refl; sequence = refl; parent = refl }

first_seen : seen "w" "mirror" "e1" after_first ≡ true
first_seen = (consume_next 3 "mirror" first digest empty_store first-IsNext).1.seen_event

abbrev calls : List Call
calls =
    record { max_attempts = 3; consumer = "mirror"; answer = some digest; event = second }
    ∷ record { max_attempts = 3; consumer = "mirror"; answer = none; event = first }
    ∷ []

run_calls-Follows_example :
    Follows "w" "mirror" calls
      (checkpoint "w" "mirror" after_first)
      (checkpoint "w" "mirror" (run_calls calls after_first))
run_calls-Follows_example = run_calls-Follows calls "w" "mirror" after_first

never_failed : failures_of (event_key_of "mirror" first) empty_store ≡ 0
unfolding failures_of find
never_failed = refl

abbrev third_failure : EventConsumeResult × Store
third_failure = consume 3 "mirror" none first (failures 3 "mirror" first 2 empty_store)

abbrev log : List OperationalEvent
log = second ∷ first ∷ []

abbrev digest_all : OperationalEvent → Option ConsumerEffect
digest_all e = some digest

log_in_order :
    take 10 (events_after "w" (floor_of (checkpoint "w" "mirror" empty_store)) log)
    ≡ first ∷ second ∷ []
unfolding take events_after checkpoint find String-discrete
log_in_order = refl

replay-Completes_example :
    Completes 3 "mirror" "w" digest_all
      (checkpoint "w" "mirror" empty_store)
      (first ∷ second ∷ [])
      (replay 3 "mirror" digest_all "w" 10 log empty_store)
unfolding checkpoint seen find String-discrete
replay-Completes_example =
    replay-Completes 3 "mirror" "w" digest_all 10 log empty_store (first ∷ second ∷ []) log_in_order
      (refl, refl, refl, (refl, refl, refl, tt)) (refl, (refl, tt))
      ((text_ne "e1" "e2" refl, tt), (tt, tt)) ((λ e. ground arith), ((λ e. ground arith), tt))
