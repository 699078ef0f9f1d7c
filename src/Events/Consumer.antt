-- ===== src/Events/Consumer.antt =====
-- `OperationalEventConsumer.consume` of events.py. The handler is not part of it: its answer at a
-- call is an argument, `none` where `prepare` raises.
pub mod Outcomes
pub mod Once
pub mod Order
pub mod Failing
use wiki_spike.Base.{
  ℕ, ◌+◌, suc, String, Bool, true, false, not, Option, none, some, List, [], ◌∷◌, ltb, ◌=o◌,
  if◌then◌else◌,
}
use wiki_spike.Events.{
  OperationalEvent, ConsumerEffect, EventCheckpoint, ConsumeStatus, duplicate, ignored_stale,
  retry_later, processed, dead_lettered, ConsumeError, event_out_of_order, event_sequence_gap,
  event_parent_mismatch, event_handler_failed, event_checkpoint_conflict, EventConsumeResult,
}
use wiki_spike.Events.Store.{
  Store, seen, checkpoint, record_failure, commit, acknowledge_stale, dead_letter_and_advance,
}

abbrev pub expected_sequence : Option EventCheckpoint → ℕ
expected_sequence none = 1
expected_sequence (some c) = c.generation_seq + 1

abbrev pub expected_parent : Option EventCheckpoint → Option String
expected_parent none = none
expected_parent (some c) = some c.generation_id

module _ (max_attempts : ℕ) (consumer : String) where
  abbrev pub result :
      ConsumeStatus
      → OperationalEvent
      → ℕ
      → Option ConsumeError
      → Option EventCheckpoint
      → EventConsumeResult
  result status e attempts error at = record {
    status = status;
    event_id = e.event_id;
    checkpoint = at;
    attempts = attempts;
    error_code = error;
  }

  abbrev pub here : OperationalEvent → Store → Option EventCheckpoint
  here e s = checkpoint e.workspace_id consumer s

  unfoldable pub fail_event :
      OperationalEvent → Option EventCheckpoint → Store → EventConsumeResult × Store
  fail_event e at s =
      let (attempts, s1) = record_failure e.workspace_id consumer e.event_id s in
      if ltb attempts max_attempts
      then (result retry_later e attempts (some event_handler_failed) at, s1)
      else (let (done, s2) = dead_letter_and_advance consumer e at event_handler_failed s1 in
          if not done
          then (result retry_later e attempts (some event_checkpoint_conflict) (here e s2), s2)
          else (result dead_lettered e attempts (some event_handler_failed) (here e s2), s2))

  unfoldable pub commit_event :
      OperationalEvent
      → ConsumerEffect
      → Option EventCheckpoint
      → Store
      → EventConsumeResult × Store
  commit_event e effect at s =
      let (done, s1) = commit consumer e effect at s in
      if not done
      then (result retry_later e 0 (some event_checkpoint_conflict) (here e s1), s1)
      else (result processed e 1 none (here e s1), s1)

  abbrev pub handle :
      Option ConsumerEffect
      → OperationalEvent
      → Option EventCheckpoint
      → Store
      → EventConsumeResult × Store
  handle none e at s = fail_event e at s
  handle (some effect) e at s = commit_event e effect at s

  unfoldable pub consume :
      Option ConsumerEffect → OperationalEvent → Store → EventConsumeResult × Store
  unfolding fail_event commit_event
  consume answer e s =
      let at = here e s in
      if seen e.workspace_id consumer e.event_id s
      then (result duplicate e 0 none at, s)
      else if ltb e.generation_seq (expected_sequence at)
      then (result ignored_stale e 0 (some event_out_of_order) at, acknowledge_stale consumer e s)
      else if ltb (expected_sequence at) e.generation_seq
      then (result retry_later e 0 (some event_sequence_gap) at, s)
      else if not (e.parent_generation_id =o expected_parent at)
      then (result retry_later e 0 (some event_parent_mismatch) at, s)
      else handle answer e at s
