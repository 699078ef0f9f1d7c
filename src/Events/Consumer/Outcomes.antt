-- ===== src/Events/Consumer/Outcomes.antt =====
-- All that `consume` can come to. In a store of its own it never reports a conflict.
use wiki_spike.Base.{
  ℕ, ◌+◌, ◌<◌, ◌≤◌, String, true, false, ◌≡◌, ◌≢◌, refl, Option, none, some, arith, Bool-cases,
  Option-cases, inl, inr, ltb, ◌=o◌, =o→eq, ◌⊎◌,
}
use wiki_spike.Events.{
  OperationalEvent, ConsumerEffect, EventCheckpoint, duplicate, ignored_stale, retry_later,
  processed, dead_lettered, event_out_of_order, event_sequence_gap, event_parent_mismatch,
  event_handler_failed,
}
use wiki_spike.Events.Store.{
  Store, seen, checkpoint, event_key_of, failures_of, record_failure, commit, acknowledge_stale,
  dead_letter_and_advance,
}
use wiki_spike.Events.Store.Rows.{same_checkpoint_self}
use wiki_spike.Events.Consumer.{
  expected_sequence, expected_parent, result, fail_event, commit_event, consume,
}

module _ (max_attempts : ℕ) (consumer : String) where
  -- The event is new, and is the one that the checkpoint waits for.
  pub record IsNext (e : OperationalEvent) (s : Store) : Type 0 where
    pub new : seen e.workspace_id consumer e.event_id s ≡ false
    pub sequence : e.generation_seq ≡ expected_sequence (checkpoint e.workspace_id consumer s)
    pub parent : e.parent_generation_id ≡ expected_parent (checkpoint e.workspace_id consumer s)

  abbrev pub attempts_at : OperationalEvent → Store → ℕ
  attempts_at e s = failures_of (event_key_of consumer e) s + 1

  abbrev pub failed : OperationalEvent → Store → Store
  failed e s = (record_failure e.workspace_id consumer e.event_id s).1

  abbrev pub given_up : OperationalEvent → Store → Store
  given_up e s =
      (dead_letter_and_advance consumer e (checkpoint e.workspace_id consumer s)
        event_handler_failed (failed e s)).1

  abbrev pub committed : OperationalEvent → ConsumerEffect → Store → Store
  committed e f s = (commit consumer e f (checkpoint e.workspace_id consumer s) s).1

  abbrev at : OperationalEvent → Store → Option EventCheckpoint
  at e s = checkpoint e.workspace_id consumer s

  pub data Outcome (answer : Option ConsumerEffect) (e : OperationalEvent) (s : Store)
      : Type 0 where
    was_seen :
        seen e.workspace_id consumer e.event_id s ≡ true
        → consume max_attempts consumer answer e s
          ≡ (result max_attempts consumer duplicate e 0 none (at e s), s)
        → Outcome answer e s
    was_stale :
        seen e.workspace_id consumer e.event_id s ≡ false
        → e.generation_seq < expected_sequence (at e s)
        → consume max_attempts consumer answer e s ≡ (
          result max_attempts consumer ignored_stale e 0 (some event_out_of_order) (at e s),
          acknowledge_stale consumer e s,
        )
        → Outcome answer e s
    was_early :
        seen e.workspace_id consumer e.event_id s ≡ false
        → expected_sequence (at e s) < e.generation_seq
        → consume max_attempts consumer answer e s
          ≡ (result max_attempts consumer retry_later e 0 (some event_sequence_gap) (at e s), s)
        → Outcome answer e s
    was_foreign :
        seen e.workspace_id consumer e.event_id s ≡ false
        → e.generation_seq ≡ expected_sequence (at e s)
        → e.parent_generation_id ≢ expected_parent (at e s)
        → consume max_attempts consumer answer e s
          ≡ (result max_attempts consumer retry_later e 0 (some event_parent_mismatch) (at e s), s)
        → Outcome answer e s
    has_failed :
        IsNext e s
        → answer ≡ none
        → attempts_at e s < max_attempts
        → consume max_attempts consumer answer e s ≡ (
          result max_attempts consumer retry_later e
              (attempts_at e s)
              (some event_handler_failed)
              (at e s),
          failed e s,
        )
        → Outcome answer e s
    has_given_up :
        IsNext e s
        → answer ≡ none
        → max_attempts ≤ attempts_at e s
        → consume max_attempts consumer answer e s ≡ (
          result max_attempts consumer dead_lettered e
              (attempts_at e s)
              (some event_handler_failed)
              (at e (given_up e s)),
          given_up e s,
        )
        → Outcome answer e s
    has_processed :
        IsNext e s
        → (f : ConsumerEffect) → answer ≡ some f
        → consume max_attempts consumer answer e s ≡ (
          result max_attempts consumer processed e 1 none (at e (committed e f s)),
          committed e f s,
        )
        → Outcome answer e s

  failed-checkpoint : (e : OperationalEvent) (s : Store) → at e (failed e s) ≡ at e s
  unfolding record_failure checkpoint
  failed-checkpoint e s = refl

  attempts_lem :
      (e : OperationalEvent) (s : Store)
      → (record_failure e.workspace_id consumer e.event_id s).0 ≡ attempts_at e s
  unfolding record_failure
  attempts_lem e s = refl

  give_up-ok :
      (e : OperationalEvent) (s : Store)
      → (dead_letter_and_advance consumer e (at e s) event_handler_failed (failed e s)).0 ≡ true
  unfolding dead_letter_and_advance
  give_up-ok e s = ground (arith, failed-checkpoint e s, same_checkpoint_self (at e s))

  commit-ok :
      (e : OperationalEvent) (f : ConsumerEffect) (s : Store)
      → (commit consumer e f (at e s) s).0 ≡ true
  unfolding commit
  commit-ok e f s = ground (arith, same_checkpoint_self (at e s))

  fail_lem :
      (e : OperationalEvent) (s : Store)
      → ((attempts_at e s < max_attempts)
          × (fail_event max_attempts consumer e (at e s) s ≡ (
            result max_attempts consumer retry_later e
                (attempts_at e s)
                (some event_handler_failed)
                (at e s),
            failed e s,
          )))
        ⊎ ((max_attempts ≤ attempts_at e s)
            × (fail_event max_attempts consumer e (at e s) s ≡ (
              result max_attempts consumer dead_lettered e
                  (attempts_at e s)
                  (some event_handler_failed)
                  (at e (given_up e s)),
              given_up e s,
            )))
  unfolding fail_event
  fail_lem e s = ground (arith, attempts_lem e s, give_up-ok e s)

  commit_event_lem :
      (e : OperationalEvent) (f : ConsumerEffect) (s : Store)
      → commit_event max_attempts consumer e f (at e s) s ≡ (
        result max_attempts consumer processed e 1 none (at e (committed e f s)),
        committed e f s,
      )
  unfolding commit_event
  commit_event_lem e f s = rw (commit-ok e f s) refl

  -- Every call of `consume` is one of the seven outcomes.
  pub consume-Outcome :
      (answer : Option ConsumerEffect) (e : OperationalEvent) (s : Store) → Outcome answer e s
  unfolding consume
  consume-Outcome answer e s = elim (Bool-cases (seen e.workspace_id consumer e.event_id s)) [
    | inl old ↦ was_seen old (ground arith)
    | inr new ↦ elim (Bool-cases (ltb e.generation_seq (expected_sequence (at e s)))) [
      | inl stale ↦ was_stale new (ground arith) (ground arith)
      | inr current ↦ elim (Bool-cases (ltb (expected_sequence (at e s)) e.generation_seq)) [
        | inl early ↦ was_early new (ground arith) (ground arith)
        | inr due ↦ elim (Bool-cases (e.parent_generation_id =o expected_parent (at e s))) [
          | inr foreign ↦ was_foreign new (ground arith) (λ same. ground arith) (ground arith)
          | inl child ↦
              let next : IsNext e s = record {
                new = new;
                sequence = ground arith;
                parent = =o→eq _ _ child;
              } in
              elim (Option-cases answer) [
                | inr (f, given) ↦
                    has_processed next f given
                      (rw (new, current, due, child, given) (commit_event_lem e f s))
                | inl raised ↦ elim (fail_lem e s) [
                  | inl (more, run) ↦
                      has_failed next raised more (rw (new, current, due, child, raised) run)
                  | inr (enough, run) ↦
                      has_given_up next raised enough (rw (new, current, due, child, raised) run)
                ]
              ]
        ]
      ]
    ]
  ]
