-- ===== src/Events/Consumer/Failing.antt =====
-- What becomes of the event that a consumer waits for: it is processed, or given up after
-- `max_attempts` failures, and either way the checkpoint moves on to it.
use wiki_spike.Base.{
  ℕ, zero, suc, ◌+◌, ◌<◌, ◌≤◌, String, Bool, true, false, ◌≡◌, refl, ◌∙◌, ap, none, some, arith,
}
use wiki_spike.Events.{
  OperationalEvent, ConsumerEffect, processed, dead_lettered, event_handler_failed,
  EventConsumeResult,
}
use wiki_spike.Events.Store.{
  Store, seen, checkpoint, effect, dead_letter, failures_of, event_key_of, record_failure, commit,
  dead_letter_and_advance, next_checkpoint,
}
use wiki_spike.Events.Store.Rows.{checkpoint-advance, seen-add, value-put, same_checkpoint_self}
use wiki_spike.Events.Consumer.{result, consume}
use wiki_spike.Events.Consumer.Outcomes.{
  IsNext, attempts_at, failed, given_up, committed, consume-Outcome, was_seen, was_stale, was_early,
  was_foreign, has_failed, has_given_up, has_processed,
}

module _ (max_attempts : ℕ) (consumer : String) (e : OperationalEvent) where
  -- The event has been taken in: the checkpoint is at it, and it is seen.
  pub record IsTaken (s : Store) : Type 0 where
    pub at_event : checkpoint e.workspace_id consumer s ≡ some (next_checkpoint consumer e)
    pub seen_event : seen e.workspace_id consumer e.event_id s ≡ true

  committed-IsTaken :
      (f : ConsumerEffect) (s : Store)
      → IsNext max_attempts consumer e s
      → IsTaken (committed max_attempts consumer e f s)
        × (effect e.workspace_id consumer e.event_id (committed max_attempts consumer e f s)
            ≡ some f)
  unfolding commit checkpoint effect seen
  committed-IsTaken f s next =
      let key = event_key_of consumer e in
      let n = next.new in
      let same = same_checkpoint_self (checkpoint e.workspace_id consumer s) in
      let at = checkpoint-advance consumer e e.workspace_id consumer s in
      let saw = seen-add consumer e e.workspace_id consumer e.event_id s in
      let kept = value-put key key f s.effects in ground arith

  given_up-IsTaken :
      (s : Store)
      → IsNext max_attempts consumer e s
      → IsTaken (given_up max_attempts consumer e s)
        × (dead_letter e.workspace_id consumer e.event_id (given_up max_attempts consumer e s)
            ≡ some event_handler_failed)
  unfolding record_failure dead_letter_and_advance checkpoint dead_letter seen
  given_up-IsTaken s next =
      let key = event_key_of consumer e in
      let same = same_checkpoint_self (checkpoint e.workspace_id consumer s) in
      let at = checkpoint-advance consumer e e.workspace_id consumer s in
      let saw = seen-add consumer e e.workspace_id consumer e.event_id s in
      let kept = value-put key key event_handler_failed s.dead_letters in ground arith

  failed-IsNext :
      (s : Store)
      → IsNext max_attempts consumer e s
      → IsNext max_attempts consumer e (failed max_attempts consumer e s)
  unfolding record_failure seen checkpoint
  failed-IsNext s next = record { new = next.new; sequence = next.sequence; parent = next.parent }

  failed-attempts :
      (s : Store)
      → attempts_at max_attempts consumer e (failed max_attempts consumer e s)
        ≡ suc (attempts_at max_attempts consumer e s)
  unfolding record_failure failures_of
  failed-attempts s =
      let key = event_key_of consumer e in
      let counted = value-put key key (failures_of key s + 1) s.failures in ground arith

  -- `n` calls in which the handler raises.
  unfoldable pub failures : ℕ → Store → Store
  failures zero s = s
  failures (suc n) s = failures n (consume max_attempts consumer none e s).1

  clash : {b : Bool} → b ≡ true → b ≡ false → ⊥
  clash p q = ground arith

  failed_step :
      (s : Store)
      → IsNext max_attempts consumer e s
      → attempts_at max_attempts consumer e s < max_attempts
      → (consume max_attempts consumer none e s).1 ≡ failed max_attempts consumer e s
  failed_step s next more = elim (consume-Outcome max_attempts consumer none e s) [
    | was_seen old run ↦ absurd (clash old next.new)
    | was_stale new stale run ↦ absurd (ground (arith, next.sequence))
    | was_early new early run ↦ absurd (ground (arith, next.sequence))
    | was_foreign new due foreign run ↦ absurd (foreign next.parent)
    | has_failed n raised m run ↦ ap (λ (r : EventConsumeResult × Store). r.1) run
    | has_given_up n raised enough run ↦ absurd (omega arith)
    | has_processed n f given run ↦ absurd (ground arith)
  ]

  failures_left :
      (n : ℕ) (s : Store)
      → IsNext max_attempts consumer e s
      → attempts_at max_attempts consumer e s + n ≡ max_attempts
      → IsNext max_attempts consumer e (failures n s)
        × (attempts_at max_attempts consumer e (failures n s) ≡ max_attempts)
  unfolding failures
  failures_left zero s next h = (next, omega (arith, h))
  failures_left (suc n) s next h =
      let step = failed_step s next (omega (arith, h)) in
      rw step (
        failures_left n (failed max_attempts consumer e s) (failed-IsNext s next)
          (omega (arith, h, failed-attempts s)))

  pub consume_next_run :
      (f : ConsumerEffect) (s : Store)
      → IsNext max_attempts consumer e s
      → consume max_attempts consumer (some f) e s ≡ (
        result max_attempts consumer processed e 1 none (some (next_checkpoint consumer e)),
        committed max_attempts consumer e f s,
      )
  consume_next_run f s next = elim (consume-Outcome max_attempts consumer (some f) e s) [
    | was_seen old run ↦ absurd (clash old next.new)
    | was_stale new stale run ↦ absurd (ground (arith, next.sequence))
    | was_early new early run ↦ absurd (ground (arith, next.sequence))
    | was_foreign new due foreign run ↦ absurd (foreign next.parent)
    | has_failed n raised m run ↦ absurd (ground arith)
    | has_given_up n raised enough run ↦ absurd (ground arith)
    | has_processed n g given run ↦
        let same : g ≡ f = ground arith in
        let taken = (committed-IsTaken g s next).0 in
        run
        ∙ ap
            (λ at. (
              result max_attempts consumer processed e 1 none at,
              committed max_attempts consumer e g s,
            ))
            taken.at_event
        ∙ ap
            (λ h. (
              result max_attempts consumer processed e 1 none (some (next_checkpoint consumer e)),
              committed max_attempts consumer e h s,
            ))
            same
  ]

  -- The event that the consumer waits for is processed where the handler answers: its effect is stored,
  -- the checkpoint moves to it, and it is seen from then on.
  pub consume_next :
      (f : ConsumerEffect) (s : Store)
      → IsNext max_attempts consumer e s
      → let after = consume max_attempts consumer (some f) e s in
        (after.0
          ≡ result max_attempts consumer processed e 1 none (some (next_checkpoint consumer e)))
        × IsTaken after.1
        × (effect e.workspace_id consumer e.event_id after.1 ≡ some f)
  consume_next f s next =
      let (taken, stored) = committed-IsTaken f s next in
      rw (consume_next_run f s next) (refl, taken, stored)

  give_up_last :
      (s : Store)
      → IsNext max_attempts consumer e s
      → max_attempts ≤ attempts_at max_attempts consumer e s
      → let after = consume max_attempts consumer none e s in
        (after.0
          ≡ result max_attempts consumer dead_lettered e
              (attempts_at max_attempts consumer e s)
              (some event_handler_failed)
              (some (next_checkpoint consumer e)))
        × IsTaken after.1
        × (dead_letter e.workspace_id consumer e.event_id after.1 ≡ some event_handler_failed)
  give_up_last s next last = elim (consume-Outcome max_attempts consumer none e s) [
    | was_seen old run ↦ absurd (clash old next.new)
    | was_stale new stale run ↦ absurd (ground (arith, next.sequence))
    | was_early new early run ↦ absurd (ground (arith, next.sequence))
    | was_foreign new due foreign run ↦ absurd (foreign next.parent)
    | has_failed n raised m run ↦ absurd (omega arith)
    | has_processed n g given run ↦ absurd (ground arith)
    | has_given_up n raised enough run ↦
        let (taken, stored) = given_up-IsTaken s next in
        rw (run, taken.at_event) (refl, taken, stored)
  ]

  -- An event that the consumer waits for and that has not failed yet is retried while the handler
  -- raises, and given up in the call number `max_attempts`: it is a dead letter then, the checkpoint
  -- moves on to it, and it is seen.
  pub dead_lettered_after :
      (n : ℕ) (s : Store)
      → IsNext max_attempts consumer e s
      → failures_of (event_key_of consumer e) s ≡ 0
      → max_attempts ≡ suc n
      → let after = consume max_attempts consumer none e (failures n s) in
        (after.0
          ≡ result max_attempts consumer dead_lettered e max_attempts
              (some event_handler_failed)
              (some (next_checkpoint consumer e)))
        × IsTaken after.1
        × (dead_letter e.workspace_id consumer e.event_id after.1 ≡ some event_handler_failed)
  dead_lettered_after n s next unfailed count =
      let (still, at) = failures_left n s next (omega (arith, unfailed, count)) in
      let (given, taken, stored) = give_up_last (failures n s) still (omega (arith, at)) in
      let numbered =
        ap
          (λ k.
            result max_attempts consumer dead_lettered e k (some event_handler_failed)
              (some (next_checkpoint consumer e)))
          at in
      (given ∙ numbered, taken, stored)
