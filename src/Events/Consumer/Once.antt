-- ===== src/Events/Consumer/Once.antt =====
-- An event is handled at most once: what is seen stays seen, and its effect stays.
use wiki_spike.Base.{ℕ, String, true, false, ◌≡◌, refl, ◌∙◌, Option, none, List, [], ◌∷◌, arith}
use wiki_spike.Events.{
  OperationalEvent, ConsumerEffect, EventCheckpoint, ConsumeError, duplicate, event_handler_failed,
}
use wiki_spike.Events.Store.{
  Store, event_key_of, seen, checkpoint, record_failure, commit, acknowledge_stale,
  dead_letter_and_advance, effect, dead_letter,
}
use wiki_spike.Events.Store.Rows.{seen-add, value-put}
use wiki_spike.Events.Consumer.Outcomes.{
  failed, consume-Outcome, was_seen, was_stale, was_early, was_foreign, has_failed, has_given_up,
  has_processed,
}
use wiki_spike.Events.Consumer.{result, here, consume}

-- What the event has come to, in the store `b`, is what it has come to in `a`.
pub record IsFinal (w c i : String) (a b : Store) : Type 0 where
  pub still_seen : seen w c i b ≡ true
  pub same_effect : effect w c i b ≡ effect w c i a
  pub same_dead_letter : dead_letter w c i b ≡ dead_letter w c i a

module _ (w c i : String) where
  acknowledge-IsFinal :
      (consumer : String) (e : OperationalEvent) (s : Store)
      → seen w c i s ≡ true
      → IsFinal w c i s (acknowledge_stale consumer e s)
  unfolding acknowledge_stale effect dead_letter
  acknowledge-IsFinal consumer e s h = record {
    still_seen = ground (arith, seen-add consumer e w c i s);
    same_effect = refl;
    same_dead_letter = refl;
  }

  commit-IsFinal :
      (consumer : String) (e : OperationalEvent) (effect : ConsumerEffect)
      (at : Option EventCheckpoint) (s : Store)
      → seen w c i s ≡ true
      → IsFinal w c i s (commit consumer e effect at s).1
  unfolding commit effect dead_letter seen
  commit-IsFinal consumer e f at s h =
      let k = event_key_of consumer e in
      let kept = seen-add consumer e w c i s in
      let put_effect = value-put k (w, c, i) f s.effects in ground arith

  dead_letter-IsFinal :
      (consumer : String) (e : OperationalEvent) (at : Option EventCheckpoint) (x : ConsumeError)
      (s : Store)
      → seen e.workspace_id consumer e.event_id s ≡ false
      → seen w c i s ≡ true
      → IsFinal w c i s (dead_letter_and_advance consumer e at x s).1
  unfolding dead_letter_and_advance effect dead_letter seen
  dead_letter-IsFinal consumer e at x s n h =
      let k = event_key_of consumer e in
      let kept = seen-add consumer e w c i s in
      let put_letter = value-put k (w, c, i) x s.dead_letters in ground arith

  record_failure-IsFinal :
      (v consumer j : String) (s : Store)
      → seen w c i s ≡ true
      → IsFinal w c i s (record_failure v consumer j s).1
  unfolding record_failure effect dead_letter seen
  record_failure-IsFinal v consumer j s h = record {
    still_seen = h;
    same_effect = refl;
    same_dead_letter = refl;
  }

  IsFinal-trans : (s t u : Store) → IsFinal w c i s t → IsFinal w c i t u → IsFinal w c i s u
  IsFinal-trans s t u p q = record {
    still_seen = q.still_seen;
    same_effect = q.same_effect ∙ p.same_effect;
    same_dead_letter = q.same_dead_letter ∙ p.same_dead_letter;
  }

  IsFinal-refl : (s : Store) → seen w c i s ≡ true → IsFinal w c i s s
  IsFinal-refl s h = record { still_seen = h; same_effect = refl; same_dead_letter = refl }

record_failure-seen :
    (v consumer j : String) (w c i : String) (s : Store)
    → seen w c i (record_failure v consumer j s).1 ≡ seen w c i s
unfolding record_failure seen
record_failure-seen v consumer j w c i s = refl

consume-IsFinal :
    (w c i : String) (max_attempts : ℕ) (consumer : String) (answer : Option ConsumerEffect)
    (e : OperationalEvent) (s : Store)
    → seen w c i s ≡ true
    → IsFinal w c i s (consume max_attempts consumer answer e s).1
consume-IsFinal w c i max_attempts consumer answer e s h =
    elim (consume-Outcome max_attempts consumer answer e s) [
      | was_seen old run ↦ rw run (IsFinal-refl w c i s h)
      | was_stale new stale run ↦ rw run (acknowledge-IsFinal w c i consumer e s h)
      | was_early new early run ↦ rw run (IsFinal-refl w c i s h)
      | was_foreign new due foreign run ↦ rw run (IsFinal-refl w c i s h)
      | has_failed next raised more run ↦
          rw run (record_failure-IsFinal w c i e.workspace_id consumer e.event_id s h)
      | has_given_up next raised enough run ↦
          let s1 = failed max_attempts consumer e s in
          let at = checkpoint e.workspace_id consumer s in
          let one = record_failure-IsFinal w c i e.workspace_id consumer e.event_id s h in
          let new =
            record_failure-seen e.workspace_id consumer e.event_id e.workspace_id consumer
              e.event_id s
            ∙ next.new in
          let two =
            dead_letter-IsFinal w c i consumer e at event_handler_failed s1 new one.still_seen in
          rw run (IsFinal-trans w c i s s1 _ one two)
      | has_processed next f given run ↦ rw run (commit-IsFinal w c i consumer e f _ s h)
    ]

-- A call of some consumer, with what its handler answers then.
pub record Call : Type 0 where
  pub max_attempts : ℕ
  pub consumer : String
  pub answer : Option ConsumerEffect
  pub event : OperationalEvent

unfoldable pub run_calls : List Call → Store → Store
run_calls [] s = s
run_calls (x ∷ xs) s = run_calls xs (consume x.max_attempts x.consumer x.answer x.event s).1

-- Once an event is seen by a consumer, no calls of any consumers change its effect or its dead letter,
-- and it stays seen.
pub run_calls-IsFinal :
    (w c i : String) (calls : List Call) (s : Store)
    → seen w c i s ≡ true
    → IsFinal w c i s (run_calls calls s)
unfolding run_calls
run_calls-IsFinal w c i [] s h = IsFinal-refl w c i s h
run_calls-IsFinal w c i (x ∷ xs) s h =
    let one = consume-IsFinal w c i x.max_attempts x.consumer x.answer x.event s h in
    let s1 = (consume x.max_attempts x.consumer x.answer x.event s).1 in
    IsFinal-trans w c i s s1 _ one (run_calls-IsFinal w c i xs s1 one.still_seen)

-- An event that is seen is a duplicate ever after: after any calls, consuming it says so and changes
-- nothing.
pub consume_again :
    (calls : List Call) (max_attempts : ℕ) (consumer : String) (answer : Option ConsumerEffect)
    (e : OperationalEvent) (s : Store)
    → seen e.workspace_id consumer e.event_id s ≡ true
    → consume max_attempts consumer answer e (run_calls calls s) ≡ (
      result max_attempts consumer duplicate e 0 none
          (here max_attempts consumer e (run_calls calls s)),
      run_calls calls s,
    )
unfolding consume
consume_again calls max_attempts consumer answer e s h =
    let f = run_calls-IsFinal e.workspace_id consumer e.event_id calls s h in rw f.still_seen refl
