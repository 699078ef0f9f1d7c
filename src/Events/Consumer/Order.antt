-- ===== src/Events/Consumer/Order.antt =====
-- A checkpoint only ever moves to the next generation, along the chain of parents.
use mathlib.Core.Path.{subst}
use wiki_spike.Base.{ℕ, String, ◌≡◌, refl, ◌⊎◌, inl, inr, Option, some, List, [], ◌∷◌, arith}
use wiki_spike.Events.{OperationalEvent, ConsumerEffect, EventCheckpoint}
use wiki_spike.Events.Store.{
  Store, checkpoint, record_failure, commit, acknowledge_stale, dead_letter_and_advance,
  next_checkpoint,
}
use wiki_spike.Events.Store.Rows.{checkpoint-advance}
use wiki_spike.Events.Consumer.{expected_sequence, expected_parent, consume}
use wiki_spike.Events.Consumer.Outcomes.{
  IsNext, failed, given_up, committed, consume-Outcome, was_seen, was_stale, was_early, was_foreign,
  has_failed, has_given_up, has_processed,
}
use wiki_spike.Events.Consumer.Once.{Call, run_calls}

-- The events of the calls lead from the first checkpoint of a workspace and consumer to the second: a
-- call leaves the checkpoint where it is, or is made by the consumer with an event of the workspace, which
-- is the child of the generation at the checkpoint and numbered by one more, and moves it to that event.
pub data Follows (w c : String)
    : List Call → Option EventCheckpoint → Option EventCheckpoint → Type 0 where
  done : (k : Option EventCheckpoint) → Follows w c [] k k
  pass :
      (x : Call) (xs : List Call) (k d : Option EventCheckpoint)
      → Follows w c xs k d
      → Follows w c (x ∷ xs) k d
  take :
      (x : Call) (xs : List Call) (k d : Option EventCheckpoint)
      → w ≡ x.event.workspace_id
      → c ≡ x.consumer
      → x.event.generation_seq ≡ expected_sequence k
      → x.event.parent_generation_id ≡ expected_parent k
      → Follows w c xs (some (next_checkpoint x.consumer x.event)) d
      → Follows w c (x ∷ xs) k d

module _ (max_attempts : ℕ) (consumer : String) (e : OperationalEvent) (w c : String) where
  committed-checkpoint :
      (f : ConsumerEffect) (s : Store)
      → (checkpoint w c (committed max_attempts consumer e f s) ≡ checkpoint w c s)
        ⊎ ((w ≡ e.workspace_id)
            × (c ≡ consumer)
            × (checkpoint w c (committed max_attempts consumer e f s)
                ≡ some (next_checkpoint consumer e)))
  unfolding commit checkpoint
  committed-checkpoint f s = ground (arith, checkpoint-advance consumer e w c s)

  given_up-checkpoint :
      (s : Store)
      → (checkpoint w c (given_up max_attempts consumer e s) ≡ checkpoint w c s)
        ⊎ ((w ≡ e.workspace_id)
            × (c ≡ consumer)
            × (checkpoint w c (given_up max_attempts consumer e s)
                ≡ some (next_checkpoint consumer e)))
  unfolding dead_letter_and_advance record_failure checkpoint
  given_up-checkpoint s = ground (arith, checkpoint-advance consumer e w c s)

  acknowledge-checkpoint :
      (s : Store) → checkpoint w c (acknowledge_stale consumer e s) ≡ checkpoint w c s
  unfolding acknowledge_stale checkpoint
  acknowledge-checkpoint s = refl

  failed-same : (s : Store) → checkpoint w c (failed max_attempts consumer e s) ≡ checkpoint w c s
  unfolding record_failure checkpoint
  failed-same s = refl

  -- What one call makes of a checkpoint.
  abbrev Moves : Store → Option EventCheckpoint → Type 0
  Moves s d =
      (d ≡ checkpoint w c s)
      ⊎ ((w ≡ e.workspace_id)
          × (c ≡ consumer)
          × (e.generation_seq ≡ expected_sequence (checkpoint w c s))
          × (e.parent_generation_id ≡ expected_parent (checkpoint w c s))
          × (d ≡ some (next_checkpoint consumer e)))

  moved :
      (s : Store) (d : Option EventCheckpoint)
      → IsNext max_attempts consumer e s
      → (d ≡ checkpoint w c s)
        ⊎ ((w ≡ e.workspace_id) × (c ≡ consumer) × (d ≡ some (next_checkpoint consumer e)))
      → Moves s d
  moved s d next (inl same) = inl same
  moved s d next (inr (is_w, is_c, to)) =
      inr (is_w, is_c, rw (is_w, is_c) next.sequence, rw (is_w, is_c) next.parent, to)

  consume-Moves :
      (answer : Option ConsumerEffect) (s : Store)
      → Moves s (checkpoint w c (consume max_attempts consumer answer e s).1)
  consume-Moves answer s = elim (consume-Outcome max_attempts consumer answer e s) [
    | was_seen old run ↦ inl (rw run refl)
    | was_stale new stale run ↦ inl (rw (run, acknowledge-checkpoint s) refl)
    | was_early new early run ↦ inl (rw run refl)
    | was_foreign new due foreign run ↦ inl (rw run refl)
    | has_failed next raised more run ↦ inl (rw (run, failed-same s) refl)
    | has_given_up next raised enough run ↦ rw run (moved s _ next (given_up-checkpoint s))
    | has_processed next f given run ↦ rw run (moved s _ next (committed-checkpoint f s))
  ]

-- Over any calls of any consumers, the checkpoint of a workspace and consumer moves only along the
-- chain of generations: it moves only by calls of its consumer, to the event of the call, which is of the
-- workspace, has the next number and names the generation at the checkpoint as its parent.
pub run_calls-Follows :
    (calls : List Call) (w c : String) (s : Store)
    → Follows w c calls (checkpoint w c s) (checkpoint w c (run_calls calls s))
unfolding run_calls
run_calls-Follows [] w c s = done _
run_calls-Follows (x ∷ xs) w c s =
    let s1 = (consume x.max_attempts x.consumer x.answer x.event s).1 in
    let rest = run_calls-Follows xs w c s1 in
    elim (consume-Moves x.max_attempts x.consumer x.event w c x.answer s) [
      | inl same ↦
          pass x xs _ _ (subst (λ k. Follows w c xs k (checkpoint w c (run_calls xs s1))) same rest)
      | inr (is_w, is_c, number, parent, to) ↦
          take x xs _ _ is_w is_c number parent
            (subst (λ k. Follows w c xs k (checkpoint w c (run_calls xs s1))) to rest)
    ]
