-- ===== src/Events/Replay/Complete.antt =====
-- A replay of a gapless log processes all of it.
use Prim.Native.Nat.{ℕ}
use wiki_spike.Base.{
  ◌≢◌, Option-cases, inl, inr, String, false, ◌≡◌, refl, ap, ◌∙◌, Option, none, some, List, [], ◌∷◌,
  arith, All, Ordered, length,
}
use wiki_spike.Events.{
  OperationalEvent, ConsumerEffect, EventCheckpoint, EventConsumeResult, processed,
}
use wiki_spike.Events.Store.{Store, seen, checkpoint, next_checkpoint, commit}
use wiki_spike.Events.Consumer.{expected_sequence, expected_parent, consume}
use wiki_spike.Events.Consumer.Outcomes.{IsNext, committed}
use wiki_spike.Events.Store.Rows.{seen-add}
use wiki_spike.Events.Consumer.Failing.{consume_next, consume_next_run}
use wiki_spike.Events.Replay.{floor_of, events_after, replay_all, take, replay}

module _ (max_attempts : ℕ) (consumer : String) (workspace : String) where
  -- From the checkpoint on, each event is of the workspace, has the next number, and the generation
  -- before as its parent.
  abbrev pub IsChain : Option EventCheckpoint → List OperationalEvent → Type 0
  IsChain at [] = Unit
  IsChain at (e ∷ es) =
      (e.workspace_id ≡ workspace)
      × (e.generation_seq ≡ expected_sequence at)
      × (e.parent_generation_id ≡ expected_parent at)
      × IsChain (some (next_checkpoint consumer e)) es

  abbrev pub last_checkpoint :
      Option EventCheckpoint → List OperationalEvent → Option EventCheckpoint
  last_checkpoint at [] = at
  last_checkpoint at (e ∷ es) = last_checkpoint (some (next_checkpoint consumer e)) es

  abbrev pub IsUnseen : Store → OperationalEvent → Type 0
  IsUnseen s e = seen workspace consumer e.event_id s ≡ false

  committed-IsUnseen :
      (e : OperationalEvent) (f : ConsumerEffect) (s : Store) (x : OperationalEvent)
      → e.event_id ≢ x.event_id
      → IsUnseen s x
      → IsUnseen (committed max_attempts consumer e f s) x
  unfolding commit seen
  committed-IsUnseen e f s x other new =
      ground (arith, seen-add consumer e workspace consumer x.event_id s)

  consume-IsUnseen :
      (e : OperationalEvent) (f : ConsumerEffect) (s : Store) (es : List OperationalEvent)
      → IsNext max_attempts consumer e s
      → All (λ x. e.event_id ≢ x.event_id) es
      → All (IsUnseen s) es
      → All (IsUnseen (consume max_attempts consumer (some f) e s).1) es
  consume-IsUnseen e f s [] next other new = tt
  consume-IsUnseen e f s (x ∷ xs) next (o, others) (n, news) = (
    rw (consume_next_run max_attempts consumer e f s next) (committed-IsUnseen e f s x o n),
    consume-IsUnseen e f s xs next others news,
  )

  module _ (handler : OperationalEvent → Option ConsumerEffect) where
    abbrev pub IsProcessed : EventConsumeResult → Type 0
    IsProcessed r = r.status ≡ processed

    -- What a run of the loop over `es` leaves where it processes them all.
    pub record Completes (at : Option EventCheckpoint) (es : List OperationalEvent)
        (after : List EventConsumeResult × Store) : Type 0 where
      pub all_processed : All IsProcessed after.0
      pub one_each : length after.0 ≡ length es
      pub caught_up : checkpoint workspace consumer after.1 ≡ last_checkpoint at es

    replay_all-Completes :
        (es : List OperationalEvent) (s : Store)
        → IsChain (checkpoint workspace consumer s) es
        → All (IsUnseen s) es
        → Ordered (λ a b. a.event_id ≢ b.event_id) es
        → All (λ e. handler e ≢ none) es
        → Completes
            (checkpoint workspace consumer s)
            es
            (replay_all max_attempts consumer handler es s)
    unfolding replay_all
    replay_all-Completes [] s chain new distinct answers = record {
      all_processed = tt;
      one_each = refl;
      caught_up = refl;
    }
    replay_all-Completes (e ∷ es) s (is_w, n, p, chain) (new, news) (other, distinct)
          (answer, answers) =
        elim (Option-cases (handler e)) [
          | inl raised ↦ absurd (answer raised)
          | inr (f, given) ↦
              let next : IsNext max_attempts consumer e s = record {
                new = rw is_w new;
                sequence = rw is_w n;
                parent = rw is_w p;
              } in
              let run = consume_next_run max_attempts consumer e f s next in
              let s1 = consume max_attempts consumer (some f) e s in
              let at = (consume_next max_attempts consumer e f s next).1.at_event in
              let at1 : checkpoint workspace consumer s1.1 ≡ some (next_checkpoint consumer e) =
                ground arith in
              let rest =
                replay_all-Completes es s1.1 (rw at1 chain)
                  (consume-IsUnseen e f s es next other news) distinct answers in
              let status : s1.0.status ≡ processed = ground arith in
              rw (given, status)
                (record {
                  all_processed = (status, rest.all_processed);
                  one_each = omega (arith, rest.one_each);
                  caught_up = rest.caught_up ∙ ap (λ at. last_checkpoint at es) at1;
                })
        ]

    -- Where the events that a replay selects are new, with ids of their own, and follow each other from
    -- the checkpoint on without a gap, and the handler answers for each, the replay processes each one
    -- and brings the checkpoint to the last.
    pub replay-Completes :
        (limit : ℕ) (log : List OperationalEvent) (s : Store) (es : List OperationalEvent)
        → take limit (events_after workspace (floor_of (checkpoint workspace consumer s)) log) ≡ es
        → IsChain (checkpoint workspace consumer s) es
        → All (IsUnseen s) es
        → Ordered (λ a b. a.event_id ≢ b.event_id) es
        → All (λ e. handler e ≢ none) es
        → Completes
            (checkpoint workspace consumer s)
            es
            (replay max_attempts consumer handler workspace limit log s)
    unfolding replay
    replay-Completes limit log s es selected chain new distinct answers =
        rw selected (replay_all-Completes es s chain new distinct answers)
