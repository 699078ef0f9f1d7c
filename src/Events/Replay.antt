-- ===== src/Events/Replay.antt =====
-- `InMemoryEventLog` and `EventReplayCoordinator.replay` of events.py.
pub mod Complete
use Prim.Native.Nat.{ℕ}
use wiki_spike.Base.{
  zero, suc, String, Bool, true, false, ◌&&◌, ◌||◌, ◌==◌, Option, none, some, List, [], ◌∷◌, ◌++◌,
  select, ltb, ◌=s◌, if◌then◌else◌,
}
use wiki_spike.Base.Sorting.{sort}
use wiki_spike.Base.TextOrder.{leb_text}
use wiki_spike.Events.{
  OperationalEvent, ConsumerEffect, EventCheckpoint, EventConsumeResult, ConsumeStatus, retry_later,
}
use wiki_spike.Events.Store.{Store, checkpoint}
use wiki_spike.Events.Consumer.{consume}

-- `self._events.append(event)`
abbrev pub append_event : OperationalEvent → List OperationalEvent → List OperationalEvent
append_event e log = log ++ e ∷ []

-- `key=lambda item: (int(item.generation_seq), item.event_id)`
abbrev pub le_event : OperationalEvent → OperationalEvent → Bool
le_event a b =
    ltb a.generation_seq b.generation_seq
    || (a.generation_seq == b.generation_seq && leb_text a.event_id b.event_id)

unfoldable pub events_after : String → ℕ → List OperationalEvent → List OperationalEvent
unfolding sort
events_after workspace floor log = sort le_event (
    select (λ (e : OperationalEvent). e.workspace_id =s workspace && ltb floor e.generation_seq)
      log)

-- `values[:n]`
unfoldable pub take {ℓ} : {A : Type ℓ} → ℕ → List A → List A
take zero xs = []
take (suc n) [] = []
take (suc n) (x ∷ xs) = x ∷ take n xs

abbrev pub floor_of : Option EventCheckpoint → ℕ
floor_of none = 0
floor_of (some c) = c.generation_seq

abbrev pub is_retry : ConsumeStatus → Bool
is_retry retry_later = true
is_retry _ = false

module _ (max_attempts : ℕ) (consumer : String)
    (handler : OperationalEvent → Option ConsumerEffect) where
  -- The loop, which ends at the first event that is to be retried.
  unfoldable pub replay_all : List OperationalEvent → Store → List EventConsumeResult × Store
  replay_all [] s = ([], s)
  replay_all (e ∷ es) s =
      let (r, s1) = consume max_attempts consumer (handler e) e s in
      let (rs, s2) = replay_all es s1 in if is_retry r.status then (r ∷ [], s1) else (r ∷ rs, s2)

  -- A limit below 1 raises a ValueError in the source; it is positive here.
  unfoldable pub replay :
      String → ℕ → List OperationalEvent → Store → List EventConsumeResult × Store
  unfolding replay_all events_after take
  replay workspace limit log s =
      replay_all
        (take limit (events_after workspace (floor_of (checkpoint workspace consumer s)) log)) s
