-- ===== src/Events/Store.antt =====
-- `InMemoryEventConsumerStore` of events.py. A dict is the list of its items, and a set the list of its
-- members; a method runs under the lock, as one step.
pub mod Rows
use wiki_spike.Base.{
  ℕ, ◌+◌, ◌==◌, String, Bool, true, false, not, ◌&&◌, Option, none, some, List, [], ◌=s◌,
  Key-discrete, Triple-discrete, if◌then◌else◌,
}
use wiki_spike.Table.{find, put, insert_or_ignore, delete}
use wiki_spike.Events.{OperationalEvent, ConsumerEffect, EventCheckpoint, ConsumeError}

-- (workspace_id, consumer_id, event_id)
abbrev pub EventKey : Type 0
EventKey = String × String × String

-- An item of a dict by events.
pub record Entry (A : Type 0) : Type 0 where
  pub event_key : EventKey
  pub value : A

pub record CheckpointEntry : Type 0 where
  pub checkpoint_key : String × String
  pub value : EventCheckpoint

pub record Store : Type 0 where
  pub seen_events : List EventKey
  pub checkpoints : List CheckpointEntry
  pub failures : List (Entry ℕ)
  pub effects : List (Entry ConsumerEffect)
  pub dead_letters : List (Entry ConsumeError)

abbrev pub empty_store : Store
empty_store = record {
  seen_events = [];
  checkpoints = [];
  failures = [];
  effects = [];
  dead_letters = [];
}

abbrev pub entry_key : {A : Type 0} → Entry A → EventKey
entry_key x = x.event_key

abbrev pub checkpoint_entry_key : CheckpointEntry → String × String
checkpoint_entry_key x = x.checkpoint_key

abbrev pub seen_key : EventKey → EventKey
seen_key k = k

abbrev pub value_of : {A : Type 0} → Option (Entry A) → Option A
value_of none = none
value_of (some x) = some x.value

abbrev pub is_there {ℓ} : {A : Type ℓ} → Option A → Bool
is_there none = false
is_there (some a) = true

abbrev pub or_zero : Option ℕ → ℕ
or_zero none = 0
or_zero (some n) = n

abbrev pub event_key_of : String → OperationalEvent → EventKey
event_key_of consumer e = (e.workspace_id, consumer, e.event_id)

-- The equality of two frozen dataclass values, or None.
abbrev pub same_checkpoint : Option EventCheckpoint → Option EventCheckpoint → Bool
same_checkpoint none none = true
same_checkpoint (some a) (some b) =
    a.workspace_id =s b.workspace_id
    && a.consumer_id =s b.consumer_id
    && a.generation_seq == b.generation_seq
    && a.generation_id =s b.generation_id
    && a.last_event_id =s b.last_event_id
same_checkpoint _ _ = false

unfoldable pub seen : String → String → String → Store → Bool
seen workspace consumer event s =
    is_there (find Triple-discrete seen_key (workspace, consumer, event) s.seen_events)

unfoldable pub checkpoint : String → String → Store → Option EventCheckpoint
checkpoint workspace consumer s =
    elim (find Key-discrete checkpoint_entry_key (workspace, consumer) s.checkpoints) [
      | none ↦ none
      | some x ↦ some x.value
    ]

unfoldable pub failures_of : EventKey → Store → ℕ
failures_of k s = or_zero (value_of (find Triple-discrete entry_key k s.failures))

unfoldable pub record_failure : String → String → String → Store → ℕ × Store
unfolding failures_of
record_failure workspace consumer event s =
    let key : EventKey = (workspace, consumer, event) in
    let value = failures_of key s + 1 in
    (
      value,
      record s {
        failures =
            put Triple-discrete entry_key (record { event_key = key; value = value }) s.failures;
      },
    )

abbrev pub next_checkpoint : String → OperationalEvent → EventCheckpoint
next_checkpoint consumer e = record {
  workspace_id = e.workspace_id;
  consumer_id = consumer;
  generation_seq = e.generation_seq;
  generation_id = e.generation_id;
  last_event_id = e.event_id;
}

abbrev pub add_seen : EventKey → List EventKey → List EventKey
add_seen = insert_or_ignore Triple-discrete seen_key

abbrev pub advance : String → OperationalEvent → List CheckpointEntry → List CheckpointEntry
advance consumer e =
    put Key-discrete checkpoint_entry_key
      (record { checkpoint_key = (e.workspace_id, consumer); value = next_checkpoint consumer e })

unfoldable pub commit :
    String → OperationalEvent → ConsumerEffect → Option EventCheckpoint → Store → Bool × Store
commit consumer e effect expected s =
    let key = event_key_of consumer e in
    if seen e.workspace_id consumer e.event_id s
    then (true, s)
    else if not (same_checkpoint (checkpoint e.workspace_id consumer s) expected)
    then (false, s)
    else (
      true,
      record s {
        effects =
            put Triple-discrete entry_key (record { event_key = key; value = effect }) s.effects;
        seen_events = add_seen key s.seen_events;
        failures = delete Triple-discrete entry_key key s.failures;
        checkpoints = advance consumer e s.checkpoints;
      },
    )

unfoldable pub acknowledge_stale : String → OperationalEvent → Store → Store
acknowledge_stale consumer e s = record s {
  seen_events = add_seen (event_key_of consumer e) s.seen_events;
}

unfoldable pub dead_letter_and_advance :
    String → OperationalEvent → Option EventCheckpoint → ConsumeError → Store → Bool × Store
dead_letter_and_advance consumer e expected error s =
    let key = event_key_of consumer e in
    if not (same_checkpoint (checkpoint e.workspace_id consumer s) expected) then (false, s) else (
      true,
      record s {
        dead_letters =
            put Triple-discrete entry_key (record { event_key = key; value = error })
              s.dead_letters;
        seen_events = add_seen key s.seen_events;
        checkpoints = advance consumer e s.checkpoints;
      },
    )

unfoldable pub effect : String → String → String → Store → Option ConsumerEffect
effect workspace consumer event s =
    value_of (find Triple-discrete entry_key (workspace, consumer, event) s.effects)

unfoldable pub dead_letter : String → String → String → Store → Option ConsumeError
dead_letter workspace consumer event s =
    value_of (find Triple-discrete entry_key (workspace, consumer, event) s.dead_letters)
