-- ===== src/Events/Store/Rows.antt =====
-- What a write of the consumer store does to each of its reads.
use wiki_spike.Base.{
  String, true, ◌≡◌, refl, Option, none, some, List, arith, Key-discrete, Triple-discrete, holds,
  if◌then◌else◌,
}
use wiki_spike.Table.{find, put, find-put, find-insert_or_ignore}
use wiki_spike.Events.{OperationalEvent, EventCheckpoint}
use wiki_spike.Events.Store.{
  Store, EventKey, Entry, entry_key, seen_key, checkpoint_entry_key, value_of, seen, checkpoint,
  add_seen, advance, next_checkpoint, event_key_of, same_checkpoint,
}

pub same_checkpoint_self : (c : Option EventCheckpoint) → same_checkpoint c c ≡ true
same_checkpoint_self none = refl
same_checkpoint_self (some c) = ground arith

module _ (consumer : String) (e : OperationalEvent) where
  pub seen-add :
      (w c i : String) (s : Store)
      → seen w c i (record s { seen_events = add_seen (event_key_of consumer e) s.seen_events }) ≡ (
          if holds (Triple-discrete (event_key_of consumer e) (w, c, i))
          then true
          else seen w c i s)
  unfolding seen
  seen-add w c i s = ground (
    arith,
    find-insert_or_ignore Triple-discrete seen_key (w, c, i) (event_key_of consumer e)
        s.seen_events,
  )

  pub checkpoint-advance :
      (w c : String) (s : Store)
      → checkpoint w c (record s { checkpoints = advance consumer e s.checkpoints }) ≡ (
          if holds (Key-discrete (e.workspace_id, consumer) (w, c))
          then some (next_checkpoint consumer e)
          else checkpoint w c s)
  unfolding checkpoint
  checkpoint-advance w c s = ground (
    arith,
    find-put Key-discrete checkpoint_entry_key (w, c)
        (record { checkpoint_key = (e.workspace_id, consumer); value = next_checkpoint consumer e })
        s.checkpoints,
  )

pub value-put :
    {A : Type 0} (k j : EventKey) (v : A) (xs : List (Entry A))
    → value_of (
        find Triple-discrete entry_key j
          (put Triple-discrete entry_key (record { event_key = k; value = v }) xs))
      ≡ (if holds (Triple-discrete k j)
          then some v
          else value_of (find Triple-discrete entry_key j xs))
value-put {A} k j v xs =
    ground (arith, find-put Triple-discrete entry_key j (record { event_key = k; value = v }) xs)
