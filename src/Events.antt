-- ===== src/Events.antt =====
-- memory_core/events.py: operational events and the records of their consumers. A generation_seq is
-- a decimal text in the source, read by `int`: here it is the number.
pub mod Store
pub mod Consumer
pub mod Replay
mod Examples
use wiki_spike.Base.{ℕ, String, Option}

pub record OutboxEventRecord : Type 0 where
  pub workspace_id : String
  pub generation_id : String
  pub parent_generation_id : Option String
  pub generation_seq : ℕ
  pub event_type : String
  pub causation_id : String
  pub correlation_id : String
  pub sensitivity : String
  pub payload_ref : Option String
  pub emitted_at : String

-- The record with its id, the hash of its canonical form.
pub record OperationalEvent : Type 0 where
  pub event_id : String
  pub body : OutboxEventRecord
  pub open body use *

pub record ConsumerEffect : Type 0 where
  pub effect_digest : String
  pub result_ref : Option String

pub record EventCheckpoint : Type 0 where
  pub workspace_id : String
  pub consumer_id : String
  pub generation_seq : ℕ
  pub generation_id : String
  pub last_event_id : String

pub data ConsumeStatus : Type 0 where
  duplicate ignored_stale retry_later processed dead_lettered : ConsumeStatus

pub data ConsumeError : Type 0 where
  event_out_of_order event_sequence_gap event_parent_mismatch event_handler_failed : ConsumeError
  event_checkpoint_conflict : ConsumeError

pub record EventConsumeResult : Type 0 where
  pub status : ConsumeStatus
  pub event_id : String
  pub checkpoint : Option EventCheckpoint
  pub attempts : ℕ
  pub error_code : Option ConsumeError
