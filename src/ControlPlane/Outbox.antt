-- ===== src/ControlPlane/Outbox.antt =====
-- The outbox of controlplane.py: the events that the mirror relays.
use wiki_spike.Base.{ℕ, true, not, List, select, ℕ_discrete}
use wiki_spike.Table.{update}
use wiki_spike.ControlPlane.Schema.{Db, OutboxEvent}

abbrev pub event_key : OutboxEvent → ℕ
event_key e = e.event_id

-- `WHERE processed=0 ORDER BY event_id`: the rows stand in the order of their AUTOINCREMENT ids
unfoldable pub pending_outbox : Db → List OutboxEvent
pending_outbox db = select (λ (e : OutboxEvent). not e.processed) db.outbox

unfoldable pub mark_outbox_processed : ℕ → Db → Db
mark_outbox_processed id db = record db {
  outbox = update ℕ_discrete event_key id (λ e. record e { processed = true }) db.outbox;
}
