-- ===== src/ControlPlane/Invariant/Events.antt =====
-- The outbox: events are numbered in order, and the current generation has been announced.
use wiki_spike.Base.{
  ℕ, ◌≤◌, ◌<◌, String, ◌≡◌, refl, ap, ◌∙◌, inl, inr, Option, none, some, List, [], ◌∷◌, ◌++◌, map,
  Bool, true, any, arith, All, All-append, All-imp, Ordered, ◌=s◌, ℕ_discrete,
}
use wiki_spike.Exec.{Result-cases}
use wiki_spike.Table.{update}
use wiki_spike.ControlPlane.Schema.{Db, OutboxEvent, empty_db}
use wiki_spike.ControlPlane.Generations.{
  register_generation, set_release_commit, set_read_models_ready,
}
use wiki_spike.ControlPlane.Activation.{publish_row, supersede_row, enqueue, activate}
use wiki_spike.ControlPlane.Activation.Atomic.{
  activated, activate_ready, activate-ok_iff, activate_rolls_back,
}
use wiki_spike.ControlPlane.Outbox.{event_key, mark_outbox_processed}
use wiki_spike.ControlPlane.Invariant.{Call, perform_all}
use wiki_spike.ControlPlane.Invariant.Frame.{SameCore}
use wiki_spike.ControlPlane.Invariant.Induction.{IsKept, perform_all_keeps}

abbrev pub ids : List OutboxEvent → List ℕ
ids es = map event_key es

abbrev pub announces : String → List OutboxEvent → Bool
announces g es = any (λ (e : OutboxEvent). e.generation_id =s g) es

pub record IsAnnounced (db : Db) : Type 0 where
  pub numbered : All (λ i. i ≤ db.last_event_id) (ids db.outbox)
  pub in_order : Ordered ◌<◌ (ids db.outbox)
  pub announced : (g : String) → db.current_generation_id ≡ some g → announces g db.outbox ≡ true

IsAnnounced-SameCore : {a b : Db} → SameCore a b → IsAnnounced b → IsAnnounced a
IsAnnounced-SameCore {a} {b} s c = record {
  numbered = rw (s.outbox, s.last_event_id) c.numbered;
  in_order = rw s.outbox c.in_order;
  announced = λ g e. rw s.outbox (c.announced g (ground arith));
}

ids-append :
    (es : List OutboxEvent) (e : OutboxEvent) → ids (es ++ e ∷ []) ≡ ids es ++ event_key e ∷ []
ids-append [] e = refl
ids-append (x ∷ es) e = ap (◌∷◌ x.event_id) (ids-append es e)

ids-process :
    (id : ℕ) (es : List OutboxEvent)
    → ids (update ℕ_discrete event_key id (λ e. record e { processed = true }) es) ≡ ids es
unfolding update
ids-process id [] = refl
ids-process id (x ∷ es) = ground (arith, ids-process id es)

announces-process :
    (g : String) (id : ℕ) (es : List OutboxEvent)
    → announces g (update ℕ_discrete event_key id (λ e. record e { processed = true }) es)
      ≡ announces g es
unfolding update
announces-process g id [] = refl
announces-process g id (x ∷ es) = ground (arith, announces-process g id es)

announces-append :
    (g : String) (es : List OutboxEvent) (e : OutboxEvent)
    → e.generation_id ≡ g
    → announces g (es ++ e ∷ []) ≡ true
announces-append g [] e p = ground arith
announces-append g (x ∷ es) e p = ground (arith, announces-append g es e p)

Ordered-append :
    (xs : List ℕ) (n : ℕ) → All (λ i. i < n) xs → Ordered ◌<◌ xs → Ordered ◌<◌ (xs ++ n ∷ [])
Ordered-append [] n b o = (tt, tt)
Ordered-append (x ∷ xs) n b o =
    (All-append (λ y. x < y) xs (n ∷ []) o.0 (b.0, tt), Ordered-append xs n b.1 o.1)

enqueue-ids :
    (id : String) (db : Db)
    → (All (λ i. i ≤ db.last_event_id) (ids db.outbox)) × Ordered ◌<◌ (ids db.outbox)
    → (All (λ i. i ≤ (enqueue id db).last_event_id) (ids (enqueue id db).outbox))
      × Ordered ◌<◌ (ids (enqueue id db).outbox)
unfolding enqueue
enqueue-ids id db (n, o) = rw ids-append (
  All-append _ (ids db.outbox) _ (All-imp _ _ (ids db.outbox) (λ i h. omega arith) n)
      (omega arith, tt),
  Ordered-append (ids db.outbox) _ (All-imp _ _ (ids db.outbox) (λ i h. omega arith) n) o,
)

activated_outbox :
    (id : String) (expected : Option String) (oid : String) (db : Db)
    → ((activated id expected oid db).outbox ≡ (enqueue id db).outbox)
      × ((activated id expected oid db).last_event_id ≡ (enqueue id db).last_event_id)
      × ((activated id expected oid db).current_generation_id ≡ some id)
unfolding activated enqueue publish_row supersede_row
activated_outbox id none oid db = (refl, refl, refl)
activated_outbox id (some cur) oid db = (refl, refl, refl)

announces-enqueue : (id : String) (db : Db) → announces id (enqueue id db).outbox ≡ true
unfolding enqueue
announces-enqueue id db = announces-append id db.outbox _ refl

activated-IsAnnounced :
    (id : String) (expected : Option String) (oid : String) (db : Db)
    → IsAnnounced db
    → IsAnnounced (activated id expected oid db)
activated-IsAnnounced id expected oid db c =
    let (same, last, current) = activated_outbox id expected oid db in
    let (n, o) = enqueue-ids id db (c.numbered, c.in_order) in
    record {
      numbered = rw (same, last) n;
      in_order = rw same o;
      announced = λ g e. rw same (ground (arith, announces-enqueue id db));
    }

activate-IsAnnounced :
    (id : String) (expected : Option String) (oid : String) (db : Db)
    → IsAnnounced db
    → IsAnnounced (activate id expected oid db).1
activate-IsAnnounced id expected oid db c = elim (Result-cases (activate id expected oid db).0) [
  | inl (a, done) ↦
      rw (activate_ready id expected oid db ((activate-ok_iff id expected oid db).0 done))
        (activated-IsAnnounced id expected oid db c)
  | inr (e, raised) ↦ rw (activate_rolls_back id expected oid db e raised) c
]

relay-IsAnnounced :
    (event_id : ℕ) (db : Db) → IsAnnounced db → IsAnnounced (mark_outbox_processed event_id db)
unfolding mark_outbox_processed
relay-IsAnnounced event_id db c = record {
  numbered = rw ids-process c.numbered;
  in_order = rw ids-process c.in_order;
  announced = λ g e. announces-process g event_id db.outbox ∙ c.announced g e;
}

IsAnnounced-IsKept : IsKept IsAnnounced
unfolding register_generation set_release_commit set_read_models_ready
IsAnnounced-IsKept = record {
  same = λ a b s c. IsAnnounced-SameCore s c;
  registered = λ id parent oid hash m rel db c. record {
    numbered = c.numbered;
    in_order = c.in_order;
    announced = c.announced;
  };
  released = λ id oid db c. record {
    numbered = c.numbered;
    in_order = c.in_order;
    announced = c.announced;
  };
  readied =
      λ id db c. record { numbered = c.numbered; in_order = c.in_order; announced = c.announced };
  activated = activate-IsAnnounced;
  relayed = relay-IsAnnounced;
}

-- After any calls at all on a new database, the events are numbered in strictly increasing order up
-- to the last number given out, and the current generation has an event in the outbox.
pub perform_all-IsAnnounced : (calls : List Call) → IsAnnounced (perform_all calls empty_db)
perform_all-IsAnnounced calls =
    perform_all_keeps IsAnnounced-IsKept calls empty_db
      (record { numbered = tt; in_order = tt; announced = λ g e. cc })
