-- ===== src/Mirror/Delivery.antt =====
-- An event is marked only when its pushes have gone through, and is kept for a retry otherwise.
use wiki_spike.Base.{
  ℕ, ◌+◌, String, ◌≡◌, ◌≢◌, refl, sym, ◌⊎◌, ◌↔◌, inl, inr, true, not, Option, none, some, List, [],
  ◌∷◌, arith, All, In, select, length, ℕ_discrete,
}
use wiki_spike.Exec.{Result-cases, Exec, Result, Error, ok, err}
use wiki_spike.Table.{update}
use wiki_spike.ControlPlane.Schema.{Db, OutboxEvent}
use wiki_spike.ControlPlane.Outbox.{event_key, pending_outbox, mark_outbox_processed}
use wiki_spike.Mirror.{
  Git, World, on_remote, generation_refspec, mirror_release, sync_release_ref, reconcile, relay,
  relay_all, process_outbox,
}

In-pending-update :
    (e : OutboxEvent) (id : ℕ) (es : List OutboxEvent)
    → In e (
        select
          (λ (x : OutboxEvent). not x.processed)
          (update ℕ_discrete event_key id (λ x. record x { processed = true }) es))
      ↔ (In e (select (λ (x : OutboxEvent). not x.processed) es) × (e.event_id ≢ id))
unfolding update
In-pending-update e id [] = ground arith
In-pending-update e id (x ∷ es) = ground (arith, In-pending-update e id es)

pending-mark :
    (e : OutboxEvent) (id : ℕ) (db : Db)
    → In e (pending_outbox (mark_outbox_processed id db))
      ↔ (In e (pending_outbox db) × (e.event_id ≢ id))
unfolding pending_outbox mark_outbox_processed
pending-mark e id db = In-pending-update e id db.outbox

module _ {R : Type 0} (git : Git R) where
  sync-db : (o : Option String) (w : World R) → (mirror_release git o w).1.db ≡ w.db
  unfolding mirror_release
  sync-db none w = refl
  sync-db (some oid) w = ground arith

  relay-raised :
      (e : OutboxEvent) (w : World R) (x : Error)
      → (relay git e w).0 ≡ err x
      → (relay git e w).1.db ≡ w.db
  unfolding relay
  relay-raised e w x h = ground (arith, sync-db w.db.current_release_commit_oid)

  pub relay-done :
      (e : OutboxEvent) (w : World R)
      → (relay git e w).0 ≡ ok tt
      → ((relay git e w).1.db ≡ mark_outbox_processed e.event_id w.db)
        × ((git.push (generation_refspec e.generation_id) w.remote).0 ≡ ok tt)
  unfolding relay
  relay-done e w h = ground (arith, sync-db w.db.current_release_commit_oid)

  relay_all-stop :
      (x : OutboxEvent) (es : List OutboxEvent) (w : World R) (e : Error)
      → (relay git x w).0 ≡ err e
      → relay_all git (x ∷ es) w ≡ (err e, (relay git x w).1)
  unfolding relay_all
  relay_all-stop x es w e h = ground arith

  abbrev pub plus_one : Result ℕ → Result ℕ
  plus_one (ok n) = ok (n + 1)
  plus_one (err e) = err e

  pub relay_all-step :
      (x : OutboxEvent) (es : List OutboxEvent) (w : World R)
      → (relay git x w).0 ≡ ok tt
      → ((relay_all git (x ∷ es) w).0 ≡ plus_one (relay_all git es (relay git x w).1).0)
        × ((relay_all git (x ∷ es) w).1 ≡ (relay_all git es (relay git x w).1).1)
  unfolding relay_all
  relay_all-step x es w h = (ground arith, ground arith)

  -- A loop that returns has marked every event, and no other.
  relay_all-done :
      (es : List OutboxEvent) (w : World R) (n : ℕ)
      → (relay_all git es w).0 ≡ ok n
      → (n ≡ length es)
        × ((e : OutboxEvent)
            → In e (pending_outbox (relay_all git es w).1.db)
              ↔ (In e (pending_outbox w.db) × All (λ x. e.event_id ≢ x.event_id) es))
  relay_all-done [] w n h = unfold relay_all in (ground arith, λ e. ((λ m. (m, tt)), λ m. m.0))
  relay_all-done (x ∷ es) w n h = elim (Result-cases (relay git x w).0) [
    | inr (e, raised) ↦ absurd (ground (arith, relay_all-stop x es w e raised))
    | inl (a, done) ↦
        let (value, world) = relay_all-step x es w done in
        elim (Result-cases (relay_all git es (relay git x w).1).0) [
          | inr (e, raised) ↦ absurd (ground arith)
          | inl (k, rest) ↦
              let (count, left) = relay_all-done es (relay git x w).1 k rest in
              let (marked, pushed) = relay-done x w done in
              (
                ground arith,
                λ e. rw (world) (ground (arith, left e, pending-mark e x.event_id w.db)),
              )
        ]
  ]

  -- While the pushes of a generation fail, its events stay pending, also behind others.
  relay_all-keeps :
      (g : String)
      → ((r : R) → (git.push (generation_refspec g) r).0 ≢ ok tt)
      → (es : List OutboxEvent) (w : World R) (e : OutboxEvent) → e.generation_id ≡ g
      → All (λ x. x.event_id ≡ e.event_id → x.generation_id ≡ g) es
      → In e (pending_outbox w.db)
      → In e (pending_outbox (relay_all git es w).1.db)
  relay_all-keeps g fails [] w e p u m = unfold relay_all in m
  relay_all-keeps g fails (x ∷ es) w e p u m = elim (Result-cases (relay git x w).0) [
    | inr (y, raised) ↦ rw (relay_all-stop x es w y raised) (rw (relay-raised x w y raised) m)
    | inl (a, done) ↦
        let (marked, pushed) = relay-done x w done in
        rw ((relay_all-step x es w done).1) (
          relay_all-keeps g fails es (relay git x w).1 e p u.1 (
            rw marked (
              (pending-mark e x.event_id w.db).1
                (m, λ q. fails w.remote (rw (← u.0 (sym q)) pushed)))))
  ]

  on_remote-db : (m : Exec R Unit) (w : World R) → (on_remote m w).1.db ≡ w.db
  on_remote-db m w = refl

  pending_of_done :
      (es : List OutboxEvent) (e : OutboxEvent) → In e es → ¬ All (λ x. e.event_id ≢ x.event_id) es
  pending_of_done (x ∷ es) e m a = ground (arith, pending_of_done es e)
  pending_of_done [] e m a = m

  -- The remote after `ensure_remote`.
  abbrev pub ensured : World R → World R
  ensured w = (on_remote git.ensure_remote w).1

  reconcile-db : (es : List OutboxEvent) (w : World R) → (reconcile git es w).1.db ≡ w.db
  unfolding sync_release_ref
  reconcile-db [] w = sync-db w.db.current_release_commit_oid w
  reconcile-db (e ∷ es) w = refl

  process-done :
      (w : World R) (n : ℕ)
      → (process_outbox git w).0 ≡ ok n
      → ((relay_all git (pending_outbox w.db) (ensured w)).0 ≡ ok n)
        × ((process_outbox git w).1.db ≡ (relay_all git (pending_outbox w.db) (ensured w)).1.db)
  unfolding process_outbox
  process-done w n h = ground (
    arith,
    reconcile-db (pending_outbox w.db) (relay_all git (pending_outbox w.db) (ensured w)).1,
  )

  no_members : (es : List OutboxEvent) → ((e : OutboxEvent) → ¬ In e es) → es ≡ []
  no_members [] h = refl
  no_members (e ∷ es) h = absurd (h e (inl refl))

  -- A run of the mirror that returns has relayed and marked every pending event, and counts them.
  pub process_outbox_drains :
      (w : World R) (n : ℕ)
      → (process_outbox git w).0 ≡ ok n
      → (pending_outbox (process_outbox git w).1.db ≡ []) × (n ≡ length (pending_outbox w.db))
  process_outbox_drains w n h =
      let (ran, db) = process-done w n h in
      let (count, left) = relay_all-done (pending_outbox w.db) (ensured w) n ran in
      (
        rw db (
            no_members _ λ e m.
              let (was, marked) = (left e).0 m in
              pending_of_done (pending_outbox w.db) e was marked),
        count,
      )

  process_states :
      (w : World R)
      → ((process_outbox git w).1.db ≡ w.db)
        ⊎ ((process_outbox git w).1.db ≡ (relay_all git (pending_outbox w.db) (ensured w)).1.db)
  unfolding process_outbox
  process_states w = ground (
    arith,
    reconcile-db (pending_outbox w.db) (relay_all git (pending_outbox w.db) (ensured w)).1,
  )

  -- The events of the outbox that have an event's number have its generation.
  abbrev pub IsNumbered : OutboxEvent → List OutboxEvent → Type 0
  IsNumbered e = All (λ x. x.event_id ≡ e.event_id → x.generation_id ≡ e.generation_id)

  -- While the pushes of its generation fail, a pending event is still pending after a run of the
  -- mirror: it is there for a retry. Its number must be its own.
  pub process_outbox_retries :
      (w : World R) (e : OutboxEvent)
      → ((r : R) → (git.push (generation_refspec e.generation_id) r).0 ≢ ok tt)
      → IsNumbered e (pending_outbox w.db)
      → In e (pending_outbox w.db)
      → In e (pending_outbox (process_outbox git w).1.db)
  process_outbox_retries w e fails u m = elim (process_states w) [
    | inl same ↦ rw same m
    | inr ran ↦
        rw ran (relay_all-keeps e.generation_id fails (pending_outbox w.db) (ensured w) e refl u m)
  ]
