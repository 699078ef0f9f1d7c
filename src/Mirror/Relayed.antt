-- ===== src/Mirror/Relayed.antt =====
-- The relay of one event where git finds what it is given.
use wiki_spike.Base.{ℕ, String, ◌≡◌, refl, sym, ap, ◌∙◌, inl, inr, false, Option, none, some, ◌=s◌}
use mathlib.Core.Path.{subst}
use wiki_spike.Exec.{ok}
use wiki_spike.ControlPlane.Schema.{Db, OutboxEvent}
use wiki_spike.ControlPlane.Outbox.{mark_outbox_processed}
use wiki_spike.Mirror.{
  Git, World, generation_refspec, push_generation, mirror_release, sync_release_ref, relay,
}
use wiki_spike.Mirror.Pushes.{
  View, CanPush, Leaves, IsReachable, HasRelease, AtRelease, IsMirrored, mirror_release-Mirrored,
  Leaves-trans,
}

module _ {R : Type 0} (git : Git R) (view : View R) where
  pub HasRelease-Leaves :
      (o : Option String) (r s : R)
      → Leaves git view r s
      → HasRelease git view o r
      → HasRelease git view o s
  HasRelease-Leaves none r s l h = tt
  HasRelease-Leaves (some oid) r s l (inl e) = inl e
  HasRelease-Leaves (some oid) r s l (inr (named, there)) = inr (named, l.same_objects oid there)

  -- What goes with a generation ref goes with it where neither side of the ref changes.
  pub CanPush-same :
      (id : String) (r s : R)
      → view.local_generation id s ≡ view.local_generation id r
      → view.remote_generation id s ≡ view.remote_generation id r
      → CanPush git view id r
      → CanPush git view id s
  CanPush-same id r s l m (oid, here, free) = (
    oid,
    l ∙ here,
    elim free [ inl none_there ↦ inl (m ∙ none_there) | inr same ↦ inr (m ∙ same) ],
  )

  pub IsMirrored-same :
      (id : String) (r s : R)
      → view.local_generation id s ≡ view.local_generation id r
      → view.remote_generation id s ≡ view.remote_generation id r
      → IsMirrored git view id r
      → IsMirrored git view id s
  IsMirrored-same id r s l m (oid, here, there) = (oid, l ∙ here, m ∙ there)

  pub IsMirrored-CanPush : (id : String) (r : R) → IsMirrored git view id r → CanPush git view id r
  IsMirrored-CanPush id r (oid, here, there) = (oid, here, inr there)

  module _ (up : IsReachable git view) where
    -- What the relay of an event does.
    pub record Relayed (e : OutboxEvent) (w : World R) : Type 0 where
      pub returns : (relay git e w).0 ≡ ok tt
      pub leaves : Leaves git view w.remote (relay git e w).1.remote
      pub own :
          (id : String)
          → generation_refspec e.generation_id ≡ generation_refspec id
          → CanPush git view id w.remote
          → IsMirrored git view id (relay git e w).1.remote
      pub others :
          (id : String)
          → (generation_refspec e.generation_id =s generation_refspec id) ≡ false
          → view.remote_generation id (relay git e w).1.remote ≡ view.remote_generation id w.remote
      pub at_release : AtRelease git view w.db.current_release_commit_oid (relay git e w).1.remote
      pub same_release :
          (relay git e w).1.db.current_release_commit_oid ≡ w.db.current_release_commit_oid

    abbrev pushed : OutboxEvent → World R → World R
    pushed e w = record w { remote = (git.push (generation_refspec e.generation_id) w.remote).1 }

    relay_run :
        (e : OutboxEvent) (w : World R)
        → (git.push (generation_refspec e.generation_id) w.remote).0 ≡ ok tt
        → (mirror_release git w.db.current_release_commit_oid (pushed e w)).0 ≡ ok tt
        → relay git e w ≡ (
          ok tt,
          record (mirror_release git w.db.current_release_commit_oid (pushed e w)).1 {
            db =
                mark_outbox_processed e.event_id
                  (mirror_release git w.db.current_release_commit_oid (pushed e w)).1.db;
          },
        )
    unfolding relay push_generation sync_release_ref
    relay_run e w sent released = rw (sent, released) refl

    mark_release :
        (n : ℕ) (db : Db)
        → (mark_outbox_processed n db).current_release_commit_oid ≡ db.current_release_commit_oid
    unfolding mark_outbox_processed
    mark_release n db = refl

    pub relay-Relayed :
        (e : OutboxEvent) (w : World R)
        → CanPush git view e.generation_id w.remote
        → HasRelease git view w.db.current_release_commit_oid w.remote
        → Relayed e w
    relay-Relayed e w (oid, here, free) has =
        let o = w.db.current_release_commit_oid in
        let id = e.generation_id in
        let w1 = pushed e w in
        let (sent, set) = up.pushes id oid w.remote here free in
        let left = up.push_leaves id w.remote in
        let m =
          mirror_release-Mirrored git view up o w1
            (HasRelease-Leaves o w.remote w1.remote left has) in
        let run = relay_run e w sent m.returns in
        let after = (mirror_release git o w1).1.remote in
        let at = ap (λ t. t.1.remote) run in
        let all_left = Leaves-trans git view up w.remote w1.remote after left m.leaves in
        record {
          returns = ap (λ t. t.0) run;
          leaves = subst (Leaves git view w.remote) (sym at) all_left;
          own = λ other spec can.
              let (oid2, here2, free2) = can in
              let set2 =
                subst (λ s. view.remote_generation other (git.push s w.remote).1 ≡ some oid2)
                  (sym spec) (up.pushes other oid2 w.remote here2 free2).1 in
              subst (IsMirrored git view other) (sym at)
                (oid2, all_left.same_local other ∙ here2, m.remotes other ∙ set2);
          others = λ other apart.
              ap (view.remote_generation other) at
              ∙ m.remotes other
              ∙ up.push_others id other w.remote apart;
          at_release = subst (AtRelease git view o) (sym at) m.at_release;
          same_release =
              ap (λ t. t.1.db.current_release_commit_oid) run
              ∙ mark_release e.event_id (mirror_release git o w1).1.db
              ∙ ap (λ (db : Db). db.current_release_commit_oid) m.same_db;
        }
