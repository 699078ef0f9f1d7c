-- ===== src/Mirror/Completion.antt =====
-- A run of the mirror where git finds what it is given.
use wiki_spike.Base.{
  String, ◌≡◌, ◌⊎◌, refl, sym, ap, ◌∙◌, inl, inr, true, Option, List, [], ◌∷◌, arith, length, All,
  All-imp, ◌=s◌, Bool-cases,
}
use mathlib.Core.Path.{subst}
use wiki_spike.Exec.{ok}
use wiki_spike.ControlPlane.Schema.{OutboxEvent}
use wiki_spike.ControlPlane.Outbox.{pending_outbox}
use wiki_spike.Mirror.{
  Git, World, generation_refspec, sync_release_ref, reconcile, relay, relay_all, process_outbox,
}
use wiki_spike.Mirror.Delivery.{relay_all-step, plus_one, ensured, process_outbox_drains}
use wiki_spike.Mirror.Pushes.{
  View, CanPush, Leaves, IsReachable, HasRelease, AtRelease, IsMirrored, mirror_release-Mirrored,
  Leaves-refl, Leaves-trans,
}
use wiki_spike.Mirror.Relayed.{
  Relayed, relay-Relayed, HasRelease-Leaves, CanPush-same, IsMirrored-same, IsMirrored-CanPush,
}

eq_of : (s t : String) → (s =s t) ≡ true → s ≡ t
eq_of s t h = ground arith

cons_nil : {A : Type 0} {x : A} {xs : List A} → x ∷ xs ≡ [] → ⊥
cons_nil e = cc

module _ {R : Type 0} (git : Git R) (view : View R) (up : IsReachable git view) where
  -- A generation that can be pushed is pushed by the relay of an event, or stays as it is.
  relay-IsMirrored :
      (e : OutboxEvent) (w : World R) (id : String)
      → Relayed git view up e w
      → CanPush git view id w.remote
      → (IsMirrored git view id (relay git e w).1.remote)
        ⊎ ((view.local_generation id (relay git e w).1.remote ≡ view.local_generation id w.remote)
            × (view.remote_generation id (relay git e w).1.remote
                ≡ view.remote_generation id w.remote))
  relay-IsMirrored e w id m can =
      elim (Bool-cases (generation_refspec e.generation_id =s generation_refspec id)) [
        | inl same ↦ inl (m.own id (eq_of _ _ same) can)
        | inr apart ↦ inr (m.leaves.same_local id, m.others id apart)
      ]

  still-IsMirrored :
      (e : OutboxEvent) (w : World R) (id : String)
      → Relayed git view up e w
      → IsMirrored git view id w.remote
      → IsMirrored git view id (relay git e w).1.remote
  still-IsMirrored e w id m h =
      elim (relay-IsMirrored e w id m (IsMirrored-CanPush git view id w.remote h)) [
        | inl own ↦ own
        | inr (l, r) ↦ IsMirrored-same git view id w.remote (relay git e w).1.remote l r h
      ]

  still_free :
      (e : OutboxEvent) (w : World R) (id : String)
      → Relayed git view up e w
      → CanPush git view id w.remote
      → CanPush git view id (relay git e w).1.remote
  still_free e w id m h = elim (relay-IsMirrored e w id m h) [
    | inl own ↦ IsMirrored-CanPush git view id (relay git e w).1.remote own
    | inr (l, r) ↦ CanPush-same git view id w.remote (relay git e w).1.remote l r h
  ]

  -- What the loop over the events does.
  record Drained (es : List OutboxEvent) (w : World R) : Type 0 where
    returns : (relay_all git es w).0 ≡ ok (length es)
    leaves : Leaves git view w.remote (relay_all git es w).1.remote
    mirrored :
        All
          (λ (e : OutboxEvent). IsMirrored git view e.generation_id (relay_all git es w).1.remote)
          es
    kept :
        (id : String)
        → IsMirrored git view id w.remote
        → IsMirrored git view id (relay_all git es w).1.remote
    at_release :
        (es ≡ []) ⊎ AtRelease git view w.db.current_release_commit_oid (relay_all git es w).1.remote
    same_release :
        (relay_all git es w).1.db.current_release_commit_oid ≡ w.db.current_release_commit_oid

  outbox-Drained :
      (es : List OutboxEvent) (w : World R)
      → All (λ (e : OutboxEvent). CanPush git view e.generation_id w.remote) es
      → HasRelease git view w.db.current_release_commit_oid w.remote
      → Drained es w
  outbox-Drained [] w can has =
      unfold relay_all in
      record {
        returns = refl;
        leaves = Leaves-refl git view up w.remote;
        mirrored = tt;
        kept = λ id h. h;
        at_release = inl refl;
        same_release = refl;
      }
  outbox-Drained (x ∷ es) w can has =
      let m = relay-Relayed git view up x w can.0 has in
      let w1 = (relay git x w).1 in
      let o = w.db.current_release_commit_oid in
      let (value, world) = relay_all-step git x es w m.returns in
      let has1 =
        subst (λ (p : Option String). HasRelease git view p w1.remote) (sym m.same_release)
          (HasRelease-Leaves git view o w.remote w1.remote m.leaves has) in
      let rest =
        outbox-Drained es w1 (All-imp _ _ es (λ e h. still_free x w e.generation_id m h) can.1)
          has1 in
      let w2 = (relay_all git es w1).1 in
      let at = ap (λ (t : World R). t.remote) world in
      record {
        returns = value ∙ ap (plus_one git) rest.returns ∙ ap ok (omega arith);
        leaves =
            subst (Leaves git view w.remote) (sym at)
              (Leaves-trans git view up w.remote w1.remote w2.remote m.leaves rest.leaves);
        mirrored =
            subst (λ r. All (λ (e : OutboxEvent). IsMirrored git view e.generation_id r) (x ∷ es))
              (sym at)
              (rest.kept x.generation_id (m.own x.generation_id refl can.0), rest.mirrored);
        kept = λ id h.
            subst (IsMirrored git view id) (sym at) (rest.kept id (still-IsMirrored x w id m h));
        at_release = inr (
            subst (AtRelease git view o) (sym at) (elim rest.at_release [
              | inl last ↦
                  subst (λ es. AtRelease git view o (relay_all git es w1).1.remote) (sym last)
                    (unfold relay_all in m.at_release)
              | inr released ↦
                  subst (λ (p : Option String). AtRelease git view p w2.remote) m.same_release
                    released
            ]));
        same_release =
            ap (λ (t : World R). t.db.current_release_commit_oid) world
            ∙ rest.same_release
            ∙ m.same_release;
      }

  -- What the reconciliation adds to the loop, from the remote at its start.
  record Reconciled (es : List OutboxEvent) (r : R) (o : Option String) (w : World R) : Type 0 where
    returns : (reconcile git es w).0 ≡ ok tt
    at_release : AtRelease git view o (reconcile git es w).1.remote
    mirrored :
        All
          (λ (e : OutboxEvent).
            view.remote_generation e.generation_id (reconcile git es w).1.remote
            ≡ view.local_generation e.generation_id r)
          es

  reconcile-Reconciled :
      (es : List OutboxEvent) (w : World R)
      → HasRelease git view w.db.current_release_commit_oid w.remote
      → Drained es w
      → Reconciled es w.remote w.db.current_release_commit_oid (relay_all git es w).1
  unfolding sync_release_ref relay_all
  reconcile-Reconciled [] w has a =
      let m = mirror_release-Mirrored git view up w.db.current_release_commit_oid w has in
      record { returns = m.returns; at_release = m.at_release; mirrored = tt }
  reconcile-Reconciled (e ∷ es) w has a = record {
    returns = refl;
    at_release = elim a.at_release [ inl none_there ↦ absurd (cons_nil none_there) | inr at ↦ at ];
    mirrored =
        All-imp _ _ (e ∷ es)
          (λ (x : OutboxEvent) h. h.2 ∙ sym h.1 ∙ a.leaves.same_local x.generation_id) a.mirrored;
  }

  process_run :
      (w : World R)
      → (git.ensure_remote w.remote).0 ≡ ok tt
      → (relay_all git (pending_outbox w.db) (ensured git w)).0 ≡ ok (length (pending_outbox w.db))
      → (reconcile git
          (pending_outbox w.db)
          (relay_all git (pending_outbox w.db) (ensured git w)).1).0
        ≡ ok tt
      → process_outbox git w ≡ (
        ok (length (pending_outbox w.db)),
        (reconcile git
            (pending_outbox w.db)
            (relay_all git (pending_outbox w.db) (ensured git w)).1).1,
      )
  unfolding process_outbox
  process_run w up_there ran reconciled = rw (up_there, ran, reconciled) refl

  -- With a remote that can be reached, where each pending event's generation has a ref under which the
  -- remote has no other object, and the release commit, if there is one, is an object of the repository,
  -- the mirror does not fail and leaves nothing pending; the remote has the generations of all the events
  -- that were pending at the objects of the repository, and its release pointer at the release commit.
  pub process_outbox_completes :
      (w : World R)
      → All (λ (e : OutboxEvent). CanPush git view e.generation_id w.remote) (pending_outbox w.db)
      → HasRelease git view w.db.current_release_commit_oid w.remote
      → ((process_outbox git w).0 ≡ ok (length (pending_outbox w.db)))
        × (pending_outbox (process_outbox git w).1.db ≡ [])
        × All
            (λ (e : OutboxEvent).
              view.remote_generation e.generation_id (process_outbox git w).1.remote
              ≡ view.local_generation e.generation_id w.remote)
            (pending_outbox w.db)
        × AtRelease git view w.db.current_release_commit_oid (process_outbox git w).1.remote
  process_outbox_completes w can has =
      let es = pending_outbox w.db in
      let o = w.db.current_release_commit_oid in
      let start = ensured git w in
      let left = up.ensures_leaves w.remote in
      let has1 = HasRelease-Leaves git view o w.remote start.remote left has in
      let can1 =
        All-imp _ _ es
          (λ (e : OutboxEvent) h.
            CanPush-same git view e.generation_id w.remote start.remote
              (left.same_local e.generation_id) (up.ensures_remote e.generation_id w.remote) h)
          can in
      let a = outbox-Drained es start can1 has1 in
      let c = reconcile-Reconciled es start has1 a in
      let run = process_run w (up.ensures w.remote) a.returns c.returns in
      let at = ap (λ t. t.1.remote) run in
      let done = ap (λ t. t.0) run in
      (
        done,
        (process_outbox_drains git w (length es) done).0,
        subst
            (λ r.
              All
                (λ (e : OutboxEvent).
                  view.remote_generation e.generation_id r
                  ≡ view.local_generation e.generation_id w.remote)
                es)
            (sym at)
            (All-imp _ _ es (λ (e : OutboxEvent) h. h ∙ left.same_local e.generation_id)
              c.mirrored),
        subst (AtRelease git view o) (sym at) c.at_release,
      )
