-- ===== src/Mirror/Pushes.antt =====
-- What git does with the pushes of the mirror, and the mirror of the release pointer.
use wiki_spike.Base.{
  String, Bool, ◌≡◌, ◌⊎◌, refl, sym, ap, ◌∙◌, inl, inr, true, false, Option, none, some, ◌=s◌,
}
use mathlib.Core.Path.{subst}
use wiki_spike.Exec.{ok}
use wiki_spike.Mirror.{Git, World, release_refspec, generation_refspec, mirror_release}

abbrev pub release_ref : String
release_ref = "refs/wiki/releases/current"

-- What a repository and its remote hold: the objects that `refs/wiki/generations/<id>` and
-- `refs/wiki/releases/current` point to in each, and the objects that the repository has.
pub record View (R : Type 0) : Type 0 where
  pub local_generation : String → R → Option String
  pub remote_generation : String → R → Option String
  pub local_release : R → Option String
  pub remote_release : R → Option String
  pub there : String → R → Bool

module _ {R : Type 0} (git : Git R) (view : View R) where
  -- A generation can be pushed: its ref is there, and the remote has no other object under it.
  abbrev pub CanPush : String → R → Type 0
  CanPush id r =
      (oid : String) × (view.local_generation id r ≡ some oid)
      × ((view.remote_generation id r ≡ none) ⊎ (view.remote_generation id r ≡ some oid))

  -- What a step leaves as it is.
  pub record Leaves (r s : R) : Type 0 where
    pub same_local : (id : String) → view.local_generation id s ≡ view.local_generation id r
    pub same_objects : (oid : String) → view.there oid r ≡ true → view.there oid s ≡ true

  -- What git documents, with a remote that can be reached: `push` of a ref that is there, to a remote
  -- that has no other object under it, or by force, sets that ref of the remote; `update-ref` sets a ref to
  -- an object that is there; and neither changes other refs.
  pub record IsReachable : Type 0 where
    pub ensures : (r : R) → (git.ensure_remote r).0 ≡ ok tt
    pub ensures_leaves : (r : R) → Leaves r (git.ensure_remote r).1
    pub ensures_remote :
        (id : String) (r : R)
        → view.remote_generation id (git.ensure_remote r).1 ≡ view.remote_generation id r
    pub pushes :
        (id oid : String) (r : R)
        → view.local_generation id r ≡ some oid
        → (view.remote_generation id r ≡ none) ⊎ (view.remote_generation id r ≡ some oid)
        → ((git.push (generation_refspec id) r).0 ≡ ok tt)
          × (view.remote_generation id (git.push (generation_refspec id) r).1 ≡ some oid)
    pub push_leaves : (id : String) (r : R) → Leaves r (git.push (generation_refspec id) r).1
    pub push_others :
        (id other : String) (r : R)
        → (generation_refspec id =s generation_refspec other) ≡ false
        → view.remote_generation other (git.push (generation_refspec id) r).1
          ≡ view.remote_generation other r
    pub anchors :
        (oid : String) (r : R)
        → view.there oid r ≡ true
        → ((git.set_retention_anchor release_ref oid r).0 ≡ ok tt)
          × (view.local_release (git.set_retention_anchor release_ref oid r).1 ≡ some oid)
    pub anchor_leaves :
        (oid : String) (r : R) → Leaves r (git.set_retention_anchor release_ref oid r).1
    pub anchor_remote :
        (oid id : String) (r : R)
        → view.remote_generation id (git.set_retention_anchor release_ref oid r).1
          ≡ view.remote_generation id r
    pub forces :
        (oid : String) (r : R)
        → view.local_release r ≡ some oid
        → ((git.push release_refspec r).0 ≡ ok tt)
          × (view.remote_release (git.push release_refspec r).1 ≡ some oid)
    pub force_leaves : (r : R) → Leaves r (git.push release_refspec r).1
    pub force_others :
        (id : String) (r : R)
        → view.remote_generation id (git.push release_refspec r).1 ≡ view.remote_generation id r

  -- The release commit, where the control plane has one, is an object of the repository.
  abbrev pub HasRelease : Option String → R → Type 0
  HasRelease none r = Unit
  HasRelease (some oid) r =
      ((oid =s "") ≡ true) ⊎ (((oid =s "") ≡ false) × (view.there oid r ≡ true))

  -- The remote points to the release commit.
  abbrev pub AtRelease : Option String → R → Type 0
  AtRelease none r = Unit
  AtRelease (some oid) r = ((oid =s "") ≡ true) ⊎ (view.remote_release r ≡ some oid)

  -- What the remote has of a generation is what the repository has.
  abbrev pub IsMirrored : String → R → Type 0
  IsMirrored id r =
      (oid : String) × (view.local_generation id r ≡ some oid)
      × (view.remote_generation id r ≡ some oid)

  module _ (up : IsReachable) where
    -- The mirror of the release pointer.
    pub record Mirrored (o : Option String) (w : World R) : Type 0 where
      pub returns : (mirror_release git o w).0 ≡ ok tt
      pub at_release : AtRelease o (mirror_release git o w).1.remote
      pub leaves : Leaves w.remote (mirror_release git o w).1.remote
      pub remotes :
          (id : String)
          → view.remote_generation id (mirror_release git o w).1.remote
            ≡ view.remote_generation id w.remote
      pub same_db : (mirror_release git o w).1.db ≡ w.db

    pub Leaves-refl : (r : R) → Leaves r r
    Leaves-refl r = record { same_local = λ id. refl; same_objects = λ oid t. t }

    pub Leaves-trans : (r s t : R) → Leaves r s → Leaves s t → Leaves r t
    Leaves-trans r s t a b = record {
      same_local = λ id. b.same_local id ∙ a.same_local id;
      same_objects = λ oid x. b.same_objects oid (a.same_objects oid x);
    }

    mirror_named :
        (oid : String) (w : World R)
        → (oid =s "") ≡ false
        → (git.set_retention_anchor release_ref oid w.remote).0 ≡ ok tt
        → (git.push release_refspec (git.set_retention_anchor release_ref oid w.remote).1).0 ≡ ok tt
        → mirror_release git (some oid) w ≡ (
          ok tt,
          record w {
            remote =
                (git.push release_refspec (git.set_retention_anchor release_ref oid w.remote).1).1;
          },
        )
    unfolding mirror_release
    mirror_named oid w named set pushed = rw (named, set, pushed) refl

    mirror_unnamed :
        (oid : String) (w : World R)
        → (oid =s "") ≡ true
        → mirror_release git (some oid) w ≡ (ok tt, w)
    unfolding mirror_release
    mirror_unnamed oid w e = rw e refl

    pub mirror_release-Mirrored :
        (o : Option String) (w : World R) → HasRelease o w.remote → Mirrored o w
    mirror_release-Mirrored none w h =
        unfold mirror_release in
        record {
          returns = refl;
          at_release = tt;
          leaves = Leaves-refl w.remote;
          remotes = λ id. refl;
          same_db = refl;
        }
    mirror_release-Mirrored (some oid) w (inl e) =
        let same = mirror_unnamed oid w e in
        record {
          returns = ap (λ t. t.0) same;
          at_release = inl e;
          leaves = subst (λ t. Leaves w.remote t.1.remote) (sym same) (Leaves-refl w.remote);
          remotes = λ id. ap (λ t. view.remote_generation id t.1.remote) same;
          same_db = ap (λ t. t.1.db) same;
        }
    mirror_release-Mirrored (some oid) w (inr (named, there)) =
        let (set, points) = up.anchors oid w.remote there in
        let r1 = (git.set_retention_anchor release_ref oid w.remote).1 in
        let r2 = (git.push release_refspec r1).1 in
        let (pushed, at) = up.forces oid r1 points in
        let same = mirror_named oid w named set pushed in
        record {
          returns = ap (λ t. t.0) same;
          at_release = inr (ap (λ t. view.remote_release t.1.remote) same ∙ at);
          leaves =
              subst (λ t. Leaves w.remote t.1.remote) (sym same)
                (Leaves-trans w.remote r1 r2 (up.anchor_leaves oid w.remote) (up.force_leaves r1));
          remotes = λ id.
              ap (λ t. view.remote_generation id t.1.remote) same
              ∙ up.force_others id r1
              ∙ up.anchor_remote oid id w.remote;
          same_db = ap (λ t. t.1.db) same;
        }
