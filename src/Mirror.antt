-- ===== src/Mirror.antt =====
-- mirror.py: the outbox drives pushes to a Git remote, a mirror of the control plane. The `git`
-- commands are not part of the repository: a `Git` has them as actions on a state of its own.
pub mod Completion
pub mod Pushes
pub mod Relayed
pub mod Delivery
mod Examples
use Prim.Native.String.{◌++◌ as append_text}
use wiki_spike.Base.{ℕ, ◌+◌, String, Option, none, some, List, [], ◌∷◌, ◌=s◌, if◌then◌else◌}
use wiki_spike.Exec.{Exec, pure, gets, modify, ◌>>=◌, ◌>>◌}
use wiki_spike.ControlPlane.Schema.{Db, OutboxEvent}
use wiki_spike.ControlPlane.Outbox.{pending_outbox, mark_outbox_processed}

pub record Git (R : Type 0) : Type 0 where
  pub ensure_remote : Exec R Unit  -- git init --bare, if it is not there
  pub push : String → Exec R Unit  -- git push <remote> <refspec>
  pub set_retention_anchor : String → String → Exec R Unit  -- git update-ref <ref> <oid>

-- A `RemoteMirror` and the control plane that it is given.
pub record World (R : Type 0) : Type 0 where
  pub db : Db
  pub remote : R

module _ {R A : Type 0} where
  abbrev pub on_remote : Exec R A → Exec (World R) A
  on_remote m w = let (r, remote) = m w.remote in (r, record w { remote = remote })

-- generations/<gen>, pushed to the ref of the same name
unfoldable pub generation_refspec : String → String
generation_refspec id =
    append_text "refs/wiki/generations/" (append_text id (append_text ":refs/wiki/generations/" id))

abbrev pub release_refspec : String
release_refspec = "+refs/wiki/releases/current:refs/wiki/releases/current"

module _ {R : Type 0} (git : Git R) where
  unfoldable pub push_generation : String → Exec (World R) Unit
  unfolding generation_refspec
  push_generation id = on_remote (git.push (generation_refspec id))

  -- `if rel_oid:`, which an empty text fails too
  unfoldable pub mirror_release : Option String → Exec (World R) Unit
  mirror_release none = pure tt
  mirror_release (some oid) = if oid =s "" then pure tt else do
    on_remote (git.set_retention_anchor "refs/wiki/releases/current" oid)
    on_remote (git.push release_refspec)

  unfoldable pub sync_release_ref : Exec (World R) Unit
  unfolding mirror_release
  sync_release_ref = do oid ← gets (λ w. w.db.current_release_commit_oid); mirror_release oid

  -- The one type of event is 'release_mirror_requested'; others would be marked without a push.
  unfoldable pub relay : OutboxEvent → Exec (World R) Unit
  unfolding push_generation sync_release_ref
  relay e = do
    push_generation e.generation_id
    sync_release_ref
    modify (λ w. record w { db = mark_outbox_processed e.event_id w.db })

  unfoldable pub relay_all : List OutboxEvent → Exec (World R) ℕ
  unfolding relay
  relay_all [] = pure 0
  relay_all (e ∷ es) = do relay e; n ← relay_all es; pure (n + 1)

  -- `if not pending: sync_release_ref`
  abbrev reconcile : List OutboxEvent → Exec (World R) Unit
  reconcile [] = sync_release_ref
  reconcile (e ∷ es) = pure tt

  unfoldable pub process_outbox : Exec (World R) ℕ
  unfolding relay_all
  process_outbox = do
    on_remote git.ensure_remote
    pending ← gets (λ w. pending_outbox w.db)
    n ← relay_all pending
    reconcile pending
    pure n
