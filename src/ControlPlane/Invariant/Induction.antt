-- ===== src/ControlPlane/Invariant/Induction.antt =====
-- Induction over calls: a property of the core is kept by all of them, if it is by those that write
-- generations, the publication or the outbox.
use wiki_spike.Base.{ℕ, String, Option, List, [], ◌∷◌}
use wiki_spike.ControlPlane.Schema.{Db, InlineArtifacts}
use wiki_spike.ControlPlane.Generations.{
  register_generation, set_release_commit, set_read_models_ready,
}
use wiki_spike.ControlPlane.Activation.{activate}
use wiki_spike.ControlPlane.Outbox.{mark_outbox_processed}
use wiki_spike.ControlPlane.Invariant.{Call, perform, perform_all}
use wiki_spike.ControlPlane.Invariant.Frame.{
  SameCore, acquire-SameCore, release-SameCore, mark-SameCore, upsert-SameCore, join-SameCore,
  resolve-SameCore, index-SameCore, point-SameCore,
}

pub record IsKept (P : Db → Type 0) : Type 0 where
  pub same : (a b : Db) → SameCore a b → P b → P a
  pub registered :
      (id : String) (parent : Option String) (oid hash : String) (m : InlineArtifacts)
      (rel : Option String) (db : Db)
      → P db
      → P (register_generation id parent oid hash m rel db)
  pub released : (id oid : String) (db : Db) → P db → P (set_release_commit id oid db)
  pub readied : (id : String) (db : Db) → P db → P (set_read_models_ready id db)
  pub activated :
      (id : String) (expected : Option String) (oid : String) (db : Db)
      → P db
      → P (activate id expected oid db).1
  pub relayed : (event_id : ℕ) (db : Db) → P db → P (mark_outbox_processed event_id db)

module _ {P : Db → Type 0} (k : IsKept P) where
  pub perform_keeps : (call : Call) (db : Db) → P db → P (perform call db)
  unfolding perform
  perform_keeps (Call.acquiring holder now ttl) db c =
      k.same _ db (acquire-SameCore holder now ttl db) c
  perform_keeps (Call.releasing holder) db c = k.same _ db (release-SameCore holder db) c
  perform_keeps (Call.registering id parent oid hash m rel) db c =
      k.registered id parent oid hash m rel db c
  perform_keeps (Call.releasing_commit id oid) db c = k.released id oid db c
  perform_keeps (Call.marking id name digest) db c = k.same _ db (mark-SameCore id name digest db) c
  perform_keeps (Call.readying id) db c = k.readied id db c
  perform_keeps (Call.upserting claim) db c = k.same _ db (upsert-SameCore claim db) c
  perform_keeps (Call.joining id aids) db c = k.same _ db (join-SameCore id aids db) c
  perform_keeps (Call.resolving id claim_id s) db c =
      k.same _ db (resolve-SameCore id claim_id s db) c
  perform_keeps (Call.indexing id es) db c = k.same _ db (index-SameCore id es db) c
  perform_keeps (Call.pointing id) db c = k.same _ db (point-SameCore id db) c
  perform_keeps (Call.activating id expected oid) db c = k.activated id expected oid db c
  perform_keeps (Call.relaying event_id) db c = k.relayed event_id db c

  pub perform_all_keeps : (calls : List Call) (db : Db) → P db → P (perform_all calls db)
  unfolding perform_all
  perform_all_keeps [] db c = c
  perform_all_keeps (call ∷ calls) db c =
      perform_all_keeps calls (perform call db) (perform_keeps call db c)
