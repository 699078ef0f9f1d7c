-- ===== src/Lib.antt =====
-- The publication core of wiki-spike and the services around it.
--
-- The program compiles sources to claims and publishes them in generations. A generation is built and
-- signed in git, registered in the control plane (SQLite), and becomes the current one by one
-- compare-and-swap of the publication pointer. Searches, the remote mirror and the consumers of events
-- go by what the control plane says. All paths below are from the repository's root.
--
-- Parts and files
--   Base, Base/*    Helpers: Booleans, equalities of texts, options, lists, the order of texts, sorting.
--   Exec            Code that can raise: `Exec S A` is S → Result A × S, with the exceptions of the code
--                   as `Error`; `transaction` undoes the writes of a call that raises.
--   Table           SQL tables as lists of rows with a key: INSERT, INSERT OR IGNORE, INSERT OR REPLACE,
--                   UPDATE, SELECT of a row.
--   Models          src/wiki_spike/models.py and claims.py: source manifests with their lifecycle, claims.
--   ControlPlane    src/wiki_spike/controlplane.py: ControlPlane with its tables (Schema), the publisher
--                   lease (Lease), the generations and read models (Generations), the claims and their
--                   resolutions (Claims), `activate` (Activation), the search index (Search), the outbox
--                   (Outbox). Invariant states what holds after any calls, as `perform_all` of a list.
--   SearchService   src/wiki_spike/search.py: SearchService.query.
--   Mirror          src/wiki_spike/mirror.py: RemoteMirror.process_outbox and the reconciliation.
--   Json            JSON values, as the contracts use them.
--   Hashing         src/wiki_spike/hashing.py: merkle_root, and accepted_claim_set_root of models.py.
--   Assembler       src/wiki_spike/assembler.py: the texts of pages (Markup), the pages (Pages), the
--                   citation index (Citation), the snapshot and its reading (Snapshot).
--   Generation      src/wiki_spike/generation.py: GenerationBuilder.build_candidate; Verify has
--                   verify_manifest and verify_release. Refined puts it behind the interface of Publish,
--                   Listing, Stored, Readback and Complete follow the files of a commit. Repository
--                   has the methods of src/wiki_spike/gitrepo.py: GitRepo.
--   Publish         src/wiki_spike/publish.py: PublishService. Builder is the interface to
--                   src/wiki_spike/generation.py; Survivors, Release, Prepare, Materialize and Service
--                   are _survivors, the release commit, prepare, _post_publish, and activate_prepared
--                   with publish and the repair.
--   ChangeSet       src/wiki_spike/memory_core/changeset_publication.py: ChangeSetBuilder and
--                   StoragePublicationAdapter, which uses Publish.
--   Sources         src/wiki_spike/cas.py (Store): ContentAddressedStore, and src/wiki_spike/ingest.py
--                   (Ingest): IngestService.receive and compile.
--   Workspace       src/wiki_spike/workspace.py: Workspace.ingest_and_publish and admin_revoke, which hold
--                   the publisher lease around Sources and Publish.
--   Events          src/wiki_spike/memory_core/events.py: the consumer store (Store), the consumer
--                   (Consumer), the event log with its replay (Replay).
--   Policy          src/wiki_spike/memory_core/policy.py: PolicyEngine.
--   Gateway         src/wiki_spike/memory_core/command_gateway.py: MemoryCommandGateway.execute, which asks
--                   Policy and runs a handler at most once for an idempotency key.
--   Query           src/wiki_spike/memory_core/query_gateway.py: MemoryQueryGateway.query, which asks Policy.
--   Projections     src/wiki_spike/memory_core/projections.py: the staging manifest and the pointer store
--                   (Projections), DeterministicProjectionBuilder (Builder), ProjectionCoordinator
--                   (Coordinator).
--   Cutover         src/wiki_spike/memory_core/second_brain_cutover.py: the states of a cohort as a
--                   step relation, with its gates.
--   Runtime         src/wiki_spike/memory_runtime: cost.py (Cost), attention.py and proactive.py
--                   (Attention), cache.py (Cache) and degrade.py (Degrade).
-- Tests and concrete runs are in the files called Examples.
--
-- How the code is represented
--   State is passed explicitly: `Db` holds the tables of the control plane, `Site` a Db and a repository
--   of an abstract type R, `World` of the mirror a Db and a remote, `Sources` the stored files and the
--   manifests, and `Workspace` a Site and Sources. What other publishers do between a preparation and its
--   activation is a function `others` on the database, which is given the number of the attempt, so that
--   interleavings are explicit; `writers` is the same for the files of the store.
--   A method under a SQL transaction or under a lock is one step. JSON columns hold the decoded value;
--   times are natural numbers; amounts that the code keeps as decimal texts are numbers.
--   Git, SHA-256, signatures, the codecs and NFC, SQL's LIKE, str.strip and hours in a timezone are
--   parameters, and so is what is read back from a disk. `IsFaithful` says what is relied on of a builder:
--   that the manifest of a candidate names the artifacts of the candidate. Bytes are a type of their own in
--   Assembler and Generation, made by the canonical bytes of a JSON value or from a text, and what SHA-256
--   hashes and json.loads reads; an exception of theirs is `none`. `IsGit` says what is relied on of the
--   refs of a repository, which Generation/Repository shows of GitRepo from what git documents; and a
--   class called IsCollisionFree what is relied on of SHA-256. The mirror is given git as a record of its
--   own, with what its remote holds as a `View`.
--
-- Bounds
--   The retries of publish recurse on max_retries - 1, which is where the loop of the code ends, and
--   max_retries = 0 still makes one attempt. The replay of events recurses on the selected events.
--   The rounds of merkle_root run on fuel, as many rounds as there are nodes: each round halves the nodes.
--   All other loops go over lists. Python's integers have no bound.
--
-- Not modelled
--   The other methods of gitrepo.py than those that a build uses, the normal form of canonical.py, the offline verifier (verify.py), the
--   extractors of claims, the opening and the migration of database files, created_at columns, the
--   parsing of contracts, the encrypted stores under src/wiki_spike/infrastructure, the command lines and
--   the services under applications and composition.
pub mod Base
pub mod Exec
pub mod Table
pub mod Models
pub mod ControlPlane
pub mod SearchService
pub mod Mirror
pub mod Publish
pub mod Events
pub mod Policy
pub mod Runtime
pub mod Cutover
pub mod ChangeSet
pub mod Sources
pub mod Workspace
pub mod Gateway
pub mod Json
pub mod Hashing
pub mod Assembler
pub mod Generation
pub mod Projections
pub mod Query
