-- ===== src/Workspace/Guarded.antt =====
-- What the lease guards, and what an untrusted source cannot do.
use wiki_spike.Base.{ℕ, String, ◌≡◌, ◌≢◌, ◌⊎◌, refl, some, List, arith, inl, inr, Option-cases}
use wiki_spike.Exec.{Exec, Result, err, lease_error}
use wiki_spike.ControlPlane.Schema.{Db}
use wiki_spike.ControlPlane.Lease.{acquire_lease, release_lease, lease_holder}
use wiki_spike.ControlPlane.Lease.Fencing.{acquire-refused_iff, acquire-refused_unchanged}
use wiki_spike.Publish.Builder.{Builder}
use wiki_spike.Sources.Store.{Cas}
use wiki_spike.Sources.Ingest.{Texts, ExtractResult}
use wiki_spike.Workspace.{Workspace, under_lease, lease_ttl, admin_revoke, ingest_and_publish}

-- What comes of a call under the lease: it is refused because another has the lease, and changes nothing, or
-- it is not refused, and its holder has no lease at any time afterwards.
abbrev pub IsRefused : String → ℕ → Db → Type 0
IsRefused holder now db = (g : String) × (lease_holder now db ≡ some g) × (g ≢ holder)

abbrev pub IsFree : String → Db → Type 0
IsFree holder db = (later : ℕ) → lease_holder later db ≢ some holder

release_lease-IsFree : (holder : String) (db : Db) → IsFree holder (release_lease holder db)
unfolding release_lease lease_holder
release_lease-IsFree holder db later h = ground arith

module _ {R A : Type 0} (holder : String) (now : ℕ) (body : Exec (Workspace R) A) where
  pub under_lease-cases :
      (w : Workspace R)
      → (IsRefused holder now w.site.db × (under_lease holder now body w ≡ (err lease_error, w)))
        ⊎ ((¬ IsRefused holder now w.site.db)
            × IsFree holder (under_lease holder now body w).1.site.db)
  unfolding under_lease
  under_lease-cases w =
      let db = w.site.db in
      let iff = acquire-refused_iff db holder now lease_ttl in
      elim (Option-cases (acquire_lease holder now lease_ttl db).0) [
        | inl none_left ↦ inl (
          iff.0 none_left,
          rw (none_left, acquire-refused_unchanged db holder now lease_ttl none_left) refl,
        )
        | inr (token, granted) ↦ inr (
          (λ r. absurd (ground (arith, iff.1 r))),
          rw granted (
              release_lease-IsFree holder
                (body (record w {
                  site = record w.site { db = (acquire_lease holder now lease_ttl db).1 };
                })).1.site.db),
        )
      ]

module _ {R : Type 0} (builder : Builder R) (others : ℕ → Db → Db) (holder : String) (now : ℕ) where
  -- A trusted revocation is refused, and changes nothing, exactly where another has the lease at the time;
  -- otherwise, whether it returns or raises, its holder has no lease at any time afterwards.
  pub admin_revoke-IsFree :
      (claim_ids : List String) (reason : String) (w : Workspace R)
      → (IsRefused holder now w.site.db
          × (admin_revoke builder others holder now claim_ids reason w ≡ (err lease_error, w)))
        ⊎ ((¬ IsRefused holder now w.site.db)
            × IsFree holder (admin_revoke builder others holder now claim_ids reason w).1.site.db)
  unfolding admin_revoke
  admin_revoke-IsFree claim_ids reason w = under_lease-cases holder now _ w

  module _ (texts : Texts) (on_disk : String → String) (writers : Cas → Cas)
      (extract : String → String → String → Result ExtractResult) where
    -- An ingestion is refused, and changes nothing, exactly where another has the lease at the time;
    -- otherwise, whether it returns or raises, its holder has no lease at any time afterwards.
    pub ingest_and_publish-IsFree :
        (raw : String) (w : Workspace R)
        → (IsRefused holder now w.site.db
            × (ingest_and_publish builder others holder now texts on_disk writers extract raw w
                ≡ (err lease_error, w)))
          ⊎ ((¬ IsRefused holder now w.site.db)
              × IsFree holder
                  (ingest_and_publish builder others holder now texts on_disk writers extract raw
                    w).1.site.db)
    unfolding ingest_and_publish
    ingest_and_publish-IsFree raw w = under_lease-cases holder now _ w
