-- ===== src/ControlPlane/Lease.antt =====
-- The single-publisher lease of controlplane.py. A time to live is a natural number; the source
-- takes any int, and passes the constant `LEASE_TTL`.
pub mod Fencing
use wiki_spike.Base.{
  ℕ, ◌+◌, String, Bool, false, true, not, ◌&&◌, Option, none, some, ltb, leb, ◌=o◌, if◌then◌else◌,
}
use wiki_spike.ControlPlane.Schema.{Db, PublisherLease}

abbrev pub is_some {ℓ} : {A : Type ℓ} → Option A → Bool
is_some none = false
is_some (some a) = true

-- The token that is granted, or `none` where another holder has the lease.
unfoldable pub acquire_lease : String → ℕ → ℕ → Db → Option ℕ × Db
acquire_lease holder now ttl db =
    let row = db.lease in
    let expired = leb row.expires_at now in
    let mine = row.holder =o some holder in
    if is_some row.holder && not expired && not mine
    then (none, db)
    else (let new_token =
          if mine && not expired then row.fencing_token else row.fencing_token + 1 in
        (
          some new_token,
          record db {
            lease = record {
              holder = some holder;
              expires_at = now + ttl;
              fencing_token = new_token;
            };
          },
        ))

unfoldable pub release_lease : String → Db → Db
release_lease holder db =
    if db.lease.holder =o some holder
    then record db { lease = record db.lease { holder = none; expires_at = 0 } }
    else db

unfoldable pub lease_holder : ℕ → Db → Option String
lease_holder now db =
    if is_some db.lease.holder && ltb now db.lease.expires_at then db.lease.holder else none
