-- ===== src/ControlPlane/Lease/Fencing.antt =====
-- Mutual exclusion by the lease, and fencing by its tokens, over every interleaving of publishers.
use mathlib.Core.Path.{subst}
use wiki_spike.Base.{
  ℕ, ◌+◌, ◌<◌, String, ◌≡◌, refl, ◌≢◌, ◌⊎◌, ◌↔◌, inl, inr, Option, none, some, List, [], ◌∷◌, arith,
  sym, All, All-imp, Ordered, Option-cases,
}
use wiki_spike.ControlPlane.Schema.{Db}
use wiki_spike.ControlPlane.Lease.{acquire_lease, release_lease, lease_holder}

-- The lease is refused exactly when another holder has it at that time.
pub acquire-refused_iff :
    (db : Db) (h : String) (now ttl : ℕ)
    → ((acquire_lease h now ttl db).0 ≡ none)
      ↔ ((g : String) × (lease_holder now db ≡ some g) × (g ≢ h))
unfolding acquire_lease lease_holder
acquire-refused_iff db h now ttl = (refused (Option-cases (lease_holder now db)), held)
  where
    refused :
        (lease_holder now db ≡ none) ⊎ ((g : String) × (lease_holder now db ≡ some g))
        → (acquire_lease h now ttl db).0 ≡ none
        → (g : String) × (lease_holder now db ≡ some g) × (g ≢ h)
    refused (inl e) r = absurd (ground arith)
    refused (inr (g, e)) r = (g, e, ground arith)

    held :
        (g : String) × (lease_holder now db ≡ some g) × (g ≢ h)
        → (acquire_lease h now ttl db).0 ≡ none
    held (g, e, n) = ground arith

pub acquire-refused_unchanged :
    (db : Db) (h : String) (now ttl : ℕ)
    → (acquire_lease h now ttl db).0 ≡ none
    → (acquire_lease h now ttl db).1 ≡ db
unfolding acquire_lease
acquire-refused_unchanged db h now ttl r = ground arith

lease_holder_lem :
    (db : Db) (h : String) (now : ℕ)
    → db.lease.holder ≡ some h
    → now < db.lease.expires_at
    → lease_holder now db ≡ some h
unfolding lease_holder
lease_holder_lem db h now e l = ground arith

-- The calls that publishers make, in the order in which SQLite serialises them. The clocks of the
-- publishers need not agree.
pub data LeaseCall : Type 0 where
  acquire : String → ℕ → ℕ → LeaseCall
  release : String → LeaseCall

pub record Grant : Type 0 where
  pub grantee : String
  pub token : ℕ

abbrev pub call : LeaseCall → Db → Db
call (acquire h now ttl) db = (acquire_lease h now ttl db).1
call (release h) db = release_lease h db

abbrev granted : String → Option ℕ → List Grant → List Grant
granted h none gs = gs
granted h (some t) gs = record { grantee = h; token = t } ∷ gs

-- What the calls were granted, in order.
unfoldable pub grants : List LeaseCall → Db → List Grant
grants [] db = []
grants (acquire h now ttl ∷ cs) db =
    granted h (acquire_lease h now ttl db).0 (grants cs (acquire_lease h now ttl db).1)
grants (release h ∷ cs) db = grants cs (release_lease h db)

pub run_calls : List LeaseCall → Db → Db
run_calls [] db = db
run_calls (c ∷ cs) db = run_calls cs (call c db)

-- A grant is newer than the lease of `db`, or is a renewal by its holder.
abbrev Follows : Db → Grant → Type 0
Follows db g =
    (db.lease.fencing_token < g.token)
    ⊎ ((db.lease.fencing_token ≡ g.token) × (db.lease.holder ≡ some g.grantee))

Follows-acquire :
    (db : Db) (h : String) (now ttl : ℕ) (g : Grant)
    → Follows (acquire_lease h now ttl db).1 g
    → Follows db g
unfolding acquire_lease
Follows-acquire db h now ttl g f = ground arith

Follows-release : (db : Db) (h : String) (g : Grant) → Follows (release_lease h db) g → Follows db g
unfolding release_lease
Follows-release db h g f = ground arith

Follows-granted :
    (db : Db) (h : String) (now ttl : ℕ) (t : ℕ)
    → (acquire_lease h now ttl db).0 ≡ some t
    → Follows db (record { grantee = h; token = t })
unfolding acquire_lease
Follows-granted db h now ttl t e = ground arith

All-Follows-granted :
    (db : Db) (h : String) (now ttl : ℕ) (gs : List Grant)
    → All (Follows (acquire_lease h now ttl db).1) gs
    → All (Follows db) (granted h (acquire_lease h now ttl db).0 gs)
All-Follows-granted db h now ttl gs f =
    first (Option-cases (acquire_lease h now ttl db).0)
      (All-imp _ _ gs (Follows-acquire db h now ttl) f)
  where
    first :
        ((acquire_lease h now ttl db).0 ≡ none)
          ⊎ ((t : ℕ) × ((acquire_lease h now ttl db).0 ≡ some t))
        → All (Follows db) gs
        → All (Follows db) (granted h (acquire_lease h now ttl db).0 gs)
    first (inl e) rest = rw e rest
    first (inr (t, e)) rest = rw e (Follows-granted db h now ttl t e, rest)

grants-Follows : (cs : List LeaseCall) (db : Db) → All (Follows db) (grants cs db)
unfolding grants
grants-Follows [] db = tt
grants-Follows (acquire h now ttl ∷ cs) db =
    All-Follows-granted db h now ttl (grants cs (call (acquire h now ttl) db))
      (grants-Follows cs (acquire_lease h now ttl db).1)
grants-Follows (release h ∷ cs) db =
    All-imp _ _ (grants cs (release_lease h db)) (Follows-release db h)
      (grants-Follows cs (release_lease h db))

-- A later grant has a higher token, or renews the lease of the same holder under the same token.
abbrev pub Fences : Grant → Grant → Type 0
Fences g later = (g.token < later.token) ⊎ ((g.token ≡ later.token) × (g.grantee ≡ later.grantee))

Fences-Follows :
    (db : Db) (h : String) (now ttl t : ℕ) (g : Grant)
    → (acquire_lease h now ttl db).0 ≡ some t
    → Follows (acquire_lease h now ttl db).1 g
    → Fences (record { grantee = h; token = t }) g
unfolding acquire_lease
Fences-Follows db h now ttl t g e f = ground arith

-- Over any calls of any publishers, whatever their clocks show, every later grant has a higher
-- fencing token than an earlier one, or the same token and the same holder.
pub grants-Fences : (cs : List LeaseCall) (db : Db) → Ordered Fences (grants cs db)
unfolding grants
grants-Fences [] db = tt
grants-Fences (release h ∷ cs) db = grants-Fences cs (release_lease h db)
grants-Fences (acquire h now ttl ∷ cs) db =
    first (Option-cases (acquire_lease h now ttl db).0)
      (grants-Follows cs (acquire_lease h now ttl db).1)
      (grants-Fences cs (acquire_lease h now ttl db).1)
  where
    first :
        ((acquire_lease h now ttl db).0 ≡ none)
          ⊎ ((t : ℕ) × ((acquire_lease h now ttl db).0 ≡ some t))
        → All (Follows (acquire_lease h now ttl db).1) (grants cs (acquire_lease h now ttl db).1)
        → Ordered Fences (grants cs (acquire_lease h now ttl db).1)
        → Ordered Fences
            (granted h (acquire_lease h now ttl db).0 (grants cs (acquire_lease h now ttl db).1))
    first (inl e) follows rest = rw e rest
    first (inr (t, e)) follows rest =
        subst (λ o. Ordered Fences (granted h o (grants cs (acquire_lease h now ttl db).1))) (sym e)
          (
            All-imp _ _ (grants cs (acquire_lease h now ttl db).1)
                (λ g f. Fences-Follows db h now ttl t g e f) follows,
            rest,
          )

-- The calls of other publishers before the time `until`.
abbrev pub IsIntruder : String → ℕ → LeaseCall → Type 0
IsIntruder h until (acquire g now ttl) = (g ≢ h) × (now < until)
IsIntruder h until (release g) = g ≢ h

call-intruder :
    (db : Db) (h : String) (until : ℕ) (c : LeaseCall)
    → db.lease.holder ≡ some h
    → db.lease.expires_at ≡ until
    → IsIntruder h until c
    → call c db ≡ db
unfolding acquire_lease release_lease
call-intruder db h until (acquire g now ttl) held e i = ground arith
call-intruder db h until (release g) held e i = ground arith

run_calls-held :
    (cs : List LeaseCall) (db : Db) (h : String) (until : ℕ)
    → db.lease.holder ≡ some h
    → db.lease.expires_at ≡ until
    → All (IsIntruder h until) cs
    → run_calls cs db ≡ db
unfolding run_calls
run_calls-held [] db h until held e i = refl
run_calls-held (c ∷ cs) db h until held e i =
    rw (call-intruder db h until c held e i.0) (run_calls-held cs db h until held e i.1)

acquire_holds :
    (db : Db) (h : String) (now ttl t : ℕ)
    → (acquire_lease h now ttl db).0 ≡ some t
    → ((acquire_lease h now ttl db).1.lease.holder ≡ some h)
      × ((acquire_lease h now ttl db).1.lease.expires_at ≡ now + ttl)
unfolding acquire_lease
acquire_holds db h now ttl t e = ground arith

-- Once `h` is granted the lease at `now` for `ttl`, no calls of other publishers before `now + ttl`
-- change anything, and `h` is the holder for all that time.
pub lease_exclusive :
    (db : Db) (h : String) (now ttl t : ℕ) (cs : List LeaseCall) (later : ℕ)
    → (acquire_lease h now ttl db).0 ≡ some t
    → All (IsIntruder h (now + ttl)) cs
    → later < now + ttl
    → (run_calls cs (acquire_lease h now ttl db).1 ≡ (acquire_lease h now ttl db).1)
      × (lease_holder later (run_calls cs (acquire_lease h now ttl db).1) ≡ some h)
lease_exclusive db h now ttl t cs later e i l =
    let (held, until) = acquire_holds db h now ttl t e in
    let same = run_calls-held cs (acquire_lease h now ttl db).1 h (now + ttl) held until i in
    (same, rw same (lease_holder_lem (acquire_lease h now ttl db).1 h later held (omega arith)))
