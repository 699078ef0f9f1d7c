-- ===== src/Exec.antt =====
-- Methods that change a stored state and may raise. What a method wrote before it raises stays
-- written, so the state comes back beside the error too; `transaction` undoes it, as the source's
-- `BEGIN IMMEDIATE` ... `except BaseException: ROLLBACK` does.
use wiki_spike.Base.{String, Bool, true, false, ◌≡◌, ◌⊎◌, inl, inr, refl}

-- The exceptions of controlplane.py, publish.py, mirror.py, changeset_publication.py, cas.py, ingest.py
-- and sqlite3. Two constructors stand for
-- two messages of one exception class.
pub data Error : Type 0 where
  cas_conflict pointer_moved : Error  -- CASConflict
  no_required_read_models state_not_ready release_mismatch : Error  -- ActivationError
  read_model_not_ready digest_mismatch : String → Error  -- ActivationError
  integrity_error : Error  -- sqlite3.IntegrityError
  lease_error : Error  -- LeaseError
  push_failed : String → Error  -- MirrorError
  artifact_not_verified : Error  -- RuntimeError
  ref_already_points_elsewhere parent_not_found : Error  -- ValueError
  changeset_incomplete changeset_root_mismatch : Error  -- ChangeSetPublicationError
  changeset_stale_parent changeset_binding_mismatch : Error  -- ChangeSetPublicationError
  integrity_violation verify_after_write_failed object_not_found : Error  -- CASError
  unknown_source : Error  -- KeyError
  not_compilable : Error  -- RuntimeError
  illegal_transition : Error  -- StateError
  not_unicode : Error  -- UnicodeDecodeError

pub data Result {ℓ} (A : Type ℓ) : Type ℓ where
  ok : A → Result A
  err : Error → Result A

abbrev pub Exec {ℓ} : Type ℓ → Type ℓ → Type ℓ
Exec S A = S → Result A × S

module _ {ℓ} {S A : Type ℓ} where
  abbrev pub pure : A → Exec S A
  pure a s = (ok a, s)

  abbrev pub raise : Error → Exec S A
  raise e s = (err e, s)

  abbrev pub gets : (S → A) → Exec S A
  gets f s = (ok (f s), s)

  abbrev settle : S → Result A → S → Result A × S
  settle s (ok a) s' = (ok a, s')
  settle s (err e) s' = (err e, s)

  -- `BEGIN IMMEDIATE`, the body, `COMMIT`; `ROLLBACK` on any exception
  abbrev pub transaction : Exec S A → Exec S A
  transaction m s = let (r, s') = m s in settle s r s'

module _ {ℓ} {S A B : Type ℓ} where
  abbrev continue : Result A → (A → Exec S B) → Exec S B
  continue (ok a) f s = f a s
  continue (err e) f s = (err e, s)

  infixl 10 ◌>>=◌ ◌>>◌
  abbrev pub ◌>>=◌ : Exec S A → (A → Exec S B) → Exec S B
  ◌>>=◌ m f s = let (r, s') = m s in continue r f s'

  abbrev pub ◌>>◌ : Exec S A → Exec S B → Exec S B
  m >> n = m >>= λ _. n

module _ {S : Type 0} where
  abbrev pub modify : (S → S) → Exec S Unit
  modify f s = (ok tt, f s)

  abbrev pub raise_if : Bool → Error → Exec S Unit
  raise_if true e = raise e
  raise_if false e = pure tt

pub Result-cases {ℓ} :
    {A : Type ℓ} (r : Result A) → ((a : A) × (r ≡ ok a)) ⊎ ((e : Error) × (r ≡ err e))
Result-cases (ok a) = inl (a, refl)
Result-cases (err e) = inr (e, refl)

-- A transaction that raises leaves the state as it was.
pub transaction_rolls_back {ℓ} :
    {S A : Type ℓ} (m : Exec S A) (s : S) (e : Error)
    → (transaction m s).0 ≡ err e
    → (transaction m s).1 ≡ s
transaction_rolls_back {S} {A} m s e h = rolls_back (m s).0 (m s).1 h
  where
    rolls_back : (r : Result A) (s' : S) → (settle s r s').0 ≡ err e → (settle s r s').1 ≡ s
    rolls_back (ok a) s' h = cc
    rolls_back (err x) s' h = refl
