-- ===== src/Publish/Service/Retry.antt =====
-- The retry loop of `publish`: how often it tries.
use Prim.Native.Nat.{max}
use wiki_spike.Base.{
  ℕ, zero, suc, ◌+◌, ◌-◌, ◌≤◌, String, ◌≡◌, ap, Option, List, arith, true, inl, inr,
}
use wiki_spike.Exec.{Result-cases, ok}
use wiki_spike.Models.{CompiledClaim}
use wiki_spike.ControlPlane.Schema.{Db}
use wiki_spike.Publish.Builder.{Builder, Candidate, Site}
use wiki_spike.Publish.Prepare.{Prepared, Request, build, prepare}
use wiki_spike.Publish.Prepare.Runs.{stored, prepare_ok}
use wiki_spike.Publish.Service.{
  PublishResult, is_strict, activate_candidate, activate_prepared, attempt, settle_attempt,
  publish_from, publish,
}

candidate-attempts :
    (p : Prepared) (c : Candidate) (oid : String) (db : Db) (r : PublishResult)
    → (activate_candidate p c oid db).0 ≡ ok r
    → r.attempts ≡ p.attempts
unfolding activate_candidate
candidate-attempts p c oid db r h = ground arith

prepared-attempts :
    (p : Prepared) (db : Db) (r : PublishResult)
    → (activate_prepared p db).0 ≡ ok r
    → r.attempts ≡ p.attempts
unfolding activate_prepared
prepared-attempts p db r h = ground (arith, candidate-attempts p)

module _ {R : Type 0} (builder : Builder R) where
  build-attempts :
      (q : Request) (n : ℕ) (parent : Option String) (claims : List CompiledClaim) (s : Site R)
      (p : Prepared)
      → (build builder q n parent claims s).0 ≡ ok p
      → p.attempts ≡ n
  unfolding build
  build-attempts q n parent claims s p h = ground arith

  prepare-attempts :
      (q : Request) (n : ℕ) (s : Site R) (p : Prepared)
      → (prepare builder q n s).0 ≡ ok p
      → p.attempts ≡ n
  prepare-attempts q n s p h =
      let run = prepare_ok builder q n s p h in
      elim run.outcome [
        | inl (kept, empty, left) ↦ ap (λ (x : Prepared). x.attempts) empty
        | inr (changed, done, left) ↦ build-attempts q n _ _ (stored builder q s) p done
      ]

  module _ (others : ℕ → Db → Db) where
    attempt-attempts :
        (q : Request) (n : ℕ) (s : Site R) (r : PublishResult)
        → (attempt builder others q n s).0 ≡ ok r
        → r.attempts ≡ n
    unfolding attempt
    attempt-attempts q n s r h = elim (Result-cases (prepare builder q n s).0) [
      | inr (e, failed) ↦ absurd (ground arith)
      | inl (p, done) ↦
          let at = prepare-attempts q n s p done in
          let db = (prepare builder q n s).1.db in
          ground (arith, prepared-attempts p (others n db) r)
    ]

    from-attempts :
        (left : ℕ) (q : Request) (n : ℕ) (s : Site R) (r : PublishResult)
        → (publish_from builder others left q n s).0 ≡ ok r
        → (n ≤ r.attempts) × (r.attempts ≤ n + left)
    unfolding publish_from settle_attempt
    from-attempts zero q n s r h = elim (Result-cases (attempt builder others q n s).0) [
      | inl (a, done) ↦ ground (arith, attempt-attempts q n s a done)
      | inr (e, failed) ↦ ground arith
    ]
    from-attempts (suc left) q n s r h = elim (Result-cases (attempt builder others q n s).0) [
      | inl (a, done) ↦ ground (arith, attempt-attempts q n s a done)
      | inr (e, failed) ↦
          ground (arith, from-attempts left q (n + 1) (attempt builder others q n s).1 r)
    ]

    -- A publication that succeeds reports an attempt between the first and `max_retries`, and the
    -- first where `max_retries` is 0.
    pub publish-attempts :
        (q : Request) (max_retries : ℕ) (s : Site R) (r : PublishResult)
        → (publish builder others q max_retries s).0 ≡ ok r
        → (1 ≤ r.attempts) × (r.attempts ≤ max 1 max_retries)
    unfolding publish
    publish-attempts q max_retries s r h =
        let (low, high) = from-attempts (max_retries - 1) q 1 s r h in (low, omega arith)

    from_strict :
        (left : ℕ) (q : Request) (n : ℕ) (s : Site R)
        → is_strict q.expected ≡ true
        → publish_from builder others left q n s ≡ attempt builder others q n s
    unfolding publish_from settle_attempt
    from_strict zero q n s h = elim (Result-cases (attempt builder others q n s).0) [
      | inl (a, done) ↦ ground arith
      | inr (e, failed) ↦ ground arith
    ]
    from_strict (suc left) q n s h = elim (Result-cases (attempt builder others q n s).0) [
      | inl (a, done) ↦ ground arith
      | inr (e, failed) ↦ ground arith
    ]

    -- A publication with an expected parent is its first attempt, whatever `max_retries` is: a conflict
    -- is not tried again.
    pub publish_strict :
        (q : Request) (max_retries : ℕ) (s : Site R)
        → is_strict q.expected ≡ true
        → publish builder others q max_retries s ≡ attempt builder others q 1 s
    unfolding publish
    publish_strict q max_retries s h = from_strict (max_retries - 1) q 1 s h
