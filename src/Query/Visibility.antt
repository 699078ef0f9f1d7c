-- ===== src/Query/Visibility.antt =====
-- What a query shows: the live records of its workspace that its capability reads, and no others.
use mathlib.Core.Path.{subst}
use wiki_spike.Base.{
  String, Bool, true, not, ◌&&◌, ◌≡◌, ◌≢◌, refl, sym, ap, ◌∙◌, ◌⊎◌, ◌↔◌, inl, inr, Option, none,
  some, List, [], ◌∷◌, ◌=s◌, In, arith, Option-cases, Bool-cases,
}
use wiki_spike.Policy.{CapabilityToken, authorize}
use wiki_spike.Query.{
  QueryEnvelope, MemoryRecord, QueryBatch, Visible, Payload, Status, is_live, shown, request, look,
  visible, use_projection, payload, query,
}

none_is_not_some : {A : Type 0} {a : A} → none ≡ some a → ⊥
none_is_not_some e = cc

some_inj : {A : Type 0} {a b : A} → some a ≡ some b → a ≡ b
some_inj e = cc

module _ (contract_version now : String) (resolve : String → String → Option CapabilityToken)
    (read : QueryEnvelope → Bool → Option QueryBatch)
    (lifecycle_status_at : String → String → String → Option String) where
  -- A record that a query may show, in a state.
  pub record IsShown (token : CapabilityToken) (q : QueryEnvelope) (r : MemoryRecord) (v : Visible)
      : Type 0 where
    pub own_workspace : r.workspace_id ≡ q.workspace_id
    pub state : String
    pub live : is_live state ≡ true
    pub current : lifecycle_status_at q.workspace_id r.object_id q.as_of_generation_id ≡ some state
    pub allowed :
        (authorize token
          (request contract_version now resolve read lifecycle_status_at q r)).allowed
        ≡ true
    pub same : shown r state ≡ v

  look-IsShown :
      (token : CapabilityToken) (q : QueryEnvelope) (r : MemoryRecord) (v : Visible)
      → look contract_version now resolve read lifecycle_status_at token q r ≡ some v
      → IsShown token q r v
  unfolding look
  look-IsShown token q r v e =
      elim (Option-cases (lifecycle_status_at q.workspace_id r.object_id q.as_of_generation_id)) [
        | inl absent ↦ absurd (ground arith)
        | inr (state, current) ↦ record {
          own_workspace = ground arith;
          state = state;
          live = ground arith;
          current = current;
          allowed = ground arith;
          same = ground arith;
        }
      ]

  IsShown-look :
      (token : CapabilityToken) (q : QueryEnvelope) (r : MemoryRecord) (v : Visible)
      → IsShown token q r v
      → look contract_version now resolve read lifecycle_status_at token q r ≡ some v
  unfolding look
  IsShown-look token q r v shows =
      ground (arith, shows.own_workspace, shows.live, shows.current, shows.allowed, shows.same)

  abbrev Shows : CapabilityToken → QueryEnvelope → Visible → List MemoryRecord → Type 0
  Shows token q v records =
      (r : MemoryRecord) × In r records
      × (look contract_version now resolve read lifecycle_status_at token q r ≡ some v)

  visible-hidden :
      (token : CapabilityToken) (q : QueryEnvelope) (r : MemoryRecord) (rest : List MemoryRecord)
      → look contract_version now resolve read lifecycle_status_at token q r ≡ none
      → visible contract_version now resolve read lifecycle_status_at token q (r ∷ rest)
        ≡ visible contract_version now resolve read lifecycle_status_at token q rest
  unfolding visible
  visible-hidden token q r rest e = ground arith

  visible-shown :
      (token : CapabilityToken) (q : QueryEnvelope) (r : MemoryRecord) (rest : List MemoryRecord)
      (v : Visible)
      → look contract_version now resolve read lifecycle_status_at token q r ≡ some v
      → visible contract_version now resolve read lifecycle_status_at token q (r ∷ rest)
        ≡ v ∷ visible contract_version now resolve read lifecycle_status_at token q rest
  unfolding visible
  visible-shown token q r rest v e = ground arith

  visible-nil :
      (token : CapabilityToken) (q : QueryEnvelope)
      → visible contract_version now resolve read lifecycle_status_at token q [] ≡ []
  unfolding visible
  visible-nil token q = refl

  In-visible :
      (token : CapabilityToken) (q : QueryEnvelope) (v : Visible) (records : List MemoryRecord)
      → In v (visible contract_version now resolve read lifecycle_status_at token q records)
        ↔ Shows token q v records
  In-visible token q v [] =
      subst (λ (vs : List Visible). In v vs ↔ Shows token q v []) (sym (visible-nil token q))
        ((λ e. absurd e), λ (r, e, s). absurd e)
  In-visible token q v (r ∷ rest) = elim (Option-cases (look_at r)) [
    | inl hidden ↦
        subst (λ (vs : List Visible). In v vs ↔ Shows token q v (r ∷ rest))
          (sym (visible-hidden token q r rest hidden))
          (
            (λ m. let (x, there, s) = (In-visible token q v rest).0 m in (x, inr there, s)),
            λ (x, m, s). elim m [
              | inl here ↦ absurd (none_is_not_some (sym hidden ∙ ap look_at here ∙ s))
              | inr there ↦ (In-visible token q v rest).1 (x, there, s)
            ],
          )
    | inr (w, shows) ↦
        subst (λ (vs : List Visible). In v vs ↔ Shows token q v (r ∷ rest))
          (sym (visible-shown token q r rest w shows))
          (
            (λ m. elim m [
              | inl here ↦ (r, inl refl, shows ∙ ap some here)
              | inr later ↦
                  let (x, there, s) = (In-visible token q v rest).0 later in (x, inr there, s)
            ]),
            λ (x, m, s). elim m [
              | inl here ↦ inl (some_inj (sym shows ∙ ap look_at here ∙ s))
              | inr there ↦ inr ((In-visible token q v rest).1 (x, there, s))
            ],
          )
  ]
    where
      look_at : MemoryRecord → Option Visible
      look_at x = look contract_version now resolve read lifecycle_status_at token q x

  answered :
      (q : QueryEnvelope) (token : CapabilityToken) (batch : QueryBatch) (p : Payload)
      → resolve q.workspace_id q.actor_id ≡ some token
      → read q (use_projection contract_version now resolve read lifecycle_status_at q) ≡ some batch
      → (query contract_version now resolve read lifecycle_status_at q).result ≡ some p
      → p.records
        ≡ visible contract_version now resolve read lifecycle_status_at token q batch.records
  unfolding query
  answered q token batch p granted found e = ground arith

  -- A query shows exactly the records of the batch that are of its workspace, that are active or accepted
  -- at its generation, and that its capability reads: each of them, and no other.
  pub query_shows :
      (q : QueryEnvelope) (token : CapabilityToken) (batch : QueryBatch) (p : Payload)
      → resolve q.workspace_id q.actor_id ≡ some token
      → read q (use_projection contract_version now resolve read lifecycle_status_at q) ≡ some batch
      → (query contract_version now resolve read lifecycle_status_at q).result ≡ some p
      → (v : Visible)
      → In v p.records ↔ ((r : MemoryRecord) × In r batch.records × IsShown token q r v)
  query_shows q token batch p granted found e v =
      let all = answered q token batch p granted found e in
      let exact = In-visible token q v batch.records in
      (
        (λ m.
            let (r, there, s) = exact.0 (subst (λ (vs : List Visible). In v vs) all m) in
            (r, there, look-IsShown token q r v s)),
        λ (r, there, s).
            subst (λ (vs : List Visible). In v vs) (sym all)
              (exact.1 (r, there, IsShown-look token q r v s)),
      )

  -- A query that does not answer `ok` shows nothing and names its error; one that answers `ok` and is not
  -- content with a projection is answered from the generation that it asked for.
  pub query_fails_closed :
      (q : QueryEnvelope)
      → (((query contract_version now resolve read lifecycle_status_at q).result ≡ none)
          × ((query contract_version now resolve read lifecycle_status_at q).error_code ≢ none)
          × ((query contract_version now resolve read lifecycle_status_at q).status ≢ Status.ok))
        ⊎ ((p : Payload) × ((query contract_version now resolve read lifecycle_status_at q).result
              ≡ some p)
            × ((query contract_version now resolve read lifecycle_status_at q).status ≡ Status.ok)
            × ((q.consistency ≡ "projection_ok")
                ⊎ (p.source_generation_id ≡ q.as_of_generation_id)))
  unfolding query
  query_fails_closed q = elim (Option-cases (resolve q.workspace_id q.actor_id)) [
    | inl missing ↦ inl (ground arith, (λ e. absurd (ground arith)), λ e. absurd (ground arith))
    | inr (token, granted) ↦
        elim (Option-cases
          (read q (use_projection contract_version now resolve read lifecycle_status_at q))) [
            | inl unavailable ↦
                inl (ground arith, (λ e. absurd (ground arith)), λ e. absurd (ground arith))
            | inr (batch, found) ↦
                elim (Bool-cases (
                  not (batch.generation_id =s q.as_of_generation_id)
                  && not
                      (use_projection contract_version now resolve read lifecycle_status_at q))) [
                        | inl stale ↦
                            inl (
                              ground arith,
                              (λ e. absurd (ground arith)),
                              λ e. absurd (ground arith),
                            )
                        | inr fresh ↦ inr (
                          payload contract_version now resolve read lifecycle_status_at token q
                              batch,
                          ground arith,
                          ground arith,
                          ground arith,
                        )
                      ]
          ]
  ]
