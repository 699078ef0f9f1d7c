-- ===== src/Gateway/Idempotent.antt =====
-- A command takes effect only where it is allowed, and a recorded one never again.
use wiki_spike.Base.{
  String, true, ◌≡◌, ◌≢◌, ap, ◌∙◌, Option, none, some, List, [], ◌∷◌, arith, inl, inr, Bool-cases,
  Option-cases, Key-discrete, ◌=o◌, =o→eq,
}
use wiki_spike.Table.{find-put}
use wiki_spike.Policy.{Sensitivity, CapabilityToken, authorize}
use wiki_spike.Gateway.{
  CommandEnvelope, Reply, IdempotencyRecord, Gateway, record_key, sensitivity_of, request_of,
  recorded, execute, execute_all,
}

module _ {P D S : Type 0} (digest : CommandEnvelope P → String) (sensitivity_text : P → String)
    (current_generation_id : S → String → Option String)
    (resolve : S → String → String → Option CapabilityToken) (now : String)
    (handle : CommandEnvelope P → S → Option (Reply D) × S) where
  abbrev run : CommandEnvelope P → Gateway D S → Reply D × Gateway D S
  run = execute digest sensitivity_text current_generation_id resolve now handle

  abbrev run_all : List (CommandEnvelope P) → Gateway D S → Gateway D S
  run_all = execute_all digest sensitivity_text current_generation_id resolve now handle

  abbrev record_of : CommandEnvelope P → Gateway D S → Option (IdempotencyRecord D)
  record_of = recorded digest sensitivity_text current_generation_id resolve now handle

  -- What lets a command through to its handler.
  pub record IsAllowed (c : CommandEnvelope P) (g : Gateway D S) : Type 0 where
    pub fresh : record_of c g ≡ none
    pub current : c.expected_generation_id ≡ current_generation_id g.world c.workspace_id
    pub token : CapabilityToken
    pub holder : resolve g.world c.workspace_id c.actor_id ≡ some token
    pub sensitivity : Sensitivity
    pub named : sensitivity_of (sensitivity_text c.payload) ≡ some sensitivity
    pub allowed :
        (authorize token (
          request_of digest sensitivity_text current_generation_id resolve now handle c
            sensitivity)).allowed
        ≡ true

  -- A command that changes anything, be it the state of the handler or a record, had no record yet, named
  -- the current generation, and was allowed by the policy for the token of its actor.
  pub execute-IsAllowed :
      (c : CommandEnvelope P) (g : Gateway D S) → (run c g).1 ≢ g → IsAllowed c g
  unfolding execute
  execute-IsAllowed c g changed = elim (Option-cases (record_of c g)) [
    | inr (r, known) ↦ absurd (ground arith)
    | inl fresh ↦
        elim (Bool-cases
          (c.expected_generation_id =o current_generation_id g.world c.workspace_id)) [
            | inr stale ↦ absurd (ground arith)
            | inl current ↦ elim (Option-cases (resolve g.world c.workspace_id c.actor_id)) [
              | inl nobody ↦ absurd (ground arith)
              | inr (token, holder) ↦
                  elim (Option-cases (sensitivity_of (sensitivity_text c.payload))) [
                    | inl unnamed ↦ absurd (ground arith)
                    | inr (s, named) ↦ record {
                      fresh = fresh;
                      current = =o→eq _ _ current;
                      token = token;
                      holder = holder;
                      sensitivity = s;
                      named = named;
                      allowed =
                          elim (Bool-cases
                            (authorize token (
                              request_of digest sensitivity_text current_generation_id resolve now
                                handle c s)).allowed) [
                                  | inl granted ↦ granted
                                  | inr refused ↦ absurd (ground arith)
                                ];
                    }
                  ]
            ]
          ]
  ]

  Keeps-execute :
      (c b : CommandEnvelope P) (g : Gateway D S) (r : IdempotencyRecord D)
      → record_of c g ≡ some r
      → record_of c (run b g).1 ≡ some r
  unfolding execute
  Keeps-execute c b g r known = elim (Option-cases (record_of b g)) [
    | inr (x, there) ↦ ground arith
    | inl fresh ↦
        elim (Bool-cases
          (b.expected_generation_id =o current_generation_id g.world b.workspace_id)) [
            | inr stale ↦ ground arith
            | inl current ↦ elim (Option-cases (resolve g.world b.workspace_id b.actor_id)) [
              | inl nobody ↦ ground arith
              | inr (token, holder) ↦
                  elim (Option-cases (sensitivity_of (sensitivity_text b.payload))) [
                    | inl unnamed ↦ ground arith
                    | inr (s, named) ↦ elim (Option-cases (handle b g.world).0) [
                      | inl raised ↦ ground arith
                      | inr (reply, answered) ↦
                          let written : IdempotencyRecord D = record {
                            workspace_id = b.workspace_id;
                            key = b.idempotency_key;
                            request_digest = digest b;
                            reply = reply;
                          } in
                          ground (
                            arith,
                            find-put Key-discrete record_key (c.workspace_id, c.idempotency_key)
                                written g.idempotency,
                          )
                    ]
                  ]
            ]
          ]
  ]

  Keeps-execute_all :
      (bs : List (CommandEnvelope P)) (c : CommandEnvelope P) (g : Gateway D S)
      (r : IdempotencyRecord D)
      → record_of c g ≡ some r
      → record_of c (run_all bs g) ≡ some r
  unfolding execute_all
  Keeps-execute_all [] c g r known = known
  Keeps-execute_all (b ∷ bs) c g r known =
      Keeps-execute_all bs c (run b g).1 r (Keeps-execute c b g r known)

  first_record :
      (c : CommandEnvelope P) (g : Gateway D S) (r : IdempotencyRecord D)
      → record_of c g ≡ none
      → record_of c (run c g).1 ≡ some r
      → (r.request_digest ≡ digest c) × (r.reply ≡ (run c g).0)
  unfolding execute
  first_record c g r fresh known =
      elim (Bool-cases (c.expected_generation_id =o current_generation_id g.world c.workspace_id)) [
        | inr stale ↦ absurd (ground arith)
        | inl current ↦ elim (Option-cases (resolve g.world c.workspace_id c.actor_id)) [
          | inl nobody ↦ absurd (ground arith)
          | inr (token, holder) ↦
              elim (Option-cases (sensitivity_of (sensitivity_text c.payload))) [
                | inl unnamed ↦ absurd (ground arith)
                | inr (s, named) ↦ elim (Option-cases (handle c g.world).0) [
                  | inl raised ↦ absurd (ground arith)
                  | inr (reply, answered) ↦
                      let written : IdempotencyRecord D = record {
                        workspace_id = c.workspace_id;
                        key = c.idempotency_key;
                        request_digest = digest c;
                        reply = reply;
                      } in
                      let found =
                        find-put Key-discrete record_key (c.workspace_id, c.idempotency_key) written
                          g.idempotency in
                      (ground (arith, found), ground (arith, found))
                ]
              ]
        ]
      ]

  known_answer :
      (c : CommandEnvelope P) (g : Gateway D S) (r : IdempotencyRecord D)
      → record_of c g ≡ some r
      → r.request_digest ≡ digest c
      → run c g ≡ (r.reply, g)
  unfolding execute
  known_answer c g r known own = ground arith

  -- Once a command is handled and recorded, whatever commands follow, the same command is answered as it
  -- was the first time, and changes nothing.
  pub execute_again :
      (c : CommandEnvelope P) (g : Gateway D S) (r : IdempotencyRecord D)
      → record_of c g ≡ none
      → record_of c (run c g).1 ≡ some r
      → (bs : List (CommandEnvelope P))
      → run c (run_all bs (run c g).1) ≡ ((run c g).0, run_all bs (run c g).1)
  execute_again c g r fresh known bs =
      let later = Keeps-execute_all bs c (run c g).1 r known in
      let (own, same) = first_record c g r fresh known in
      known_answer c (run_all bs (run c g).1) r later own
      ∙ ap (λ (x : Reply D). (x, run_all bs (run c g).1)) same
