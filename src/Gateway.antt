-- ===== src/Gateway.antt =====
-- memory_core/command_gateway.py: a command is authorized, and handled at most once for its idempotency
-- key. The handler is an argument that acts on a state of its own, and `none` where it raises. What a
-- payload is and what a handler returns beside the fields of a CoreResult are type arguments.
pub mod Idempotent
mod Examples
use wiki_spike.Base.{
  String, Bool, true, false, not, Option, none, some, List, [], ◌∷◌, ◌=s◌, ◌=o◌, Key-discrete,
  if◌then◌else◌,
}
use wiki_spike.Table.{find, put}
use wiki_spike.ChangeSet.Adapter.{CoreStatus, core_ok, core_rejected, core_retry_later}
use wiki_spike.Policy.{
  Sensitivity, public, internal, private, secret_data, CapabilityToken, PolicyRequest, PolicyReason,
  allow, workspace_mismatch, capability_missing, capability_expired, sensitivity_exceeded,
  provenance_promotion_denied, declassification_denied, invalid_request, authorize,
}

pub record CommandEnvelope (P : Type 0) : Type 0 where
  pub contract_version : String
  pub command_id : String
  pub idempotency_key : String
  pub workspace_id : String
  pub actor_id : String
  pub command_type : String
  pub expected_generation_id : Option String
  pub payload : P

-- A CoreResult with the result of a handler; `none` is {}.
pub record Reply (D : Type 0) : Type 0 where
  pub request_id : String
  pub status : CoreStatus
  pub generation_id : Option String
  pub result : Option D
  pub error_code : Option String

pub record IdempotencyRecord (D : Type 0) : Type 0 where
  pub workspace_id : String
  pub key : String
  pub request_digest : String
  pub reply : Reply D

pub record Gateway (D S : Type 0) : Type 0 where
  pub idempotency : List (IdempotencyRecord D)
  pub world : S

abbrev pub record_key : {D : Type 0} → IdempotencyRecord D → String × String
record_key r = (r.workspace_id, r.key)

-- `Sensitivity(text)`; `none` is its ValueError
unfoldable pub sensitivity_of : String → Option Sensitivity
sensitivity_of text =
    if text =s "public"
    then some public
    else if text =s "internal"
    then some internal
    else if text =s "private"
    then some private
    else if text =s "secret"
    then some secret_data
    else none

-- `decision.reason.value`
abbrev pub reason_value : PolicyReason → String
reason_value allow = "allow"
reason_value workspace_mismatch = "workspace_mismatch"
reason_value capability_missing = "capability_missing"
reason_value capability_expired = "capability_expired"
reason_value sensitivity_exceeded = "sensitivity_exceeded"
reason_value provenance_promotion_denied = "provenance_promotion_denied"
reason_value declassification_denied = "declassification_denied"
reason_value invalid_request = "invalid_request"

abbrev pub is_retry : CoreStatus → Bool
is_retry core_retry_later = true
is_retry _ = false

module _ {P D S : Type 0} (digest : CommandEnvelope P → String)
    -- str(payload.get("sensitivity", "public"))
    (sensitivity_text : P → String) (current_generation_id : S → String → Option String)
    (resolve : S → String → String → Option CapabilityToken) (now : String)
    (handle : CommandEnvelope P → S → Option (Reply D) × S) where
  abbrev pub failed : CommandEnvelope P → CoreStatus → Option String → String → Reply D
  failed c status generation error = record {
    request_id = c.command_id;
    status = status;
    generation_id = generation;
    result = none;
    error_code = some error;
  }

  abbrev pub request_of : CommandEnvelope P → Sensitivity → PolicyRequest
  request_of c sensitivity = record {
    workspace_id = c.workspace_id;
    actor_id = c.actor_id;
    action = c.command_type;
    now = now;
    object_sensitivity = sensitivity;
  }

  abbrev pub recorded : CommandEnvelope P → Gateway D S → Option (IdempotencyRecord D)
  recorded c g = find Key-discrete record_key (c.workspace_id, c.idempotency_key) g.idempotency

  -- The answer of the handler, which is recorded unless it is to be retried.
  abbrev settle_answer :
      CommandEnvelope P → Option String → Option (Reply D) → Gateway D S → Reply D × Gateway D S
  settle_answer c current none g = (failed c core_retry_later current "handler_unavailable", g)
  settle_answer c current (some reply) g = if is_retry reply.status then (reply, g) else (
    reply,
    record g {
      idempotency =
          put Key-discrete record_key
            (record {
              workspace_id = c.workspace_id;
              key = c.idempotency_key;
              request_digest = digest c;
              reply = reply;
            })
            g.idempotency;
    },
  )

  abbrev run_handler : CommandEnvelope P → Option String → Gateway D S → Reply D × Gateway D S
  run_handler c current g =
      let (answer, world) = handle c g.world in
      settle_answer c current answer (record g { world = world })

  abbrev admit_command :
      CommandEnvelope P
      → Option String
      → Option CapabilityToken
      → Option Sensitivity
      → Gateway D S
      → Reply D × Gateway D S
  admit_command c current none s g = (failed c core_rejected current "capability_missing", g)
  admit_command c current (some token) none g =
      (failed c core_rejected current "invalid_sensitivity", g)
  admit_command c current (some token) (some s) g =
      let decision = authorize token (request_of c s) in
      if not decision.allowed
      then (failed c core_rejected current (reason_value decision.reason), g)
      else run_handler c current g

  abbrev answer_command :
      CommandEnvelope P → Option (IdempotencyRecord D) → Gateway D S → Reply D × Gateway D S
  answer_command c (some r) g =
      if not (r.request_digest =s digest c)
      then (failed c core_rejected none "idempotency_payload_mismatch", g)
      else (r.reply, g)
  answer_command c none g =
      let current = current_generation_id g.world c.workspace_id in
      if not (c.expected_generation_id =o current)
      then (failed c core_retry_later current "stale_generation", g)
      else admit_command c current (resolve g.world c.workspace_id c.actor_id)
          (sensitivity_of (sensitivity_text c.payload)) g

  unfoldable pub execute : CommandEnvelope P → Gateway D S → Reply D × Gateway D S
  execute c g = answer_command c (recorded c g) g

  unfoldable pub execute_all : List (CommandEnvelope P) → Gateway D S → Gateway D S
  execute_all [] g = g
  execute_all (c ∷ cs) g = execute_all cs (execute c g).1
