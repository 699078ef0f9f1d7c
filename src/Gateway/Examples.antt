-- ===== src/Gateway/Examples.antt =====
-- A command that is handled once, and the theorems of command_gateway.py at it.
use wiki_spike.Base.{
  ℕ, ◌+◌, String, ◌≡◌, ◌≢◌, refl, Option, none, some, List, [], ◌∷◌, arith, String-discrete,
  Key-discrete,
}
use wiki_spike.Base.TextOrder.{leb_text}
use wiki_spike.Table.{find, put}
use wiki_spike.ChangeSet.Adapter.{core_ok}
use wiki_spike.Policy.{CapabilityToken, internal, authorize}
use wiki_spike.Gateway.{
  CommandEnvelope, Reply, IdempotencyRecord, Gateway, sensitivity_of, recorded, execute,
  execute_all,
}
use wiki_spike.Gateway.Idempotent.{IsAllowed, execute-IsAllowed, execute_again}

abbrev command : String → String → CommandEnvelope String
command id key = record {
  contract_version = "phase3-core-v1";
  command_id = id;
  idempotency_key = key;
  workspace_id = "w";
  actor_id = "a";
  command_type = "note.add";
  expected_generation_id = none;
  payload = "public";
}

abbrev token : CapabilityToken
token = record {
  token_id = "t";
  workspace_id = "w";
  actor_id = "a";
  actions = "note.add" ∷ [];
  max_sensitivity = internal;
  expires_at = "2026-06-01";
}

abbrev digest : CommandEnvelope String → String
digest c = c.command_id

abbrev sensitivity_text : String → String
sensitivity_text payload = payload

abbrev current : ℕ → String → Option String
current n workspace = none

abbrev resolve : ℕ → String → String → Option CapabilityToken
resolve n workspace actor = some token

abbrev reply : String → Reply ℕ
reply id = record {
  request_id = id;
  status = core_ok;
  generation_id = none;
  result = none;
  error_code = none;
}

-- It counts the commands.
abbrev handle : CommandEnvelope String → ℕ → Option (Reply ℕ) × ℕ
handle c n = (some (reply c.command_id), n + 1)

abbrev new_gateway : Gateway ℕ ℕ
new_gateway = record { idempotency = []; world = 0 }

abbrev run : CommandEnvelope String → Gateway ℕ ℕ → Reply ℕ × Gateway ℕ ℕ
run = execute digest sensitivity_text current resolve "2026-05-01" handle

abbrev run_all : List (CommandEnvelope String) → Gateway ℕ ℕ → Gateway ℕ ℕ
run_all = execute_all digest sensitivity_text current resolve "2026-05-01" handle

abbrev first_written : IdempotencyRecord ℕ
first_written = record { workspace_id = "w"; key = "k"; request_digest = "c1"; reply = reply "c1" }

handled : (run (command "c1" "k") new_gateway).1.world ≡ 1
unfolding execute find put sensitivity_of authorize leb_text String-discrete Key-discrete
handled = refl

changed : (run (command "c1" "k") new_gateway).1 ≢ new_gateway
changed same = ground (arith, handled)

execute-IsAllowed_example :
    IsAllowed digest sensitivity_text current resolve "2026-05-01" handle
      (command "c1" "k")
      new_gateway
execute-IsAllowed_example =
    execute-IsAllowed digest sensitivity_text current resolve "2026-05-01" handle (command "c1" "k")
      new_gateway changed

fresh :
    recorded digest sensitivity_text current resolve "2026-05-01" handle
      (command "c1" "k")
      new_gateway
    ≡ none
unfolding find
fresh = refl

written :
    recorded digest sensitivity_text current resolve "2026-05-01" handle
      (command "c1" "k")
      (run (command "c1" "k") new_gateway).1
    ≡ some first_written
unfolding execute find put sensitivity_of authorize leb_text String-discrete Key-discrete
written = refl

execute_again_example :
    run (command "c1" "k") (run_all (command "c2" "l" ∷ []) (run (command "c1" "k") new_gateway).1)
    ≡ (
      (run (command "c1" "k") new_gateway).0,
      run_all (command "c2" "l" ∷ []) (run (command "c1" "k") new_gateway).1,
    )
execute_again_example =
    execute_again digest sensitivity_text current resolve "2026-05-01" handle (command "c1" "k")
      new_gateway first_written fresh written (command "c2" "l" ∷ [])
