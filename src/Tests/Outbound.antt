-- ===== src/Tests/Outbound.antt =====
-- tests/outbound_communication_transaction_runner_test.cpp, on the model: two adapters, each a
-- queue of the results that it will give.
use Prim.Native.Nat.{zero, suc}
use esphome_communication_ne.Outbound.Policy
use esphome_communication_ne.Outbound.Policy.{
  policy_contains, set_available, mark_attempted, was_attempted, select_next,
}
use esphome_communication_ne.Outbound.Runner.{
  Runner, active, result_ready, is_active, has_listener_in, has_listener_, cancel_in,
  cancel_listeners_, make_failure_, complete_, complete_failure_, timed_out_, reset_, give_up,
  after_start, try_transport, next_decision, attempt_rounds, attempt_next_,
}
use esphome_communication_ne.Outbound.Runner.Deadline.{drained, loop_deadline}
use esphome_communication_ne.Outbound.Runner.Loop.{
  completion_budget, ack_ms, start, accept, handle_result, drain_transport, drain, missing_ack,
  after_drain, loop, take_progress_result, take_result, active_transaction_id, new_runner, Call,
  start_call, loop_call, environment, after, run,
}
use esphome_communication_ne.Outbound.Runner.Outcome.{take_result-IsOwn}
use esphome_communication_ne.Outbound.Transaction.{
  assign_text, CommunicationTransport, mqtt, esp_now, TransportStatus, CommandResult,
  CommandResultStatus, CommunicationErrorCode, CommandRequest, request_is_valid,
  snapshot_is_consistent, execution_is_consistent, error_is_consistent, outcome_is_consistent,
  result_is_consistent, empty_result, empty_execution,
}
use esphome_communication_ne.Outbound.Transport.{
  Adapters, started, find_adapter, find_transport, availability_from, availability, loop_all,
}
use esphome_communication_ne.Prelude.{
  ℕ, ◌≡◌, ◌≢◌, ◌⊎◌, refl, Bool, true, false, Option, some, none, List, ◌∷◌, [], strnlen, codes,
  get_or, set,
}

program : Unit {0}
unfolding strnlen assign_text policy_contains set_available Policy.is_available mark_attempted
    was_attempted select_next has_listener_in has_listener_ cancel_in cancel_listeners_
    make_failure_ complete_ complete_failure_ timed_out_ reset_ give_up after_start try_transport
    next_decision attempt_rounds attempt_next_ completion_budget ack_ms start accept handle_result
    drain_transport drain missing_ack after_drain loop take_progress_result take_result
    active_transaction_id after run request_is_valid snapshot_is_consistent execution_is_consistent
    error_is_consistent outcome_is_consistent result_is_consistent find_adapter find_transport
    availability_from availability loop_all
program = tt

abbrev is_some : Option CommandResult → Bool
is_some none = false
is_some (some x) = true

-- MQTT is the adapter 0, ESP-NOW any other; the world holds whether each is
-- busy and the result that waits at it.
abbrev adapter_type : ℕ → CommunicationTransport
adapter_type zero = mqtt
adapter_type (suc n) = esp_now

abbrev two_adapters : Adapters
two_adapters = record {
  World = List Bool × List (Option CommandResult);
  transport_type = adapter_type;
  is_available = λ x w. true;
  is_busy = λ x w. get_or w.0 x false;
  start = λ x request w. ((set w.0 x true, w.1), started);
  use_external_result_deadline = λ x id w. w;
  loop = λ x now w. w;
  has_result = λ x w. is_some (get_or w.1 x none);
  take_result = λ x w. ((set w.0 x false, set w.1 x none), get_or w.1 x none);
  cancel = λ x id w. (set w.0 x false, w.1);
}

abbrev request : CommandRequest
request = record {
  transaction_id = 7;
  target = record { device_id = codes "lamp"; resource = codes "light" };
  command = record { name = codes "toggle"; payload = [] };
  timeout_ms = 900;
  policy_id = codes "reliable";
}

abbrev reply : ℕ → CommunicationTransport → CommandResult
reply id transport = record empty_result {
  transaction_id = id;
  transport_used = transport;
  transport_status = TransportStatus.succeeded;
  result = CommandResultStatus.succeeded;
  execution = record empty_execution { started = true };
}

abbrev idle_world : List Bool × List (Option CommandResult)
idle_world = (false ∷ false ∷ [], none ∷ none ∷ [])

abbrev fresh : Runner two_adapters
fresh = new_runner (0 ∷ 1 ∷ []) idle_world

-- A reply to another transaction, then the fallback to ESP-NOW, then the late reply by MQTT.
abbrev calls : List (Call two_adapters)
calls =
    start_call request (mqtt ∷ esp_now ∷ []) 100
    ∷ environment (λ w. (w.0, some (reply 6 mqtt) ∷ none ∷ []))
    ∷ loop_call 200
    ∷ loop_call 400
    ∷ environment (λ w. (w.0, some (reply 7 mqtt) ∷ none ∷ []))
    ∷ loop_call 500
    ∷ []

abbrev answer : CommandResult
answer = record (reply 7 mqtt) { latency_ms = 400 }

answered : (take_result (run calls fresh)).1 ≡ some answer
unfolding program
answered = refl

take_result-IsOwn_example :
    (result_is_consistent answer ≡ true)
    × (answer.transaction_id ≡ active_transaction_id (run calls fresh))
    × (answer.transaction_id ≢ 0)
take_result-IsOwn_example =
    take_result-IsOwn two_adapters (0 ∷ 1 ∷ []) idle_world calls answer answered

abbrev waiting : Runner two_adapters
waiting = run (start_call request (mqtt ∷ esp_now ∷ []) 100 ∷ loop_call 400 ∷ []) fresh

waiting_active : is_active waiting.state ≡ true
unfolding program
waiting_active = refl

waiting_late : timed_out_ waiting 1000 ≡ true
unfolding program
waiting_late = refl

failed_late :
    ((loop waiting 999).state ≡ active)
    × ((loop waiting 1000).terminal_result.error.code ≡ CommunicationErrorCode.timed_out)
unfolding program
failed_late = (refl, refl)

loop_deadline_example :
    ((loop waiting 1000).state ≡ result_ready)
    ⊎ ((waiting.accepted ≡ false) × ((drained waiting 1000).0.accepted ≡ true))
loop_deadline_example = loop_deadline two_adapters waiting 1000 waiting_active waiting_late
