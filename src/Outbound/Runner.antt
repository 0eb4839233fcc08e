-- ===== src/Outbound/Runner.antt =====
-- components/communication_net_protocol/outbound_communication_transaction_runner.h and
-- outbound_runner_impl.h: one outbound transaction over several transports. `world` is what the
-- adapters hold; the log lines are left out.
pub mod Loop
pub mod Outcome
pub mod Deadline
pub mod Results
use esphome_communication_ne.Outbound.Policy.{
  CommunicationPolicy, TransportAttemptSet, PolicyDecision, use_transport, exhausted,
  invalid_result, policy_contains, policy_is_valid, mark_attempted, was_attempted, select_next,
  evaluate_result,
}
use esphome_communication_ne.Outbound.Transaction.{
  CommunicationTransport, none_transport, mqtt, esp_now, TransportStatus, CommandResultStatus,
  failed, in_progress, succeeded, rejected, CommunicationErrorCode, CommandRequest, CommandResult,
  transport_succeeded, same_transport, request_is_valid, result_is_consistent, assign_text,
  empty_result, empty_request,
}
use esphome_communication_ne.Outbound.Transport.{
  Adapters, CommunicationTransportRegistry, TransportStartStatus, started, busy, invalid_request,
  unavailable, find_transport, availability, loop_all,
}
use esphome_communication_ne.Prelude.{
  ℕ, zero, suc, ◌+◌, ◌/◌, Bool, true, false, not, ◌&&◌, ◌||◌, Option, none, some, List, [], ◌∷◌,
  ◌==◌, ltb, leb, if◌then◌else◌, length, Bytes, codes, add32, sub32,
}

pub data TransactionRunnerState : Type 0 where
  idle active result_ready : TransactionRunnerState

pub record Runner (a : Adapters) : Type 0 where
  pub registry : CommunicationTransportRegistry
  pub policy : CommunicationPolicy
  pub attempts : TransportAttemptSet
  pub request : CommandRequest
  pub progress_result : CommandResult
  pub terminal_result : CommandResult
  pub last_transport_failure : CommandResult
  pub active_transport : Option ℕ
  pub listening : TransportAttemptSet
  pub started_ms : ℕ
  pub attempt_started_ms : ℕ
  pub accepted_ms : ℕ
  pub completion_timeout_ms : ℕ
  pub accepted : Bool
  pub acceptance_fallback : Bool
  pub has_progress_result : Bool
  pub has_last_transport_failure : Bool
  pub state : TransactionRunnerState
  pub world : a.World

abbrev pub is_idle : TransactionRunnerState → Bool
is_idle idle = true
is_idle _ = false

abbrev pub is_active : TransactionRunnerState → Bool
is_active active = true
is_active _ = false

abbrev pub is_result_ready : TransactionRunnerState → Bool
is_result_ready result_ready = true
is_result_ready _ = false

abbrev pub is_in_progress : CommandResultStatus → Bool
is_in_progress in_progress = true
is_in_progress _ = false

-- `SUCCEEDED` or `REJECTED`.
abbrev pub is_answer : CommandResultStatus → Bool
is_answer succeeded = true
is_answer rejected = true
is_answer _ = false

abbrev pub max_message_length : ℕ
max_message_length = 95

-- The transport of a decision of type `USE_TRANSPORT`.
abbrev pub selected : PolicyDecision → Option CommunicationTransport
selected (use_transport transport) = some transport
selected _ = none

module _ {a : Adapters} where
  unfoldable pub has_listener_in : CommunicationPolicy → Runner a → Bool
  has_listener_in [] r = false
  has_listener_in (t ∷ policy) r =
      (elim (find_transport a r.registry t) [
        | none ↦ false
        | some x ↦ was_attempted r.listening t && (a.is_busy x r.world || a.has_result x r.world)
      ])
      || has_listener_in policy r

  unfoldable pub has_listener_ : Runner a → Bool
  unfolding has_listener_in
  has_listener_ r = has_listener_in r.policy r

  -- The loop of `cancel_listeners_`, over the world.
  unfoldable pub cancel_in : CommunicationPolicy → Runner a → a.World → a.World
  cancel_in [] r w = w
  cancel_in (t ∷ policy) r w = cancel_in policy r (elim (find_transport a r.registry t) [
    | none ↦ w
    | some x ↦ if was_attempted r.listening t then a.cancel x r.request.transaction_id w else w
  ])

  unfoldable pub cancel_listeners_ : Runner a → Runner a
  unfolding cancel_in
  cancel_listeners_ r = record r { world = cancel_in r.policy r r.world }

  unfoldable pub make_failure_ :
      Runner a
      → CommunicationTransport
      → TransportStatus
      → CommunicationErrorCode
      → Bytes
      → Bool
      → ℕ
      → CommandResult
  unfolding assign_text
  make_failure_ r transport transport_status error_code message retryable now_ms =
      record empty_result {
        transaction_id = r.request.transaction_id;
        transport_used = transport;
        transport_status = transport_status;
        result = failed;
        error = record {
          code = error_code;
          retryable = retryable;
          message = (assign_text max_message_length (some message)).0;
        };
        latency_ms = sub32 now_ms r.started_ms;
      }

  unfoldable pub complete_ : Runner a → CommandResult → ℕ → Runner a
  unfolding cancel_listeners_
  complete_ r result now_ms = record (cancel_listeners_ r) {
    has_progress_result = false;
    terminal_result = record result { latency_ms = sub32 now_ms r.started_ms };
    active_transport = none;
    state = result_ready;
  }

  unfoldable pub complete_failure_ :
      Runner a
      → CommunicationTransport
      → TransportStatus
      → CommunicationErrorCode
      → Bytes
      → Bool
      → ℕ
      → Runner a
  complete_failure_ r transport transport_status error_code message retryable now_ms =
      complete_ r (make_failure_ r transport transport_status error_code message retryable now_ms)
        now_ms

  unfoldable pub timed_out_ : Runner a → ℕ → Bool
  timed_out_ r now_ms =
      if r.accepted
      then leb r.completion_timeout_ms (sub32 now_ms r.accepted_ms)
      else leb r.request.timeout_ms (sub32 now_ms r.started_ms)

  unfoldable pub reset_ : Runner a → Runner a
  reset_ r = record r {
    policy = [];
    attempts = 0;
    request = empty_request;
    progress_result = empty_result;
    terminal_result = empty_result;
    last_transport_failure = empty_result;
    active_transport = none;
    started_ms = 0;
    has_progress_result = false;
    has_last_transport_failure = false;
    state = idle;
  }

  abbrev pub with_failure : Runner a → CommandResult → Runner a
  with_failure r failure = record r {
    last_transport_failure = failure;
    has_last_transport_failure = true;
  }

  -- `attempt_next_` where no transport is eligible.
  unfoldable pub give_up : Runner a → ℕ → Runner a
  give_up r now_ms =
      if has_listener_ r || r.accepted
      then r
      else if r.has_last_transport_failure
      then complete_ r r.last_transport_failure now_ms
      else complete_failure_ r none_transport TransportStatus.unavailable
          CommunicationErrorCode.transport_unavailable (codes "no eligible communication transport")
          true now_ms

  -- What the answer of the adapter `x` to `start` does: the runner, and whether the loop goes on.
  unfoldable pub after_start :
      Runner a → CommunicationTransport → ℕ → TransportStartStatus → ℕ → Runner a × Bool
  after_start r transport x started now_ms = (
    record r {
      world = a.use_external_result_deadline x r.request.transaction_id r.world;
      active_transport = some x;
      listening = (mark_attempted r.listening transport).0;
      attempt_started_ms = now_ms;
    },
    false,
  )
  after_start r transport x invalid_request now_ms = (
    complete_failure_ r transport TransportStatus.not_attempted
        CommunicationErrorCode.invalid_request (codes "transport rejected invalid request") false
        now_ms,
    false,
  )
  after_start r transport x TransportStartStatus.rejected now_ms = (
    complete_failure_ r transport TransportStatus.not_attempted
        CommunicationErrorCode.protocol_error (codes "transport rejected attempt") false now_ms,
    false,
  )
  after_start r transport x busy now_ms = (
    with_failure r (
        make_failure_ r transport TransportStatus.unavailable
          CommunicationErrorCode.transport_unavailable (codes "transport became busy") true now_ms),
    true,
  )
  after_start r transport x unavailable now_ms = (
    with_failure r (
        make_failure_ r transport TransportStatus.unavailable
          CommunicationErrorCode.transport_unavailable (codes "transport became unavailable") true
          now_ms),
    true,
  )

  -- One round of the loop of `attempt_next_`, whose return value no caller reads, on the transport that the policy selects.
  unfoldable pub try_transport : Runner a → CommunicationTransport → ℕ → Runner a × Bool
  try_transport r transport now_ms =
      let marked : Runner a = record r { attempts = (mark_attempted r.attempts transport).0 } in
      elim (find_transport a r.registry transport) [
        | none ↦ (
          with_failure marked (
              make_failure_ r transport TransportStatus.unavailable
                CommunicationErrorCode.transport_unavailable
                (codes "selected transport is not registered") true now_ms),
          true,
        )
        | some x ↦
            let (world, status) = a.start x r.request r.world in
            after_start (record marked { world = world }) transport x status now_ms
      ]

  unfoldable pub next_decision : Runner a → PolicyDecision
  next_decision r = select_next r.policy (availability a r.registry r.world) r.attempts

  -- `rounds` counts down from `MAX_TRANSPORTS`.
  unfoldable pub attempt_rounds : ℕ → Runner a → ℕ → Runner a
  attempt_rounds zero r now_ms = complete_ r r.last_transport_failure now_ms
  attempt_rounds (suc rounds) r now_ms = elim (selected (next_decision r)) [
    | none ↦ give_up r now_ms
    | some transport ↦
        let (r', again) = try_transport r transport now_ms in
        elim again [ true ↦ attempt_rounds rounds r' now_ms | false ↦ r' ]
  ]

  unfoldable pub attempt_next_ : Runner a → ℕ → Runner a
  unfolding attempt_rounds
  attempt_next_ r now_ms = attempt_rounds 4 r now_ms
