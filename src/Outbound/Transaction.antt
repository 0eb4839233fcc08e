-- ===== src/Outbound/Transaction.antt =====
-- components/communication_net_protocol/outbound_communication_transaction.h: requests, results and
-- the tests of their consistency. A bounded text or block is the list of its bytes.
use esphome_communication_ne.Prelude.{
  ℕ, ◌+◌, Bool, true, false, not, ◌&&◌, ◌||◌, Option, none, some, [], ◌∷◌, ◌==◌, ltb, if◌then◌else◌,
  length, take, Bytes, strnlen, Span, null, block,
}

-- `BoundedText<Capacity>::assign`: the new text, and whether the value fits.
unfoldable pub assign_text : ℕ → Option Bytes → Bytes × Bool
assign_text capacity none = ([], false)
assign_text capacity (some value) =
    let n = strnlen (capacity + 1) value in
    if ltb capacity n then ([], false) else (take n value, true)

-- `BoundedBytes<Capacity>::assign`.
unfoldable pub assign_bytes : ℕ → Span → Bytes × Bool
assign_bytes capacity (null n) = ([], n == 0)
assign_bytes capacity (block value) =
    if ltb capacity (length value) then ([], false) else (value, true)

abbrev pub is_empty : Bytes → Bool
is_empty [] = true
is_empty (c ∷ b) = false

pub data CommunicationTransport : Type 0 where
  none_transport http mqtt esp_now matter : CommunicationTransport

pub data TransportStatus : Type 0 where
  not_attempted succeeded unavailable connection_failed : TransportStatus
  authentication_failed timed_out protocol_error : TransportStatus

pub data CommandResultStatus : Type 0 where
  succeeded in_progress rejected failed : CommandResultStatus

pub data RemoteStateCompleteness : Type 0 where
  not_provided partial complete : RemoteStateCompleteness

pub data CommunicationErrorCode : Type 0 where
  no_error invalid_request target_unavailable transport_unavailable : CommunicationErrorCode
  connection_failed authentication_failed timed_out protocol_error : CommunicationErrorCode
  remote_rejected internal_error interrupted : CommunicationErrorCode

-- The underlying value of `enum class CommunicationTransport`.
abbrev pub transport_index : CommunicationTransport → ℕ
transport_index none_transport = 0
transport_index http = 1
transport_index mqtt = 2
transport_index esp_now = 3
transport_index matter = 4

abbrev pub same_transport : CommunicationTransport → CommunicationTransport → Bool
same_transport a b = transport_index a == transport_index b

abbrev pub is_no_transport : CommunicationTransport → Bool
is_no_transport none_transport = true
is_no_transport _ = false

abbrev pub transport_succeeded : TransportStatus → Bool
transport_succeeded succeeded = true
transport_succeeded _ = false

abbrev pub is_not_provided : RemoteStateCompleteness → Bool
is_not_provided not_provided = true
is_not_provided _ = false

abbrev pub is_no_error : CommunicationErrorCode → Bool
is_no_error no_error = true
is_no_error _ = false

pub record CommandTarget : Type 0 where
  pub device_id : Bytes
  pub resource : Bytes

pub record CommandIntent : Type 0 where
  pub name : Bytes
  pub payload : Bytes

pub record CommandRequest : Type 0 where
  pub transaction_id : ℕ
  pub target : CommandTarget
  pub command : CommandIntent
  pub timeout_ms : ℕ
  pub policy_id : Bytes

unfoldable pub request_is_valid : CommandRequest → Bool
request_is_valid r =
    not (r.transaction_id == 0)
    && not (is_empty r.target.device_id)
    && not (is_empty r.command.name)
    && not (r.timeout_ms == 0)

pub record StateSnapshot : Type 0 where
  pub completeness : RemoteStateCompleteness
  pub schema : Bytes
  pub content : Bytes

unfoldable pub snapshot_is_consistent : StateSnapshot → Bool
snapshot_is_consistent s =
    if is_not_provided s.completeness
    then is_empty s.schema && is_empty s.content
    else not (is_empty s.schema) && not (is_empty s.content)

pub record ExecutionContext : Type 0 where
  pub started : Bool
  pub has_estimated_completion : Bool
  pub estimated_completion_ms : ℕ
  pub has_progress : Bool
  pub progress_percent : ℕ
  pub has_expected_final_state : Bool
  pub expected_final_state : StateSnapshot

unfoldable pub execution_is_consistent : ExecutionContext → Bool
unfolding snapshot_is_consistent
execution_is_consistent e =
    if e.has_estimated_completion && (not e.started || e.estimated_completion_ms == 0)
    then false
    else if e.has_progress && (not e.started || ltb 100 e.progress_percent)
    then false
    else if e.has_expected_final_state
    then e.started
      && snapshot_is_consistent e.expected_final_state
      && not (is_not_provided e.expected_final_state.completeness)
    else is_not_provided e.expected_final_state.completeness
      && snapshot_is_consistent e.expected_final_state

pub record CommunicationError : Type 0 where
  pub code : CommunicationErrorCode
  pub retryable : Bool
  pub message : Bytes

unfoldable pub error_is_consistent : CommunicationError → Bool
error_is_consistent e =
    if is_no_error e.code then not e.retryable && is_empty e.message else not (is_empty e.message)

pub record CommandResult : Type 0 where
  pub transaction_id : ℕ
  pub transport_used : CommunicationTransport
  pub transport_status : TransportStatus
  pub result : CommandResultStatus
  pub execution : ExecutionContext
  pub remote_state : StateSnapshot
  pub error : CommunicationError
  pub latency_ms : ℕ

-- The last lines of `CommandResult::is_consistent`, by `result`.
unfoldable pub outcome_is_consistent : CommandResultStatus → CommandResult → Bool
outcome_is_consistent in_progress r =
    not (is_no_transport r.transport_used)
    && transport_succeeded r.transport_status
    && r.execution.started
    && r.execution.has_estimated_completion
    && not (r.execution.estimated_completion_ms == 0)
    && is_no_error r.error.code
outcome_is_consistent succeeded r =
    not (is_no_transport r.transport_used)
    && transport_succeeded r.transport_status
    && r.execution.started
    && is_no_error r.error.code
outcome_is_consistent _ r = not (is_no_error r.error.code)

unfoldable pub result_is_consistent : CommandResult → Bool
result_is_consistent r =
    if r.transaction_id == 0
      || not (execution_is_consistent r.execution)
      || not (snapshot_is_consistent r.remote_state)
      || not (error_is_consistent r.error)
    then false
    else outcome_is_consistent r.result r

-- `StateSnapshot{}`, `ExecutionContext{}`, `CommandResult{}` and `CommandRequest{}`.
abbrev pub empty_snapshot : StateSnapshot
empty_snapshot = record { completeness = not_provided; schema = []; content = [] }

abbrev pub empty_execution : ExecutionContext
empty_execution = record {
  started = false;
  has_estimated_completion = false;
  estimated_completion_ms = 0;
  has_progress = false;
  progress_percent = 0;
  has_expected_final_state = false;
  expected_final_state = empty_snapshot;
}

abbrev pub empty_result : CommandResult
empty_result = record {
  transaction_id = 0;
  transport_used = none_transport;
  transport_status = not_attempted;
  result = failed;
  execution = empty_execution;
  remote_state = empty_snapshot;
  error = record { code = no_error; retryable = false; message = [] };
  latency_ms = 0;
}

abbrev pub empty_request : CommandRequest
empty_request = record {
  transaction_id = 0;
  target = record { device_id = []; resource = [] };
  command = record { name = []; payload = [] };
  timeout_ms = 0;
  policy_id = [];
}
