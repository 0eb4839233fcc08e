-- ===== src/Executor/State.antt =====
-- communication_net_protocol.h: the state of the receiver, and the parts of other components that it
-- calls. NetCommand and NetResult belong to espnow_net_protocol: here are the fields that the
-- receiver reads and writes, a bounded text as its bytes.
use esphome_communication_ne.Admission.{RouteAdmission}
use esphome_communication_ne.Executor.Binding.{DeclarativeInboundBinding}
use esphome_communication_ne.Gate.{InboundCommandView}
use esphome_communication_ne.Prelude.{
  ℕ, Bool, true, false, Option, none, some, List, [], get_or, set, Bytes, null,
}

pub record NetCommand : Type 0 where
  pub transaction_id : ℕ
  pub source_boot_id : ℕ
  pub timeout_ms : ℕ
  pub source_device_id : Bytes
  pub device_id : Bytes
  pub resource : Bytes
  pub name : Bytes
  pub payload : Bytes

pub data NetStatus : Type 0 where
  succeeded in_progress rejected failed : NetStatus

-- The codes that the receiver writes, the default, and any other that a decoded result has.
pub data NetErrorCode : Type 0 where
  default_code target_unavailable timed_out interrupted other_code : NetErrorCode

pub data NetStateCompleteness : Type 0 where
  not_provided partial complete : NetStateCompleteness

pub record NetResult : Type 0 where
  pub transaction_id : ℕ
  pub status : NetStatus
  pub started : Bool
  pub has_estimated_completion : Bool
  pub estimated_completion_ms : ℕ
  pub completeness : NetStateCompleteness
  pub schema : Bytes
  pub content : Bytes
  pub error_code : NetErrorCode
  pub error_message : Bytes
  pub latency_ms : ℕ

pub data NetStart : Type 0 where
  started busy invalid_command refused : NetStart

-- `NetCommand{}` and `NetResult{}`.
abbrev pub no_command : NetCommand
no_command = record {
  transaction_id = 0;
  source_boot_id = 0;
  timeout_ms = 0;
  source_device_id = [];
  device_id = [];
  resource = [];
  name = [];
  payload = [];
}

abbrev pub no_result : NetResult
no_result = record {
  transaction_id = 0;
  status = failed;
  started = false;
  has_estimated_completion = false;
  estimated_completion_ms = 0;
  completeness = not_provided;
  schema = [];
  content = [];
  error_code = default_code;
  error_message = [];
  latency_ms = 0;
}

-- What other components do: `NetCommand::valid`, the result codec, and the state of the entities in
-- a world. A color is the byte to which the source rounds it, and the position of a cover is seen
-- through the two comparisons that the source makes of it.
pub record Platform : Type 1 where
  pub World : Type 0
  pub valid : NetCommand → Bool
  pub encode : NetResult → Option Bytes
  pub decode : ℕ → Bytes → Option NetResult
  pub is_on : World → ℕ → Bool
  pub red : World → ℕ → ℕ
  pub green : World → ℕ → ℕ
  pub blue : World → ℕ → ℕ
  pub brightness : World → ℕ → ℕ
  pub effect : World → ℕ → Bytes
  pub has_state : World → ℕ → Bool
  pub sensor_state : World → ℕ → Bool
  pub is_idle : World → ℕ → Bool
  pub is_open : World → ℕ → Bool
  pub is_closed : World → ℕ → Bool

pub record NormalExecution : Type 0 where
  pub active_command : NetCommand
  pub inbound_result : NetResult
  pub active_binding : Option DeclarativeInboundBinding
  pub inbound_started_ms : ℕ
  pub inbound_timeout_ms : ℕ
  pub inbound_expected_on : Bool
  pub inbound_active : Bool
  pub radio_waiting : Bool
  pub mqtt_waiting : Bool
  pub radio_result_ready : Bool
  pub mqtt_result_ready : Bool

abbrev pub empty_execution : NormalExecution
empty_execution = record {
  active_command = no_command;
  inbound_result = no_result;
  active_binding = none;
  inbound_started_ms = 0;
  inbound_timeout_ms = 0;
  inbound_expected_on = false;
  inbound_active = false;
  radio_waiting = false;
  mqtt_waiting = false;
  radio_result_ready = false;
  mqtt_result_ready = false;
}

-- The fields `interrupt_…_`: the lane of the commands that interrupt. The target is the index of the
-- normal execution, the binding is the object that was configured.
pub record Interrupt : Type 0 where
  pub target : Option ℕ
  pub command : NetCommand
  pub result : NetResult
  pub binding : Option DeclarativeInboundBinding
  pub started_ms : ℕ
  pub timeout_ms : ℕ
  pub active : Bool
  pub radio_waiting : Bool
  pub mqtt_waiting : Bool
  pub radio_result_ready : Bool
  pub mqtt_result_ready : Bool

abbrev pub empty_interrupt : Interrupt
empty_interrupt = record {
  target = none;
  command = no_command;
  result = no_result;
  binding = none;
  started_ms = 0;
  timeout_ms = 0;
  active = false;
  radio_waiting = false;
  mqtt_waiting = false;
  radio_result_ready = false;
  mqtt_result_ready = false;
}

-- The receiver. The routes are those of the admission, which holds a reference to them; the
-- bindings are configured before it starts. `verified_command` is the address of a command.
pub record Receiver : Type 0 where
  pub inbound_routes_valid : Bool
  pub admission : RouteAdmission
  pub bindings : List DeclarativeInboundBinding
  pub verified_command : Option ℕ
  pub lanes : List NormalExecution
  pub interrupt : Interrupt

abbrev pub lane_at : Receiver → ℕ → NormalExecution
lane_at r i = get_or r.lanes i empty_execution

-- A write through `normal_`, the lane that is selected.
abbrev pub with_lane : Receiver → ℕ → NormalExecution → Receiver
with_lane r i e = record r { lanes = set r.lanes i e }

-- The view of a command that the admission gets.
abbrev pub view_of : NetCommand → InboundCommandView
view_of c = record {
  source_id = some c.source_device_id;
  source_boot_id = c.source_boot_id;
  transaction_id = c.transaction_id;
  intent = record {
    device = some c.device_id;
    resource = some c.resource;
    action = some c.name;
    arguments = null 0;
  };
}

-- What a call has set off: the trigger of a binding, for a command.
abbrev pub Triggered : Type 0
Triggered = Option (DeclarativeInboundBinding × NetCommand)

-- The answer IN_PROGRESS, with the estimate.
abbrev pub progress : ℕ → ℕ → NetResult
progress transaction_id estimate = record no_result {
  transaction_id = transaction_id;
  status = in_progress;
  started = true;
  has_estimated_completion = true;
  estimated_completion_ms = estimate;
}
