-- ===== src/Admission.antt =====
-- components/communication_net_protocol/route_admission.h: the registry of routes and the replay
-- guard, behind one gate.
pub mod Delivery
use esphome_communication_ne.Canonical.{CanonicalCommandView, argument_bytes, arguments_are_valid}
use esphome_communication_ne.Gate.{InboundCommandView}
use esphome_communication_ne.Prelude.{
  ℕ, ◌%◌, ◌^◌, Bool, true, false, not, ◌||◌, Option, none, some, List, ◌∷◌, ltb, leb, if◌then◌else◌,
  Bytes, str_eq, block, span_length,
}
use esphome_communication_ne.Registry.{InboundRouteRegistry, find_index, id_at, size}
use esphome_communication_ne.Replay
use esphome_communication_ne.Replay.{
  Limits, InboundReplayGuard, InboundDecision, InboundTerminalView, Replayed, new_command, invalid,
}

-- `ROUTED_COMMAND_MAX` is 2 + `MAX_ARGUMENTS`.
abbrev pub max_arguments : ℕ
max_arguments = 128

abbrev pub admission_limits : Limits
admission_limits = record { max_source = 63; max_command = 130; max_terminal = 256 }

pub record RouteAdmission : Type 0 where
  pub local_device : Option Bytes
  pub routes : InboundRouteRegistry
  pub gate : InboundReplayGuard

unfoldable pub set_local_device : RouteAdmission → Option Bytes → RouteAdmission
set_local_device a device = record a { local_device = device }

abbrev pub same_text : Option Bytes → Option Bytes → Bool
same_text none b = false
same_text (some a) none = false
same_text (some a) (some b) = str_eq a b

unfoldable pub matches_ : RouteAdmission → InboundCommandView → Bool
matches_ a view = same_text a.local_device view.intent.device

unfoldable pub encode_routed_command_ : RouteAdmission → CanonicalCommandView → ℕ → Option Bytes
encode_routed_command_ a intent route_index =
    if leb (size a.routes) route_index
      || ltb 255 route_index
      || ltb max_arguments (span_length intent.arguments)
      || not (arguments_are_valid intent.arguments)
    then none
    else some (1 ∷ (route_index % 2 ^ 8) ∷ argument_bytes intent.arguments)

-- The route of a view: its index and its id.
unfoldable pub route_of : RouteAdmission → InboundCommandView → Option (ℕ × Bytes)
route_of a view =
    let index = find_index a.routes view.intent.resource view.intent.action in
    elim (id_at a.routes index) [ none ↦ none | some id ↦ some (index, id) ]

-- The guards that the three operations share: the device, the route and the routed bytes.
unfoldable pub routed : RouteAdmission → InboundCommandView → Option (Bytes × Bytes)
unfolding matches_ route_of
routed a view = if not (matches_ a view) then none else elim (route_of a view) [
  | none ↦ none
  | some (index, id) ↦ elim (encode_routed_command_ a view.intent index) [
    | none ↦ none
    | some command ↦ some (id, command)
  ]
]

abbrev pub id_if_new : Bytes → InboundDecision → Option Bytes
id_if_new id new_command = some id
id_if_new id _ = none

-- The new state, the decision, and the route id that is handed out.
unfoldable pub admit :
    RouteAdmission → InboundCommandView → RouteAdmission × InboundDecision × Option Bytes
admit a view = elim (routed a view) [
  | none ↦ (a, invalid, none)
  | some (id, command) ↦
      let (gate, decision) =
        Replay.begin admission_limits a.gate view.source_id view.source_boot_id view.transaction_id
          (block command) in
      (record a { gate = gate }, decision, id_if_new id decision)
]

unfoldable pub complete :
    RouteAdmission → InboundCommandView → InboundTerminalView → RouteAdmission × Bool
complete a view terminal = elim (routed a view) [
  | none ↦ (a, false)
  | some (id, command) ↦
      let (gate, finished) =
        Replay.finish admission_limits a.gate view.source_id view.source_boot_id view.transaction_id
          (block command) terminal in
      (record a { gate = gate }, finished)
]

unfoldable pub replay_terminal : RouteAdmission → InboundCommandView → Bool → ℕ → Option Replayed
replay_terminal a view out_is_null capacity = elim (routed a view) [
  | none ↦ none
  | some (id, command) ↦
      Replay.get_terminal admission_limits a.gate view.source_id view.source_boot_id
        view.transaction_id (block command) out_is_null capacity
]

unfoldable pub clear_old_terminal_session : RouteAdmission → Option Bytes → ℕ → RouteAdmission × ℕ
clear_old_terminal_session a source_id old_boot_id =
    let (gate, removed) =
      Replay.clear_source_session admission_limits a.gate source_id old_boot_id in
    (record a { gate = gate }, removed)
