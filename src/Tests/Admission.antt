-- ===== src/Tests/Admission.antt =====
-- tests/route_admission_test.cpp, on the model.
use esphome_communication_ne.Admission.{
  RouteAdmission, admission_limits, set_local_device, matches_, encode_routed_command_, route_of,
  routed, admit, complete, clear_old_terminal_session,
}
use esphome_communication_ne.Admission.Delivery.{
  Call, device_call, admit_call, complete_call, clear_call, after, executes, executions,
  executions-le_one,
}
use esphome_communication_ne.Gate.{InboundCommandView}
use esphome_communication_ne.Prelude.{
  ◌≡◌, ◌≤◌, refl, some, none, List, ◌∷◌, [], Bytes, block, codes, arith, find_index?, str_eq,
  strnlen,
}
use esphome_communication_ne.Registry.{InboundRouteRegistry, length_, find_index, id_at}
use esphome_communication_ne.Replay.{
  InboundTerminalView, succeeded, new_command, conflict, duplicate_pending, duplicate_terminal,
  invalid, empty_guard, find_session_index_, bounded_length_, oldest_from, evict, find_room,
  write_session, write_entry, admit_new, begin_known, begin_unknown, begin_valid, begin, finish,
  clear_entries, clear_source_session,
}

program : Unit {0}
unfolding find_index? str_eq strnlen length_ find_index id_at find_session_index_ bounded_length_
    oldest_from evict find_room write_session write_entry admit_new begin_known begin_unknown
    begin_valid begin finish clear_entries clear_source_session set_local_device matches_
    encode_routed_command_ route_of routed admit complete clear_old_terminal_session after executes
    executions
program = tt

abbrev routes : InboundRouteRegistry
routes = record {
  capacity = 16;
  entries =
      record { id = codes "r1"; resource = codes "light"; command = codes "toggle" }
      ∷ record { id = codes "r2"; resource = codes "light"; command = codes "off" }
      ∷ [];
}

abbrev receiver : RouteAdmission
receiver = record {
  local_device = some (codes "lamp");
  routes = routes;
  gate = empty_guard admission_limits 8;
}

abbrev toggle : Bytes → InboundCommandView
toggle arguments = record {
  source_id = some (codes "sender");
  source_boot_id = 1;
  transaction_id = 10;
  intent = record {
    device = some (codes "lamp");
    resource = some (codes "light");
    action = some (codes "toggle");
    arguments = block arguments;
  };
}

abbrev terminal : InboundTerminalView
terminal = record { status = succeeded; result = block [] }

abbrev admitted : RouteAdmission
admitted = (admit receiver (toggle (7 ∷ []))).0

decisions :
    ((admit receiver (toggle (7 ∷ []))).1 ≡ new_command)
    × ((admit receiver (toggle (7 ∷ []))).2 ≡ some (codes "r1"))
    × ((admit admitted (toggle (7 ∷ []))).1 ≡ duplicate_pending)
    × ((admit admitted (toggle (7 ∷ []))).2 ≡ none)
    × ((admit admitted (toggle (8 ∷ []))).1 ≡ conflict)
    × ((admit (complete admitted (toggle (7 ∷ [])) terminal).0 (toggle (7 ∷ []))).1
        ≡ duplicate_terminal)
    × ((admit (record receiver { local_device = none }) (toggle [])).1 ≡ invalid)
unfolding program
decisions = (refl, refl, refl, refl, refl, refl, refl)

abbrev calls : List Call
calls =
    admit_call (toggle (7 ∷ []))
    ∷ admit_call (toggle (7 ∷ []))
    ∷ complete_call (toggle (7 ∷ [])) terminal
    ∷ clear_call (some (codes "sender")) 1
    ∷ admit_call (toggle (7 ∷ []))
    ∷ device_call none
    ∷ []

executed : executions receiver calls (codes "sender") 1 10 ≡ 1
unfolding program
executed = refl

executions-le_one_example : executions receiver calls (codes "sender") 1 10 ≤ 1
executions-le_one_example =
    executions-le_one (some (codes "lamp")) routes 8 calls (codes "sender") 1 10 (omega arith)
