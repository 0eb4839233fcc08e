-- ===== src/Tests/Executor.antt =====
-- tests/concurrent_receiver_test.cpp, on the model.
use esphome_communication_ne.Admission.{
  matches_, encode_routed_command_, route_of, routed, admit, complete, replay_terminal,
}
use esphome_communication_ne.Executor.Binding.{
  DeclarativeInboundBinding, Setting, IsBounded, new_binding, add_place, configure, configured,
  light, configured-IsBounded,
}
use esphome_communication_ne.Executor.Completion.{
  cover_completed, all_on, all_rgb, all_bright, all_effect, state_reached, completed,
  with_remote_state, ended, loop_normal_, finish_interrupt_, interrupt_completed, interrupt_ended,
  interrupted_result, loop_interrupt_, loop_lanes, loop,
}
use esphome_communication_ne.Executor.Dispatch.{
  expectation, start_action, start_new, start_decided, start_normal_, normal_available_,
  same_identity, same_resource, related_lane, free_lane, start_inbound_, on_command_identity, start,
}
use esphome_communication_ne.Executor.Ends.{loop-start_action}
use esphome_communication_ne.Executor.Ends.Interrupt.{IsInterruptEnded, loop-start_interrupt}
use esphome_communication_ne.Executor.Ends.Lanes.{IsEnded}
use esphome_communication_ne.Executor.Once.Calls.{
  Call, identity_call, start_call, mqtt_call, loop_call, take_call, publish_call, after, triggers,
}
use esphome_communication_ne.Executor.Once.{new_receiver, triggers-le_one}
use esphome_communication_ne.Executor.Results.{
  has_any_result, has_result, take_result, take_any_result, cancel, publish_normal_result_,
  publish_lanes,
}
use esphome_communication_ne.Executor.Start.{
  record_result, finish_inbound_, declared_binding, command_matches_active_resource_, passage,
  give_replay, start_terminal, start_pending, start_interrupt, any_on, unavailable, waits, at_once,
  after_trigger,
}
use esphome_communication_ne.Executor.State.{
  NetCommand, NetStatus, Platform, Receiver, empty_execution, no_result, lane_at, started,
}
use esphome_communication_ne.Prelude.{
  ◌≡◌, ◌≤◌, refl, Bool, true, false, some, none, List, ◌∷◌, [], codes, arith, find_index?, str_eq,
  strnlen, add32,
}
use esphome_communication_ne.Registry.{InboundRouteRegistry, length_, find_index, id_at}
use esphome_communication_ne.Replay.{
  find_session_index_, bounded_length_, oldest_from, evict, find_room, write_session, write_entry,
  admit_new, begin_known, begin_unknown, begin_valid, begin, finish, get_terminal,
}

unfoldable pub program : Unit {0}
unfolding find_index? str_eq strnlen length_ find_index id_at find_session_index_ bounded_length_
    oldest_from evict find_room write_session write_entry admit_new begin_known begin_unknown
    begin_valid begin finish get_terminal matches_ encode_routed_command_ route_of routed admit
    complete replay_terminal add_place configure configured light cover_completed all_on all_rgb
    all_bright all_effect state_reached completed with_remote_state ended loop_normal_
    finish_interrupt_ interrupt_completed interrupt_ended interrupted_result loop_interrupt_
    loop_lanes loop expectation start_action start_new start_decided start_normal_ normal_available_
    same_identity same_resource related_lane free_lane start_inbound_ on_command_identity start
    after triggers has_any_result has_result take_result take_any_result cancel
    publish_normal_result_ publish_lanes record_result finish_inbound_ declared_binding
    command_matches_active_resource_ passage give_replay start_terminal start_pending
    start_interrupt any_on unavailable waits at_once after_trigger
program = tt

-- A world with one light, which is on or off.
abbrev pub platform : Platform
platform = record {
  World = Bool;
  valid = λ c. true;
  encode = λ result. some (result.transaction_id ∷ []);
  decode =
      λ id bytes. some (record no_result { transaction_id = id; status = NetStatus.succeeded });
  is_on = λ w l. w;
  red = λ w l. 0;
  green = λ w l. 0;
  blue = λ w l. 0;
  brightness = λ w l. 0;
  effect = λ w l. [];
  has_state = λ w s. true;
  sensor_state = λ w s. w;
  is_idle = λ w c. true;
  is_open = λ w c. w;
  is_closed = λ w c. true;
}

abbrev toggles : List Setting
toggles =
    Setting.set_light (some 1)
    ∷ Setting.add_completion_light (some 2)
    ∷ Setting.add_completion_light none
    ∷ Setting.set_completion_timeout 500
    ∷ []

configured-IsBounded_example : IsBounded (configured toggles new_binding)
configured-IsBounded_example = configured-IsBounded toggles

abbrev pub binding : DeclarativeInboundBinding
binding = record new_binding { lights = 1 ∷ 2 ∷ []; timeout_ms = 500 }

binding_configured : configured toggles new_binding ≡ binding
unfolding program
binding_configured = refl

abbrev routes : InboundRouteRegistry
routes = record {
  capacity = 16;
  entries = record { id = codes "r1"; resource = codes "light"; command = codes "toggle" } ∷ [];
}

abbrev receiver : Receiver
receiver =
    new_receiver true (some (codes "lamp")) routes 8 (binding ∷ [])
      (empty_execution ∷ empty_execution ∷ [])

abbrev toggle : NetCommand
toggle = record {
  transaction_id = 10;
  source_boot_id = 1;
  timeout_ms = 0;
  source_device_id = codes "tx";
  device_id = codes "lamp";
  resource = codes "light";
  name = codes "toggle";
  payload = codes "{}";
}

abbrev begun : Receiver
begun = (start_inbound_ platform false receiver toggle 1000 true).receiver

begins :
    ((start_inbound_ platform false receiver toggle 1000 true).answer ≡ started)
    × ((start_inbound_ platform false receiver toggle 1000 true).triggered ≡ some (binding, toggle))
    × ((lane_at begun 0).inbound_active ≡ true)
    × ((lane_at begun 0).inbound_expected_on ≡ true)
    × ((lane_at begun 0).inbound_result.status ≡ NetStatus.in_progress)
    × ((lane_at (loop platform false begun 1499) 0).inbound_active ≡ true)
    × ((lane_at (loop platform true begun 1499) 0).inbound_result.status ≡ NetStatus.succeeded)
    × ((lane_at (loop platform false begun 1500) 0).inbound_result.status ≡ NetStatus.failed)
unfolding program
begins = (refl, refl, refl, refl, refl, refl, refl, refl)

abbrev calls : List (Call platform)
calls =
    start_call false 3 toggle 900
    ∷ identity_call 3
    ∷ start_call false 3 toggle 1000
    ∷ mqtt_call false toggle 1010
    ∷ loop_call false 1100
    ∷ take_call 10
    ∷ loop_call true 1200
    ∷ publish_call (λ result. true)
    ∷ mqtt_call false toggle 1300
    ∷ []

triggered : triggers platform receiver calls (codes "tx") 1 10 ≡ 1
unfolding program
triggered = refl

triggers-le_one_example : triggers platform receiver calls (codes "tx") 1 10 ≤ 1
triggers-le_one_example =
    triggers-le_one platform true (some (codes "lamp")) routes 8 (binding ∷ [])
      (empty_execution ∷ empty_execution ∷ []) calls (codes "tx") 1 10 (omega arith)

loop-start_action_example : IsEnded toggle true (
    lane_at
      (loop platform false
        (start_action platform false receiver 0 toggle binding 4294967200 true).receiver
        (add32 4294967200 500))
      0)
loop-start_action_example =
    loop-start_action platform false false receiver 0 toggle binding 4294967200 500 true
      (omega arith) (omega arith) (omega arith) (omega arith)

loop-start_interrupt_example :
    IsInterruptEnded toggle false
      (loop platform false
        (start_interrupt begun 0 toggle binding 2000 false)
        (add32 2000 500)).interrupt
loop-start_interrupt_example =
    loop-start_interrupt platform false begun 0 toggle binding 2000 500 false (omega arith)
      (omega arith) (omega arith)

-- Another sender's command with the same transaction id takes the lane over while the first command
-- is executed: only the id is compared before the admission.
abbrev overwritten : Receiver
overwritten =
    (start_inbound_ platform false begun (record toggle { source_device_id = codes "rx" }) 1200
      true).receiver

overwrites :
    ((lane_at begun 0).active_command.source_device_id ≡ codes "tx")
    × ((lane_at overwritten 0).active_command.source_device_id ≡ codes "rx")
    × ((lane_at overwritten 0).inbound_started_ms ≡ 1200)
    × ((lane_at overwritten 1).inbound_active ≡ false)
unfolding program
overwrites = (refl, refl, refl, refl)
