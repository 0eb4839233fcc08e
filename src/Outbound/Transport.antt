-- ===== src/Outbound/Transport.antt =====
-- components/communication_net_protocol/outbound_communication_transport.h: the adapters' interface
-- and the registry of the adapters.
use esphome_communication_ne.Outbound.Policy.{
  TransportAvailability, no_availability, set_available, max_transports,
}
use esphome_communication_ne.Outbound.Transaction.{
  CommunicationTransport, CommandRequest, CommandResult, is_no_transport, same_transport,
}
use esphome_communication_ne.Prelude.{
  ℕ, Bool, true, false, not, ◌&&◌, ◌||◌, Option, none, some, List, [], ◌∷◌, ◌++◌, leb,
  if◌then◌else◌, length,
}

pub data TransportStartStatus : Type 0 where
  started busy invalid_request unavailable rejected : TransportStartStatus

-- `CommunicationTransportAdapter`, an abstract class: its implementations are not part of the
-- model. An adapter is a number that names the object; what all the objects hold is one `World`.
pub record Adapters : Type 1 where
  pub World : Type 0
  pub transport_type : ℕ → CommunicationTransport
  pub is_available : ℕ → World → Bool
  pub is_busy : ℕ → World → Bool
  pub start : ℕ → CommandRequest → World → World × TransportStartStatus
  pub use_external_result_deadline : ℕ → ℕ → World → World
  pub loop : ℕ → ℕ → World → World
  pub has_result : ℕ → World → Bool
  pub take_result : ℕ → World → World × Option CommandResult
  pub cancel : ℕ → ℕ → World → World

-- The first `transport_count_` places of `transports_`.
abbrev pub CommunicationTransportRegistry : Type 0
CommunicationTransportRegistry = List ℕ

module _ (a : Adapters) where
  -- The loop of `find`.
  unfoldable pub find_adapter : CommunicationTransportRegistry → CommunicationTransport → Option ℕ
  find_adapter [] transport = none
  find_adapter (x ∷ registry) transport =
      if same_transport (a.transport_type x) transport
      then some x
      else find_adapter registry transport

  unfoldable pub find_transport : CommunicationTransportRegistry → CommunicationTransport → Option ℕ
  unfolding find_adapter
  find_transport registry transport =
      if is_no_transport transport then none else find_adapter registry transport

  abbrev pub is_found : Option ℕ → Bool
  is_found none = false
  is_found (some x) = true

  unfoldable pub register_transport :
      CommunicationTransportRegistry → Option ℕ → CommunicationTransportRegistry × Bool
  unfolding find_transport
  register_transport registry none = (registry, false)
  register_transport registry (some x) =
      if is_no_transport (a.transport_type x)
        || leb max_transports (length registry)
        || is_found (find_transport registry (a.transport_type x))
      then (registry, false)
      else (registry ++ (x ∷ []), true)

  -- The loop of `availability`, over the snapshot so far.
  unfoldable pub availability_from :
      TransportAvailability → CommunicationTransportRegistry → a.World → TransportAvailability
  availability_from snapshot [] w = snapshot
  availability_from snapshot (x ∷ registry) w =
      availability_from
        (set_available snapshot (a.transport_type x) (a.is_available x w && not (a.is_busy x w))).0
        registry w

  unfoldable pub availability : CommunicationTransportRegistry → a.World → TransportAvailability
  unfolding availability_from
  availability registry w = availability_from no_availability registry w

  unfoldable pub loop_all : CommunicationTransportRegistry → ℕ → a.World → a.World
  loop_all [] now_ms w = w
  loop_all (x ∷ registry) now_ms w = loop_all registry now_ms (a.loop x now_ms w)
