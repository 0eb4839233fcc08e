-- ===== src/Outbound/Policy.antt =====
-- components/communication_net_protocol/outbound_communication_policy.h: which transport a command
-- is sent over next.
use Prim.Native.Nat.{bit_and, bit_or}
use esphome_communication_ne.Outbound.Transaction.{
  CommunicationTransport, none_transport, CommandResult, CommandResultStatus, transport_index,
  same_transport, is_no_transport, transport_succeeded, result_is_consistent,
}
use esphome_communication_ne.Prelude.{
  ℕ, ◌^◌, Bool, true, false, not, ◌&&◌, ◌||◌, List, [], ◌∷◌, ◌++◌, ◌==◌, ltb, leb, if◌then◌else◌,
  length, get_or, set, replicate,
}

-- The first `transport_count_` places of `transports_`.
abbrev pub CommunicationPolicy : Type 0
CommunicationPolicy = List CommunicationTransport

abbrev pub max_transports : ℕ
max_transports = 4

unfoldable pub policy_contains : CommunicationPolicy → CommunicationTransport → Bool
policy_contains [] transport = false
policy_contains (t ∷ policy) transport =
    same_transport t transport || policy_contains policy transport

unfoldable pub add_transport :
    CommunicationPolicy → CommunicationTransport → CommunicationPolicy × Bool
unfolding policy_contains
add_transport policy transport =
    if is_no_transport transport
      || leb max_transports (length policy)
      || policy_contains policy transport
    then (policy, false)
    else (policy ++ (transport ∷ []), true)

unfoldable pub transport_at : CommunicationPolicy → ℕ → CommunicationTransport
transport_at policy index = get_or policy index none_transport

abbrev pub policy_is_valid : CommunicationPolicy → Bool
policy_is_valid policy = not (length policy == 0)

abbrev pub communication_transport_count : ℕ
communication_transport_count = 5

-- `available_`, indexed by the transport.
abbrev pub TransportAvailability : Type 0
TransportAvailability = List Bool

abbrev pub no_availability : TransportAvailability
no_availability = replicate communication_transport_count false

unfoldable pub set_available :
    TransportAvailability → CommunicationTransport → Bool → TransportAvailability × Bool
set_available available transport flag =
    let index = transport_index transport in
    if is_no_transport transport || leb communication_transport_count index
    then (available, false)
    else (set available index flag, true)

unfoldable pub is_available : TransportAvailability → CommunicationTransport → Bool
is_available available transport =
    let index = transport_index transport in
    not (is_no_transport transport)
    && ltb index communication_transport_count
    && get_or available index false

-- `attempted_mask_`, a `uint8_t`.
abbrev pub TransportAttemptSet : Type 0
TransportAttemptSet = ℕ

unfoldable pub mark_attempted :
    TransportAttemptSet → CommunicationTransport → TransportAttemptSet × Bool
mark_attempted mask transport =
    let index = transport_index transport in
    if is_no_transport transport || leb 8 index
    then (mask, false)
    else (bit_or mask (2 ^ index), true)

unfoldable pub was_attempted : TransportAttemptSet → CommunicationTransport → Bool
was_attempted mask transport =
    let index = transport_index transport in
    not (is_no_transport transport) && ltb index 8 && not (bit_and mask (2 ^ index) == 0)

pub data PolicyDecision : Type 0 where
  use_transport : CommunicationTransport → PolicyDecision
  complete exhausted invalid_result : PolicyDecision

unfoldable pub select_next :
    CommunicationPolicy → TransportAvailability → TransportAttemptSet → PolicyDecision
select_next [] availability attempts = exhausted
select_next (t ∷ policy) availability attempts =
    if is_available availability t && not (was_attempted attempts t)
    then use_transport t
    else select_next policy availability attempts

-- `result` is `SUCCEEDED`, `IN_PROGRESS` or `REJECTED`.
abbrev pub is_final_for_policy : CommandResultStatus → Bool
is_final_for_policy CommandResultStatus.failed = false
is_final_for_policy _ = true

unfoldable pub evaluate_result :
    CommunicationPolicy
    → TransportAvailability
    → TransportAttemptSet
    → CommandResult
    → PolicyDecision
evaluate_result policy availability attempts result =
    if not (result_is_consistent result)
    then invalid_result
    else if is_final_for_policy result.result || transport_succeeded result.transport_status
    then complete
    else select_next policy availability (mark_attempted attempts result.transport_used).0
