-- ===== src/Outbound/Runner/Loop.antt =====
-- outbound_runner_impl.h: the calls of the runner's owner.
use esphome_communication_ne.Outbound.Policy.{
  CommunicationPolicy, PolicyDecision, use_transport, complete, exhausted, invalid_result,
  policy_contains, policy_is_valid, was_attempted, evaluate_result,
}
use esphome_communication_ne.Outbound.Runner.{
  Runner, idle, active, is_idle, is_active, is_result_ready, is_in_progress, is_answer, complete_,
  complete_failure_, timed_out_, reset_, with_failure, attempt_next_,
}
use esphome_communication_ne.Outbound.Transaction.{
  CommunicationTransport, none_transport, mqtt, esp_now, TransportStatus, CommandResult,
  CommunicationErrorCode, CommandRequest, transport_succeeded, same_transport, request_is_valid,
  result_is_consistent, empty_result, empty_request,
}
use esphome_communication_ne.Outbound.Transport.{
  Adapters, CommunicationTransportRegistry, find_transport, availability, loop_all,
}
use esphome_communication_ne.Prelude.{
  ℕ, ◌/◌, Bool, true, false, not, ◌&&◌, ◌||◌, Option, none, some, List, [], ◌∷◌, ◌==◌, ltb, leb,
  if◌then◌else◌, length, codes, add32, sub32,
}

-- The completion budget that an accepted command gets for its estimate.
unfoldable pub completion_budget : ℕ → ℕ → ℕ
completion_budget estimate timeout_ms =
    let bounded = if ltb 3600000 estimate then 3600000 else estimate in
    let budget = add32 bounded 1000 in if ltb budget timeout_ms then timeout_ms else budget

abbrev pub same_adapter : Option ℕ → ℕ → Bool
same_adapter none x = false
same_adapter (some y) x = y == x

unfoldable pub ack_ms : ℕ → ℕ
ack_ms timeout_ms =
    let third = timeout_ms / 3 in
    let bounded = if ltb 500 third then 500 else third in if bounded == 0 then 1 else bounded

abbrev pub no_adapter : Option ℕ → Bool
no_adapter none = true
no_adapter (some x) = false

module _ {a : Adapters} where
  unfoldable pub start : Runner a → CommandRequest → CommunicationPolicy → ℕ → Runner a × Bool
  start r request policy now_ms =
      if not (is_idle r.state) || not (request_is_valid request) || not (policy_is_valid policy)
      then (r, false)
      else (
        attempt_next_
            (record r {
              request = request;
              policy = policy;
              attempts = 0;
              started_ms = now_ms;
              attempt_started_ms = now_ms;
              listening = 0;
              accepted = false;
              acceptance_fallback =
                  length policy == 2
                  && policy_contains policy mqtt
                  && policy_contains policy esp_now;
              progress_result = empty_result;
              has_progress_result = false;
              has_last_transport_failure = false;
              active_transport = none;
              state = active;
            })
            now_ms,
        true,
      )

  -- The first acknowledgement; a later one changes nothing.
  unfoldable pub accept : Runner a → CommandResult → ℕ → Runner a
  unfolding completion_budget
  accept r result now_ms = if r.accepted then r else record r {
    accepted = true;
    accepted_ms = now_ms;
    completion_timeout_ms =
        completion_budget result.execution.estimated_completion_ms r.request.timeout_ms;
    progress_result = record result { latency_ms = sub32 now_ms r.started_ms };
    has_progress_result = true;
  }

  -- A result that an adapter `x` gave: the runner, and whether the transaction is complete.
  unfoldable pub handle_result : Runner a → ℕ → CommandResult → ℕ → Runner a × Bool
  handle_result r x result now_ms =
      if not (result.transaction_id == r.request.transaction_id)
        || not (same_transport result.transport_used (a.transport_type x))
        || not (result_is_consistent result)
      then (r, false)
      else if is_in_progress result.result
      then (accept r result now_ms, false)
      else if transport_succeeded result.transport_status || is_answer result.result
      then (complete_ r result now_ms, true)
      else (
        record (with_failure r result) {
          active_transport = if same_adapter r.active_transport x then none else r.active_transport;
        },
        false,
      )

  -- One round of the draining loop, for the transport `type`.
  unfoldable pub drain_transport : Runner a → CommunicationTransport → ℕ → Runner a × Bool
  unfolding handle_result
  drain_transport r type now_ms =
      if not (was_attempted r.listening type)
      then (r, false)
      else elim (find_transport a r.registry type) [
        | none ↦ (r, false)
        | some x ↦
            if not (a.has_result x r.world)
            then (r, false)
            else let (world, taken) = a.take_result x r.world in
              elim taken [
                | none ↦ (record r { world = world }, false)
                | some result ↦ handle_result (record r { world = world }) x result now_ms
              ]
      ]

  -- The draining loop; it returns at the first completion.
  unfoldable pub drain : CommunicationPolicy → Runner a → ℕ → Runner a × Bool
  drain [] r now_ms = (r, false)
  drain (type ∷ policy) r now_ms =
      let (r', done) = drain_transport r type now_ms in
      let rest = drain policy r' now_ms in if done then (r', true) else rest

  abbrev pub active_type : Runner a → CommunicationTransport
  active_type r = elim r.active_transport [ none ↦ none_transport | some x ↦ a.transport_type x ]

  unfoldable pub missing_ack : Runner a → ℕ → Bool
  unfolding ack_ms
  missing_ack r now_ms =
      r.acceptance_fallback
      && not r.accepted
      && leb (ack_ms r.request.timeout_ms) (sub32 now_ms r.attempt_started_ms)

  -- `loop` after the draining loop.
  unfoldable pub after_drain : Runner a → ℕ → Runner a
  after_drain r now_ms =
      if timed_out_ r now_ms
      then complete_failure_ r (active_type r) TransportStatus.timed_out
          CommunicationErrorCode.timed_out (codes "end-to-end transaction timeout") false now_ms
      else if no_adapter r.active_transport || missing_ack r now_ms
      then attempt_next_ r now_ms
      else r

  unfoldable pub loop : Runner a → ℕ → Runner a
  unfolding after_drain
  loop r now_ms =
      let r' : Runner a = record r { world = loop_all a r.registry now_ms r.world } in
      if not (is_active r.state)
      then r'
      else let (drained, done) = drain r.policy r' now_ms in
        if done then drained else after_drain drained now_ms

  unfoldable pub take_progress_result : Runner a → Runner a × Option CommandResult
  take_progress_result r = if not r.has_progress_result then (r, none) else (
    record r { progress_result = empty_result; has_progress_result = false },
    some r.progress_result,
  )

  unfoldable pub take_result : Runner a → Runner a × Option CommandResult
  take_result r =
      if not (is_result_ready r.state) then (r, none) else (reset_ r, some r.terminal_result)

  unfoldable pub active_transaction_id : Runner a → ℕ
  active_transaction_id r = if is_idle r.state then 0 else r.request.transaction_id

  -- `handle_attempt_result_` by the decision of the policy; nothing calls it.
  unfoldable pub handle_decision : Runner a → PolicyDecision → CommandResult → ℕ → Runner a
  handle_decision r complete result now_ms = complete_ r result now_ms
  handle_decision r invalid_result result now_ms =
      complete_failure_ r result.transport_used TransportStatus.protocol_error
        CommunicationErrorCode.internal_error (codes "transport returned inconsistent result") false
        now_ms
  handle_decision r exhausted result now_ms = complete_ (with_failure r result) result now_ms
  handle_decision r (use_transport t) result now_ms = attempt_next_ (with_failure r result) now_ms

  unfoldable pub handle_attempt_result_ : Runner a → CommandResult → ℕ → Runner a
  unfolding handle_decision
  handle_attempt_result_ r result now_ms =
      handle_decision r
        (evaluate_result r.policy (availability a r.registry r.world) r.attempts result) result
        now_ms

  -- A runner as it is constructed, over a registry and what its adapters hold.
  abbrev pub new_runner : CommunicationTransportRegistry → a.World → Runner a
  new_runner registry world = record {
    registry = registry;
    policy = [];
    attempts = 0;
    request = empty_request;
    progress_result = empty_result;
    terminal_result = empty_result;
    last_transport_failure = empty_result;
    active_transport = none;
    listening = 0;
    started_ms = 0;
    attempt_started_ms = 0;
    accepted_ms = 0;
    completion_timeout_ms = 0;
    accepted = false;
    acceptance_fallback = false;
    has_progress_result = false;
    has_last_transport_failure = false;
    state = idle;
    world = world;
  }

-- What happens to a runner: its owner's calls, and whatever the radio and the broker do to the
-- adapters between them.
pub data Call (a : Adapters) : Type 0 where
  start_call : (request : CommandRequest) (policy : CommunicationPolicy) (now_ms : ℕ) → Call a
  loop_call : (now_ms : ℕ) → Call a
  progress_call : Call a
  result_call : Call a
  environment : (change : a.World → a.World) → Call a

module _ {a : Adapters} where
  unfoldable pub after : Call a → Runner a → Runner a
  after (start_call request policy now_ms) r = (start r request policy now_ms).0
  after (loop_call now_ms) r = loop r now_ms
  after progress_call r = (take_progress_result r).0
  after result_call r = (take_result r).0
  after (environment change) r = record r { world = change r.world }

  unfoldable pub run : List (Call a) → Runner a → Runner a
  run [] r = r
  run (c ∷ cs) r = run cs (after c r)
