-- ===== src/Outbound/Runner/Outcome.antt =====
-- outbound_runner_impl.h: what `take_result` gives, over every sequence of calls.
use esphome_communication_ne.Outbound.Policy.{CommunicationPolicy}
use esphome_communication_ne.Outbound.Runner.Loop.{
  start, accept, handle_result, drain_transport, drain, missing_ack, after_drain, loop,
  take_progress_result, take_result, active_transaction_id, new_runner, no_adapter, Call,
  start_call, loop_call, progress_call, result_call, environment, after, run,
}
use esphome_communication_ne.Outbound.Runner.Results.{
  IsOwn, IsSound, complete-IsSound, make_failure-IsOwn, attempt_next-IsSound,
}
use esphome_communication_ne.Outbound.Runner.{
  Runner, is_idle, is_active, is_result_ready, is_in_progress, is_answer, complete_,
  complete_failure_, timed_out_, reset_,
}
use esphome_communication_ne.Outbound.Transaction.{
  CommunicationTransport, CommandResult, CommandRequest, transport_succeeded, same_transport,
  request_is_valid, result_is_consistent,
}
use esphome_communication_ne.Outbound.Transport.{
  Adapters, CommunicationTransportRegistry, find_transport, loop_all,
}
use esphome_communication_ne.Outbound.Policy.{policy_is_valid, was_attempted}
use esphome_communication_ne.Prelude.{
  ℕ, Bool, true, false, not, ◌||◌, Option, none, some, List, [], ◌∷◌, ◌==◌, ◌≡◌, ◌≢◌, refl, arith,
  if_induction, Option-cases, Bool-cases, inl, inr,
}

module _ {a : Adapters} where
  -- A sound runner with a transaction.
  abbrev IsLive : Runner a → Type 0
  IsLive r = IsSound r × (is_idle r.state ≡ false)

  -- A complete runner is live.
  complete-IsLive :
      (r : Runner a) (result : CommandResult) (now : ℕ)
      → IsLive r
      → IsOwn r result
      → IsLive (complete_ r result now)
  complete-IsLive r result now h own =
      (complete-IsSound r result now h.0 (h.0.requested h.1) own, unfold complete_ in refl)

  handle_result-IsLive :
      (r : Runner a) (x : ℕ) (result : CommandResult) (now : ℕ)
      → IsLive r
      → IsLive (handle_result r x result now).0
  unfolding handle_result accept
  handle_result-IsLive r x result now h =
      if_induction (λ (p : Runner a × Bool). IsLive p.0)
        (not (result.transaction_id == r.request.transaction_id)
          || not (same_transport result.transport_used (a.transport_type x))
          || not (result_is_consistent result))
        (λ _. h)
        (λ e.
          let own : IsOwn r result = (ground (arith, e), ground (arith, e)) in
          if_induction (λ (p : Runner a × Bool). IsLive p.0) (is_in_progress result.result)
            (λ _.
              if_induction IsLive r.accepted (λ _. h)
                (λ _. (
                  record {
                    requested = h.0.requested;
                    failure = h.0.failure;
                    terminal = h.0.terminal;
                  },
                  h.1,
                )))
            (λ _.
              if_induction (λ (p : Runner a × Bool). IsLive p.0)
                (transport_succeeded result.transport_status || is_answer result.result)
                (λ _. complete-IsLive r result now h own)
                (λ _. (
                  record { requested = h.0.requested; failure = λ _. own; terminal = h.0.terminal },
                  h.1,
                ))))

  with_world-IsLive :
      (r : Runner a) (world : a.World) → IsLive r → IsLive (record r { world = world })
  with_world-IsLive r world h =
      (record { requested = h.0.requested; failure = h.0.failure; terminal = h.0.terminal }, h.1)

  taken-IsLive :
      (r : Runner a) (x now : ℕ)
      → IsLive r
      → IsLive (
          let (world, taken) = a.take_result x r.world in
          (elim taken as (λ _. Runner a × Bool) [
            | none ↦ (record r { world = world }, false)
            | some result ↦ handle_result (record r { world = world }) x result now
          ]).0)
  taken-IsLive r x now h = elim (Option-cases (a.take_result x r.world).1) [
    | inl e ↦ rw e (with_world-IsLive r _ h)
    | inr (result, e) ↦ rw e (handle_result-IsLive _ x result now (with_world-IsLive r _ h))
  ]

  drain_transport-IsLive :
      (r : Runner a) (type : CommunicationTransport) (now : ℕ)
      → IsLive r
      → IsLive (drain_transport r type now).0
  unfolding drain_transport
  drain_transport-IsLive r type now h =
      if_induction (λ (p : Runner a × Bool). IsLive p.0) (not (was_attempted r.listening type))
        (λ _. h)
        (λ _. elim (Option-cases (find_transport a r.registry type)) [
          | inl e ↦ rw (e, drain_transport) h
          | inr (x, e) ↦
              rw (e, drain_transport)
                (if_induction (λ (p : Runner a × Bool). IsLive p.0) (not (a.has_result x r.world))
                  (λ _. h) (λ _. taken-IsLive r x now h))
        ])

  drain-IsLive :
      (policy : CommunicationPolicy) (r : Runner a) (now : ℕ)
      → IsLive r
      → IsLive (drain policy r now).0
  unfolding drain
  drain-IsLive [] r now h = h
  drain-IsLive (type ∷ policy) r now h =
      let h' = drain_transport-IsLive r type now h in
      if_induction (λ (p : Runner a × Bool). IsLive p.0) (drain_transport r type now).1 (λ _. h')
        (λ _. drain-IsLive policy _ now h')

  after_drain-IsSound : (r : Runner a) (now : ℕ) → IsLive r → IsSound (after_drain r now)
  unfolding after_drain complete_failure_
  after_drain-IsSound r now h =
      let id = h.0.requested h.1 in
      if_induction IsSound (timed_out_ r now)
        (λ _.
          complete-IsSound r _ now h.0 id
            (make_failure-IsOwn r _ _ _ _ _ now id refl refl (omega arith)))
        (λ _.
          if_induction IsSound (no_adapter r.active_transport || missing_ack r now)
            (λ _. attempt_next-IsSound r now h.0 id) (λ _. h.0))

  loop-IsSound : (r : Runner a) (now : ℕ) → IsSound r → IsSound (loop r now)
  unfolding loop
  loop-IsSound r now h = elim (Bool-cases (is_active r.state)) [
    | inr e ↦
        if_induction IsSound (not (is_active r.state))
          (λ _. record { requested = h.requested; failure = h.failure; terminal = h.terminal })
          (λ f. absurd (ground arith))
    | inl e ↦
        let live : IsLive r = (h, ground arith) in
        let drained =
          drain-IsLive r.policy (record r { world = loop_all a r.registry now r.world }) now
            (with_world-IsLive r (loop_all a r.registry now r.world) live) in
        if_induction IsSound (not (is_active r.state)) (λ f. absurd (ground arith))
          (λ _.
            if_induction IsSound
              (drain r.policy (record r { world = loop_all a r.registry now r.world }) now).1
              (λ _. drained.0) (λ _. after_drain-IsSound _ now drained))
  ]

  start-IsSound :
      (r : Runner a) (request : CommandRequest) (policy : CommunicationPolicy) (now : ℕ)
      → IsSound r
      → IsSound (start r request policy now).0
  unfolding start
  start-IsSound r request policy now h =
      if_induction (λ (p : Runner a × Bool). IsSound p.0)
        (not (is_idle r.state) || not (request_is_valid request) || not (policy_is_valid policy))
        (λ _. h)
        (λ e.
          let id : request.transaction_id ≢ 0 = unfold request_is_valid in ground (arith, e) in
          attempt_next-IsSound _ now
            (record { requested = λ _. id; failure = λ f. cc; terminal = λ f. cc }) id)

  after-IsSound : (c : Call a) (r : Runner a) → IsSound r → IsSound (after c r)
  unfolding after
  after-IsSound (start_call request policy now) r h = start-IsSound r request policy now h
  after-IsSound (loop_call now) r h = loop-IsSound r now h
  after-IsSound progress_call r h =
      unfold take_progress_result in
      if_induction (λ (p : Runner a × Option CommandResult). IsSound p.0)
        (not r.has_progress_result) (λ _. h)
        (λ _. record { requested = h.requested; failure = h.failure; terminal = h.terminal })
  after-IsSound result_call r h =
      unfold take_result reset_ in
      if_induction (λ (p : Runner a × Option CommandResult). IsSound p.0)
        (not (is_result_ready r.state)) (λ _. h)
        (λ _. record { requested = λ f. cc; failure = λ f. cc; terminal = λ f. cc })
  after-IsSound (environment change) r h = record {
    requested = h.requested;
    failure = h.failure;
    terminal = h.terminal;
  }

  run-IsSound : (cs : List (Call a)) (r : Runner a) → IsSound r → IsSound (run cs r)
  unfolding run
  run-IsSound [] r h = h
  run-IsSound (c ∷ cs) r h = run-IsSound cs (after c r) (after-IsSound c r h)

  sound_result :
      (r : Runner a) (result : CommandResult)
      → IsSound r
      → (take_result r).1 ≡ some result
      → (result_is_consistent result ≡ true)
        × (result.transaction_id ≡ active_transaction_id r)
        × (result.transaction_id ≢ 0)
  unfolding take_result active_transaction_id
  sound_result r result s e =
      let ready : is_result_ready r.state ≡ true = ground (arith, e) in
      let same : r.terminal_result ≡ result = ground (arith, e) in
      let own = s.terminal ready in
      let busy : is_idle r.state ≡ false = ground (arith, ready) in
      let id = s.requested busy in
      (rw same at own.1, ground (arith, own.0, same), ground (arith, own.0, id, same))

-- Whatever the adapters do, and after every sequence of starts, loops, takes and changes around a
-- new runner: a result that `take_result` gives is consistent, and it is a result for the request
-- that is active, whose transaction id is not 0.
pub take_result-IsOwn :
    (a : Adapters) (registry : CommunicationTransportRegistry) (world : a.World)
    (cs : List (Call a)) (result : CommandResult)
    → (take_result (run cs (new_runner registry world))).1 ≡ some result
    → (result_is_consistent result ≡ true)
      × (result.transaction_id ≡ active_transaction_id (run cs (new_runner registry world)))
      × (result.transaction_id ≢ 0)
take_result-IsOwn a registry world cs result h =
    sound_result (run cs (new_runner registry world)) result
      (run-IsSound cs (new_runner registry world)
        (record { requested = λ f. cc; failure = λ f. cc; terminal = λ f. cc }))
      h
