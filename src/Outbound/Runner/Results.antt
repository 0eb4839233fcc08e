-- ===== src/Outbound/Runner/Results.antt =====
-- outbound_runner_impl.h: whose result a runner gives, and that it is consistent, whatever the
-- adapters do.
use esphome_communication_ne.Outbound.Runner.{
  Runner, is_idle, is_result_ready, complete_, complete_failure_, make_failure_, with_failure,
  give_up, has_listener_, after_start, try_transport, next_decision, selected, attempt_rounds,
  attempt_next_,
}
use esphome_communication_ne.Outbound.Transaction.{
  CommunicationTransport, TransportStatus, CommandResultStatus, CommandResult,
  CommunicationErrorCode, is_empty, is_no_error, snapshot_is_consistent, execution_is_consistent,
  error_is_consistent, outcome_is_consistent, result_is_consistent,
}
use esphome_communication_ne.Outbound.Transport.{
  Adapters, TransportStartStatus, find_transport, started, busy, unavailable,
}
use esphome_communication_ne.Prelude.{
  ℕ, zero, suc, ◌≤◌, ◌<◌, Bool, true, false, ◌||◌, ◌≡◌, ◌≢◌, ◌⊎◌, inl, inr, refl, arith, length,
  Bytes, strnlen-min, take-strnlen, Option-cases, Bool-cases, if_induction,
}

outcome-latency :
    (s : CommandResultStatus) (r : CommandResult) (n : ℕ)
    → outcome_is_consistent s (record r { latency_ms = n }) ≡ outcome_is_consistent s r
unfolding outcome_is_consistent
outcome-latency CommandResultStatus.succeeded r n = refl
outcome-latency _ r n = refl

-- The latency does not enter the test.
consistent-latency :
    (r : CommandResult) (n : ℕ)
    → result_is_consistent (record r { latency_ms = n }) ≡ result_is_consistent r
unfolding result_is_consistent
consistent-latency r n = rw (outcome-latency r.result r n) refl

module _ {a : Adapters} where
  -- A result for the runner's request that passes the test.
  abbrev pub IsOwn : Runner a → CommandResult → Type 0
  IsOwn r result =
      (result.transaction_id ≡ r.request.transaction_id) × (result_is_consistent result ≡ true)

  -- A runner that is not idle has a request; the failure that it remembers and the result that it
  -- holds ready are its own.
  pub record IsSound (r : Runner a) : Type 0 where
    pub requested : is_idle r.state ≡ false → r.request.transaction_id ≢ 0
    pub failure : r.has_last_transport_failure ≡ true → IsOwn r r.last_transport_failure
    pub terminal : is_result_ready r.state ≡ true → IsOwn r r.terminal_result

  -- The failures that the runner makes up are its own.
  pub make_failure-IsOwn :
      (r : Runner a) (transport : CommunicationTransport) (status : TransportStatus)
      (code : CommunicationErrorCode) (message : Bytes) (retryable : Bool) (now : ℕ)
      → r.request.transaction_id ≢ 0
      → is_no_error code ≡ false
      → is_empty message ≡ false
      → length message ≤ 95
      → IsOwn r (make_failure_ r transport status code message retryable now)
  unfolding make_failure_ result_is_consistent outcome_is_consistent execution_is_consistent
      error_is_consistent snapshot_is_consistent
  make_failure-IsOwn r transport status code message retryable now id e m l =
      (refl, ground (arith, strnlen-min 96 message, take-strnlen 96 message))

  pub complete-IsSound :
      (r : Runner a) (result : CommandResult) (now : ℕ)
      → IsSound r
      → r.request.transaction_id ≢ 0
      → IsOwn r result
      → IsSound (complete_ r result now)
  unfolding complete_
  complete-IsSound r result now h id own = record {
    requested = λ _. id;
    failure = h.failure;
    terminal = λ _. (own.0, rw consistent-latency own.1);
  }

  pub with_failure-IsSound :
      (r : Runner a) (result : CommandResult)
      → IsSound r
      → IsOwn r result
      → IsSound (with_failure r result)
  with_failure-IsSound r result h own = record {
    requested = h.requested;
    failure = λ _. own;
    terminal = h.terminal;
  }

  give_up-IsSound :
      (r : Runner a) (now : ℕ) → IsSound r → r.request.transaction_id ≢ 0 → IsSound (give_up r now)
  unfolding give_up complete_failure_
  give_up-IsSound r now h id =
      if_induction IsSound (has_listener_ r || r.accepted) (λ _. h)
        (λ _.
          if_induction IsSound r.has_last_transport_failure
            (λ f. complete-IsSound r _ now h id (h.failure f))
            (λ f.
              complete-IsSound r _ now h id
                (make_failure-IsOwn r _ _ _ _ _ now id refl refl (omega arith))))

  -- A round that goes on has remembered a failure.
  abbrev GoesOn : Runner a × Bool → Type 0
  GoesOn (r, again) =
      IsSound r
      × (r.request.transaction_id ≢ 0)
      × (again ≡ true → r.has_last_transport_failure ≡ true)

  after_start-GoesOn :
      (r : Runner a) (transport : CommunicationTransport) (x : ℕ) (status : TransportStartStatus)
      (now : ℕ)
      → IsSound r
      → r.request.transaction_id ≢ 0
      → GoesOn (after_start r transport x status now)
  unfolding after_start complete_failure_
  after_start-GoesOn r transport x started now h id =
      (record { requested = h.requested; failure = h.failure; terminal = h.terminal }, id, λ e. cc)
  after_start-GoesOn r transport x busy now h id = (
    with_failure-IsSound r _ h (make_failure-IsOwn r _ _ _ _ _ now id refl refl (omega arith)),
    id,
    λ e. refl,
  )
  after_start-GoesOn r transport x unavailable now h id = (
    with_failure-IsSound r _ h (make_failure-IsOwn r _ _ _ _ _ now id refl refl (omega arith)),
    id,
    λ e. refl,
  )
  after_start-GoesOn r transport x _ now h id = (
    complete-IsSound r _ now h id (make_failure-IsOwn r _ _ _ _ _ now id refl refl (omega arith)),
    unfold complete_ in id,
    λ e. cc,
  )

  try_transport-GoesOn :
      (r : Runner a) (transport : CommunicationTransport) (now : ℕ)
      → IsSound r
      → r.request.transaction_id ≢ 0
      → GoesOn (try_transport r transport now)
  unfolding try_transport
  try_transport-GoesOn r transport now h id =
      elim (Option-cases (find_transport a r.registry transport)) [
        | inl e ↦
            rw (e, try_transport)
              (
                with_failure-IsSound _ _
                    (record { requested = h.requested; failure = h.failure; terminal = h.terminal })
                    (make_failure-IsOwn r _ _ _ _ _ now id refl refl (omega arith)),
                id,
                λ _. refl,
              )
        | inr (x, e) ↦
            rw (e, try_transport)
              (after_start-GoesOn _ transport x _ now
                (record { requested = h.requested; failure = h.failure; terminal = h.terminal }) id)
      ]

  attempt_rounds-IsSound :
      (rounds : ℕ) (r : Runner a) (now : ℕ)
      → IsSound r
      → r.request.transaction_id ≢ 0
      → (0 < rounds) ⊎ (r.has_last_transport_failure ≡ true)
      → IsSound (attempt_rounds rounds r now)
  unfolding attempt_rounds
  attempt_rounds-IsSound zero r now h id (inl l) = absurd (omega arith)
  attempt_rounds-IsSound zero r now h id (inr f) = complete-IsSound r _ now h id (h.failure f)
  attempt_rounds-IsSound (suc rounds) r now h id f =
      elim (Option-cases (selected (next_decision r))) [
        | inl e ↦ rw (e, attempt_rounds) (give_up-IsSound r now h id)
        | inr (transport, e) ↦
            let g = try_transport-GoesOn r transport now h id in
            elim (Bool-cases (try_transport r transport now).1) [
              | inl again ↦
                  rw (e, attempt_rounds)
                    (rw again (attempt_rounds-IsSound rounds _ now g.0 g.1 (inr (g.2 again))))
              | inr stop ↦ rw (e, attempt_rounds) (rw stop g.0)
            ]
      ]

  pub attempt_next-IsSound :
      (r : Runner a) (now : ℕ)
      → IsSound r
      → r.request.transaction_id ≢ 0
      → IsSound (attempt_next_ r now)
  unfolding attempt_next_
  attempt_next-IsSound r now h id = attempt_rounds-IsSound 4 r now h id (inl (omega arith))
