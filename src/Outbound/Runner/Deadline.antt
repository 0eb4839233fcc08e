-- ===== src/Outbound/Runner/Deadline.antt =====
-- outbound_runner_impl.h: a transaction does not outlive its deadline, and a repeated
-- acknowledgement does not move it.
use esphome_communication_ne.Outbound.Policy.{CommunicationPolicy, was_attempted}
use esphome_communication_ne.Outbound.Runner.Loop.{
  accept, handle_result, drain_transport, drain, after_drain, loop,
}
use esphome_communication_ne.Outbound.Runner.{
  Runner, result_ready, is_active, is_in_progress, is_answer, complete_, complete_failure_,
  timed_out_,
}
use esphome_communication_ne.Outbound.Transaction.{
  CommunicationTransport, CommandResult, transport_succeeded, same_transport, result_is_consistent,
}
use esphome_communication_ne.Outbound.Transport.{Adapters, find_transport, loop_all}
use esphome_communication_ne.Prelude.{
  ℕ, Bool, true, false, not, ◌||◌, [], ◌∷◌, ◌==◌, ◌≡◌, ◌⊎◌, inl, inr, refl, ◌∙◌, arith,
  if_induction, Option-cases, Bool-cases,
}

module _ {a : Adapters} where
  -- What draining leaves of the clocks of `r`: an accepted runner keeps its deadline, and one that
  -- becomes accepted does so now.
  pub record KeepsClock (r : Runner a) (now : ℕ) (p : Runner a × Bool) : Type 0 where
    pub request : p.0.request ≡ r.request
    pub begun : p.0.started_ms ≡ r.started_ms
    pub accepted :
        r.accepted ≡ true
        → (p.0.accepted ≡ true)
          × (p.0.accepted_ms ≡ r.accepted_ms)
          × (p.0.completion_timeout_ms ≡ r.completion_timeout_ms)
    pub done : p.1 ≡ true → p.0.state ≡ result_ready
    pub same_state : p.1 ≡ false → p.0.state ≡ r.state

  KeepsClock-refl : (r : Runner a) (now : ℕ) → KeepsClock r now (r, false)
  KeepsClock-refl r now = record {
    request = refl;
    begun = refl;
    accepted = λ e. (e, refl, refl);
    done = λ e. cc;
    same_state = λ e. refl;
  }

  KeepsClock-trans :
      (r : Runner a) (now : ℕ) (p q : Runner a × Bool)
      → p.1 ≡ false
      → KeepsClock r now p
      → KeepsClock p.0 now q
      → KeepsClock r now q
  KeepsClock-trans r now p q f h k = record {
    request = k.request ∙ h.request;
    begun = k.begun ∙ h.begun;
    accepted = λ e. let x = h.accepted e in let y = k.accepted x.0 in (y.0, y.1 ∙ x.1, y.2 ∙ x.2);
    done = k.done;
    same_state = λ e. k.same_state e ∙ h.same_state f;
  }

  handle_result-KeepsClock :
      (r : Runner a) (x : ℕ) (result : CommandResult) (now : ℕ)
      → KeepsClock r now (handle_result r x result now)
  unfolding handle_result accept complete_
  handle_result-KeepsClock r x result now =
      if_induction (KeepsClock r now)
        (not (result.transaction_id == r.request.transaction_id)
          || not (same_transport result.transport_used (a.transport_type x))
          || not (result_is_consistent result))
        (λ _. KeepsClock-refl r now)
        (λ _.
          if_induction (KeepsClock r now) (is_in_progress result.result)
            (λ _.
              if_induction (λ (s : Runner a). KeepsClock r now (s, false)) r.accepted
                (λ _. KeepsClock-refl r now)
                (λ f. record {
                  request = refl;
                  begun = refl;
                  accepted = λ e. cc;
                  done = λ e. cc;
                  same_state = λ e. refl;
                }))
            (λ _.
              if_induction (KeepsClock r now)
                (transport_succeeded result.transport_status || is_answer result.result)
                (λ _. record {
                  request = refl;
                  begun = refl;
                  accepted = λ e. (e, refl, refl);
                  done = λ e. refl;
                  same_state = λ e. cc;
                })
                (λ _. record {
                  request = refl;
                  begun = refl;
                  accepted = λ e. (e, refl, refl);
                  done = λ e. cc;
                  same_state = λ e. refl;
                })))

  drain_transport-KeepsClock :
      (r : Runner a) (type : CommunicationTransport) (now : ℕ)
      → KeepsClock r now (drain_transport r type now)
  unfolding drain_transport
  drain_transport-KeepsClock r type now =
      if_induction (KeepsClock r now) (not (was_attempted r.listening type))
        (λ _. KeepsClock-refl r now)
        (λ _. elim (Option-cases (find_transport a r.registry type)) [
          | inl e ↦ rw (e, drain_transport) (KeepsClock-refl r now)
          | inr (x, e) ↦
              rw (e, drain_transport)
                (if_induction (KeepsClock r now) (not (a.has_result x r.world))
                  (λ _. KeepsClock-refl r now)
                  (λ _. elim (Option-cases (a.take_result x r.world).1) [
                    | inl f ↦ rw f (record {
                      request = refl;
                      begun = refl;
                      accepted = λ e. (e, refl, refl);
                      done = λ e. cc;
                      same_state = λ e. refl;
                    })
                    | inr (result, f) ↦ rw f (
                        let k =
                          handle_result-KeepsClock
                            (record r { world = (a.take_result x r.world).0 }) x result now in
                        record {
                          request = k.request;
                          begun = k.begun;
                          accepted = k.accepted;
                          done = k.done;
                          same_state = k.same_state;
                        })
                  ]))
        ])

  drain-KeepsClock :
      (policy : CommunicationPolicy) (r : Runner a) (now : ℕ)
      → KeepsClock r now (drain policy r now)
  unfolding drain
  drain-KeepsClock [] r now = KeepsClock-refl r now
  drain-KeepsClock (type ∷ policy) r now =
      let h = drain_transport-KeepsClock r type now in
      if_induction (KeepsClock r now) (drain_transport r type now).1
        (λ e. record {
          request = h.request;
          begun = h.begun;
          accepted = h.accepted;
          done = λ _. h.done e;
          same_state = λ f. cc;
        })
        (λ e.
          KeepsClock-trans r now (drain_transport r type now) _ e h (drain-KeepsClock policy _ now))

  -- The runner whose adapters have looped and whose transports have been drained.
  abbrev pub drained : Runner a → ℕ → Runner a × Bool
  drained r now = drain r.policy (record r { world = loop_all a r.registry now r.world }) now

-- A runner that is late by its own clocks completes after draining.
after_drain_late :
    {a : Adapters} (r : Runner a) (now : ℕ)
    → timed_out_ r now ≡ true
    → (after_drain r now).state ≡ result_ready
unfolding after_drain complete_failure_ complete_
after_drain_late r now late = ground (arith, late)

-- Draining a late runner leaves it late, or acknowledges it for the first time.
drained_late :
    {a : Adapters} (r : Runner a) (now : ℕ) (p : Runner a × Bool)
    → KeepsClock r now p
    → timed_out_ r now ≡ true
    → (timed_out_ p.0 now ≡ true) ⊎ ((r.accepted ≡ false) × (p.0.accepted ≡ true))
unfolding timed_out_
drained_late r now p k late = elim (Bool-cases r.accepted) [
  | inl e ↦ let same = k.accepted e in inl (ground (arith, late, e, same.0, same.1, same.2))
  | inr e ↦
      let request = k.request in
      let begun = k.begun in
      elim (Bool-cases p.0.accepted) [
        | inl f ↦ inr (e, f)
        | inr f ↦ inl (rw (f, request, begun) (ground (arith, late, e)))
      ]
]

-- A loop of an active transaction at or after its deadline (the timeout since the start, or the
-- completion budget since the acknowledgement, by the wrapping clock) leaves a result ready, but
-- where the transaction was not acknowledged and an acknowledgement arrives in this very loop.
pub loop_deadline :
    (a : Adapters) (r : Runner a) (now : ℕ)
    → is_active r.state ≡ true
    → timed_out_ r now ≡ true
    → ((loop r now).state ≡ result_ready)
      ⊎ ((r.accepted ≡ false) × ((drained r now).0.accepted ≡ true))
unfolding loop
loop_deadline a r now live late =
    let d = drained r now in
    let k =
      drain-KeepsClock r.policy (record r { world = loop_all a r.registry now r.world }) now in
    let k' : KeepsClock r now d = record {
      request = k.request;
      begun = k.begun;
      accepted = k.accepted;
      done = k.done;
      same_state = k.same_state;
    } in
    let Goal : Runner a → Type 0 =
      λ s. (s.state ≡ result_ready) ⊎ ((r.accepted ≡ false) × (d.0.accepted ≡ true)) in
    if_induction Goal (not (is_active r.state)) (λ e. absurd (ground arith))
      (λ _.
        if_induction Goal d.1 (λ e. inl (k.done e))
          (λ _. elim (drained_late r now d k' late) [
            | inl h ↦ inl (after_drain_late d.0 now h)
            | inr h ↦ inr h
          ]))
