-- ===== src/Tests/Tracker.antt =====
-- tests/transaction_tracker_test.cpp, on the model.
use esphome_communication_ne.Prelude.{
  ℕ, ◌≡◌, ◌⊎◌, refl, true, false, some, none, ◌∷◌, [], find_index?, sub32, arith, add32, ltb,
  if◌then◌else◌,
}
use esphome_communication_ne.Tracker.{
  TransactionTracker, TransactionEvent, TransactionStage, in_progress, succeeded, failed, expired,
  interrupted, accepted, unknown_transaction, stale_session, already_terminal, empty_tracker,
  slot_at, holds, begin, observe, record_event, drop_progress, confirm_interruption, expire,
  take_event, observe_result, find_, contains, begin_call, observe_call, take_call, after, run,
}
use esphome_communication_ne.Tracker.Deadline.{expire_deadline}
use esphome_communication_ne.Tracker.Invariant.{IsValid, run-IsValid}
use esphome_communication_ne.Tracker.Terminal.{
  IsPending, OnlyAt, after-IsPending, observe_accepted, confirm_interruption_accepted,
}

program : Unit {0}
unfolding find_index? find_ contains begin observe record_event drop_progress confirm_interruption
    expire take_event observe_result after run
program = tt

abbrev begun : TransactionTracker
begun = run (begin_call 7 9 100 200 ∷ []) (empty_tracker 1)

abbrev finished : TransactionTracker
finished =
    run
      (begin_call 7 9 100 200
        ∷ observe_call 7 9 in_progress 130
        ∷ observe_call 7 9 in_progress 140
        ∷ observe_call 7 9 succeeded 150
        ∷ [])
      (empty_tracker 1)

abbrev event : TransactionStage → ℕ → TransactionEvent
event stage elapsed = record { transaction_id = 7; stage = stage; elapsed_ms = elapsed }

refusals :
    ((begin (empty_tracker 1) 0 9 100 200).1 ≡ false)
    × ((begin (empty_tracker 1) 7 0 100 200).1 ≡ false)
    × ((begin begun 7 9 100 200).1 ≡ false)
    × ((begin begun 8 9 100 200).1 ≡ false)
    × ((observe begun 7 10 succeeded 120).1 ≡ stale_session)
    × ((observe begun 8 9 succeeded 120).1 ≡ unknown_transaction)
    × ((observe finished 7 9 failed 160).1 ≡ already_terminal)
unfolding program
refusals = (refl, refl, refl, refl, refl, refl, refl)

events :
    ((take_event finished).1 ≡ some (event in_progress 40))
    × ((take_event (take_event finished).0).1 ≡ some (event succeeded 50))
    × (contains (take_event (take_event finished).0).0 7 ≡ false)
unfolding program
events = (refl, refl, refl)

-- the clock wraps between the begin and the deadline
wrapped :
    ((take_event (expire 0x5 (begin (empty_tracker 1) 8 9 0xffff_fff0 32).0)).1 ≡ none)
    × ((take_event (expire 0x20 (begin (empty_tracker 1) 8 9 0xffff_fff0 32).0)).1
        ≡ some (record { transaction_id = 8; stage = expired; elapsed_ms = 48 }))
unfolding program
wrapped = (refl, refl)

run-IsValid_example : IsValid finished
run-IsValid_example = run-IsValid 1 (
    begin_call 7 9 100 200
    ∷ observe_call 7 9 in_progress 130
    ∷ observe_call 7 9 in_progress 140
    ∷ observe_call 7 9 succeeded 150
    ∷ [])

finished-IsPending : IsPending 7 (event succeeded 50) finished
unfolding program
finished-IsPending = record { index = 0; held = refl; pending = refl; outcome = refl }

after-IsPending_example :
    IsPending 7 (event succeeded 50) (after take_call finished)
    ⊎ ((take_call ≡ take_call)
        × ((take_event finished).1 ≡ some (event succeeded 50))
        × (contains (after take_call finished) 7 ≡ false))
after-IsPending_example =
    after-IsPending 7 (event succeeded 50) take_call finished run-IsValid_example finished-IsPending

begun_accepts :
    ((observe begun 7 9 succeeded 150).1 ≡ accepted)
    × ((confirm_interruption begun 7 9 150).1 ≡ accepted)
unfolding program
begun_accepts = (refl, refl)

observe_accepted_example :
    (i : ℕ) × (find_ begun 7 ≡ some i)
    × ((slot_at begun i).source_boot_id ≡ 9)
    × ((slot_at begun i).terminal_pending ≡ false)
    × OnlyAt begun (observe begun 7 9 succeeded 150).0 i (record (slot_at begun i) {
      terminal = event succeeded (sub32 150 (slot_at begun i).started_ms);
      terminal_pending = true;
    })
observe_accepted_example = observe_accepted begun 7 9 150 succeeded begun_accepts.0

confirm_interruption_accepted_example :
    (i : ℕ) × (find_ begun 7 ≡ some i)
    × ((slot_at begun i).source_boot_id ≡ 9)
    × ((slot_at begun i).terminal_pending ≡ false)
    × OnlyAt begun (confirm_interruption begun 7 9 150).0 i (record (slot_at begun i) {
      terminal = event interrupted (sub32 150 (slot_at begun i).started_ms);
      terminal_pending = true;
      progress_pending = false;
    })
confirm_interruption_accepted_example = confirm_interruption_accepted begun 7 9 150 begun_accepts.1

begun_slot :
    (holds 7 (slot_at begun 0) ≡ true)
    × ((slot_at begun 0).terminal_pending ≡ false)
    × ((slot_at begun 0).started_ms ≡ 100)
    × ((slot_at begun 0).timeout_ms ≡ 200)
unfolding program
begun_slot = (refl, refl, refl, refl)

expire_deadline_example : slot_at (expire (add32 (slot_at begun 0).started_ms 250) begun) 0 ≡ (
    if ltb 250 (slot_at begun 0).timeout_ms
    then slot_at begun 0
    else record (slot_at begun 0) { terminal = event expired 250; terminal_pending = true })
expire_deadline_example =
    expire_deadline begun 7 0 250 begun_slot.0 begun_slot.1 (omega (arith, begun_slot.2))
      (omega arith)
