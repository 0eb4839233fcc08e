-- ===== src/Tests/Mailbox.antt =====
-- tests/mqtt_mailbox_test.cpp, on the model.
use esphome_communication_ne.Mailbox.{
  Event, put_event, take_event, empty_mailbox, put, take, peek, release, after, stored, given,
  from_option,
}
use esphome_communication_ne.Mailbox.Delivery.{
  Accepts, all_stored, all_given, run, run-all_given, put-Accepts, take-put,
}
use esphome_communication_ne.Prelude.{
  ◌≡◌, ◌⊎◌, refl, true, false, some, List, ◌∷◌, [], ◌++◌, Bytes, null, block, codes, arith, add32,
}

program : Unit {0}
unfolding put take peek release after stored given all_stored all_given run
program = tt

abbrev topic : Bytes
topic = codes "lamp/command"

abbrev payload : Bytes
payload = codes "on"

abbrev events : List Event
events =
    put_event (block topic) (block payload)
    ∷ put_event (block topic) (block payload)
    ∷ take_event false 192 false 1
    ∷ take_event false 193 false 1280
    ∷ put_event (block topic) (null 2)
    ∷ put_event (block topic) (null 0)
    ∷ []

counted :
    ((run empty_mailbox events).dropped ≡ 2)
    × ((run empty_mailbox events).occupied ≡ true)
    × (all_given empty_mailbox events ≡ record { topic = topic; payload = payload } ∷ [])
unfolding program
counted = (refl, refl, refl)

stored_first : (put empty_mailbox (block topic) (block payload)).1 ≡ true
unfolding program
stored_first = refl

run-all_given_example :
    all_stored empty_mailbox events
    ≡ all_given empty_mailbox events ++ from_option (peek (run empty_mailbox events))
run-all_given_example = run-all_given events

put-Accepts_example :
    (Accepts empty_mailbox (block topic) (null 0)
      × (put empty_mailbox (block topic) (null 0)
          ≡ (record empty_mailbox { topic = topic; payload = []; occupied = true }, true)))
    ⊎ ((¬ Accepts empty_mailbox (block topic) (null 0))
        × (put empty_mailbox (block topic) (null 0)
            ≡ (record empty_mailbox { dropped = add32 empty_mailbox.dropped 1 }, false)))
put-Accepts_example = put-Accepts empty_mailbox (block topic) (null 0)

nulls :
    ((put empty_mailbox (null 4) (block payload)).1 ≡ false)
    × ((put empty_mailbox (block topic) (null 2)).1 ≡ false)
    × ((put empty_mailbox (block topic) (null 0)).1 ≡ true)
unfolding program
nulls = (refl, refl, refl)

take-put_example :
    ((take (put empty_mailbox (block topic) (block payload)).0 false 193 false 1280).1
      ≡ some (record { topic = topic; payload = payload }))
    × ((take (put empty_mailbox (block topic) (block payload)).0 false 193 false 1280).0.occupied
        ≡ false)
take-put_example =
    take-put empty_mailbox topic payload 193 1280 stored_first (omega arith) (omega arith)
