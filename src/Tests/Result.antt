-- ===== src/Tests/Result.antt =====
-- tests/mqtt_result_decoder_test.cpp, on the model.
use esphome_communication_ne.Prelude.{
  ◌≡◌, ◌↔◌, refl, some, none, true, false, List, ◌∷◌, [], block, codes, arith, find_index?, str_eq,
  strnlen,
}
use esphome_communication_ne.Tracker.{interrupted}
use esphome_communication_ne.Wire.Decimal.{decimal_, digits_from}
use esphome_communication_ne.Wire.Printed.{applied}
use esphome_communication_ne.Wire.Reader.{readers, chars, members, object}
use esphome_communication_ne.Wire.Result
use esphome_communication_ne.Wire.Result.RoundTrip.{
  ErrorMember, ResultMember, add_member, print_result, decode_mqtt_result-print,
}
use esphome_communication_ne.Wire.Result.Skip.{
  skip_chars, skip_literal, skip_digits, skip_number, skip_from, skip_items, skip_inside,
  skip_levels, skip_,
}
use esphome_communication_ne.Wire.Result.SkipPrint.{skip-print}
use esphome_communication_ne.Wire.Result.Stages.{Observes}
use esphome_communication_ne.Wire.Result.Values
use esphome_communication_ne.Wire.Result.Values.{Value}
use esphome_communication_ne.Wire.Result.{
  MqttResultObservation, empty_result, decode_mqtt_result, observation_of,
}

program : Unit {0}
unfolding find_index? str_eq strnlen decimal_ digits_from readers chars members object
    Result.string_ Result.error_member Result.error_ Result.member Result.stage_of observation_of
    Result.parse decode_mqtt_result skip_chars skip_literal skip_digits skip_number skip_from
    skip_items skip_inside skip_levels skip_ Values.print Values.print_values Values.print_members
    Values.Fits Values.AllFit Values.AllFitMembers
program = tt

-- {1:[-0.5,"a",true]}, with a number as key.
abbrev estimate : Value
estimate =
    Value.object (Value.number false (codes "1") none)
      (Value.array (Value.number true (codes "0") (some (codes "5"))) (
        Values.Values.item
          (Value.string (Values.Letter.plain b'a' ∷ Values.Letter.escaped b'n' ∷ []))
          (Values.Values.item (Value.word Values.Word.true_word) Values.Values.end)))
      Values.Members.done

skip-print_example : skip_ (Values.print estimate (codes "7 x")) ≡ some (tt, codes "7 x")
unfolding program
skip-print_example = skip-print estimate (codes "7 x") (ground arith) tt

abbrev others : List ResultMember
others =
    ResultMember.execution estimate
    ∷ ResultMember.error (ErrorMember.other (codes "message") estimate)
        (ErrorMember.code (codes "interrupted") ∷ []) (codes "interrupted")
    ∷ ResultMember.transaction_id (codes "42") 42
    ∷ []

abbrev interruption : MqttResultObservation
interruption = record { transaction_id = 42; stage = interrupted }

observed :
    decode_mqtt_result (block (print_result (ResultMember.status (codes "failed")) others))
    ≡ some interruption
unfolding program
observed = refl

decode_mqtt_result-print_example :
    (decode_mqtt_result (block (print_result (ResultMember.status (codes "failed")) others))
      ≡ some interruption)
    ↔ Observes
        (applied add_member empty_result (ResultMember.status (codes "failed")) others)
        interruption
unfolding program
decode_mqtt_result-print_example =
    decode_mqtt_result-print (ResultMember.status (codes "failed")) others interruption
      (ground arith) (omega arith)

-- A key that is no string, and a backslash before the byte 0, are passed over.
lenient :
    (skip_ (codes "{1:2}") ≡ some (tt, [])) × (skip_ (b'"' ∷ b'\\' ∷ 0 ∷ b'"' ∷ []) ≡ some (tt, []))
unfolding program
lenient = (refl, refl)
