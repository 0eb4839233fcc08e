-- ===== src/Wire/Result.antt =====
-- mqtt_result_decoder.h: the result of a command, as the executor reports it.
pub mod Skip
pub mod Values
pub mod Skipped
pub mod SkipPrint
pub mod Loops
pub mod Stages
pub mod RoundTrip
use esphome_communication_ne.Prelude.{
  ℕ, zero, suc, ◌+◌, Bool, true, false, not, ◌&&◌, ◌||◌, Option, none, some, [], ◌∷◌, ◌==◌, ltb,
  if◌then◌else◌, length, Bytes, str_eq, Span, null, block, codes,
}
use esphome_communication_ne.Tracker
use esphome_communication_ne.Tracker.{
  TransactionStage, TransactionObserveStatus, TransactionTracker, in_progress, succeeded, rejected,
  failed, expired, interrupted,
}
use esphome_communication_ne.Wire.Decimal.{decimal_}
use esphome_communication_ne.Wire.Reader.{
  Reader, ◌>>=◌, ◌>>◌, pure, lift, guard, space_, expect, quoted, object,
}
use esphome_communication_ne.Wire.Result.Skip.{skip_}

pub record MqttResultObservation : Type 0 where
  pub transaction_id : ℕ
  pub stage : TransactionStage

abbrev pub is_text : ℕ → Bool
is_text c = not (c == b'\\' || ltb c 0x20)

unfoldable pub string_ : ℕ → Reader Bytes
string_ = quoted is_text

abbrev pub is_none : {A : Type 0} → Option A → Bool
is_none none = true
is_none (some a) = false

-- The body of the loop of `error_`: the code that has been read.
unfoldable pub error_member : Option Bytes → Reader (Option Bytes)
error_member s = do
  key ← string_ 32
  expect b':'
  if str_eq key (codes "code")
      then (guard (is_none s) >> (string_ 32 >>= λ code. pure (some code)))
      else (skip_ >> pure s)

unfoldable pub error_ : Reader Bytes
error_ = object error_member none >>= lift

-- The locals of `decode`; a bit of `seen` is set exactly where the field is `some`.
pub record Result : Type 0 where
  pub transaction_id : Option ℕ
  pub status : Option Bytes
  pub execution : Option (Unit {0})
  pub remote_state : Option (Unit {0})
  pub error : Option Bytes

abbrev pub empty_result : Result
empty_result = record {
  transaction_id = none;
  status = none;
  execution = none;
  remote_state = none;
  error = none;
}

-- A round of the loop of `decode`, up to the comma.
unfoldable pub member : Result → Reader Result
member s = do
  key ← string_ 32
  expect b':'
  if str_eq key (codes "transaction_id")
      then (string_ 21 >>= λ t. lift (decimal_ t) >>= λ n.
          guard (is_none s.transaction_id) >> pure (record s { transaction_id = some n }))
      else if str_eq key (codes "result")
      then (string_ 20 >>= λ t. guard (is_none s.status) >> pure (record s { status = some t }))
      else if str_eq key (codes "execution")
      then (skip_ >> (guard (is_none s.execution) >> pure (record s { execution = some tt })))
      else if str_eq key (codes "remote_state")
      then (skip_ >> (guard (is_none s.remote_state) >> pure (record s { remote_state = some tt })))
      else if str_eq key (codes "error")
      then (error_ >>= λ code. guard (is_none s.error) >> pure (record s { error = some code }))
      else guard false >> pure s

-- `strcmp(error, "interrupted") == 0`, where no error leaves the text empty.
abbrev pub is_interruption : Option Bytes → Bool
is_interruption none = false
is_interruption (some code) = str_eq code (codes "interrupted")

unfoldable pub stage_of : Bytes → Option Bytes → Option TransactionStage
stage_of status error =
    if str_eq status (codes "in_progress")
    then some in_progress
    else if str_eq status (codes "succeeded")
    then some succeeded
    else if str_eq status (codes "rejected")
    then some rejected
    else if str_eq status (codes "failed")
    then some (if is_interruption error then interrupted else failed)
    else if str_eq status (codes "expired")
    then some expired
    else none

unfoldable pub observation_of : Result → Option MqttResultObservation
observation_of s = elim s.transaction_id [
  | none ↦ none
  | some id ↦ elim s.status [
    | none ↦ none
    | some status ↦ elim (stage_of status s.error) [
      | none ↦ none
      | some stage ↦ some (record { transaction_id = id; stage = stage })
    ]
  ]
]

unfoldable pub parse : Bytes → Option MqttResultObservation
parse payload = elim (object member empty_result payload) [
  | none ↦ none
  | some (s, rest) ↦ elim (space_ rest) [ [] ↦ observation_of s | c ∷ r ↦ none ]
]

unfoldable pub decode_mqtt_result : Span → Option MqttResultObservation
decode_mqtt_result (null n) = none
decode_mqtt_result (block payload) =
    if length payload == 0 || ltb 1280 (length payload) then none else parse payload

unfoldable pub correlate_mqtt_result :
    TransactionTracker
    → MqttResultObservation
    → ℕ
    → ℕ
    → TransactionTracker × TransactionObserveStatus
correlate_mqtt_result tracker result expected_boot_id now_ms =
    Tracker.observe tracker result.transaction_id expected_boot_id result.stage now_ms
