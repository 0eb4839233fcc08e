-- ===== src/Wire/Result/RoundTrip.antt =====
-- mqtt_result_decoder.h: a result that an executor prints is decoded to its id and its stage.
use esphome_communication_ne.Prelude.{
  ℕ, ◌≤◌, ◌≡◌, refl, false, Option, none, some, List, [], ◌∷◌, ◌++◌, length, Bytes, arith, codes,
  str_eq, block, inl, inr, ◌↔◌,
}
use esphome_communication_ne.Wire.Decimal.{decimal_}
use esphome_communication_ne.Wire.Printed.{
  print_string, IsText, IsDelimiter, print_members, applied, AllFit, chars-print, object-print,
}
use esphome_communication_ne.Wire.Reader.{chars, readers}
use esphome_communication_ne.Wire.Result.{
  Result, MqttResultObservation, empty_result, is_text, string_, error_member, error_, member,
  observation_of, parse, decode_mqtt_result,
}
use esphome_communication_ne.Wire.Result.Loops.{error_member-Shrinks, member-Shrinks}
use esphome_communication_ne.Wire.Result.SkipPrint.{skip-print}
use esphome_communication_ne.Wire.Result.Stages.{Observes, observation_of_iff}
use esphome_communication_ne.Wire.Result.Values
use esphome_communication_ne.Wire.Result.Values.{Value, IsStop, IsStop-Stops}

-- A member of an error: its code, or another key with any value.
pub data ErrorMember : Type 0 where
  code : Bytes → ErrorMember
  other : Bytes → Value → ErrorMember

abbrev pub print_error_member : ErrorMember → Bytes → Bytes
print_error_member (code t) rest = print_string (codes "code") (b':' ∷ print_string t rest)
print_error_member (other key v) rest = print_string key (b':' ∷ Values.print v rest)

abbrev pub add_error : Option Bytes → ErrorMember → Option Bytes
add_error s (code t) = some t
add_error s (other key v) = s

abbrev pub ErrorFits : Option Bytes → ErrorMember → Type 0
ErrorFits s (code t) = IsText is_text 32 t × (s ≡ none)
ErrorFits s (other key v) =
    IsText is_text 32 key × (str_eq key (codes "code") ≡ false) × Values.Fits v 9

key-print :
    (key rest : Bytes)
    → IsText is_text 32 key
    → chars is_text 32 0 (key ++ b'"' ∷ rest) ≡ some (key, rest)
key-print key rest h = chars-print is_text 32 key rest h

IsStop-delimiter : {c : ℕ} → IsDelimiter c → IsStop c
IsStop-delimiter (inl e) = inl e
IsStop-delimiter (inr e) = inr (inl e)

error_member-print :
    (s : Option Bytes) (m : ErrorMember) (c : ℕ) (rest : Bytes)
    → ErrorFits s m
    → IsDelimiter c
    → error_member s (print_error_member m (c ∷ rest)) ≡ some (add_error s m, c ∷ rest)
unfolding error_member string_ readers str_eq
error_member-print s (code t) c rest h l = ground (
  arith,
  key-print (codes "code") (b':' ∷ print_string t (c ∷ rest)) (ground arith),
  chars-print is_text 32 t (c ∷ rest) h.0,
  h.1,
)
error_member-print s (other key v) c rest h l = ground (
  arith,
  key-print key (b':' ∷ Values.print v (c ∷ rest)) h.0,
  h.1,
  skip-print v (c ∷ rest) h.2 (IsStop-Stops v c rest (IsStop-delimiter l)),
)

starts_error :
    (m : ErrorMember) (rest : Bytes) → (r : Bytes) × (print_error_member m rest ≡ b'"' ∷ r)
starts_error (code t) rest = (_, refl)
starts_error (other key v) rest = (_, refl)

error-print :
    (m : ErrorMember) (ms : List ErrorMember) (rest t : Bytes)
    → AllFit add_error ErrorFits none m ms
    → applied add_error none m ms ≡ some t
    → error_ (b'{' ∷ print_members print_error_member m ms rest) ≡ some (t, rest)
unfolding error_ readers
error-print m ms rest t h e = ground (
  arith,
  object-print print_error_member add_error ErrorFits error_member error_member-Shrinks
      error_member-print starts_error none m ms rest h,
)

-- A member of a result, with the values that it stands for.
pub data ResultMember : Type 0 where
  transaction_id : Bytes → ℕ → ResultMember
  status : Bytes → ResultMember
  execution : Value → ResultMember
  remote_state : Value → ResultMember
  error : ErrorMember → List ErrorMember → Bytes → ResultMember

abbrev print_key : Bytes → Bytes → Bytes
print_key key rest = print_string key (b':' ∷ rest)

abbrev pub print_member : ResultMember → Bytes → Bytes
print_member (transaction_id t n) rest = print_key (codes "transaction_id") (print_string t rest)
print_member (status t) rest = print_key (codes "result") (print_string t rest)
print_member (execution v) rest = print_key (codes "execution") (Values.print v rest)
print_member (remote_state v) rest = print_key (codes "remote_state") (Values.print v rest)
print_member (error m ms t) rest =
    print_key (codes "error") (b'{' ∷ print_members print_error_member m ms rest)

abbrev pub add_member : Result → ResultMember → Result
add_member s (transaction_id t n) = record s { transaction_id = some n }
add_member s (status t) = record s { status = some t }
add_member s (execution v) = record s { execution = some tt }
add_member s (remote_state v) = record s { remote_state = some tt }
add_member s (error m ms t) = record s { error = some t }

-- The member is new in the result, its texts are in bounds, and what it prints is its values.
abbrev pub Fits : Result → ResultMember → Type 0
Fits s (transaction_id t n) =
    IsText is_text 21 t × (decimal_ t ≡ some n) × (s.transaction_id ≡ none)
Fits s (status t) = IsText is_text 20 t × (s.status ≡ none)
Fits s (execution v) = Values.Fits v 9 × (s.execution ≡ none)
Fits s (remote_state v) = Values.Fits v 9 × (s.remote_state ≡ none)
Fits s (error m ms t) =
    AllFit add_error ErrorFits none m ms × (applied add_error none m ms ≡ some t) × (s.error ≡ none)

member-print :
    (s : Result) (m : ResultMember) (c : ℕ) (rest : Bytes)
    → Fits s m
    → IsDelimiter c
    → member s (print_member m (c ∷ rest)) ≡ some (add_member s m, c ∷ rest)
unfolding member string_ readers str_eq
member-print s (transaction_id t n) c rest h l = ground (
  arith,
  key-print (codes "transaction_id") (b':' ∷ print_string t (c ∷ rest)) (ground arith),
  chars-print is_text 21 t (c ∷ rest) h.0,
  h.1,
  h.2,
)
member-print s (status t) c rest h l = ground (
  arith,
  key-print (codes "result") (b':' ∷ print_string t (c ∷ rest)) (ground arith),
  chars-print is_text 20 t (c ∷ rest) h.0,
  h.1,
)
member-print s (execution v) c rest h l = ground (
  arith,
  key-print (codes "execution") (b':' ∷ Values.print v (c ∷ rest)) (ground arith),
  skip-print v (c ∷ rest) h.0 (IsStop-Stops v c rest (IsStop-delimiter l)),
  h.1,
)
member-print s (remote_state v) c rest h l = ground (
  arith,
  key-print (codes "remote_state") (b':' ∷ Values.print v (c ∷ rest)) (ground arith),
  skip-print v (c ∷ rest) h.0 (IsStop-Stops v c rest (IsStop-delimiter l)),
  h.1,
)
member-print s (error m ms t) c rest h l = ground (
  arith,
  key-print (codes "error") (b':' ∷ b'{' ∷ print_members print_error_member m ms (c ∷ rest))
      (ground arith),
  error-print m ms (c ∷ rest) t h.0 h.1,
  h.2,
)

starts_member : (m : ResultMember) (rest : Bytes) → (r : Bytes) × (print_member m rest ≡ b'"' ∷ r)
starts_member (transaction_id t n) rest = (_, refl)
starts_member (status t) rest = (_, refl)
starts_member (execution v) rest = (_, refl)
starts_member (remote_state v) rest = (_, refl)
starts_member (error m ms t) rest = (_, refl)

abbrev pub print_result : ResultMember → List ResultMember → Bytes
print_result m ms = b'{' ∷ print_members print_member m ms []

printed-observation :
    (m : ResultMember) (ms : List ResultMember)
    → AllFit add_member Fits empty_result m ms
    → length (print_result m ms) ≤ 1280
    → decode_mqtt_result (block (print_result m ms))
      ≡ observation_of (applied add_member empty_result m ms)
unfolding decode_mqtt_result parse readers
printed-observation m ms h fits = ground (
  arith,
  object-print print_member add_member Fits member member-Shrinks member-print starts_member
      empty_result m ms [] h,
)

-- A result that is printed with its members in any order, each once and within its bounds, with any
-- values of at most nine levels as execution and remote state and any further members in its error,
-- and of at most 1280 bytes, is decoded to an id and a stage exactly if the id is the one that is
-- printed and the printed status is the text of the stage: in_progress, succeeded, rejected, failed
-- or expired, where failed with the error code interrupted is an interruption. With no id, no status
-- or any other status it is refused.
pub decode_mqtt_result-print :
    (m : ResultMember) (ms : List ResultMember) (o : MqttResultObservation)
    → AllFit add_member Fits empty_result m ms
    → length (print_result m ms) ≤ 1280
    → (decode_mqtt_result (block (print_result m ms)) ≡ some o)
      ↔ Observes (applied add_member empty_result m ms) o
decode_mqtt_result-print m ms o h fits =
    rw (printed-observation m ms h fits)
      (observation_of_iff (applied add_member empty_result m ms) o)
