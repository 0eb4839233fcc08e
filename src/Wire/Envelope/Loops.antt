-- ===== src/Wire/Envelope/Loops.antt =====
-- mqtt_envelope_decoder.h: every member of an object consumes, so the loops end by themselves.
use Prim.Native.Nat.{◌*◌}
use esphome_communication_ne.Prelude.{
  ℕ, ◌+◌, ◌-◌, ◌≤◌, ◌≡◌, some, [], ◌∷◌, length, Bytes, arith, Option-cases, inl, inr,
}
use esphome_communication_ne.Wire.Envelope.{
  Two, Envelope, both, string_, source_member, source_, target_member, target_, command_member,
  command_, timeout_digits, timeout_, member,
}
use esphome_communication_ne.Wire.Reader.{space_, readers}
use esphome_communication_ne.Wire.Shrinks.{
  Shrinks, Keeps, consuming, space-le, object-Shrinks, fail-Keeps, lift-Keeps, pure-Keeps,
  >>=-Shrinks,
}

pub source_member-Shrinks : (s : Two Bytes ℕ) → Shrinks (source_member s)
unfolding source_member string_
source_member-Shrinks s = search consuming depth 20

pub target_member-Shrinks : (s : Two Bytes Bytes) → Shrinks (target_member s)
unfolding target_member string_
target_member-Shrinks s = search consuming depth 20

pub command_member-Shrinks : (s : Two Bytes (Unit {0})) → Shrinks (command_member s)
unfolding command_member string_
command_member-Shrinks s = search consuming depth 20

both-Keeps : {A B : Type 0} (s : Two A B) → Keeps (both s)
both-Keeps s = elim (Option-cases s.first) [
  | inl e ↦ rw e fail-Keeps
  | inr (a, e) ↦ elim (Option-cases s.second) [
    | inl f ↦ rw (e, f) fail-Keeps
    | inr (b, f) ↦ rw (e, f) (pure-Keeps (a, b))
  ]
]

source-Shrinks : Shrinks source_
unfolding source_
source-Shrinks = search (>>=-Shrinks, object-Shrinks, source_member-Shrinks, both-Keeps)

target-Shrinks : Shrinks target_
unfolding target_
target-Shrinks = search (>>=-Shrinks, object-Shrinks, target_member-Shrinks, both-Keeps)

command-Shrinks : Shrinks command_
unfolding command_
command-Shrinks = search (>>=-Shrinks, object-Shrinks, command_member-Shrinks, lift-Keeps)

timeout_digits-le :
    (value digits : ℕ) (r : Bytes) (v d : ℕ) (rest : Bytes)
    → timeout_digits value digits r ≡ some (v, d, rest)
    → length rest ≤ length r
unfolding timeout_digits
timeout_digits-le value digits [] v d rest h = ground arith
timeout_digits-le value digits (c ∷ r) v d rest h =
    ground (arith, timeout_digits-le (value * 10 + (c - b'0')) (digits + 1) r v d rest)

timeout-Keeps : Keeps timeout_
unfolding timeout_ readers
timeout-Keeps = record {
  no_more = λ r a rest h. elim (Option-cases (timeout_digits 0 0 (space_ r))) [
    | inl e ↦ ground arith
    | inr ((v, d, r'), e) ↦ ground (arith, space-le r, timeout_digits-le 0 0 (space_ r) v d r' e)
  ];
}

pub member-Shrinks : (e : Envelope) → Shrinks (member e)
unfolding member string_
member-Shrinks e =
    search (consuming, source-Shrinks, target-Shrinks, command-Shrinks, timeout-Keeps) depth 30
