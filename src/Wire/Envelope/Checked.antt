-- ===== src/Wire/Envelope/Checked.antt =====
-- mqtt_envelope_decoder.h: what the source, the target, the command and the timeout are, wherever
-- they are read.
use Prim.Native.Nat.{◌*◌}
use esphome_communication_ne.Prelude.{
  ℕ, ◌+◌, ◌-◌, ◌^◌, ◌≤◌, ◌<◌, ◌≡◌, false, Option, none, some, [], ◌∷◌, Bytes, arith, Option-cases,
  inl, inr,
}
use esphome_communication_ne.Wire.Decimal.{decimal_, decimal-eq-some_iff, uint64_max}
use esphome_communication_ne.Wire.Envelope.{
  Two, no_members, both, is_visible, string_, source_member, source_, target_member, target_,
  command_member, command_, timeout_digits, timeout_, contains,
}
use esphome_communication_ne.Wire.Printed.{IsText}
use esphome_communication_ne.Wire.Reader.{Reader, ◌>>=◌, lift, expect, space_, object}
use esphome_communication_ne.Wire.Yields.{
  Yields, >>=-Yields, >>-Yields, lift-Yields, pure-Yields, fail-Yields, if-Yields, guard-Yields,
  quoted-Yields, object-Yields,
}

abbrev pub IfSome : {A : Type 0} → (A → Type 0) → Option A → Type 0
IfSome P none = Unit
IfSome P (some a) = P a

-- A text of 1 to 63 visible bytes, with no quote and no backslash.
abbrev pub IsName : Bytes → Type 0
IsName = IsText is_visible 64

-- A number that is not zero and fits `uint64_t`.
abbrev pub IsId : ℕ → Type 0
IsId n = (0 < n) × (n ≤ uint64_max)

-- A reply topic: 1 to 192 visible bytes and no wildcard.
abbrev pub IsReply : Bytes → Type 0
IsReply t = IsText is_visible 193 t × (contains b'+' t ≡ false) × (contains b'#' t ≡ false)

pub decimal-IsId : (t : Bytes) (n : ℕ) → decimal_ t ≡ some n → IsId n
decimal-IsId t n h = let d = (decimal-eq-some_iff t n).0 h in (d.2, d.3)

abbrev TwoSound : {A B : Type 0} → (A → Type 0) → (B → Type 0) → Two A B → Type 0
TwoSound P Q s = IfSome P s.first × IfSome Q s.second

both-Yields :
    {A B : Type 0} (P : A → Type 0) (Q : B → Type 0) (s : Two A B)
    → TwoSound P Q s
    → Yields (λ p. P p.0 × Q p.1) (both s)
both-Yields P Q s h = elim (Option-cases s.first) [
  | inl e ↦ rw e fail-Yields
  | inr (a, e) ↦ elim (Option-cases s.second) [
    | inl f ↦ rw (e, f) fail-Yields
    | inr (b, f) ↦ rw (e, f) (pure-Yields (a, b) (rw e at h.0, rw f at h.1))
  ]
]

module _ {B : Type 0} {Q : B → Type 0} where
  key-Yields : (f : Bytes → Reader B) → ((t : Bytes) → Yields Q (f t)) → Yields Q (string_ 32 >>= f)
  key-Yields f h = >>-Yields (string_ 32) f h

  name-Yields :
      (f : Bytes → Reader B)
      → ((t : Bytes) → IsName t → Yields Q (f t))
      → Yields Q (string_ 64 >>= f)
  unfolding string_
  name-Yields f h = >>=-Yields IsName (string_ 64) f (quoted-Yields is_visible 64) h

  pub expect-Yields :
      (c : ℕ) (f : Unit {0} → Reader B)
      → ((u : Unit {0}) → Yields Q (f u))
      → Yields Q (expect c >>= f)
  expect-Yields c f h = >>-Yields (expect c) f h

  pub id-Yields :
      (t : Bytes) (f : ℕ → Reader B)
      → ((n : ℕ) → IsId n → Yields Q (f n))
      → Yields Q (lift (decimal_ t) >>= f)
  id-Yields t f h = lift-Yields (decimal_ t) f (λ n e. h n (decimal-IsId t n e))

ruleset yielding =
    (key-Yields, name-Yields, expect-Yields, id-Yields, guard-Yields, if-Yields, pure-Yields)

source_member-Yields :
    (s : Two Bytes ℕ) → TwoSound IsName IsId s → Yields (TwoSound IsName IsId) (source_member s)
unfolding source_member
source_member-Yields s h = search yielding depth 20

target_member-Yields :
    (s : Two Bytes Bytes)
    → TwoSound IsName IsName s
    → Yields (TwoSound IsName IsName) (target_member s)
unfolding target_member
target_member-Yields s h = search yielding depth 20

command_member-Yields :
    (s : Two Bytes (Unit {0}))
    → IfSome IsName s.first
    → Yields (λ (t : Two Bytes (Unit {0})). IfSome IsName t.first) (command_member s)
unfolding command_member
command_member-Yields s h = search yielding depth 20

pub source-Yields : Yields (λ (p : Bytes × ℕ). IsName p.0 × IsId p.1) source_
unfolding source_
source-Yields =
    >>=-Yields (TwoSound IsName IsId) (object source_member no_members) both
      (object-Yields (TwoSound IsName IsId) source_member source_member-Yields no_members (tt, tt))
      (both-Yields IsName IsId)

pub target-Yields : Yields (λ (p : Bytes × Bytes). IsName p.0 × IsName p.1) target_
unfolding target_
target-Yields =
    >>=-Yields (TwoSound IsName IsName) (object target_member no_members) both
      (object-Yields (TwoSound IsName IsName) target_member target_member-Yields no_members
        (tt, tt))
      (both-Yields IsName IsName)

lift-IsName : (o : Option Bytes) → IfSome IsName o → Yields IsName (lift o)
lift-IsName none h = fail-Yields
lift-IsName (some t) h = pure-Yields t h

pub command-Yields : Yields IsName command_
unfolding command_
command-Yields =
    >>=-Yields (λ (t : Two Bytes (Unit {0})). IfSome IsName t.first)
      (object command_member no_members) (λ s. lift s.first)
      (object-Yields (λ (t : Two Bytes (Unit {0})). IfSome IsName t.first) command_member
        command_member-Yields no_members tt)
      (λ s h. lift-IsName s.first h)

timeout_digits-le :
    (value digits : ℕ) (r : Bytes) (v d : ℕ) (rest : Bytes)
    → value < 2 ^ 32
    → timeout_digits value digits r ≡ some (v, d, rest)
    → v < 2 ^ 32
unfolding timeout_digits
timeout_digits-le value digits [] v d rest b h = ground arith
timeout_digits-le value digits (c ∷ r) v d rest b h =
    ground (arith, timeout_digits-le (value * 10 + (c - b'0')) (digits + 1) r v d rest)

abbrev pub IsTimeout : ℕ → Type 0
IsTimeout n = (0 < n) × (n < 2 ^ 32)

pub IsTimeout-Yields : Yields IsTimeout timeout_
unfolding timeout_
IsTimeout-Yields = record {
  result = λ r a rest h. elim (Option-cases (timeout_digits 0 0 (space_ r))) [
    | inl e ↦ absurd (ground arith)
    | inr ((v, d, r'), e) ↦ ground (arith, timeout_digits-le 0 0 (space_ r) v d r' (omega arith) e)
  ];
}
