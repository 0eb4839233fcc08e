-- ===== src/Canonical/Unambiguous.antt =====
-- canonical_command.h: when a command is encoded, and that its bytes name it.
use esphome_communication_ne.Prelude.{
  ℕ, ◌+◌, ◌%◌, ◌^◌, ◌≤◌, ◌<◌, Bool, true, false, Option, none, some, ◌∷◌, ◌++◌, ◌≡◌, ◌↔◌, inl, inr,
  refl, sym, ◌∙◌, ap, arith, length, Bytes, strnlen, strnlen-min, take-strnlen, length-append,
  append-injective, Span, null, block, span_length, Option-cases,
}
use esphome_communication_ne.Canonical.{
  CanonicalCommandView, check_part, write_part, argument_bytes, arguments_are_valid, required_size,
  canonical_bytes, encode_canonical_command,
}

-- A text that fits a length byte of the format.
abbrev pub IsName : Bytes → Type 0
IsName part = (0 < length part) × (length part ≤ 63)

check_part-some :
    (o : Option Bytes) (part : Bytes) → check_part o ≡ some part → (o ≡ some part) × IsName part
unfolding check_part
check_part-some none part h = cc
check_part-some (some text) part h = ground (arith, strnlen-min 64 text)

check_part_name : (part : Bytes) → IsName part → check_part (some part) ≡ some part
unfolding check_part
check_part_name part h = ground (arith, strnlen-min 64 part)

-- The format: the version 1, and each name and the arguments behind a byte with their length.
abbrev pub layout : Bytes → Bytes → Bytes → Span → Bytes
layout device resource action arguments =
    1
    ∷ length device
    ∷ (device
        ++ length resource
          ∷ (resource
              ++ length action ∷ (action ++ span_length arguments ∷ argument_bytes arguments)))

-- What the encoder accepts.
pub record Encodes (view : CanonicalCommandView) (capacity : ℕ) (out : Bytes) : Type 0 where
  pub device : Bytes
  pub resource : Bytes
  pub action : Bytes
  pub has_device : view.device ≡ some device
  pub has_resource : view.resource ≡ some resource
  pub has_action : view.action ≡ some action
  pub device_name : IsName device
  pub resource_name : IsName resource
  pub action_name : IsName action
  pub arguments : (arguments_are_valid view.arguments ≡ true) × (span_length view.arguments ≤ 128)
  pub fits : (length out ≤ capacity) × (length out ≤ 192)
  pub bytes : out ≡ layout device resource action view.arguments

length-write_part : (part : Bytes) → IsName part → length (write_part part) ≡ length part + 1
unfolding write_part
length-write_part part h = omega (arith, ap (length {A = ℕ}) (take-strnlen 64 part (omega arith)))

write_part_name : (part : Bytes) → IsName part → write_part part ≡ length part ∷ part
unfolding write_part
write_part_name part h =
    let n : strnlen 64 part ≡ length part = omega (arith, strnlen-min 64 part) in
    let small : strnlen 64 part % 2 ^ 8 ≡ length part = omega (arith, n) in
    rw (small, take-strnlen 64 part (omega arith)) refl

canonical_bytes-layout :
    (device resource action : Bytes) (a : Span)
    → IsName device
    → IsName resource
    → IsName action
    → span_length a ≤ 128
    → canonical_bytes device resource action a ≡ layout device resource action a
unfolding canonical_bytes
canonical_bytes-layout device resource action a d r c h =
    let small : span_length a % 2 ^ 8 ≡ span_length a = omega (arith, h) in
    cc (write_part_name device d, write_part_name resource r, write_part_name action c, small)

length-argument_bytes :
    (a : Span) → arguments_are_valid a ≡ true → length (argument_bytes a) ≡ span_length a
length-argument_bytes (null n) h = ground arith
length-argument_bytes (block b) h = refl

-- The space that the encoder reserves is the number of bytes that it writes.
length-canonical_bytes :
    (device resource action : Bytes) (a : Span)
    → IsName device
    → IsName resource
    → IsName action
    → arguments_are_valid a ≡ true
    → length (canonical_bytes device resource action a) ≡ required_size device resource action a
unfolding canonical_bytes required_size
length-canonical_bytes device resource action a d r c h = omega (
  arith,
  length-append (write_part device)
      (write_part resource ++ (write_part action ++ ((span_length a % 2 ^ 8) ∷ argument_bytes a))),
  length-append (write_part resource)
      (write_part action ++ ((span_length a % 2 ^ 8) ∷ argument_bytes a)),
  length-append (write_part action) ((span_length a % 2 ^ 8) ∷ argument_bytes a),
  length-write_part device d,
  length-write_part resource r,
  length-write_part action c,
  strnlen-min 64 device,
  strnlen-min 64 resource,
  strnlen-min 64 action,
  length-argument_bytes a h,
)

encode-Encodes :
    (view : CanonicalCommandView) (is_null : Bool) (capacity : ℕ) {out : Bytes}
    → encode_canonical_command view is_null capacity ≡ some out
    → Encodes view capacity out × (is_null ≡ false)
unfolding encode_canonical_command
encode-Encodes view is_null capacity {out} h = elim (Option-cases (check_part view.device)) [
  | inl e ↦ absurd (ground arith)
  | inr (device, e) ↦ elim (Option-cases (check_part view.resource)) [
    | inl f ↦ absurd (ground arith)
    | inr (resource, f) ↦ elim (Option-cases (check_part view.action)) [
      | inl g ↦ absurd (ground arith)
      | inr (action, g) ↦
          let d = check_part-some view.device device e in
          let r = check_part-some view.resource resource f in
          let c = check_part-some view.action action g in
          let valid : arguments_are_valid view.arguments ≡ true = ground arith in
          let short : span_length view.arguments ≤ 128 = ground arith in
          let size =
            length-canonical_bytes device resource action view.arguments d.1 r.1 c.1 valid in
          let bytes : out ≡ canonical_bytes device resource action view.arguments = ground arith in
          (
            record {
              device = device;
              resource = resource;
              action = action;
              has_device = d.0;
              has_resource = r.0;
              has_action = c.0;
              device_name = d.1;
              resource_name = r.1;
              action_name = c.1;
              arguments = (valid, short);
              fits = (rw bytes (ground (arith, size)), rw bytes (ground (arith, size)));
              bytes =
                  bytes
                  ∙ canonical_bytes-layout device resource action view.arguments d.1 r.1 c.1 short;
            },
            ground arith,
          )
    ]
  ]
]

Encodes-encode :
    (view : CanonicalCommandView) (capacity : ℕ) {out : Bytes}
    → Encodes view capacity out
    → encode_canonical_command view false capacity ≡ some out
unfolding encode_canonical_command
Encodes-encode view capacity {out} h =
    let e = ap check_part h.has_device ∙ check_part_name h.device h.device_name in
    let f = ap check_part h.has_resource ∙ check_part_name h.resource h.resource_name in
    let g = ap check_part h.has_action ∙ check_part_name h.action h.action_name in
    let size =
      length-canonical_bytes h.device h.resource h.action view.arguments h.device_name
        h.resource_name h.action_name h.arguments.0 in
    let bytes =
      h.bytes
      ∙ sym (
          canonical_bytes-layout h.device h.resource h.action view.arguments h.device_name
            h.resource_name h.action_name h.arguments.1) in
    let n = ap (length {A = ℕ}) bytes in ground (arith, e, f, g, size, n, bytes)

-- `encode_canonical_command` succeeds exactly where `out` is given, the three names are of 1 to 63
-- bytes, the arguments are of at most 128 bytes and not null with a length, and the bytes fit in
-- the capacity and in 192; what it writes is then the version, each name and the arguments behind
-- their length bytes.
pub encode-eq-some_iff :
    (view : CanonicalCommandView) (capacity : ℕ) {out : Bytes}
    → (encode_canonical_command view false capacity ≡ some out) ↔ Encodes view capacity out
encode-eq-some_iff view capacity =
    (λ h. (encode-Encodes view false capacity h).0, Encodes-encode view capacity)

name-injective :
    (a b : Bytes) {r s : Bytes} → length a ∷ (a ++ r) ≡ length b ∷ (b ++ s) → (a ≡ b) × (r ≡ s)
name-injective a b {r} {s} h = append-injective a b r s (ground arith) (ground arith)

tail-eq : {x y : ℕ} {xs ys : Bytes} → x ∷ xs ≡ y ∷ ys → xs ≡ ys
tail-eq h = cc

layout-injective :
    (device resource action device' resource' action' : Bytes) (a b : Span)
    → layout device resource action a ≡ layout device' resource' action' b
    → (device ≡ device')
      × (resource ≡ resource')
      × (action ≡ action')
      × (argument_bytes a ≡ argument_bytes b)
layout-injective device resource action device' resource' action' a b h =
    let x = name-injective device device' (tail-eq h) in
    let y = name-injective resource resource' x.1 in
    let z = name-injective action action' y.1 in (x.0, y.0, z.0, tail-eq z.1)

-- The bytes identify the command: two commands whose encodings are the same bytes have the same
-- device, resource and action and the same argument bytes, whatever the capacities.
pub encode-injective :
    (v w : CanonicalCommandView) (m n : Bool) (c d : ℕ) {out : Bytes}
    → encode_canonical_command v m c ≡ some out
    → encode_canonical_command w n d ≡ some out
    → (v.device ≡ w.device)
      × (v.resource ≡ w.resource)
      × (v.action ≡ w.action)
      × (argument_bytes v.arguments ≡ argument_bytes w.arguments)
encode-injective v w m n c d h k =
    let a = (encode-Encodes v m c h).0 in
    let b = (encode-Encodes w n d k).0 in
    let same =
      layout-injective a.device a.resource a.action b.device b.resource b.action v.arguments
        w.arguments (sym a.bytes ∙ b.bytes) in
    (
      a.has_device ∙ ap some same.0 ∙ sym b.has_device,
      a.has_resource ∙ ap some same.1 ∙ sym b.has_resource,
      a.has_action ∙ ap some same.2 ∙ sym b.has_action,
      same.3,
    )
