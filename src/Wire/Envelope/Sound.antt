-- ===== src/Wire/Envelope/Sound.antt =====
-- mqtt_envelope_decoder.h: whatever bytes arrive, what `decode` gives is within the bounds that the
-- receiver relies on.
use esphome_communication_ne.Canonical.{CanonicalCommandView, encode_canonical_command}
use esphome_communication_ne.Canonical.Unambiguous.{encode-injective}
use esphome_communication_ne.Prelude.{
  ℕ, ◌^◌, ◌<◌, ◌≡◌, sym, ap, Bool, true, not, ◌||◌, Option, none, some, Bytes, arith, str_eq,
  str_eq_sound, Span, null, block, Option-cases, inl, inr,
}
use esphome_communication_ne.Wire.Envelope.{
  Envelope, empty_envelope, MqttCommandFields, Decoded, is_visible, is_expected, string_, source_,
  target_, command_, timeout_, contains, member, fields_of, parse, decode_fields,
  decode_mqtt_command_envelope,
}
use esphome_communication_ne.Wire.Envelope.Checked.{
  IfSome, IsName, IsId, IsReply, IsTimeout, source-Yields, target-Yields, command-Yields,
  IsTimeout-Yields, expect-Yields, id-Yields,
}
use esphome_communication_ne.Wire.Printed.{IsText}
use esphome_communication_ne.Wire.Reader.{Reader, ◌>>=◌, object}
use esphome_communication_ne.Wire.Yields.{
  Yields, >>=-Yields, pure-Yields, if-Yields, guard-Yields, quoted-Yields, object-Yields,
}

-- What the members that have been read are.
record IsSound (e : Envelope) : Type 0 where
  id : IfSome IsId e.transaction_id
  reply : IfSome IsReply e.reply_topic
  source : IfSome (λ (p : Bytes × ℕ). IsName p.0 × IsId p.1) e.source
  target : IfSome (λ (p : Bytes × Bytes). IsName p.0 × IsName p.1) e.target
  command : IfSome IsName e.command
  timeout : IfSome IsTimeout e.timeout

module _ {Q : Envelope → Type 0} where
  text-Yields :
      (n : ℕ) (f : Bytes → Reader Envelope)
      → ((t : Bytes) → IsText is_visible n t → Yields Q (f t))
      → Yields Q (string_ n >>= f)
  unfolding string_
  text-Yields n f h = >>=-Yields (IsText is_visible n) (string_ n) f (quoted-Yields is_visible n) h

  from_source :
      (f : Bytes × ℕ → Reader Envelope)
      → ((p : Bytes × ℕ) → IsName p.0 × IsId p.1 → Yields Q (f p))
      → Yields Q (source_ >>= f)
  from_source f h = >>=-Yields _ source_ f source-Yields h

  from_target :
      (f : Bytes × Bytes → Reader Envelope)
      → ((p : Bytes × Bytes) → IsName p.0 × IsName p.1 → Yields Q (f p))
      → Yields Q (target_ >>= f)
  from_target f h = >>=-Yields _ target_ f target-Yields h

  from_command :
      (f : Bytes → Reader Envelope)
      → ((t : Bytes) → IsName t → Yields Q (f t))
      → Yields Q (command_ >>= f)
  from_command f h = >>=-Yields IsName command_ f command-Yields h

  from_timeout :
      (f : ℕ → Reader Envelope)
      → ((n : ℕ) → IsTimeout n → Yields Q (f n))
      → Yields Q (timeout_ >>= f)
  from_timeout f h = >>=-Yields IsTimeout timeout_ f IsTimeout-Yields h

no_wildcard :
    (t : Bytes)
    → IsText is_visible 193 t
    → not (contains b'+' t || contains b'#' t) ≡ true
    → IsReply t
no_wildcard t i h = (i, ground arith, ground arith)

IsSound-member :
    (e : Envelope)
    → IsSound e
    → ((n : ℕ) → IsId n → IsSound (record e { transaction_id = some n }))
      × ((t : Bytes) → IsReply t → IsSound (record e { reply_topic = some t }))
      × ((p : Bytes × ℕ) → IsName p.0 × IsId p.1 → IsSound (record e { source = some p }))
      × ((p : Bytes × Bytes) → IsName p.0 × IsName p.1 → IsSound (record e { target = some p }))
      × ((t : Bytes) → IsName t → IsSound (record e { command = some t }))
      × ((n : ℕ) → IsTimeout n → IsSound (record e { timeout = some n }))
IsSound-member e h = (
  λ n i. assumption,
  λ t i. assumption,
  λ p i. assumption,
  λ p i. assumption,
  λ t i. assumption,
  λ n i. assumption,
)

member-Yields : (e : Envelope) → IsSound e → Yields IsSound (member e)
unfolding member
member-Yields e h =
    let s = IsSound-member e h in
    search
      (
        expect-Yields, id-Yields, guard-Yields, if-Yields, pure-Yields, text-Yields, from_source,
        from_target, from_command, from_timeout, no_wildcard, s.0, s.1, s.2, s.3, s.4, s.5,
      )
      depth 30

-- What a receiver may rely on.
pub record IsUsable (f : MqttCommandFields) : Type 0 where
  pub source : IsName f.source
  pub device : IsName f.device
  pub resource : IsName f.resource
  pub action : IsName f.action
  pub reply : IsReply f.reply_topic
  pub transaction_id : IsId f.transaction_id
  pub source_boot_id : IsId f.source_boot_id
  pub timeout_ms : f.timeout_ms < 2 ^ 32

fields-IsUsable :
    (e : Envelope) (f : MqttCommandFields) → IsSound e → fields_of e ≡ some f → IsUsable f
unfolding fields_of
fields-IsUsable e f h eq = ground (arith, h.id, h.reply, h.source, h.target, h.command, h.timeout)

parse-IsUsable : (payload : Bytes) (f : MqttCommandFields) → parse payload ≡ some f → IsUsable f
unfolding parse
parse-IsUsable payload f h = elim (Option-cases (object member empty_envelope payload)) [
  | inl e ↦ absurd (ground arith)
  | inr ((e, rest), eq) ↦
      fields-IsUsable e f
        ((object-Yields IsSound member member-Yields empty_envelope (omega arith)).result payload e
          rest eq)
        (ground arith)
]

abbrev pub intent : MqttCommandFields → CanonicalCommandView
intent f = record {
  device = some f.device;
  resource = some f.resource;
  action = some f.action;
  arguments = null 0;
}

is_expected_sound :
    (expected : Option Bytes) (value : Bytes)
    → is_expected expected value ≡ true
    → IfSome (λ e. e ≡ value) expected
is_expected_sound none value h = tt
is_expected_sound (some e) value h = sym (str_eq_sound value e h)

fields-decoded :
    (device : Bytes) (is_null : Bool) (capacity : ℕ) (source reply : Option Bytes)
    (f : MqttCommandFields) (d : Decoded)
    → decode_fields device is_null capacity source reply f ≡ some d
    → (d.fields ≡ f)
      × (device ≡ f.device)
      × IfSome (λ e. e ≡ f.source) source
      × IfSome (λ e. e ≡ f.reply_topic) reply
      × (encode_canonical_command (intent f) is_null capacity ≡ some d.canonical)
unfolding decode_fields
fields-decoded device is_null capacity source reply f d h =
    elim (Option-cases (encode_canonical_command (intent f) is_null capacity)) [
      | inl e ↦ absurd (ground arith)
      | inr (c, e) ↦
          let is_device : str_eq f.device device ≡ true = ground arith in
          let is_source : is_expected source f.source ≡ true = ground arith in
          let is_reply : is_expected reply f.reply_topic ≡ true = ground arith in
          (
            ground arith,
            sym (str_eq_sound f.device device is_device),
            is_expected_sound source f.source is_source,
            is_expected_sound reply f.reply_topic is_reply,
            ground arith,
          )
    ]

-- Whatever the bytes of a payload and whatever the receiver expects: if `decode` returns true, the
-- device, source and reply topic are the expected ones, each name is of 1 to 63 visible bytes, the
-- reply topic of 1 to 192 with no wildcard, the transaction id and the boot id are from 1 to
-- 2 ^ 64 - 1, the timeout fits 32 bits, and the canonical bytes are the encoding of the target and
-- the action with no arguments.
pub decode-IsUsable :
    (payload : Span) (device : Option Bytes) (is_null : Bool) (capacity : ℕ)
    (source reply : Option Bytes) (d : Decoded)
    → decode_mqtt_command_envelope payload device is_null capacity source reply ≡ some d
    → IsUsable d.fields
      × (device ≡ some d.fields.device)
      × IfSome (λ e. e ≡ d.fields.source) source
      × IfSome (λ e. e ≡ d.fields.reply_topic) reply
      × (encode_canonical_command (intent d.fields) is_null capacity ≡ some d.canonical)
unfolding decode_mqtt_command_envelope
decode-IsUsable (null n) device is_null capacity source reply d h = absurd (cc)
decode-IsUsable (block payload) none is_null capacity source reply d h = absurd (cc)
decode-IsUsable (block payload) (some device) is_null capacity source reply d h =
    elim (Option-cases (parse payload)) [
      | inl e ↦ absurd (ground arith)
      | inr (f, e) ↦
          let (same, a, b, c, g) =
            fields-decoded device is_null capacity source reply f d (ground arith) in
          rw same (parse-IsUsable payload f e, ap some a, b, c, g)
    ]

-- Two payloads that are decoded to the same canonical bytes, by any receivers, are commands for the
-- same device, resource and action.
pub decode-injective :
    (p q : Span) (device device' : Option Bytes) (m n : Bool) (c c' : ℕ)
    (source source' reply reply' : Option Bytes) (d d' : Decoded)
    → decode_mqtt_command_envelope p device m c source reply ≡ some d
    → decode_mqtt_command_envelope q device' n c' source' reply' ≡ some d'
    → d.canonical ≡ d'.canonical
    → (d.fields.device ≡ d'.fields.device)
      × (d.fields.resource ≡ d'.fields.resource)
      × (d.fields.action ≡ d'.fields.action)
decode-injective p q device device' m n c c' source source' reply reply' d d' h k same =
    let a = (decode-IsUsable p device m c source reply d h).4 in
    let b = (decode-IsUsable q device' n c' source' reply' d' k).4 in
    let e = encode-injective (intent d.fields) (intent d'.fields) m n c c' a (rw (sym same) at b) in
    (some_eq e.0, some_eq e.1, some_eq e.2)
  where
    some_eq : {x y : Bytes} → some x ≡ some y → x ≡ y
    some_eq u = cc
