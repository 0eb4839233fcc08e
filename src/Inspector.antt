-- ===== src/Inspector.antt =====
-- components/communication_net_protocol/passive_inbound_inspector.h: the route check that reserves
-- nothing.
use native.Mathlib.Decide.{dec_lt}
use esphome_communication_ne.Admission.{
  RouteAdmission, matches_, encode_routed_command_, route_of, routed, same_text,
}
use esphome_communication_ne.Canonical.{encode_canonical_command}
use esphome_communication_ne.Gate.{InboundCommandView}
use esphome_communication_ne.Prelude.{
  ℕ, ◌%◌, ◌^◌, ◌≤◌, ◌<◌, ◌≡◌, ◌∙◌, sym, refl, Bool, not, ◌||◌, Option, none, some, [], ◌∷◌, ◌==◌,
  if◌then◌else◌, length, get_elem?_outside, Bytes, str_eq, Span, null, block, arith, Option-cases,
  inl, inr,
}
use esphome_communication_ne.Registry.{InboundRouteRegistry, find, find_index, id_at, size, is_none}

-- `payload == nullptr && payload_size != 0` refuses, and a payload that is not empty is to be `{}`.
abbrev pub is_empty_payload : Span → Bool
is_empty_payload (null n) = n == 0
is_empty_payload (block b) = length b == 0 || str_eq b (b'{' ∷ b'}' ∷ [])

-- The route id and the canonical bytes, where the function returns true.
unfoldable pub inspect_inbound_command :
    InboundRouteRegistry
    → Option Bytes
    → Option Bytes
    → Option Bytes
    → Option Bytes
    → Span
    → Bool
    → ℕ
    → Option (Bytes × Bytes)
inspect_inbound_command routes local device resource action payload out_is_null capacity =
    if not (same_text local device)
      || is_none resource
      || is_none action
      || not (is_empty_payload payload)
    then none
    else elim (find routes resource action) [
      | none ↦ none
      | some id ↦
          elim (encode_canonical_command
            (record { device = device; resource = resource; action = action; arguments = null 0 })
            out_is_null capacity) [ none ↦ none | some canonical ↦ some (id, canonical) ]
    ]

-- A view of the same names with no arguments.
abbrev pub view_of : InboundCommandView → InboundCommandView
view_of v = record v { intent = record v.intent { arguments = null 0 } }

find-id_at :
    (r : InboundRouteRegistry) (resource command : Option Bytes)
    → find r resource command ≡ id_at r (find_index r resource command)
unfolding find
find-id_at r resource command = refl

id_at_inside : (r : InboundRouteRegistry) (i : ℕ) (id : Bytes) → id_at r i ≡ some id → i < size r
unfolding id_at
id_at_inside r i id h = elim (dec_lt i (size r)) [
  | yes p ↦ p
  | no p ↦
      let outside = get_elem?_outside r.entries i (omega arith) in absurd (ground (arith, outside))
]

-- What the inspector reports of a command is what the admission would hand out for it: with the
-- same local device and routes, at most 256, a command that is matched with a route id is routed by
-- the admission to that id, and its routed bytes are the version and the index of the route.
pub inspect-routed :
    (a : RouteAdmission) (v : InboundCommandView) (payload : Span) (is_null : Bool) (capacity : ℕ)
    (id canonical : Bytes)
    → size a.routes ≤ 256
    → inspect_inbound_command a.routes a.local_device v.intent.device v.intent.resource
        v.intent.action payload is_null capacity
      ≡ some (id, canonical)
    → routed a (view_of v)
      ≡ some (id, 1 ∷ (find_index a.routes v.intent.resource v.intent.action % 2 ^ 8) ∷ [])
unfolding inspect_inbound_command routed matches_ route_of encode_routed_command_
inspect-routed a v payload is_null capacity id canonical small h =
    let index = find_index a.routes v.intent.resource v.intent.action in
    elim (Option-cases (find a.routes v.intent.resource v.intent.action)) [
      | inl e ↦ absurd (ground arith)
      | inr (found, e) ↦
          let at : id_at a.routes index ≡ some found =
            sym (find-id_at a.routes v.intent.resource v.intent.action) ∙ e in
          let inside = id_at_inside a.routes index found at in
          elim (Option-cases (
            encode_canonical_command
              (record {
                device = v.intent.device;
                resource = v.intent.resource;
                action = v.intent.action;
                arguments = null 0;
              })
              is_null capacity)) [
                | inl f ↦ absurd (ground arith)
                | inr (bytes, f) ↦ ground (arith, e, at, f, inside)
              ]
    ]
