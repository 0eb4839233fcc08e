-- ===== src/Registry.antt =====
-- components/communication_net_protocol/inbound_route_registry.h: the declared routes. `entries` is
-- the first `size_` places of `entries_`.
pub mod Routes
use esphome_communication_ne.Prelude.{
  ℕ, ◌+◌, Bool, true, false, not, ◌&&◌, ◌||◌, Option, none, some, List, [], ◌∷◌, ◌++◌, ◌==◌, ltb,
  leb, if◌then◌else◌, length, get_elem?, find_index?, Bytes, str_eq, strnlen,
}
use mathlib.Core.Option

pub record Route : Type 0 where
  pub id : Bytes
  pub resource : Bytes
  pub command : Bytes

pub record InboundRouteRegistry : Type 0 where
  pub capacity : ℕ
  pub entries : List Route

abbrev pub empty_registry : ℕ → InboundRouteRegistry
empty_registry capacity = record { capacity = capacity; entries = [] }

unfoldable pub length_ : Option Bytes → ℕ → ℕ
length_ none maximum = 0
length_ (some value) maximum =
    let count = strnlen (maximum + 1) value in if leb count maximum then count else 0

abbrev pub is_route : Bytes → Bytes → Route → Bool
is_route resource command e = str_eq e.resource resource && str_eq e.command command

-- The capacity stands for no route, as in the source.
unfoldable pub find_index : InboundRouteRegistry → Option Bytes → Option Bytes → ℕ
find_index r none command = r.capacity
find_index r (some resource) none = r.capacity
find_index r (some resource) (some command) =
    Option.get_or (find_index? (is_route resource command) r.entries) r.capacity

unfoldable pub id_at : InboundRouteRegistry → ℕ → Option Bytes
id_at r index = Option.map (λ (e : Route). e.id) (get_elem? r.entries index)

unfoldable pub find : InboundRouteRegistry → Option Bytes → Option Bytes → Option Bytes
unfolding find_index id_at
find r resource command = id_at r (find_index r resource command)

abbrev pub size : InboundRouteRegistry → ℕ
size r = length r.entries

abbrev pub is_none : Option Bytes → Bool
is_none none = true
is_none (some x) = false

abbrev pub has_id : Bytes → Route → Bool
has_id id e = str_eq e.id id

-- `add`, for names that are not null.
unfoldable pub add_route :
    InboundRouteRegistry → Bytes → Bytes → Bytes → InboundRouteRegistry × Bool
add_route r id resource command =
    if length_ (some id) 31 == 0
      || length_ (some resource) 63 == 0
      || length_ (some command) 63 == 0
      || size r == r.capacity
      || not (is_none (find r (some resource) (some command)))
    then (r, false)
    else elim (find_index? (has_id id) r.entries) [
      | some i ↦ (r, false)
      | none ↦ (
        record r {
          entries = r.entries ++ (record { id = id; resource = resource; command = command } ∷ []);
        },
        true,
      )
    ]

-- A null name has the length 0.
unfoldable pub add :
    InboundRouteRegistry → Option Bytes → Option Bytes → Option Bytes → InboundRouteRegistry × Bool
unfolding add_route
add r none resource command = (r, false)
add r (some id) none command = (r, false)
add r (some id) (some resource) none = (r, false)
add r (some id) (some resource) (some command) = add_route r id resource command
