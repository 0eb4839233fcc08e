-- ===== src/Tests/Registry.antt =====
-- tests/inbound_route_registry_test.cpp, on the model.
use esphome_communication_ne.Prelude.{
  ◌≡◌, refl, true, false, ◌&&◌, some, none, List, Option, ◌∷◌, [], find_index?, str_eq, strnlen,
  Bytes, codes, arith, if◌then◌else◌,
}
use esphome_communication_ne.Registry.{
  InboundRouteRegistry, empty_registry, length_, find_index, id_at, find, size, add_route, add,
}
use esphome_communication_ne.Registry.Routes.{
  IsBounded, IsValid, declare, find_index-add, find-add, declare-IsValid,
}

program : Unit {0}
unfolding find_index? str_eq strnlen length_ find_index id_at find add_route add declare
program = tt

abbrev light : Bytes
light = codes "light"

abbrev toggle : Bytes
toggle = codes "toggle"

abbrev off : Bytes
off = codes "off"

abbrev routes : InboundRouteRegistry
routes = (add (empty_registry 2) (some (codes "r1")) (some light) (some toggle)).0

added : (add routes (some (codes "r2")) (some light) (some off)).1 ≡ true
unfolding program
added = refl

refused :
    ((add routes (some (codes "r1")) (some light) (some off)).1 ≡ false)
    × ((add routes (some (codes "r2")) (some light) (some toggle)).1 ≡ false)
    × ((add routes (some []) (some light) (some off)).1 ≡ false)
    × ((add routes none (some light) (some off)).1 ≡ false)
    × (find routes (some light) (some off) ≡ none)
    × (find routes (some light) (some toggle) ≡ some (codes "r1"))
unfolding program
refused = (refl, refl, refl, refl, refl, refl)

routes-IsBounded : IsBounded routes
unfolding program
routes-IsBounded = omega arith

find_index-add_example :
    find_index (add routes (some (codes "r2")) (some light) (some off)).0 (some light) (some toggle)
    ≡ (if str_eq light light && str_eq off toggle
        then size routes
        else find_index routes (some light) (some toggle))
find_index-add_example = find_index-add routes (codes "r2") light off light toggle added

find-add_example :
    find (add routes (some (codes "r2")) (some light) (some off)).0 (some light) (some off) ≡ (
      if str_eq light light && str_eq off off
      then some (codes "r2")
      else find routes (some light) (some off))
find-add_example = find-add routes (codes "r2") light off light off routes-IsBounded added

abbrev declared : List (Option Bytes × Option Bytes × Option Bytes)
declared =
    (some (codes "r1"), some light, some toggle)
    ∷ (some (codes "r1"), some light, some off)
    ∷ (some (codes "r2"), some light, some off)
    ∷ []

declared_size : size (declare (empty_registry 2) declared) ≡ 2
unfolding program
declared_size = refl

declare-IsValid_example : IsValid (declare (empty_registry 2) declared)
declare-IsValid_example = declare-IsValid 2 declared
