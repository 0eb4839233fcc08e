-- ===== src/Registry/Routes.antt =====
-- inbound_route_registry.h: what a lookup finds after the routes have been declared.
use mathlib.Core.Option
use esphome_communication_ne.Prelude.{
  ℕ, ◌≤◌, ◌<◌, true, false, not, ◌&&◌, ◌||◌, Option, none, some, List, [], ◌∷◌, ◌++◌, ◌==◌, ◌≡◌,
  ◌≢◌, ◌⊎◌, inl, inr, refl, sym, ◌∙◌, ap, arith, if◌then◌else◌, length-append, get_elem?, get_or,
  find_index?, find_index?-some, find_index?-none, concat-distinct, find_index?-concat,
  get_elem?-append_lt, get_elem?-length, get_elem?_outside, get_elem?_inside, Bytes, str_eq,
  str_eq_iff, Option-cases, Bool-cases,
}
use esphome_communication_ne.Registry.{
  Route, InboundRouteRegistry, empty_registry, length_, is_route, find_index, id_at, find, size,
  is_none, has_id, add,
}

-- A registry that never outgrows its array.
abbrev pub IsBounded : InboundRouteRegistry → Type 0
IsBounded r = size r ≤ r.capacity

abbrev pub no_route : Route
no_route = record { id = []; resource = []; command = [] }

-- A route that was declared: the registry has room, no route has the same resource and command,
-- and no route the same id.
record Adds (r : InboundRouteRegistry) (id resource command : Bytes) : Type 0 where
  room : size r ≢ r.capacity
  unknown : find r (some resource) (some command) ≡ none
  new_id : find_index? (has_id id) r.entries ≡ none
  result : add r (some id) (some resource) (some command) ≡ (
    record r {
      entries = r.entries ++ (record { id = id; resource = resource; command = command } ∷ []);
    },
    true,
  )

add-cases :
    (r : InboundRouteRegistry) (id resource command : Bytes)
    → (add r (some id) (some resource) (some command) ≡ (r, false)) ⊎ Adds r id resource command
unfolding add
add-cases r id resource command =
    elim (Bool-cases (
      length_ (some id) 31 == 0
      || length_ (some resource) 63 == 0
      || length_ (some command) 63 == 0
      || size r == r.capacity
      || not (is_none (find r (some resource) (some command))))) [
        | inl e ↦ inl (rw e refl)
        | inr e ↦ elim (Option-cases (find_index? (has_id id) r.entries)) [
          | inr (i, f) ↦ inl (ground arith)
          | inl f ↦ inr (record {
            room = ground arith;
            unknown = ground arith;
            new_id = f;
            result = ground arith;
          })
        ]
      ]

-- A pair without a route id is at no index.
find-none :
    (r : InboundRouteRegistry) (a b : Bytes)
    → find r (some a) (some b) ≡ none
    → find_index? (is_route a b) r.entries ≡ none
unfolding find
find-none r a b h = elim (Option-cases (find_index? (is_route a b) r.entries)) [
  | inl e ↦ e
  | inr (i, e) ↦ absurd (
      ground (
        arith,
        find_index?-some (is_route a b) r.entries i no_route e,
        get_elem?_inside r.entries i no_route,
      ))
]

abbrev with_route : InboundRouteRegistry → Route → InboundRouteRegistry
with_route r e = record r { entries = r.entries ++ (e ∷ []) }

concat_index :
    (r : InboundRouteRegistry) (e : Route) (a b : Bytes)
    → find r (some e.resource) (some e.command) ≡ none
    → find_index (with_route r e) (some a) (some b)
      ≡ (if is_route a b e then size r else find_index r (some a) (some b))
unfolding find_index
concat_index r e a b new = elim (Bool-cases (is_route a b e)) [
  | inr other ↦ ground (arith, find_index?-concat (is_route a b) r.entries e)
  | inl same ↦
      let p : e.resource ≡ a = (str_eq_iff e.resource a).0 (ground arith) in
      let q : e.command ≡ b = (str_eq_iff e.command b).0 (ground arith) in
      ground
        (arith, find_index?-concat (is_route a b) r.entries e, find-none r a b (rw (← p, ← q) new))
]

-- Where an index is in range, and where it is the capacity.
index_bound :
    (r : InboundRouteRegistry) (a b : Bytes)
    → (find_index r (some a) (some b) ≡ r.capacity) ⊎ (find_index r (some a) (some b) < size r)
unfolding find_index
index_bound r a b = elim (Option-cases (find_index? (is_route a b) r.entries)) [
  | inl e ↦ inl (ground arith)
  | inr (i, e) ↦ inr (ground (arith, find_index?-some (is_route a b) r.entries i no_route e))
]

concat_find :
    (r : InboundRouteRegistry) (e : Route) (a b : Bytes)
    → IsBounded r
    → size r ≢ r.capacity
    → find r (some e.resource) (some e.command) ≡ none
    → find (with_route r e) (some a) (some b)
      ≡ (if is_route a b e then some e.id else find r (some a) (some b))
concat_find r e a b bounded room new =
    unfold find in
    rw (concat_index r e a b new) (elim (Bool-cases (is_route a b e)) [
      | inl same ↦
          rw same
            (unfold id_at in ap (Option.map (λ (e : Route). e.id)) (get_elem?-length r.entries e))
      | inr other ↦
          rw other (unfold id_at in ap (Option.map (λ (e : Route). e.id)) (old (index_bound r a b)))
    ])
  where
    old :
        (find_index r (some a) (some b) ≡ r.capacity) ⊎ (find_index r (some a) (some b) < size r)
        → get_elem? (r.entries ++ e ∷ []) (find_index r (some a) (some b))
          ≡ get_elem? r.entries (find_index r (some a) (some b))
    old (inl out) = rw out (
        get_elem?_outside (r.entries ++ e ∷ []) r.capacity
          (omega (arith, length-append r.entries (e ∷ [])))
        ∙ sym (get_elem?_outside r.entries r.capacity bounded))
    old (inr inside) = get_elem?-append_lt r.entries (e ∷ []) _ inside

-- A route that was accepted stands at the index that was free, and every other pair of a resource
-- and a command keeps its index: the index of a declared route never changes.
pub find_index-add :
    (r : InboundRouteRegistry) (id resource command a b : Bytes)
    → (add r (some id) (some resource) (some command)).1 ≡ true
    → find_index (add r (some id) (some resource) (some command)).0 (some a) (some b)
      ≡ (if str_eq resource a && str_eq command b then size r else find_index r (some a) (some b))
find_index-add r id resource command a b h = elim (add-cases r id resource command) [
  | inl e ↦ absurd (ground arith)
  | inr w ↦
      rw w.result
        (concat_index r (record { id = id; resource = resource; command = command }) a b w.unknown)
]

-- The id that the registry gives for a pair, likewise: the new route's for its own pair, and what
-- it was for every other pair.
pub find-add :
    (r : InboundRouteRegistry) (id resource command a b : Bytes)
    → IsBounded r
    → (add r (some id) (some resource) (some command)).1 ≡ true
    → find (add r (some id) (some resource) (some command)).0 (some a) (some b)
      ≡ (if str_eq resource a && str_eq command b then some id else find r (some a) (some b))
find-add r id resource command a b bounded h = elim (add-cases r id resource command) [
  | inl e ↦ absurd (ground arith)
  | inr w ↦ rw w.result (
      concat_find r (record { id = id; resource = resource; command = command }) a b bounded w.room
        w.unknown)
]

abbrev pub route_pair : Route → Bytes × Bytes
route_pair e = (e.resource, e.command)

-- The registry is within its capacity, and no two routes share an id, nor both resource and command.
pub record IsValid (r : InboundRouteRegistry) : Type 0 where
  pub bounded : IsBounded r
  pub ids :
      (i j : ℕ)
      → i < size r
      → j < size r
      → (get_or r.entries i no_route).id ≡ (get_or r.entries j no_route).id
      → i ≡ j
  pub pairs :
      (i j : ℕ)
      → i < size r
      → j < size r
      → route_pair (get_or r.entries i no_route) ≡ route_pair (get_or r.entries j no_route)
      → i ≡ j

empty_registry-IsValid : (n : ℕ) → IsValid (empty_registry n)
empty_registry-IsValid n = record {
  bounded = omega arith;
  ids = λ i j h. elim h [ ];
  pairs = λ i j h. elim h [ ];
}

pub add-IsValid :
    (r : InboundRouteRegistry) (id resource command : Option Bytes)
    → IsValid r
    → IsValid (add r id resource command).0
add-IsValid r none resource command h = unfold add in h
add-IsValid r (some id) none command h = unfold add in h
add-IsValid r (some id) (some resource) none h = unfold add in h
add-IsValid r (some id) (some resource) (some command) h = elim (add-cases r id resource command) [
  | inl e ↦ rw e h
  | inr w ↦
      let new : Route = record { id = id; resource = resource; command = command } in
      rw w.result (record {
        bounded = omega (arith, h.bounded, w.room, length-append r.entries (new ∷ []));
        ids =
            concat-distinct (λ (e : Route). e.id) r.entries new no_route h.ids
              (λ i l e. ground (
                arith,
                find_index?-none (has_id id) r.entries i no_route w.new_id l,
                str_eq_iff (get_or r.entries i no_route).id id,
              ));
        pairs = concat-distinct route_pair r.entries new no_route h.pairs (λ i l e. ground (
          arith,
          find_index?-none (is_route resource command) r.entries i no_route
              (find-none r resource command w.unknown) l,
          str_eq_iff (get_or r.entries i no_route).resource resource,
          str_eq_iff (get_or r.entries i no_route).command command,
        ));
      })
]

-- The declarations of a receiver, in order; those that are refused are skipped.
unfoldable pub declare :
    InboundRouteRegistry → List (Option Bytes × Option Bytes × Option Bytes) → InboundRouteRegistry
declare r [] = r
declare r ((id, resource, command) ∷ ds) = declare (add r id resource command).0 ds

declare-IsValid_from :
    (ds : List (Option Bytes × Option Bytes × Option Bytes)) (r : InboundRouteRegistry)
    → IsValid r
    → IsValid (declare r ds)
unfolding declare
declare-IsValid_from [] r h = h
declare-IsValid_from ((id, resource, command) ∷ ds) r h =
    declare-IsValid_from ds (add r id resource command).0 (add-IsValid r id resource command h)

-- Whatever is declared, in whatever order, the registry stays within its capacity, no two of its
-- routes have one id, and no two have one resource and command.
pub declare-IsValid :
    (capacity : ℕ) (ds : List (Option Bytes × Option Bytes × Option Bytes))
    → IsValid (declare (empty_registry capacity) ds)
declare-IsValid capacity ds =
    declare-IsValid_from ds (empty_registry capacity) (empty_registry-IsValid capacity)
