-- ===== src/Executor/Binding.antt =====
-- declarative_inbound_binding.h: a route's local action and the state that completes it. An array
-- and its count are the list of the places in use; an entity is named by a number, and a null
-- pointer is none.
use esphome_communication_ne.Prelude.{
  ℕ, ◌≤◌, Bool, true, false, Option, none, some, List, [], ◌∷◌, ◌++◌, ltb, if◌then◌else◌, get_elem?,
  length, length-append, Bytes, arith,
}

pub data LightExpectedState : Type 0 where
  on off toggled : LightExpectedState

pub data CoverExpectedState : Type 0 where
  fully_open fully_closed idle : CoverExpectedState

pub record DeclarativeInboundBinding : Type 0 where
  pub lights : List ℕ
  pub toggle_references : List ℕ
  pub sensor : Option ℕ
  pub cover : Option ℕ
  pub rgb_lights : List ℕ
  pub brightness_lights : List ℕ
  pub expected_effect : Option Bytes
  pub effect_lights : List ℕ
  pub timeout_ms : ℕ
  pub completion_delay_ms : ℕ
  pub expected_rgb : List ℕ
  pub expected_brightness : ℕ
  pub expected : LightExpectedState
  pub cover_expected : CoverExpectedState
  pub result_rgb : Bool
  pub check_rgb : Bool
  pub check_brightness : Bool
  pub timer_completion : Bool
  pub interruptible : Bool
  pub interrupts_active : Bool

abbrev pub new_binding : DeclarativeInboundBinding
new_binding = record {
  lights = [];
  toggle_references = [];
  sensor = none;
  cover = none;
  rgb_lights = [];
  brightness_lights = [];
  expected_effect = none;
  effect_lights = [];
  timeout_ms = 2000;
  completion_delay_ms = 0;
  expected_rgb = 0 ∷ 0 ∷ 0 ∷ [];
  expected_brightness = 0;
  expected = toggled;
  cover_expected = idle;
  result_rgb = false;
  check_rgb = false;
  check_brightness = false;
  timer_completion = false;
  interruptible = false;
  interrupts_active = false;
}

-- `if (state != nullptr && count < bound) places[count++] = state;`
unfoldable pub add_place : ℕ → Option ℕ → List ℕ → List ℕ
add_place bound none places = places
add_place bound (some state) places =
    if ltb (length places) bound then places ++ state ∷ [] else places

-- The calls that configure a binding.
pub data Setting : Type 0 where
  set_light : Option ℕ → Setting
  add_completion_light add_toggle_reference_light : Option ℕ → Setting
  add_rgb_light add_brightness_light add_effect_light : Option ℕ → Setting
  set_expected : LightExpectedState → Setting
  set_binary_sensor set_cover : Option ℕ → Setting
  set_cover_expected : CoverExpectedState → Setting
  set_result_rgb set_interruptible set_interrupts_active : Bool → Setting
  set_expected_rgb : (red green blue : ℕ) → Setting
  set_expected_brightness set_completion_timeout set_completion_delay : ℕ → Setting
  set_expected_effect : Option Bytes → Setting

abbrev pub first_place : Option ℕ → List ℕ
first_place none = []
first_place (some state) = state ∷ []

unfoldable pub configure : Setting → DeclarativeInboundBinding → DeclarativeInboundBinding
configure (set_light state) b = record b { lights = first_place state }
configure (add_completion_light state) b = record b { lights = add_place 4 state b.lights }
configure (add_toggle_reference_light state) b = record b {
  toggle_references = add_place 3 state b.toggle_references;
}
configure (add_rgb_light state) b = record b { rgb_lights = add_place 3 state b.rgb_lights }
configure (add_brightness_light state) b = record b {
  brightness_lights = add_place 3 state b.brightness_lights;
}
configure (add_effect_light state) b = record b {
  effect_lights = add_place 3 state b.effect_lights;
}
configure (set_expected expected) b = record b { expected = expected }
configure (set_binary_sensor sensor) b = record b { sensor = sensor }
configure (set_cover cover) b = record b { cover = cover }
configure (set_cover_expected expected) b = record b { cover_expected = expected }
configure (set_result_rgb enabled) b = record b { result_rgb = enabled }
configure (set_interruptible enabled) b = record b { interruptible = enabled }
configure (set_interrupts_active enabled) b = record b { interrupts_active = enabled }
configure (set_expected_rgb red green blue) b = record b {
  expected_rgb = red ∷ green ∷ blue ∷ [];
  check_rgb = true;
}
configure (set_expected_brightness percent) b = record b {
  expected_brightness = percent;
  check_brightness = true;
}
configure (set_completion_timeout timeout) b = record b { timeout_ms = timeout }
configure (set_completion_delay delay) b = record b {
  completion_delay_ms = delay;
  timer_completion = true;
}
configure (set_expected_effect name) b = record b { expected_effect = name }

-- `light()`
unfoldable pub light : DeclarativeInboundBinding → Option ℕ
light b = get_elem? b.lights 0

unfoldable pub configured : List Setting → DeclarativeInboundBinding → DeclarativeInboundBinding
configured [] b = b
configured (s ∷ ss) b = configured ss (configure s b)

-- Every list fits its array.
pub record IsBounded (b : DeclarativeInboundBinding) : Type 0 where
  pub lights : length b.lights ≤ 4
  pub toggle_references : length b.toggle_references ≤ 3
  pub rgb_lights : length b.rgb_lights ≤ 3
  pub brightness_lights : length b.brightness_lights ≤ 3
  pub effect_lights : length b.effect_lights ≤ 3
  pub expected_rgb : length b.expected_rgb ≤ 3

add_place-le :
    (bound : ℕ) (state : Option ℕ) (places : List ℕ)
    → length places ≤ bound
    → length (add_place bound state places) ≤ bound
unfolding add_place
add_place-le bound none places h = h
add_place-le bound (some state) places h = ground (arith, length-append places (state ∷ []))

configure-IsBounded :
    (s : Setting) (b : DeclarativeInboundBinding) → IsBounded b → IsBounded (configure s b)
unfolding configure
configure-IsBounded (set_light none) b h = omega arith
configure-IsBounded (set_light (some state)) b h = omega arith
configure-IsBounded (add_completion_light state) b h =
    omega (arith, add_place-le 4 state b.lights h.lights)
configure-IsBounded (add_toggle_reference_light state) b h =
    omega (arith, add_place-le 3 state b.toggle_references h.toggle_references)
configure-IsBounded (add_rgb_light state) b h =
    omega (arith, add_place-le 3 state b.rgb_lights h.rgb_lights)
configure-IsBounded (add_brightness_light state) b h =
    omega (arith, add_place-le 3 state b.brightness_lights h.brightness_lights)
configure-IsBounded (add_effect_light state) b h =
    omega (arith, add_place-le 3 state b.effect_lights h.effect_lights)
configure-IsBounded _ b h = omega arith

configured_from :
    (ss : List Setting) (b : DeclarativeInboundBinding) → IsBounded b → IsBounded (configured ss b)
unfolding configured
configured_from [] b h = h
configured_from (s ∷ ss) b h = configured_from ss (configure s b) (configure-IsBounded s b h)

-- Whatever calls configure a new binding, in any order and number, each list of lights stays within
-- its array.
pub configured-IsBounded : (ss : List Setting) → IsBounded (configured ss new_binding)
configured-IsBounded ss = configured_from ss new_binding (omega arith)
