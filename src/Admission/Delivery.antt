-- ===== src/Admission/Delivery.antt =====
-- route_admission.h: a route is handed out for execution once.
use native.Mathlib.Nat.{le_trans}
use esphome_communication_ne.Admission.{
  RouteAdmission, admission_limits, set_local_device, routed, id_if_new, admit, complete,
  clear_old_terminal_session,
}
use esphome_communication_ne.Gate.{InboundCommandView}
use esphome_communication_ne.Prelude.{
  ℕ, ◌+◌, ◌≤◌, Bool, false, ◌&&◌, Option, none, some, List, [], ◌∷◌, ◌++◌, ◌==◌, arith,
  if◌then◌else◌, Bytes, block, str_eq, Option-cases, inl, inr,
}
use esphome_communication_ne.Registry.{InboundRouteRegistry}
use esphome_communication_ne.Replay
use esphome_communication_ne.Replay.Once.{is_new, admits, admissions, admissions-le_one}
use esphome_communication_ne.Replay.{
  InboundReplayGuard, InboundDecision, InboundTerminalView, new_command, empty_guard,
}

-- The calls of both transport adapters.
pub data Call : Type 0 where
  device_call : (device : Option Bytes) → Call
  admit_call : (view : InboundCommandView) → Call
  complete_call : (view : InboundCommandView) (terminal : InboundTerminalView) → Call
  clear_call : (source_id : Option Bytes) (old_boot_id : ℕ) → Call

unfoldable pub after : RouteAdmission → Call → RouteAdmission
unfolding set_local_device
after a (device_call device) = set_local_device a device
after a (admit_call view) = (admit a view).0
after a (complete_call view terminal) = (complete a view terminal).0
after a (clear_call source_id boot) = (clear_old_terminal_session a source_id boot).0

abbrev pub is_from : Bytes → ℕ → ℕ → InboundCommandView → Bool
is_from source boot k view =
    (elim view.source_id [ none ↦ false | some id ↦ str_eq id source ])
    && view.source_boot_id == boot
    && view.transaction_id == k

abbrev pub one_if_some : Option Bytes → ℕ
one_if_some none = 0
one_if_some (some id) = 1

-- 1 if the call hands out a route for this transaction, else 0.
unfoldable pub executes : RouteAdmission → Call → Bytes → ℕ → ℕ → ℕ
executes a (admit_call view) source boot k =
    if is_from source boot k view then one_if_some (admit a view).2 else 0
executes a _ source boot k = 0

unfoldable pub executions : RouteAdmission → List Call → Bytes → ℕ → ℕ → ℕ
executions a [] source boot k = 0
executions a (c ∷ cs) source boot k =
    executes a c source boot k + executions (after a c) cs source boot k

-- The call that reaches the replay guard, if any.
guard_call : RouteAdmission → Call → List Replay.Call
guard_call a (device_call device) = []
guard_call a (admit_call view) = elim (routed a view) [
  | none ↦ []
  | some (id, command) ↦
      Replay.Call.begin_call view.source_id view.source_boot_id view.transaction_id (block command)
      ∷ []
]
guard_call a (complete_call view terminal) = elim (routed a view) [
  | none ↦ []
  | some (id, command) ↦
      Replay.Call.finish_call view.source_id view.source_boot_id view.transaction_id (block command)
        terminal
      ∷ []
]
guard_call a (clear_call source_id boot) = Replay.Call.clear_call source_id boot ∷ []

guard_calls : RouteAdmission → List Call → List Replay.Call
guard_calls a [] = []
guard_calls a (c ∷ cs) = guard_call a c ++ guard_calls (after a c) cs

-- A route goes out only with the decision that admits.
new-le-is_new :
    (id : Bytes) (d : InboundDecision) → one_if_some (id_if_new id d) ≤ (if is_new d then 1 else 0)
new-le-is_new id new_command = omega arith
new-le-is_new id _ = omega arith

handed-le-admits :
    (g : InboundReplayGuard) (source_id : Option Bytes) (b t : ℕ) (id command source : Bytes)
    (boot k : ℕ)
    → (if (elim source_id [ none ↦ false | some x ↦ str_eq x source ]) && b == boot && t == k
        then one_if_some
            (id_if_new id (Replay.begin admission_limits g source_id b t (block command)).1)
        else 0)
      ≤ admits admission_limits g
          (Replay.Call.begin_call source_id b t (block command))
          source
          boot
          k
unfolding admits
handed-le-admits g none b t id command source boot k = omega arith
handed-le-admits g (some x) b t id command source boot k =
    ground
      (arith, new-le-is_new id (Replay.begin admission_limits g (some x) b t (block command)).1)

-- One call of the gate hands out at most what its call of the guard admits, and leaves the guard
-- that this call leaves.
step-le-admissions :
    (a : RouteAdmission) (c : Call) (rest : List Replay.Call) (source : Bytes) (boot k n : ℕ)
    → n ≤ admissions admission_limits (after a c).gate rest source boot k
    → executes a c source boot k + n
      ≤ admissions admission_limits a.gate (guard_call a c ++ rest) source boot k
unfolding executes after guard_call admissions admits Replay.after admit complete
    clear_old_terminal_session
step-le-admissions a (device_call device) rest source boot k n h = omega arith
step-le-admissions a (admit_call view) rest source boot k n h =
    elim (Option-cases (routed a view)) [
      | inl e ↦ ground arith
      | inr ((id, command), e) ↦ ground (
        arith,
        e,
        handed-le-admits a.gate view.source_id view.source_boot_id view.transaction_id id command
            source boot k,
      )
    ]
step-le-admissions a (complete_call view terminal) rest source boot k n h =
    elim (Option-cases (routed a view)) [
      | inl e ↦ ground arith
      | inr ((id, command), e) ↦ ground arith
    ]
step-le-admissions a (clear_call source_id old) rest source boot k n h = omega arith

executions-le-admissions :
    (cs : List Call) (a : RouteAdmission) (source : Bytes) (boot k : ℕ)
    → executions a cs source boot k
      ≤ admissions admission_limits a.gate (guard_calls a cs) source boot k
unfolding executions guard_calls
executions-le-admissions [] a source boot k = omega arith
executions-le-admissions (c ∷ cs) a source boot k =
    step-le-admissions a c (guard_calls (after a c) cs) source boot k _
      (executions-le-admissions cs (after a c) source boot k)

-- A receiver with a new guard of a capacity of at most 16, whatever its routes and its device,
-- hands out a route for execution at most once for one transaction of one session of one sender,
-- over every sequence of calls of its gate: retries, completions, session changes and changes of
-- the device name included.
pub executions-le_one :
    (device : Option Bytes) (routes : InboundRouteRegistry) (capacity : ℕ) (cs : List Call)
    (source : Bytes) (boot k : ℕ)
    → capacity ≤ 16
    → executions
        (record {
          local_device = device;
          routes = routes;
          gate = empty_guard admission_limits capacity;
        })
        cs
        source
        boot
        k
      ≤ 1
executions-le_one device routes capacity cs source boot k small =
    le_trans
      (executions-le-admissions cs
        (record {
          local_device = device;
          routes = routes;
          gate = empty_guard admission_limits capacity;
        })
        source boot k)
      (admissions-le_one admission_limits capacity
        (guard_calls
          (record {
            local_device = device;
            routes = routes;
            gate = empty_guard admission_limits capacity;
          })
          cs)
        source boot k small)
