-- ===== src/Tracker.antt =====
-- components/communication_net_protocol/transaction_tracker.h: the table of outstanding outbound
-- transactions. `slots_` is the list of its slots; a pointer into it is an index.
pub mod Slots
pub mod Invariant
pub mod Terminal
pub mod Deadline
use esphome_communication_ne.Prelude.{
  ℕ, Bool, true, false, not, ◌&&◌, ◌||◌, Option, none, some, List, [], ◌∷◌, ◌==◌, ltb, sub32,
  if◌then◌else◌, get_or, set, replicate, find_index?,
}

pub data TransactionStage : Type 0 where
  in_progress succeeded rejected failed expired interrupted : TransactionStage

pub data TransactionObserveStatus : Type 0 where
  accepted unknown_transaction stale_session already_terminal : TransactionObserveStatus

pub record TransactionEvent : Type 0 where
  pub transaction_id : ℕ
  pub stage : TransactionStage
  pub elapsed_ms : ℕ

pub record Slot : Type 0 where
  pub transaction_id : ℕ
  pub source_boot_id : ℕ
  pub started_ms : ℕ
  pub timeout_ms : ℕ
  pub progress : TransactionEvent
  pub terminal : TransactionEvent
  pub occupied : Bool
  pub progress_pending : Bool
  pub terminal_pending : Bool

abbrev pub no_event : TransactionEvent
no_event = record { transaction_id = 0; stage = failed; elapsed_ms = 0 }

-- `slot = {}`
abbrev pub empty_slot : Slot
empty_slot = record {
  transaction_id = 0;
  source_boot_id = 0;
  started_ms = 0;
  timeout_ms = 0;
  progress = no_event;
  terminal = no_event;
  occupied = false;
  progress_pending = false;
  terminal_pending = false;
}

abbrev pub TransactionTracker : Type 0
TransactionTracker = List Slot

-- A tracker as it is constructed.
abbrev pub empty_tracker : ℕ → TransactionTracker
empty_tracker capacity = replicate capacity empty_slot

abbrev pub slot_at : TransactionTracker → ℕ → Slot
slot_at t i = get_or t i empty_slot

abbrev pub holds : ℕ → Slot → Bool
holds transaction_id slot = slot.occupied && slot.transaction_id == transaction_id

unfoldable pub find_ : TransactionTracker → ℕ → Option ℕ
find_ t transaction_id = find_index? (holds transaction_id) t

unfoldable pub contains : TransactionTracker → ℕ → Bool
contains t transaction_id = elim (find_ t transaction_id) [ none ↦ false | some _ ↦ true ]

-- The loop of `begin`, over the first slot that is not occupied.
unfoldable pub begin : TransactionTracker → ℕ → ℕ → ℕ → ℕ → TransactionTracker × Bool
unfolding contains
begin t transaction_id source_boot_id now_ms timeout_ms =
    if transaction_id == 0 || source_boot_id == 0 || timeout_ms == 0 || contains t transaction_id
    then (t, false)
    else elim (find_index? (λ (slot : Slot). not slot.occupied) t) [
      | none ↦ (t, false)
      | some i ↦ (
        set t i (record empty_slot {
          occupied = true;
          transaction_id = transaction_id;
          source_boot_id = source_boot_id;
          started_ms = now_ms;
          timeout_ms = timeout_ms;
        }),
        true,
      )
    ]

abbrev pub is_in_progress : TransactionStage → Bool
is_in_progress in_progress = true
is_in_progress _ = false

-- The write of `observe` through the slot that it found.
unfoldable pub record_event : Slot → TransactionEvent → Slot
record_event slot event =
    if is_in_progress event.stage
    then record slot { progress = event; progress_pending = true }
    else record slot { terminal = event; terminal_pending = true }

unfoldable pub observe :
    TransactionTracker
    → ℕ
    → ℕ
    → TransactionStage
    → ℕ
    → TransactionTracker × TransactionObserveStatus
observe t transaction_id source_boot_id stage now_ms = elim (find_ t transaction_id) [
  | none ↦ (t, unknown_transaction)
  | some i ↦
      let slot = slot_at t i in
      if not (slot.source_boot_id == source_boot_id)
      then (t, stale_session)
      else if slot.terminal_pending
      then (t, already_terminal)
      else (
        set t i (
            record_event slot (record {
              transaction_id = transaction_id;
              stage = stage;
              elapsed_ms = sub32 now_ms slot.started_ms;
            })),
        accepted,
      )
]

-- `find_(transaction_id)->progress_pending = false`
unfoldable pub drop_progress : TransactionTracker → ℕ → TransactionTracker
drop_progress t transaction_id = elim (find_ t transaction_id) [
  | none ↦ t
  | some i ↦ set t i (record (slot_at t i) { progress_pending = false })
]

abbrev pub is_accepted : TransactionObserveStatus → Bool
is_accepted accepted = true
is_accepted _ = false

unfoldable pub confirm_interruption :
    TransactionTracker → ℕ → ℕ → ℕ → TransactionTracker × TransactionObserveStatus
confirm_interruption t transaction_id source_boot_id now_ms =
    let (t', status) = observe t transaction_id source_boot_id interrupted now_ms in
    (if is_accepted status then drop_progress t' transaction_id else t', status)

-- The body of the loop of `expire`.
unfoldable pub expire_slot : ℕ → Slot → Slot
expire_slot now_ms slot =
    if not slot.occupied
      || slot.terminal_pending
      || ltb (sub32 now_ms slot.started_ms) slot.timeout_ms
    then slot
    else record slot {
      terminal = record {
        transaction_id = slot.transaction_id;
        stage = expired;
        elapsed_ms = sub32 now_ms slot.started_ms;
      };
      terminal_pending = true;
    }

unfoldable pub expire : ℕ → TransactionTracker → TransactionTracker
unfolding expire_slot
expire now_ms [] = []
expire now_ms (slot ∷ t) = expire_slot now_ms slot ∷ expire now_ms t

-- The body of the loop of `take_event`: what the slot yields, and what it becomes.
unfoldable pub take_slot : Slot → Option (TransactionEvent × Slot)
take_slot slot =
    if not slot.occupied
    then none
    else if slot.progress_pending
    then some (slot.progress, record slot { progress_pending = false })
    else if slot.terminal_pending
    then some (slot.terminal, empty_slot)
    else none

unfoldable pub take_event : TransactionTracker → TransactionTracker × Option TransactionEvent
unfolding take_slot
take_event [] = ([], none)
take_event (slot ∷ t) =
    let (t', taken) = take_event t in
    elim (take_slot slot) [
      | none ↦ (slot ∷ t', taken)
      | some (event, slot') ↦ (slot' ∷ t, some event)
    ]

unfoldable pub observe_result :
    TransactionTracker → ℕ → TransactionStage → ℕ → TransactionTracker × TransactionObserveStatus
observe_result t transaction_id stage now_ms = elim (find_ t transaction_id) [
  | none ↦ (t, unknown_transaction)
  | some i ↦ observe t transaction_id (slot_at t i).source_boot_id stage now_ms
]

-- The calls that change the table, from any caller and in any order.
pub data Call : Type 0 where
  begin_call : (transaction_id source_boot_id now_ms timeout_ms : ℕ) → Call
  observe_call : (transaction_id source_boot_id : ℕ) (stage : TransactionStage) (now_ms : ℕ) → Call
  result_call : (transaction_id : ℕ) (stage : TransactionStage) (now_ms : ℕ) → Call
  interruption_call : (transaction_id source_boot_id now_ms : ℕ) → Call
  expire_call : (now_ms : ℕ) → Call
  take_call : Call

unfoldable pub after : Call → TransactionTracker → TransactionTracker
after (begin_call k boot now timeout) t = (begin t k boot now timeout).0
after (observe_call k boot stage now) t = (observe t k boot stage now).0
after (result_call k stage now) t = (observe_result t k stage now).0
after (interruption_call k boot now) t = (confirm_interruption t k boot now).0
after (expire_call now) t = expire now t
after take_call t = (take_event t).0

unfoldable pub run : List Call → TransactionTracker → TransactionTracker
run [] t = t
run (c ∷ cs) t = run cs (after c t)
