-- ===== src/Tracker/Slots.antt =====
-- transaction_tracker.h: what the loops over the slots find and leave.
use esphome_communication_ne.Prelude.{
  ℕ, zero, suc, true, false, none, some, [], ◌∷◌, ◌==◌, ◌<◌, ◌≡◌, ◌⊎◌, inl, inr, refl, arith, set,
  length, find_index?-some, find_index?-none, Option-cases, sub32, ◌≢◌, Bool-cases,
}
use esphome_communication_ne.Tracker.{
  TransactionTracker, TransactionEvent, Slot, slot_at, holds, empty_slot, find_, contains, expire,
  expire_slot, take_event, take_slot, TransactionStage, TransactionObserveStatus, accepted,
  unknown_transaction, stale_session, already_terminal, observe, record_event,
}

pub find_-some :
    (t : TransactionTracker) (k i : ℕ)
    → find_ t k ≡ some i
    → (i < length t) × (holds k (slot_at t i) ≡ true)
unfolding find_
find_-some t k i h = find_index?-some (holds k) t i empty_slot h

-- What lies outside the table is empty.
slot_at_outside : (t : TransactionTracker) (j : ℕ) → (j < length t) ⊎ (slot_at t j ≡ empty_slot)
slot_at_outside [] j = inr refl
slot_at_outside (s ∷ t) zero = inl (omega arith)
slot_at_outside (s ∷ t) (suc j) = elim (slot_at_outside t j) [
  | inl h ↦ inl (omega arith)
  | inr h ↦ inr h
]

pub find_-none :
    (t : TransactionTracker) (k j : ℕ) → find_ t k ≡ none → holds k (slot_at t j) ≡ false
unfolding find_
find_-none t k j h = elim (slot_at_outside t j) [
  | inl l ↦ find_index?-none (holds k) t j empty_slot h l
  | inr e ↦ ground arith
]

pub contains-false :
    (t : TransactionTracker) (k : ℕ)
    → ((j : ℕ) → holds k (slot_at t j) ≡ false)
    → contains t k ≡ false
unfolding contains
contains-false t k h = elim (Option-cases (find_ t k)) [
  | inl e ↦ rw (e, contains) refl
  | inr (i, e) ↦ ground (arith, h i, find_-some t k i e)
]

pub contains-find_ : (t : TransactionTracker) (k : ℕ) → contains t k ≡ false → find_ t k ≡ none
unfolding contains
contains-find_ t k h = ground arith

pub slot_at-expire :
    (now : ℕ) (t : TransactionTracker) (j : ℕ)
    → slot_at (expire now t) j ≡ expire_slot now (slot_at t j)
unfolding expire expire_slot
slot_at-expire now [] j = refl
slot_at-expire now (s ∷ t) zero = refl
slot_at-expire now (s ∷ t) (suc j) = slot_at-expire now t j

pub length-expire : (now : ℕ) (t : TransactionTracker) → length (expire now t) ≡ length t
unfolding expire
length-expire now [] = refl
length-expire now (s ∷ t) = omega (arith, length-expire now t)

-- Nothing is ready.
pub record TakesNothing (t : TransactionTracker) : Type 0 where
  pub unchanged : take_event t ≡ (t, none)
  pub silent : (j : ℕ) → take_slot (slot_at t j) ≡ none

-- The slot at `index` is the first that is ready; it yields `event`.
pub record TakesAt (t : TransactionTracker) : Type 0 where
  pub index : ℕ
  pub event : TransactionEvent
  pub left : Slot
  pub inside : index < length t
  pub ready : take_slot (slot_at t index) ≡ some (event, left)
  pub result : take_event t ≡ (set t index left, some event)
  pub first : (j : ℕ) → j < index → take_slot (slot_at t j) ≡ none

pub take_event-cases : (t : TransactionTracker) → TakesNothing t ⊎ TakesAt t
unfolding take_event
take_event-cases [] = inl (record { unchanged = refl; silent = λ j. unfold take_slot in refl })
take_event-cases (s ∷ t) = elim (Option-cases (take_slot s)) [
  | inr ((e, s'), ready) ↦ inr (record {
    index = 0;
    event = e;
    left = s';
    inside = omega arith;
    ready = ready;
    result = rw (ready, take_event) refl;
    first = λ j h. elim h [ ];
  })
  | inl none_here ↦ elim (take_event-cases t) [
    | inl rest ↦ inl (record {
      unchanged = rw (none_here, take_event) (rw rest.unchanged refl);
      silent = elim [ zero ↦ none_here | suc j ↦ rest.silent j ];
    })
    | inr rest ↦ inr (record {
      index = suc rest.index;
      event = rest.event;
      left = rest.left;
      inside = omega (arith, rest.inside);
      ready = rest.ready;
      result = rw (none_here, take_event) (rw rest.result refl);
      first = elim [ zero ↦ λ _. none_here | suc j ↦ λ h. rest.first j (omega arith) ];
    })
  ]
]

-- The slot that `observe` writes, and what it writes.
pub record Records (t : TransactionTracker) (k boot : ℕ) (stage : TransactionStage) (now : ℕ)
    : Type 0 where
  pub index : ℕ
  pub found : find_ t k ≡ some index
  pub session : (slot_at t index).source_boot_id ≡ boot
  pub open_slot : (slot_at t index).terminal_pending ≡ false
  pub result : observe t k boot stage now ≡ (
    set t index (
        record_event (slot_at t index) (record {
          transaction_id = k;
          stage = stage;
          elapsed_ms = sub32 now (slot_at t index).started_ms;
        })),
    accepted,
  )

pub record Refuses (t : TransactionTracker) (k boot : ℕ) (stage : TransactionStage) (now : ℕ)
    : Type 0 where
  pub status : TransactionObserveStatus
  pub refused : status ≢ accepted
  pub result : observe t k boot stage now ≡ (t, status)

pub observe-cases :
    (t : TransactionTracker) (k boot : ℕ) (stage : TransactionStage) (now : ℕ)
    → Refuses t k boot stage now ⊎ Records t k boot stage now
unfolding observe
observe-cases t k boot stage now = elim (Option-cases (find_ t k)) [
  | inl e ↦ inl (record { status = unknown_transaction; refused = λ p. cc; result = ground arith })
  | inr (i, e) ↦ elim (Bool-cases ((slot_at t i).source_boot_id == boot)) [
    | inr b ↦ inl (record { status = stale_session; refused = λ p. cc; result = ground arith })
    | inl b ↦ elim (Bool-cases (slot_at t i).terminal_pending) [
      | inl d ↦ inl (record { status = already_terminal; refused = λ p. cc; result = ground arith })
      | inr d ↦ inr (record {
        index = i;
        found = e;
        session = ground arith;
        open_slot = d;
        result = ground arith;
      })
    ]
  ]
]
