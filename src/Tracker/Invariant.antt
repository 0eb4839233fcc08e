-- ===== src/Tracker/Invariant.antt =====
-- transaction_tracker.h: what holds of the table in every state that the calls can reach.
use esphome_communication_ne.Prelude.{
  ℕ, zero, suc, true, false, not, ◌||◌, some, List, [], ◌∷◌, ◌==◌, ◌<◌, ◌≡◌, ◌≢◌, inl, inr, refl,
  arith, if◌then◌else◌, set, length, get_or-set, find_index?, find_index?-some, Option-cases,
  Bool-cases, ltb, sub32,
}
use esphome_communication_ne.Tracker.{
  TransactionTracker, TransactionStage, TransactionEvent, Slot, slot_at, holds, empty_slot, find_,
  contains, begin, observe, record_event, drop_progress, confirm_interruption, expire, expire_slot,
  take_event, take_slot, observe_result, is_in_progress, empty_tracker, interrupted, Call,
  begin_call, observe_call, result_call, interruption_call, expire_call, take_call, after, run,
}
use esphome_communication_ne.Tracker.Slots.{
  find_-some, find_-none, contains-find_, slot_at-expire, take_event-cases, observe-cases,
}

-- A slot names its transaction, its pending events are events of that transaction, and only a
-- final stage stands as the terminal event.
pub record SlotIsValid (s : Slot) : Type 0 where
  pub names :
      s.occupied ≡ true → (s.transaction_id ≢ 0) × (s.source_boot_id ≢ 0) × (s.timeout_ms ≢ 0)
  pub progress :
      s.progress_pending ≡ true
      → (s.occupied ≡ true)
        × (s.progress.transaction_id ≡ s.transaction_id)
        × (is_in_progress s.progress.stage ≡ true)
  pub terminal :
      s.terminal_pending ≡ true
      → (s.occupied ≡ true)
        × (s.terminal.transaction_id ≡ s.transaction_id)
        × (is_in_progress s.terminal.stage ≡ false)

pub record IsValid (t : TransactionTracker) : Type 0 where
  pub slots : (j : ℕ) → SlotIsValid (slot_at t j)
  pub unique : (i j k : ℕ) → holds k (slot_at t i) ≡ true → holds k (slot_at t j) ≡ true → i ≡ j

-- A write that holds no transaction but what stood there keeps the table valid.
pub set-IsValid :
    (t : TransactionTracker) (i : ℕ) (v : Slot)
    → i < length t
    → IsValid t
    → SlotIsValid v
    → ((k j : ℕ) → holds k v ≡ true → holds k (slot_at t j) ≡ true → i ≡ j)
    → IsValid (set t i v)
set-IsValid t i v l h hv own = record {
  slots = λ j. rw (get_or-set t i j v empty_slot l) (slots j);
  unique = unique;
}
  where
    slots : (j : ℕ) → SlotIsValid (if i == j then v else slot_at t j)
    slots j = elim (Bool-cases (i == j)) [ inl e ↦ rw e hv | inr e ↦ rw e (h.slots j) ]

    unique :
        (a b k : ℕ)
        → holds k (slot_at (set t i v) a) ≡ true
        → holds k (slot_at (set t i v) b) ≡ true
        → a ≡ b
    unique a b k p q = ground (
      arith,
      get_or-set t i a v empty_slot l,
      get_or-set t i b v empty_slot l,
      own k a,
      own k b,
      h.unique a b k,
    )

empty_slot-SlotIsValid : SlotIsValid empty_slot
empty_slot-SlotIsValid = record { names = λ e. cc; progress = λ e. cc; terminal = λ e. cc }

empty_tracker-IsValid : (n : ℕ) → IsValid (empty_tracker n)
empty_tracker-IsValid n = record {
  slots = λ j. rw (blank n j) empty_slot-SlotIsValid;
  unique = λ i j k p q. ground (arith, blank n i);
}
  where
    blank : (n j : ℕ) → slot_at (empty_tracker n) j ≡ empty_slot
    blank zero j = refl
    blank (suc n) zero = refl
    blank (suc n) (suc j) = blank n j

begin-IsValid :
    (t : TransactionTracker) (k boot now timeout : ℕ)
    → IsValid t
    → IsValid (begin t k boot now timeout).0
unfolding begin
begin-IsValid t k boot now timeout h =
    elim (Bool-cases (k == 0 || boot == 0 || timeout == 0 || contains t k)) [
      | inl e ↦ rw e h
      | inr e ↦ rw e (elim (Option-cases (find_index? (λ (s : Slot). not s.occupied) t)) [
        | inl f ↦ rw (f, begin) h
        | inr (i, f) ↦
            rw (f, begin)
              (set-IsValid t i _
                (find_index?-some (λ (s : Slot). not s.occupied) t i empty_slot f).0 h
                (record { names = λ _. ground arith; progress = λ p. cc; terminal = λ p. cc })
                (λ q j a b.
                  absurd (ground (arith, find_-none t k j (contains-find_ t k (ground arith))))))
      ])
    ]

record_event-SlotIsValid :
    (s : Slot) (k now : ℕ) (stage : TransactionStage)
    → SlotIsValid s
    → holds k s ≡ true
    → SlotIsValid (record_event s (record { transaction_id = k; stage = stage; elapsed_ms = now }))
unfolding record_event
record_event-SlotIsValid s k now stage h e = elim (Bool-cases (is_in_progress stage)) [
  | inl p ↦ rw p (record { names = h.names; progress = λ _. ground arith; terminal = h.terminal })
  | inr p ↦ rw p (record { names = h.names; progress = h.progress; terminal = λ _. ground arith })
]

-- A write through the pointer that `find_` gave.
write-IsValid :
    (t : TransactionTracker) (k i : ℕ) (v : Slot)
    → find_ t k ≡ some i
    → IsValid t
    → SlotIsValid v
    → v.occupied ≡ (slot_at t i).occupied
    → v.transaction_id ≡ (slot_at t i).transaction_id
    → IsValid (set t i v)
write-IsValid t k i v f h hv o e =
    set-IsValid t i v (find_-some t k i f).0 h hv (λ q j a b. h.unique i j q (ground arith) b)

observe-IsValid :
    (t : TransactionTracker) (k boot now : ℕ) (stage : TransactionStage)
    → IsValid t
    → IsValid (observe t k boot stage now).0
observe-IsValid t k boot now stage h = elim (observe-cases t k boot stage now) [
  | inl r ↦ rw r.result h
  | inr r ↦ rw r.result (
      write-IsValid t k r.index _ r.found h
        (record_event-SlotIsValid (slot_at t r.index) k _ stage (h.slots r.index)
          (find_-some t k r.index r.found).1)
        (unfold record_event in ground arith) (unfold record_event in ground arith))
]

drop_progress-IsValid : (t : TransactionTracker) (k : ℕ) → IsValid t → IsValid (drop_progress t k)
unfolding drop_progress
drop_progress-IsValid t k h = elim (Option-cases (find_ t k)) [
  | inl e ↦ rw (e, drop_progress) h
  | inr (i, e) ↦
      rw (e, drop_progress)
        (write-IsValid t k i _ e h
          (record {
            names = (h.slots i).names;
            progress = λ p. cc;
            terminal = (h.slots i).terminal;
          })
          refl refl)
]

confirm_interruption-IsValid :
    (t : TransactionTracker) (k boot now : ℕ)
    → IsValid t
    → IsValid (confirm_interruption t k boot now).0
unfolding confirm_interruption
confirm_interruption-IsValid t k boot now h = ground (
  arith,
  observe-IsValid t k boot now interrupted h,
  drop_progress-IsValid (observe t k boot interrupted now).0 k,
)

expire_slot-SlotIsValid : (now : ℕ) (s : Slot) → SlotIsValid s → SlotIsValid (expire_slot now s)
unfolding expire_slot
expire_slot-SlotIsValid now s h =
    elim (Bool-cases
      (not s.occupied || s.terminal_pending || ltb (sub32 now s.started_ms) s.timeout_ms)) [
        | inl e ↦ rw e h
        | inr e ↦ rw e (record {
          names = h.names;
          progress = h.progress;
          terminal = λ _. (ground arith, refl, refl);
        })
      ]

expire-IsValid : (now : ℕ) (t : TransactionTracker) → IsValid t → IsValid (expire now t)
unfolding expire_slot
expire-IsValid now t h = record {
  slots = λ j. rw (slot_at-expire now t j) (expire_slot-SlotIsValid now _ (h.slots j));
  unique = λ i j k p q.
      h.unique i j k (ground (arith, slot_at-expire now t i))
        (ground (arith, slot_at-expire now t j));
}

take_slot-SlotIsValid :
    (s : Slot) {e : TransactionEvent} {s' : Slot}
    → take_slot s ≡ some (e, s')
    → SlotIsValid s
    → SlotIsValid s'
unfolding take_slot
take_slot-SlotIsValid s r h = record {
  names = λ p. ground (arith, h.names, r);
  progress = λ p. ground (arith, h.progress, r);
  terminal = λ p. ground (arith, h.terminal, r);
}

take_event-IsValid : (t : TransactionTracker) → IsValid t → IsValid (take_event t).0
take_event-IsValid t h = elim (take_event-cases t) [
  | inl n ↦ rw n.unchanged h
  | inr a ↦ rw a.result (
      set-IsValid t a.index a.left a.inside h (take_slot-SlotIsValid _ a.ready (h.slots a.index))
        (λ k j p q. h.unique a.index j k (unfold take_slot in ground (arith, a.ready)) q))
]

observe_result-IsValid :
    (t : TransactionTracker) (k now : ℕ) (stage : TransactionStage)
    → IsValid t
    → IsValid (observe_result t k stage now).0
unfolding observe_result
observe_result-IsValid t k now stage h = elim (Option-cases (find_ t k)) [
  | inl e ↦ rw (e, observe_result) h
  | inr (i, e) ↦ rw (e, observe_result) (observe-IsValid t k _ now stage h)
]

pub after-IsValid : (c : Call) (t : TransactionTracker) → IsValid t → IsValid (after c t)
unfolding after
after-IsValid (begin_call k boot now timeout) t h = begin-IsValid t k boot now timeout h
after-IsValid (observe_call k boot stage now) t h = observe-IsValid t k boot now stage h
after-IsValid (result_call k stage now) t h = observe_result-IsValid t k now stage h
after-IsValid (interruption_call k boot now) t h = confirm_interruption-IsValid t k boot now h
after-IsValid (expire_call now) t h = expire-IsValid now t h
after-IsValid take_call t h = take_event-IsValid t h

run-IsValid_from : (cs : List Call) (t : TransactionTracker) → IsValid t → IsValid (run cs t)
unfolding run
run-IsValid_from [] t h = h
run-IsValid_from (c ∷ cs) t h = run-IsValid_from cs (after c t) (after-IsValid c t h)

-- From a new tracker of any capacity, every sequence of calls leaves a table in which no two slots
-- hold one transaction, every occupied slot has a transaction, a session and a timeout, a pending
-- progress event is an in-progress event of the slot's transaction, and a pending terminal event
-- is an event of that transaction with a final stage.
pub run-IsValid : (capacity : ℕ) (cs : List Call) → IsValid (run cs (empty_tracker capacity))
run-IsValid capacity cs =
    run-IsValid_from cs (empty_tracker capacity) (empty_tracker-IsValid capacity)
