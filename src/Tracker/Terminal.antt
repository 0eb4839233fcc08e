-- ===== src/Tracker/Terminal.antt =====
-- transaction_tracker.h: what becomes of a final outcome once it is recorded.
use esphome_communication_ne.Prelude.{
  ℕ, true, false, not, some, ◌==◌, ◌<◌, ◌≡◌, ◌≢◌, ◌⊎◌, inl, inr, refl, ◌∙◌, arith, if◌then◌else◌,
  set, length, get_or-set, get_or-set_ne, get_or-set_self, find_index?, find_index?-some,
  find_index?-set, Option-cases, Bool-cases, length-set, sub32, ◌||◌,
}
use esphome_communication_ne.Tracker.{
  TransactionTracker, TransactionStage, TransactionEvent, Slot, slot_at, holds, empty_slot, find_,
  contains, begin, observe, record_event, drop_progress, confirm_interruption, expire, expire_slot,
  take_event, take_slot, observe_result, is_in_progress, interrupted, is_accepted, accepted, Call,
  begin_call, observe_call, result_call, interruption_call, expire_call, take_call, after,
}
use esphome_communication_ne.Tracker.Slots.{
  find_-some, contains-false, slot_at-expire, take_event-cases, observe-cases,
}
use esphome_communication_ne.Tracker.Invariant.{IsValid}

-- The final outcome `e` of the transaction `k` waits to be taken.
pub record IsPending (k : ℕ) (e : TransactionEvent) (t : TransactionTracker) : Type 0 where
  pub index : ℕ
  pub held : holds k (slot_at t index) ≡ true
  pub pending : (slot_at t index).terminal_pending ≡ true
  pub outcome : (slot_at t index).terminal ≡ e

module _ (k : ℕ) (e : TransactionEvent) where
  -- A write to another slot.
  set-IsPending :
      (t : TransactionTracker) (i : ℕ) (v : Slot) (w : IsPending k e t)
      → i ≢ w.index
      → IsPending k e (set t i v)
  set-IsPending t i v w n =
      let same = get_or-set_ne t i w.index v empty_slot n in
      record {
        index = w.index;
        held = rw same w.held;
        pending = rw same w.pending;
        outcome = rw same w.outcome;
      }

  begin-IsPending :
      (t : TransactionTracker) (j boot now timeout : ℕ)
      → IsPending k e t
      → IsPending k e (begin t j boot now timeout).0
  unfolding begin
  begin-IsPending t j boot now timeout w =
      elim (Bool-cases (j == 0 || boot == 0 || timeout == 0 || contains t j)) [
        | inl p ↦ rw p w
        | inr p ↦ rw p (elim (Option-cases (find_index? (λ (s : Slot). not s.occupied) t)) [
          | inl f ↦ rw (f, begin) w
          | inr (i, f) ↦
              rw (f, begin)
                (set-IsPending t i _ w (λ same. ground (
                  arith,
                  same,
                  w.held,
                  find_index?-some (λ (s : Slot). not s.occupied) t i empty_slot f,
                )))
        ])
      ]

  observe-IsPending :
      (t : TransactionTracker) (j boot now : ℕ) (stage : TransactionStage)
      → IsPending k e t
      → IsPending k e (observe t j boot stage now).0
  observe-IsPending t j boot now stage w = elim (observe-cases t j boot stage now) [
    | inl r ↦ rw r.result w
    | inr r ↦
        rw r.result
          (set-IsPending t r.index _ w (λ same. ground (arith, same, w.pending, r.open_slot)))
  ]

  drop_progress-IsPending :
      (t : TransactionTracker) (j : ℕ) → IsPending k e t → IsPending k e (drop_progress t j)
  unfolding drop_progress
  drop_progress-IsPending t j w = elim (Option-cases (find_ t j)) [
    | inl f ↦ rw (f, drop_progress) w
    | inr (i, f) ↦
        let s = record (slot_at t i) { progress_pending = false } in
        let read = get_or-set t i w.index s empty_slot (find_-some t j i f).0 in
        rw (f, drop_progress)
          (record {
            index = w.index;
            held = ground (arith, read, w.held);
            pending = ground (arith, read, w.pending);
            outcome = ground (arith, read, w.outcome);
          })
  ]

  observe_result-IsPending :
      (t : TransactionTracker) (j now : ℕ) (stage : TransactionStage)
      → IsPending k e t
      → IsPending k e (observe_result t j stage now).0
  unfolding observe_result
  observe_result-IsPending t j now stage w = elim (Option-cases (find_ t j)) [
    | inl f ↦ rw (f, observe_result) w
    | inr (i, f) ↦ rw (f, observe_result) (observe-IsPending t j _ now stage w)
  ]

  confirm_interruption-IsPending :
      (t : TransactionTracker) (j boot now : ℕ)
      → IsPending k e t
      → IsPending k e (confirm_interruption t j boot now).0
  unfolding confirm_interruption
  confirm_interruption-IsPending t j boot now w =
      let w' = observe-IsPending t j boot now interrupted w in
      elim (Bool-cases (is_accepted (observe t j boot interrupted now).1)) [
        | inl a ↦ rw a (drop_progress-IsPending _ j w')
        | inr a ↦ rw a w'
      ]

  expire-IsPending :
      (now : ℕ) (t : TransactionTracker) → IsPending k e t → IsPending k e (expire now t)
  unfolding expire_slot
  expire-IsPending now t w =
      let read = slot_at-expire now t w.index in
      record {
        index = w.index;
        held = ground (arith, read, w.held, w.pending);
        pending = ground (arith, read, w.pending);
        outcome = ground (arith, read, w.outcome, w.pending);
      }

  -- The slot that holds the outcome yields its progress first, and then the outcome.
  take_own_slot :
      (t : TransactionTracker) (i : ℕ) (event : TransactionEvent) (left : Slot)
      → IsValid t
      → i < length t
      → take_slot (slot_at t i) ≡ some (event, left)
      → holds k (slot_at t i) ≡ true
      → (slot_at t i).terminal_pending ≡ true
      → (slot_at t i).terminal ≡ e
      → IsPending k e (set t i left) ⊎ ((some event ≡ some e) × (contains (set t i left) k ≡ false))
  unfolding take_slot
  take_own_slot t i event left h l ready held pending outcome =
      elim (Bool-cases (slot_at t i).progress_pending) [
        | inl p ↦
            let read = get_or-set_self t i left empty_slot l in
            inl (record {
              index = i;
              held = ground (arith, read);
              pending = ground (arith, read);
              outcome = ground (arith, read);
            })
        | inr p ↦ inr (
          ground arith,
          contains-false (set t i left) k (λ j. ground (
            arith,
            get_or-set t i j left empty_slot l,
            h.unique i j k,
            Bool-cases (holds k (slot_at t j)),
          )),
        )
      ]

  -- What the take does to the slot that holds the outcome.
  take_event-IsPending :
      (t : TransactionTracker)
      → IsValid t
      → IsPending k e t
      → IsPending k e (take_event t).0
        ⊎ (((take_event t).1 ≡ some e) × (contains (take_event t).0 k ≡ false))
  take_event-IsPending t h w = elim (take_event-cases t) [
    | inl n ↦ rw n.unchanged (inl w)
    | inr a ↦ rw a.result (elim (Bool-cases (a.index == w.index)) [
      | inr other ↦ inl (set-IsPending t a.index a.left w (ground arith))
      | inl same ↦
          let e' : w.index ≡ a.index = ground arith in
          take_own_slot t a.index a.event a.left h a.inside a.ready (rw e' at w.held)
            (rw e' at w.pending) (rw e' at w.outcome)
    ])
  ]

-- A final outcome, once recorded, is not lost and not overwritten: in a valid table, whatever the
-- next call is, the outcome of the transaction is still pending after it, or the call is a
-- `take_event` that returns this very outcome and after which the table does not contain the
-- transaction.
pub after-IsPending :
    (k : ℕ) (e : TransactionEvent) (c : Call) (t : TransactionTracker)
    → IsValid t
    → IsPending k e t
    → IsPending k e (after c t)
      ⊎ ((c ≡ take_call) × ((take_event t).1 ≡ some e) × (contains (after c t) k ≡ false))
unfolding after
after-IsPending k e (begin_call j boot now timeout) t h w =
    inl (begin-IsPending k e t j boot now timeout w)
after-IsPending k e (observe_call j boot stage now) t h w =
    inl (observe-IsPending k e t j boot now stage w)
after-IsPending k e (result_call j stage now) t h w =
    inl (observe_result-IsPending k e t j now stage w)
after-IsPending k e (interruption_call j boot now) t h w =
    inl (confirm_interruption-IsPending k e t j boot now w)
after-IsPending k e (expire_call now) t h w = inl (expire-IsPending k e now t w)
after-IsPending k e take_call t h w = elim (take_event-IsPending k e t h w) [
  | inl v ↦ inl v
  | inr v ↦ inr (refl, v.0, v.1)
]

-- The slots of `t'` are those of `t` but for the slot `i`, which is `v`.
abbrev pub OnlyAt : TransactionTracker → TransactionTracker → ℕ → Slot → Type 0
OnlyAt t t' i v =
    (slot_at t' i ≡ v) × ((j : ℕ) → i ≢ j → slot_at t' j ≡ slot_at t j) × (length t' ≡ length t)

set-OnlyAt : (t : TransactionTracker) (i : ℕ) (v : Slot) → i < length t → OnlyAt t (set t i v) i v
set-OnlyAt t i v l = (
  get_or-set_self t i v empty_slot l,
  λ j n. get_or-set_ne t i j v empty_slot n,
  length-set t i v,
)

-- Where `observe` accepts a stage, the transaction was found, with the same session and with no
-- final event pending, and the event, with the time since the begin, is stored in its slot alone:
-- an in-progress stage as the progress event, and any other as the terminal event.
pub observe_accepted :
    (t : TransactionTracker) (k boot now : ℕ) (stage : TransactionStage)
    → (observe t k boot stage now).1 ≡ accepted
    → (i : ℕ) × (find_ t k ≡ some i)
      × ((slot_at t i).source_boot_id ≡ boot)
      × ((slot_at t i).terminal_pending ≡ false)
      × OnlyAt t (observe t k boot stage now).0 i (
          let event : TransactionEvent = record {
            transaction_id = k;
            stage = stage;
            elapsed_ms = sub32 now (slot_at t i).started_ms;
          } in
          if is_in_progress stage
          then record (slot_at t i) { progress = event; progress_pending = true }
          else record (slot_at t i) { terminal = event; terminal_pending = true })
observe_accepted t k boot now stage h = elim (observe-cases t k boot stage now) [
  | inl r ↦ absurd (r.refused (ground (arith, r.result)))
  | inr r ↦ (
    r.index,
    r.found,
    r.session,
    r.open_slot,
    rw r.result (unfold record_event in set-OnlyAt t r.index _ (find_-some t k r.index r.found).0),
  )
]

-- `drop_progress` finds the slot that was written just before.
drop_progress-set-OnlyAt :
    (t : TransactionTracker) (k i : ℕ) (v : Slot)
    → find_ t k ≡ some i
    → holds k v ≡ true
    → OnlyAt t (drop_progress (set t i v) k) i (record v { progress_pending = false })
unfolding drop_progress find_
drop_progress-set-OnlyAt t k i v f hv =
    let l = (find_-some t k i f).0 in
    let found = find_index?-set (holds k) t i v f hv in
    let mine = get_or-set_self t i v empty_slot l in
    let l' : i < length (set t i v) = rw (length-set t i v) l in
    let w = set-OnlyAt (set t i v) i (record v { progress_pending = false }) l' in
    rw (found, drop_progress)
      (rw mine (w.0, (λ j n. w.1 j n ∙ get_or-set_ne t i j v empty_slot n), w.2 ∙ length-set t i v))

-- Where `confirm_interruption` is accepted, the transaction was found, with the same session and
-- with no final event pending; its slot alone changes: the interruption, with the time since the
-- begin, is its terminal event, and no progress event is left to precede it.
pub confirm_interruption_accepted :
    (t : TransactionTracker) (k boot now : ℕ)
    → (confirm_interruption t k boot now).1 ≡ accepted
    → (i : ℕ) × (find_ t k ≡ some i)
      × ((slot_at t i).source_boot_id ≡ boot)
      × ((slot_at t i).terminal_pending ≡ false)
      × OnlyAt t (confirm_interruption t k boot now).0 i (record (slot_at t i) {
        terminal = record {
          transaction_id = k;
          stage = interrupted;
          elapsed_ms = sub32 now (slot_at t i).started_ms;
        };
        terminal_pending = true;
        progress_pending = false;
      })
unfolding confirm_interruption
confirm_interruption_accepted t k boot now h = elim (observe-cases t k boot interrupted now) [
  | inl r ↦ absurd (r.refused (ground (arith, r.result)))
  | inr r ↦ (
    r.index,
    r.found,
    r.session,
    r.open_slot,
    rw r.result (
        unfold record_event in
        drop_progress-set-OnlyAt t k r.index _ r.found (find_-some t k r.index r.found).1),
  )
]
