-- ===== src/Tracker/Deadline.antt =====
-- transaction_tracker.h: `expire` against the clock, which is a `uint32_t` and wraps.
use esphome_communication_ne.Prelude.{
  ℕ, ◌^◌, true, false, ◌<◌, ◌≡◌, arith, add32, sub32, ltb, if◌then◌else◌,
}
use esphome_communication_ne.Tracker.{
  TransactionTracker, Slot, expired, slot_at, holds, expire, expire_slot,
}
use esphome_communication_ne.Tracker.Slots.{slot_at-expire}

expire_slot_deadline :
    (s : Slot) (k d : ℕ)
    → holds k s ≡ true
    → s.terminal_pending ≡ false
    → s.started_ms < 2 ^ 32
    → d < 2 ^ 32
    → expire_slot (add32 s.started_ms d) s ≡ (
        if ltb d s.timeout_ms then s else record s {
          terminal = record { transaction_id = k; stage = expired; elapsed_ms = d };
          terminal_pending = true;
        })
unfolding expire_slot
expire_slot_deadline s k d h p b l = ground (arith, elapsed)
  where
    elapsed : sub32 (add32 s.started_ms d) s.started_ms ≡ d
    elapsed = omega arith

-- A transaction without a final event, checked `d` milliseconds after it began with `d` below
-- 2 ^ 32, is left as it is where `d` is below its timeout, and else has an expired event of `d`
-- milliseconds pending as its terminal event. The clock may wrap in between.
pub expire_deadline :
    (t : TransactionTracker) (k i d : ℕ)
    → holds k (slot_at t i) ≡ true
    → (slot_at t i).terminal_pending ≡ false
    → (slot_at t i).started_ms < 2 ^ 32
    → d < 2 ^ 32
    → slot_at (expire (add32 (slot_at t i).started_ms d) t) i ≡ (
        if ltb d (slot_at t i).timeout_ms then slot_at t i else record (slot_at t i) {
          terminal = record { transaction_id = k; stage = expired; elapsed_ms = d };
          terminal_pending = true;
        })
expire_deadline t k i d h p s l = rw slot_at-expire (expire_slot_deadline (slot_at t i) k d h p s l)
