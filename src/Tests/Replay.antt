-- ===== src/Tests/Replay.antt =====
-- tests/inbound_replay_guard_test.cpp, on the model.
use esphome_communication_ne.Prelude.{
  ◌≡◌, ◌≤◌, refl, false, some, none, List, ◌∷◌, [], find_index?, str_eq, strnlen, Bytes, null,
  block, arith,
}
use esphome_communication_ne.Replay.{
  Limits, InboundReplayGuard, InboundTerminalView, succeeded, new_command, conflict,
  duplicate_pending, duplicate_terminal, invalid, empty_guard, find_session_index_, bounded_length_,
  oldest_from, evict, find_room, write_session, write_entry, admit_new, begin_known, begin_unknown,
  begin_valid, begin, finish, get_terminal, clear_entries, clear_source_session, Call, begin_call,
  finish_call, clear_call, after,
}
use esphome_communication_ne.Replay.Once.{admissions, admissions-le_one}

program : Unit {0}
unfolding find_index? str_eq strnlen find_session_index_ bounded_length_ oldest_from evict find_room
    write_session write_entry admit_new begin_known begin_unknown begin_valid begin finish
    get_terminal clear_entries clear_source_session after admissions
program = tt

abbrev limits : Limits
limits = record { max_source = 16; max_command = 8; max_terminal = 256 }

abbrev sender : Bytes
sender = b's' ∷ b'e' ∷ []

abbrev toggle_on : Bytes
toggle_on = 1 ∷ 0 ∷ 2 ∷ []

abbrev toggle_off : Bytes
toggle_off = 1 ∷ 0 ∷ 3 ∷ []

abbrev confirmed : InboundTerminalView
confirmed = record { status = succeeded; result = block (0 ∷ 19 ∷ 255 ∷ []) }

abbrev start : InboundReplayGuard
start = empty_guard limits 2

abbrev one : InboundReplayGuard
one = (begin limits start (some sender) 1 10 (block toggle_on)).0

abbrev done : InboundReplayGuard
done = (finish limits one (some sender) 1 10 (block toggle_on) confirmed).0

decisions :
    ((begin limits start none 1 10 (block toggle_on)).1 ≡ invalid)
    × ((begin limits start (some sender) 0 10 (block toggle_on)).1 ≡ invalid)
    × ((begin limits start (some sender) 1 10 (null 3)).1 ≡ invalid)
    × ((begin limits start (some sender) 1 10 (block toggle_on)).1 ≡ new_command)
    × ((begin limits one (some sender) 1 10 (block toggle_on)).1 ≡ duplicate_pending)
    × ((begin limits one (some sender) 1 10 (block toggle_off)).1 ≡ conflict)
    × ((begin limits done (some sender) 1 10 (block toggle_on)).1 ≡ duplicate_terminal)
    × ((finish limits done (some sender) 1 10 (block toggle_on) confirmed).1 ≡ false)
    × (get_terminal limits done (some sender) 1 10 (block toggle_on) false 2 ≡ none)
    × (get_terminal limits done (some sender) 1 10 (block toggle_on) false 3
        ≡ some (record { status = succeeded; payload = 0 ∷ 19 ∷ 255 ∷ []; written = 3 }))
unfolding program
decisions = (refl, refl, refl, refl, refl, refl, refl, refl, refl, refl)

abbrev later : List Call
later =
    begin_call (some sender) 1 10 (block toggle_on)
    ∷ finish_call (some sender) 1 10 (block toggle_on) confirmed
    ∷ begin_call (some sender) 1 11 (block toggle_on)
    ∷ finish_call (some sender) 1 11 (block toggle_on) confirmed
    ∷ begin_call (some sender) 1 12 (block toggle_on)
    ∷ begin_call (some sender) 1 10 (block toggle_on)
    ∷ clear_call (some sender) 1
    ∷ begin_call (some sender) 1 11 (block toggle_on)
    ∷ []

admitted : admissions limits start later sender 1 10 ≡ 1
unfolding program
admitted = refl

admissions-le_one_example : admissions limits start later sender 1 10 ≤ 1
admissions-le_one_example = admissions-le_one limits 2 later sender 1 10 (omega arith)
