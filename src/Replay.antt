-- ===== src/Replay.antt =====
-- components/communication_net_protocol/inbound_replay_guard.h: the device-wide table of inbound
-- commands. `entries_` and `sessions_` are lists of one length, the capacity; a pointer into one
-- is an index.
mod State
pub mod Eviction
pub mod Writes
pub mod Finish
pub mod Seen
pub mod Once
unfoldable pub use State.{find_session_index_, bounded_length_}
pub use State.*
use esphome_communication_ne.Prelude.{
  ℕ, zero, suc, ◌+◌, ◌%◌, ◌^◌, Bool, true, false, not, ◌&&◌, ◌||◌, Option, none, some, List, [],
  ◌∷◌, ◌==◌, ltb, leb, if◌then◌else◌, length, get_or, set, take, find_index?, Bytes, memcpy, Span,
  null, block, span_length, add32,
}

-- The scan for the oldest terminal entry: `i` counts, `best` is `free_entry` with its sequence.
unfoldable pub oldest_from : ℕ → Option (ℕ × ℕ) → List Entry → Option ℕ
oldest_from i none [] = none
oldest_from i (some (j, s)) [] = some j
oldest_from i none (e ∷ es) =
    oldest_from (suc i) (if e.terminal && e.occupied then some (i, e.sequence) else none) es
oldest_from i (some (j, s)) (e ∷ es) =
    oldest_from (suc i)
      (if e.terminal && e.occupied && ltb e.sequence s then some (i, e.sequence) else some (j, s))
      es

-- Where the new command goes: an entry, with the guard as eviction left it, or a refusal.
pub data Room : Type 0 where
  room : ℕ → InboundReplayGuard → Room
  no_room : InboundDecision → InboundReplayGuard → Room

abbrev pub raise_watermark : ℕ → Session → Session
raise_watermark transaction_id s =
    if ltb s.retired_through transaction_id
    then record s { retired_through = transaction_id }
    else s

-- The eviction of the entry at `i` for the session at `session_index`.
unfoldable pub evict : Limits → InboundReplayGuard → ℕ → ℕ → ℕ → Room
evict lim g session_index transaction_id i =
    let e = get_or g.entries i (empty_entry lim) in
    if leb (length g.sessions) e.session_index
    then no_room full g
    else if not (session_at g e.session_index).occupied
    then no_room full g
    else let s = raise_watermark e.transaction_id (session_at g e.session_index) in
      let g' : InboundReplayGuard = record g { sessions = set g.sessions e.session_index s } in
      if e.session_index == session_index && leb transaction_id s.retired_through
      then no_room retired g'
      else room i g'

unfoldable pub find_room : Limits → InboundReplayGuard → ℕ → ℕ → Room
find_room lim g session_index transaction_id = elim (find_index? is_free g.entries) [
  | some i ↦ room i g
  | none ↦ elim (oldest_from 0 none g.entries) [
    | none ↦ no_room full g
    | some i ↦ evict lim g session_index transaction_id i
  ]
]

-- The writes of `begin` once session and entry are chosen.
unfoldable pub write_session : InboundReplayGuard → ℕ → Bytes → ℕ → InboundReplayGuard
write_session g i source_id source_boot_id = if (session_at g i).occupied then g else record g {
  sessions = set g.sessions i (record (session_at g i) {
    source_id = source_id;
    source_boot_id = source_boot_id;
    occupied = true;
  });
}

unfoldable pub write_entry : Limits → InboundReplayGuard → ℕ → ℕ → ℕ → Bytes → InboundReplayGuard
write_entry lim g i session_index transaction_id command = record g {
  entries = set g.entries i (record (empty_entry lim) {
    session_index = session_index % 2 ^ 8;
    transaction_id = transaction_id;
    command = memcpy (empty_entry lim).command command;
    command_length = length command % 2 ^ 8;
    sequence = add32 g.sequence 1;
    occupied = true;
  });
  sequence = add32 g.sequence 1;
}

-- `begin` from the choice of the entry on, for the session at `session_index`.
unfoldable pub admit_new :
    Limits → InboundReplayGuard → ℕ → Bytes → ℕ → ℕ → Bytes → InboundReplayGuard × InboundDecision
admit_new lim g session_index source_id source_boot_id transaction_id command =
    elim (find_room lim g session_index transaction_id) [
      | no_room decision g' ↦ (g', decision)
      | room i g' ↦ (
        write_entry lim (write_session g' session_index source_id source_boot_id) i session_index
            transaction_id command,
        new_command,
      )
    ]

-- `begin` for a session that is in the table.
unfoldable pub begin_known :
    Limits → InboundReplayGuard → ℕ → Bytes → ℕ → ℕ → Bytes → InboundReplayGuard × InboundDecision
begin_known lim g session_index source_id source_boot_id transaction_id command =
    elim (find_index? (is_entry session_index transaction_id) g.entries) [
      | some i ↦
          let e = get_or g.entries i (empty_entry lim) in
          (
            g,
            if not (same_command command e)
                then conflict
                else if e.terminal
                then duplicate_terminal
                else duplicate_pending,
          )
      | none ↦
          if leb transaction_id (session_at g session_index).retired_through
          then (g, retired)
          else admit_new lim g session_index source_id source_boot_id transaction_id command
    ]

-- `begin` for a session that is not.
unfoldable pub begin_unknown :
    Limits → InboundReplayGuard → Bytes → ℕ → ℕ → Bytes → InboundReplayGuard × InboundDecision
begin_unknown lim g source_id source_boot_id transaction_id command =
    elim (find_index? (λ (s : Session). not s.occupied) g.sessions) [
      | none ↦ (g, full)
      | some i ↦ admit_new lim g i source_id source_boot_id transaction_id command
    ]

unfoldable pub begin_valid :
    Limits → InboundReplayGuard → Bytes → ℕ → ℕ → Bytes → InboundReplayGuard × InboundDecision
begin_valid lim g source_id source_boot_id transaction_id command =
    elim (find_session_index_ g source_id source_boot_id) [
      | some i ↦ begin_known lim g i source_id source_boot_id transaction_id command
      | none ↦ begin_unknown lim g source_id source_boot_id transaction_id command
    ]

unfoldable pub begin :
    Limits → InboundReplayGuard → Option Bytes → ℕ → ℕ → Span → InboundReplayGuard × InboundDecision
unfolding bounded_length_
begin lim g none source_boot_id transaction_id command = (g, invalid)
begin lim g (some source_id) source_boot_id transaction_id (null n) = (g, invalid)
begin lim g (some source_id) source_boot_id transaction_id (block command) =
    if source_boot_id == 0
      || transaction_id == 0
      || length command == 0
      || ltb lim.max_command (length command)
      || bounded_length_ lim source_id == 0
      || ltb lim.max_source (bounded_length_ lim source_id)
    then (g, invalid)
    else begin_valid lim g source_id source_boot_id transaction_id command

-- The entry of the transaction with the very command.
abbrev pub is_same_entry : ℕ → ℕ → Bytes → Entry → Bool
is_same_entry session_index transaction_id command e =
    is_entry session_index transaction_id e && same_command command e

abbrev pub span_bytes : Span → Bytes
span_bytes (null n) = []
span_bytes (block b) = b

abbrev pub span_is_valid : Span → Bool
span_is_valid (null n) = n == 0
span_is_valid (block b) = true

abbrev pub with_terminal : InboundTerminalView → Entry → Entry
with_terminal r e = record e {
  terminal_status = r.status;
  terminal_data = memcpy e.terminal_data (span_bytes r.result);
  terminal_length = span_length r.result % 2 ^ 16;
  terminal = true;
}

unfoldable pub finish :
    Limits
    → InboundReplayGuard
    → Option Bytes
    → ℕ
    → ℕ
    → Span
    → InboundTerminalView
    → InboundReplayGuard × Bool
finish lim g none source_boot_id transaction_id command r = (g, false)
finish lim g (some source_id) source_boot_id transaction_id (null n) r = (g, false)
finish lim g (some source_id) source_boot_id transaction_id (block command) r =
    if length command == 0
      || ltb lim.max_command (length command)
      || ltb lim.max_terminal (span_length r.result)
      || not (span_is_valid r.result)
    then (g, false)
    else elim (find_session_index_ g source_id source_boot_id) [
      | none ↦ (g, false)
      | some s ↦ elim (find_index? (is_same_entry s transaction_id command) g.entries) [
        | none ↦ (g, false)
        | some i ↦
            let e = get_or g.entries i (empty_entry lim) in
            if e.terminal
            then (g, false)
            else (record g { entries = set g.entries i (with_terminal r e) }, true)
      ]
    ]

-- What `get_terminal` writes through its reference arguments: `out` gets the first `written`
-- bytes, `data` here.
pub record Replayed : Type 0 where
  pub status : InboundTerminalStatus
  pub payload : Bytes
  pub written : ℕ

-- `out_is_null` tells whether the caller gave a buffer; `capacity` is its size.
unfoldable pub get_terminal :
    Limits → InboundReplayGuard → Option Bytes → ℕ → ℕ → Span → Bool → ℕ → Option Replayed
get_terminal lim g none source_boot_id transaction_id command out_is_null capacity = none
get_terminal lim g (some source_id) source_boot_id transaction_id (null n) out_is_null capacity =
    none
get_terminal lim g (some source_id) source_boot_id transaction_id (block command) out_is_null
      capacity =
    if length command == 0 || ltb lim.max_command (length command)
    then none
    else elim (find_session_index_ g source_id source_boot_id) [
      | none ↦ none
      | some s ↦
          elim (find_index?
            (λ (e : Entry).
              e.terminal
              && is_same_entry s transaction_id command e
              && leb e.terminal_length capacity
              && not (out_is_null && not (e.terminal_length == 0)))
            g.entries) [
              | none ↦ none
              | some i ↦
                  let e = get_or g.entries i (empty_entry lim) in
                  some (record {
                    status = e.terminal_status;
                    payload = take e.terminal_length e.terminal_data;
                    written = e.terminal_length;
                  })
            ]
    ]

-- The loop of `clear_source_session`: the entries, the session and the count that it leaves.
unfoldable pub clear_entries : Limits → ℕ → List Entry → Session → List Entry × Session × ℕ
clear_entries lim i [] s = ([], s, 0)
clear_entries lim i (e ∷ es) s =
    let clears = e.occupied && e.terminal && e.session_index == i in
    let rest = clear_entries lim i es (if clears then raise_watermark e.transaction_id s else s) in
    if clears then (empty_entry lim ∷ rest.0, rest.1, rest.2 + 1) else (e ∷ rest.0, rest.1, rest.2)

unfoldable pub clear_source_session :
    Limits → InboundReplayGuard → Option Bytes → ℕ → InboundReplayGuard × ℕ
unfolding clear_entries
clear_source_session lim g none old_boot_id = (g, 0)
clear_source_session lim g (some source_id) old_boot_id =
    if old_boot_id == 0 then (g, 0) else elim (find_session_index_ g source_id old_boot_id) [
      | none ↦ (g, 0)
      | some i ↦
          let cleared = clear_entries lim i g.entries (session_at g i) in
          (record g { entries = cleared.0; sessions = set g.sessions i cleared.1 }, cleared.2)
    ]

-- The calls that change the guard, from any transport and in any order.
pub data Call : Type 0 where
  begin_call :
      (source_id : Option Bytes) (source_boot_id transaction_id : ℕ) (command : Span) → Call
  finish_call :
      (source_id : Option Bytes) (source_boot_id transaction_id : ℕ) (command : Span)
      (result : InboundTerminalView)
      → Call
  clear_call : (source_id : Option Bytes) (old_boot_id : ℕ) → Call

unfoldable pub after : Limits → Call → InboundReplayGuard → InboundReplayGuard
after lim (begin_call source boot k command) g = (begin lim g source boot k command).0
after lim (finish_call source boot k command r) g = (finish lim g source boot k command r).0
after lim (clear_call source boot) g = (clear_source_session lim g source boot).0
