-- ===== src/Replay/State.antt =====
-- components/communication_net_protocol/inbound_replay_guard.h: the rows of the two tables of the
-- guard, their fields and the searches in them.
use esphome_communication_ne.Prelude.{
  ℕ, suc, Bool, false, not, ◌&&◌, Option, List, [], ◌==◌, length, get_or, replicate, find_index?,
  Bytes, str_eq, strnlen, memcmp, Span,
}

pub data InboundDecision : Type 0 where
  new_command duplicate_pending duplicate_terminal conflict : InboundDecision
  invalid full retired : InboundDecision

pub data InboundTerminalStatus : Type 0 where
  succeeded rejected failed : InboundTerminalStatus

pub record InboundTerminalView : Type 0 where
  pub status : InboundTerminalStatus
  pub result : Span

-- The template's bounds.
pub record Limits : Type 0 where
  pub max_source : ℕ
  pub max_command : ℕ
  pub max_terminal : ℕ

pub record Entry : Type 0 where
  pub transaction_id : ℕ
  pub sequence : ℕ
  pub terminal_data : Bytes
  pub command : Bytes
  pub terminal_length : ℕ
  pub command_length : ℕ
  pub terminal_status : InboundTerminalStatus
  pub occupied : Bool
  pub terminal : Bool
  pub session_index : ℕ

pub record Session : Type 0 where
  pub source_id : Bytes
  pub source_boot_id : ℕ
  pub retired_through : ℕ
  pub occupied : Bool

pub record InboundReplayGuard : Type 0 where
  pub entries : List Entry
  pub sessions : List Session
  pub sequence : ℕ

-- `Entry{}` and `Session{}`.
abbrev pub empty_entry : Limits → Entry
empty_entry lim = record {
  transaction_id = 0;
  sequence = 0;
  terminal_data = replicate lim.max_terminal 0;
  command = replicate lim.max_command 0;
  terminal_length = 0;
  command_length = 0;
  terminal_status = failed;
  occupied = false;
  terminal = false;
  session_index = 0;
}

abbrev pub empty_session : Session
empty_session = record { source_id = []; source_boot_id = 0; retired_through = 0; occupied = false }

abbrev pub empty_guard : Limits → ℕ → InboundReplayGuard
empty_guard lim capacity = record {
  entries = replicate capacity (empty_entry lim);
  sessions = replicate capacity empty_session;
  sequence = 0;
}

abbrev pub session_at : InboundReplayGuard → ℕ → Session
session_at g i = get_or g.sessions i empty_session

abbrev pub is_session : Bytes → ℕ → Session → Bool
is_session source_id source_boot_id s =
    s.occupied && s.source_boot_id == source_boot_id && str_eq s.source_id source_id

-- `none` where the source returns `Capacity`.
unfoldable pub find_session_index_ : InboundReplayGuard → Bytes → ℕ → Option ℕ
find_session_index_ g source_id source_boot_id =
    find_index? (is_session source_id source_boot_id) g.sessions

unfoldable pub bounded_length_ : Limits → Bytes → ℕ
bounded_length_ lim value = strnlen (suc lim.max_source) value

-- The entry holds the transaction of the session.
abbrev pub is_entry : ℕ → ℕ → Entry → Bool
is_entry session_index transaction_id e =
    e.occupied && e.session_index == session_index && e.transaction_id == transaction_id

-- `entry.command_length == command_length && memcmp(entry.command, command, command_length) == 0`
abbrev pub same_command : Bytes → Entry → Bool
same_command command e =
    e.command_length == length command && memcmp e.command command (length command)

abbrev pub is_free : Entry → Bool
is_free e = not e.occupied
