-- ===== src/Gate.antt =====
-- components/communication_net_protocol/inbound_command_gate.h: the replay guard behind the
-- canonical bytes of a command.
use esphome_communication_ne.Canonical.{CanonicalCommandView, encode_canonical_command}
use esphome_communication_ne.Prelude.{ℕ, Bool, false, Option, none, some, Bytes, block}
use esphome_communication_ne.Replay
use esphome_communication_ne.Replay.{
  Limits, InboundReplayGuard, InboundDecision, InboundTerminalView, Replayed, invalid,
}

pub record InboundCommandView : Type 0 where
  pub source_id : Option Bytes
  pub source_boot_id : ℕ
  pub transaction_id : ℕ
  pub intent : CanonicalCommandView

-- `InboundReplayGuard<Capacity, MaxSource>`: its other bounds are the template's defaults.
abbrev pub gate_limits : ℕ → Limits
gate_limits max_source = record { max_source = max_source; max_command = 192; max_terminal = 256 }

-- The state of the gate is its guard.
module _ (max_source : ℕ) where
  unfoldable pub admit :
      InboundReplayGuard → InboundCommandView → InboundReplayGuard × InboundDecision
  admit g command = elim (encode_canonical_command command.intent false 192) [
    | none ↦ (g, invalid)
    | some canonical ↦
        Replay.begin (gate_limits max_source) g command.source_id command.source_boot_id
          command.transaction_id (block canonical)
  ]

  unfoldable pub complete :
      InboundReplayGuard → InboundCommandView → InboundTerminalView → InboundReplayGuard × Bool
  complete g command result = elim (encode_canonical_command command.intent false 192) [
    | none ↦ (g, false)
    | some canonical ↦
        Replay.finish (gate_limits max_source) g command.source_id command.source_boot_id
          command.transaction_id (block canonical) result
  ]

  unfoldable pub replay_terminal :
      InboundReplayGuard → InboundCommandView → Bool → ℕ → Option Replayed
  replay_terminal g command out_is_null capacity =
      elim (encode_canonical_command command.intent false 192) [
        | none ↦ none
        | some canonical ↦
            Replay.get_terminal (gate_limits max_source) g command.source_id command.source_boot_id
              command.transaction_id (block canonical) out_is_null capacity
      ]

  unfoldable pub clear_old_terminal_session :
      InboundReplayGuard → Option Bytes → ℕ → InboundReplayGuard × ℕ
  clear_old_terminal_session g source_id old_boot_id =
      Replay.clear_source_session (gate_limits max_source) g source_id old_boot_id
