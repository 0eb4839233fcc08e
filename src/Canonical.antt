-- ===== src/Canonical.antt =====
-- components/communication_net_protocol/canonical_command.h: the bytes that identify a command.
pub mod Unambiguous
use esphome_communication_ne.Prelude.{
  ℕ, ◌+◌, ◌%◌, ◌^◌, Bool, true, false, not, ◌&&◌, ◌||◌, Option, none, some, List, [], ◌∷◌, ◌++◌,
  ◌==◌, ltb, if◌then◌else◌, take, Bytes, strnlen, Span, null, block, span_length,
}

-- The pointers are null, or C strings.
pub record CanonicalCommandView : Type 0 where
  pub device : Option Bytes
  pub resource : Option Bytes
  pub action : Option Bytes
  pub arguments : Span

-- One round of the loop over `parts`: the string, if the round passes.
unfoldable pub check_part : Option Bytes → Option Bytes
check_part none = none
check_part (some part) = let n = strnlen 64 part in if n == 0 || ltb 63 n then none else some part

abbrev pub part_length : Bytes → ℕ
part_length part = strnlen 64 part

-- One round of the loop that writes: the length byte and the text.
unfoldable pub write_part : Bytes → Bytes
write_part part = (part_length part % 2 ^ 8) ∷ take (part_length part) part

abbrev pub argument_bytes : Span → Bytes
argument_bytes (null n) = []
argument_bytes (block b) = b

abbrev pub arguments_are_valid : Span → Bool
arguments_are_valid (null n) = n == 0
arguments_are_valid (block b) = true

unfoldable pub required_size : Bytes → Bytes → Bytes → Span → ℕ
required_size device resource action arguments =
    1
    + 3
    + span_length arguments
    + 1
    + part_length device
    + part_length resource
    + part_length action

unfoldable pub canonical_bytes : Bytes → Bytes → Bytes → Span → Bytes
unfolding write_part
canonical_bytes device resource action arguments =
    1
    ∷ (write_part device
        ++ (write_part resource
            ++ (write_part action ++ ((span_length arguments % 2 ^ 8) ∷ argument_bytes arguments))))

-- The bytes that are written to `out`, or `none` where the function returns false, with `written`
-- 0. `out_is_null` tells whether `out` is null; `capacity` is its size.
unfoldable pub encode_canonical_command : CanonicalCommandView → Bool → ℕ → Option Bytes
unfolding check_part required_size
encode_canonical_command view out_is_null capacity =
    if out_is_null
      || not (arguments_are_valid view.arguments)
      || ltb 128 (span_length view.arguments)
    then none
    else elim (check_part view.device) [
      | none ↦ none
      | some device ↦ elim (check_part view.resource) [
        | none ↦ none
        | some resource ↦ elim (check_part view.action) [
          | none ↦ none
          | some action ↦
              let required = required_size device resource action view.arguments in
              if ltb capacity required || ltb 192 required
              then none
              else some (canonical_bytes device resource action view.arguments)
        ]
      ]
    ]
