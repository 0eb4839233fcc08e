-- ===== src/Tests/Canonical.antt =====
-- tests/canonical_command_test.cpp, on the model.
use esphome_communication_ne.Canonical.{
  CanonicalCommandView, check_part, write_part, required_size, canonical_bytes,
  encode_canonical_command, argument_bytes,
}
use esphome_communication_ne.Canonical.Unambiguous.{Encodes, encode-eq-some_iff, encode-injective}
use esphome_communication_ne.Prelude.{
  ◌≡◌, ◌↔◌, refl, true, false, some, none, ◌∷◌, [], strnlen, Bytes, null, block, codes,
}

program : Unit {0}
unfolding strnlen check_part write_part required_size canonical_bytes encode_canonical_command
program = tt

abbrev toggle : CanonicalCommandView
toggle = record {
  device = some (codes "lamp");
  resource = some (codes "light");
  action = some (codes "toggle");
  arguments = block (7 ∷ 8 ∷ []);
}

abbrev toggle_bytes : Bytes
toggle_bytes =
    1 ∷ 4 ∷ 0x6c ∷ 0x61 ∷ 0x6d ∷ 0x70 ∷ 5 ∷ 0x6c ∷ 0x69 ∷ 0x67 ∷ 0x68 ∷ 0x74 ∷ 6 ∷ 0x74 ∷ 0x6f
    ∷ 0x67 ∷ 0x67 ∷ 0x6c ∷ 0x65 ∷ 2 ∷ 7 ∷ 8 ∷ []

encoded : encode_canonical_command toggle false 22 ≡ some toggle_bytes
unfolding program
encoded = refl

refused :
    (encode_canonical_command toggle true 192 ≡ none)
    × (encode_canonical_command toggle false 21 ≡ none)
    × (encode_canonical_command (record toggle { device = none }) false 192 ≡ none)
    × (encode_canonical_command (record toggle { action = some [] }) false 192 ≡ none)
    × (encode_canonical_command (record toggle { arguments = null 2 }) false 192 ≡ none)
unfolding program
refused = (refl, refl, refl, refl, refl)

encode-eq-some_iff_example :
    (encode_canonical_command toggle false 22 ≡ some toggle_bytes) ↔ Encodes toggle 22 toggle_bytes
encode-eq-some_iff_example = encode-eq-some_iff toggle 22

encode-injective_example :
    (toggle.device ≡ toggle.device)
    × (toggle.resource ≡ toggle.resource)
    × (toggle.action ≡ toggle.action)
    × (argument_bytes toggle.arguments ≡ argument_bytes toggle.arguments)
encode-injective_example = encode-injective toggle toggle false false 22 22 encoded encoded
