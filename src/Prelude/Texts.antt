-- ===== src/Prelude/Texts.antt =====
-- String literals of the source as byte strings; all of them are ASCII.
use Prim.Native.Char.{code}
use Prim.Native.String.{String}
use mathlib.Core.List.{[], ◌∷◌}
use esphome_communication_ne.Prelude.Lists.{Bytes}

abbrev pub codes : String → Bytes
codes String.[] = []
codes (String.◌∷◌ c s) = code c ∷ codes s
