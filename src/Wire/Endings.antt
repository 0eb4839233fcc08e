-- ===== src/Wire/Endings.antt =====
-- mqtt_envelope_decoder.h and mqtt_result_decoder.h: the loops over the members of an object end.
use esphome_communication_ne.Wire.Envelope
use esphome_communication_ne.Wire.Envelope.Loops
use esphome_communication_ne.Wire.Envelope.{Envelope}
use esphome_communication_ne.Wire.Result
use esphome_communication_ne.Wire.Result.Loops as ResultLoops
use esphome_communication_ne.Wire.Result.{Result}
