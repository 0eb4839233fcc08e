-- ===== src/Wire.antt =====
-- The payloads that arrive over MQTT: their JSON, read by mqtt_envelope_decoder.h,
-- mqtt_command_decoder.h and mqtt_result_decoder.h of components/communication_net_protocol.
pub mod Reader
pub mod Shrinks
pub mod Rounds
pub mod Printed
pub mod Yields
pub mod Decimal
pub mod Envelope
pub mod Result
pub mod Probe
pub mod Endings
