-- ===== src/Audio.antt =====
-- The sample formats and the conversion of the microphone's rate for the Qwen session.
pub mod Bytes
pub mod Upsample
pub mod Stream
pub mod Decoder
