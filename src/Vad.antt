-- ===== src/Vad.antt =====
-- The voice activity detector, xiaoai-agent/src/vad.rs.
pub mod Level
pub mod Collector
pub mod Chunks
pub mod Utterances
pub mod Durations
