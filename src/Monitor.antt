-- ===== src/Monitor.antt =====
-- The native keyword monitor, xiaoai-agent/src/monitor/kws.rs.
pub mod Vpm
pub mod InitBlock
pub mod Debounce
