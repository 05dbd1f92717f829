-- ===== src/Session.antt =====
-- The native Qwen realtime session (xiaoai-agent/src/qwen_voice.rs and qwen_voice/webrtc_session.rs).
pub mod Machine
pub mod Player
pub mod Wire
pub mod LoopState
pub mod ServerEvents
pub mod Outcomes
pub mod EventLoop
pub mod Reconnect
pub mod Supervisor
pub mod Tools
