-- ===== src/Agent.antt =====
-- The agent of xiaoai-agent/src/agent.rs: the text that is spoken, and the turns of a conversation.
pub mod Speech
pub mod Turns
pub mod Conversation
