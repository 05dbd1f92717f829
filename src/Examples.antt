-- ===== src/Examples.antt =====
-- The theorems at concrete inputs, and runs of the definitions.
pub mod SessionRuns
pub mod Tails
pub mod Attempts
pub mod Sound
pub mod Songs
pub mod Keywords
pub mod Settings
pub mod Supervision
pub mod Loop
pub mod Talk
